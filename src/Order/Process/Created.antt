-- ===== src/Order/Process/Created.antt =====
-- What the creation of an order reports.
use cartona_odoo.Base.{
  ℕ, ◌≡◌, refl, sym, ◌∙◌, ap, subst, Bool, true, false, not, ◌||◌, Option, none, some, List, [],
  ◌∷◌, ◌++◌, any, is_some, Bool-cases, inl, inr,
}
use cartona_odoo.Py.Exn.{Exn, Result, ok, err}
use cartona_odoo.Py.Json.{Json, Python}
use cartona_odoo.Config.Data.{Config}
use cartona_odoo.Order.Data.{Order}
use cartona_odoo.Order.Issue.{Issue, Outcome, make_issue, any_error}
use cartona_odoo.Order.Issue.Reports.{any_error-snoc}
use cartona_odoo.Order.Validate.{Validated}
use cartona_odoo.Order.Transition.{apply_cartona_state_action}
use cartona_odoo.Order.Lines.Laws.{ReportsStep, create_order_lines-Reports}
use cartona_odoo.Order.World.{
  World, Env, add_issue, put_order, remove_order, order_issue, is_line_entry,
}
use cartona_odoo.Order.Create.{
  Made, report_failed, failed_unlink, create_failed, unlinked, unlink_and, without_lines,
  not_applied, applied_new, filled_new, fill_new, created_new, create_for, create_new_order,
  find_or_create_customer,
}
use cartona_odoo.Order.Process.{Returned}

-- What a caller may rely on when it reads a result.
abbrev pub Honest : {F : Type 0} → Outcome F → Type 0
Honest r =
    (r.success ≡ true → (any_error r.issues ≡ false) × (is_some r.order ≡ true))
    × (r.success ≡ false → any_error r.issues ≡ true)

-- What a caller reads off an outcome.
abbrev pub Truthful : {F : Type 0} → Outcome F → Type 0
Truthful r = (any_error r.issues ≡ not r.success) × (not r.success || is_some r.order ≡ true)

pub Honest→Truthful : {F : Type 0} (r : Outcome F) → Honest r → Truthful r
Honest→Truthful r (good, bad) = elim (Bool-cases r.success) [
  | inl done ↦ ((good done).0 ∙ ap not (sym done), rw done (good done).1)
  | inr lost ↦ (bad lost ∙ ap not (sym lost), rw lost refl)
]

module _ (P : Python) (env : Env P.Float) where
  abbrev pub HonestReturn : Returned P env → Type 0
  HonestReturn (err e, w) = Unit
  HonestReturn (ok r, w) = Honest r

  -- A creation that returns an order has reported nothing, one that returns none has.
  abbrev pub Reported : List Issue → Made P env → Type 0
  Reported before (err e, w) = Unit
  Reported before (ok none, w) = any_error w.issues ≡ true
  Reported before (ok (some o), w) = w.issues ≡ before

  report_failed-Reported :
      (before : List Issue) (v : Validated P.Float) (raw : Json) (e : Exn) (w : World P.Float)
      → Reported before (report_failed P env v raw e w)
  unfolding report_failed add_issue order_issue make_issue
  report_failed-Reported before v raw e w = any_error-snoc w.issues _ refl

  create_failed-Reported :
      (before : List Issue) (v : Validated P.Float) (raw : Json) (o : Option (Order P.Float))
      (e : Exn) (w : World P.Float)
      → Reported before (create_failed P env v raw o e w)
  unfolding create_failed
  create_failed-Reported before v raw none e w = report_failed-Reported before v raw e w
  create_failed-Reported before v raw (some o) e w = by_unlink (env.unlink_order o)
    where
      by_unlink : (r : Option Exn) → Reported before (failed_unlink P env v raw o e w r)
      by_unlink none = report_failed-Reported before v raw e (remove_order o w)
      by_unlink (some again) = tt

  unlinked-Reported :
      (before : List Issue) (report : World P.Float → World P.Float) (v : Validated P.Float)
      (raw : Json) (o : Order P.Float) (w : World P.Float) (r : Option Exn)
      → any_error (report (remove_order o w)).issues ≡ true
      → Reported before (unlinked P env report v raw o w r)
  unfolding unlinked
  unlinked-Reported before report v raw o w none h = h
  unlinked-Reported before report v raw o w (some e) h =
      create_failed-Reported before v raw (some o) e w

  without_lines-any_error :
      (v : Validated P.Float) (raw : Json) (w : World P.Float)
      → any_error w.issues ≡ true
      → any_error (without_lines P env v raw w).issues ≡ true
  unfolding without_lines add_issue order_issue make_issue
  without_lines-any_error v raw w h =
      elim (Bool-cases (any (λ (i : Issue). is_line_entry i.entry_type) w.issues)) [
        | inl a ↦ rw a h
        | inr b ↦ rw b (any_error-snoc w.issues _ refl)
      ]

  applied_new-Reported :
      (v : Validated P.Float) (raw : Json) (w : World P.Float) (r : Bool × Order P.Float)
      → Reported w.issues (applied_new P env v raw w r)
  unfolding applied_new not_applied unlink_and add_issue order_issue make_issue put_order
      remove_order
  applied_new-Reported v raw w (true, o) = refl
  applied_new-Reported v raw w (false, o) =
      unlinked-Reported w.issues (λ u. u) v raw o (not_applied P env v raw o w) (env.unlink_order o)
        (any_error-snoc w.issues _ refl)

  filled_new-Reported :
      (v : Validated P.Float) (config : Config) (raw : Json) (w : World P.Float)
      (s : Bool × Order P.Float × List Issue)
      → ReportsStep P env.browse env.create_line config w.issues s
      → Reported w.issues (filled_new P env v raw w s)
  unfolding filled_new unlink_and put_order remove_order
  filled_new-Reported v config raw w (true, o, issues) e =
      subst (λ i. Reported i (filled_new P env v raw w (true, o, issues))) e
        (applied_new-Reported v raw (put_order o (record w { issues = issues }))
          (apply_cartona_state_action env.odoo P v.status o))
  filled_new-Reported v config raw w (false, o, issues) e =
      let w' : World P.Float = put_order o (record w { issues = issues }) in
      unlinked-Reported w.issues (without_lines P env v raw) v raw o w' (env.unlink_order o)
        (without_lines-any_error v raw (remove_order o w') e)

  created_new-Reported :
      (v : Validated P.Float) (config : Config) (raw : Json) (w : World P.Float)
      (r : Result (Order P.Float))
      → Reported w.issues (created_new P env v config raw w r)
  unfolding created_new fill_new
  created_new-Reported v config raw w (err e) = create_failed-Reported w.issues v raw none e w
  created_new-Reported v config raw w (ok o) =
      let w' : World P.Float = record w { orders = w.orders ++ (o ∷ []) } in
      filled_new-Reported v config raw w' _ (
        create_order_lines-Reports P env.browse env.create_line config v.order_lines raw o w.issues)

  create_for-Reported :
      (v : Validated P.Float) (config : Config) (raw : Json) (partner : Option ℕ)
      (w : World P.Float)
      → Reported w.issues (create_for P env v config raw partner w)
  unfolding create_for add_issue order_issue make_issue
  create_for-Reported v config raw none w = any_error-snoc w.issues _ refl
  create_for-Reported v config raw (some partner) w = created_new-Reported v config raw w _

  pub create_new_order-Reported :
      (v : Validated P.Float) (config : Config) (raw : Json) (w : World P.Float)
      → Reported w.issues (create_new_order P env v config raw w)
  unfolding create_new_order find_or_create_customer
  create_new_order-Reported v config raw w = create_for-Reported v config raw _ _
