-- ===== src/Order/Process/Contract.antt =====
-- The result of an import and its issues, in models/cartona_order_processor.py.
use cartona_odoo.Base.{
  ℕ, ◌≡◌, refl, ◌∙◌, ap, ap₂, Bool, true, false, not, ◌||◌, Option, none, some, List, [], ◌++◌,
  arith, Bool-cases, inl, inr,
}
use cartona_odoo.Py.Exn.{Result, ok, err}
use cartona_odoo.Py.Json.{Json, Python}
use cartona_odoo.Config.Data.{Config}
use cartona_odoo.Order.Data.{Order, OrderState, Text}
use cartona_odoo.Order.Issue.{
  Issue, Status, make_issue, make_result, any_error, is_error_status, text,
}
use cartona_odoo.Order.Issue.Reports.{Reports, any_error-snoc, any_error-snoc_other}
use cartona_odoo.Order.Validate.{Validated, validate_order_data}
use cartona_odoo.Order.Validate.Laws.{Verdict, validate_order_data-Verdict}
use cartona_odoo.Order.Transition.{map_state, is_cancel_status, mark_error}
use cartona_odoo.Order.Lines.Laws.{ensure_order_lines-Reports}
use cartona_odoo.Order.World.{
  World, Env, get_cartona_config, add_issue, put_order, order_issue, ack_and_return, char_differs,
  state_eq,
}
use cartona_odoo.Order.Create.{Made}
use cartona_odoo.Order.Process.{
  Returned, refreshed, refresh_to, matched_existing, process_found, process_under, failed,
  succeeded, refresh, process_existing, process_new, process_validated, process_checked,
  process_body, unexpected, process_cartona_order, find_existing_order,
}
use cartona_odoo.Order.Update.{updated_to, update_known, update_existing_order}
use cartona_odoo.Order.Process.Created.{
  Honest, Truthful, Honest→Truthful, HonestReturn, Reported, create_new_order-Reported,
}

module _ (P : Python) (env : Env P.Float) where
  failed-HonestReturn :
      (raw : Json) (o : Option (Order P.Float)) (w : World P.Float)
      → any_error w.issues ≡ true
      → HonestReturn P env (failed P env raw o w)
  unfolding failed make_result
  failed-HonestReturn raw o w h = ground arith

  succeeded-HonestReturn :
      (context : Option ℕ) (raw : Json) (status : Status) (message : Text) (is_new updated : Bool)
      (o : Order P.Float) (w : World P.Float)
      → is_error_status status ≡ false
      → any_error w.issues ≡ false
      → HonestReturn P env (succeeded P env context raw status message is_new updated o w)
  unfolding succeeded make_result ack_and_return add_issue order_issue make_issue
  succeeded-HonestReturn context raw status message is_new updated o w h k =
      (λ _. (any_error-snoc_other w.issues _ h ∙ k, refl), λ e. cc)

  process_new-HonestReturn :
      (context : Option ℕ) (raw : Json) (v : Validated P.Float) (before : List Issue)
      (m : Made P env)
      → any_error before ≡ false
      → Reported P env before m
      → HonestReturn P env (process_new P env context raw v m)
  unfolding process_new
  process_new-HonestReturn context raw v before (err e, w) h r = tt
  process_new-HonestReturn context raw v before (ok none, w) h r = failed-HonestReturn raw none w r
  process_new-HonestReturn context raw v before (ok (some o), w) h r =
      succeeded-HonestReturn context raw Status.success _ true false o w refl (ap any_error r ∙ h)

  -- An update that succeeds is silent, one that fails adds an error.
  abbrev Quiet : List Issue → Bool × Order P.Float × List Issue → Type 0
  Quiet before (done, o, later) = Reports done before later

  updated_to-Quiet :
      (v : Validated P.Float) (issues : List Issue) (r : Bool × Order P.Float)
      → Quiet issues (updated_to P env v issues r)
  unfolding updated_to order_issue make_issue
  updated_to-Quiet v issues (true, o) = refl
  updated_to-Quiet v issues (false, o) = any_error-snoc issues _ refl

  update_existing_order-Quiet :
      (v : Validated P.Float) (o : Order P.Float) (issues : List Issue)
      → Quiet issues (update_existing_order P env v o issues)
  unfolding update_existing_order
  update_existing_order-Quiet v o issues = by_status (is_cancel_status v.status)
    where
      by_status : (r : Result Bool) → Quiet issues (update_known P env v o issues r)
      by_status (err e) = unfold update_known order_issue make_issue in any_error-snoc issues _ refl
      by_status (ok cancels) = unfold update_known in updated_to-Quiet v issues _

  refreshed-HonestReturn :
      (context : Option ℕ) (raw : Json) (v : Validated P.Float) (w : World P.Float)
      (s : Bool × Order P.Float × List Issue)
      → any_error w.issues ≡ false
      → Quiet w.issues s
      → HonestReturn P env (refreshed P env context raw v w s)
  unfolding refreshed put_order
  refreshed-HonestReturn context raw v w (true, o, issues) h q =
      succeeded-HonestReturn context raw Status.success _ false true o
        (put_order o (record w { issues = issues })) refl (ap any_error q ∙ h)
  refreshed-HonestReturn context raw v w (false, o, issues) h q =
      failed-HonestReturn raw (some o) (put_order o (record w { issues = issues })) q

  refresh-HonestReturn :
      (context : Option ℕ) (raw : Json) (v : Validated P.Float) (o : Order P.Float)
      (w : World P.Float)
      → any_error w.issues ≡ false
      → HonestReturn P env (refresh P env context raw v o w)
  unfolding refresh
  refresh-HonestReturn context raw v o w h = by_state (map_state v.status)
    where
      by_state : (r : Result OrderState) → HonestReturn P env (refresh_to P env context raw v o w r)
      by_state (err e) = unfold refresh_to in tt
      by_state (ok state) =
          unfold refresh_to in
          elim (Bool-cases
            (not (state_eq o.state state) || char_differs P o.cartona_status v.status)) [
              | inl stale ↦ rw stale (
                  refreshed-HonestReturn context raw v w _ h
                    (update_existing_order-Quiet v o w.issues))
              | inr fresh ↦
                  rw fresh (succeeded-HonestReturn context raw Status.info _ false false o w refl h)
            ]

  matched_existing-HonestReturn :
      (context : Option ℕ) (raw : Json) (v : Validated P.Float) (w : World P.Float)
      (s : Bool × Order P.Float × List Issue)
      → any_error w.issues ≡ false
      → Quiet w.issues s
      → HonestReturn P env (matched_existing P env context raw v w s)
  unfolding matched_existing put_order
  matched_existing-HonestReturn context raw v w (true, o, issues) h q =
      refresh-HonestReturn context raw v o (put_order o (record w { issues = issues }))
        (ap any_error q ∙ h)
  matched_existing-HonestReturn context raw v w (false, o, issues) h q =
      let marked : Order P.Float =
        mark_error (text "Order line validation failed — all lines require a valid Odoo variant" [])
          o in
      failed-HonestReturn raw (some marked) (put_order marked (record w { issues = issues })) q

  process_validated-HonestReturn :
      (context : Option ℕ) (raw : Json) (v : Validated P.Float) (config : Config)
      (w : World P.Float)
      → any_error w.issues ≡ false
      → HonestReturn P env (process_validated P env context raw v config w)
  unfolding process_validated
  process_validated-HonestReturn context raw v config w h =
      by_search (find_existing_order P env v.order_id config w.orders)
    where
      by_search :
          (r : Option (Order P.Float))
          → HonestReturn P env (process_found P env context raw v config w r)
      by_search none =
          unfold process_found in
          process_new-HonestReturn context raw v w.issues _ h
            (create_new_order-Reported P env v config raw w)
      by_search (some o) =
          unfold process_found process_existing in
          matched_existing-HonestReturn context raw v w _ h (
            ensure_order_lines-Reports P env.browse env.create_line config v.order_lines raw o
              w.issues)

  process_checked-HonestReturn :
      (context : Option ℕ) (raw : Json) (config : Config) (w : World P.Float)
      (r : Result (Option (Validated P.Float) × List Issue))
      → w.issues ≡ []
      → Verdict r
      → HonestReturn P env (process_checked P env context raw config r w)
  unfolding process_checked
  process_checked-HonestReturn context raw config w (err e) n v = tt
  process_checked-HonestReturn context raw config w (ok (none, issues)) n v =
      failed-HonestReturn raw none (record w { issues = w.issues ++ issues })
        (ap (λ l. any_error (l ++ issues)) n ∙ v)
  process_checked-HonestReturn context raw config w (ok (some o, issues)) n v =
      process_validated-HonestReturn context raw o config (record w { issues = w.issues ++ issues })
        (ap₂ (λ k l. any_error (k ++ l)) n v ∙ unfold any_error in refl)

  unexpected-Honest :
      (raw : Json) (r : Returned P env) → HonestReturn P env r → Honest (unexpected P env raw r).0
  unfolding unexpected make_result add_issue order_issue make_issue
  unexpected-Honest raw (ok r, w) h = h
  unexpected-Honest raw (err e, w) h = (λ e. cc, λ _. any_error-snoc w.issues _ refl)

  process_cartona_order-Honest :
      (context : Option ℕ) (raw : Json) (w : World P.Float)
      → Honest (process_cartona_order P env context raw w).0
  unfolding process_cartona_order process_body
  process_cartona_order-Honest context raw w =
      unexpected-Honest raw _ (by_config (get_cartona_config w.configs context))
    where
      by_config :
          (r : Result Config)
          → HonestReturn P env (process_under P env context raw (record w { issues = [] }) r)
      by_config (err e) = unfold process_under in tt
      by_config (ok config) =
          unfold process_under in
          process_checked-HonestReturn context raw config (record w { issues = [] })
            (validate_order_data P env.browse config raw) refl
            (validate_order_data-Verdict P env.browse config raw)

  -- Whatever Odoo does and whatever the payload is: an import has an error among its issues exactly
  -- where it reports a failure, and one that reports success returns an order.
  pub process_cartona_order-Truthful :
      (context : Option ℕ) (raw : Json) (w : World P.Float)
      → Truthful (process_cartona_order P env context raw w).0
  process_cartona_order-Truthful context raw w =
      Honest→Truthful (process_cartona_order P env context raw w).0
        (process_cartona_order-Honest context raw w)
