-- ===== src/Order/Process/Acks.antt =====
-- The acknowledgements that the creation of an order leaves.
use cartona_odoo.Base.{
  ℕ, String, ◌≡◌, refl, ◌∙◌, Bool, true, false, ◌&&◌, ◌⊎◌, inl, inr, Option, none, some, List, [],
  ◌∷◌, ◌++◌, arith, any, Bool-cases, or_else,
}
use cartona_odoo.Py.Exn.{Exn, Result, ok, err}
use cartona_odoo.Py.Json.{Json, Python}
use cartona_odoo.Config.Data.{Config}
use cartona_odoo.Order.Data.{Order, is_error}
use cartona_odoo.Order.Issue.{Issue, Outcome, any_error}
use cartona_odoo.Order.Validate.{Validated}
use cartona_odoo.Order.Transition.{apply_cartona_state_action}
use cartona_odoo.Order.World.{
  World, Env, get_cartona_config, add_issue, put_order, remove_order, can_ack_order, send_ack,
  ack_order_synced_to_cartona, ack_if, ack_and_return, is_line_entry, filled,
}
use cartona_odoo.Order.Create.{
  report_failed, failed_unlink, create_failed, unlinked, unlink_and, without_lines, not_applied,
  applied_new, filled_new, fill_new, created_new, create_for, create_new_order,
  find_or_create_customer,
}
use cartona_odoo.Order.Process.{Returned}

-- How an import may leave the acknowledgements: as they were, or with one more, for the order of a
-- success that is not in error and has no error among its issues.
pub record Acknowledged {F : Type 0} (before later : List String) (r : Outcome F) : Type 0 where
  pub id : String
  pub order : Order F
  pub sent : later ≡ before ++ (id ∷ [])
  pub succeeded : r.success ≡ true
  pub of_result : r.order ≡ some order
  pub by_id : order.cartona_id ≡ some id
  pub no_sync_error : is_error order.cartona_sync_status ≡ false
  pub no_issue : any_error r.issues ≡ false

abbrev pub AcksRight : {F : Type 0} → List String → Outcome F → List String → Type 0
AcksRight before r later = (later ≡ before) ⊎ Acknowledged before later r

module _ {F : Type 0} where
  send_ack_lem :
      (id : Option String) (c : Result Config) (w : World F)
      → ((send_ack id c w).acks ≡ w.acks)
        ⊎ ((i : String) × (id ≡ some i) × ((send_ack id c w).acks ≡ w.acks ++ (i ∷ [])))
  unfolding send_ack
  send_ack_lem none c w = inl refl
  send_ack_lem (some i) (err e) w = inl refl
  send_ack_lem (some i) (ok c) w =
      elim (Bool-cases (filled (some i) && c.is_cartona_sync_enabled)) [
        | inl on ↦ inr (i, refl, rw on refl)
        | inr off ↦ inl (rw off refl)
      ]

  pub ack_and_return-AcksRight :
      (context : Option ℕ) (r : Outcome F) (w : World F)
      → AcksRight w.acks (ack_and_return context r w).0 (ack_and_return context r w).1.acks
  unfolding ack_and_return
  ack_and_return-AcksRight context r w =
      by_test (r.success && can_ack_order r.order r.issues) r.order refl refl
    where
      by_test :
          (b : Bool) (o : Option (Order F))
          → (r.success && can_ack_order r.order r.issues) ≡ b
          → r.order ≡ o
          → AcksRight w.acks r (ack_if b context o w).acks
      by_test false o e k = inl (unfold ack_if in refl)
      by_test true none e k = inl (unfold ack_if in refl)
      by_test true (some o) e k =
          unfold ack_if ack_order_synced_to_cartona in
          elim (send_ack_lem o.cartona_id
            (get_cartona_config w.configs (or_else o.cartona_config_id context)) w) [
              | inl same ↦ inl same
              | inr (i, is, more) ↦ inr (record {
                id = i;
                order = o;
                sent = more;
                succeeded = ground arith;
                of_result = k;
                by_id = is;
                no_sync_error = unfold can_ack_order in ground arith;
                no_issue = unfold can_ack_order in ground arith;
              })
            ]

module _ (P : Python) (env : Env P.Float) where
  abbrev pub Kept : {A : Type 0} → World P.Float → A × World P.Float → Type 0
  Kept w (r, w') = w'.acks ≡ w.acks

  abbrev pub Right : World P.Float → Returned P env → Type 0
  Right w (err e, w') = w'.acks ≡ w.acks
  Right w (ok r, w') = AcksRight w.acks r w'.acks

  create_failed-Kept :
      (v : Validated P.Float) (raw : Json) (o : Option (Order P.Float)) (e : Exn)
      (w : World P.Float)
      → Kept w (create_failed P env v raw o e w)
  unfolding create_failed report_failed add_issue
  create_failed-Kept v raw none e w = refl
  create_failed-Kept v raw (some o) e w = by_unlink (env.unlink_order o)
    where
      by_unlink : (r : Option Exn) → Kept w (failed_unlink P env v raw o e w r)
      by_unlink none = unfold failed_unlink report_failed add_issue remove_order in refl
      by_unlink (some again) = unfold failed_unlink in refl

  unlinked-Kept :
      (report : World P.Float → World P.Float) (v : Validated P.Float) (raw : Json)
      (o : Order P.Float) (w : World P.Float) (r : Option Exn)
      → (report (remove_order o w)).acks ≡ w.acks
      → Kept w (unlinked P env report v raw o w r)
  unfolding unlinked
  unlinked-Kept report v raw o w none h = h
  unlinked-Kept report v raw o w (some e) h = create_failed-Kept v raw (some o) e w

  without_lines-acks :
      (v : Validated P.Float) (raw : Json) (w : World P.Float)
      → (without_lines P env v raw w).acks ≡ w.acks
  unfolding without_lines add_issue
  without_lines-acks v raw w =
      elim (Bool-cases (any (λ (i : Issue). is_line_entry i.entry_type) w.issues)) [
        | inl a ↦ rw a refl
        | inr b ↦ rw b refl
      ]

  applied_new-Kept :
      (v : Validated P.Float) (raw : Json) (w : World P.Float) (r : Bool × Order P.Float)
      → Kept w (applied_new P env v raw w r)
  unfolding applied_new not_applied unlink_and add_issue put_order remove_order
  applied_new-Kept v raw w (true, o) = refl
  applied_new-Kept v raw w (false, o) =
      unlinked-Kept (λ u. u) v raw o (not_applied P env v raw o w) (env.unlink_order o) refl

  filled_new-Kept :
      (v : Validated P.Float) (raw : Json) (w : World P.Float)
      (s : Bool × Order P.Float × List Issue)
      → Kept w (filled_new P env v raw w s)
  unfolding filled_new unlink_and put_order remove_order
  filled_new-Kept v raw w (true, o, issues) =
      applied_new-Kept v raw (put_order o (record w { issues = issues }))
        (apply_cartona_state_action env.odoo P v.status o)
  filled_new-Kept v raw w (false, o, issues) =
      let w' : World P.Float = put_order o (record w { issues = issues }) in
      unlinked-Kept (without_lines P env v raw) v raw o w' (env.unlink_order o)
        (without_lines-acks v raw (remove_order o w'))

  created_new-Kept :
      (v : Validated P.Float) (config : Config) (raw : Json) (w : World P.Float)
      (r : Result (Order P.Float))
      → Kept w (created_new P env v config raw w r)
  unfolding created_new fill_new
  created_new-Kept v config raw w (err e) = create_failed-Kept v raw none e w
  created_new-Kept v config raw w (ok o) =
      filled_new-Kept v raw (record w { orders = w.orders ++ (o ∷ []) }) _

  pub create_new_order-Kept :
      (v : Validated P.Float) (config : Config) (raw : Json) (w : World P.Float)
      → Kept w (create_new_order P env v config raw w)
  unfolding create_new_order find_or_create_customer
  create_new_order-Kept v config raw w = by_customer _ _ refl
    where
      by_customer :
          (partner : Option ℕ) (w' : World P.Float)
          → w'.acks ≡ w.acks
          → Kept w (create_for P env v config raw partner w')
      by_customer none w' e = unfold create_for add_issue in e
      by_customer (some partner) w' e = unfold create_for in created_new-Kept v config raw w' _ ∙ e
