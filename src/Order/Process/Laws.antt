-- ===== src/Order/Process/Laws.antt =====
-- Which orders an import acknowledges: models/cartona_order_processor.py.
use cartona_odoo.Base.{
  ℕ, ◌≡◌, refl, ◌∙◌, subst, Bool, true, false, not, ◌||◌, inl, inr, Option, none, some, List, [],
  ◌++◌, Bool-cases,
}
use cartona_odoo.Py.Exn.{Result, ok, err}
use cartona_odoo.Py.Json.{Json, Python}
use cartona_odoo.Config.Data.{Config}
use cartona_odoo.Order.Data.{Order, OrderState, Text}
use cartona_odoo.Order.Issue.{Issue, Status, Outcome, make_result, text}
use cartona_odoo.Order.Validate.{Validated, validate_order_data}
use cartona_odoo.Order.Transition.{map_state, mark_error}
use cartona_odoo.Order.Lines.{ensure_order_lines}
use cartona_odoo.Order.World.{
  World, Env, get_cartona_config, add_issue, put_order, order_issue, ack_and_return, char_differs,
  state_eq,
}
use cartona_odoo.Order.Create.{Made, create_new_order}
use cartona_odoo.Order.Process.{
  Returned, failed, succeeded, refreshed, refresh_to, refresh, matched_existing, process_existing,
  process_found, process_new, process_validated, process_checked, process_under, process_body,
  unexpected, process_cartona_order,
}
use cartona_odoo.Order.Update.{update_existing_order}
use cartona_odoo.Order.Process.Acks.{
  AcksRight, ack_and_return-AcksRight, Kept, Right, create_new_order-Kept,
}

module _ (P : Python) (env : Env P.Float) where
  -- A world that differs from `w` in more than the acknowledgements serves as well.
  failed-Right :
      (raw : Json) (o : Option (Order P.Float)) (w w' : World P.Float)
      → w'.acks ≡ w.acks
      → Right P env w (failed P env raw o w')
  unfolding failed
  failed-Right raw o w w' e = inl e

  succeeded-Right :
      (context : Option ℕ) (raw : Json) (status : Status) (message : Text) (is_new updated : Bool)
      (o : Order P.Float) (w w' : World P.Float)
      → w'.acks ≡ w.acks
      → Right P env w (succeeded P env context raw status message is_new updated o w')
  unfolding succeeded add_issue
  succeeded-Right context raw status message is_new updated o w w' e =
      let u : World P.Float =
        add_issue (order_issue P status message (some raw) none (some o)) w' in
      let r : Outcome P.Float = make_result P true raw u.issues is_new updated (some o) in
      subst (λ a. AcksRight a (ack_and_return context r u).0 (ack_and_return context r u).1.acks) e
        (ack_and_return-AcksRight context r u)

  refresh-Right :
      (context : Option ℕ) (raw : Json) (v : Validated P.Float) (o : Order P.Float)
      (w w' : World P.Float)
      → w'.acks ≡ w.acks
      → Right P env w (refresh P env context raw v o w')
  unfolding refresh
  refresh-Right context raw v o w w' e = by_state (map_state v.status)
    where
      by_update :
          (s : Bool × Order P.Float × List Issue)
          → Right P env w (refreshed P env context raw v w' s)
      by_update (true, p, issues) =
          unfold refreshed in
          succeeded-Right context raw Status.success _ false true p w
            (put_order p (record w' { issues = issues })) (unfold put_order in e)
      by_update (false, p, issues) =
          unfold refreshed in
          failed-Right raw (some p) w (put_order p (record w' { issues = issues }))
            (unfold put_order in e)

      by_state : (r : Result OrderState) → Right P env w (refresh_to P env context raw v o w' r)
      by_state (err x) = unfold refresh_to in e
      by_state (ok state) =
          unfold refresh_to in
          elim (Bool-cases
            (not (state_eq o.state state) || char_differs P o.cartona_status v.status)) [
              | inl stale ↦ rw stale (by_update (update_existing_order P env v o w'.issues))
              | inr fresh ↦
                  rw fresh (succeeded-Right context raw Status.info _ false false o w w' e)
            ]

  process_found-Right :
      (context : Option ℕ) (raw : Json) (v : Validated P.Float) (config : Config)
      (w w' : World P.Float) (o : Option (Order P.Float))
      → w'.acks ≡ w.acks
      → Right P env w (process_found P env context raw v config w' o)
  unfolding process_found process_existing
  process_found-Right context raw v config w w' (some o) e =
      by_lines
        (ensure_order_lines P env.browse env.create_line config v.order_lines raw o w'.issues)
    where
      by_lines :
          (s : Bool × Order P.Float × List Issue)
          → Right P env w (matched_existing P env context raw v w' s)
      by_lines (true, p, issues) =
          unfold matched_existing in
          refresh-Right context raw v p w (put_order p (record w' { issues = issues }))
            (unfold put_order in e)
      by_lines (false, p, issues) =
          let marked : Order P.Float =
            mark_error
              (text "Order line validation failed — all lines require a valid Odoo variant" []) p in
          let u : World P.Float = put_order marked (record w' { issues = issues }) in
          unfold matched_existing in failed-Right raw (some marked) w u (unfold put_order in e)
  process_found-Right context raw v config w w' none e =
      by_made (create_new_order P env v config raw w')
        (create_new_order-Kept P env v config raw w' ∙ e)
    where
      by_made :
          (m : Made P env) → Kept P env w m → Right P env w (process_new P env context raw v m)
      by_made (err x, u) k = unfold process_new in k
      by_made (ok none, u) k = unfold process_new in failed-Right raw none w u k
      by_made (ok (some p), u) k =
          unfold process_new in succeeded-Right context raw Status.success _ true false p w u k

  process_checked-Right :
      (context : Option ℕ) (raw : Json) (config : Config) (w w' : World P.Float)
      (r : Result (Option (Validated P.Float) × List Issue))
      → w'.acks ≡ w.acks
      → Right P env w (process_checked P env context raw config r w')
  unfolding process_checked process_validated
  process_checked-Right context raw config w w' (err x) e = e
  process_checked-Right context raw config w w' (ok (none, issues)) e =
      failed-Right raw none w (record w' { issues = w'.issues ++ issues }) e
  process_checked-Right context raw config w w' (ok (some v, issues)) e =
      process_found-Right context raw v config w (record w' { issues = w'.issues ++ issues }) _ e

  -- An import sends at most one acknowledgement, and only for the order of a success: by its Cartona
  -- id, where the order is in no sync error and the result has no error among its issues.
  pub process_cartona_order-AcksRight :
      (context : Option ℕ) (raw : Json) (w : World P.Float)
      → AcksRight w.acks
          (process_cartona_order P env context raw w).0
          (process_cartona_order P env context raw w).1.acks
  unfolding process_cartona_order process_body
  process_cartona_order-AcksRight context raw w =
      by_return _ (by_config (get_cartona_config w.configs context))
    where
      by_config :
          (r : Result Config)
          → Right P env w (process_under P env context raw (record w { issues = [] }) r)
      by_config (err e) = unfold process_under in refl
      by_config (ok config) =
          unfold process_under in
          process_checked-Right context raw config w (record w { issues = [] })
            (validate_order_data P env.browse config raw) refl

      by_return :
          (r : Returned P env)
          → Right P env w r
          → AcksRight w.acks (unexpected P env raw r).0 (unexpected P env raw r).1.acks
      by_return (ok r, u) h = unfold unexpected in h
      by_return (err e, u) h = unfold unexpected add_issue in inl h
