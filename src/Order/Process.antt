-- ===== src/Order/Process.antt =====
-- `process_cartona_order` of models/cartona_order_processor.py.
pub mod Acks
pub mod Laws
pub mod Created
pub mod Contract
use cartona_odoo.Base.{
  ℕ, String, Bool, true, false, not, ◌&&◌, ◌||◌, ◌<>◌, Option, none, some, List, [], ◌∷◌, ◌++◌, map,
  any, find, select, str_eq, option_eq, is_id, or_else, ◌==◌, if◌then◌else◌,
}
use cartona_odoo.Py.Exn.{Exn, Result, ok, err, raise, user_error, ◌>>=◌}
use cartona_odoo.Py.Number.{ℤ, pos}
use cartona_odoo.Py.Json.{
  Json, null, bool, int, real, str, Fields, Python, truthy, str_json, is_text,
}
use cartona_odoo.Config.Data.{Config}
use cartona_odoo.Partner.{Partner, Directory, find_or_create_cartona_customer}
use cartona_odoo.Order.Data.{
  Order, OrderState, Text, SyncStatus, is_draft, is_closed, is_error, to_char,
}
use cartona_odoo.Order.Issue.{
  Status, EntryType, ErrorCode, customer_error, no_valid_order_lines, state_transition_error,
  unexpected_error, Issue, Outcome, make_issue, make_result, any_error, text,
}
use cartona_odoo.Order.Resolve.{Variant}
use cartona_odoo.Order.Item.{Item}
use cartona_odoo.Order.Retailer.{Customer}
use cartona_odoo.Order.Validate.{Validated, validate_order_data}
use cartona_odoo.Order.Transition.{
  Odoo, map_state, is_cancel_status, mark_error, apply_cartona_state_action,
}
use cartona_odoo.Order.Lines.{
  CreateLine, shown, ref_of, payload_of, create_order_lines, ensure_order_lines,
}
use cartona_odoo.Order.World.{
  World, Env, find_config, get_cartona_config, state_eq, is_line_entry, filled, replace_row,
  put_order, remove_order, add_issue, can_ack_order, send_ack, ack_order_synced_to_cartona, ack_if,
  ack_and_return, char_differs, customer_fields, label_of, order_issue,
}
use cartona_odoo.Order.Create.{Made, create_new_order}
use cartona_odoo.Order.Update.{update_existing_order}

module _ (P : Python) (env : Env P.Float) where
  open P use {Float}
  open env use {browse, odoo, directory, create_line, create_order, unlink_order, now, stamp}

  -- Where the id of the search has no text, empty fields match, as `=` with `False` does.
  unfoldable pub find_existing_order : Json → Config → List (Order Float) → Option (Order Float)
  find_existing_order order_id config =
      find (λ o. option_eq o.cartona_id (to_char P order_id) && is_id config.id o.cartona_config_id)

  abbrev Returned : Type 0
  Returned = Result (Outcome Float) × World Float

  -- `return self._make_result(…)`
  failed : Json → Option (Order Float) → World Float → Returned
  failed raw o w = (ok (make_result P false raw w.issues false false o), w)

  -- `return self._ack_and_return(self._make_result(True, …))` behind a last issue.
  succeeded : Option ℕ → Json → Status → Text → Bool → Bool → Order Float → World Float → Returned
  unfolding order_issue
  succeeded context raw status message is_new updated o w =
      let w' = add_issue (order_issue P status message (some raw) none (some o)) w in
      let (r, w'') =
        ack_and_return context (make_result P true raw w'.issues is_new updated (some o)) w' in
      (ok r, w'')

  -- Behind the update of an order.
  refreshed :
      Option ℕ → Json → Validated Float → World Float → Bool × Order Float × List Issue → Returned
  unfolding failed succeeded
  refreshed context raw v w (true, o, issues) =
      succeeded context raw Status.success
        (text "Order %(number)s updated (%(name)s)"
          (str_json P v.cartona_order_number ∷ o.name ∷ []))
        false true o (put_order o (record w { issues = issues }))
  refreshed context raw v w (false, o, issues) =
      failed raw (some o) (put_order o (record w { issues = issues }))

  refresh_to :
      Option ℕ → Json → Validated Float → Order Float → World Float → Result OrderState → Returned
  unfolding refreshed
  refresh_to context raw v o w (err e) = (err e, w)
  refresh_to context raw v o w (ok state) =
      if not (state_eq o.state state) || char_differs P o.cartona_status v.status
      then refreshed context raw v w (update_existing_order P env v o w.issues)
      else succeeded context raw Status.info
          (text "Order %(number)s already up to date (%(name)s)"
            (str_json P v.cartona_order_number ∷ o.name ∷ []))
          false false o w

  -- An order that was found, with matching lines.
  refresh : Option ℕ → Json → Validated Float → Order Float → World Float → Returned
  unfolding refresh_to
  refresh context raw v o w = refresh_to context raw v o w (map_state v.status)

  matched_existing :
      Option ℕ → Json → Validated Float → World Float → Bool × Order Float × List Issue → Returned
  unfolding refresh failed
  matched_existing context raw v w (true, o, issues) =
      refresh context raw v o (put_order o (record w { issues = issues }))
  matched_existing context raw v w (false, o, issues) =
      let marked =
        mark_error (text "Order line validation failed — all lines require a valid Odoo variant" [])
          o in
      failed raw (some marked) (put_order marked (record w { issues = issues }))

  process_existing :
      Option ℕ → Json → Validated Float → Config → Order Float → World Float → Returned
  unfolding matched_existing
  process_existing context raw v config o w =
      matched_existing context raw v w
        (ensure_order_lines P browse create_line config v.order_lines raw o w.issues)

  process_new : Option ℕ → Json → Validated Float → Made P env → Returned
  unfolding succeeded failed
  process_new context raw v (err e, w) = (err e, w)
  process_new context raw v (ok none, w) = failed raw none w
  process_new context raw v (ok (some o), w) =
      succeeded context raw Status.success
        (text "Order %(number)s imported as %(name)s"
          (str_json P v.cartona_order_number ∷ o.name ∷ []))
        true false o w

  process_found :
      Option ℕ → Json → Validated Float → Config → World Float → Option (Order Float) → Returned
  unfolding process_existing process_new
  process_found context raw v config w (some o) = process_existing context raw v config o w
  process_found context raw v config w none =
      process_new context raw v (create_new_order P env v config raw w)

  process_validated : Option ℕ → Json → Validated Float → Config → World Float → Returned
  unfolding process_found
  process_validated context raw v config w =
      process_found context raw v config w (find_existing_order v.order_id config w.orders)

  process_checked :
      Option ℕ
      → Json
      → Config
      → Result (Option (Validated Float) × List Issue)
      → World Float
      → Returned
  unfolding process_validated failed
  process_checked context raw config (err e) w = (err e, w)
  process_checked context raw config (ok (none, issues)) w =
      failed raw none (record w { issues = w.issues ++ issues })
  process_checked context raw config (ok (some v, issues)) w =
      process_validated context raw v config (record w { issues = w.issues ++ issues })

  process_under : Option ℕ → Json → World Float → Result Config → Returned
  unfolding process_checked
  process_under context raw w (err e) = (err e, w)
  process_under context raw w (ok config) =
      process_checked context raw config (validate_order_data P browse config raw) w

  -- The body of the `try`.
  process_body : Option ℕ → Json → World Float → Returned
  unfolding process_under
  process_body context raw w = process_under context raw w (get_cartona_config w.configs context)

  unexpected : Json → Returned → Outcome Float × World Float
  unfolding order_issue
  unexpected raw (ok r, w) = (r, w)
  unexpected raw (err e, w) =
      let w' =
        add_issue
          (order_issue P Status.error (text "Unexpected error processing order: %s" (e.text ∷ []))
            (some raw) (some unexpected_error) none)
          w in
      (make_result P false raw w'.issues false false none, w')

  unfoldable pub process_cartona_order : Option ℕ → Json → World Float → Outcome Float × World Float
  unfolding unexpected process_body
  process_cartona_order context raw w =
      unexpected raw (process_body context raw (record w { issues = [] }))
