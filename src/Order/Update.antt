-- ===== src/Order/Update.antt =====
-- `_update_existing_order` of models/cartona_order_processor.py.
use cartona_odoo.Base.{Bool, true, false, not, ◌&&◌, ◌||◌, some, List, [], ◌∷◌, ◌++◌, if◌then◌else◌}
use cartona_odoo.Py.Exn.{Result, ok, err}
use cartona_odoo.Py.Json.{Python, str_json, is_text}
use cartona_odoo.Order.Data.{Order, SyncStatus, is_draft, is_closed, to_char}
use cartona_odoo.Order.Issue.{Status, state_transition_error, unexpected_error, Issue, text}
use cartona_odoo.Order.Validate.{Validated}
use cartona_odoo.Order.Transition.{is_cancel_status, apply_cartona_state_action}
use cartona_odoo.Order.Lines.{payload_of}
use cartona_odoo.Order.World.{Env, char_differs, label_of, order_issue}

module _ (P : Python) (env : Env P.Float) where
  open P use {Float}
  open env use {browse, odoo, directory, create_line, create_order, unlink_order, now, stamp}

  -- `_update_existing_order` behind the transition.
  unfoldable pub updated_to :
      Validated Float → List Issue → Bool × Order Float → Bool × Order Float × List Issue
  unfolding order_issue
  updated_to v issues (true, o) = (
    true,
    record o {
      cartona_status = to_char P v.status;
      cartona_sync_date = some now;
      cartona_sync_status = SyncStatus.synced;
    },
    issues,
  )
  updated_to v issues (false, o) = (
    false,
    o,
    issues
        ++ (order_issue P Status.error
              (text "Order %(order)s failed to apply Cartona status %(status)s"
                (label_of P v ∷ str_json P v.status ∷ []))
              (some (payload_of P o)) (some state_transition_error) (some o)
            ∷ []),
  )

  -- The transition, where the status is new or the order lags behind it.
  transition : Validated Float → Bool → Order Float → Bool × Order Float
  transition v out_of_sync o =
      if char_differs P o.cartona_status v.status || out_of_sync
      then apply_cartona_state_action odoo P v.status o
      else (true, o)

  unfoldable pub update_known :
      Validated Float → Order Float → List Issue → Result Bool → Bool × Order Float × List Issue
  unfolding updated_to transition
  update_known v o issues (err e) = (
    false,
    o,
    issues
        ++ (order_issue P Status.error
              (text "Order %(order)s update failed: %s" (label_of P v ∷ e.text ∷ []))
              (some (payload_of P o)) (some unexpected_error) (some o)
            ∷ []),
  )
  update_known v o issues (ok cancels) = updated_to v issues (
      transition v
        (cancels && not (is_closed o.state) || is_text v.status "approved" && is_draft o.state) o)

  unfoldable pub update_existing_order :
      Validated Float → Order Float → List Issue → Bool × Order Float × List Issue
  unfolding update_known
  update_existing_order v o issues = update_known v o issues (is_cancel_status v.status)
