-- ===== src/Sale/Status.antt =====
-- `_sync_status_to_cartona` and `_sync_delivery_validation_to_cartona` of models/sale_order.py. The
-- calls of the API return a dict in the model; what a call or a write may raise is the other
-- result that `…_answered` takes.
pub mod Laws
use cartona_odoo.Base.{
  ℕ, String, Bool, true, false, not, ◌&&◌, ◌||◌, Option, none, some, List, [], ◌∷◌, if◌then◌else◌,
}
use mathlib.Core.Option
use cartona_odoo.Py.Exn.{Exn, Result, ok, err}
use cartona_odoo.Py.Json.{str, Fields, Python, get_or, str_json}
use cartona_odoo.Config.Data.{Config}
use cartona_odoo.Order.Data.{
  Order, OrderState, draft, sent, sale, cancel, SyncStatus, syncing, synced, Text, DeliveredBy,
  delivered_by_supplier, delivered_by_cartona,
}
use cartona_odoo.Order.Issue.{Status, text}
use cartona_odoo.Order.World.{filled}
use cartona_odoo.Log.{Logs, LogVals, Operation, Caller, log_operation}
use cartona_odoo.Api.Request.{Net, successful, error_text, update_single_order_status}
use cartona_odoo.Sale.Triggers.{config_of, enabled}

-- `_map_odoo_status_to_cartona`
unfoldable pub map_odoo_status_to_cartona : OrderState → Option String
map_odoo_status_to_cartona draft = some "pending"
map_odoo_status_to_cartona sent = some "pending"
map_odoo_status_to_cartona sale = some "approved"
map_odoo_status_to_cartona cancel = some "cancelled_by_supplier"
map_odoo_status_to_cartona OrderState.done = none

abbrev pub by_supplier : DeliveredBy → Bool
by_supplier delivered_by_supplier = true
by_supplier _ = false

module _ {F : Type 0} where
  abbrev pub set_syncing : Order F → Order F
  set_syncing o = record o { cartona_sync_status = syncing }

  abbrev pub set_error : Option String → Order F → Order F
  set_error e o = record o {
    cartona_sync_status = SyncStatus.error;
    cartona_error_message = Option.map (λ t. text "%s" (t ∷ [])) e;
  }

  abbrev pub set_synced : ℕ → Order F → Order F
  set_synced now o = record o {
    cartona_sync_status = synced;
    cartona_sync_date = some now;
    cartona_error_message = none;
  }

-- `result.get('error', 'Unknown error')`
abbrev pub error_of : Python → Fields → Option String
error_of P result = error_text P result "Unknown error"

-- The log of an order's sync.
unfoldable pub order_log :
    {F : Type 0} → Order F → ℕ → Status → String → ℕ → ℕ → ℕ → Option String → LogVals
order_log o config status template processed succeeded failed e = record {
  cartona_config_id = config;
  operation_type = Operation.status_sync;
  status = status;
  message = text template (o.name ∷ []);
  about = some (record { model = "sale.order"; id = o.id; name = o.name });
  error_details = e;
  request_data = none;
  response_data = none;
  records_processed = processed;
  records_success = succeeded;
  records_error = failed;
  action_type = none;
}

module _ (P : Python) (net : Net) (now : ℕ) where
  -- Behind `update_single_order_status`.
  unfoldable pub status_answered : String → Result Fields → Order P.Float → Order P.Float
  status_answered status (err e) o = set_error (some e.text) o
  status_answered status (ok result) o =
      if successful P result
      then record (set_synced now o) { cartona_status = some status }
      else set_error (error_of P result) o

  send_status : Config → Option String → Order P.Float → Order P.Float
  unfolding status_answered
  send_status c none o = record o {
    cartona_sync_status = SyncStatus.error;
    cartona_error_message = some (text "No status mapping for Odoo state: %s" []);
  }
  send_status c (some status) o =
      status_answered status
        (ok (
          update_single_order_status net c o.cartona_id status o.cartona_payment_method
            o.cartona_delivery_otp))
        o

  sync_status_with : Option Config → Order P.Float → Order P.Float
  unfolding send_status map_odoo_status_to_cartona
  sync_status_with none o = o
  sync_status_with (some c) o =
      if not c.is_cartona_sync_enabled || not (filled o.cartona_id)
      then o
      else send_status c (map_odoo_status_to_cartona o.state) (set_syncing o)

  unfoldable pub sync_status_to_cartona : List Config → Order P.Float → Order P.Float
  unfolding sync_status_with
  sync_status_to_cartona configs o = sync_status_with (config_of configs o) o

  module _ (caller : Caller) where
    -- An order, and the logs beside it.
    abbrev Logged : Type 0
    Logged = Result (Order P.Float × Logs)

    unfoldable pub logged : LogVals → Order P.Float → Logs → Logged
    logged vals o db = elim (log_operation now caller vals [] db) [
      | err e ↦ err e
      | ok db' ↦ ok (o, db')
    ]

    unfoldable pub delivery_answered : Config → Result Fields → Order P.Float → Logs → Logged
    unfolding logged
    delivery_answered c (err e) o db =
        logged
          (order_log o c.id Status.error "Exception during delivery validation sync for order: %s" 1
            0 1 (some e.text))
          (set_error (some e.text) o) db
    delivery_answered c (ok result) o db =
        if successful P result
        then logged
            (order_log o c.id Status.success "Delivery validation synced for order: %s" 1 1 0 none)
            (record (set_synced now o) { cartona_status = some "delivered" }) db
        else logged
            (order_log o c.id Status.error "Failed delivery validation sync for order: %s" 1 0 1
              (error_of P result))
            (set_error (error_of P result) o) db

    unfoldable pub sync_delivery_with : Option Config → Order P.Float → Logs → Logged
    unfolding delivery_answered
    sync_delivery_with none o db = ok (o, db)
    sync_delivery_with (some c) o db =
        if not c.is_cartona_sync_enabled
          || not (filled o.cartona_id)
          || not (by_supplier o.delivered_by)
        then ok (o, db)
        else delivery_answered c
            (ok (
              update_single_order_status net c o.cartona_id "delivered" o.cartona_payment_method
                o.cartona_delivery_otp))
            (set_syncing o) db

    unfoldable pub sync_delivery_validation_to_cartona : List Config → Order P.Float → Logs → Logged
    unfolding sync_delivery_with
    sync_delivery_validation_to_cartona configs o db = sync_delivery_with (config_of configs o) o db
