-- ===== src/Product/Sync.antt =====
-- `_sync_to_cartona` and `action_manual_cartona_sync` of models/product_product.py, and
-- `log_product_sync` of models/cartona_sync_log.py.
pub mod Laws
use cartona_odoo.Base.{
  ℕ, suc, ◌+◌, String, Bool, true, false, not, ◌&&◌, ◌||◌, Option, none, some, List, [], ◌∷◌, find,
  any, is_empty, length, ◌==◌, if◌then◌else◌,
}
use cartona_odoo.Py.Exn.{Exn, Result, ok, err, raise, user_error, ◌>>=◌}
use cartona_odoo.Py.Number.{decimal}
use cartona_odoo.Py.Json.{
  Json, null, str, obj, Fields, field, end, Python, get_none, get_or, str_json,
}
use cartona_odoo.Config.Data.{Config}
use cartona_odoo.Order.Data.{Text, SyncStatus, is_synced}
use cartona_odoo.Order.Issue.{Status, EntryType, Issue, text}
use cartona_odoo.Order.Resolve.{Variant}
use cartona_odoo.Log.{Logs, LogVals, Detail, Operation, ActionType, Caller, log_operation}
use cartona_odoo.Product.SyncTable.{
  SyncRow, same_key, get_for_product_config, mark_syncing, mark_success, mark_error,
}
use cartona_odoo.Product.Trigger.{SyncFields, Site, cartona_enabled_configs}
use cartona_odoo.Api.Request.{Net, successful, error_text}
use cartona_odoo.Api.Payload.{Shelf, bulk_update_products, build_variant_payload, fields_name}
use cartona_odoo.Api.Batch.{SyncWorld}

abbrev operation_type : SyncFields → Operation
operation_type SyncFields.stock = Operation.stock_sync
operation_type _ = Operation.product_sync

abbrev text_of : Json → Option String
text_of (str s) = some s
text_of _ = none

-- The configuration of the argument, else of the context, else the first that is enabled. One that
-- was deleted, of which Odoo raises, is none here.
unfoldable pub chosen_config : Site → Option ℕ → Option ℕ → Variant → Option Config
chosen_config site (some i) context v = find (λ c. c.id == i) site.configs
chosen_config site none (some i) v = find (λ c. c.id == i) site.configs
chosen_config site none none v = elim (cartona_enabled_configs site v) [
  | [] ↦ none
  | ◌∷◌ c cs ↦ some c
]

-- The row that `get_for_product_config` returned.
abbrev is_row : Option SyncRow → SyncRow → Bool
is_row none r = false
is_row (some k) r = same_key k r

abbrev done_word : Bool → String
done_word true = "Synced"
done_word false = "Failed to sync"

module _ (P : Python) (net : Net) (shelf : Shelf) (now : ℕ) (caller : Caller) (site : Site) where
  unfoldable pub cartona_sync_log_line_vals : Variant → SyncFields → Fields → Fields → Detail
  cartona_sync_log_line_vals v fields payload result = record {
    entry = record {
      status = if successful P result then Status.success else Status.error;
      entry_type = EntryType.product;
      message =
          text "%(result)s variant %(variant)s (%(fields)s)"
            (done_word (successful P result) ∷ v.name ∷ fields_name fields ∷ []);
      error_code = none;
      order_ids = none;
      line_ids = some (record { line_id = null; internal_product_id = str (decimal v.id) });
      about = some (record { model = "product.product"; id = v.id; name = v.name });
    };
    request_data = some (
        net.dumps (
          obj (
            field "endpoint" (str "supplier-product/bulk-update") (
              field "method" (str "POST") (
                field "sync_fields" (str (fields_name fields))
                  (field "payload" (obj payload) end))))));
    response_data = text_of (get_none result "response_data");
  }

  -- `log_product_sync`, with the counts of one variant.
  product_log :
      Config
      → Variant
      → SyncFields
      → Option ActionType
      → Status
      → String
      → ℕ
      → ℕ
      → Option String
      → Fields
      → LogVals
  product_log c v fields action status template succeeded failed e result = record {
    cartona_config_id = c.id;
    operation_type = operation_type fields;
    status = status;
    message = text template (fields_name fields ∷ []);
    about = some (record { model = "product.product"; id = v.id; name = v.name });
    error_details = e;
    request_data = text_of (get_none result "request_data");
    response_data = text_of (get_none result "response_data");
    records_processed = 1;
    records_success = succeeded;
    records_error = failed;
    action_type = action;
  }

  logging : LogVals → Detail → SyncWorld → Result SyncWorld
  logging vals d w = elim (log_operation now caller vals (d ∷ []) w.logs) [
    | err e ↦ err e
    | ok logs ↦ ok (record w { logs = logs })
  ]

  -- Behind the request, by whether it succeeded.
  answered :
      Config
      → Variant
      → SyncFields
      → Option ActionType
      → (SyncRow → Bool)
      → Fields
      → Bool
      → SyncWorld
      → Result SyncWorld
  unfolding product_log logging
  answered c v fields action row result true w =
      logging
        (product_log c v fields action Status.success "Synced variant to Cartona (%(fields)s)" 1 0
          none result)
        (cartona_sync_log_line_vals v fields
          (build_variant_payload shelf v fields c.company_id (some c.warehouse_id)) result)
        (record w { rows = mark_success now row w.rows })
  answered c v fields action row result false w =
      let e = error_text P result "Unknown error" in
      logging
        (product_log c v fields action Status.error "Failed to sync variant to Cartona (%(fields)s)"
          0 1 e result)
        (cartona_sync_log_line_vals v fields
          (build_variant_payload shelf v fields c.company_id (some c.warehouse_id)) result)
        (record w { rows = mark_error now e row w.rows })

  sync_row :
      Config
      → Variant
      → SyncFields
      → Option ActionType
      → Option SyncRow × List SyncRow
      → SyncWorld
      → Result SyncWorld
  unfolding answered
  sync_row c v fields action (r, rows) w =
      let result = bulk_update_products P net shelf c (some c.warehouse_id) fields (v ∷ []) in
      answered c v fields action (is_row r) result (successful P result)
        (record w { rows = mark_syncing (is_row r) rows })

  sync_under :
      Option Config → Variant → SyncFields → Option ActionType → SyncWorld → Result SyncWorld
  unfolding sync_row
  sync_under none v fields action w = ok w
  sync_under (some c) v fields action w =
      if not c.is_cartona_sync_enabled
      then ok w
      else sync_row c v fields action
          (get_for_product_config (λ r. r) (some v.id) (some c) true w.rows) w

  -- The argument `config_id`, and the one of the context.
  unfoldable pub sync_to_cartona :
      SyncFields → Option ℕ → Option ℕ → Option ActionType → Variant → SyncWorld → Result SyncWorld
  unfolding sync_under
  sync_to_cartona fields config_id context action v w =
      sync_under (chosen_config site config_id context v) v fields action w

  one_if_synced : Option SyncRow → ℕ
  one_if_synced none = 0
  one_if_synced (some r) = if is_synced r.sync_status then 1 else 0

  -- The number of configurations that end synced.
  sync_each : List Config → Variant → ℕ → SyncWorld → Result (ℕ × SyncWorld)
  unfolding sync_to_cartona one_if_synced
  sync_each [] v synced w = ok (synced, w)
  sync_each (c ∷ cs) v synced w =
      sync_to_cartona SyncFields.both (some c.id) none (some ActionType.manual) v w >>= λ w'.
      let (r, rows) = get_for_product_config (λ r. r) (some v.id) (some c) true w'.rows in
      sync_each cs v (synced + one_if_synced r) (record w' { rows = rows })

  -- It returns the two numbers of the notification.
  unfoldable pub action_manual_cartona_sync : Variant → SyncWorld → Result (ℕ × ℕ × SyncWorld)
  unfolding sync_each
  action_manual_cartona_sync v w =
      let configs = cartona_enabled_configs site v in
      if is_empty configs
      then raise user_error "Enable Cartona sync on a configuration first."
      else (sync_each configs v 0 w >>= λ x. ok (x.0, length configs, x.1))
