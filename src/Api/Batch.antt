-- ===== src/Api/Batch.antt =====
-- One product batch of models/cartona_api.py: the rows it marks, its detail lines, and the totals of a
-- loop over batches.
pub mod Laws
pub mod Slices
use cartona_odoo.Base.{
  ℕ, zero, suc, ◌+◌, ◌-◌, String, Bool, true, false, not, ◌&&◌, ◌||◌, ◌<>◌, Option, none, some,
  List, [], ◌∷◌, ◌++◌, map, str_eq, ◌==◌, length, take, drop, select, is_empty, find, if◌then◌else◌,
}
use cartona_odoo.Py.Exn.{Result, ok, err, raise, value_error, ◌>>=◌}
use cartona_odoo.Py.Number.{ℤ, pos, decimal}
use cartona_odoo.Py.Json.{
  Json, null, bool, int, str, arr, obj, Items, nil, cons, Fields, field, end, Python, get_none,
  get_or, truthy, str_json,
}
use cartona_odoo.Config.Data.{Config}
use cartona_odoo.Order.Data.{Text}
use cartona_odoo.Order.Issue.{Status, EntryType, Issue, RecordRef, text}
use cartona_odoo.Order.Resolve.{Variant}
use cartona_odoo.Log.{Logs, LogVals, Detail, Operation, ActionType, Caller, log_operation}
use cartona_odoo.Product.SyncTable.{
  SyncRow, mem, ensure_for_products, mark_syncing, mark_success, mark_error,
}
use cartona_odoo.Product.Trigger.{SyncFields}
use cartona_odoo.Api.Request.{
  Net, Method, put, successful, error_text, make_api_request, normalize_api_response,
}
use cartona_odoo.Api.Payload.{
  Shelf, build_variant_payload, bulk_update_products, error_result, fields_name, finish_bulk,
  ids_json, keep_text, payloads, resolve_sync_warehouse, wants_price, wants_stock,
}

-- `variants[i:i + n] for i in range(0, len(variants), n)`; the fuel is the number of variants.
unfoldable pub slices_within : {A : Type 0} → ℕ → ℕ → List A → List (List A)
slices_within zero n xs = []
slices_within (suc fuel) n [] = []
slices_within (suc fuel) n (x ∷ xs) = take n (x ∷ xs) ∷ slices_within fuel n (drop n (x ∷ xs))

-- A step of zero raises.
unfoldable pub slices : {A : Type 0} → ℕ → List A → Result (List (List A))
unfolding slices_within
slices zero xs = raise value_error "range() arg 3 must not be zero"
slices (suc n) xs = ok (slices_within (length xs) (suc n) xs)

-- A queued `sync_variant_batch_job`.
pub record BatchJob : Type 0 where
  pub config : ℕ
  pub variants : List ℕ
  pub index : ℕ
  pub total : ℕ

-- The tables that a batch touches, and the queue. Of the orders, a batch only counts those of a
-- configuration.
pub record SyncWorld : Type 0 where
  pub rows : List SyncRow
  pub logs : Logs
  pub queue : List BatchJob
  pub configs : List Config
  pub imported_orders : ℕ → ℕ

-- What one batch returns: the counts, the detail lines and the result of the request.
pub record BatchResult : Type 0 where
  pub success_count : ℕ
  pub error_count : ℕ
  pub detail_lines : List Detail
  pub result : Fields

abbrev pub variant_ids : List Variant → List ℕ
variant_ids = map (λ v. v.id)

-- The sync rows of a batch under a configuration.
abbrev pub batch_row : Config → List Variant → SyncRow → Bool
batch_row c batch r = r.cartona_config_id == c.id && mem r.product_id (variant_ids batch)

-- `'success' if not error_count else ('warning' if success_count else 'error')`
unfoldable pub batch_status : ℕ → ℕ → Status
batch_status succeeded failed =
    if failed == 0 then Status.success else if succeeded == 0 then Status.error else Status.warning

-- The saleable variants of the company and the shared ones; a search leaves archived ones out.
abbrev pub eligible : ℕ → Variant → Bool
eligible company v = v.active && v.sale_ok && own v.company_id
  where
    own : Option ℕ → Bool
    own none = true
    own (some k) = k == company

-- The totals of the loop; `last_error` is the text of the last failed batch.
pub record Totals : Type 0 where
  pub success_count : ℕ
  pub error_count : ℕ
  pub detail_lines : List Detail
  pub last_error : Option String
  pub result : Fields

abbrev pub nothing_yet : Totals
nothing_yet = record {
  success_count = 0;
  error_count = 0;
  detail_lines = [];
  last_error = none;
  result = end;
}

module _ (P : Python) (net : Net) (shelf : Shelf) (now : ℕ) (caller : Caller) where
  pub text_of : Json → Option String
  text_of (str s) = some s
  text_of _ = none

  pub detail_of : Status → String → Json → Config → Variant → Detail
  unfolding text_of
  detail_of status template response c v = record {
    entry = record {
      status = status;
      entry_type = EntryType.product;
      message = text template (v.name ∷ []);
      error_code = none;
      order_ids = none;
      line_ids = some (record { line_id = null; internal_product_id = str (decimal v.id) });
      about = some (record { model = "product.product"; id = v.id; name = v.name });
    };
    request_data = some (
        net.dumps (
          obj (
            field "endpoint" (str "supplier-product/bulk-update") (
              field "method" (str "POST") (
                field "sync_fields" (str "both") (
                  field "payload"
                    (obj (
                      build_variant_payload shelf v SyncFields.both c.company_id
                        (some c.warehouse_id)))
                    end))))));
    response_data = text_of response;
  }

  -- The two branches behind the request.
  unfoldable pub batch_done :
      Config → List Variant → Fields → Bool → List SyncRow → BatchResult × List SyncRow
  unfolding detail_of
  batch_done c batch result true rows = (
    record {
      success_count = length batch;
      error_count = 0;
      detail_lines =
          map (detail_of Status.success "Synced variant %s" (get_none result "response_data") c)
            batch;
      result = result;
    },
    mark_success now (batch_row c batch) rows,
  )
  batch_done c batch result false rows = (
    record {
      success_count = 0;
      error_count = length batch;
      detail_lines =
          map
            (detail_of Status.error "Failed to sync variant %s" (get_none result "response_data") c)
            batch;
      result = result;
    },
    mark_error now (error_text P result "Unknown error") (batch_row c batch) rows,
  )

  unfoldable pub sync_one_batch :
      Option ℕ → Config → List Variant → List SyncRow → BatchResult × List SyncRow
  unfolding batch_done
  sync_one_batch context c batch rows =
      let result = bulk_update_products P net shelf c context SyncFields.both batch in
      batch_done c batch result (successful P result) (mark_syncing (batch_row c batch) rows)

  unfoldable pub add_batch : BatchResult → Totals → Totals
  add_batch b t = record {
    success_count = t.success_count + b.success_count;
    error_count = t.error_count + b.error_count;
    detail_lines = t.detail_lines ++ b.detail_lines;
    last_error = if b.error_count == 0 then t.last_error else error_text P b.result "Unknown error";
    result = b.result;
  }

  unfoldable pub sync_each :
      Option ℕ → Config → List (List Variant) → Totals → List SyncRow → Totals × List SyncRow
  unfolding add_batch
  sync_each context c [] t rows = (t, rows)
  sync_each context c (batch ∷ rest) t rows =
      let (b, rows') = sync_one_batch context c batch rows in
      sync_each context c rest (add_batch b t) rows'

  -- The log of a product sync over several variants.
  unfoldable pub sync_log : Config → Text → ℕ → Option ActionType → Totals → LogVals
  unfolding text_of
  sync_log c message processed action t = record {
    cartona_config_id = c.id;
    operation_type = Operation.product_sync;
    status = batch_status t.success_count t.error_count;
    message = message;
    about = none;
    error_details = t.last_error;
    request_data = text_of (get_none t.result "request_data");
    response_data = text_of (get_none t.result "response_data");
    records_processed = processed;
    records_success = t.success_count;
    records_error = t.error_count;
    action_type = action;
  }
