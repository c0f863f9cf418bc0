-- ===== src/Api/Run.antt =====
-- The run over all batches, the fan-out into jobs and the job of models/cartona_api.py.
pub mod Laws
pub mod Fanout
pub mod Drain
pub mod Live
pub mod Tracked
pub mod Settled
use cartona_odoo.Base.{
  ℕ, zero, suc, ◌+◌, ◌-◌, String, Bool, true, false, not, ◌&&◌, ◌||◌, ◌<>◌, Option, none, some,
  List, [], ◌∷◌, ◌++◌, map, str_eq, ◌==◌, length, take, drop, select, is_empty, find, if◌then◌else◌,
}
use cartona_odoo.Py.Exn.{Result, ok, err, raise, value_error, ◌>>=◌}
use cartona_odoo.Py.Number.{ℤ, pos, decimal}
use cartona_odoo.Py.Json.{
  Json, null, bool, int, str, arr, obj, Items, nil, cons, Fields, field, end, Python, get_none,
  get_or, truthy, str_json,
}
use cartona_odoo.Config.Data.{Config}
use cartona_odoo.Config.Dashboard.{refresh_stats, write_config}
use cartona_odoo.Order.Data.{Text}
use cartona_odoo.Order.Issue.{Status, EntryType, Issue, RecordRef, text}
use cartona_odoo.Order.Resolve.{Variant}
use cartona_odoo.Log.{Logs, LogVals, Detail, Operation, ActionType, Caller, log_operation}
use cartona_odoo.Product.SyncTable.{
  SyncRow, mem, ensure_for_products, mark_syncing, mark_success, mark_error,
}
use cartona_odoo.Product.Trigger.{SyncFields}
use cartona_odoo.Api.Request.{
  Net, Method, put, successful, make_api_request, normalize_api_response,
}
use cartona_odoo.Api.Payload.{
  Shelf, build_variant_payload, bulk_update_products, error_result, fields_name, finish_bulk,
  ids_json, keep_text, payloads, resolve_sync_warehouse, wants_price, wants_stock,
}
use cartona_odoo.Api.Batch.{
  BatchJob, BatchResult, SyncWorld, Totals, add_batch, batch_done, batch_row, batch_status,
  detail_of, eligible, nothing_yet, slices, slices_within, sync_each, sync_log, sync_one_batch,
  text_of, variant_ids,
}

module _ (P : Python) (net : Net) (shelf : Shelf) (now : ℕ) (caller : Caller) where
  abbrev summary : Totals → ℕ → String → Text
  summary t total template =
      text template (decimal t.success_count ∷ decimal t.error_count ∷ decimal total ∷ [])

  pub logged : LogVals → List Detail → SyncWorld → Result SyncWorld
  logged vals details w = do
    logs ← log_operation now caller vals details w.logs
    ok (record w { logs = logs })

  -- The statistics of the configuration, and the refresh of its dashboard, which is not forced.
  unfoldable pub finish_batches : Config → SyncWorld → SyncWorld
  finish_batches c w = record w {
    configs =
        write_config c.id (refresh_stats now false w.rows (w.imported_orders c.id) w.logs)
          w.configs;
  }

  pub logged_and_finished : Config → LogVals → List Detail → SyncWorld → Result SyncWorld
  unfolding logged
  logged_and_finished c vals details w = do w' ← logged vals details w; ok (finish_batches c w')

  pub run_batches :
      Option ℕ
      → Config
      → String
      → Option ActionType
      → List Variant
      → SyncWorld
      → List (List Variant)
      → Result SyncWorld
  unfolding sync_each sync_log logged_and_finished
  run_batches context c template action vs w batches =
      let rows = (ensure_for_products (λ r. r) (variant_ids vs) c w.rows).1 in
      let run = sync_each P net shelf now caller context c batches nothing_yet rows in
      logged_and_finished c
        (sync_log P net shelf now caller c (summary run.0 (length vs) template) (length vs) action
          run.0)
        run.0.detail_lines (record w { rows = run.1 })

  -- The small synchronous run over several batches.
  unfoldable pub sync_variants_in_batches :
      Option ℕ → Config → String → Option ActionType → List Variant → SyncWorld → Result SyncWorld
  unfolding run_batches
  sync_variants_in_batches context c template action [] w = ok w
  sync_variants_in_batches context c template action (v ∷ vs) w =
      slices c.batch_size (v ∷ vs) >>= run_batches context c template action (v ∷ vs) w

  unfoldable pub queue_batches : Config → ℕ → ℕ → List (List Variant) → List BatchJob
  queue_batches c index total [] = []
  queue_batches c index total (batch ∷ rest) =
      record { config = c.id; variants = variant_ids batch; index = index; total = total }
      ∷ queue_batches c (suc index) total rest

  unfoldable pub queue_all :
      Config → List Variant → SyncWorld → List (List Variant) → Result SyncWorld
  unfolding queue_batches
  queue_all c vs w batches = ok (record w {
    rows = (ensure_for_products (λ r. r) (variant_ids vs) c w.rows).1;
    queue = w.queue ++ queue_batches c 1 (length batches) batches;
  })

  -- One job for each batch.
  unfoldable pub sync_all_variants_fanout : Config → List Variant → SyncWorld → Result SyncWorld
  unfolding queue_all
  sync_all_variants_fanout c vs w = slices c.batch_size vs >>= queue_all c vs w

  run_batch_job : Option Config → List Variant → ℕ → ℕ → SyncWorld → Result SyncWorld
  unfolding sync_log logged_and_finished add_batch
  run_batch_job none vs index total w = ok w
  run_batch_job (some c) vs index total w =
      if not c.is_cartona_sync_enabled
      then ok w
      else (let (b, rows) =
            sync_one_batch P net shelf now caller (some c.warehouse_id) c vs w.rows in
          logged_and_finished c
            (record (sync_log P net shelf now caller c
              (text "Batch %(idx)s/%(total)s finished: %(success)s succeeded, %(error)s failed" (
                decimal index
                ∷ decimal total
                ∷ decimal b.success_count
                ∷ decimal b.error_count
                ∷ []))
              (length vs) (some ActionType.manual)
              (add_batch P net shelf now caller b nothing_yet)) { error_details = none })
            b.detail_lines (record w { rows = rows }))

  -- The job looks its configuration up again; `vs` are the variants of its ids.
  unfoldable pub sync_variant_batch_job : ℕ → List Variant → ℕ → ℕ → SyncWorld → Result SyncWorld
  unfolding run_batch_job
  sync_variant_batch_job config_id vs index total w =
      run_batch_job (find (λ c. c.id == config_id) w.configs) vs index total w

  fan_out_some : Config → List Variant → SyncWorld → Result SyncWorld
  fan_out_some c [] w = ok w
  fan_out_some c (v ∷ vs) w = sync_all_variants_fanout c (v ∷ vs) w

  unfoldable pub sync_all_variants : Config → List Variant → SyncWorld → Result SyncWorld
  unfolding fan_out_some
  sync_all_variants c products w =
      if not c.is_cartona_sync_enabled
      then ok w
      else fan_out_some c (select (eligible c.company_id) products) w
