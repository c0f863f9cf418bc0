-- ===== src/Api/Retry.antt =====
-- `_collect_variants_for_retry`, `retry_failed_variants` and `cron_retry_product_sync` of
-- models/cartona_api.py.
pub mod Laws
use cartona_odoo.Base.{
  ℕ, ◌+◌, ◌-◌, String, Bool, true, false, not, ◌&&◌, ◌||◌, Option, none, some, List, [], ◌∷◌, ◌++◌,
  map, any, select, length, take, is_empty, ◌==◌, if◌then◌else◌,
}
use cartona_odoo.Py.Exn.{Exn, Result, ok, err, ◌>>=◌}
use cartona_odoo.Py.Json.{Python}
use cartona_odoo.Config.Data.{Config}
use cartona_odoo.Order.Data.{SyncStatus}
use cartona_odoo.Order.Resolve.{Variant}
use cartona_odoo.Order.World.{get_cartona_config}
use cartona_odoo.Log.{ActionType, Caller}
use cartona_odoo.Product.SyncTable.{SyncRow, mem, ensure_for_products}
use cartona_odoo.Api.Request.{Net}
use cartona_odoo.Api.Payload.{Shelf}
use cartona_odoo.Api.Batch.{SyncWorld, variant_ids, eligible}
use cartona_odoo.Api.Run.{sync_variants_in_batches}

abbrev wants_retry : SyncStatus → Bool
wants_retry SyncStatus.not_synced = true
wants_retry SyncStatus.error = true
wants_retry _ = false

-- The rows of a configuration that a retry takes.
abbrev pub retried : Config → SyncRow → Bool
retried c r = r.cartona_config_id == c.id && wants_retry r.sync_status

-- `mapped('product_id')`: the variants of the rows, in the order of the catalogue, each once.
unfoldable pub variants_of : List Variant → List SyncRow → List Variant
variants_of products rows = select (λ v. mem v.id (map (λ r. r.product_id) rows)) products

-- The saleable variants of the company with no row of the configuration.
unfoldable pub without_row : Config → List Variant → List SyncRow → List Variant
without_row c products rows =
    select
      (λ v.
        eligible c.company_id v
        && not
            (mem v.id (map (λ r. r.product_id) (select (λ r. r.cartona_config_id == c.id) rows))))
      products

ensured : Config → List Variant → List SyncRow → List SyncRow
ensured c vs rows =
    if is_empty vs then rows else (ensure_for_products (λ r. r) (variant_ids vs) c rows).1

-- The variants that failed or were never sent, up to the limit, and then new ones, which get rows.
unfoldable pub collect_variants_for_retry :
    Config → ℕ → List Variant → List SyncRow → List Variant × List SyncRow
unfolding variants_of without_row ensured
collect_variants_for_retry c limit products rows =
    let known = variants_of products (take limit (select (retried c) rows)) in
    let extra = take (limit - length known) (without_row c products rows) in
    (known ++ extra, ensured c extra rows)

module _ (P : Python) (net : Net) (shelf : Shelf) (now : ℕ) (caller : Caller)
    (products : List Variant) where
  retry_collected :
      Option ℕ
      → Config
      → Option ActionType
      → SyncWorld
      → List Variant × List SyncRow
      → Result SyncWorld
  retry_collected warehouse c action w (vs, rows) =
      sync_variants_in_batches P net shelf now caller warehouse c
        "Retry sync finished: {success} succeeded, {error} failed ({total} total)" action vs
        (record w { rows = rows })

  retry_under : Option ℕ → Config → Option ActionType → ℕ → SyncWorld → Result SyncWorld
  unfolding retry_collected
  retry_under warehouse c action limit w =
      if not c.is_cartona_sync_enabled
      then ok w
      else retry_collected warehouse c action w (collect_variants_for_retry c limit products w.rows)

  -- The configuration and the warehouse are those of the context.
  unfoldable pub retry_failed_variants :
      Option ℕ → Option ℕ → Option ActionType → ℕ → SyncWorld → Result SyncWorld
  unfolding retry_under
  retry_failed_variants context warehouse action limit w =
      get_cartona_config w.configs context >>= λ c. retry_under warehouse c action limit w

  -- A retry that raises is passed over. The one cause, a batch size of zero, no stored configuration
  -- has.
  retry_each : List Config → SyncWorld → SyncWorld
  unfolding retry_failed_variants
  retry_each [] w = w
  retry_each (c ∷ cs) w =
      retry_each cs
        (elim (retry_failed_variants (some c.id) none none 100 w) [ err e ↦ w | ok w' ↦ w' ])

  unfoldable pub cron_retry_product_sync : SyncWorld → SyncWorld
  unfolding retry_each
  cron_retry_product_sync w = retry_each (select (λ c. c.is_cartona_sync_enabled) w.configs) w
