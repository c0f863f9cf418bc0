-- ===== src/Config/Stats.antt =====
-- The counts of models/cartona_config.py for the dashboard, `_update_sync_stats` and the age of the
-- dashboard's snapshot.
pub mod Laws
use cartona_odoo.Base.{
  ℕ, ◌+◌, ◌-◌, ◌*◌, String, Bool, true, false, not, ◌&&◌, ◌||◌, Option, none, some, List, [], ◌∷◌,
  map, any, select, length, ltb, ◌==◌, is_id,
}
use cartona_odoo.Config.Data.{Config}
use cartona_odoo.Config.Jobs.{Job, pending_jobs}
use cartona_odoo.Order.Data.{Order, SyncStatus, is_error, is_synced}
use cartona_odoo.Order.Issue.{Status}
use cartona_odoo.Order.Resolve.{Variant}
use cartona_odoo.Log.{Log}
use cartona_odoo.Product.SyncTable.{SyncRow, mem}

-- `search_count(_dashboard_sync_domain([('sync_status', …)]))`
unfoldable pub count_rows : Config → (SyncStatus → Bool) → List SyncRow → ℕ
count_rows c test rows =
    length (select (λ r. r.cartona_config_id == c.id && test r.sync_status) rows)

abbrev pub is_pending : SyncStatus → Bool
is_pending SyncStatus.not_synced = true
is_pending SyncStatus.syncing = true
is_pending _ = false

-- The variants with a row of the configuration.
abbrev pub row_products : Config → List SyncRow → List ℕ
row_products c rows = map (λ r. r.product_id) (select (λ r. r.cartona_config_id == c.id) rows)

abbrev pub own : ℕ → Option ℕ → Bool
own company none = true
own company (some k) = k == company

-- `_dashboard_eligible_product_domain`, of a search, which leaves archived variants out.
abbrev pub eligible_product : Config → Variant → Bool
eligible_product c v = v.active && v.sale_ok && own c.company_id v.company_id

unfoldable pub count_pending_variants : Config → List Variant → List SyncRow → ℕ
unfolding count_rows
count_pending_variants c products rows =
    count_rows c is_pending rows
    + length (select (λ v. eligible_product c v && not (mem v.id (row_products c rows))) products)

-- An error or a warning.
abbrev pub is_trouble : Status → Bool
is_trouble Status.error = true
is_trouble Status.warning = true
is_trouble _ = false

abbrev pub imported : {F : Type 0} → Config → Order F → Bool
imported c o = o.is_cartona_order && is_id c.id o.cartona_config_id

-- The counts that `_compute_dashboard_stats` shows.
pub record Stats : Type 0 where
  pub products_synced : ℕ
  pub products_error : ℕ
  pub products_pending : ℕ
  pub orders_cartona : ℕ
  pub sync_errors_24h : ℕ
  pub pending_jobs : ℕ

unfoldable pub compute_dashboard_stats :
    {F : Type 0}
    → (String → String → Bool)
    → ℕ
    → Config
    → List Variant
    → List SyncRow
    → List (Order F)
    → List Log
    → List Job
    → Stats
unfolding count_pending_variants count_rows
compute_dashboard_stats ilike now c products rows orders logs jobs = record {
  products_synced = count_rows c is_synced rows;
  products_error = count_rows c is_error rows;
  products_pending = count_pending_variants c products rows;
  orders_cartona = length (select (imported c) orders);
  sync_errors_24h = length (
      select
        (λ l.
          l.vals.cartona_config_id == c.id
          && is_trouble l.vals.status
          && not (ltb l.create_date (now - 24 * 60)))
        logs);
  pending_jobs = length (pending_jobs ilike c jobs);
}

-- `search_count` of the imported orders of a configuration.
unfoldable pub count_imported : {F : Type 0} → List (Order F) → Config → ℕ
count_imported orders c = length (select (imported c) orders)

-- The orders are given by their number.
unfoldable pub update_sync_stats : ℕ → List SyncRow → ℕ → Config → Config
unfolding count_rows
update_sync_stats now rows pulled c = record c {
  total_products_synced = count_rows c is_synced rows;
  total_orders_pulled = pulled;
  last_sync_date = some now;
}

-- A snapshot older than five minutes.
unfoldable pub dashboard_issues_cache_expired : ℕ → Config → Bool
dashboard_issues_cache_expired now c = elim c.dashboard_issues_refreshed_at [
  | none ↦ true
  | some t ↦ ltb 5 (now - t)
]
