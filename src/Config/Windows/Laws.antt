-- ===== src/Config/Windows/Laws.antt =====
-- The window actions of models/cartona_config.py beside the counts of `_compute_dashboard_stats`.
use Prim.Native.Nat.{min}
use cartona_odoo.Base.{
  ℕ, ◌+◌, String, Bool, true, not, ◌&&◌, Option, none, some, List, [], ◌∷◌, ◌≡◌, length, select,
}
use cartona_odoo.Config.Data.{Config}
use cartona_odoo.Config.Domain.{Value, number, word, flag, nothing, Cell, matches}
use cartona_odoo.Config.Jobs.{Job}
use cartona_odoo.Config.Stats.{
  row_products, eligible_product, is_trouble as is_problem, compute_dashboard_stats,
  update_sync_stats, count_imported,
}
use cartona_odoo.Config.Dashboard.{refresh_dashboard_issues_if_stale}
use cartona_odoo.Config.Overview.{compute_dashboard_issue_counts}
use cartona_odoo.Config.Windows.{
  cell, action_view_products_synced, action_view_products_error, action_view_products_pending,
  action_view_sync_errors_24h, action_view_cartona_orders, action_view_synced_variants,
  action_view_recent_sync_issues, Window,
}
use cartona_odoo.Order.Data.{Order, SyncStatus}
use cartona_odoo.Order.Issue.{Status}
use cartona_odoo.Order.Resolve.{Variant}
use cartona_odoo.Log.{Log, Logs}
use cartona_odoo.Product.SyncTable.{SyncRow, mem}

abbrev sync_status_word : SyncStatus → String
sync_status_word SyncStatus.not_synced = "not_synced"
sync_status_word SyncStatus.syncing = "syncing"
sync_status_word SyncStatus.synced = "synced"
sync_status_word SyncStatus.error = "error"

abbrev status_word : Status → String
status_word Status.success = "success"
status_word Status.error = "error"
status_word Status.warning = "warning"
status_word Status.info = "info"

abbrev optional : Option ℕ → Value
optional none = nothing
optional (some n) = number n

-- The fields of a sync row, of a log and of an order that the domains name.
abbrev pub sync_cells : SyncRow → List Cell
sync_cells r =
    cell "product_id" (number r.product_id)
    ∷ cell "cartona_config_id" (number r.cartona_config_id)
    ∷ cell "sync_status" (word (sync_status_word r.sync_status))
    ∷ []

abbrev pub log_cells : Log → List Cell
log_cells l =
    cell "cartona_config_id" (number l.vals.cartona_config_id)
    ∷ cell "status" (word (status_word l.vals.status))
    ∷ cell "create_date" (number l.create_date)
    ∷ []

abbrev pub order_cells : {F : Type 0} → Order F → List Cell
order_cells o =
    cell "is_cartona_order" (flag o.is_cartona_order)
    ∷ cell "cartona_config_id" (optional o.cartona_config_id)
    ∷ []

-- How many records a window lists.
abbrev pub listed : {A : Type 0} → Window → (A → List Cell) → List A → ℕ
listed w cells xs = length (select (λ x. matches w.domain (cells x)) xs)

abbrev unsent : Config → List Variant → List SyncRow → List Variant
unsent c products rows =
    select (λ v. eligible_product c v && not (mem v.id (row_products c rows))) products

-- The windows beside the counts.
abbrev pub Lists :
    {F : Type 0}
    → (String → String → Bool)
    → ℕ
    → Config
    → List Variant
    → List SyncRow
    → List (Order F)
    → Logs
    → List Job
    → Type 0
Lists ilike now c products rows orders db jobs =
    let s = compute_dashboard_stats ilike now c products rows orders db.logs jobs in
    let written = update_sync_stats now rows (count_imported orders c) c in
    let shown = compute_dashboard_issue_counts (refresh_dashboard_issues_if_stale now true db c) in
    (listed (action_view_products_synced c) sync_cells rows ≡ s.products_synced)
    × (listed (action_view_products_error c) sync_cells rows ≡ s.products_error)
    × (listed (action_view_products_pending c) sync_cells rows + length (unsent c products rows)
        ≡ s.products_pending)
    × (listed (action_view_cartona_orders c) order_cells orders ≡ s.orders_cartona)
    × (listed (action_view_sync_errors_24h now c) log_cells db.logs ≡ s.sync_errors_24h)
    × (listed (action_view_synced_variants c) sync_cells rows ≡ written.total_products_synced)
    × (listed (action_view_cartona_orders c) order_cells orders ≡ written.total_orders_pulled)
    × (min 50 (listed (action_view_recent_sync_issues now c) log_cells db.logs) ≡ shown.recent_sync)
