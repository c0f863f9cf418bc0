-- ===== src/Config/Stats/Laws.antt =====
-- The counts of the dashboard: `_compute_dashboard_stats` of models/cartona_config.py.
use cartona_odoo.Base.{
  ℕ, ◌+◌, Bool, true, false, ◌&&◌, List, [], ◌∷◌, ◌≡◌, arith, select, length, ◌==◌,
}
use cartona_odoo.Config.Data.{Config}
use cartona_odoo.Order.Data.{SyncStatus, is_error, is_synced}
use cartona_odoo.Product.SyncTable.{SyncRow}
use cartona_odoo.Config.Stats.{count_rows, is_pending}

abbrev one : Bool → ℕ
one true = 1
one false = 0

one-status : (s : SyncStatus) → one (is_synced s) + one (is_error s) + one (is_pending s) ≡ 1
one-status SyncStatus.not_synced = omega arith
one-status SyncStatus.syncing = omega arith
one-status SyncStatus.synced = omega arith
one-status SyncStatus.error = omega arith

count_rows-cons :
    (c : Config) (test : SyncStatus → Bool) (r : SyncRow) (rows : List SyncRow)
    → count_rows c test (r ∷ rows)
      ≡ one (r.cartona_config_id == c.id && test r.sync_status) + count_rows c test rows
unfolding count_rows
count_rows-cons c test r rows = ground arith

pub count_rows-total :
    (c : Config) (rows : List SyncRow)
    → count_rows c is_synced rows + count_rows c is_error rows + count_rows c is_pending rows
      ≡ length (select (λ r. r.cartona_config_id == c.id) rows)
count_rows-total c [] = unfold count_rows in omega arith
count_rows-total c (r ∷ rows) = ground (
  arith,
  count_rows-total c rows,
  count_rows-cons c is_synced r rows,
  count_rows-cons c is_error r rows,
  count_rows-cons c is_pending r rows,
  one-status r.sync_status,
)
