-- ===== src/Config/Dashboard.antt =====
-- The dashboard's snapshot of recent issues: models/cartona_config.py.
pub mod Laws
use cartona_odoo.Base.{
  ℕ, suc, ◌-◌, ◌*◌, String, Bool, true, false, not, ◌&&◌, ◌||◌, Option, none, some, List, [], ◌∷◌,
  map, any, all, find, select, take, length, ltb, leb, ◌==◌, is_empty, if◌then◌else◌,
}
use cartona_odoo.Config.Data.{Config}
use cartona_odoo.Config.Stats.{
  is_trouble, dashboard_issues_cache_expired, update_sync_stats, count_imported,
}
use cartona_odoo.Order.Data.{Order}
use cartona_odoo.Order.Issue.{
  Status, EntryType, ErrorCode, missing_internal_product_id, invalid_internal_product_id,
  variant_not_found, variant_not_available,
}
use cartona_odoo.Log.{Log, LogLine, Logs}
use cartona_odoo.Product.SyncTable.{SyncRow}

-- What a search sorts by.
pub record Entry : Type 0 where
  pub id : ℕ
  pub created : ℕ

-- `… desc, id desc`
unfoldable pub not_older : Entry → Entry → Bool
not_older a b = ltb b.created a.created || b.created == a.created && leb b.id a.id

insert_entry : Entry → List Entry → List Entry
insert_entry e [] = e ∷ []
insert_entry e (x ∷ xs) =
    let rest = insert_entry e xs in if not_older e x then e ∷ x ∷ xs else x ∷ rest

pub newest_first : List Entry → List Entry
unfolding insert_entry
newest_first [] = []
newest_first (e ∷ es) = insert_entry e (newest_first es)

-- `search(…, order='… desc, id desc', limit=limit)`, on the rows that pass the domain.
unfoldable pub search_newest : ℕ → List Entry → List Entry
unfolding newest_first
search_newest limit es = take limit (newest_first es)

-- `DASHBOARD_ISSUE_LOOKBACK_HOURS`, in minutes
abbrev pub issue_since : ℕ → ℕ
issue_since now = now - 24 * 60

-- `_dashboard_recent_sync_domain`
unfoldable pub is_recent_issue : ℕ → Config → Log → Bool
is_recent_issue now c l =
    l.vals.cartona_config_id == c.id
    && not (ltb l.create_date (issue_since now))
    && is_trouble l.vals.status

-- `_PRODUCT_MAPPING_ERROR_CODES`
abbrev is_mapping_code : Option ErrorCode → Bool
is_mapping_code none = false
is_mapping_code (some missing_internal_product_id) = true
is_mapping_code (some invalid_internal_product_id) = true
is_mapping_code (some variant_not_found) = true
is_mapping_code (some variant_not_available) = true
is_mapping_code (some _) = false

abbrev is_line : EntryType → Bool
is_line EntryType.order_line = true
is_line _ = false

-- `_dashboard_product_mapping_domain`, with the log of the line.
unfoldable pub is_mapping_issue : ℕ → Config → LogLine → Log → Bool
is_mapping_issue now c line l =
    l.vals.cartona_config_id == c.id
    && not (ltb l.create_date (issue_since now))
    && is_line line.detail.entry.entry_type
    && is_trouble line.detail.entry.status
    && is_mapping_code line.detail.entry.error_code

unfoldable pub log_entries : (Log → Bool) → List Log → List Entry
log_entries test [] = []
log_entries test (l ∷ ls) =
    let rest = log_entries test ls in
    if test l then record { id = l.id; created = l.create_date } ∷ rest else rest

line_entry : ℕ → (Log → Bool) → List Entry → Option Log → List Entry
line_entry n test rest none = rest
line_entry n test rest (some l) =
    if test l then record { id = n; created = l.create_date } ∷ rest else rest

-- The id of a line is its place in the table, where lines are only appended.
line_entries : ℕ → (LogLine → Log → Bool) → List Log → List LogLine → List Entry
unfolding line_entry
line_entries n test logs [] = []
line_entries n test logs (line ∷ lines) =
    line_entry n (test line) (line_entries (suc n) test logs lines)
      (find (λ l. l.id == line.sync_log_id) logs)

abbrev ids : List Entry → List ℕ
ids = map (λ e. e.id)

-- `DASHBOARD_ISSUE_EMBED_LIMIT` is 50.
unfoldable pub compute_dashboard_issue_snapshots : ℕ → Logs → Config → Config
unfolding log_entries line_entries
compute_dashboard_issue_snapshots now db c = record c {
  dashboard_issues_refreshed_at = some now;
  product_mapping_issue_ids =
      ids (search_newest 50 (line_entries 0 (is_mapping_issue now c) db.logs db.lines));
  recent_sync_issue_ids = ids (search_newest 50 (log_entries (is_recent_issue now c) db.logs));
}

unfoldable pub refresh_dashboard_issues_if_stale : ℕ → Bool → Logs → Config → Config
refresh_dashboard_issues_if_stale now force db c =
    if force || dashboard_issues_cache_expired now c
    then compute_dashboard_issue_snapshots now db c
    else c

-- `_update_sync_stats`, and then the refresh.
unfoldable pub refresh_stats : ℕ → Bool → List SyncRow → ℕ → Logs → Config → Config
refresh_stats now force rows pulled db c =
    refresh_dashboard_issues_if_stale now force db (update_sync_stats now rows pulled c)

-- The configurations with one of them written.
unfoldable pub write_config : ℕ → (Config → Config) → List Config → List Config
write_config id f = map (λ c. if c.id == id then f c else c)

unfoldable pub action_refresh_dashboard :
    {F : Type 0} → ℕ → List SyncRow → List (Order F) → Logs → Config → Config
action_refresh_dashboard now rows orders db c =
    refresh_stats now true rows (count_imported orders c) db c
