-- ===== src/Product/SyncTable.antt =====
-- models/cartona_product_sync.py: one row of sync state for each variant and configuration.
pub mod Laws
pub mod Ensure
use cartona_odoo.Base.{
  ℕ, String, Bool, true, false, not, ◌&&◌, Option, none, some, List, [], ◌∷◌, ◌++◌, map, any, find,
  select, str_eq, ◌==◌, if◌then◌else◌,
}
use cartona_odoo.Config.Data.{Config}
use cartona_odoo.Order.Data.{SyncStatus}

pub record SyncRow : Type 0 where
  pub product_id : ℕ
  pub cartona_config_id : ℕ
  pub company_id : ℕ
  pub sync_status : SyncStatus
  pub sync_date : Option ℕ
  pub sync_error : Option String

-- `[('product_id', '=', product), ('cartona_config_id', '=', config)]`
unfoldable pub has_key : ℕ → ℕ → SyncRow → Bool
has_key product config r = r.product_id == product && r.cartona_config_id == config

abbrev pub same_key : SyncRow → SyncRow → Bool
same_key a b = has_key a.product_id a.cartona_config_id b

-- `search(…, limit=1)`
unfoldable pub search_row : ℕ → ℕ → List SyncRow → Option SyncRow
search_row product config = find (has_key product config)

unfoldable pub new_row : ℕ → Config → SyncRow
new_row product config = record {
  product_id = product;
  cartona_config_id = config.id;
  company_id = config.company_id;
  sync_status = SyncStatus.not_synced;
  sync_date = none;
  sync_error = none;
}

-- `INSERT … ON CONFLICT (product_id, cartona_config_id) DO NOTHING RETURNING id`: the row that was
-- inserted, if one was.
unfoldable pub insert_or_nothing : SyncRow → List SyncRow → Option SyncRow × List SyncRow
insert_or_nothing r rows =
    if any (same_key r) rows then (none, rows) else (some r, rows ++ (r ∷ []))

-- The row of the insert, or the one that another job inserted first.
inserted_or_found : ℕ → ℕ → Option SyncRow × List SyncRow → Option SyncRow × List SyncRow
inserted_or_found product config (some r, rows) = (some r, rows)
inserted_or_found product config (none, rows) = (search_row product config rows, rows)

found_or_inserted :
    (List SyncRow → List SyncRow)
    → ℕ
    → Config
    → Bool
    → Option SyncRow
    → List SyncRow
    → Option SyncRow × List SyncRow
unfolding inserted_or_found
found_or_inserted between product config create (some r) rows = (some r, rows)
found_or_inserted between product config false none rows = (none, rows)
found_or_inserted between product config true none rows =
    inserted_or_found product config.id (insert_or_nothing (new_row product config) (between rows))

-- `between` is what other jobs do to the table between the search and the insert.
unfoldable pub get_for_product_config :
    (List SyncRow → List SyncRow)
    → Option ℕ
    → Option Config
    → Bool
    → List SyncRow
    → Option SyncRow × List SyncRow
unfolding found_or_inserted
get_for_product_config between none config create rows = (none, rows)
get_for_product_config between (some product) none create rows = (none, rows)
get_for_product_config between (some product) (some config) create rows =
    found_or_inserted between product config create (search_row product config.id rows) rows

abbrev pub mem : ℕ → List ℕ → Bool
mem i = any (λ j. j == i)

-- `[('product_id', 'in', products), ('cartona_config_id', '=', config)]`
unfoldable pub search_rows : List ℕ → ℕ → List SyncRow → List SyncRow
search_rows products config =
    select (λ r. mem r.product_id products && r.cartona_config_id == config)

-- `set(products.ids) - set(existing.product_id.ids)`, in some order and each once.
unfoldable pub missing_ids : List ℕ → List SyncRow → List ℕ
missing_ids [] existing = []
missing_ids (p ∷ ps) existing =
    let rest = missing_ids ps existing in
    if mem p (map (λ r. r.product_id) existing) then rest else if mem p rest then rest else p ∷ rest

-- The bulk `INSERT … SELECT … ON CONFLICT DO NOTHING`.
unfoldable pub insert_all : Config → List ℕ → List SyncRow → List SyncRow
insert_all config [] rows = rows
insert_all config (p ∷ ps) rows = insert_all config ps (insert_or_nothing (new_row p config) rows).1

-- The rows of the products, and the table. A second job may come in between here too.
unfoldable pub ensure_for_products :
    (List SyncRow → List SyncRow) → List ℕ → Config → List SyncRow → List SyncRow × List SyncRow
ensure_for_products between [] config rows = ([], rows)
ensure_for_products between (p ∷ ps) config rows =
    let missing = missing_ids (p ∷ ps) (search_rows (p ∷ ps) config.id rows) in
    let later = insert_all config missing (between rows) in
    (search_rows (p ∷ ps) config.id later, later)

-- A write to the rows that pass the test.
abbrev update_rows : (SyncRow → Bool) → (SyncRow → SyncRow) → List SyncRow → List SyncRow
update_rows test f = map (λ r. if test r then f r else r)

unfoldable pub mark_syncing : (SyncRow → Bool) → List SyncRow → List SyncRow
mark_syncing test =
    update_rows test (λ r. record r { sync_status = SyncStatus.syncing; sync_error = none })

unfoldable pub mark_success : ℕ → (SyncRow → Bool) → List SyncRow → List SyncRow
mark_success now test =
    update_rows test
      (λ r. record r { sync_status = SyncStatus.synced; sync_date = some now; sync_error = none })

-- `error or False`
abbrev error_or_false : Option String → Option String
error_or_false none = none
error_or_false (some e) = if str_eq e "" then none else some e

unfoldable pub mark_error : ℕ → Option String → (SyncRow → Bool) → List SyncRow → List SyncRow
mark_error now error test = update_rows test (λ r. record r {
  sync_status = SyncStatus.error;
  sync_date = some now;
  sync_error = error_or_false error;
})
