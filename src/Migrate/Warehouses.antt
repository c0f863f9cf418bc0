-- ===== src/Migrate/Warehouses.antt =====
-- migrations/18.0.2.0.47/pre-migrate.py: a configuration belongs to a warehouse from here on, and one
-- that has none gets the warehouse where its company's stock lies.
pub mod Laws
use cartona_odoo.Base.{
  ℕ, String, Bool, true, false, not, ◌&&◌, ◌||◌, Option, none, some, List, [], ◌∷◌, map, find,
  select, length, str_eq, ltb, leb, is_id, ◌==◌, if◌then◌else◌,
}

pub record Location : Type 0 where
  pub id : ℕ
  pub usage : String
  pub warehouse_id : Option ℕ

pub record Quant : Type 0 where
  pub location_id : ℕ
  pub company_id : Option ℕ

pub record Warehouse : Type 0 where
  pub id : ℕ
  pub company_id : ℕ

pub record ConfigRow : Type 0 where
  pub id : ℕ
  pub company_id : Option ℕ
  pub warehouse_id : Option ℕ

-- `configs` is none where the table of configurations does not exist yet. A column that is missing
-- reads empty, as it does once it has been added.
pub record Database : Type 0 where
  pub locations : List Location
  pub quants : List Quant
  pub warehouses : List Warehouse
  pub configs : Option (List ConfigRow)
  pub constraints : List String

abbrev internal_warehouse : Option Location → Option ℕ
internal_warehouse none = none
internal_warehouse (some l) = if str_eq l.usage "internal" then l.warehouse_id else none

unfoldable pub add_some : Option ℕ → List ℕ → List ℕ
add_some none ws = ws
add_some (some w) ws = w ∷ ws

-- The warehouse of each quant that the query joins, the rows of `GROUP BY` before they are grouped.
unfoldable pub stock_warehouses : List Location → Option ℕ → List Quant → List ℕ
unfolding add_some
stock_warehouses locations company [] = []
stock_warehouses locations none (q ∷ qs) = stock_warehouses locations none qs
stock_warehouses locations (some k) (q ∷ qs) =
    let rest = stock_warehouses locations (some k) qs in
    if is_id k q.company_id
    then add_some (internal_warehouse (find (λ l. l.id == q.location_id) locations)) rest
    else rest

-- `COUNT(*)` of a group
abbrev pub count_of : ℕ → List ℕ → ℕ
count_of w ws = length (select (λ v. v == w) ws)

-- `ORDER BY COUNT(*) DESC, sl.warehouse_id`
unfoldable pub comes_first : List ℕ → ℕ → ℕ → Bool
comes_first all a b =
    ltb (count_of b all) (count_of a all) || count_of a all == count_of b all && leb a b

first_of : List ℕ → ℕ → Option ℕ → ℕ
first_of all w none = w
first_of all w (some v) = if comes_first all w v then w else v

-- The first of the groups, which are counted in `all`.
unfoldable pub most_stock : List ℕ → List ℕ → Option ℕ
unfolding first_of
most_stock all [] = none
most_stock all (w ∷ ws) = some (first_of all w (most_stock all ws))

lower : ℕ → Option ℕ → ℕ
lower i none = i
lower i (some j) = if leb i j then i else j

-- `ORDER BY id LIMIT 1`
first_warehouse : ℕ → List Warehouse → Option ℕ
unfolding lower
first_warehouse k [] = none
first_warehouse k (w ∷ ws) =
    let rest = first_warehouse k ws in if w.company_id == k then some (lower w.id rest) else rest

first_of_company : Option ℕ → List Warehouse → Option ℕ
unfolding first_warehouse
first_of_company none ws = none
first_of_company (some k) ws = first_warehouse k ws

or_first : Option ℕ → Option ℕ → Option ℕ
or_first (some w) fallback = some w
or_first none fallback = fallback

unfoldable pub pick_warehouse : Database → Option ℕ → Option ℕ
unfolding or_first first_of_company
pick_warehouse db company =
    let stock = stock_warehouses db.locations company db.quants in
    or_first (most_stock stock stock) (first_of_company company db.warehouses)

-- An id of 0 counts as none.
set_warehouse : Option ℕ → ConfigRow → ConfigRow
set_warehouse none c = c
set_warehouse (some w) c = if w == 0 then c else record c { warehouse_id = some w }

backfill_row : Database → ConfigRow → ConfigRow
unfolding set_warehouse
backfill_row db c = elim c.warehouse_id [
  | none ↦ set_warehouse (pick_warehouse db c.company_id) c
  | some w ↦ c
]

migrate_configs : Database → Option (List ConfigRow) → Database
unfolding backfill_row
migrate_configs db none = db
migrate_configs db (some cs) = record db {
  configs = some (map (backfill_row db) cs);
  constraints = select (λ n. not (str_eq n "cartona_config_company_uniq")) db.constraints;
}

unfoldable pub migrate : Database → Database
unfolding migrate_configs
migrate db = migrate_configs db db.configs
