-- ===== src/Migrate/Pivot.antt =====
-- migrations/18.0.2.0.32: the sync state moves from the columns of the variants to a table with a row
-- for each variant and configuration. pre-migrate.py stages the old state, Odoo creates the new table,
-- and post-migrate.py loads it.
pub mod Laws
use cartona_odoo.Base.{
  ℕ, String, Bool, true, false, not, ◌&&◌, ◌||◌, Option, none, some, List, [], ◌∷◌, ◌++◌, any,
  select, str_eq, ◌==◌, if◌then◌else◌,
}

-- A row of `ir_model_fields`, and a column of a table.
pub record ModelField : Type 0 where
  pub model : String
  pub name : String

pub record Column : Type 0 where
  pub table : String
  pub name : String

-- A row of `ir_model_data`, and of `ir_ui_view`.
pub record XmlId : Type 0 where
  pub id : ℕ
  pub addon : String
  pub model : String
  pub res_id : ℕ

pub record View : Type 0 where
  pub id : ℕ
  pub model : String

-- A variant with its template's company and the old columns.
pub record Product : Type 0 where
  pub id : ℕ
  pub company_id : Option ℕ
  pub cartona_sync_status : Option String
  pub cartona_sync_date : Option ℕ
  pub cartona_sync_error : Option String

pub record ConfigRow : Type 0 where
  pub id : ℕ
  pub company_id : ℕ

-- A row of `_cartona_sync_migrate`.
pub record Staged : Type 0 where
  pub product_id : ℕ
  pub cartona_config_id : ℕ
  pub sync_status : Option String
  pub sync_date : Option ℕ
  pub sync_error : Option String

-- A row of `cartona_product_sync`.
pub record PivotRow : Type 0 where
  pub product_id : ℕ
  pub cartona_config_id : ℕ
  pub company_id : ℕ
  pub sync_status : String
  pub sync_date : Option ℕ
  pub sync_error : Option String

-- The last two tables may be missing.
pub record Database : Type 0 where
  pub model_fields : List ModelField
  pub columns : List Column
  pub xml_ids : List XmlId
  pub views : List View
  pub products : List Product
  pub configs : List ConfigRow
  pub staging : Option (List Staged)
  pub pivot : Option (List PivotRow)

unfoldable pub has_column : Database → String → String → Bool
has_column db table name = any (λ c. str_eq c.table table && str_eq c.name name) db.columns

-- `_OBSOLETE_PRODUCT_FIELDS`
abbrev is_obsolete : String → Bool
is_obsolete f =
    str_eq f "cartona_id"
    || str_eq f "cartona_sync_status"
    || str_eq f "cartona_sync_date"
    || str_eq f "cartona_sync_error"

-- The field of a variant or a template that is obsolete and has no column any more.
unfoldable pub is_gone : Database → ModelField → Bool
unfolding has_column
is_gone db f =
    is_obsolete f.name
    && (str_eq f.model "product.product" && not (has_column db "product_product" f.name)
        || str_eq f.model "product.template" && not (has_column db "product_template" f.name))

-- The views of variants that this addon brought.
unfoldable pub is_own_view : Database → XmlId → Bool
is_own_view db x =
    str_eq x.addon "cartona_odoo"
    && str_eq x.model "ir.ui.view"
    && any (λ v. v.id == x.res_id && str_eq v.model "product.product") db.views

unfoldable pub cleanup_obsolete_product_views : Database → Database
unfolding is_gone is_own_view
cleanup_obsolete_product_views db = record db {
  model_fields = select (λ f. not (is_gone db f)) db.model_fields;
  xml_ids = select (λ x. not (is_own_view db x)) db.xml_ids;
  views = select (λ v. not (any (λ x. is_own_view db x && x.res_id == v.id) db.xml_ids)) db.views;
}

abbrev has_state : Option String → Bool
has_state none = false
has_state (some s) = not (str_eq s "not_synced")

abbrev company_fits : Option ℕ → ℕ → Bool
company_fits none k = true
company_fits (some c) k = c == k

-- The condition of the staging query.
unfoldable pub is_staged : Product → ConfigRow → Bool
is_staged p c = company_fits p.company_id c.company_id && has_state p.cartona_sync_status

abbrev staged_row : Product → ConfigRow → Staged
staged_row p c = record {
  product_id = p.id;
  cartona_config_id = c.id;
  sync_status = p.cartona_sync_status;
  sync_date = p.cartona_sync_date;
  sync_error = p.cartona_sync_error;
}

stage_product : Product → List ConfigRow → List Staged
stage_product p [] = []
stage_product p (c ∷ cs) =
    let rest = stage_product p cs in if is_staged p c then staged_row p c ∷ rest else rest

-- The cross join.
unfoldable pub stage : List Product → List ConfigRow → List Staged
unfolding stage_product
stage [] cs = []
stage (p ∷ ps) cs = stage_product p cs ++ stage ps cs

-- The staging table is created or emptied, and filled.
unfoldable pub pre_migrate : Database → Database
unfolding has_column
pre_migrate db =
    let clean = cleanup_obsolete_product_views db in
    if has_column db "product_product" "cartona_sync_status"
    then record clean { staging = some (stage db.products db.configs) }
    else clean

abbrev pub has_key : ℕ → ℕ → PivotRow → Bool
has_key p c r = r.product_id == p && r.cartona_config_id == c

-- `ON CONFLICT (product_id, cartona_config_id) DO NOTHING`
insert_row : PivotRow → List PivotRow → List PivotRow
insert_row r rows =
    if any (has_key r.product_id r.cartona_config_id) rows then rows else rows ++ (r ∷ [])

-- `COALESCE(m.sync_status, 'not_synced')`
abbrev or_not_synced : Option String → String
or_not_synced none = "not_synced"
or_not_synced (some s) = s

abbrev pivot_row : Staged → ConfigRow → PivotRow
pivot_row m c = record {
  product_id = m.product_id;
  cartona_config_id = m.cartona_config_id;
  company_id = c.company_id;
  sync_status = or_not_synced m.sync_status;
  sync_date = m.sync_date;
  sync_error = m.sync_error;
}

-- The configurations that a staged row joins.
load_row : Staged → List ConfigRow → List PivotRow → List PivotRow
unfolding insert_row
load_row m [] rows = rows
load_row m (c ∷ cs) rows =
    load_row m cs (if c.id == m.cartona_config_id then insert_row (pivot_row m c) rows else rows)

unfoldable pub load : List Staged → List ConfigRow → List PivotRow → List PivotRow
unfolding load_row
load [] cs rows = rows
load (m ∷ ms) cs rows = load ms cs (load_row m cs rows)

load_tables : Database → Option (List Staged) → Option (List PivotRow) → Database
load_tables db none pivot = db
load_tables db (some staged) none = db
load_tables db (some staged) (some rows) = record db {
  staging = none;
  pivot = some (load staged db.configs rows);
}

unfoldable pub post_migrate : Database → Database
unfolding load_tables
post_migrate db = load_tables db db.staging db.pivot
