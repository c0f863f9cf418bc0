-- ===== src/Migrate/Renames.antt =====
-- migrations/18.0.2.0.0: tables, columns, models and fields get the names of this addon.
-- pre-migrate.py and post-migrate.py have the same functions and constants; only the first has a
-- guard.
pub mod Places
pub mod Moves
pub mod Idle
pub mod Steps
pub mod Fields
pub mod Dropped
pub mod Due
pub mod Again
pub mod Others
use cartona_odoo.Base.{
  String, Bool, true, false, not, ◌&&◌, ◌||◌, List, [], ◌∷◌, ◌++◌, map, any, select, str_eq,
  if◌then◌else◌,
}
use cartona_odoo.Migrate.Names.{
  Contents, kept, filled, Column, ModelField, Database, Rename, ColumnRename, ColumnName,
  table_renames, model_renames, field_renames, columns_to_drop,
}

unfoldable pub table_exists : Database → String → Bool
table_exists db table = any (str_eq table) db.tables

-- Whether a column is that of a table and a name.
abbrev pub is_column : String → String → Column → Bool
is_column table name c = str_eq c.table table && str_eq c.name name

unfoldable pub column_exists : Database → String → String → Bool
column_exists db table name = any (is_column table name) db.columns

unfoldable pub rename_table : String → String → Database → Database
unfolding table_exists
rename_table old new db =
    if table_exists db old && not (table_exists db new)
    then record db {
      tables = map (λ t. if str_eq old t then new else t) db.tables;
      columns = map (λ c. if str_eq c.table old then record c { table = new } else c) db.columns;
    }
    else db

unfoldable pub rename_column : String → String → String → Database → Database
unfolding table_exists column_exists
rename_column table old new db =
    if table_exists db table && column_exists db table old && not (column_exists db table new)
    then record db {
      columns = map (λ c. if is_column table old c then record c { name = new } else c) db.columns;
    }
    else db

unfoldable pub drop_column : String → String → Database → Database
unfolding table_exists column_exists
drop_column table name db =
    if table_exists db table && column_exists db table name
    then record db { columns = select (λ c. not (is_column table name c)) db.columns }
    else db

-- The new column is filled with the default.
unfoldable pub add_column : String → String → String → Database → Database
unfolding table_exists column_exists
add_column table name default db =
    if table_exists db table && not (column_exists db table name)
    then record db {
      columns =
          db.columns ++ (record { table = table; name = name; contents = filled default } ∷ []);
    }
    else db

-- `UPDATE ir_model SET model = … WHERE model = …` for each pair.
unfoldable pub update_ir_model : List Rename → Database → Database
update_ir_model [] db = db
update_ir_model (r ∷ rs) db =
    update_ir_model rs
      (record db { models = map (λ m. if str_eq m r.old then r.new else m) db.models })

-- `WHERE model IN …`: the models of this addon, by their old and new names.
abbrev pub is_renamed_model : String → Bool
is_renamed_model m = any (λ r. str_eq m r.new || str_eq m r.old) model_renames

unfoldable pub rename_fields : List ColumnRename → Database → Database
rename_fields [] db = db
rename_fields (r ∷ rs) db = rename_fields rs (record db {
  model_fields =
      map
        (λ f.
          if is_renamed_model f.model && str_eq f.name r.old then record f { name = r.new } else f)
        db.model_fields;
})

unfoldable pub delete_fields : List ColumnName → Database → Database
delete_fields [] db = db
delete_fields (c ∷ cs) db =
    delete_fields cs
      (record db { model_fields = select (λ f. not (str_eq f.name c.name)) db.model_fields })

unfoldable pub update_ir_model_fields : Database → Database
unfolding rename_fields delete_fields
update_ir_model_fields db = delete_fields columns_to_drop (rename_fields field_renames db)

-- The loops of `migrate`.
unfoldable pub rename_tables : List Rename → Database → Database
rename_tables [] db = db
rename_tables (r ∷ rs) db = rename_tables rs (rename_table r.old r.new db)

unfoldable pub rename_columns : List ColumnRename → Database → Database
rename_columns [] db = db
rename_columns (r ∷ rs) db = rename_columns rs (rename_column r.table r.old r.new db)

unfoldable pub drop_columns : List ColumnName → Database → Database
drop_columns [] db = db
drop_columns (c ∷ cs) db = drop_columns cs (drop_column c.table c.name db)

unfoldable pub post_migrate : Database → Database
unfolding rename_tables rename_columns drop_columns update_ir_model update_ir_model_fields
post_migrate db = update_ir_model_fields (
    update_ir_model model_renames (
      drop_columns columns_to_drop (
        add_column "cartona_config" "is_cartona_sync_enabled" "false"
          (rename_columns field_renames (rename_tables table_renames db)))))

-- The same, where the old schema is there.
unfoldable pub pre_migrate : Database → Database
unfolding table_exists
pre_migrate db = if table_exists db "marketplace_config" then post_migrate db else db
