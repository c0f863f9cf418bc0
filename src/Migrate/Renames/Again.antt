-- ===== src/Migrate/Renames/Again.antt =====
-- Both halves of migrations/18.0.2.0.0, one after the other.
use cartona_odoo.Base.{
  and_left, and_right, false_of-not, String, Bool, true, not, ◌&&◌, List, [], ◌∷◌, ◌++◌, ◌≡◌, refl,
  sym, ◌∙◌, ap, ap₂, arith, any, all, all-impl, str_eq,
}
use cartona_odoo.Migrate.Names.{
  Database, Column, ModelField, ColumnRename, table_renames, model_renames, field_renames,
  columns_to_drop,
}
use cartona_odoo.Migrate.Renames.{
  table_exists, is_column, add_column, drop_columns, delete_fields, update_ir_model_fields,
  rename_tables, rename_columns, post_migrate, pre_migrate,
}
use cartona_odoo.Migrate.Renames.Due.{
  table_due-same, drop_due-more, add_due-more, column_due-more, no_old_names,
}
use cartona_odoo.Migrate.Renames.Places.{contents_of, same_place, add_column-elsewhere}
use cartona_odoo.Migrate.Renames.Moves.{drop_columns-elsewhere}
use cartona_odoo.Migrate.Renames.Idle.{
  table_due, rename_tables-done, rename_tables-idle, column_due, column_due-same,
  column_exists-same, table_exists-same, rename_columns-done, rename_columns-idle,
  rename_columns-tables,
}
use cartona_odoo.Migrate.Renames.Fields.{
  renamed_models, update_ir_model-run, rename_fields-run, renamed_fields, delete_fields-remaining,
  fields_after,
}
use cartona_odoo.Migrate.Renames.Dropped.{
  drop_columns-tables, drop_due, drop_columns-done, drop_columns-idle, add_column-idle,
  add_column-done, add_column-tables,
}

-- The two steps behind the renaming of columns.
abbrev shrunk : Database → Database
shrunk db =
    drop_columns columns_to_drop (add_column "cartona_config" "is_cartona_sync_enabled" "false" db)

shrunk-tables : (db : Database) → (shrunk db).tables ≡ db.tables
shrunk-tables db =
    drop_columns-tables columns_to_drop _
    ∙ add_column-tables "cartona_config" "is_cartona_sync_enabled" "false" db

abbrev undropped : String → String → Bool
undropped u m = all (λ c. not (same_place c.table c.name u m)) columns_to_drop

-- A place that is neither new nor dropped.
abbrev aside : String → String → Bool
aside u m = not (same_place "cartona_config" "is_cartona_sync_enabled" u m) && undropped u m

shrunk-aside :
    (u m : String) (db : Database)
    → aside u m ≡ true
    → contents_of u m (shrunk db) ≡ contents_of u m db
shrunk-aside u m db a =
    let added = same_place "cartona_config" "is_cartona_sync_enabled" u m in
    drop_columns-elsewhere columns_to_drop u m
      (add_column "cartona_config" "is_cartona_sync_enabled" "false" db)
      (and_right (not added) (undropped u m) a)
    ∙ add_column-elsewhere "cartona_config" "is_cartona_sync_enabled" "false" u m db
        (false_of-not added (and_left (not added) (undropped u m) a))

abbrev both_aside : ColumnRename → Bool
both_aside r = aside r.table r.old && aside r.table r.new

all-both :
    {A : Type 0} (p q : A → Bool) (xs : List A)
    → all p xs ≡ true
    → all q xs ≡ true
    → all (λ x. p x && q x) xs ≡ true
all-both p q [] h k = refl
all-both p q (x ∷ xs) h k = ground (arith, h, k, all-both p q xs)

column_due-shrunk :
    (r : ColumnRename) (db : Database)
    → both_aside r ≡ true
    → column_due r (shrunk db) ≡ column_due r db
column_due-shrunk r db a =
    column_due-same r (shrunk db) db (shrunk-tables db)
      (shrunk-aside r.table r.old db (and_left (aside r.table r.old) (aside r.table r.new) a))
      (shrunk-aside r.table r.new db (and_right (aside r.table r.old) (aside r.table r.new) a))

-- The steps on tables and columns.
abbrev schema : Database → Database
schema db = shrunk (rename_columns field_renames (rename_tables table_renames db))

module _ (db e : Database) (tables : e.tables ≡ (schema db).tables) (added : List Column)
    (columns : e.columns ≡ (schema db).columns ++ added) (new : no_old_names added ≡ true) where
  schema-tables : (schema db).tables ≡ (rename_tables table_renames db).tables
  schema-tables =
      shrunk-tables (rename_columns field_renames (rename_tables table_renames db))
      ∙ rename_columns-tables field_renames (rename_tables table_renames db)

  tables_named : rename_tables table_renames e ≡ e
  unfolding table_exists
  tables_named =
      let named = rename_tables table_renames db in
      rename_tables-idle table_renames e (
        all-impl (λ q. not (table_due q named)) (λ q. not (table_due q e)) table_renames
          (λ q h.
            ap not (table_due-same (schema db) e tables added columns q)
            ∙ ap not (ap (λ ts. any (str_eq q.old) ts && not (any (str_eq q.new) ts)) schema-tables)
            ∙ h)
          (rename_tables-done table_renames db refl))

  columns_named : rename_columns field_renames e ≡ e
  columns_named =
      let named = rename_columns field_renames (rename_tables table_renames db) in
      rename_columns-idle field_renames e (
        all-impl
          (λ r.
            (not (column_due r named) && both_aside r) && not (any (is_column r.table r.old) added))
          (λ r. not (column_due r e)) field_renames
          (λ r h.
            let due = not (column_due r named) in
            let old = not (any (is_column r.table r.old) added) in
            let both = and_left (due && both_aside r) old h in
            ap not (
              column_due-more (schema db) e tables added columns r
                (column_due-shrunk r named (and_right due (both_aside r) both)
                  ∙ false_of-not (column_due r named) (and_left due (both_aside r) both))
                (false_of-not (any (is_column r.table r.old) added)
                  (and_right (due && both_aside r) old h))))
          (all-both (λ r. not (column_due r named) && both_aside r)
            (λ r. not (any (is_column r.table r.old) added)) field_renames
            (all-both (λ r. not (column_due r named)) both_aside field_renames
              (rename_columns-done field_renames (rename_tables table_renames db) refl) refl)
            (and_left (all (λ r. not (any (is_column r.table r.old) added)) field_renames) _ new)))

  column_added : add_column "cartona_config" "is_cartona_sync_enabled" "false" e ≡ e
  column_added =
      let full =
        add_column "cartona_config" "is_cartona_sync_enabled" "false"
          (rename_columns field_renames (rename_tables table_renames db)) in
      add_column-idle "cartona_config" "is_cartona_sync_enabled" "false" e (
        add_due-more (schema db) e tables added columns "cartona_config" "is_cartona_sync_enabled" (
          ap₂ (λ a b. a && not b)
            (table_exists-same (schema db) full "cartona_config"
              (drop_columns-tables columns_to_drop full))
            (column_exists-same (schema db) full "cartona_config" "is_cartona_sync_enabled" (
              drop_columns-elsewhere columns_to_drop "cartona_config" "is_cartona_sync_enabled" full
                refl))
          ∙ add_column-done "cartona_config" "is_cartona_sync_enabled" "false" _))

  columns_dropped : drop_columns columns_to_drop e ≡ e
  columns_dropped =
      let full =
        add_column "cartona_config" "is_cartona_sync_enabled" "false"
          (rename_columns field_renames (rename_tables table_renames db)) in
      drop_columns-idle columns_to_drop e (
        all-impl (λ c. not (drop_due c (schema db)) && not (any (is_column c.table c.name) added))
          (λ c. not (drop_due c e)) columns_to_drop
          (λ c h.
            let due = not (drop_due c (schema db)) in
            let old = not (any (is_column c.table c.name) added) in
            ap not (
              drop_due-more (schema db) e tables added columns c
                (false_of-not (drop_due c (schema db)) (and_left due old h))
                (false_of-not (any (is_column c.table c.name) added) (and_right due old h))))
          (all-both (λ c. not (drop_due c (schema db)))
            (λ c. not (any (is_column c.table c.name) added)) columns_to_drop
            (drop_columns-done columns_to_drop full)
            (and_right (all (λ r. not (any (is_column r.table r.old) added)) field_renames) _ new)))

  schema-idle : schema e ≡ e
  schema-idle =
      ap (λ d. shrunk (rename_columns field_renames d)) tables_named
      ∙ ap shrunk columns_named
      ∙ ap (drop_columns columns_to_drop) column_added
      ∙ columns_dropped

-- The steps on models and fields.
abbrev registered : Database → Database
registered db = record db {
  models = renamed_models model_renames db.models;
  model_fields = fields_after db.model_fields;
}

post_migrate-steps : (db : Database) → post_migrate db ≡ registered (schema db)
unfolding post_migrate update_ir_model_fields
post_migrate-steps db =
    let d = schema db in
    let modelled = record d { models = renamed_models model_renames d.models } in
    let named = record modelled { model_fields = renamed_fields field_renames d.model_fields } in
    ap update_ir_model_fields (update_ir_model-run model_renames d)
    ∙ ap (delete_fields columns_to_drop) (rename_fields-run field_renames modelled)
    ∙ delete_fields-remaining columns_to_drop named

-- The database of the new version: Odoo adds columns, and writes models and fields anew.
abbrev pub updated : List Column → List String → List ModelField → Database → Database
updated added models fields db = record db {
  columns = db.columns ++ added;
  models = models;
  model_fields = fields;
}

-- Where the old schema is there, and Odoo in between adds columns, none of them with an old name or
-- that of a dropped one, and writes models and fields as it likes: the second half of the renaming
-- finds tables and columns as the new version wants them, and changes none of them.
pub post_migrate-idle :
    (db : Database) (added : List Column) (models : List String) (fields : List ModelField)
    → table_exists db "marketplace_config" ≡ true
    → no_old_names added ≡ true
    → ((post_migrate (updated added models fields (pre_migrate db))).tables
        ≡ (pre_migrate db).tables)
      × ((post_migrate (updated added models fields (pre_migrate db))).columns
          ≡ (pre_migrate db).columns ++ added)
unfolding pre_migrate
post_migrate-idle db added models fields here new =
    let d = schema db in
    let e = updated added models fields d in
    let before : pre_migrate db ≡ registered d = rw here (post_migrate-steps db) in
    let idle : post_migrate e ≡ registered e =
      post_migrate-steps e ∙ ap registered (schema-idle db e refl added refl new) in
    (
      ap (λ x. (post_migrate (updated added models fields x)).tables) before
          ∙ ap (λ x. x.tables) idle
          ∙ sym (ap (λ x. x.tables) before),
      ap (λ x. (post_migrate (updated added models fields x)).columns) before
          ∙ ap (λ x. x.columns) idle
          ∙ sym (ap (λ x. x.columns ++ added) before),
    )
