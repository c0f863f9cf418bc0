-- ===== src/Migrate/Renames/Due.antt =====
-- What the steps of migrations/18.0.2.0.0 find to do in a database to which Odoo has added columns.
use cartona_odoo.Base.{
  String, Bool, false, not, ◌&&◌, List, ◌++◌, ◌≡◌, ◌∙◌, ap, ap₂, arith, any, all, any-append,
  str_eq,
}
use cartona_odoo.Migrate.Names.{
  Database, Column, Rename, ColumnRename, ColumnName, field_renames, columns_to_drop,
}
use cartona_odoo.Migrate.Renames.{table_exists, is_column, column_exists}
use cartona_odoo.Migrate.Renames.Idle.{table_due, column_due}
use cartona_odoo.Migrate.Renames.Dropped.{drop_due, add_due}

-- A database with the tables of another and some more columns: what is due of them there.
module _ (d e : Database) (tables : e.tables ≡ d.tables) (added : List Column)
    (columns : e.columns ≡ d.columns ++ added) where
  pub table_due-same : (q : Rename) → table_due q e ≡ table_due q d
  unfolding table_exists
  table_due-same q = ap (λ ts. any (str_eq q.old) ts && not (any (str_eq q.new) ts)) tables

  pub drop_due-more :
      (c : ColumnName)
      → drop_due c d ≡ false
      → any (is_column c.table c.name) added ≡ false
      → drop_due c e ≡ false
  unfolding table_exists column_exists
  drop_due-more c h k =
      ap₂ (λ ts cs. any (str_eq c.table) ts && any (is_column c.table c.name) cs) tables columns
      ∙ ground (arith, any-append (is_column c.table c.name) d.columns added)

  pub add_due-more : (t n : String) → add_due t n d ≡ false → add_due t n e ≡ false
  unfolding table_exists column_exists
  add_due-more t n h =
      ap₂ (λ ts cs. any (str_eq t) ts && not (any (is_column t n) cs)) tables columns
      ∙ ground (arith, any-append (is_column t n) d.columns added)

  pub column_due-more :
      (r : ColumnRename)
      → column_due r d ≡ false
      → any (is_column r.table r.old) added ≡ false
      → column_due r e ≡ false
  unfolding table_exists column_exists
  column_due-more r h k =
      ap₂
        (λ ts cs.
          any (str_eq r.table) ts
          && any (is_column r.table r.old) cs
          && not (any (is_column r.table r.new) cs))
        tables columns
      ∙ ground (
        arith,
        any-append (is_column r.table r.old) d.columns added,
        any-append (is_column r.table r.new) d.columns added,
      )

-- Columns none of which has an old name or that of a dropped one.
abbrev pub no_old_names : List Column → Bool
no_old_names added =
    all (λ r. not (any (is_column r.table r.old) added)) field_renames
    && all (λ c. not (any (is_column c.table c.name) added)) columns_to_drop
