-- ===== src/Migrate/Renames/Dropped.antt =====
-- The columns that migrations/18.0.2.0.0 drops and the one that it adds, in a second run.
use cartona_odoo.Base.{
  and_left, and_right, both, false_of-not, String, Bool, true, false, not, ◌&&◌, List, [], ◌∷◌, ◌≡◌,
  refl, ◌∙◌, ap, arith, all, any-append, eq_refl, Bool-cases, inl, inr,
}
use cartona_odoo.Migrate.Names.{filled, Database, ColumnName}
use cartona_odoo.Migrate.Renames.{
  table_exists, is_column, column_exists, drop_column, add_column, drop_columns,
}
use cartona_odoo.Migrate.Renames.Fields.{any-select, any-select-not}

-- The columns that go.
drop_column-tables : (t n : String) (db : Database) → (drop_column t n db).tables ≡ db.tables
unfolding drop_column
drop_column-tables t n db = elim (Bool-cases (table_exists db t && column_exists db t n)) [
  | inl y ↦ rw y refl
  | inr k ↦ rw k refl
]

pub drop_columns-tables :
    (cs : List ColumnName) (db : Database) → (drop_columns cs db).tables ≡ db.tables
unfolding drop_columns
drop_columns-tables [] db = refl
drop_columns-tables (c ∷ cs) db = drop_columns-tables cs _ ∙ drop_column-tables c.table c.name db

abbrev pub drop_due : ColumnName → Database → Bool
drop_due c db = table_exists db c.table && column_exists db c.table c.name

drop_column-idle :
    (c : ColumnName) (db : Database) → drop_due c db ≡ false → drop_column c.table c.name db ≡ db
unfolding drop_column
drop_column-idle c db h = rw h refl

drop_column-done :
    (c : ColumnName) (db : Database) → drop_due c (drop_column c.table c.name db) ≡ false
unfolding drop_column column_exists table_exists
drop_column-done c db = elim (Bool-cases (drop_due c db)) [
  | inl y ↦ rw y (ground (arith, any-select-not (is_column c.table c.name) db.columns))
  | inr n ↦ rw n n
]

drop_column-keeps :
    (c d : ColumnName) (db : Database)
    → drop_due c db ≡ false
    → drop_due c (drop_column d.table d.name db) ≡ false
unfolding drop_column column_exists table_exists
drop_column-keeps c d db h = elim (Bool-cases (drop_due d db)) [
  | inl y ↦ rw y (
      ground (
        arith,
        h,
        any-select (is_column c.table c.name) (λ x. not (is_column d.table d.name x)) db.columns,
      ))
  | inr n ↦ rw n h
]

drop_columns-keeps :
    (c : ColumnName) (cs : List ColumnName) (db : Database)
    → drop_due c db ≡ false
    → drop_due c (drop_columns cs db) ≡ false
unfolding drop_columns
drop_columns-keeps c [] db h = h
drop_columns-keeps c (d ∷ cs) db h = drop_columns-keeps c cs _ (drop_column-keeps c d db h)

pub drop_columns-done :
    (cs : List ColumnName) (db : Database)
    → all (λ c. not (drop_due c (drop_columns cs db))) cs ≡ true
unfolding drop_columns
drop_columns-done [] db = refl
drop_columns-done (c ∷ cs) db =
    let next = drop_column c.table c.name db in
    both (drop_due c (drop_columns cs next)) _
      (drop_columns-keeps c cs next (drop_column-done c db)) (drop_columns-done cs next)

pub drop_columns-idle :
    (cs : List ColumnName) (db : Database)
    → all (λ c. not (drop_due c db)) cs ≡ true
    → drop_columns cs db ≡ db
unfolding drop_columns
drop_columns-idle [] db h = refl
drop_columns-idle (c ∷ cs) db h =
    ap (drop_columns cs)
      (drop_column-idle c db (false_of-not (drop_due c db) (and_left (not (drop_due c db)) _ h)))
    ∙ drop_columns-idle cs db (and_right (not (drop_due c db)) _ h)

-- The new column.
abbrev pub add_due : String → String → Database → Bool
add_due t n db = table_exists db t && not (column_exists db t n)

pub add_column-idle :
    (t n default : String) (db : Database) → add_due t n db ≡ false → add_column t n default db ≡ db
unfolding add_column
add_column-idle t n default db h = rw h refl

pub add_column-done :
    (t n default : String) (db : Database) → add_due t n (add_column t n default db) ≡ false
unfolding add_column column_exists table_exists
add_column-done t n default db = elim (Bool-cases (add_due t n db)) [
  | inl y ↦ rw y (
      ground (
        arith,
        any-append (is_column t n) db.columns
            (record { table = t; name = n; contents = filled default } ∷ []),
        eq_refl t,
        eq_refl n,
      ))
  | inr k ↦ rw k k
]

pub add_column-tables :
    (t n default : String) (db : Database) → (add_column t n default db).tables ≡ db.tables
unfolding add_column
add_column-tables t n default db = elim (Bool-cases (add_due t n db)) [
  | inl y ↦ rw y refl
  | inr k ↦ rw k refl
]
