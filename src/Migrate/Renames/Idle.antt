-- ===== src/Migrate/Renames/Idle.antt =====
-- Tables and columns in a second run of migrations/18.0.2.0.0.
use cartona_odoo.Base.{
  and_left, and_right, false_of-not, both, String, Bool, true, false, not, ◌&&◌, Option, none, some,
  is_some, List, [], ◌∷◌, ◌≡◌, refl, sym, ◌∙◌, ap, ap₂, arith, map, any, all, all-impl, str_eq,
  eq_refl, Bool-cases, inl, inr, if◌then◌else◌,
}
use cartona_odoo.Migrate.Names.{Contents, Database, Rename, ColumnRename}
use cartona_odoo.Migrate.Renames.{
  table_exists, column_exists, rename_table, rename_column, rename_tables, rename_columns,
}
use cartona_odoo.Migrate.Renames.Places.{
  contents_of, exists-contents, rename_column-moves, rename_column-tables,
}
use cartona_odoo.Migrate.Renames.Moves.{
  apart, unrelated, independent, rename_columns-elsewhere, stays, rename_tables-exists,
  unrelated-apart,
}

-- Whether the renaming of a table is due.
abbrev pub table_due : Rename → Database → Bool
table_due q db = table_exists db q.old && not (table_exists db q.new)

rename_table-idle :
    (q : Rename) (db : Database) → table_due q db ≡ false → rename_table q.old q.new db ≡ db
unfolding rename_table
rename_table-idle q db h = rw h refl

rename_table-done : (q : Rename) (db : Database) → table_due q (rename_table q.old q.new db) ≡ false
unfolding rename_table table_exists
rename_table-done q db = elim (Bool-cases (table_due q db)) [
  | inl y ↦ rw y (ground (arith, go db.tables (and_left (any (str_eq q.old) db.tables) _ y)))
  | inr n ↦ rw n n
]
  where
    go :
        (ts : List String)
        → any (str_eq q.old) ts ≡ true
        → any (str_eq q.new) (map (λ t. if str_eq q.old t then q.new else t) ts) ≡ true
    go [] h = cc
    go (t ∷ ts) h = ground (arith, h, go ts, eq_refl q.new)

-- Whether no renaming of a list has to do with the names of another.
abbrev pub tables_independent : List Rename → Bool
tables_independent [] = true
tables_independent (q ∷ qs) = stays q.old qs && stays q.new qs && tables_independent qs

pub rename_tables-done :
    (qs : List Rename) (db : Database)
    → tables_independent qs ≡ true
    → all (λ q. not (table_due q (rename_tables qs db))) qs ≡ true
unfolding rename_tables
rename_tables-done [] db i = refl
rename_tables-done (q ∷ qs) db i = ground (
  arith,
  rename_tables-done qs (rename_table q.old q.new db),
  rename_tables-exists qs q.old (rename_table q.old q.new db),
  rename_tables-exists qs q.new (rename_table q.old q.new db),
  rename_table-done q db,
  i,
)

pub rename_tables-idle :
    (qs : List Rename) (db : Database)
    → all (λ q. not (table_due q db)) qs ≡ true
    → rename_tables qs db ≡ db
unfolding rename_tables
rename_tables-idle [] db h = refl
rename_tables-idle (q ∷ qs) db h =
    ap (rename_tables qs)
      (rename_table-idle q db (false_of-not (table_due q db) (and_left (not (table_due q db)) _ h)))
    ∙ rename_tables-idle qs db (and_right (not (table_due q db)) _ h)

-- Whether the renaming of a column is due.
abbrev pub column_due : ColumnRename → Database → Bool
column_due r db =
    table_exists db r.table
    && column_exists db r.table r.old
    && not (column_exists db r.table r.new)

rename_column-idle :
    (r : ColumnRename) (db : Database)
    → column_due r db ≡ false
    → rename_column r.table r.old r.new db ≡ db
unfolding rename_column
rename_column-idle r db h = rw h refl

-- Renaming, adding and dropping a column leave the tables.
pub table_exists-same :
    (d e : Database) (t : String) → d.tables ≡ e.tables → table_exists d t ≡ table_exists e t
unfolding table_exists
table_exists-same d e t h = ap (any (str_eq t)) h

-- A column is there as long as what its place holds is the same.
pub column_exists-same :
    (d e : Database) (t n : String)
    → contents_of t n d ≡ contents_of t n e
    → column_exists d t n ≡ column_exists e t n
column_exists-same d e t n h = exists-contents t n d ∙ ap is_some h ∙ sym (exists-contents t n e)

pub column_due-same :
    (r : ColumnRename) (d e : Database)
    → d.tables ≡ e.tables
    → contents_of r.table r.old d ≡ contents_of r.table r.old e
    → contents_of r.table r.new d ≡ contents_of r.table r.new e
    → column_due r d ≡ column_due r e
column_due-same r d e h old new =
    ap₂ (λ a b. a && b)
      (ap₂ (λ a b. a && b) (table_exists-same d e r.table h)
        (column_exists-same d e r.table r.old old))
      (ap not (column_exists-same d e r.table r.new new))

not_due : (a b c : Bool) → (a && b && not c) ≡ true → (a ≡ true) × (b ≡ true) × (c ≡ false)
not_due a b c h = ground (arith, h)

due-new : (a b c : Bool) → c ≡ true → (a && b && not c) ≡ false
due-new a b c h = ground (arith, h)

none-missing : (o : Option Contents) → is_some o ≡ false → o ≡ none
none-missing none h = refl
none-missing (some x) h = cc

is_some-cases : (o : Option Contents) → is_some o ≡ true → (x : Contents) × (o ≡ some x)
is_some-cases none h = cc
is_some-cases (some x) h = (x, refl)

rename_column-done :
    (r : ColumnRename) (db : Database) → column_due r (rename_column r.table r.old r.new db) ≡ false
rename_column-done r db = elim (Bool-cases (column_due r db)) [
  | inl y ↦
      let (there, old, new) =
        not_due (table_exists db r.table) (column_exists db r.table r.old)
          (column_exists db r.table r.new) y in
      let (x, held) =
        is_some-cases (contents_of r.table r.old db)
          (sym (exists-contents r.table r.old db) ∙ old) in
      let after = rename_column r.table r.old r.new db in
      due-new (table_exists after r.table) (column_exists after r.table r.old)
        (column_exists after r.table r.new)
        (exists-contents r.table r.new after
          ∙ ap is_some (
              rename_column-moves r.table r.old r.new db x there held (
                none-missing (contents_of r.table r.new db)
                  (sym (exists-contents r.table r.new db) ∙ new))))
  | inr n ↦ ap (column_due r) (rename_column-idle r db n) ∙ n
]

pub rename_columns-tables :
    (rs : List ColumnRename) (db : Database) → (rename_columns rs db).tables ≡ db.tables
unfolding rename_columns
rename_columns-tables [] db = refl
rename_columns-tables (r ∷ rs) db =
    rename_columns-tables rs _ ∙ rename_column-tables r.table r.old r.new db

pub rename_columns-done :
    (rs : List ColumnRename) (db : Database)
    → independent rs ≡ true
    → all (λ r. not (column_due r (rename_columns rs db))) rs ≡ true
unfolding rename_columns
rename_columns-done [] db i = refl
rename_columns-done (r ∷ rs) db i =
    let after = rename_column r.table r.old r.new db in
    let related = and_left (all (unrelated r) rs) _ i in
    both (column_due r (rename_columns rs after))
      (all (λ s. not (column_due s (rename_columns rs after))) rs)
      (column_due-same r (rename_columns rs after) after (rename_columns-tables rs after)
          (rename_columns-elsewhere rs r.table r.old after (
            all-impl (unrelated r) (λ s. apart s r.table r.old) rs
              (λ s h. (unrelated-apart r s h).2) related))
          (rename_columns-elsewhere rs r.table r.new after (
            all-impl (unrelated r) (λ s. apart s r.table r.new) rs
              (λ s h. (unrelated-apart r s h).3) related))
        ∙ rename_column-done r db)
      (rename_columns-done rs after (and_right (all (unrelated r) rs) _ i))

pub rename_columns-idle :
    (rs : List ColumnRename) (db : Database)
    → all (λ r. not (column_due r db)) rs ≡ true
    → rename_columns rs db ≡ db
unfolding rename_columns
rename_columns-idle [] db h = refl
rename_columns-idle (r ∷ rs) db h =
    ap (rename_columns rs) (
      rename_column-idle r db
        (false_of-not (column_due r db) (and_left (not (column_due r db)) _ h)))
    ∙ rename_columns-idle rs db (and_right (not (column_due r db)) _ h)
