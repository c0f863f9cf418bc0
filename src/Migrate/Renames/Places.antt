-- ===== src/Migrate/Renames/Places.antt =====
-- The steps of migrations/18.0.2.0.0, and a column of another place.
use cartona_odoo.Base.{
  String, Bool, true, false, not, ◌&&◌, Option, none, some, is_some, List, [], ◌∷◌, ◌++◌, ◌≡◌, refl,
  ◌∙◌, arith, map, any, select, str_eq, eq_iff, eq_refl, Bool-cases, inl, inr, if◌then◌else◌,
}
use cartona_odoo.Migrate.Names.{Contents, filled, Column, Database}
use cartona_odoo.Migrate.Renames.{
  table_exists, is_column, column_exists, rename_table, rename_column, drop_column, add_column,
}

-- What the first column of a table and a name holds.
abbrev pub contents_in : String → String → List Column → Option Contents
contents_in table name [] = none
contents_in table name (c ∷ cs) =
    let rest = contents_in table name cs in if is_column table name c then some c.contents else rest

abbrev pub contents_of : String → String → Database → Option Contents
contents_of table name db = contents_in table name db.columns

abbrev pub same_place : String → String → String → String → Bool
same_place t n u m = str_eq t u && str_eq n m

is_column-elsewhere :
    (t n u m : String) (c : Column)
    → is_column t n c ≡ true
    → same_place t n u m ≡ false
    → is_column u m c ≡ false
is_column-elsewhere t n u m c h k = ground (
  arith,
  h,
  k,
  eq_iff c.table t,
  eq_iff c.name n,
  eq_iff c.table u,
  eq_iff c.name m,
  eq_iff t u,
  eq_iff n m,
)

pub exists-contents :
    (t n : String) (db : Database) → column_exists db t n ≡ is_some (contents_of t n db)
unfolding column_exists
exists-contents t n db = go db.columns
  where
    go : (cs : List Column) → any (is_column t n) cs ≡ is_some (contents_in t n cs)
    go [] = refl
    go (c ∷ cs) = ground (arith, go cs)

pub rename_column-elsewhere :
    (t o n u m : String) (db : Database)
    → same_place t o u m ≡ false
    → same_place t n u m ≡ false
    → contents_of u m (rename_column t o n db) ≡ contents_of u m db
unfolding rename_column
rename_column-elsewhere t o n u m db away away' =
    elim (Bool-cases (table_exists db t && column_exists db t o && not (column_exists db t n))) [
      | inl y ↦ rw y (go db.columns)
      | inr k ↦ rw k refl
    ]
  where
    go :
        (cs : List Column)
        → contents_in u m (map (λ c. if is_column t o c then record c { name = n } else c) cs)
          ≡ contents_in u m cs
    go [] = refl
    go (c ∷ cs) = elim (Bool-cases (is_column t o c)) [
      | inl y ↦ rw y (
          ground (
            arith,
            go cs,
            is_column-elsewhere t o u m c y away,
            is_column-elsewhere t n u m (record c { name = n }),
            y,
            away',
            eq_refl n,
          ))
      | inr k ↦ rw k (ground (arith, go cs))
    ]

-- A column that is renamed, to a name that is free, holds under the new name what it held.
pub rename_column-moves :
    (t o n : String) (db : Database) (x : Contents)
    → table_exists db t ≡ true
    → contents_of t o db ≡ some x
    → contents_of t n db ≡ none
    → contents_of t n (rename_column t o n db) ≡ some x
unfolding rename_column
rename_column-moves t o n db x there old free = rw there (
    rw (exists-contents t o db)
      (rw (exists-contents t n db) (rw old (rw free (go db.columns free ∙ old)))))
  where
    go :
        (cs : List Column)
        → contents_in t n cs ≡ none
        → contents_in t n (map (λ c. if is_column t o c then record c { name = n } else c) cs)
          ≡ contents_in t o cs
    go [] h = refl
    go (c ∷ cs) h = elim (Bool-cases (is_column t o c)) [
      | inl y ↦ rw y (ground (arith, y, eq_refl n))
      | inr k ↦ rw k (ground (arith, go cs, h, k))
    ]

pub drop_column-elsewhere :
    (t n u m : String) (db : Database)
    → same_place t n u m ≡ false
    → contents_of u m (drop_column t n db) ≡ contents_of u m db
unfolding drop_column
drop_column-elsewhere t n u m db away =
    elim (Bool-cases (table_exists db t && column_exists db t n)) [
      | inl y ↦ rw y (go db.columns)
      | inr k ↦ rw k refl
    ]
  where
    go :
        (cs : List Column)
        → contents_in u m (select (λ c. not (is_column t n c)) cs) ≡ contents_in u m cs
    go [] = refl
    go (c ∷ cs) = elim (Bool-cases (is_column t n c)) [
      | inl y ↦ rw y (ground (arith, go cs, is_column-elsewhere t n u m c y away))
      | inr k ↦ rw k (ground (arith, go cs))
    ]

pub add_column-elsewhere :
    (t n default u m : String) (db : Database)
    → same_place t n u m ≡ false
    → contents_of u m (add_column t n default db) ≡ contents_of u m db
unfolding add_column
add_column-elsewhere t n default u m db away =
    elim (Bool-cases (table_exists db t && not (column_exists db t n))) [
      | inl y ↦ rw y (go db.columns)
      | inr k ↦ rw k refl
    ]
  where
    go :
        (cs : List Column)
        → contents_in u m (cs ++ (record { table = t; name = n; contents = filled default } ∷ []))
          ≡ contents_in u m cs
    go [] = ground (arith, away)
    go (c ∷ cs) = ground (arith, go cs)

pub rename_table-elsewhere :
    (old new u m : String) (db : Database)
    → str_eq old u ≡ false
    → str_eq new u ≡ false
    → contents_of u m (rename_table old new db) ≡ contents_of u m db
unfolding rename_table
rename_table-elsewhere old new u m db away away' =
    elim (Bool-cases (table_exists db old && not (table_exists db new))) [
      | inl y ↦ rw y (go db.columns)
      | inr k ↦ rw k refl
    ]
  where
    go :
        (cs : List Column)
        → contents_in u m (map (λ c. if str_eq c.table old then record c { table = new } else c) cs)
          ≡ contents_in u m cs
    go [] = refl
    go (c ∷ cs) = elim (Bool-cases (str_eq c.table old)) [
      | inl y ↦ rw y (
          ground (arith, go cs, y, away, away', eq_iff c.table old, eq_iff c.table u, eq_iff old u))
      | inr k ↦ rw k (ground (arith, go cs))
    ]

pub rename_table-exists :
    (old new u : String) (db : Database)
    → str_eq old u ≡ false
    → str_eq new u ≡ false
    → table_exists (rename_table old new db) u ≡ table_exists db u
unfolding rename_table table_exists
rename_table-exists old new u db away away' =
    elim (Bool-cases (any (str_eq old) db.tables && not (any (str_eq new) db.tables))) [
      | inl y ↦ rw y (go db.tables)
      | inr k ↦ rw k refl
    ]
  where
    go :
        (ts : List String)
        → any (str_eq u) (map (λ t. if str_eq old t then new else t) ts) ≡ any (str_eq u) ts
    go [] = refl
    go (t ∷ ts) = elim (Bool-cases (str_eq old t)) [
      | inl y ↦ rw y (
          ground (
            arith,
            go ts,
            y,
            away,
            away',
            eq_iff old t,
            eq_iff u t,
            eq_iff u new,
            eq_iff new u,
            eq_iff old u,
          ))
      | inr k ↦ rw k (ground (arith, go ts))
    ]

pub rename_column-tables :
    (t o n : String) (db : Database) → (rename_column t o n db).tables ≡ db.tables
unfolding rename_column
rename_column-tables t o n db =
    elim (Bool-cases (table_exists db t && column_exists db t o && not (column_exists db t n))) [
      | inl y ↦ rw y refl
      | inr k ↦ rw k refl
    ]
