-- ===== src/Migrate/Indexes.antt =====
-- migrations/18.0.2.0.50/post-migrate.py: two indexes for the dashboard's queries, and
-- migrations/18.0.2.0.31/post-migrate.py: the company of old configurations.
pub mod Laws
use cartona_odoo.Base.{
  ℕ, String, Bool, Option, none, some, List, [], ◌∷◌, ◌++◌, map, any, str_eq, ltb, if◌then◌else◌,
}

-- A row of `pg_indexes`.
pub record Index : Type 0 where
  pub name : String
  pub table : String
  pub columns : String

-- The names of the tables, and the indexes.
pub record Schema : Type 0 where
  pub tables : List String
  pub indexes : List Index

unfoldable pub has_table : Schema → String → Bool
has_table db table = any (str_eq table) db.tables

unfoldable pub has_index : Schema → String → Bool
has_index db name = any (λ i. str_eq i.name name) db.indexes

unfoldable pub add_index : Index → Schema → Schema
unfolding has_index
add_index i db = if has_index db i.name then db else record db { indexes = db.indexes ++ (i ∷ []) }

-- Where the table is missing the index is skipped.
unfoldable pub add_index_of : Index → Schema → Schema
unfolding has_table add_index
add_index_of i db = if has_table db i.table then add_index i db else db

abbrev pub line_index : Index
line_index = record {
  name = "cartona_sync_log_line_issue_idx";
  table = "cartona_sync_log_line";
  columns = "sync_log_id, entry_type, status, error_code";
}

abbrev pub log_index : Index
log_index = record {
  name = "cartona_sync_log_config_date_status_idx";
  table = "cartona_sync_log";
  columns = "cartona_config_id, create_date, status";
}

unfoldable pub add_indexes : Schema → Schema
unfolding add_index_of
add_indexes db = add_index_of log_index (add_index_of line_index db)

-- A row of `cartona_config`, before the company was required.
pub record OldConfig : Type 0 where
  pub id : ℕ
  pub company_id : Option ℕ

-- `SELECT id FROM res_company ORDER BY id LIMIT 1`
unfoldable pub first_company : List ℕ → Option ℕ
first_company [] = none
first_company (c ∷ cs) = elim (first_company cs) [
  | none ↦ some c
  | some d ↦ some (if ltb d c then d else c)
]

backfilled : Option ℕ → OldConfig → OldConfig
backfilled company c = elim c.company_id [ none ↦ record c { company_id = company } | some _ ↦ c ]

unfoldable pub backfill_company : List ℕ → List OldConfig → List OldConfig
unfolding first_company backfilled
backfill_company companies = map (backfilled (first_company companies))
