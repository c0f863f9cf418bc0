-- ===== src/Migrate/Indexes/Laws.antt =====
-- migrations/18.0.2.0.50/post-migrate.py, run once and again.
use cartona_odoo.Base.{
  Bool, false, not, ◌&&◌, [], ◌∷◌, ◌≡◌, ap, ◌∙◌, arith, any-append, str_eq, eq_refl,
}
use cartona_odoo.Migrate.Indexes.{
  Index, Schema, has_table, has_index, add_index, add_index_of, line_index, log_index, add_indexes,
}

-- Whether an index is missing from a table that is there.
abbrev pub wants : Index → Schema → Bool
wants i db = has_table db i.table && not (has_index db i.name)

add_index_of-adds : (i : Index) (db : Schema) → wants i (add_index_of i db) ≡ false
unfolding add_index_of add_index has_table has_index
add_index_of-adds i db =
    ground
      (arith, any-append (λ (j : Index). str_eq j.name i.name) db.indexes (i ∷ []), eq_refl i.name)

add_index_of-keeps :
    (i j : Index) (db : Schema) → wants j db ≡ false → wants j (add_index_of i db) ≡ false
unfolding add_index_of add_index has_table has_index
add_index_of-keeps i j db h =
    ground (arith, h, any-append (λ (k : Index). str_eq k.name j.name) db.indexes (i ∷ []))

add_index_of-idle : (i : Index) (db : Schema) → wants i db ≡ false → add_index_of i db ≡ db
unfolding add_index_of add_index has_table has_index
add_index_of-idle i db h = ground (arith, h)

-- A second run of the migration changes nothing.
pub add_indexes-again : (db : Schema) → add_indexes (add_indexes db) ≡ add_indexes db
unfolding add_indexes
add_indexes-again db =
    let once = add_index_of line_index db in
    let both = add_index_of log_index once in
    ap (add_index_of log_index) (
      add_index_of-idle line_index both
        (add_index_of-keeps log_index line_index once (add_index_of-adds line_index db)))
    ∙ add_index_of-idle log_index both (add_index_of-adds log_index once)
