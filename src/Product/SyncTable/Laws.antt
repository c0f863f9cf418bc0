-- ===== src/Product/SyncTable/Laws.antt =====
-- The unique constraint of models/cartona_product_sync.py, and the get-or-create.
use cartona_odoo.Base.{
  ℕ, ◌≡◌, refl, Bool, true, false, Option, none, some, List, [], ◌∷◌, ◌++◌, any, find, arith,
  find-passes, any-append, Bool-cases, inl, inr,
}
use cartona_odoo.Config.Data.{Config}
use cartona_odoo.Product.SyncTable.{
  SyncRow, has_key, same_key, search_row, new_row, insert_or_nothing, inserted_or_found,
  found_or_inserted, get_for_product_config,
}

-- The SQL constraint `unique(product_id, cartona_config_id)`.
abbrev pub Unique : List SyncRow → Type 0
Unique [] = Unit
Unique (r ∷ rows) = (any (same_key r) rows ≡ false) × Unique rows

any-same_key-snoc :
    (r x : SyncRow) (rows : List SyncRow)
    → any (same_key x) (r ∷ rows) ≡ false
    → any (same_key r) rows ≡ false
    → any (same_key r) (rows ++ (x ∷ [])) ≡ false
unfolding has_key
any-same_key-snoc r x rows h k = ground (arith, any-append (same_key r) rows (x ∷ []))

Unique-snoc :
    (x : SyncRow) (rows : List SyncRow)
    → any (same_key x) rows ≡ false
    → Unique rows
    → Unique (rows ++ (x ∷ []))
unfolding has_key
Unique-snoc x [] h u = (refl, tt)
Unique-snoc x (r ∷ rows) h (k, u) =
    (any-same_key-snoc r x rows h k, Unique-snoc x rows (ground arith) u)

pub insert_or_nothing-Unique :
    (x : SyncRow) (rows : List SyncRow) → Unique rows → Unique (insert_or_nothing x rows).1
unfolding insert_or_nothing
insert_or_nothing-Unique x rows u = elim (Bool-cases (any (same_key x) rows)) [
  | inl there ↦ rw there u
  | inr new ↦ rw new (Unique-snoc x rows new u)
]

find-of-any :
    (p : SyncRow → Bool) (rows : List SyncRow)
    → any p rows ≡ true
    → (r : SyncRow) × (find p rows ≡ some r) × (p r ≡ true)
find-of-any p [] h = cc
find-of-any p (x ∷ rows) h = elim (Bool-cases (p x)) [
  | inl hit ↦ (x, rw hit refl, hit)
  | inr miss ↦ let (r, f, q) = find-of-any p rows (ground arith) in (r, rw miss f, q)
]

-- What the get-or-create may return.
abbrev Gets : ℕ → ℕ → Option SyncRow × List SyncRow → Type 0
Gets product config (row, rows) =
    (r : SyncRow) × (row ≡ some r) × (has_key product config r ≡ true) × Unique rows

insert-Gets :
    (product : ℕ) (config : Config) (rows : List SyncRow)
    → Unique rows
    → Gets product config.id
        (inserted_or_found product config.id (insert_or_nothing (new_row product config) rows))
unfolding insert_or_nothing inserted_or_found new_row search_row
insert-Gets product config rows u =
    elim (Bool-cases (any (same_key (new_row product config)) rows)) [
      | inl there ↦
          let (r, f, q) = find-of-any (has_key product config.id) rows there in
          rw there (r, f, q, u)
      | inr new ↦ rw new (
        new_row product config,
        refl,
        unfold has_key in ground arith,
        Unique-snoc (new_row product config) rows new u,
      )
    ]

-- However other jobs change the table between the search and the insert, as long as they keep the
-- constraint, the call returns a row of the variant and the configuration and keeps the constraint.
pub get_for_product_config-Gets :
    (between : List SyncRow → List SyncRow) (product : ℕ) (config : Config) (rows : List SyncRow)
    → (Unique rows → Unique (between rows))
    → Unique rows
    → (r : SyncRow) × ((get_for_product_config between (some product) (some config) true rows).0
        ≡ some r)
      × (has_key product config.id r ≡ true)
      × Unique (get_for_product_config between (some product) (some config) true rows).1
unfolding get_for_product_config
get_for_product_config-Gets between product config rows keep u =
    by_search (search_row product config.id rows) refl
  where
    by_search :
        (s : Option SyncRow)
        → search_row product config.id rows ≡ s
        → Gets product config.id (found_or_inserted between product config true s rows)
    by_search none e =
        unfold found_or_inserted in insert-Gets product config (between rows) (keep u)
    by_search (some r) e =
        unfold found_or_inserted search_row in
        (r, refl, find-passes (has_key product config.id) rows r e, u)
