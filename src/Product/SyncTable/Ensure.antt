-- ===== src/Product/SyncTable/Ensure.antt =====
-- The bulk get-or-create of models/cartona_product_sync.py.
use cartona_odoo.Base.{
  ℕ, ◌≡◌, ◌∙◌, true, ◌||◌, List, [], ◌∷◌, map, any, arith, any-append, Bool-cases, inl, inr, ◌==◌,
}
use cartona_odoo.Config.Data.{Config}
use cartona_odoo.Product.SyncTable.{
  SyncRow, has_key, same_key, new_row, insert_or_nothing, mem, search_rows, missing_ids, insert_all,
  ensure_for_products,
}
use cartona_odoo.Product.SyncTable.Laws.{Unique, insert_or_nothing-Unique}

-- What the call needs of other jobs: they keep the constraint and delete no row.
pub record IsTame (between : List SyncRow → List SyncRow) : Type 0 where
  pub unique : (rows : List SyncRow) → Unique rows → Unique (between rows)
  pub keeps :
      (rows : List SyncRow) (product config : ℕ)
      → any (has_key product config) rows ≡ true
      → any (has_key product config) (between rows) ≡ true

abbrev pub Has : ℕ → ℕ → List SyncRow → Type 0
Has product config rows = any (has_key product config) rows ≡ true

insert_or_nothing-keeps :
    (x : SyncRow) (product config : ℕ) (rows : List SyncRow)
    → Has product config rows
    → Has product config (insert_or_nothing x rows).1
unfolding insert_or_nothing
insert_or_nothing-keeps x product config rows h =
    ground (arith, any-append (has_key product config) rows (x ∷ []))

insert_or_nothing-Has :
    (product : ℕ) (config : Config) (rows : List SyncRow)
    → Has product config.id (insert_or_nothing (new_row product config) rows).1
unfolding insert_or_nothing new_row
insert_or_nothing-Has product config rows =
    elim (Bool-cases (any (same_key (new_row product config)) rows)) [
      | inl there ↦ rw there there
      | inr new ↦ rw new (
          any-append (has_key product config.id) rows (new_row product config ∷ [])
          ∙ unfold has_key in ground arith)
    ]

insert_all-keeps :
    (config : Config) (ps : List ℕ) (product c : ℕ) (rows : List SyncRow)
    → Has product c rows
    → Has product c (insert_all config ps rows)
unfolding insert_all
insert_all-keeps config [] product c rows h = h
insert_all-keeps config (p ∷ ps) product c rows h =
    insert_all-keeps config ps product c _
      (insert_or_nothing-keeps (new_row p config) product c rows h)

insert_all-Has :
    (config : Config) (ps : List ℕ) (product : ℕ) (rows : List SyncRow)
    → mem product ps ≡ true
    → Has product config.id (insert_all config ps rows)
unfolding insert_all
insert_all-Has config [] product rows h = cc
insert_all-Has config (p ∷ ps) product rows h = elim (Bool-cases (p == product)) [
  | inl same ↦
      insert_all-keeps config ps product config.id _
        (let e : p ≡ product = ground arith in rw (← e) (insert_or_nothing-Has p config rows))
  | inr other ↦ insert_all-Has config ps product _ (ground arith)
]

insert_all-Unique :
    (config : Config) (ps : List ℕ) (rows : List SyncRow)
    → Unique rows
    → Unique (insert_all config ps rows)
unfolding insert_all
insert_all-Unique config [] rows u = u
insert_all-Unique config (p ∷ ps) rows u =
    insert_all-Unique config ps _ (insert_or_nothing-Unique (new_row p config) rows u)

-- Every product is missing or has a row among those found.
missing_ids-cases :
    (ps : List ℕ) (existing : List SyncRow) (product : ℕ)
    → mem product ps ≡ true
    → (mem product (missing_ids ps existing) || mem product (map (λ r. r.product_id) existing))
      ≡ true
unfolding missing_ids
missing_ids-cases [] existing product h = cc
missing_ids-cases (p ∷ ps) existing product h =
    ground (arith, missing_ids-cases ps existing product)

found-Has :
    (products : List ℕ) (config product : ℕ) (rows : List SyncRow)
    → mem product (map (λ r. r.product_id) (search_rows products config rows)) ≡ true
    → Has product config rows
unfolding search_rows has_key
found-Has products config product [] h = cc
found-Has products config product (r ∷ rows) h =
    ground (arith, found-Has products config product rows)

-- After the bulk get-or-create each of the products has a row for the configuration, and the
-- constraint holds, whatever rows other jobs insert between the search and the insert.
pub ensure_for_products-Has :
    (between : List SyncRow → List SyncRow) (products : List ℕ) (config : Config)
    (rows : List SyncRow) (product : ℕ)
    → IsTame between
    → Unique rows
    → mem product products ≡ true
    → Unique (ensure_for_products between products config rows).1
      × Has product config.id (ensure_for_products between products config rows).1
unfolding ensure_for_products
ensure_for_products-Has between [] config rows product tame u h = cc
ensure_for_products-Has between (p ∷ ps) config rows product tame u h =
    (insert_all-Unique config missing (between rows) (tame.unique rows u), has)
  where
    missing : List ℕ
    missing = missing_ids (p ∷ ps) (search_rows (p ∷ ps) config.id rows)

    has : Has product config.id (insert_all config missing (between rows))
    has = elim (Bool-cases (mem product missing)) [
      | inl new ↦ insert_all-Has config missing product (between rows) new
      | inr old ↦ insert_all-keeps config missing product config.id (between rows) (
          tame.keeps rows product config.id (
            found-Has (p ∷ ps) config.id product rows (
              ground (
                arith,
                missing_ids-cases (p ∷ ps) (search_rows (p ∷ ps) config.id rows) product h,
              ))))
    ]
