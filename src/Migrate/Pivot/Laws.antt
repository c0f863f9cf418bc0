-- ===== src/Migrate/Pivot/Laws.antt =====
-- Which rows migrations/18.0.2.0.32 stages and loads.
use cartona_odoo.Base.{
  ℕ, ◌≡◌, refl, ap₂, ◌∙◌, Bool, true, ◌&&◌, ◌||◌, none, some, List, [], ◌∷◌, arith, any, any-append,
  ◌==◌, Bool-cases, inl, inr,
}
use cartona_odoo.Migrate.Pivot.{
  Product, ConfigRow, Staged, PivotRow, Database, is_staged, stage_product, stage,
  cleanup_obsolete_product_views, has_column, pre_migrate, has_key, insert_row, pivot_row, load_row,
  load, load_tables, post_migrate,
}

abbrev pub has_row : ℕ → ℕ → List PivotRow → Bool
has_row p c rows = any (has_key p c) rows

abbrev stages : ℕ → ℕ → List Staged → Bool
stages p c ms = any (λ m. m.product_id == p && m.cartona_config_id == c) ms

abbrev has_config : ℕ → List ConfigRow → Bool
has_config c cs = any (λ k. k.id == c) cs

same_row :
    (p c : ℕ) (r : PivotRow) (rows : List PivotRow)
    → has_key p c r ≡ true
    → has_row p c rows ≡ has_row r.product_id r.cartona_config_id rows
same_row p c r rows h =
    let x : p ≡ r.product_id = ground arith in
    let y : c ≡ r.cartona_config_id = ground arith in ap₂ (λ a b. has_row a b rows) x y

insert_row-has_row :
    (p c : ℕ) (r : PivotRow) (rows : List PivotRow)
    → has_row p c (insert_row r rows) ≡ (has_row p c rows || has_key p c r)
unfolding insert_row
insert_row-has_row p c r rows = elim (Bool-cases (has_key p c r)) [
  | inl h ↦ ground (arith, same_row p c r rows h, any-append (has_key p c) rows (r ∷ []))
  | inr h ↦ ground (arith, any-append (has_key p c) rows (r ∷ []))
]

load_row-has_row :
    (p c : ℕ) (m : Staged) (cs : List ConfigRow) (rows : List PivotRow)
    → has_row p c (load_row m cs rows)
      ≡ (has_row p c rows || m.product_id == p && m.cartona_config_id == c && has_config c cs)
unfolding load_row
load_row-has_row p c m [] rows = ground arith
load_row-has_row p c m (k ∷ cs) rows = elim (Bool-cases (k.id == m.cartona_config_id)) [
  | inl y ↦ rw y (
      ground (
        arith,
        load_row-has_row p c m cs (insert_row (pivot_row m k) rows),
        insert_row-has_row p c (pivot_row m k) rows,
      ))
  | inr n ↦ rw n (ground (arith, load_row-has_row p c m cs rows))
]

load-has_row :
    (p c : ℕ) (ms : List Staged) (cs : List ConfigRow) (rows : List PivotRow)
    → has_row p c (load ms cs rows) ≡ (has_row p c rows || stages p c ms && has_config c cs)
unfolding load
load-has_row p c [] cs rows = ground arith
load-has_row p c (m ∷ ms) cs rows =
    ground (arith, load-has_row p c ms cs (load_row m cs rows), load_row-has_row p c m cs rows)

stage_product-stages :
    (p c : ℕ) (v : Product) (cs : List ConfigRow)
    → stages p c (stage_product v cs) ≡ (v.id == p && any (λ k. k.id == c && is_staged v k) cs)
unfolding stage_product
stage_product-stages p c v [] = ground arith
stage_product-stages p c v (k ∷ cs) = elim (Bool-cases (is_staged v k)) [
  | inl y ↦ rw y (ground (arith, stage_product-stages p c v cs))
  | inr n ↦ rw n (ground (arith, stage_product-stages p c v cs))
]

-- Whether a variant has state for the configuration in the old columns.
abbrev pub had_state : ℕ → ℕ → List Product → List ConfigRow → Bool
had_state p c vs cs = any (λ v. v.id == p && any (λ k. k.id == c && is_staged v k) cs) vs

stage-stages :
    (p c : ℕ) (vs : List Product) (cs : List ConfigRow)
    → stages p c (stage vs cs) ≡ had_state p c vs cs
unfolding stage
stage-stages p c [] cs = refl
stage-stages p c (v ∷ vs) cs =
    any-append (λ m. m.product_id == p && m.cartona_config_id == c) (stage_product v cs)
      (stage vs cs)
    ∙ ap₂ (λ a b. a || b) (stage_product-stages p c v cs) (stage-stages p c vs cs)

config_known :
    (c : ℕ) (v : Product) (cs : List ConfigRow)
    → any (λ k. k.id == c && is_staged v k) cs ≡ true
    → has_config c cs ≡ true
config_known c v [] h = ground arith
config_known c v (k ∷ cs) h = ground (arith, config_known c v cs)

had_state-has_config :
    (p c : ℕ) (vs : List Product) (cs : List ConfigRow)
    → had_state p c vs cs ≡ true
    → has_config c cs ≡ true
had_state-has_config p c [] cs h = ground arith
had_state-has_config p c (v ∷ vs) cs h =
    ground (arith, config_known c v cs, had_state-has_config p c vs cs)

-- Where the old columns are there, and Odoo creates the new table in between, with whatever rows: the
-- two halves give a row to a variant and a configuration exactly where it had one already or the
-- old columns had state for a configuration of its company, and the staging table goes.
pub post_migrate-pre_migrate :
    (db : Database) (created : List PivotRow) (p c : ℕ)
    → has_column db "product_product" "cartona_sync_status" ≡ true
    → (rows : List PivotRow) × ((post_migrate
          (record (pre_migrate db) { pivot = some created })).pivot
        ≡ some rows)
      × ((post_migrate (record (pre_migrate db) { pivot = some created })).staging ≡ none)
      × (has_row p c rows ≡ (has_row p c created || had_state p c db.products db.configs))
unfolding post_migrate load_tables pre_migrate cleanup_obsolete_product_views
post_migrate-pre_migrate db created p c h = rw h (
  load (stage db.products db.configs) db.configs created,
  refl,
  refl,
  load-has_row p c (stage db.products db.configs) db.configs created
      ∙ ground (
        arith,
        stage-stages p c db.products db.configs,
        had_state-has_config p c db.products db.configs,
      ),
)
