-- ===== src/Product/Trigger/Laws.antt =====
-- Where the sync jobs go.
use cartona_odoo.Base.{
  ℕ, ◌≡◌, refl, ◌∙◌, Bool, false, ◌&&◌, ◌||◌, Option, none, some, List, [], ◌∷◌, any, arith,
  any-append, Bool-cases, inl, inr, ◌==◌,
}
use cartona_odoo.Order.Resolve.{Variant}
use cartona_odoo.Product.Trigger.{
  SyncJob, Location, StockRecord, Groups, join_product, add_product, warehouse_of, add_at,
  add_locations, add_record, group_by_warehouse,
}

-- A job for that product and configuration is among the jobs.
abbrev pub queued : ℕ → ℕ → List SyncJob → Bool
queued product config = any (λ j. j.product == product && j.config == config)

-- The product is in the group of the warehouse.
abbrev pub grouped : ℕ → ℕ → Groups → Bool
grouped w product = any (λ g. g.0 == w && any (λ v. v.id == product) g.1)

abbrev is_at : ℕ → Option ℕ → Bool
is_at w none = false
is_at w (some u) = u == w

abbrev is_product : ℕ → Option Variant → Bool
is_product product none = false
is_product product (some v) = v.id == product

-- A record changes the stock of that product in that warehouse.
abbrev pub touches : ℕ → ℕ → StockRecord → Bool
touches w product r =
    is_product product r.product && any (λ l. is_at w (warehouse_of l)) r.locations

join_product-has :
    (product : ℕ) (v : Variant) (vs : List Variant)
    → any (λ u. u.id == product) (join_product v vs)
      ≡ (v.id == product || any (λ u. u.id == product) vs)
unfolding join_product
join_product-has product v vs = elim (Bool-cases (any (λ (u : Variant). u.id == v.id) vs)) [
  | inl there ↦ rw there (elim (Bool-cases (v.id == product)) [
    | inl same ↦ let e : v.id ≡ product = ground arith in rw same (rw e at there)
    | inr other ↦ rw other refl
  ])
  | inr new ↦ rw new (any-append (λ (u : Variant). u.id == product) vs (v ∷ []) ∙ ground arith)
]

add_product-grouped :
    (w product u : ℕ) (v : Variant) (groups : Groups)
    → grouped w product (add_product u v groups)
      ≡ (u == w && v.id == product || grouped w product groups)
unfolding add_product
add_product-grouped w product u v [] = ground arith
add_product-grouped w product u v ((k, vs) ∷ groups) =
    ground (arith, join_product-has product v vs, add_product-grouped w product u v groups)

add_locations-grouped :
    (w product : ℕ) (v : Variant) (ls : List (Option Location)) (groups : Groups)
    → grouped w product (add_locations v ls groups)
      ≡ (v.id == product && any (λ l. is_at w (warehouse_of l)) ls || grouped w product groups)
unfolding add_locations
add_locations-grouped w product v [] groups = ground arith
add_locations-grouped w product v (l ∷ ls) groups =
    add_locations-grouped w product v ls (add_at v (warehouse_of l) groups)
    ∙ at_one (warehouse_of l)
  where
    at_one :
        (o : Option ℕ)
        → (v.id == product && any (λ k. is_at w (warehouse_of k)) ls
            || grouped w product (add_at v o groups))
          ≡ (v.id == product && (is_at w o || any (λ k. is_at w (warehouse_of k)) ls)
              || grouped w product groups)
    at_one none = unfold add_at in refl
    at_one (some u) = unfold add_at in ground (arith, add_product-grouped w product u v groups)

-- A product is in the group of a warehouse exactly if some record changes its stock there: a move at
-- one of its two locations, internal and in that warehouse.
pub group_by_warehouse-grouped :
    (w product : ℕ) (rs : List StockRecord) (groups : Groups)
    → grouped w product (group_by_warehouse rs groups)
      ≡ (any (touches w product) rs || grouped w product groups)
unfolding group_by_warehouse
group_by_warehouse-grouped w product [] groups = refl
group_by_warehouse-grouped w product (r ∷ rs) groups =
    group_by_warehouse-grouped w product rs (add_record r.product r.locations groups)
    ∙ at_record r.product
  where
    at_record :
        (o : Option Variant)
        → (any (touches w product) rs || grouped w product (add_record o r.locations groups)) ≡ (
            is_product product o && any (λ l. is_at w (warehouse_of l)) r.locations
            || any (touches w product) rs
            || grouped w product groups)
    at_record none = unfold add_record in refl
    at_record (some v) =
        unfold add_record in ground (arith, add_locations-grouped w product v r.locations groups)
