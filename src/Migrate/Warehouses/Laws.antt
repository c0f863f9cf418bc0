-- ===== src/Migrate/Warehouses/Laws.antt =====
-- The warehouse that is picked.
use cartona_odoo.Base.{
  ℕ, ◌≡◌, refl, ap, sym, subst, Bool, true, false, Option, none, some, List, [], ◌∷◌, arith, all,
  leb, is_empty, Bool-cases, inl, inr,
}
use cartona_odoo.Migrate.Warehouses.{
  Database, count_of, comes_first, first_of, most_stock, or_first, first_of_company,
  stock_warehouses, pick_warehouse,
}

-- Of these warehouses, none has more stock than the given one.
abbrev pub has_most : List ℕ → List ℕ → ℕ → Bool
has_most total ws w = all (λ v. leb (count_of v total) (count_of w total)) ws

has_most-more :
    (total ws : List ℕ) (a b : ℕ)
    → leb (count_of b total) (count_of a total) ≡ true
    → has_most total ws b ≡ true
    → has_most total ws a ≡ true
has_most-more total [] a b h k = refl
has_most-more total (w ∷ ws) a b h k = ground (arith, has_most-more total ws a b h)

first_of-has_most :
    (total ws : List ℕ) (w v : ℕ)
    → has_most total ws v ≡ true
    → has_most total (w ∷ ws) (first_of total w (some v)) ≡ true
unfolding first_of comes_first
first_of-has_most total ws w v h = elim (Bool-cases (comes_first total w v)) [
  | inl y ↦ ground (arith, has_most-more total ws w v, h)
  | inr n ↦ ground (arith, h)
]

-- What `most_stock` gives.
abbrev pub Most : List ℕ → List ℕ → Option ℕ → Type 0
Most total ws none = ws ≡ []
Most total ws (some w) = has_most total ws w ≡ true

most_stock-Most : (total ws : List ℕ) → Most total ws (most_stock total ws)
unfolding most_stock
most_stock-Most total [] = refl
most_stock-Most total (w ∷ ws) = by_rest (most_stock total ws) (most_stock-Most total ws)
  where
    by_rest : (o : Option ℕ) → Most total ws o → has_most total (w ∷ ws) (first_of total w o) ≡ true
    by_rest none e =
        unfold first_of in subst (λ zs. has_most total (w ∷ zs) w ≡ true) (sym e) (ground arith)
    by_rest (some v) h = first_of-has_most total ws w v h

picked :
    (ws : List ℕ) (o fallback : Option ℕ)
    → is_empty ws ≡ false
    → Most ws ws o
    → (w : ℕ) × (or_first o fallback ≡ some w) × (has_most ws ws w ≡ true)
unfolding or_first
picked ws none fallback h m = ground (arith, ap is_empty m)
picked ws (some w) fallback h m = (w, refl, m)

-- Where a company has stock in a warehouse of its internal locations, its configuration is given a
-- warehouse in which no fewer of its quants lie than in any other.
pub pick_warehouse-has_most :
    (db : Database) (company : Option ℕ)
    → is_empty (stock_warehouses db.locations company db.quants) ≡ false
    → (w : ℕ) × (pick_warehouse db company ≡ some w)
      × (has_most
            (stock_warehouses db.locations company db.quants)
            (stock_warehouses db.locations company db.quants)
            w
          ≡ true)
unfolding pick_warehouse
pick_warehouse-has_most db company h =
    let ws = stock_warehouses db.locations company db.quants in
    picked ws (most_stock ws ws) (first_of_company company db.warehouses) h (most_stock-Most ws ws)
