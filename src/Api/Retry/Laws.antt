-- ===== src/Api/Retry/Laws.antt =====
-- Which variants a retry sends again.
use cartona_odoo.Base.{
  ℕ, zero, suc, Bool, true, not, ◌&&◌, ◌||◌, List, [], ◌∷◌, ◌≡◌, refl, sym, ◌∙◌, arith, map, any,
  all, select, take, ◌==◌, all-append, ◌-◌, length,
}
use cartona_odoo.Config.Data.{Config}
use cartona_odoo.Order.Resolve.{Variant}
use cartona_odoo.Product.SyncTable.{SyncRow}
use cartona_odoo.Api.Batch.{eligible}
use cartona_odoo.Api.Retry.{retried, variants_of, without_row, collect_variants_for_retry}

module _ {A : Type 0} where
  any-take : (p : A → Bool) (n : ℕ) (xs : List A) → any p (take n xs) ≡ true → any p xs ≡ true
  any-take p zero xs h = ground arith
  any-take p (suc n) [] h = ground arith
  any-take p (suc n) (x ∷ xs) h = ground (arith, any-take p n xs)

  any-select : (p q : A → Bool) (xs : List A) → any p (select q xs) ≡ any (λ x. q x && p x) xs
  any-select p q [] = refl
  any-select p q (x ∷ xs) = ground (arith, any-select p q xs)

  any-map :
      {B : Type 0} (p : B → Bool) (f : A → B) (xs : List A)
      → any p (map f xs) ≡ any (λ x. p (f x)) xs
  any-map p f [] = refl
  any-map p f (x ∷ xs) = ground (arith, any-map p f xs)

  all-take : (p : A → Bool) (n : ℕ) (xs : List A) → all p xs ≡ true → all p (take n xs) ≡ true
  all-take p zero xs h = refl
  all-take p (suc n) [] h = refl
  all-take p (suc n) (x ∷ xs) h = ground (arith, all-take p n xs)

  all-select :
      (p q : A → Bool) (xs : List A)
      → ((x : A) → q x ≡ true → p x ≡ true)
      → all p (select q xs) ≡ true
  all-select p q [] h = refl
  all-select p q (x ∷ xs) h = ground (arith, h x, all-select p q xs h)

abbrev of_variant : Variant → SyncRow → Bool
of_variant v r = r.product_id == v.id

abbrev of_config : Config → SyncRow → Bool
of_config c r = r.cartona_config_id == c.id

-- A variant whose row failed or was never sent, or a saleable one with no row.
abbrev pub due : Config → List SyncRow → Variant → Bool
due c rows v =
    any (λ r. retried c r && of_variant v r) rows
    || eligible c.company_id v && not (any (λ r. of_config c r && of_variant v r) rows)

module _ (c : Config) (rows : List SyncRow) where
  all-known :
      (n : ℕ) (products : List Variant)
      → all (due c rows) (variants_of products (take n (select (retried c) rows))) ≡ true
  unfolding variants_of
  all-known n products = all-select (due c rows) _ products λ v h. ground (
    arith,
    any-select (of_variant v) (retried c) rows,
    any-take (of_variant v) n (select (retried c) rows) (
        sym (
          any-map (λ j. j == v.id) (λ (r : SyncRow). r.product_id)
            (take n (select (retried c) rows)))
        ∙ h),
  )

  all-new : (products : List Variant) → all (due c rows) (without_row c products rows) ≡ true
  unfolding without_row
  all-new products = all-select (due c rows) _ products λ v h. ground (
    arith,
    h,
    any-select (of_variant v) (of_config c) rows,
    any-map (λ j. j == v.id) (λ (r : SyncRow). r.product_id) (select (of_config c) rows),
  )

  -- A retry takes only variants with a row of the configuration that failed or was never sent, and
  -- saleable variants of the company without a row.
  pub collect_variants_for_retry-due :
      (limit : ℕ) (products : List Variant)
      → all (due c rows) (collect_variants_for_retry c limit products rows).0 ≡ true
  unfolding collect_variants_for_retry
  collect_variants_for_retry-due limit products =
      let known = variants_of products (take limit (select (retried c) rows)) in
      let fresh = without_row c products rows in
      all-append (due c rows) known (take (limit - length known) fresh)
      ∙ ground (
        arith,
        all-known limit products,
        all-take (due c rows) (limit - length known) fresh (all-new products),
      )
