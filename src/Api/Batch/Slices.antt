-- ===== src/Api/Batch/Slices.antt =====
-- The batches that the loops over `range(0, len(variants), batch_size)` of models/cartona_api.py
-- cut.
use cartona_odoo.Base.{
  ℕ, zero, suc, ◌≤◌, Bool, true, not, ◌&&◌, List, [], ◌∷◌, ◌++◌, ◌≡◌, refl, ◌∙◌, ap, arith, length,
  take, drop, all, is_empty, leb, length-take, length-drop, take-append-drop,
}
use cartona_odoo.Py.Exn.{ok}
use cartona_odoo.Api.Batch.{slices, slices_within}

unfoldable pub concat : {A : Type 0} → List (List A) → List A
concat [] = []
concat (xs ∷ rest) = xs ++ concat rest

-- A batch that holds something, and at most so many.
unfoldable pub fits : {A : Type 0} → ℕ → List A → Bool
fits n xs = leb (length xs) n && not (is_empty xs)

module _ {A : Type 0} where
  concat-slices_within :
      (fuel n : ℕ) (xs : List A) → length xs ≤ fuel → concat (slices_within fuel (suc n) xs) ≡ xs
  unfolding concat slices_within
  concat-slices_within zero n [] le = refl
  concat-slices_within zero n (x ∷ xs) le = ground arith
  concat-slices_within (suc fuel) n [] le = refl
  concat-slices_within (suc fuel) n (x ∷ xs) le =
      ap (λ ys. x ∷ take n xs ++ ys)
        (concat-slices_within fuel n (drop n xs) (omega (arith, le, length-drop n xs)))
      ∙ ap (λ ys. x ∷ ys) (take-append-drop n xs)

  all-slices_within :
      (fuel n : ℕ) (xs : List A) → all (fits (suc n)) (slices_within fuel (suc n) xs) ≡ true
  unfolding slices_within fits
  all-slices_within zero n xs = refl
  all-slices_within (suc fuel) n [] = refl
  all-slices_within (suc fuel) n (x ∷ xs) =
      ground (arith, length-take n xs, all-slices_within fuel n (drop n xs))

  -- A positive step cuts the list into full batches, in order.
  pub slices-covers :
      (n : ℕ) (xs : List A)
      → 1 ≤ n
      → (batches : List (List A)) × (slices n xs ≡ ok batches)
        × (concat batches ≡ xs)
        × (all (fits n) batches ≡ true)
  unfolding slices
  slices-covers zero xs le = ground arith
  slices-covers (suc n) xs le = (
    slices_within (length xs) (suc n) xs,
    refl,
    concat-slices_within (length xs) n xs (omega arith),
    all-slices_within (length xs) n xs,
  )
