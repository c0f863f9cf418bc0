-- ===== src/Migrate/Renames/Steps.antt =====
-- Statements of SQL that each rewrite the rows that pass a test, one after the other.
use cartona_odoo.Base.{
  Bool, true, false, not, ◌&&◌, and_left, and_right, both, false_of-not, List, [], ◌∷◌, ◌≡◌, refl,
  ◌∙◌, ap, arith, map, any, all, Bool-cases, inl, inr, if◌then◌else◌,
}

-- A list without what a step looks for is left as it is.
map-none :
    {A : Type 0} (test : A → Bool) (f : A → A) (xs : List A)
    → any test xs ≡ false
    → map (λ x. if test x then f x else x) xs ≡ xs
map-none test f [] h = refl
map-none test f (x ∷ xs) h = ground (arith, h, map-none test f xs)

-- No element that a step changes passes the test behind it.
any-map_none :
    {A : Type 0} (p test : A → Bool) (f : A → A) (xs : List A)
    → ((x : A) → p (f x) ≡ false)
    → any p xs ≡ false
    → any p (map (λ x. if test x then f x else x) xs) ≡ false
any-map_none p test f [] h k = refl
any-map_none p test f (x ∷ xs) h k = elim (Bool-cases (test x)) [
  | inl y ↦ rw y (ground (arith, h x, k, any-map_none p test f xs h))
  | inr n ↦ rw n (ground (arith, k, any-map_none p test f xs h))
]

any-map_done :
    {A : Type 0} (test : A → Bool) (f : A → A) (xs : List A)
    → ((x : A) → test (f x) ≡ false)
    → any test (map (λ x. if test x then f x else x) xs) ≡ false
any-map_done test f [] h = refl
any-map_done test f (x ∷ xs) h = elim (Bool-cases (test x)) [
  | inl y ↦ rw y (ground (arith, h x, any-map_done test f xs h))
  | inr n ↦ rw n (ground (arith, n, any-map_done test f xs h))
]

module _ {S A : Type 0} (test : S → A → Bool) (f : S → A → A) where
  unfoldable pub run : List S → List A → List A
  run [] xs = xs
  run (s ∷ ss) xs = run ss (map (λ x. if test s x then f s x else x) xs)

  -- Whether no step of a list makes work for itself or one before it.
  module _ (clear : S → S → Bool)
      (clears : (r s : S) → clear r s ≡ true → (x : A) → test r (f s x) ≡ false) where
    abbrev pub ordered : List S → Bool
    ordered [] = true
    ordered (r ∷ rs) = clear r r && (all (clear r) rs && ordered rs)

    run-keeps :
        (r : S) (rs : List S) (xs : List A)
        → all (clear r) rs ≡ true
        → any (test r) xs ≡ false
        → any (test r) (run rs xs) ≡ false
    unfolding run
    run-keeps r [] xs c h = h
    run-keeps r (s ∷ rs) xs c h =
        run-keeps r rs _ (and_right (clear r s) _ c)
          (any-map_none (test r) (test s) (f s) xs (clears r s (and_left (clear r s) _ c)) h)

    pub run-done :
        (rs : List S) (xs : List A)
        → ordered rs ≡ true
        → all (λ r. not (any (test r) (run rs xs))) rs ≡ true
    unfolding run
    run-done [] xs o = refl
    run-done (r ∷ rs) xs o =
        let later = and_right (clear r r) (all (clear r) rs && ordered rs) o in
        let next = map (λ x. if test r x then f r x else x) xs in
        both (any (test r) (run rs next)) _
          (run-keeps r rs next (and_left (all (clear r) rs) _ later)
            (any-map_done (test r) (f r) xs (clears r r (and_left (clear r r) _ o))))
          (run-done rs next (and_right (all (clear r) rs) _ later))

  pub run-idle :
      (rs : List S) (xs : List A) → all (λ r. not (any (test r) xs)) rs ≡ true → run rs xs ≡ xs
  unfolding run
  run-idle [] xs h = refl
  run-idle (r ∷ rs) xs h =
      ap (run rs) (
        map-none (test r) (f r) xs
          (false_of-not (any (test r) xs) (and_left (not (any (test r) xs)) _ h)))
      ∙ run-idle rs xs (and_right (not (any (test r) xs)) _ h)
