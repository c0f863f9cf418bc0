-- ===== src/Link/Laws.antt =====
-- What a run of dev/link_cartona_products.py reports.
use cartona_odoo.Base.{
  ℕ, suc, ◌+◌, ◌≡◌, refl, ◌∙◌, ap, subst, arith, Bool, true, false, Option, none, some, is_some,
  List, [], ◌∷◌, ◌++◌, all, length, length-append, ◌==◌, all-append, if◌then◌else◌, and_left,
  and_right,
}
use cartona_odoo.Py.Exn.{Result, ok, err}
use cartona_odoo.Py.Number.{ℤ, int_of_text}
use cartona_odoo.Py.Json.{Json, Python}
use cartona_odoo.Link.{
  Call, Server, Mapping, Linked, Report, then_call, number_of, link_product, add_outcome, link_each,
  main,
}

-- A report of so many rows: one result for each, counted as it came out, and no failure exactly where
-- each is good.
abbrev pub Balanced : ℕ → Report → Type 0
Balanced n r =
    (length r.results ≡ n) × (r.linked + r.fail ≡ n) × ((r.fail == 0) ≡ all (λ l. l.good) r.results)

abbrev pub has_number : Mapping → Bool
has_number m = is_some (int_of_text m.ps_id)

-- Another result at the end of the list.
good-last :
    (ls : List Linked) (l : Linked)
    → l.good ≡ true
    → all (λ (x : Linked). x.good) ls ≡ all (λ (x : Linked). x.good) (ls ++ (l ∷ []))
good-last ls l h = ground (arith, all-append (λ (x : Linked). x.good) ls (l ∷ []))

bad-last :
    (n : ℕ) (ls : List Linked) (l : Linked)
    → l.good ≡ false
    → (suc n == 0) ≡ all (λ (x : Linked). x.good) (ls ++ (l ∷ []))
bad-last n ls l h = ground (arith, all-append (λ (x : Linked). x.good) ls (l ∷ []))

add_outcome-Balanced :
    (ps_id variant : ℤ) (o : Result (Bool × Json)) (n : ℕ) (r : Report)
    → Balanced n r
    → Balanced (suc n) (add_outcome ps_id variant o r)
unfolding add_outcome
add_outcome-Balanced ps_id variant (ok (true, actual)) n r (a, b, c) =
    (length-append r.results _ ∙ omega (arith, a), omega (arith, b), c ∙ good-last r.results _ refl)
add_outcome-Balanced ps_id variant (ok (false, actual)) n r (a, b, c) = (
  length-append r.results _ ∙ omega (arith, a),
  omega (arith, b),
  bad-last r.fail r.results _ refl,
)
add_outcome-Balanced ps_id variant (err e) n r (a, b, c) = (
  length-append r.results _ ∙ omega (arith, a),
  omega (arith, b),
  bad-last r.fail r.results _ refl,
)

number_of-some : (o : Option ℤ) → is_some o ≡ true → (n : ℤ) × (number_of o ≡ ok n)
unfolding number_of
number_of-some none h = cc
number_of-some (some n) h = (n, refl)

exit_code : (n : ℕ) → ((if n == 0 then 0 else 1) == 0) ≡ (n == 0)
exit_code n = ground arith

then_call-ok :
    {S A B : Type 0} (m : Call S A) (next : A → Call S B) (s : S) (a : A) (s' : S)
    → m s ≡ (ok a, s')
    → then_call m next s ≡ next a s'
unfolding then_call
then_call-ok m next s a s' h = ap (λ q. elim q.0 [ err e ↦ (err e, q.1) | ok x ↦ next x q.1 ]) h

module _ (P : Python) {S : Type 0} (server : Server S) where
  link_each-Balanced :
      (ms : List Mapping) (n : ℕ) (r : Report) (s : S)
      → all has_number ms ≡ true
      → Balanced n r
      → (r' : Report) × (s' : S) × (link_each P server ms r s ≡ (ok r', s'))
        × Balanced (n + length ms) r'
  unfolding link_each then_call
  link_each-Balanced [] n r s h b = (r, s, refl, subst (λ k. Balanced k r) (omega arith) b)
  link_each-Balanced (m ∷ ms) n r s h b =
      let (ps_id, e) =
        number_of-some (int_of_text m.ps_id) (and_left (has_number m) (all has_number ms) h) in
      let (outcome, s') = link_product P server ps_id m.variant_id s in
      let (r', u, run, ends) =
        link_each-Balanced ms (suc n) (add_outcome ps_id m.variant_id outcome r) s'
          (and_right (has_number m) (all has_number ms) h)
          (add_outcome-Balanced ps_id m.variant_id outcome n r b) in
      (r', u, rw e run, subst (λ k. Balanced k r') (omega arith) ends)

  -- What is written where the loop ends so.
  ended :
      (mapping : List Mapping) (s : S)
      → (r : Report) × (s' : S) × (link_each P server mapping
            (record { linked = 0; fail = 0; results = [] })
            s
          ≡ (ok r, s'))
        × Balanced (0 + length mapping) r
      → (r : Report) × (code : ℕ) × (s' : S) × (main P server mapping s ≡ (ok (r, code), s'))
        × Balanced (length mapping) r
        × ((code == 0) ≡ all (λ l. l.good) r.results)
  unfolding main
  ended mapping s (r, s', run, (a, b, c)) = (
    r,
    (if r.fail == 0 then 0 else 1),
    s',
    then_call-ok (link_each P server mapping (record { linked = 0; fail = 0; results = [] }))
        (λ r s. (ok (r, if r.fail == 0 then 0 else 1), s)) s r s' run,
    (omega (arith, a), omega (arith, b), c),
    exit_code r.fail ∙ c,
  )

  -- Where the file names each product by a number, the script ends, whatever the server answers: with
  -- one result for each row, each counted as linked or failed, and with the exit code 0 exactly where
  -- each row was verified.
  pub main-Balanced :
      (mapping : List Mapping) (s : S)
      → all has_number mapping ≡ true
      → (r : Report) × (code : ℕ) × (s' : S) × (main P server mapping s ≡ (ok (r, code), s'))
        × Balanced (length mapping) r
        × ((code == 0) ≡ all (λ l. l.good) r.results)
  main-Balanced mapping s h = ended mapping s (
      link_each-Balanced mapping 0 (record { linked = 0; fail = 0; results = [] }) s h
        (refl, refl, refl))
