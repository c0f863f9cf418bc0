-- ===== src/Partner/Laws.antt =====
-- The search for a customer in models/res_partner.py.
use cartona_odoo.Base.{
  ℕ, String, Bool, true, Option, none, some, List, [], ◌∷◌, ◌++◌, ◌≡◌, refl, arith, find, eq_refl,
  option_eq_refl, option_eq_refl,
}
use cartona_odoo.Py.Exn.{ok}
use cartona_odoo.Py.Json.{Json, Fields, field, Python}
use cartona_odoo.Config.Data.{Config}
use cartona_odoo.Order.Data.{to_char}
use cartona_odoo.Partner.{
  retailer_name, retailer_number, Partner, Directory, matches, new_partner, external_of,
  search_partner, find_or_create_cartona_customer, found_or_created, created,
}

-- A created row has the values it was given.
abbrev pub KeepsKeys : Directory → Type 0
KeepsKeys dir =
    (ps : List Partner) (q p : Partner)
    → dir.create_partner ps q ≡ ok p
    → (p.company_id ≡ q.company_id)
      × (p.cartona_config_id ≡ q.cartona_config_id)
      × (p.cartona_id ≡ q.cartona_id)

matches-external :
    (config : Config) (external : String) (number name : Option String) (p : Partner)
    → p.company_id ≡ some config.company_id
    → p.cartona_config_id ≡ some config.id
    → p.cartona_id ≡ some external
    → matches config external number name p ≡ true
unfolding matches
matches-external config external number name p a b c =
    simp a (simp b (simp c (ground (arith, eq_refl external))))

find-snoc :
    {A : Type 0} (q : A → Bool) (xs : List A) (x : A)
    → find q xs ≡ none
    → q x ≡ true
    → find q (xs ++ (x ∷ [])) ≡ some x
find-snoc q [] x h k = rw k refl
find-snoc q (y ∷ ys) x h k = ground (arith, find-snoc q ys x)

module _ (P : Python) (dir : Directory) (now : ℕ) where
  search_partner-new :
      (d : Fields) (config : Config) (external : String) (ps : List Partner) (p : Partner)
      → KeepsKeys dir
      → search_partner P dir now d config external ps ≡ none
      → dir.create_partner ps (new_partner P dir now d config external) ≡ ok p
      → search_partner P dir now d config external (ps ++ (p ∷ [])) ≡ some p
  unfolding search_partner new_partner
  search_partner-new d config external ps p keeps absent made =
      let (a, b, c) = keeps ps (new_partner P dir now d config external) p made in
      find-snoc _ ps p absent (matches-external config external _ _ p a b c)

  -- If Odoo's `create` keeps the values it is given, a retailer that no customer matches is created, and
  -- the same data finds that customer again.
  pub find_or_create_cartona_customer-again :
      (stamp k : String) (v : Json) (fs : Fields) (config : Config) (ps : List Partner)
      (p : Partner)
      → KeepsKeys dir
      → search_partner P dir now
          (field k v fs)
          config
          (external_of P dir now stamp (field k v fs))
          ps
        ≡ none
      → dir.create_partner ps
          (new_partner P dir now (field k v fs) config (external_of P dir now stamp (field k v fs)))
        ≡ ok p
      → (find_or_create_cartona_customer P dir now stamp (field k v fs) config ps
          ≡ (ok (some p.id), ps ++ (p ∷ [])))
        × ((find_or_create_cartona_customer P dir now stamp
              (field k v fs)
              config
              (ps ++ (p ∷ []))).0
            ≡ ok (some p.id))
  unfolding find_or_create_cartona_customer found_or_created created
  find_or_create_cartona_customer-again stamp k v fs config ps p keeps absent made =
      (simp absent (simp made refl), simp found refl)
    where
      found :
          search_partner P dir now
            (field k v fs)
            config
            (external_of P dir now stamp (field k v fs))
            (ps ++ (p ∷ []))
          ≡ some p
      found =
          search_partner-new (field k v fs) config (external_of P dir now stamp (field k v fs)) ps p
            keeps absent made

  matches-name :
      (config : Config) (external : String) (number name : Option String) (p : Partner)
      → p.company_id ≡ some config.company_id
      → p.cartona_config_id ≡ some config.id
      → p.name ≡ name
      → matches config external number name p ≡ true
  unfolding matches
  matches-name config external number name p a b c =
      simp a (simp b (simp c (ground (arith, option_eq_refl name))))

  search_partner-first :
      (d : Fields) (config : Config) (external : String) (p : Partner) (ps : List Partner)
      → p.company_id ≡ some config.company_id
      → p.cartona_config_id ≡ some config.id
      → p.name ≡ to_char P (retailer_name P d)
      → search_partner P dir now d config external (p ∷ ps) ≡ some p
  unfolding search_partner
  search_partner-first d config external p ps a b c =
      simp
        (matches-name config external (to_char P (retailer_number P d))
          (to_char P (retailer_name P d)) p a b c)
        refl

  -- A customer of the configuration with the retailer's name is taken for the retailer, whatever his
  -- id of Cartona's and his phone number are, if he comes first.
  pub same_name-conflated :
      (stamp k : String) (v : Json) (fs : Fields) (config : Config) (p : Partner)
      (ps : List Partner)
      → p.company_id ≡ some config.company_id
      → p.cartona_config_id ≡ some config.id
      → p.name ≡ to_char P (retailer_name P (field k v fs))
      → (find_or_create_cartona_customer P dir now stamp (field k v fs) config (p ∷ ps)).0
        ≡ ok (some p.id)
  unfolding find_or_create_cartona_customer found_or_created
  same_name-conflated stamp k v fs config p ps a b c =
      simp
        (search_partner-first (field k v fs) config (external_of P dir now stamp (field k v fs)) p
          ps a b c)
        refl
