-- ===== src/Migrate/Views/Laws.antt =====
-- What migrations/18.0.2.0.33 and migrations/18.0.2.0.34 delete.
use cartona_odoo.Base.{
  ◌+◌, String, Bool, false, not, ◌&&◌, List, [], ◌∷◌, ◌≡◌, refl, arith, any, select, length, ◌==◌,
}
use cartona_odoo.Migrate.Pivot.{Database}
use cartona_odoo.Migrate.Views.{is_module_view, delete_module_views}

any-select :
    {A : Type 0} (p q : A → Bool) (xs : List A) → any p xs ≡ false → any p (select q xs) ≡ false
any-select p q [] h = refl
any-select p q (x ∷ xs) h = ground (arith, h, any-select p q xs)

any-select-not :
    {A : Type 0} (p q : A → Bool) (xs : List A)
    → ((x : A) → q x ≡ false → p x ≡ false)
    → any p (select (λ x. not (q x)) xs) ≡ false
any-select-not p q [] h = refl
any-select-not p q (x ∷ xs) h = ground (arith, h x, any-select-not p q xs h)

length-select :
    {A : Type 0} (p : A → Bool) (xs : List A)
    → length (select p xs) + length (select (λ x. not (p x)) xs) ≡ length xs
length-select p [] = omega arith
length-select p (x ∷ xs) = ground (arith, length-select p xs)

-- A clean-up removes as many names as it counts, and leaves none that the addon gave to a view that is
-- there.
pub delete_module_views-gone :
    (addon : String) (db : Database)
    → ((delete_module_views addon db).0 + length (delete_module_views addon db).1.xml_ids
        ≡ length db.xml_ids)
      × (any
            (is_module_view addon (delete_module_views addon db).1)
            (delete_module_views addon db).1.xml_ids
          ≡ false)
unfolding delete_module_views is_module_view
delete_module_views-gone addon db = (
  length-select (is_module_view addon db) db.xml_ids,
  any-select-not _ (is_module_view addon db) db.xml_ids (λ x h. ground (
    arith,
    h,
    any-select (λ v. v.id == x.res_id)
        (λ v. not (any (λ y. is_module_view addon db y && y.res_id == v.id) db.xml_ids)) db.views,
  )),
)
