-- ===== src/Migrate/Renames/Others.antt =====
-- What the renaming does to the fields of models that are not the addon's.
use cartona_odoo.Base.{
  and_left, Bool, true, false, not, ◌&&◌, ◌||◌, List, [], ◌∷◌, ◌≡◌, refl, ◌∙◌, ap, arith, map, any,
  select, str_eq, Bool-cases, inl, inr, if◌then◌else◌,
}
use cartona_odoo.Migrate.Names.{
  ModelField, Database, ColumnRename, ColumnName, field_renames, columns_to_drop,
}
use cartona_odoo.Migrate.Renames.{
  is_renamed_model, rename_fields, delete_fields, update_ir_model_fields,
}

-- A field of another model.
abbrev pub is_other : ModelField → Bool
is_other f = not (is_renamed_model f.model)

-- Whether some table drops a column of the field's name.
abbrev pub is_dropped : List ColumnName → ModelField → Bool
is_dropped cs f = any (λ c. str_eq f.name c.name) cs

select-mapped :
    {A : Type 0} (p test : A → Bool) (f : A → A) (xs : List A)
    → ((x : A) → test x ≡ true → (p (f x) ≡ false) × (p x ≡ false))
    → select p (map (λ x. if test x then f x else x) xs) ≡ select p xs
select-mapped p test f [] h = refl
select-mapped p test f (x ∷ xs) h = elim (Bool-cases (test x)) [
  | inl y ↦ rw y (ground (arith, h x y, select-mapped p test f xs h))
  | inr n ↦ rw n (ground (arith, select-mapped p test f xs h))
]

select-select :
    {A : Type 0} (p q r : A → Bool) (xs : List A)
    → ((x : A) → r x ≡ (q x && p x))
    → select p (select q xs) ≡ select r xs
select-select p q r [] h = refl
select-select p q r (x ∷ xs) h = ground (arith, h x, select-select p q r xs h)

not_other : (a : Bool) → a ≡ true → not a ≡ false
not_other a h = ap not h

rename_fields-others :
    (rs : List ColumnRename) (db : Database) (p : ModelField → Bool)
    → ((f : ModelField) → is_renamed_model f.model ≡ true → p f ≡ false)
    → select p (rename_fields rs db).model_fields ≡ select p db.model_fields
unfolding rename_fields
rename_fields-others [] db p h = refl
rename_fields-others (r ∷ rs) db p h =
    rename_fields-others rs _ p h
    ∙ select-mapped p (λ f. is_renamed_model f.model && str_eq f.name r.old)
        (λ f. record f { name = r.new }) db.model_fields
        (λ f y.
          let own = and_left (is_renamed_model f.model) (str_eq f.name r.old) y in
          (h (record f { name = r.new }) own, h f own))

kept_by : (a b c : Bool) → (a && not (b || c)) ≡ (not b && (a && not c))
kept_by true true c = refl
kept_by true false c = refl
kept_by false true c = refl
kept_by false false c = refl

delete_fields-others :
    (cs : List ColumnName) (db : Database) (p : ModelField → Bool)
    → select p (delete_fields cs db).model_fields
      ≡ select (λ f. p f && not (is_dropped cs f)) db.model_fields
unfolding delete_fields
delete_fields-others [] db p = same db.model_fields
  where
    same : (fs : List ModelField) → select p fs ≡ select (λ f. p f && not false) fs
    same [] = refl
    same (f ∷ fs) = ground (arith, same fs)
delete_fields-others (c ∷ cs) db p =
    delete_fields-others cs _ p
    ∙ select-select (λ f. p f && not (is_dropped cs f)) (λ f. not (str_eq f.name c.name))
        (λ f. p f && not (is_dropped (c ∷ cs) f)) db.model_fields
        (λ f. kept_by (p f) (str_eq f.name c.name) (is_dropped cs f))

dropped_later : (a b : Bool) → a ≡ false → (a && b) ≡ false
dropped_later a b h = ground (arith, h)

-- Of the models that are not the addon's, no field is renamed, and those whose name is that of a
-- dropped column of any table are deleted: what is left is what was there before with another name.
pub update_ir_model_fields-others :
    (db : Database)
    → select is_other (update_ir_model_fields db).model_fields
      ≡ select (λ f. is_other f && not (is_dropped columns_to_drop f)) db.model_fields
unfolding update_ir_model_fields
update_ir_model_fields-others db =
    delete_fields-others columns_to_drop (rename_fields field_renames db) is_other
    ∙ rename_fields-others field_renames db (λ f. is_other f && not (is_dropped columns_to_drop f))
        (λ f h.
          dropped_later (is_other f) (not (is_dropped columns_to_drop f))
            (not_other (is_renamed_model f.model) h))
