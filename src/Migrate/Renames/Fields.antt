-- ===== src/Migrate/Renames/Fields.antt =====
-- The models and the fields, and the columns that go, in a second run of migrations/18.0.2.0.0.
use cartona_odoo.Base.{
  false_of-not, String, Bool, true, false, not, ◌&&◌, List, [], ◌∷◌, ◌≡◌, refl, ◌∙◌, ap, arith, any,
  all, all-impl, select, str_eq,
}
use cartona_odoo.Migrate.Names.{
  ModelField, Database, Rename, ColumnRename, ColumnName, model_renames, field_renames,
  columns_to_drop,
}
use cartona_odoo.Migrate.Renames.{update_ir_model, is_renamed_model, rename_fields, delete_fields}
use cartona_odoo.Migrate.Renames.Steps.{run, run-done, run-idle}

pub select-none :
    {A : Type 0} (test : A → Bool) (xs : List A)
    → any test xs ≡ false
    → select (λ x. not (test x)) xs ≡ xs
select-none test [] h = refl
select-none test (x ∷ xs) h = ground (arith, h, select-none test xs)

pub any-select-not :
    {A : Type 0} (test : A → Bool) (xs : List A) → any test (select (λ x. not (test x)) xs) ≡ false
any-select-not test [] = refl
any-select-not test (x ∷ xs) = ground (arith, any-select-not test xs)

pub any-select :
    {A : Type 0} (p q : A → Bool) (xs : List A) → any p xs ≡ false → any p (select q xs) ≡ false
any-select p q [] h = refl
any-select p q (x ∷ xs) h = ground (arith, h, any-select p q xs)

-- The models.
abbrev pub is_old : Rename → String → Bool
is_old r m = str_eq m r.old

abbrev pub renamed_models : List Rename → List String → List String
renamed_models = run is_old (λ r _. r.new)

pub update_ir_model-run :
    (rs : List Rename) (db : Database)
    → update_ir_model rs db ≡ record db { models = renamed_models rs db.models }
unfolding update_ir_model run
update_ir_model-run [] db = refl
update_ir_model-run (r ∷ rs) db = update_ir_model-run rs _

abbrev fresh : Rename → Rename → Bool
fresh r s = not (str_eq s.new r.old)

pub renamed_models-idle :
    (ms : List String)
    → renamed_models model_renames (renamed_models model_renames ms)
      ≡ renamed_models model_renames ms
renamed_models-idle ms =
    run-idle is_old (λ r _. r.new) model_renames (renamed_models model_renames ms)
      (run-done is_old (λ r _. r.new) fresh (λ r s h x. false_of-not (str_eq s.new r.old) h)
        model_renames ms refl)

-- The fields.
abbrev pub is_old_field : ColumnRename → ModelField → Bool
is_old_field r f = is_renamed_model f.model && str_eq f.name r.old

abbrev with_name : ColumnRename → ModelField → ModelField
with_name r f = record f { name = r.new }

abbrev pub renamed_fields : List ColumnRename → List ModelField → List ModelField
renamed_fields = run is_old_field with_name

pub rename_fields-run :
    (rs : List ColumnRename) (db : Database)
    → rename_fields rs db ≡ record db { model_fields = renamed_fields rs db.model_fields }
unfolding rename_fields run
rename_fields-run [] db = refl
rename_fields-run (r ∷ rs) db = rename_fields-run rs _

abbrev fresh_field : ColumnRename → ColumnRename → Bool
fresh_field r s = not (str_eq s.new r.old)

second-false : (a b : Bool) → not b ≡ true → (a && b) ≡ false
second-false a b h = ground (arith, h)

renamed_fields-done :
    (fs : List ModelField)
    → all (λ r. not (any (is_old_field r) (renamed_fields field_renames fs))) field_renames ≡ true
renamed_fields-done fs =
    run-done is_old_field with_name fresh_field
      (λ r s h x. second-false (is_renamed_model x.model) (str_eq s.new r.old) h) field_renames fs
      refl

-- The fields without those of the dropped columns.
abbrev pub remaining : List ColumnName → List ModelField → List ModelField
remaining [] fs = fs
remaining (c ∷ cs) fs = remaining cs (select (λ f. not (str_eq f.name c.name)) fs)

pub delete_fields-remaining :
    (cs : List ColumnName) (db : Database)
    → delete_fields cs db ≡ record db { model_fields = remaining cs db.model_fields }
unfolding delete_fields
delete_fields-remaining [] db = refl
delete_fields-remaining (c ∷ cs) db = delete_fields-remaining cs _

any-remaining :
    (p : ModelField → Bool) (cs : List ColumnName) (fs : List ModelField)
    → any p fs ≡ false
    → any p (remaining cs fs) ≡ false
any-remaining p [] fs h = h
any-remaining p (c ∷ cs) fs h =
    any-remaining p cs _ (any-select p (λ f. not (str_eq f.name c.name)) fs h)

remaining-idle :
    (cs : List ColumnName) (fs : List ModelField) → remaining cs (remaining cs fs) ≡ remaining cs fs
remaining-idle [] fs = refl
remaining-idle (c ∷ cs) fs =
    let left = select (λ f. not (str_eq f.name c.name)) fs in
    ap (remaining cs) (
      select-none (λ f. str_eq f.name c.name) (remaining cs left)
        (any-remaining (λ f. str_eq f.name c.name) cs left
          (any-select-not (λ f. str_eq f.name c.name) fs)))
    ∙ remaining-idle cs left

-- Both statements on the fields.
abbrev pub fields_after : List ModelField → List ModelField
fields_after fs = remaining columns_to_drop (renamed_fields field_renames fs)

pub fields_after-idle : (fs : List ModelField) → fields_after (fields_after fs) ≡ fields_after fs
fields_after-idle fs =
    let left = renamed_fields field_renames fs in
    ap (remaining columns_to_drop) (
      run-idle is_old_field with_name field_renames (remaining columns_to_drop left) (
        all-impl (λ r. not (any (is_old_field r) left))
          (λ r. not (any (is_old_field r) (remaining columns_to_drop left))) field_renames
          (λ r h. ap not (
            any-remaining (is_old_field r) columns_to_drop left
              (false_of-not (any (is_old_field r) left) h)))
          (renamed_fields-done fs)))
    ∙ remaining-idle columns_to_drop left
