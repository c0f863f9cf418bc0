-- ===== src/Order/Resolve/Laws.antt =====
-- The variants that `_resolve_variant` of models/cartona_order_processor.py returns.
use cartona_odoo.Base.{
  String, ◌≡◌, refl, ◌∙◌, ap, true, false, Option, none, some, arith, str_eq, Option-cases,
  Bool-cases, inl, inr,
}
use cartona_odoo.Py.Number.{ℤ, int_of_text}
use cartona_odoo.Config.Data.{Config}
use cartona_odoo.Order.Resolve.{
  Variant, resolved, foreign, check_variant, lookup_variant, resolve_variant,
}

pub record IsSaleable (browse : ℤ → Option Variant) (config : Config) (value : String) (v : Variant)
    : Type 0 where
  pub id : ℤ
  pub reads : int_of_text value ≡ some id
  pub exists : browse id ≡ some v
  pub is_active : v.active ≡ true
  pub is_for_sale : v.sale_ok ≡ true
  pub is_own : foreign v.company_id config.company_id ≡ false

module _ (browse : ℤ → Option Variant) (config : Config) (value : String) where
  check_variant_lem :
      (w v : Variant)
      → check_variant value config w ≡ resolved v
      → (w ≡ v)
        × (w.active ≡ true)
        × (w.sale_ok ≡ true)
        × (foreign w.company_id config.company_id ≡ false)
  unfolding check_variant
  check_variant_lem w v h = ground arith

  lookup_variant_lem :
      (n : Option ℤ) (v : Variant)
      → int_of_text value ≡ n
      → lookup_variant browse value config n ≡ resolved v
      → IsSaleable browse config value v
  unfolding lookup_variant check_variant foreign
  lookup_variant_lem none v e h = cc
  lookup_variant_lem (some id) v e h = elim (Option-cases (browse id)) [
    | inl gone ↦ ground arith
    | inr (w, found) ↦ record {
      id = id;
      reads = e;
      exists = ground arith;
      is_active = ground arith;
      is_for_sale = ground arith;
      is_own = ground arith;
    }
  ]

  -- A value resolves only to a variant that it names and that may be sold under the configuration.
  pub resolve_variant-IsSaleable :
      (v : Variant)
      → resolve_variant browse value config ≡ resolved v
      → IsSaleable browse config value v
  unfolding resolve_variant
  resolve_variant-IsSaleable v h = elim (Bool-cases (str_eq value "")) [
    | inl empty ↦ ground arith
    | inr text ↦ lookup_variant_lem (int_of_text value) v refl (ground arith)
  ]

  lookup_variant-found :
      (v : Variant) (s : IsSaleable browse config value v)
      → lookup_variant browse value config (some s.id) ≡ resolved v
  unfolding lookup_variant check_variant foreign
  lookup_variant-found v s = ground (arith, s.exists, s.is_active, s.is_for_sale, s.is_own)

  -- A text that is not empty and names a variant for sale resolves to it.
  pub resolve_variant-resolved :
      (v : Variant)
      → str_eq value "" ≡ false
      → IsSaleable browse config value v
      → resolve_variant browse value config ≡ resolved v
  unfolding resolve_variant
  resolve_variant-resolved v text s =
      simp text (ap (lookup_variant browse value config) s.reads ∙ lookup_variant-found v s)
