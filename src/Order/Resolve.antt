-- ===== src/Order/Resolve.antt =====
-- `_resolve_variant` of models/cartona_order_processor.py: from an `internal_product_id` to a
-- variant that may be sold under the configuration.
pub mod Laws
use cartona_odoo.Base.{
  ℕ, String, Bool, false, not, ◌||◌, Option, none, some, [], ◌∷◌, str_eq, ◌==◌, if◌then◌else◌,
}
use cartona_odoo.Py.Number.{ℤ, int_of_text}
use cartona_odoo.Config.Data.{Config}
use cartona_odoo.Order.Data.{Text}
use cartona_odoo.Order.Issue.{
  ErrorCode, missing_internal_product_id, invalid_internal_product_id, variant_not_found,
  variant_not_available, text,
}

-- The fields of `product.product` that are read; `company_id` is empty for a shared variant.
pub record Variant : Type 0 where
  pub id : ℕ
  pub name : String
  pub active : Bool
  pub sale_ok : Bool
  pub company_id : Option ℕ

pub data Resolution : Type 0 where
  resolved : Variant → Resolution
  unresolved : ErrorCode → Text → Resolution

-- `variant.company_id and variant.company_id != config.company_id`
unfoldable pub foreign : Option ℕ → ℕ → Bool
foreign none company = false
foreign (some c) company = not (c == company)

-- The checks on a variant that exists.
unfoldable pub check_variant : String → Config → Variant → Resolution
unfolding foreign
check_variant value config v =
    if not v.active || not v.sale_ok
    then unresolved variant_not_available
        (text "Odoo variant %(value)s exists but is inactive or not for sale" (value ∷ []))
    else if foreign v.company_id config.company_id
    then unresolved variant_not_available
        (text "Odoo variant %(value)s belongs to another company" (value ∷ []))
    else resolved v

-- `browse` is `env['product.product'].browse(id)`, with `none` where it does not exist.
module _ (browse : ℤ → Option Variant) where
  lookup_variant : String → Config → Option ℤ → Resolution
  unfolding check_variant
  lookup_variant value config none =
      unresolved invalid_internal_product_id
        (text "internal_product_id \"%(value)s\" is not a valid Odoo variant id" (value ∷ []))
  lookup_variant value config (some id) = elim (browse id) [
    | none ↦
        unresolved variant_not_found
          (text "internal_product_id %(value)s does not match any Odoo variant" (value ∷ []))
    | some v ↦ check_variant value config v
  ]

  unfoldable pub resolve_variant : String → Config → Resolution
  unfolding lookup_variant
  resolve_variant value config =
      if str_eq value ""
      then unresolved missing_internal_product_id
          (text "missing internal_product_id on order line" [])
      else lookup_variant value config (int_of_text value)
