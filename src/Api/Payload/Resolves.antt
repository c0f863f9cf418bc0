-- ===== src/Api/Payload/Resolves.antt =====
-- The product id that models/cartona_api.py sends, as models/cartona_order_processor.py reads it.
use cartona_odoo.Base.{ℕ, ◌≡◌, refl, ap, String, true, false, Option, some, Bool-cases, inl, inr}
use cartona_odoo.Py.Number.{ℤ, pos, decimal, str_int}
use cartona_odoo.Py.Json.{str, Python, get, get_or, get_none, str_json}
use cartona_odoo.Py.Number.Decimal.{int_of_text-decimal, decimal-text}
use cartona_odoo.Config.Data.{Config}
use cartona_odoo.Order.Resolve.{Variant, resolved, foreign, resolve_variant}
use cartona_odoo.Order.Resolve.Laws.{resolve_variant-resolved}
use cartona_odoo.Product.Trigger.{SyncFields}
use cartona_odoo.Api.Request.{put}
use cartona_odoo.Api.Payload.{Shelf, build_variant_payload}

-- The other keys of the payload stand behind the id.
build_variant_payload-id :
    (shelf : Shelf) (v : Variant) (fields : SyncFields) (company : ℕ) (warehouse : Option ℕ)
    → get_none (build_variant_payload shelf v fields company warehouse) "internal_product_id"
      ≡ str (decimal v.id)
unfolding build_variant_payload get get_or put
build_variant_payload-id shelf v SyncFields.price company warehouse = refl
build_variant_payload-id shelf v SyncFields.stock company warehouse =
    elim (Bool-cases (shelf.is_unlimited_stock v.id)) [
      | inl unlimited ↦ simp unlimited refl
      | inr counted ↦ simp counted refl
    ]
build_variant_payload-id shelf v SyncFields.both company warehouse =
    elim (Bool-cases (shelf.is_unlimited_stock v.id)) [
      | inl unlimited ↦ simp unlimited refl
      | inr counted ↦ simp counted refl
    ]

module _ (P : Python) (browse : ℤ → Option Variant) (config : Config) where
  -- For a variant that is active, for sale and of no other company: whatever is sent of it, an order
  -- line with the id that was sent is a line of that variant, and its id is the text by which lines are
  -- compared.
  pub build_variant_payload-resolve_variant :
      (shelf : Shelf) (v : Variant) (fields : SyncFields) (company : ℕ) (warehouse : Option ℕ)
      → browse (pos v.id) ≡ some v
      → v.active ≡ true
      → v.sale_ok ≡ true
      → foreign v.company_id config.company_id ≡ false
      → (sent : String) × (str_json P (
            get_none (build_variant_payload shelf v fields company warehouse) "internal_product_id")
          ≡ sent)
        × (resolve_variant browse sent config ≡ resolved v)
        × (str_int (pos v.id) ≡ sent)
  unfolding str_json str_int
  build_variant_payload-resolve_variant shelf v fields company warehouse found active for_sale own =
      (
        decimal v.id,
        ap (str_json P) (build_variant_payload-id shelf v fields company warehouse),
        resolve_variant-resolved browse config (decimal v.id) v (decimal-text v.id) (record {
          id = pos v.id;
          reads = int_of_text-decimal v.id;
          exists = found;
          is_active = active;
          is_for_sale = for_sale;
          is_own = own;
        }),
        refl,
      )
