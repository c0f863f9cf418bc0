-- ===== src/Api/Payload.antt =====
-- What is sent of a variant, and the bulk update, of models/cartona_api.py.
pub mod Resolves
use cartona_odoo.Base.{
  ℕ, String, Bool, true, false, not, Option, none, some, List, [], ◌∷◌, if◌then◌else◌,
}
use cartona_odoo.Py.Number.{ℤ, pos, decimal}
use cartona_odoo.Py.Json.{
  bool, int, str, arr, obj, Items, nil, cons, Fields, field, end, Python, get_none, truthy,
}
use cartona_odoo.Config.Data.{Config}
use cartona_odoo.Order.Resolve.{Variant}
use cartona_odoo.Product.Trigger.{SyncFields}
use cartona_odoo.Api.Request.{Net, Method, put, make_api_request, normalize_api_response}

-- What is read of a variant for its payload: the price in a company, the free quantity in a
-- warehouse or in all, cut to an integer, and the flag for unlimited stock.
pub record Shelf : Type 0 where
  pub lst_price : ℕ → ℕ → String
  pub free_qty : ℕ → Option ℕ → ℤ
  pub is_unlimited_stock : ℕ → Bool

abbrev pub wants_price : SyncFields → Bool
wants_price SyncFields.stock = false
wants_price _ = true

abbrev pub wants_stock : SyncFields → Bool
wants_stock SyncFields.price = false
wants_stock _ = true

abbrev pub fields_name : SyncFields → String
fields_name SyncFields.price = "price"
fields_name SyncFields.stock = "stock"
fields_name SyncFields.both = "both"

-- The warehouse in the context, or the configuration's.
unfoldable pub resolve_sync_warehouse : Option ℕ → Config → Option ℕ
resolve_sync_warehouse none c = some c.warehouse_id
resolve_sync_warehouse (some w) c = some w

unfoldable pub build_variant_payload : Shelf → Variant → SyncFields → ℕ → Option ℕ → Fields
build_variant_payload shelf v fields company warehouse =
    let base = field "internal_product_id" (str (decimal v.id)) end in
    let priced =
      if wants_price fields
      then put "selling_price" (str (shelf.lst_price v.id company)) base
      else base in
    if not (wants_stock fields)
    then priced
    else if shelf.is_unlimited_stock v.id
    then put "is_unlimited_stock" (bool true) priced
    else put "available_stock_quantity" (int (shelf.free_qty v.id warehouse))
        (put "is_unlimited_stock" (bool false) priced)

abbrev pub error_result : String → Fields
error_result e = field "success" (bool false) (field "error" (str e) end)

pub payloads : Shelf → SyncFields → ℕ → Option ℕ → List Variant → Items
payloads shelf fields company warehouse [] = nil
payloads shelf fields company warehouse (v ∷ vs) =
    cons (obj (build_variant_payload shelf v fields company warehouse))
      (payloads shelf fields company warehouse vs)

pub ids_json : List Variant → Items
ids_json [] = nil
ids_json (v ∷ vs) = cons (int (pos v.id)) (ids_json vs)

module _ (P : Python) (net : Net) (shelf : Shelf) where
  -- `if result.get(key): normalized[key] = result[key]`
  pub keep_text : Fields → String → Fields → Fields
  keep_text result key fs =
      if truthy P (get_none result key) then put key (get_none result key) fs else fs

  pub finish_bulk : SyncFields → List Variant → Fields → Fields
  unfolding keep_text ids_json
  finish_bulk fields vs result = put "variant_ids" (arr (ids_json vs)) (
      put "sync_fields" (str (fields_name fields)) (
        keep_text result "response_data"
          (keep_text result "request_data" (normalize_api_response result))))

  unfoldable pub bulk_update_products : Config → Option ℕ → SyncFields → List Variant → Fields
  unfolding finish_bulk ids_json payloads
  bulk_update_products c context fields [] = error_result "No variants"
  bulk_update_products c context fields (v ∷ vs) =
      if not c.is_cartona_sync_enabled
      then error_result "Cartona sync disabled"
      else finish_bulk fields (v ∷ vs) (
          make_api_request net c "supplier-product/bulk-update" Method.http_post
            (arr (payloads shelf fields c.company_id (resolve_sync_warehouse context c) (v ∷ vs)))
            none)
