-- ===== src/Order/Retailer.antt =====
-- The retailer of a payload in `_validate_order_data` of models/cartona_order_processor.py.
use cartona_odoo.Base.{String, ◌<>◌, Option, none, some, if◌then◌else◌}
use cartona_odoo.Py.Exn.{Result, ok, raise, type_error, ◌>>=◌}
use cartona_odoo.Py.Json.{
  Json, str, Fields, Python, get_or, get_none, truthy, or_json, str_json, as_dict,
}

pub record Customer : Type 0 where
  pub retailer_name : Json
  pub retailer_code : Json
  pub retailer_number : Json
  pub retailer_email : Json
  pub retailer_address : Json
  pub external_id : String

module _ (P : Python) where
  open P use {hash_text}

  or_hash : Option String → Result Json
  or_hash none = raise type_error "unhashable type"
  or_hash (some h) = ok (str h)

  -- `retailer_code or id or retailer_id or str(hash(retailer_name))[:8]`
  code_of : Fields → Json → Result Json
  unfolding or_hash
  code_of r name =
      let code =
        or_json P (or_json P (get_none r "retailer_code") (get_none r "id"))
          (get_none r "retailer_id") in
      if truthy P code then ok code else or_hash (hash_text name)

  unfoldable pub customer_of : Json → Result Customer
  unfolding code_of
  customer_of retailer = do
    r ← as_dict retailer
    let name =
        or_json P (or_json P (get_none r "retailer_name") (get_none r "name"))
          (str "Cartona Customer")
    code ← code_of r name
    ok (record {
      retailer_name = name;
      retailer_code = code;
      retailer_number = get_or r "retailer_number" (str "");
      retailer_email = get_or r "retailer_email" (str "");
      retailer_address = get_or r "retailer_address" (str "");
      external_id = "retailer_" <> str_json P code;
    })
