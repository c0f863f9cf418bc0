-- ===== src/Partner.antt =====
-- models/res_partner.py: the customer of an inbound order is found or created.
pub mod Laws
use cartona_odoo.Base.{
  ℕ, String, Bool, true, false, ◌&&◌, ◌||◌, ◌<>◌, Option, none, some, List, [], ◌∷◌, ◌++◌, map,
  str_eq, ◌==◌, if◌then◌else◌, find, or_else, option_eq, is_id,
}
use Prim.Native.Char.{code}
use text.Mathlib.Text.{starts_with}
use cartona_odoo.Py.Exn.{Exn, Result, ok, err, ◌>>=◌}
use cartona_odoo.Py.Json.{Json, null, str, Fields, Python, get_none, or_json, truthy, str_json}
use cartona_odoo.Order.Data.{to_char}
use cartona_odoo.Config.Data.{Config}

pub record Partner : Type 0 where
  pub id : ℕ
  pub name : Option String
  pub company_id : Option ℕ
  pub phone : Option String
  pub email : Option String
  pub street : Option String
  pub country_id : Option ℕ
  pub is_company : Bool
  pub customer_rank : ℕ
  pub cartona_id : Option String
  pub cartona_config_id : Option ℕ
  pub is_cartona_customer : Bool
  pub cartona_sync_date : Option ℕ

-- What is asked of Odoo: the new row of a `create`, which may raise, and the two searches of
-- `res.country`, by code and by name.
pub record Directory : Type 0 where
  pub create_partner : List Partner → Partner → Result Partner
  pub country_by_code : String → Option ℕ
  pub country_by_name : String → Option ℕ
  pub upper : String → String

-- `s.replace('+', '')`
drop_plus : String → String
drop_plus String.[] = ""
drop_plus (String.◌∷◌ c s) =
    let rest = drop_plus s in if code c == 43 then rest else String.◌∷◌ c rest

-- `s.replace(' ', '_')`
spaces_to_underscores : String → String
spaces_to_underscores String.[] = ""
spaces_to_underscores (String.◌∷◌ c s) =
    let rest = spaces_to_underscores s in if code c == 32 then "_" <> rest else String.◌∷◌ c rest

module _ (P : Python) where
  unfoldable pub retailer_name : Fields → Json
  retailer_name d =
      or_json P (or_json P (get_none d "retailer_name") (get_none d "name"))
        (str "Cartona Customer")

  unfoldable pub retailer_number : Fields → Json
  retailer_number d =
      or_json P (or_json P (get_none d "retailer_number") (get_none d "phone"))
        (get_none d "retailer_code")

  unfoldable pub retailer_code : Fields → Json
  retailer_code d =
      or_json P
        (or_json P (or_json P (get_none d "retailer_code") (get_none d "external_id"))
          (get_none d "id"))
        (get_none d "retailer_id")

  -- `now` is the text of the present time. The name is kept: it is the default one where the last
  -- case would set it.
  unfoldable pub external_id : String → Json → Json → Json → String
  unfolding drop_plus spaces_to_underscores
  external_id now name number code =
      if truthy P code
      then "retailer_" <> str_json P code
      else if truthy P name && truthy P number
      then spaces_to_underscores
          (drop_plus ("retailer_" <> str_json P name <> "_" <> str_json P number))
      else if truthy P name
      then spaces_to_underscores ("retailer_" <> str_json P name)
      else if truthy P number
      then drop_plus ("retailer_" <> str_json P number)
      else "retailer_unknown_" <> now

-- `('company_id', 'in', [company.id, False])`
abbrev pub shared_or : ℕ → Option ℕ → Bool
shared_or company none = true
shared_or company (some c) = c == company

-- The domain of the search.
unfoldable pub matches : Config → String → Option String → Option String → Partner → Bool
matches config external number name p =
    shared_or config.company_id p.company_id
    && is_id config.id p.cartona_config_id
    && (option_eq p.cartona_id (some external) || option_eq p.phone number || option_eq p.name name)

replace_row : Partner → Partner → Partner
replace_row p q = if q.id == p.id then p else q

-- A write to one row of the table.
unfoldable pub put_partner : Partner → List Partner → List Partner
unfolding replace_row
put_partner p = map (replace_row p)

module _ (P : Python) (dir : Directory) (now : ℕ) where
  open dir use {create_partner, country_by_code, country_by_name, upper}

  unfoldable pub find_country_id : String → Option ℕ
  find_country_id name =
      if str_eq name "" then none else or_else (country_by_code (upper name)) (country_by_name name)

  if_truthy : Json → Option String → Option String
  if_truthy v old = if truthy P v then to_char P v else old

  unfoldable pub update_from_cartona_data : Fields → Config → Partner → Partner
  unfolding if_truthy
  update_from_cartona_data d config p = record p {
    cartona_sync_date = some now;
    cartona_config_id = some config.id;
    name = if_truthy (get_none d "name") p.name;
    email = if_truthy (get_none d "email") p.email;
    phone = if_truthy (get_none d "phone") p.phone;
  }

  -- The values of a new customer. A value `None` is left out, which leaves the field empty.
  unfoldable pub new_partner : Fields → Config → String → Partner
  unfolding find_country_id
  new_partner d config external = record {
    id = 0;
    name = to_char P (retailer_name P d);
    company_id = some config.company_id;
    phone = to_char P (retailer_number P d);
    email = to_char P (or_json P (get_none d "retailer_email") (get_none d "email"));
    street = to_char P (or_json P (get_none d "retailer_address") (get_none d "street"));
    country_id = find_country_id "Egypt";
    is_company = false;
    customer_rank = 1;
    cartona_id = some external;
    cartona_config_id = some config.id;
    is_cartona_customer = true;
    cartona_sync_date = some now;
  }

  -- The `create` of this model: a retailer's id marks the partner as a Cartona customer, unless the
  -- caller says otherwise; here it says the same.
  unfoldable pub with_default : Option Bool → Option String → Bool
  with_default (some given) cartona_id = given
  with_default none none = false
  with_default none (some id) = starts_with id "retailer_"

  created : List Partner → Result Partner → Result (Option ℕ) × List Partner
  created ps (err e) = (err e, ps)
  created ps (ok p) = (ok (some p.id), ps ++ (p ∷ []))

  found_or_created :
      Fields → Config → String → Option Partner → List Partner → Result (Option ℕ) × List Partner
  unfolding new_partner update_from_cartona_data put_partner created
  found_or_created d config external none ps =
      created ps (create_partner ps (new_partner d config external))
  found_or_created d config external (some p) ps =
      (ok (some p.id), put_partner (update_from_cartona_data d config p) ps)

  unfoldable pub external_of : String → Fields → String
  external_of stamp d =
      external_id P stamp (retailer_name P d) (retailer_number P d) (retailer_code P d)

  -- The partner that the search returns.
  unfoldable pub search_partner : Fields → Config → String → List Partner → Option Partner
  search_partner d config external ps =
      find
        (matches config external (to_char P (retailer_number P d)) (to_char P (retailer_name P d)))
        ps

  -- The id of the partner, none for empty data, and the table.
  unfoldable pub find_or_create_cartona_customer :
      String → Fields → Config → List Partner → Result (Option ℕ) × List Partner
  unfolding found_or_created search_partner external_of
  find_or_create_cartona_customer stamp Fields.end config ps = (ok none, ps)
  find_or_create_cartona_customer stamp (Fields.field k v fs) config ps =
      let d = Fields.field k v fs in
      let external = external_of stamp d in
      found_or_created d config external (search_partner d config external ps) ps
