-- ===== src/Order/Validate.antt =====
-- `_validate_order_data` of models/cartona_order_processor.py. A payload
-- is any JSON value; what the code does not guard against raises.
pub mod Laws
pub mod Sound
use cartona_odoo.Base.{
  String, Bool, not, ◌<>◌, Option, none, some, List, [], ◌∷◌, ◌++◌, if◌then◌else◌,
}
use cartona_odoo.Py.Exn.{Result, ok, err, raise, type_error, value_error, ◌>>=◌}
use cartona_odoo.Py.Number.{ℤ, pos}
use cartona_odoo.Py.Json.{
  Json, null, int, str, arr, obj, nil, cons, Fields, items, Python, get, get_or, get_none, has,
  truthy, or_json, str_json, float_json, gt_zero_json, as_dict, is_text,
}
use cartona_odoo.Config.Data.{Config}
use cartona_odoo.Order.Data.{
  Text, DeliveredBy, delivered_by_supplier, delivered_by_cartona, PaymentMethod, standard,
  installment, wallet_top_up, cartona_credit,
}
use cartona_odoo.Order.Issue.{
  Status, order, order_line, ErrorCode, missing_internal_product_id, missing_order_fields,
  invalid_order_details, no_valid_order_lines, other, Issue, order_identifiers, line_identifiers,
  make_issue, text,
}
use cartona_odoo.Order.Retailer.{Customer, customer_of}
use cartona_odoo.Order.Resolve.{Variant, Resolution, resolved, unresolved, resolve_variant}
use cartona_odoo.Order.Item.{
  Checked, Item, accepted, caught_float, check_quantity, item_verdict, label, normalize_item,
  order_label, reject, rejected, resolve_item, validate_fields, validate_order_item,
}

-- `order_date` is empty where the code takes the present time.
pub record Validated (F : Type 0) : Type 0 where
  pub order_id : Json
  pub cartona_order_number : Json
  pub status : Json
  pub total_amount : Json
  pub currency : String
  pub order_date : Option Json
  pub delivered_by : DeliveredBy
  pub payment_method : PaymentMethod
  pub pickup_otp : Json
  pub customer_data : Customer
  pub order_lines : List (Item F)

delivered_by_of : Json → DeliveredBy
delivered_by_of v =
    if is_text v "delivered_by_cartona" then delivered_by_cartona else delivered_by_supplier

-- `[f for f in required_fields if f not in order_data]`
missing_fields : Fields → List String → List String
missing_fields fs [] = []
missing_fields fs (f ∷ rest) =
    let later = missing_fields fs rest in if has fs f then later else f ∷ later

abbrev required_fields : List String
required_fields = "hashed_id" ∷ "retailer" ∷ "order_details" ∷ []

-- `', '.join(fields)`
join : List String → String
join [] = ""
join (f ∷ []) = f
join (f ∷ g ∷ rest) = f <> ", " <> join (g ∷ rest)

module _ (P : Python) (browse : ℤ → Option Variant) (config : Config) where
  open P use {Float}

  -- An order-level error of the validation.
  invalid : Option Json → Text → ErrorCode → List Issue
  invalid order_data message code =
      make_issue P Status.error order message order_data none (some code) none ∷ []

  rejected_order : Json → Issue
  unfolding label
  rejected_order order_data =
      make_issue P Status.error order
        (text "Order %(order)s rejected: all order lines must be valid"
          (label P browse config order_data ∷ []))
        (some order_data) none (some no_valid_order_lines) none

  -- What follows the validation of one line: the next line, or the end.
  line_then :
      Json
      → Result (Checked Float)
      → (Item Float → Result (Option (List (Item Float)) × List Issue))
      → Result (Option (List (Item Float)) × List Issue)
  unfolding rejected_order
  line_then order_data (err e) next = err e
  line_then order_data (ok (rejected issue)) next =
      ok (none, issue ∷ rejected_order order_data ∷ [])
  line_then order_data (ok (accepted item)) next = next item

  -- The loop over `order_details`: it stops at the first line that is refused.
  unfoldable pub validate_lines :
      Json → List Json → List (Item Float) → Result (Option (List (Item Float)) × List Issue)
  unfolding line_then
  validate_lines order_data [] done = ok (some done, [])
  validate_lines order_data (line ∷ rest) done =
      line_then order_data (validate_order_item P browse config line order_data)
        (λ item. validate_lines order_data rest (done ++ (item ∷ [])))

  positive : Fields → String → Result Bool
  positive fs key = gt_zero_json P (get_or fs key (int (pos 0)))

  -- The chain `if … elif … elif …` over the three amounts.
  unfoldable pub payment_method_of : Fields → Result PaymentMethod
  unfolding positive
  payment_method_of fs = do
    on_credit ← positive fs "installment_cost"
    if on_credit then ok installment else do
      topped ← positive fs "wallet_top_up"
      if topped then ok wallet_top_up else do
        credited ← positive fs "cartona_credit"
        ok (if credited then cartona_credit else standard)

  -- `normalized_data`, with the lines that the loop returns.
  normalized : Fields → Customer → PaymentMethod → List (Item Float) → Validated Float
  unfolding delivered_by_of
  normalized fs customer payment lines = record {
    order_id = get_none fs "hashed_id";
    cartona_order_number = get_or fs "receipt_id" (get_none fs "hashed_id");
    status = get_or fs "status" (str "pending");
    total_amount = get_or fs "total_price" (int (pos 0));
    currency = "EGP";
    order_date = get fs "created_at";
    delivered_by = delivered_by_of (get_or fs "delivered_by" (str "delivered_by_supplier"));
    payment_method = payment;
    pickup_otp = get_none fs "pickup_otp";
    customer_data = customer;
    order_lines = lines;
  }

  with_lines :
      Fields
      → Customer
      → PaymentMethod
      → Option (List (Item Float)) × List Issue
      → Option (Validated Float) × List Issue
  unfolding normalized
  with_lines fs customer payment (none, issues) = (none, issues)
  with_lines fs customer payment (some lines, issues) =
      (some (normalized fs customer payment lines), issues)

  -- The part behind the checks of the payload's shape.
  validate_details : Fields → List Json → Result (Option (Validated Float) × List Issue)
  unfolding with_lines
  validate_details fs details = do
    customer ← customer_of P (get_none fs "retailer")
    payment ← payment_method_of fs
    checked ← validate_lines (obj fs) details []
    ok (with_lines fs customer payment checked)

  details_or_reject : Fields → Json → Result (Option (Validated Float) × List Issue)
  unfolding validate_details invalid label
  details_or_reject fs (arr (cons v vs)) = validate_details fs (v ∷ items vs)
  details_or_reject fs _ = ok (
    none,
    invalid (some (obj fs))
        (text "Order %(order)s failed validation: invalid or missing order_details"
          (label P browse config (obj fs) ∷ []))
        invalid_order_details,
  )

  validate_dict : Fields → List String → Result (Option (Validated Float) × List Issue)
  unfolding details_or_reject
  validate_dict fs [] = details_or_reject fs (get_none fs "order_details")
  validate_dict fs (f ∷ missing) = ok (
    none,
    invalid (some (obj fs))
        (text "Order %(order)s failed validation: missing fields %(fields)s"
          (label P browse config (obj fs) ∷ join (f ∷ missing) ∷ []))
        missing_order_fields,
  )

  validate_value : Json → Result (Option (Validated Float) × List Issue)
  unfolding validate_dict missing_fields join
  validate_value (obj fs) = validate_dict fs (missing_fields fs required_fields)
  validate_value _ =
      ok (
        none,
        invalid none (text "Invalid order payload type from Cartona" []) invalid_order_details,
      )

  -- The result is the validated order, or `none` for a refusal, beside the issues.
  unfoldable pub validate_order_data : Json → Result (Option (Validated Float) × List Issue)
  unfolding validate_value
  validate_order_data (arr nil) = ok (
    none,
    invalid none (text "Empty order payload received from Cartona" []) invalid_order_details,
  )
  validate_order_data (arr (cons v vs)) = validate_value v
  validate_order_data v = validate_value v
