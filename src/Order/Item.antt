-- ===== src/Order/Item.antt =====
-- `_validate_order_item` of models/cartona_order_processor.py. A payload is any JSON value; what the
-- code does not guard against raises.
use cartona_odoo.Base.{String, not, Option, none, some, [], ◌∷◌, if◌then◌else◌}
use cartona_odoo.Py.Exn.{Result, ok, err, type_error, value_error, ◌>>=◌}
use cartona_odoo.Py.Number.{ℤ, pos}
use cartona_odoo.Py.Json.{
  Json, null, int, str, obj, Fields, Python, get_or, get_none, has, truthy, or_json, str_json,
  float_json,
}
use cartona_odoo.Config.Data.{Config}
use cartona_odoo.Order.Issue.{
  Status, order_line, ErrorCode, missing_internal_product_id, invalid_order_details, other, Issue,
  order_identifiers, line_identifiers, make_issue, text,
}
use cartona_odoo.Order.Resolve.{Variant, Resolution, resolved, unresolved, resolve_variant}

-- A validated order line.
pub record Item (F : Type 0) : Type 0 where
  pub internal_product_id : String
  pub quantity : F
  pub unit_price : F
  pub total_price : F
  pub cartona_line_id : Json
  pub comment : Json

-- What the validation of a line returns: the line, or the issue.
pub data Checked (F : Type 0) : Type 0 where
  accepted : Item F → Checked F
  rejected : Issue → Checked F

module _ (P : Python) (browse : ℤ → Option Variant) (config : Config) where
  open P use {Float, mul, le_zero}

  -- `order_ref.get('cartona_order_number') or order_ref.get('cartona_order_id') or '?'`
  unfoldable pub order_label : Json → Json
  order_label order_data = elim (order_identifiers P order_data) [
    | none ↦ str "?"
    | some r ↦ or_json P (or_json P r.order_number r.order_id) (str "?")
  ]

  unfoldable pub label : Json → String
  unfolding order_label
  label order_data = str_json P (order_label order_data)

  -- The issue of a rejected line.
  pub reject : Json → Fields → ErrorCode → String → Issue
  unfolding label
  reject order_data item code template =
      make_issue P Status.error order_line
        (text template
          (label order_data ∷ str_json P (or_json P (get_none item "id") (str "?")) ∷ []))
        (some order_data)
        (some (
          line_identifiers P (get_none item "id") (get_none item "cartona_line_id")
            (get_none item "internal_product_id")))
        (some code) none

  unfoldable pub item_verdict : Json → Fields → Item Float → Resolution → Checked Float
  unfolding label
  item_verdict order_data item n (resolved v) = accepted n
  item_verdict order_data item n (unresolved code message) = rejected (
      make_issue P Status.error order_line
        (text "Order %(order)s: order detail #%(line)s: %(detail)s" (
          label order_data
          ∷ str_json P (or_json P (get_none item "id") (str "?"))
          ∷ message.template
          ∷ message.args))
        (some order_data)
        (some (line_identifiers P null n.cartona_line_id (str n.internal_product_id))) (some code)
        none)

  -- The end of the check: the variant of the normalized line.
  unfoldable pub resolve_item : Json → Fields → Item Float → Checked Float
  unfolding item_verdict
  resolve_item order_data item n =
      item_verdict order_data item n (resolve_variant browse n.internal_product_id config)

  unfoldable pub normalize_item : Json → Fields → Float → Result (Checked Float)
  unfolding resolve_item
  normalize_item order_data item quantity = do
    price ← float_json P (get_or item "selling_price" (int (pos 0)))
    ok (
        resolve_item order_data item (record {
          internal_product_id = str_json P (get_none item "internal_product_id");
          quantity = quantity;
          unit_price = price;
          total_price = mul price quantity;
          cartona_line_id = get_none item "id";
          comment = get_none item "comment";
        }))

  -- `float(item_data['amount'])` inside its `try`: `none` is a caught exception.
  pub caught_float : Json → Result (Option Float)
  caught_float v = elim (float_json P v) [
    | ok x ↦ ok (some x)
    | err e ↦ elim e.kind [ type_error ↦ ok none | value_error ↦ ok none | _ ↦ err e ]
  ]

  unfoldable pub check_quantity : Json → Fields → Option Float → Result (Checked Float)
  unfolding normalize_item reject
  check_quantity order_data item none = ok (
      rejected
        (reject order_data item other "Order %(order)s: order detail #%(line)s has invalid amount"))
  check_quantity order_data item (some quantity) =
      if le_zero quantity
      then ok (
          rejected (
            reject order_data item other
              "Order %(order)s: order detail #%(line)s must have amount > 0"))
      else normalize_item order_data item quantity

  unfoldable pub validate_fields : Json → Fields → Result (Checked Float)
  unfolding check_quantity caught_float reject
  validate_fields order_data item =
      if not (truthy P (get_none item "internal_product_id"))
      then ok (
          rejected (
            reject order_data item missing_internal_product_id
              "Order %(order)s: order detail #%(line)s missing internal_product_id"))
      else if not (has item "amount")
      then ok (
          rejected
            (reject order_data item other "Order %(order)s: order detail #%(line)s missing amount"))
      else (caught_float (get_none item "amount") >>= check_quantity order_data item)

  unfoldable pub validate_order_item : Json → Json → Result (Checked Float)
  unfolding validate_fields label
  validate_order_item (obj item) order_data = validate_fields order_data item
  validate_order_item _ order_data = ok (
      rejected (
        make_issue P Status.error order_line
          (text "Order %(order)s: invalid order detail payload" (label order_data ∷ []))
          (some order_data) none (some invalid_order_details) none))
