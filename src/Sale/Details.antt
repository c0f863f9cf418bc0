-- ===== src/Sale/Details.antt =====
-- `_sync_order_details_to_cartona` and `_sync_cancelled_line_to_cartona` of models/sale_order.py.
pub mod Laws
use cartona_odoo.Base.{
  ℕ, String, Bool, true, false, not, ◌||◌, Option, none, some, List, [], ◌∷◌, str_eq, length,
  if◌then◌else◌,
}
use cartona_odoo.Py.Exn.{Result, ok, err}
use cartona_odoo.Py.Number.{ℤ, decimal, int_of_text}
use cartona_odoo.Py.Json.{
  Json, bool, int, str, obj, Items, nil, cons, Fields, field, end, Python, items,
}
use cartona_odoo.Config.Data.{Config}
use cartona_odoo.Order.Data.{Order, Line, synced}
use cartona_odoo.Order.Issue.{Status, text}
use cartona_odoo.Order.World.{filled}
use cartona_odoo.Log.{Logs, Caller}
use cartona_odoo.Api.Request.{Net, successful, update_order_details}
use cartona_odoo.Sale.Triggers.{config_of}
use cartona_odoo.Sale.Status.{set_syncing, set_error, set_synced, error_of, order_log, logged}

-- `line.cartona_line_notes or ''`
abbrev or_blank : Option String → String
or_blank none = ""
or_blank (some s) = s

-- `json_float` is how a float stands in the JSON of a request.
module _ {F : Type 0} (json_float : F → Json) where
  own_line : ℤ → Line F → Json
  own_line i l = obj (
      field "id" (int i) (
        field "amount" (json_float l.product_uom_qty) (
          field "price" (json_float l.price_unit)
            (field "comment" (str (or_blank l.cartona_line_notes)) end))))

  new_line : ℕ → Line F → Json
  new_line product_id l = obj (
      field "internal_product_id" (str (decimal product_id)) (
        field "amount" (json_float l.product_uom_qty)
          (field "price" (json_float l.price_unit) end)))

  -- `elif line.product_id`
  product_line : Option ℕ → Line F → Option Json
  unfolding new_line
  product_line none l = none
  product_line (some p) l = some (new_line p l)

  -- A line with an id of Cartona's that is no number is left out, and so is one with neither id nor
  -- product.
  line_detail : Line F → Option Json
  unfolding own_line product_line
  line_detail l = elim l.cartona_line_id [
    | none ↦ product_line l.product_id l
    | some t ↦
        if str_eq t ""
        then product_line l.product_id l
        else elim (int_of_text t) [ none ↦ none | some i ↦ some (own_line i l) ]
  ]

  unfoldable pub order_details : List (Line F) → Items
  unfolding line_detail
  order_details [] = nil
  order_details (l ∷ ls) = elim (line_detail l) [
    | none ↦ order_details ls
    | some d ↦ cons d (order_details ls)
  ]

abbrev pub is_nil : Items → Bool
is_nil nil = true
is_nil (cons _ _) = false

module _ (P : Python) (net : Net) (now : ℕ) (caller : Caller) (json_float : P.Float → Json) where
  abbrev Logged : Type 0
  Logged = Result (Order P.Float × Logs)

  unfoldable pub details_answered : Config → ℕ → Result Fields → Order P.Float → Logs → Logged
  details_answered c n (err e) o db =
      logged P net now caller
        (order_log o c.id Status.error "Exception syncing order details for order: %s" 0 0 1
          (some e.text))
        (set_error (some e.text) o) db
  details_answered c n (ok result) o db =
      if successful P result
      then logged P net now caller
          (order_log o c.id Status.success "Order details synced for order: %s" n n 0 none)
          (set_synced now o) db
      else logged P net now caller
          (order_log o c.id Status.error "Failed to sync order details for order: %s" n 0 1
            (error_of P result))
          (set_error (error_of P result) o) db

  unfoldable pub send_details : Config → Items → Order P.Float → Logs → Logged
  unfolding details_answered
  send_details c details o db =
      if is_nil details
      then ok (record o { cartona_sync_status = synced }, db)
      else details_answered c (length (items details))
          (ok (update_order_details net c o.cartona_id details)) o db

  unfoldable pub sync_details_with : Option Config → Order P.Float → Logs → Logged
  unfolding send_details
  sync_details_with none o db = ok (o, db)
  sync_details_with (some c) o db =
      if not c.is_cartona_sync_enabled || not o.is_cartona_order || not (filled o.cartona_id)
      then ok (o, db)
      else send_details c (order_details json_float o.order_line) (set_syncing o) db

  unfoldable pub sync_order_details_to_cartona : List Config → Order P.Float → Logs → Logged
  unfolding sync_details_with
  sync_order_details_to_cartona configs o db = sync_details_with (config_of configs o) o db

-- The dict that the request ends with, which the method drops.
cancelled_line : Net → ℤ → Option String → Option Config → Option Fields
cancelled_line net i id none = none
cancelled_line net i id (some c) =
    if not c.is_cartona_sync_enabled || not (filled id)
    then none
    else some (
        update_order_details net c id
          (cons (obj (field "id" (int i) (field "cancelled" (bool true) end))) nil))

unfoldable pub sync_cancelled_line_to_cartona :
    {F : Type 0} → Net → List Config → ℤ → Order F → Option Fields
unfolding cancelled_line
sync_cancelled_line_to_cartona net configs i o =
    cancelled_line net i o.cartona_id (config_of configs o)
