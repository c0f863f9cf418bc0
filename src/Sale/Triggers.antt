-- ===== src/Sale/Triggers.antt =====
-- The overridden `create`, `write` and `unlink` of models/sale_order.py, behind Odoo's own, and the
-- jobs that they queue; `_filter_orders_for_sync`, `_trigger_status_sync` and
-- `action_manual_sync_to_cartona`.
pub mod Laws
use cartona_odoo.Base.{
  ℕ, String, Bool, true, false, not, ◌&&◌, ◌||◌, Option, none, some, List, [], ◌∷◌, ◌++◌, map, any,
  select, find, ◌==◌, str_eq, if◌then◌else◌,
}
use cartona_odoo.Py.Exn.{Result, ok, raise, user_error}
use cartona_odoo.Py.Number.{ℤ, int_of_text}
use cartona_odoo.Config.Data.{Config}
use cartona_odoo.Order.Data.{
  Order, Line, DeliveredBy, delivered_by_supplier, delivered_by_cartona, delivered_by_nobody,
  is_cancelled,
}
use cartona_odoo.Order.World.{filled}

-- A queued method of an order, with the configuration in its context.
pub data Method : Type 0 where
  sync_status_to_cartona : Method
  sync_order_details_to_cartona : Method
  sync_cancelled_line_to_cartona : ℤ → Method
  sync_delivery_validation_to_cartona : Method

pub record Job : Type 0 where
  pub order_id : ℕ
  pub config_id : ℕ
  pub method : Method

-- `order.cartona_config_id`, as a record.
unfoldable pub config_of : {F : Type 0} → List Config → Order F → Option Config
config_of configs o = elim o.cartona_config_id [
  | none ↦ none
  | some i ↦ find (λ c. c.id == i) configs
]

abbrev pub enabled : Option Config → Bool
enabled none = false
enabled (some c) = c.is_cartona_sync_enabled

-- `_cartona_sync_active`
unfoldable pub cartona_sync_active : {F : Type 0} → List Config → Order F → Bool
unfolding config_of
cartona_sync_active configs o = enabled (config_of configs o)

abbrev has_config : Option ℕ → Bool
has_config none = false
has_config (some _) = true

-- A delivery by Cartona only tells of its cancellation, one by nobody of nothing.
abbrev may_tell : DeliveredBy → Bool → Bool
may_tell delivered_by_cartona cancelled = cancelled
may_tell delivered_by_supplier cancelled = true
may_tell delivered_by_nobody cancelled = false

unfoldable pub is_allowed : {F : Type 0} → Order F → Bool
is_allowed o =
    filled o.cartona_id
    && has_config o.cartona_config_id
    && may_tell o.delivered_by (is_cancelled o.state)

unfoldable pub filter_orders_for_sync : {F : Type 0} → List (Order F) → List (Order F)
unfolding is_allowed
filter_orders_for_sync = select is_allowed

abbrev pub job : {F : Type 0} → Method → Order F → Option ℕ → List Job
job m o none = []
job m o (some c) = record { order_id = o.id; config_id = c; method = m } ∷ []

unfoldable pub trigger_status_sync : {F : Type 0} → List (Order F) → List Job
trigger_status_sync [] = []
trigger_status_sync (o ∷ os) =
    let rest = trigger_status_sync os in
    if filled o.cartona_id then job sync_status_to_cartona o o.cartona_config_id ++ rest else rest

-- `any(field in vals for field in …)`
abbrev pub writes : List String → List String → Bool
writes fields vals = any (λ f. any (str_eq f) vals) fields

-- Behind `super().write`: `vals` are the names of the written fields, the orders are as written.
unfoldable pub write : {F : Type 0} → Bool → List Config → List String → List (Order F) → List Job
unfolding filter_orders_for_sync cartona_sync_active trigger_status_sync
write skip_cartona_sync configs vals os =
    if writes ("state" ∷ "delivery_status" ∷ []) vals && not skip_cartona_sync
    then trigger_status_sync (
        select (cartona_sync_active configs)
          (filter_orders_for_sync (select (λ o. o.is_cartona_order) os)))
    else []

abbrev by_cartona : DeliveredBy → Bool
by_cartona delivered_by_cartona = true
by_cartona _ = false

-- The notification that follows is left out.
unfoldable pub action_manual_sync_to_cartona :
    {F : Type 0} → List Config → Order F → Result (List Job)
unfolding cartona_sync_active trigger_status_sync
action_manual_sync_to_cartona configs o =
    if not (cartona_sync_active configs o)
    then raise user_error "Enable Cartona sync on configuration first."
    else if not (filled o.cartona_id)
    then raise user_error "Order sync requires External Order ID"
    else if by_cartona o.delivered_by && not (is_cancelled o.state)
    then raise user_error "Orders delivered by Cartona can only sync cancellation status"
    else ok (trigger_status_sync (o ∷ []))

-- An order of Cartona's whose configuration is enabled.
abbrev pub is_live : {F : Type 0} → List Config → Order F → Bool
is_live configs o = filled o.cartona_id && cartona_sync_active configs o

-- `_enqueue_detail_sync`, of the orders of some lines.
unfoldable pub enqueue_detail_sync : {F : Type 0} → List Config → List (Order F) → List Job
unfolding cartona_sync_active
enqueue_detail_sync configs [] = []
enqueue_detail_sync configs (o ∷ os) =
    let rest = enqueue_detail_sync configs os in
    if o.is_cartona_order && is_live configs o
    then job sync_order_details_to_cartona o o.cartona_config_id ++ rest
    else rest

-- The orders of the lines, each once, and the jobs behind `super().create`.
unfoldable pub create_lines : {F : Type 0} → Bool → List Config → List (Order F) → List Job
unfolding enqueue_detail_sync
create_lines skip_cartona_sync configs os =
    if skip_cartona_sync then [] else enqueue_detail_sync configs os

unfoldable pub write_lines :
    {F : Type 0} → Bool → List Config → List String → List (Order F) → List Job
unfolding enqueue_detail_sync
write_lines skip_cartona_sync configs vals os =
    if writes ("product_uom_qty" ∷ "price_unit" ∷ "product_id" ∷ "cartona_line_notes" ∷ []) vals
      && not skip_cartona_sync
    then enqueue_detail_sync configs os
    else []

-- `int(line.cartona_line_id)`, none where it raises.
abbrev pub line_id : {F : Type 0} → Line F → Option ℤ
line_id l = elim l.cartona_line_id [
  | none ↦ none
  | some t ↦ if str_eq t "" then none else int_of_text t
]

-- The lines of the orders that an `unlink` deletes, with the order of each.
unfoldable pub to_cancel : {F : Type 0} → List (Order F × Line F) → List (Order F × ℤ)
to_cancel [] = []
to_cancel ((o, l) ∷ ls) =
    let rest = to_cancel ls in
    elim (line_id l) [ none ↦ rest | some i ↦ if o.is_cartona_order then (o, i) ∷ rest else rest ]

unfoldable pub cancel_jobs : {F : Type 0} → List Config → List (Order F × ℤ) → List Job
unfolding cartona_sync_active
cancel_jobs configs [] = []
cancel_jobs configs ((o, i) ∷ os) =
    let rest = cancel_jobs configs os in
    if is_live configs o
    then job (sync_cancelled_line_to_cartona i) o o.cartona_config_id ++ rest
    else rest

unfoldable pub unlink_lines : {F : Type 0} → Bool → List Config → List (Order F × Line F) → List Job
unfolding to_cancel cancel_jobs
unlink_lines skip_cartona_sync configs ls =
    if skip_cartona_sync then [] else cancel_jobs configs (to_cancel ls)
