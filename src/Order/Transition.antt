-- ===== src/Order/Transition.antt =====
-- `_apply_cartona_state_action` and `_complete_delivery` of models/cartona_order_processor.py, and
-- the fixed state mapping of models/cartona_config.py. An order is changed in place: an action
-- returns the order that it leaves, also where it raises.
pub mod Laws
use cartona_odoo.Base.{
  ℕ, String, Bool, true, false, not, ◌&&◌, ◌||◌, ◌<>◌, Option, none, some, List, [], ◌∷◌, map,
  str_eq, ◌==◌, if◌then◌else◌, select, find, is_empty,
}
use cartona_odoo.Py.Exn.{Exn, Result, ok, err, Act, after, when, ◌>>=◌}
use cartona_odoo.Py.Json.{Json, Python, is_text, hashable, str_json}
use cartona_odoo.Order.Data.{
  Order, OrderState, draft, sale, cancel, SyncStatus, PickingState, MoveState, Move, Picking, Text,
  is_draft, is_closed,
}
use cartona_odoo.Order.Issue.{text}

-- What Odoo does to an order and its deliveries when it is called; each call may raise.
pub record Odoo (F : Type 0) : Type 0 where
  -- `sale.order.action_confirm` and `sale.order._action_cancel`
  pub action_confirm : Act (Order F)
  pub action_cancel : Act (Order F)
  -- `stock.picking.action_assign` and `button_validate` of one delivery, by its id
  pub action_assign : ℕ → Act (Order F)
  pub button_validate : ℕ → Act (Order F)
  -- `stock.picking.action_cancel` of several deliveries
  pub cancel_pickings : List ℕ → Act (Order F)

-- `CARTONA_STATE_MAPPING.get(status, 'draft')`
unfoldable pub map_state : Json → Result OrderState
map_state status = do
  key ← hashable status
  ok (
      if is_text key "approved" || is_text key "assigned_to_salesman" || is_text key "delivered"
      then sale
      else if is_text key "cancelled"
          || is_text key "cancelled_by_supplier"
          || is_text key "cancelled_by_retailer"
      then OrderState.cancel
      else OrderState.draft)

-- `status in _CANCEL_STATUSES`
unfoldable pub is_cancel_status : Json → Result Bool
is_cancel_status status = do
  key ← hashable status
  ok (
      is_text key "cancelled"
      || is_text key "cancelled_by_retailer"
      || is_text key "cancelled_by_supplier")

abbrev pub is_waiting : PickingState → Bool
is_waiting PickingState.confirmed = true
is_waiting PickingState.waiting = true
is_waiting _ = false

abbrev pub is_assigned : PickingState → Bool
is_assigned PickingState.assigned = true
is_assigned _ = false

abbrev pub is_done : PickingState → Bool
is_done PickingState.done = true
is_done _ = false

-- `state not in ('done', 'cancel')`
abbrev pub is_open : PickingState → Bool
is_open PickingState.done = false
is_open PickingState.cancel = false
is_open _ = true

abbrev is_movable : MoveState → Bool
is_movable MoveState.confirmed = true
is_movable MoveState.waiting = true
is_movable MoveState.assigned = true
is_movable _ = false

module _ {F : Type 0} where
  abbrev pub ids : List (Picking F) → List ℕ
  ids = map (λ p. p.id)

  -- The delivery of that id as it stands now.
  abbrev pub picking : ℕ → Order F → Option (Picking F)
  picking id o = find (λ p. p.id == id) o.picking_ids

  abbrev pub state_is : (PickingState → Bool) → Option (Picking F) → Bool
  state_is test none = false
  state_is test (some p) = test p.state

  fill_move : Move F → Move F
  fill_move m = if is_movable m.state then record m { quantity = m.product_uom_qty } else m

  fill_picking : ℕ → Picking F → Picking F
  unfolding fill_move
  fill_picking id p = if p.id == id then record p { move_ids = map fill_move p.move_ids } else p

  -- The moves' quantities of one delivery are set to the demand.
  unfoldable pub fill_moves : ℕ → Order F → Order F
  unfolding fill_picking
  fill_moves id o = record o { picking_ids = map (fill_picking id) o.picking_ids }

  unfoldable pub done_pickings : Order F → List (Picking F)
  done_pickings o = select (λ p. p.outgoing && is_done p.state) o.picking_ids

  -- `write({'cartona_sync_status': 'error', 'cartona_error_message': message})`
  unfoldable pub mark_error : Text → Order F → Order F
  mark_error message o = record o {
    cartona_sync_status = SyncStatus.error;
    cartona_error_message = some message;
  }

  abbrev names : List (Picking F) → String
  names [] = ""
  names (p ∷ []) = p.name
  names (p ∷ q ∷ ps) = p.name <> ", " <> names (q ∷ ps)

  abbrev pub blocked : String → List (Picking F) → Text
  blocked status done =
      text
        "Cartona sent '%s' but the order has a validated delivery (%s). Manual cancellation / return required."
        (status ∷ names done ∷ [])

module _ {F : Type 0} (odoo : Odoo F) where
  open odoo use {action_confirm, action_cancel, action_assign, button_validate, cancel_pickings}

  -- What raises in here is logged and dropped.
  unfoldable pub complete_delivery : ℕ → Order F → Order F
  unfolding fill_moves
  complete_delivery id o =
      let filled = fill_moves id o in
      if state_is is_assigned (picking id filled) then (button_validate id filled).1 else filled

  -- `if order.state == 'draft': order_ctx.action_confirm()`
  confirm_draft : Act (Order F)
  confirm_draft o = when (is_draft o.state) action_confirm o

  -- `action_assign` on each delivery, whose failure is only logged.
  assign_each : List ℕ → Order F → Order F
  assign_each [] o = o
  assign_each (id ∷ rest) o = assign_each rest (action_assign id o).1

  assign_waiting : Act (Order F)
  unfolding assign_each
  assign_waiting o =
      (none, assign_each (ids (select (λ p. p.outgoing && is_waiting p.state) o.picking_ids)) o)

  deliver : ℕ → Act (Order F)
  unfolding complete_delivery
  deliver id =
      after (λ o. when (state_is is_waiting (picking id o)) (action_assign id) o)
        (λ o. (none, if state_is is_assigned (picking id o) then complete_delivery id o else o))

  deliver_each : List ℕ → Act (Order F)
  unfolding deliver
  deliver_each [] o = (none, o)
  deliver_each (id ∷ rest) o = after (deliver id) (deliver_each rest) o

  deliver_all : Act (Order F)
  unfolding deliver_each
  deliver_all o = deliver_each (ids (select (λ p. p.outgoing) o.picking_ids)) o

  abbrev finish : Bool → Option Exn × Order F → Result Bool × Order F
  finish b (none, o) = (ok b, o)
  finish b (some e, o) = (err e, o)

  -- The branch of the cancelling statuses.
  cancel_order : String → Order F → Result Bool × Order F
  unfolding done_pickings mark_error
  cancel_order status o =
      if is_closed o.state
      then (ok true, o)
      else if not (is_empty (done_pickings o))
      then (ok false, mark_error (blocked status (done_pickings o)) o)
      else finish true (
          after (cancel_pickings (ids (select (λ p. is_open p.state) o.picking_ids))) action_cancel
            o)

  cancel_branch : String → Result Bool → Order F → Result Bool × Order F
  unfolding cancel_order
  cancel_branch status (err e) o = (err e, o)
  cancel_branch status (ok true) o = cancel_order status o
  cancel_branch status (ok false) o = (ok true, o)

  module _ (P : Python) where
    -- The body of the `try`.
    state_action : Json → Order F → Result Bool × Order F
    unfolding confirm_draft assign_waiting deliver_all cancel_branch
    state_action status o =
        if is_text status "approved"
        then finish true (confirm_draft o)
        else if is_text status "assigned_to_salesman"
        then finish true (after confirm_draft assign_waiting o)
        else if is_text status "delivered"
        then finish true (after confirm_draft deliver_all o)
        else cancel_branch (str_json P status) (is_cancel_status status) o

    -- The handler: an exception marks the order and is reported as a failure.
    handled : Result Bool × Order F → Bool × Order F
    unfolding mark_error
    handled (ok b, o) = (b, o)
    handled (err e, o) = (false, mark_error (text "State transition error: %s" (e.text ∷ [])) o)

    unfoldable pub apply_cartona_state_action : Json → Order F → Bool × Order F
    unfolding handled state_action
    apply_cartona_state_action status o = handled (state_action status o)
