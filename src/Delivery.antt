-- ===== src/Delivery.antt =====
-- The deliveries in models/stock_move.py, `action_fill_move_quantity_with_demand` and
-- `button_validate`, and the one-time password that wizards/cartona_delivery_otp_wizard.py asks for.
pub mod Laws
use cartona_odoo.Base.{
  ℕ, String, Bool, true, false, not, ◌&&◌, ◌||◌, Option, none, some, List, [], ◌∷◌, ◌++◌, map, find,
  if◌then◌else◌,
}
use cartona_odoo.Py.Exn.{Exn, Result, ok, err, ◌>>=◌}
use cartona_odoo.Py.Json.{Python}
use cartona_odoo.Config.Data.{Config}
use cartona_odoo.Order.Data.{
  Order, Picking, PickingState, Move, PaymentMethod, installment, wallet_top_up, Text, is_synced,
}
use cartona_odoo.Order.Issue.{text}
use cartona_odoo.Order.World.{filled}
use cartona_odoo.Order.Transition.{is_open, is_done}
use cartona_odoo.Log.{Logs, Caller}
use cartona_odoo.Api.Request.{Net}
use cartona_odoo.Sale.Triggers.{
  Job, Method, sync_delivery_validation_to_cartona as delivery_method, cartona_sync_active, job,
}
use cartona_odoo.Sale.Status.{by_supplier, sync_delivery_validation_to_cartona}

-- A picking and its `sale_id`.
pub record Delivery (F : Type 0) : Type 0 where
  pub picking : Picking F
  pub sale_id : Option (Order F)

-- What `button_validate` returns: the wizard's window, or what Odoo's own returns, which is `True`
-- or a window.
pub data Action : Type 0 where
  ask_otp : ℕ → Action
  finished : Action
  window : String → Action

-- Odoo's own `button_validate`, on pickings; it may raise.
abbrev pub Validate : Type 0 → Type 0
Validate F = List (Delivery F) → Result (Action × List (Delivery F))

abbrev paid_later : Option PaymentMethod → Bool
paid_later (some installment) = true
paid_later (some wallet_top_up) = true
paid_later _ = false

pub record Validation (F : Type 0) : Type 0 where
  pub action : Action
  pub deliveries : List (Delivery F)
  pub jobs : List Job

module _ {F : Type 0} where
  abbrev fill : Move F → Move F
  fill m = record m { quantity = m.product_uom_qty }

  abbrev fill_all : Picking F → Picking F
  fill_all p = record p { move_ids = map fill p.move_ids }

  unfoldable pub action_fill_move_quantity_with_demand : List (Picking F) → List (Picking F)
  action_fill_move_quantity_with_demand = map fill_all

  unfoldable pub order_needs_otp : Option (Order F) → Bool
  order_needs_otp none = false
  order_needs_otp (some o) =
      o.is_cartona_order
      && by_supplier o.delivered_by
      && paid_later o.cartona_payment_method
      && not (filled o.cartona_delivery_otp)

  unfoldable pub needs_otp : Delivery F → Bool
  unfolding order_needs_otp
  needs_otp d = d.picking.outgoing && is_open d.picking.state && order_needs_otp d.sale_id

  order_jobs : List Config → Option (Order F) → List Job
  order_jobs configs none = []
  order_jobs configs (some o) =
      if filled o.cartona_id && cartona_sync_active configs o && by_supplier o.delivered_by
      then job delivery_method o o.cartona_config_id
      else []

  -- The jobs behind Odoo's own `button_validate`.
  unfoldable pub delivery_jobs : List Config → List (Delivery F) → List Job
  unfolding order_jobs
  delivery_jobs configs [] = []
  delivery_jobs configs (d ∷ ds) =
      let rest = delivery_jobs configs ds in
      if d.picking.outgoing && is_done d.picking.state
      then order_jobs configs d.sale_id ++ rest
      else rest

  -- `skip_sync` is `skip_cartona_sync or skip_cartona_delivery_sync`.
  validated : Bool → List Config → Result (Action × List (Delivery F)) → Result (Validation F)
  validated skip_sync configs (err e) = err e
  validated skip_sync configs (ok (action, ds)) = ok (record {
    action = action;
    deliveries = ds;
    jobs = if skip_sync then [] else delivery_jobs configs ds;
  })

  checked_otp :
      Bool
      → List Config
      → Validate F
      → List (Delivery F)
      → Option (Delivery F)
      → Result (Validation F)
  unfolding validated
  checked_otp skip_sync configs super ds (some d) =
      ok (record { action = ask_otp d.picking.id; deliveries = ds; jobs = [] })
  checked_otp skip_sync configs super ds none = validated skip_sync configs (super ds)

  unfoldable pub button_validate :
      Bool → Bool → List Config → Validate F → List (Delivery F) → Result (Validation F)
  unfolding checked_otp
  button_validate skip_otp_check skip_sync configs super ds =
      checked_otp skip_sync configs super ds (if skip_otp_check then none else find needs_otp ds)

-- How the wizard ends, if it does not raise: a notification that blocks the delivery, or what Odoo's
-- validation returned. The order is as it was left.
pub data Confirmed (F : Type 0) : Type 0 where
  blocked : Text → Order F → Logs → Confirmed F
  confirmed : Validation F → Order F → Logs → Confirmed F

abbrev message_or : Option Text → Text
message_or none = text "Cartona rejected the delivery confirmation. Picking was NOT validated." []
message_or (some t) = t

-- What Odoo's validation raises, the wizard raises.
unfoldable pub validate_confirmed :
    {F : Type 0} → Validate F → List Config → Picking F → Order F → Logs → Result (Confirmed F)
validate_confirmed super configs p o db =
    button_validate true true configs super (record { picking = p; sale_id = some o } ∷ []) >>= λ r.
    ok (confirmed r o db)

module _ (P : Python) (net : Net) (now : ℕ) (caller : Caller) (super : Validate P.Float) where
  confirm_synced : List Config → Picking P.Float → Order P.Float → Logs → Result (Confirmed P.Float)
  confirm_synced configs p o db =
      if not (is_synced o.cartona_sync_status)
      then ok (
          blocked (message_or o.cartona_error_message) (record o { cartona_delivery_otp = none })
            db)
      else validate_confirmed super configs p o db

  -- `cartona_delivery_otp` is what the user typed.
  unfoldable pub action_confirm :
      List Config
      → Option String
      → Picking P.Float
      → Order P.Float
      → Logs
      → Result (Confirmed P.Float)
  unfolding confirm_synced
  action_confirm configs cartona_delivery_otp p o db = do
    (o', db') ←
        sync_delivery_validation_to_cartona P net now caller configs
          (record o { cartona_delivery_otp = cartona_delivery_otp }) db
    confirm_synced configs p o' db'
