-- ===== src/Sale/Status/Laws.antt =====
-- How a status sync leaves the order.
use cartona_odoo.Base.{
  ℕ, Bool, true, false, not, ◌||◌, Option, none, some, List, ◌≡◌, refl, sym, subst, String,
  if◌then◌else◌,
}
use cartona_odoo.Py.Exn.{Result, ok, err}
use cartona_odoo.Py.Json.{Python, Fields}
use cartona_odoo.Config.Data.{Config}
use cartona_odoo.Order.Data.{Order, is_error, is_synced}
use cartona_odoo.Order.World.{filled}
use cartona_odoo.Api.Request.{Net, successful, update_single_order_status}
use cartona_odoo.Log.{
  Logs, LogVals, Caller, guarded, create, create_lines, append_log, log_operation,
}
use cartona_odoo.Sale.Triggers.{config_of, enabled, cartona_sync_active}
use cartona_odoo.Sale.Status.{
  set_syncing, map_odoo_status_to_cartona, status_answered, send_status, sync_status_with,
  sync_status_to_cartona, logged, by_supplier, delivery_answered, sync_delivery_with,
  sync_delivery_validation_to_cartona,
}

-- Cartona's answer to the status of an order, where one is sent: whether it is a success.
abbrev pub told : (P : Python) → Net → Config → Order P.Float → Option String → Bool
told P net c o none = false
told P net c o (some status) = successful P (
    update_single_order_status net c o.cartona_id status o.cartona_payment_method
      o.cartona_delivery_otp)

-- Synced, under the given status and without a message, or in error.
abbrev pub Settled : {F : Type 0} → Bool → Option String → Order F → Type 0
Settled true status o =
    (is_synced o.cartona_sync_status ≡ true)
    × (o.cartona_status ≡ status)
    × (o.cartona_error_message ≡ none)
Settled false status o = is_error o.cartona_sync_status ≡ true

module _ (P : Python) (net : Net) (now : ℕ) where
  status_answered-Settled :
      (status : String) (result : Fields) (b : Bool) (o : Order P.Float)
      → successful P result ≡ b
      → Settled b (some status) (status_answered P net now status (ok result) o)
  unfolding status_answered
  status_answered-Settled status result true o h = rw h (refl, refl, refl)
  status_answered-Settled status result false o h = rw h refl

  send_status-Settled :
      (c : Config) (status : Option String) (o : Order P.Float)
      → Settled (told P net c o status) status (send_status P net now c status (set_syncing o))
  unfolding send_status
  send_status-Settled c none o = refl
  send_status-Settled c (some status) o =
      let result =
        update_single_order_status net c o.cartona_id status o.cartona_payment_method
          o.cartona_delivery_otp in
      status_answered-Settled status result (successful P result) (set_syncing o) refl

  sync_status_with-Settled :
      (c : Config) (o : Order P.Float)
      → c.is_cartona_sync_enabled ≡ true
      → filled o.cartona_id ≡ true
      → Settled
          (told P net c o (map_odoo_status_to_cartona o.state))
          (map_odoo_status_to_cartona o.state)
          (sync_status_with P net now (some c) o)
  unfolding sync_status_with
  sync_status_with-Settled c o e f =
      simp e (simp f (send_status-Settled c (map_odoo_status_to_cartona o.state) o))

  -- Where the order has an id of Cartona's and its configuration is enabled, the status sync leaves it
  -- synced exactly where its state has a status of Cartona's and the answer to that status is a
  -- success, whatever else the network answers: then under that status and without a message, and in
  -- error otherwise.
  pub sync_status_to_cartona-Settled :
      (configs : List Config) (c : Config) (o : Order P.Float)
      → config_of configs o ≡ some c
      → c.is_cartona_sync_enabled ≡ true
      → filled o.cartona_id ≡ true
      → Settled
          (told P net c o (map_odoo_status_to_cartona o.state))
          (map_odoo_status_to_cartona o.state)
          (sync_status_to_cartona P net now configs o)
  unfolding sync_status_to_cartona
  sync_status_to_cartona-Settled configs c o k e f =
      subst
        (λ x.
          Settled (told P net c o (map_odoo_status_to_cartona o.state))
            (map_odoo_status_to_cartona o.state) (sync_status_with P net now x o))
        (sym k) (sync_status_with-Settled c o e f)

-- A result that is no exception.
abbrev pub IsOk : {A : Type 0} → Result A → Type 0
IsOk {A} r = (a : A) × (r ≡ ok a)

if-IsOk : {A : Type 0} (b : Bool) (x y : Result A) → IsOk x → IsOk y → IsOk (if b then x else y)
if-IsOk true x y p q = p
if-IsOk false x y p q = q

module _ (P : Python) (net : Net) (now : ℕ) (caller : Caller) where
  logged-IsOk :
      (vals : LogVals) (o : Order P.Float) (db : Logs) → IsOk (logged P net now caller vals o db)
  unfolding logged log_operation create create_lines append_log guarded
  logged-IsOk vals o db = (_, refl)

  delivery_answered-IsOk :
      (c : Config) (r : Result Fields) (o : Order P.Float) (db : Logs)
      → IsOk (delivery_answered P net now caller c r o db)
  unfolding delivery_answered
  delivery_answered-IsOk c (err e) o db = logged-IsOk _ _ db
  delivery_answered-IsOk c (ok result) o db =
      if-IsOk (successful P result) _ _ (logged-IsOk _ _ db) (logged-IsOk _ _ db)

  sync_delivery_with-IsOk :
      (c : Option Config) (o : Order P.Float) (db : Logs)
      → IsOk (sync_delivery_with P net now caller c o db)
  unfolding sync_delivery_with
  sync_delivery_with-IsOk none o db = (_, refl)
  sync_delivery_with-IsOk (some c) o db =
      if-IsOk
        (not c.is_cartona_sync_enabled
          || not (filled o.cartona_id)
          || not (by_supplier o.delivered_by))
        _ _ (_, refl)
        (delivery_answered-IsOk c
          (ok (
            update_single_order_status net c o.cartona_id "delivered" o.cartona_payment_method
              o.cartona_delivery_otp))
          (set_syncing o) db)

  pub sync_delivery_validation_to_cartona-IsOk :
      (configs : List Config) (o : Order P.Float) (db : Logs)
      → IsOk (sync_delivery_validation_to_cartona P net now caller configs o db)
  unfolding sync_delivery_validation_to_cartona
  sync_delivery_validation_to_cartona-IsOk configs o db =
      sync_delivery_with-IsOk (config_of configs o) o db

  sync_delivery_with-inactive :
      (c : Option Config) (o : Order P.Float) (db : Logs)
      → enabled c ≡ false
      → sync_delivery_with P net now caller c o db ≡ ok (o, db)
  unfolding sync_delivery_with
  sync_delivery_with-inactive none o db e = refl
  sync_delivery_with-inactive (some c) o db e = simp e refl

  pub sync_delivery_validation_to_cartona-inactive :
      (configs : List Config) (o : Order P.Float) (db : Logs)
      → cartona_sync_active configs o ≡ false
      → sync_delivery_validation_to_cartona P net now caller configs o db ≡ ok (o, db)
  unfolding sync_delivery_validation_to_cartona cartona_sync_active
  sync_delivery_validation_to_cartona-inactive configs o db e =
      sync_delivery_with-inactive (config_of configs o) o db e
