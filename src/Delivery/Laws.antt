-- ===== src/Delivery/Laws.antt =====
-- Where a delivery waits for its one-time password and for Cartona's answer.
use cartona_odoo.Base.{
  ℕ, Bool, true, false, String, Option, none, some, List, [], ◌∷◌, ◌≡◌, refl, sym, subst, ◌∙◌, ap,
  arith, any, find, Bool-cases, inl, inr,
}
use cartona_odoo.Py.Exn.{Result, ok, ◌>>=◌}
use cartona_odoo.Py.Json.{Python, Fields}
use cartona_odoo.Config.Data.{Config}
use cartona_odoo.Order.Data.{Order, Picking, Text, is_synced, is_error}
use cartona_odoo.Order.World.{filled}
use cartona_odoo.Log.{Logs, Caller, guarded, create, create_lines, append_log, log_operation}
use cartona_odoo.Api.Request.{Net, successful, update_single_order_status}
use cartona_odoo.Sale.Status.{
  by_supplier, set_syncing, logged, delivery_answered, sync_delivery_with,
  sync_delivery_validation_to_cartona,
}
use cartona_odoo.Sale.Triggers.{config_of}
use cartona_odoo.Delivery.{
  ask_otp, Delivery, Validate, Confirmed, blocked, needs_otp, checked_otp, validate_confirmed,
  button_validate, confirm_synced, action_confirm,
}

-- Where Cartona's answer is a success, the wizard ends as Odoo's validation does, on the order as it
-- was left: synced, with the password. Where it is none, nothing is validated; the order is left in
-- error and without its password.
abbrev pub Guarded :
    (P : Python)
    → Validate P.Float
    → List Config
    → Option String
    → Picking P.Float
    → Bool
    → Result (Confirmed P.Float)
    → Type 0
Guarded P super configs otp p true r =
    (o : Order P.Float) × (db : Logs) × (r ≡ validate_confirmed super configs p o db)
    × (is_synced o.cartona_sync_status ≡ true)
    × (o.cartona_delivery_otp ≡ otp)
Guarded P super configs otp p false r =
    (t : Text) × (o : Order P.Float) × (db : Logs) × (r ≡ ok (blocked t o db))
    × (is_error o.cartona_sync_status ≡ true)
    × (o.cartona_delivery_otp ≡ none)

-- Cartona's answer to the delivery of an order: whether it is a success.
abbrev pub told : (P : Python) → Net → Config → Order P.Float → Bool
told P net c o = successful P (
    update_single_order_status net c o.cartona_id "delivered" o.cartona_payment_method
      o.cartona_delivery_otp)

module _ (P : Python) (net : Net) (now : ℕ) (caller : Caller) (super : Validate P.Float) where
  confirm_answered-Guarded :
      (configs : List Config) (c : Config) (p : Picking P.Float) (o : Order P.Float)
      (result : Fields) (b : Bool) (db : Logs)
      → successful P result ≡ b
      → Guarded P super configs o.cartona_delivery_otp p b (
          delivery_answered P net now caller c (ok result) o db >>= λ y.
          confirm_synced P net now caller super configs p y.0 y.1)
  unfolding delivery_answered logged log_operation create create_lines append_log guarded
      confirm_synced
  confirm_answered-Guarded configs c p o result true db h = rw h (_, _, refl, refl, refl)
  confirm_answered-Guarded configs c p o result false db h = rw h (_, _, _, refl, refl, refl)

  sync_delivery_with-enabled :
      (c : Config) (o : Order P.Float) (db : Logs)
      → c.is_cartona_sync_enabled ≡ true
      → filled o.cartona_id ≡ true
      → by_supplier o.delivered_by ≡ true
      → sync_delivery_with P net now caller (some c) o db
        ≡ delivery_answered P net now caller c
            (ok (
              update_single_order_status net c o.cartona_id "delivered" o.cartona_payment_method
                o.cartona_delivery_otp))
            (set_syncing o)
            db
  unfolding sync_delivery_with
  sync_delivery_with-enabled c o db e f s = simp e (simp f (simp s refl))

  -- For an order that the supplier delivers, with an id of Cartona's and under an enabled
  -- configuration: where Cartona accepts the delivery with the password that was typed, the wizard ends
  -- as Odoo's validation of the picking does, exceptions included, and the order is synced and keeps
  -- the password; where Cartona does not, the wizard does not raise and nothing is validated, and the
  -- order is in error and its password cleared.
  pub action_confirm-Guarded :
      (configs : List Config) (c : Config) (otp : Option String) (p : Picking P.Float)
      (o : Order P.Float) (db : Logs)
      → config_of configs o ≡ some c
      → c.is_cartona_sync_enabled ≡ true
      → filled o.cartona_id ≡ true
      → by_supplier o.delivered_by ≡ true
      → Guarded P super configs otp p
          (told P net c (record o { cartona_delivery_otp = otp }))
          (action_confirm P net now caller super configs otp p o db)
  unfolding action_confirm sync_delivery_validation_to_cartona config_of
  action_confirm-Guarded configs c otp p o db k e f s =
      let typed : Order P.Float = record o { cartona_delivery_otp = otp } in
      let result =
        update_single_order_status net c o.cartona_id "delivered" o.cartona_payment_method otp in
      subst
        (λ r.
          Guarded P super configs otp p (told P net c typed)
            (r >>= λ y. confirm_synced P net now caller super configs p y.0 y.1))
        (sym (
          ap (λ x. sync_delivery_with P net now caller x typed db) k
          ∙ sync_delivery_with-enabled c typed db e f s))
        (confirm_answered-Guarded configs c p (set_syncing typed) result (successful P result) db
          refl)

find-any :
    {A : Type 0} (p : A → Bool) (xs : List A)
    → any p xs ≡ true
    → (a : A) × (find p xs ≡ some a) × (p a ≡ true)
find-any p [] h = ground arith
find-any p (x ∷ xs) h = elim (Bool-cases (p x)) [
  | inl y ↦ (x, rw y refl, y)
  | inr n ↦ rw n (find-any p xs (ground arith))
]

-- Where a delivery needs a password and the check is not skipped, the wizard is asked for one that
-- needs it, no delivery is validated and no job is queued.
pub button_validate-asks :
    {F : Type 0} (skip_sync : Bool) (configs : List Config) (super : Validate F)
    (ds : List (Delivery F))
    → any needs_otp ds ≡ true
    → (d : Delivery F) × (needs_otp d ≡ true)
      × (button_validate false skip_sync configs super ds
          ≡ ok (record { action = ask_otp d.picking.id; deliveries = ds; jobs = [] }))
unfolding button_validate checked_otp
button_validate-asks skip_sync configs super ds h =
    let (d, found, needs) = find-any needs_otp ds h in (d, needs, rw found refl)
