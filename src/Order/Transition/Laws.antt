-- ===== src/Order/Transition/Laws.antt =====
-- The transitions of models/cartona_order_processor.py.
use cartona_odoo.Base.{
  String, ◌≡◌, refl, subst, sym, true, false, ◌||◌, ◌⊎◌, inl, inr, arith, str_eq, eq_iff,
  Bool-cases, is_empty,
}
use cartona_odoo.Py.Exn.{ok}
use cartona_odoo.Py.Json.{Json, null, str, Python, is_text, hashable, str_json}
use cartona_odoo.Order.Data.{Order, SyncStatus, is_closed}
use cartona_odoo.Order.Transition.{
  Odoo, is_cancel_status, mark_error, done_pickings, blocked, cancel_order, cancel_branch,
  state_action, handled, apply_cartona_state_action,
}

-- The three texts of `_CANCEL_STATUSES`.
abbrev IsCancelText : String → Type 0
IsCancelText s = (s ≡ "cancelled") ⊎ ((s ≡ "cancelled_by_retailer") ⊎ (s ≡ "cancelled_by_supplier"))

IsCancelText-of :
    (s : String)
    → (str_eq s "cancelled" || str_eq s "cancelled_by_retailer" || str_eq s "cancelled_by_supplier")
      ≡ true
    → IsCancelText s
IsCancelText-of s h = elim (Bool-cases (str_eq s "cancelled")) [
  | inl a ↦ inl ((eq_iff s "cancelled").0 a)
  | inr a ↦ elim (Bool-cases (str_eq s "cancelled_by_retailer")) [
    | inl b ↦ inr (inl ((eq_iff s "cancelled_by_retailer").0 b))
    | inr b ↦ inr (inr ((eq_iff s "cancelled_by_supplier").0 (ground arith)))
  ]
]

abbrev IsOther : String → Type 0
IsOther s =
    (str_eq s "approved" ≡ false)
    × (str_eq s "assigned_to_salesman" ≡ false)
    × (str_eq s "delivered" ≡ false)

IsCancelText-IsOther : (s : String) → IsCancelText s → IsOther s
IsCancelText-IsOther s (inl e) = subst IsOther (sym e) (refl, refl, refl)
IsCancelText-IsOther s (inr (inl e)) = subst IsOther (sym e) (refl, refl, refl)
IsCancelText-IsOther s (inr (inr e)) = subst IsOther (sym e) (refl, refl, refl)

-- The branches of the state action exclude one another.
pub cancel_is_other :
    (v : Json)
    → is_cancel_status v ≡ ok true
    → (is_text v "approved" ≡ false)
      × (is_text v "assigned_to_salesman" ≡ false)
      × (is_text v "delivered" ≡ false)
unfolding is_cancel_status is_text hashable
cancel_is_other null h = (refl, refl, refl)
cancel_is_other (str s) h = IsCancelText-IsOther s (IsCancelText-of s (ground arith))
cancel_is_other _ h = (refl, refl, refl)

module _ (P : Python) (odoo : Odoo P.Float) where
  -- Whatever Odoo does: a status that could not be applied leaves the order marked with an error.
  pub apply-error :
      (status : Json) (o : Order P.Float)
      → (apply_cartona_state_action odoo P status o).0 ≡ false
      → (apply_cartona_state_action odoo P status o).1.cartona_sync_status ≡ SyncStatus.error
  unfolding apply_cartona_state_action handled state_action mark_error cancel_branch cancel_order
  apply-error status o h = ground arith

  -- A cancellation that reaches an open order with a validated outgoing delivery is refused: nothing
  -- of the order changes but its sync status and message.
  pub cancel_after_delivery :
      (status : Json) (o : Order P.Float)
      → is_cancel_status status ≡ ok true
      → is_closed o.state ≡ false
      → is_empty (done_pickings o) ≡ false
      → apply_cartona_state_action odoo P status o
        ≡ (false, mark_error (blocked (str_json P status) (done_pickings o)) o)
  unfolding apply_cartona_state_action handled state_action cancel_branch cancel_order
  cancel_after_delivery status o c open_order delivered =
      let (a, b, d) = cancel_is_other status c in ground arith
