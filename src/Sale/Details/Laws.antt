-- ===== src/Sale/Details/Laws.antt =====
-- What the details sync of an order leaves on the order and in the log.
use cartona_odoo.Base.{
  String, false, subst, sym, ℕ, ◌+◌, ◌∙◌, ap, Bool, true, false, not, ◌||◌, Option, some, List, [],
  ◌∷◌, ◌++◌, ◌≡◌, refl, arith, length, length-append,
}
use cartona_odoo.Py.Exn.{Result, ok}
use cartona_odoo.Py.Json.{Json, Items, nil, cons, Fields, Python, items}
use cartona_odoo.Config.Data.{Config}
use cartona_odoo.Order.Data.{Order, is_error, is_synced}
use cartona_odoo.Order.World.{filled}
use cartona_odoo.Api.Request.{Net, successful, update_order_details}
use cartona_odoo.Log.{
  Log, Logs, LogVals, Caller, guarded, create, create_lines, append_log, log_operation,
}
use cartona_odoo.Sale.Triggers.{config_of}
use cartona_odoo.Sale.Status.{set_syncing, logged, order_log}
use cartona_odoo.Sale.Details.{
  is_nil, order_details, details_answered, send_details, sync_details_with,
  sync_order_details_to_cartona,
}

abbrev failures : List Log → ℕ
failures [] = 0
failures (g ∷ gs) = g.vals.records_error + failures gs

failures-last :
    (xs : List Log) (g : Log) → failures (xs ++ (g ∷ [])) ≡ failures xs + g.vals.records_error
failures-last [] g = omega arith
failures-last (x ∷ xs) g = ground (arith, failures-last xs g)

abbrev one_if : Bool → ℕ
one_if true = 1
one_if false = 0

-- The order is synced where the answer is a success, and in error where it is none. There is one log
-- more where something was sent, with one failure where the answer is no success.
abbrev pub Reported : {F : Type 0} → Bool → Bool → Logs → Order F × Logs → Type 0
Reported sent b db r =
    (is_synced r.0.cartona_sync_status ≡ b)
    × (is_error r.0.cartona_sync_status ≡ not b)
    × (length r.1.logs ≡ length db.logs + one_if sent)
    × (failures r.1.logs ≡ failures db.logs + one_if (not b))

-- A result that is no exception, and reported.
abbrev pub Ends : {F : Type 0} → Bool → Bool → Logs → Result (Order F × Logs) → Type 0
Ends {F} sent b db s = (r : Order F × Logs) × (s ≡ ok r) × Reported sent b db r

-- Whether there is nothing to send, or Cartona's answer is a success.
abbrev pub told : (P : Python) → Net → Config → Option String → Items → Bool
told P net c id details = is_nil details || successful P (update_order_details net c id details)

module _ (P : Python) (net : Net) (now : ℕ) (caller : Caller) where
  logged-Ends :
      (b : Bool) (vals : LogVals) (o : Order P.Float) (db : Logs)
      → is_synced o.cartona_sync_status ≡ b
      → is_error o.cartona_sync_status ≡ not b
      → vals.records_error ≡ one_if (not b)
      → Ends true b db (logged P net now caller vals o db)
  unfolding logged log_operation create create_lines append_log guarded
  logged-Ends b vals o db d e f = (
    _,
    refl,
    (d, e, length-append db.logs _, failures-last db.logs _ ∙ ap (λ n. failures db.logs + n) f),
  )

  module _ (json_float : P.Float → Json) where
    details_answered-Ends :
        (c : Config) (n : ℕ) (result : Fields) (b : Bool) (o : Order P.Float) (db : Logs)
        → successful P result ≡ b
        → Ends true b db (details_answered P net now caller json_float c n (ok result) o db)
    unfolding details_answered order_log
    details_answered-Ends c n result true o db h = rw h (logged-Ends true _ _ db refl refl refl)
    details_answered-Ends c n result false o db h = rw h (logged-Ends false _ _ db refl refl refl)

    send_details-Ends :
        (c : Config) (details : Items) (o : Order P.Float) (db : Logs)
        → Ends
            (not (is_nil details))
            (told P net c o.cartona_id details)
            db
            (send_details P net now caller json_float c details o db)
    unfolding send_details
    send_details-Ends c nil o db = (_, refl, (refl, refl, omega arith, omega arith))
    send_details-Ends c (cons d ds) o db =
        let result = update_order_details net c o.cartona_id (cons d ds) in
        details_answered-Ends c (length (items (cons d ds))) result (successful P result) o db refl

    sync_details_with-Ends :
        (c : Config) (o : Order P.Float) (db : Logs)
        → c.is_cartona_sync_enabled ≡ true
        → o.is_cartona_order ≡ true
        → filled o.cartona_id ≡ true
        → Ends
            (not (is_nil (order_details json_float o.order_line)))
            (told P net c o.cartona_id (order_details json_float o.order_line))
            db
            (sync_details_with P net now caller json_float (some c) o db)
    unfolding sync_details_with
    sync_details_with-Ends c o db e m f =
        let on : (not c.is_cartona_sync_enabled
              || not o.is_cartona_order
              || not (filled o.cartona_id))
            ≡ false =
          ground arith in
        rw on (send_details-Ends c (order_details json_float o.order_line) (set_syncing o) db)

    -- Where the order is Cartona's, with an id of theirs and under an enabled configuration, the
    -- details sync does not raise, whatever the network answers. It leaves the order synced where there
    -- is no line to send or the answer is a success, and in error otherwise; it adds one log exactly
    -- where there is a line to send, and the failures in the logs grow by one exactly where the answer
    -- to it is no success.
    pub sync_order_details_to_cartona-Ends :
        (configs : List Config) (c : Config) (o : Order P.Float) (db : Logs)
        → config_of configs o ≡ some c
        → c.is_cartona_sync_enabled ≡ true
        → o.is_cartona_order ≡ true
        → filled o.cartona_id ≡ true
        → Ends
            (not (is_nil (order_details json_float o.order_line)))
            (told P net c o.cartona_id (order_details json_float o.order_line))
            db
            (sync_order_details_to_cartona P net now caller json_float configs o db)
    unfolding sync_order_details_to_cartona
    sync_order_details_to_cartona-Ends configs c o db k e m f =
        subst
          (λ x.
            Ends (not (is_nil (order_details json_float o.order_line)))
              (told P net c o.cartona_id (order_details json_float o.order_line)) db
              (sync_details_with P net now caller json_float x o db))
          (sym k) (sync_details_with-Ends c o db e m f)
