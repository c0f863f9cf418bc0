-- ===== src/Api/Ack/Laws.antt =====
-- What an acknowledgement leaves in the log.
use cartona_odoo.Base.{
  ℕ, ◌≡◌, refl, Bool, true, false, Option, some, [], ◌∷◌, ◌++◌, String, Bool-cases, inl, inr,
}
use mathlib.Core.List.{append-nil}
use cartona_odoo.Config.Data.{Config}
use cartona_odoo.Order.Data.{Order}
use cartona_odoo.Order.Issue.{Status}
use cartona_odoo.Log.{
  Log, Logs, ActionType, Caller, guarded, create, create_lines, append_log, log_operation,
}
use cartona_odoo.Api.Request.{Net, Reply, replied, timed_out, connection_failed, failed}
use cartona_odoo.Api.Ack.{
  is_accepted, ack_failed, read_ack, ack_request, ack_log, or_before, post_ack,
}

abbrev pub is_success : Status → Bool
is_success Status.success = true
is_success _ = false

-- A reply with one of the three codes.
abbrev pub was_accepted : Reply → Bool
was_accepted (replied code t json) = is_accepted code
was_accepted _ = false

read_ack-is_success :
    (t id : String) (r : Reply) → is_success (read_ack t id r).log_status ≡ was_accepted r
unfolding read_ack ack_failed
read_ack-is_success t id (replied code b json) = elim (Bool-cases (is_accepted code)) [
  | inl y ↦ rw y refl
  | inr n ↦ rw n refl
]
read_ack-is_success t id timed_out = refl
read_ack-is_success t id (connection_failed e) = refl
read_ack-is_success t id (failed e) = refl

-- Whatever the network answers and whoever imports, an acknowledgement adds one log, with a new id, of
-- the order and its configuration, a success exactly where the answer has one of the accepted codes,
-- and no detail line.
pub post_ack-logs :
    {F : Type 0} (net : Net) (t : String) (now : ℕ) (caller : Caller) (c : Config)
    (action : Option ActionType) (o : Order F) (id : String) (db : Logs)
    → (l : Log) × ((post_ack net t now caller c action o id db).logs ≡ db.logs ++ (l ∷ []))
      × ((post_ack net t now caller c action o id db).lines ≡ db.lines)
      × (l.id ≡ db.next_id)
      × (l.vals.cartona_config_id ≡ c.id)
      × (l.vals.about ≡ some (record { model = "sale.order"; id = o.id; name = o.name }))
      × (is_success l.vals.status ≡ was_accepted (net.request (ack_request net t now caller c id)))
unfolding post_ack log_operation create create_lines append_log guarded or_before ack_log
post_ack-logs net t now caller c action o id db = (
  _,
  refl,
  append-nil db.lines,
  refl,
  refl,
  refl,
  read_ack-is_success t id (net.request (ack_request net t now caller c id)),
)
