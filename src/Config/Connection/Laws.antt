-- ===== src/Config/Connection/Laws.antt =====
-- `test_connection` of models/cartona_config.py.
use cartona_odoo.Base.{
  ℕ, Bool, true, false, not, Option, [], ◌∷◌, ◌++◌, ◌≡◌, refl, arith, is_some, ◌==◌, if◌then◌else◌,
  String,
}
use cartona_odoo.Py.Exn.{Exn}
use cartona_odoo.Config.Data.{Config, ConnectionStatus, connected}
use cartona_odoo.Order.Data.{Text}
use cartona_odoo.Order.Issue.{Status}
use cartona_odoo.Log.{Log, Logs, Caller, guarded, create, create_lines, append_log, log_operation}
use cartona_odoo.Api.Request.{Net, Reply, replied, timed_out, connection_failed, failed}
use cartona_odoo.Config.Connection.{
  test_log, log_test, set_connected, set_error, refuse, not_connected, read_test, test_request,
  test_connection,
}

abbrev pub is_connected : ConnectionStatus → Bool
is_connected connected = true
is_connected _ = false

abbrev pub is_success : Status → Bool
is_success Status.success = true
is_success _ = false

-- A reply, or an exception that the test catches.
abbrev pub is_caught : Reply → Bool
is_caught (failed e) = false
is_caught _ = true

-- It raises exactly where the configuration ends in no connection, and so says the one new log.
abbrev pub Tells : Logs → Option Exn × (Config × Logs) → Type 0
Tells before (raised, (c, db)) =
    (is_some raised ≡ not (is_connected c.connection_status))
    × ((l : Log) × (db.logs ≡ before.logs ++ (l ∷ []))
        × (is_success l.vals.status ≡ is_connected c.connection_status))

if-Tells :
    (before : Logs) (b : Bool) (x y : Option Exn × (Config × Logs))
    → Tells before x
    → Tells before y
    → Tells before (if b then x else y)
if-Tells before true x y p q = p
if-Tells before false x y p q = q

module _ (net : Net) (now : ℕ) (caller : Caller) where
  not_connected-Tells :
      (e : String) (message : Text) (details : Option String) (refusal : String) (c : Config)
      (db : Logs)
      → Tells db (not_connected net now caller e message details refusal (c, db))
  unfolding not_connected set_error log_test refuse log_operation create create_lines append_log
      guarded test_log
  not_connected-Tells e message details refusal c db = (refl, (_, refl, refl))

  read_test-Tells :
      (r : Reply) (c : Config) (db : Logs)
      → is_caught r ≡ true
      → Tells db (read_test net now caller r (c, db))
  unfolding read_test set_connected log_test log_operation create create_lines append_log guarded
      test_log
  read_test-Tells (replied status body json) c db h =
      if-Tells db (status == 200) _ _ (refl, (_, refl, refl)) (not_connected-Tells "" _ _ "" c db)
  read_test-Tells timed_out c db h = not_connected-Tells "" _ _ "" c db
  read_test-Tells (connection_failed e) c db h = not_connected-Tells "" _ _ "" c db
  read_test-Tells (failed e) c db h = ground arith

  -- Where the request ends with a reply, a timeout or a failed connection, the test raises exactly
  -- where it leaves the configuration without a connection, and adds one log, a success exactly
  -- where there is one.
  pub test_connection-Tells :
      (c : Config) (db : Logs)
      → is_caught (net.request (test_request net now caller c)) ≡ true
      → Tells db (test_connection net now caller (c, db))
  unfolding test_connection
  test_connection-Tells c db h =
      read_test-Tells (net.request (test_request net now caller c)) c db h
