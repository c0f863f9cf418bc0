-- ===== src/Config/Connection.antt =====
-- `test_connection` of models/cartona_config.py. What it has written before it raises is returned
-- beside the exception; that Odoo rolls the transaction back is left to its caller.
pub mod Laws
use cartona_odoo.Base.{
  ℕ, String, Bool, ◌<>◌, Option, none, some, List, [], ◌∷◌, ◌==◌, if◌then◌else◌,
}
use cartona_odoo.Py.Exn.{Exn, user_error, other_error, ok, err, Act, after}
use cartona_odoo.Py.Number.{pos, decimal}
use cartona_odoo.Py.Json.{int, Json, obj, field, end}
use cartona_odoo.Config.Data.{Config, connected, connection_error}
use cartona_odoo.Order.Data.{Text}
use cartona_odoo.Order.Issue.{Status, text}
use cartona_odoo.Log.{Logs, LogVals, Operation, ActionType, Caller, log_operation}
use cartona_odoo.Api.Request.{
  Net, HttpRequest, Method, Reply, replied, timed_out, connection_failed, failed, get_api_headers,
}

test_log : Config → Status → Text → Option String → LogVals
test_log c status message e = record {
  cartona_config_id = c.id;
  operation_type = Operation.connection_test;
  status = status;
  message = message;
  about = none;
  error_details = e;
  request_data = none;
  response_data = none;
  records_processed = 0;
  records_success = 0;
  records_error = 0;
  action_type = some ActionType.manual;
}

module _ (net : Net) (now : ℕ) (caller : Caller) where
  -- The configuration and the logs.
  abbrev State : Type 0
  State = Config × Logs

  unfoldable pub test_request : Config → HttpRequest
  test_request c = record {
    method = Method.http_get;
    url = net.rstrip_slash c.api_base_url <> "/supplier-product";
    headers = get_api_headers c;
    timeout = c.timeout;
    json = none;
    params = some (obj (field "page" (int (pos 1)) (field "per_page" (int (pos 1)) end)));
  }

  log_test : Status → Text → Option String → Act State
  unfolding test_log
  log_test status message e (c, db) =
      elim (log_operation now caller (test_log c status message e) [] db) [
        | err x ↦ (some x, (c, db))
        | ok db' ↦ (none, (c, db'))
      ]

  set_connected : Act State
  set_connected (c, db) = (
    none,
    (
      record c { connection_status = connected; error_message = none; last_sync_date = some now },
      db,
    ),
  )

  set_error : String → Act State
  set_error e (c, db) =
      (none, (record c { connection_status = connection_error; error_message = some e }, db))

  -- `raise UserError(…)`
  refuse : String → Act State
  refuse t s = (some (record { kind = user_error; text = t }), s)

  not_connected : String → Text → Option String → String → Act State
  unfolding set_error log_test refuse
  not_connected e message details refusal =
      after (set_error e) (after (log_test Status.error message details) (refuse refusal))

  -- Other exceptions of the request are not caught.
  read_test : Reply → Act State
  unfolding not_connected set_connected log_test
  read_test (replied status body json) s =
      if status == 200
      then after set_connected (log_test Status.success (text "Connection test successful" []) none)
          s
      else not_connected ("HTTP " <> decimal status <> ": " <> body)
          (text "Connection test failed (HTTP %s)" (decimal status ∷ [])) (some body)
          "Connection failed (HTTP %s). Check your token and URL." s
  read_test timed_out s =
      not_connected "Timeout"
        (text "Connection test timed out after %ss" (decimal s.0.timeout ∷ [])) none
        "Connection timeout after %s seconds" s
  read_test (connection_failed e) s =
      not_connected e (text "Connection test failed" []) (some e)
        "Cannot connect to Cartona API: %s" s
  read_test (failed e) s = (some (record { kind = other_error; text = e }), s)

  unfoldable pub test_connection : Act State
  unfolding read_test test_request
  test_connection s = read_test (net.request (test_request s.0)) s
