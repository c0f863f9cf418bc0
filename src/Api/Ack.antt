-- ===== src/Api/Ack.antt =====
-- `_post_ack` of models/cartona_api.py: the thread that acknowledges an imported order and logs how
-- that went. `timeout_text` is `str(err)` of a request that timed out.
pub mod Laws
use cartona_odoo.Base.{
  ℕ, String, Bool, true, false, ◌||◌, ◌<>◌, Option, none, some, List, [], ◌∷◌, ◌==◌, if◌then◌else◌,
}
use cartona_odoo.Py.Exn.{Result, ok, err}
use cartona_odoo.Py.Number.{pos, decimal}
use cartona_odoo.Py.Json.{Json, null, int, str, obj, Fields, field, end}
use cartona_odoo.Config.Data.{Config}
use cartona_odoo.Order.Data.{Order, Text}
use cartona_odoo.Order.Issue.{Status, text}
use cartona_odoo.Log.{Logs, LogVals, Operation, ActionType, Caller, log_operation}
use cartona_odoo.Api.Request.{
  Net, HttpRequest, Method, Reply, replied, timed_out, connection_failed, failed, get_api_headers,
}

-- `response_status in (200, 201, 204)`
unfoldable pub is_accepted : ℕ → Bool
is_accepted code = code == 200 || code == 201 || code == 204

payload_of : String → Json
payload_of id = obj (field "status" (str "synced") (field "hashed_id" (str id) end))

endpoint_of : String → String
endpoint_of id = "order/update-order-status/" <> id

-- The status and the body of the response, and the status and the message of the log.
pub record Answer : Type 0 where
  pub response_status : Json
  pub response_body : Json
  pub log_status : Status
  pub message : Text

body_or_text : String → Option Json → Json
body_or_text t none = str t
body_or_text t (some v) = v

ack_failed : String → String → Answer
ack_failed id e = record {
  response_status = null;
  response_body = str e;
  log_status = Status.error;
  message = text "Inbound synced ack failed for order %s: %s" (id ∷ e ∷ []);
}

unfoldable pub read_ack : String → String → Reply → Answer
unfolding body_or_text ack_failed
read_ack timeout_text id (replied code t json) = record {
  response_status = int (pos code);
  response_body = body_or_text t json;
  log_status = if is_accepted code then Status.success else Status.warning;
  message =
      if is_accepted code
      then text "Inbound synced ack sent for order %s" (id ∷ [])
      else text "Inbound synced ack returned HTTP %(status)s for order %(order)s"
          (decimal code ∷ id ∷ []);
}
read_ack timeout_text id timed_out = ack_failed id timeout_text
read_ack timeout_text id (connection_failed e) = ack_failed id e
read_ack timeout_text id (failed e) = ack_failed id e

module _ (net : Net) (timeout_text : String) (now : ℕ) (caller : Caller) where
  open net use {request, dumps, rstrip_slash, lstrip_slash}

  unfoldable pub ack_request : Config → String → HttpRequest
  unfolding payload_of endpoint_of
  ack_request c id = record {
    method = Method.http_post;
    url = rstrip_slash c.api_base_url <> "/" <> lstrip_slash (endpoint_of id);
    headers = get_api_headers c;
    timeout = c.timeout;
    json = some (payload_of id);
    params = none;
  }

  ack_log : {F : Type 0} → Config → Option ActionType → Order F → String → Answer → LogVals
  unfolding payload_of endpoint_of
  ack_log c action o id a = record {
    cartona_config_id = c.id;
    operation_type = Operation.status_sync;
    status = a.log_status;
    message = a.message;
    about = some (record { model = "sale.order"; id = o.id; name = o.name });
    error_details = none;
    request_data = some (
        dumps (
          obj (
            field "endpoint" (str (endpoint_of id))
              (field "method" (str "POST") (field "payload" (payload_of id) end)))));
    response_data =
        some
          (dumps (obj (field "status_code" a.response_status (field "body" a.response_body end))));
    records_processed = 0;
    records_success = 0;
    records_error = 0;
    action_type = action;
  }

  -- A log that cannot be written is dropped.
  or_before : Logs → Result Logs → Logs
  or_before db (ok db') = db'
  or_before db (err e) = db

  unfoldable pub post_ack :
      {F : Type 0} → Config → Option ActionType → Order F → String → Logs → Logs
  unfolding ack_log or_before
  post_ack c action o id db = or_before db (
      log_operation now (record caller { sync_log_internal = true })
        (ack_log c action o id (read_ack timeout_text id (request (ack_request c id)))) [] db)
