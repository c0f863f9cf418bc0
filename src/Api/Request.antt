-- ===== src/Api/Request.antt =====
-- `_make_api_request`, `_normalize_api_response` and the calls of one request each in
-- models/cartona_api.py.
pub mod Laws
use text.Mathlib.Text.{starts_with}
use cartona_odoo.Base.{
  ℕ, String, Bool, true, false, not, ◌&&◌, ◌||◌, ◌<>◌, Option, none, some, List, [], ◌∷◌, ◌++◌, map,
  str_eq, ◌==◌, is_empty, if◌then◌else◌,
}
use cartona_odoo.Py.Number.{ℤ, pos, decimal}
use cartona_odoo.Py.Json.{
  Json, null, bool, int, str, arr, obj, Items, nil, cons, Fields, field, end, Python, get, get_none,
  has, truthy, get_or, str_json,
}
use cartona_odoo.Config.Data.{Config}
use cartona_odoo.Order.Data.{PaymentMethod, installment, wallet_top_up}
use cartona_odoo.Product.Trigger.{SyncFields}

pub data Method : Type 0 where
  http_get http_post http_put http_patch : Method

-- What `requests.request` is given.
pub record HttpRequest : Type 0 where
  pub method : Method
  pub url : String
  pub headers : Fields
  pub timeout : ℕ
  -- the JSON body of POST, PUT and PATCH, and the query of the others
  pub json : Option Json
  pub params : Option Json

-- How `requests.request` ends: with a response, whose body may be JSON, or by an exception.
pub data Reply : Type 0 where
  replied : ℕ → String → Option Json → Reply
  timed_out : Reply
  connection_failed : String → Reply
  failed : String → Reply

-- The network, and the texts of Python's and JSON's that the code builds URLs and logs with.
pub record Net : Type 0 where
  pub request : HttpRequest → Reply
  pub dumps : Json → String
  pub rstrip_slash : String → String
  pub lstrip_slash : String → String

-- `d[key] = v`
unfoldable pub put : String → Json → Fields → Fields
put key v end = field key v end
put key v (field k u fs) = if str_eq k key then field k v fs else field k u (put key v fs)

abbrev method_name : Method → String
method_name http_get = "GET"
method_name http_post = "POST"
method_name http_put = "PUT"
method_name http_patch = "PATCH"

-- `method.upper() in ('POST', 'PUT', 'PATCH')`
abbrev has_body : Method → Bool
has_body http_get = false
has_body _ = true

-- `d.get('success')`, as a test.
abbrev pub successful : Python → Fields → Bool
successful P fs = truthy P (get_none fs "success")

-- `get_api_headers`
abbrev kept_text : Python → Json → Option String
kept_text P null = none
kept_text P (bool false) = none
kept_text P v = some (str_json P v)

-- `result.get('error', default)`, as a field of text keeps it: none for `None` and `False`.
unfoldable pub error_text : Python → Fields → String → Option String
error_text P result default = kept_text P (get_or result "error" (str default))

unfoldable pub get_api_headers : Config → Fields
get_api_headers c = field "AuthorizationToken" (str c.auth_token) (
    field "Content-Type" (str "application/json")
      (field "User-Agent" (str "Odoo-Cartona-Integration/18.0") end))

or_empty : Option Json → Json
or_empty none = obj end
or_empty (some v) = v

-- `data if … else (params or {})`
body_of : Method → Json → Option Json → Json
body_of method payload params = if has_body method then payload else or_empty params

failure : String → Fields
failure text = field "success" (bool false) (field "error" (str text) end)

-- `_normalize_api_response`, whose argument is a dict at every call.
unfoldable pub normalize_api_response : Fields → Fields
normalize_api_response fs =
    if has fs "success" then fs else field "success" (bool true) (field "data" (obj fs) end)

missing_id : Fields
missing_id = field "success" (bool false) (field "error" (str "Missing cartona_id") end)

needs_otp : Option PaymentMethod → Bool
needs_otp (some installment) = true
needs_otp (some wallet_top_up) = true
needs_otp _ = false

or_null : Option String → Json
or_null none = null
or_null (some s) = if str_eq s "" then null else str s

-- `status_data`: the one-time password goes with a delivery that was paid in such a way, the reason
-- with a cancellation by the supplier.
unfoldable pub status_data : String → String → Option PaymentMethod → Option String → Fields
unfolding needs_otp or_null
status_data cartona_id status payment otp =
    let base = field "status" (str status) (field "hashed_id" (str cartona_id) end) in
    let with_otp =
      if str_eq status "delivered" && needs_otp payment
      then put "retailer_otp" (or_null otp) base
      else base in
    if str_eq status "cancelled_by_supplier"
    then put "cancellation_reason" (str "supplier_asked_me_to_cancel") with_otp
    else with_otp

module _ (net : Net) where
  open net use {request, dumps, rstrip_slash, lstrip_slash}

  -- `_api_log_fields`: the request and the response, as texts.
  unfoldable pub api_log_fields : String → Method → Json → Json → Json → Fields → Fields
  api_log_fields endpoint method body status response fs =
      put "response_data"
        (str (dumps (obj (field "status_code" status (field "body" response end)))))
        (put "request_data"
          (str (
            dumps (
              obj (
                field "endpoint" (str endpoint)
                  (field "method" (str (method_name method)) (field "payload" body end))))))
          fs)

  -- A response with status 200 or 201.
  accepted : String → Method → Json → ℕ → String → Option Json → Fields
  accepted endpoint method body status text none =
      api_log_fields endpoint method body (int (pos status)) (str text)
        (field "success" (bool true) (field "data" (str text) end))
  accepted endpoint method body status text (some (obj fs)) =
      api_log_fields endpoint method body (int (pos status)) (obj fs) fs
  accepted endpoint method body status text (some v) =
      api_log_fields endpoint method body (int (pos status)) v
        (field "success" (bool true) (field "data" v end))

  answered : String → Method → Json → ℕ → String → Option Json → Fields
  unfolding accepted failure
  answered endpoint method body status text json =
      if status == 200 || status == 201
      then accepted endpoint method body status text json
      else if status == 204
      then api_log_fields endpoint method body (int (pos status)) (str text)
          (field "success" (bool true) end)
      else api_log_fields endpoint method body (int (pos status)) (str text)
          (failure ("API Error " <> decimal status <> ": " <> text))

  read_reply : Config → String → Method → Json → Reply → Fields
  unfolding answered failure
  read_reply c endpoint method body (replied status text json) =
      answered endpoint method body status text json
  read_reply c endpoint method body timed_out =
      api_log_fields endpoint method body null (str "Timeout")
        (failure ("Timeout after " <> decimal c.timeout <> "s"))
  read_reply c endpoint method body (connection_failed e) =
      api_log_fields endpoint method body null (str e) (failure e)
  read_reply c endpoint method body (failed e) =
      api_log_fields endpoint method body null (str e) (failure e)

  pub request_of : Config → String → Method → Json → Option Json → HttpRequest
  request_of c endpoint method payload params = record {
    method = method;
    url = rstrip_slash c.api_base_url <> "/" <> lstrip_slash endpoint;
    headers = get_api_headers c;
    timeout = c.timeout;
    json = if has_body method then some payload else none;
    params = if has_body method then none else some (or_empty params);
  }

  -- The result is always a dict: no exception of the request leaves it.
  unfoldable pub make_api_request : Config → String → Method → Json → Option Json → Fields
  unfolding read_reply body_of request_of get_api_headers or_empty
  make_api_request c endpoint method payload params =
      read_reply c endpoint method (body_of method payload params)
        (request (request_of c endpoint method payload params))

  -- A day and page of orders.
  unfoldable pub pull_orders : Config → Json → Json → ℕ → ℕ → Fields
  pull_orders c from to page per_page = normalize_api_response (
      make_api_request c "order/pull-orders" http_get null (
        some (
          obj (
            field "page" (int (pos page))
              (field "per_page" (int (pos per_page)) (field "from" from (field "to" to end)))))))

  unfoldable pub update_single_order_status :
      Config → Option String → String → Option PaymentMethod → Option String → Fields
  unfolding missing_id
  update_single_order_status c none status payment otp = missing_id
  update_single_order_status c (some id) status payment otp =
      if str_eq id ""
      then missing_id
      else normalize_api_response (
          make_api_request c ("order/update-order-status/" <> id) http_post
            (obj (status_data id status payment otp)) none)

  unfoldable pub update_order_details : Config → Option String → Items → Fields
  unfolding missing_id
  update_order_details c none details = missing_id
  update_order_details c (some id) details =
      if str_eq id ""
      then missing_id
      else normalize_api_response (
          make_api_request c "order/update-order-details" http_post
            (arr (
              cons (obj (field "hashed_id" (str id) (field "order_details" (arr details) end)))
                nil))
            none)
