-- ===== src/Examples/Sync.antt =====
-- The theorems on what is sent to Cartona, at one variant, one order and one delivery.
use cartona_odoo.Base.{ℕ, String, ◌≡◌, refl, true, false, not, ◌&&◌, none, some, [], ◌∷◌, ◌++◌, any}
use cartona_odoo.Py.Exn.{ok}
use cartona_odoo.Py.Number.{pos, str_int}
use cartona_odoo.Py.Json.{Json, null, int, get_none, str_json}
use cartona_odoo.Order.Data.{Order}
use cartona_odoo.Order.World.{filled}
use cartona_odoo.Api.Request.{
  Method, successful, normalize_api_response, make_api_request, request_of,
}
use cartona_odoo.Log.{Log}
use cartona_odoo.Api.Ack.{ack_request, post_ack}
use cartona_odoo.Api.Ack.Laws.{is_success, was_accepted, post_ack-logs}
use cartona_odoo.Api.Request.Laws.{means_success, make_api_request-outcome}
use cartona_odoo.Sale.Triggers.{config_of, cartona_sync_active, write, writes}
use cartona_odoo.Sale.Triggers.Laws.{has_job, tells, write-has_job}
use cartona_odoo.Sale.Status.{sync_status_to_cartona, map_odoo_status_to_cartona, by_supplier}
use cartona_odoo.Sale.Status.Laws.{told, Settled, sync_status_to_cartona-Settled}
use cartona_odoo.Delivery.{Validate, finished, action_confirm}
use cartona_odoo.Sale.Details.{is_nil, order_details, sync_order_details_to_cartona}
use cartona_odoo.Sale.Details.Laws.{told as told_details, Ends, sync_order_details_to_cartona-Ends}
use cartona_odoo.Delivery.Laws.{told as told_delivery, Guarded, action_confirm-Guarded}
use cartona_odoo.Order.Resolve.{foreign, resolved, resolve_variant}
use cartona_odoo.Product.Trigger.{SyncFields}
use cartona_odoo.Api.Payload.{build_variant_payload}
use cartona_odoo.Api.Payload.Resolves.{build_variant_payload-resolve_variant}
use cartona_odoo.Examples.{
  browse, shelf, tea, python, config, net, caller, logs, order, line, delivered,
}

make_api_request-outcome_example :
    successful python (
      normalize_api_response
        (make_api_request net config "supplier-product" Method.http_get null none))
    ≡ means_success python
        (net.request (request_of net config "supplier-product" Method.http_get null none))
make_api_request-outcome_example =
    make_api_request-outcome python net config "supplier-product" Method.http_get null none

write-has_job_example : has_job 5 1 (write false (config ∷ []) ("state" ∷ []) (order ∷ [])) ≡ (
    writes ("state" ∷ "delivery_status" ∷ []) ("state" ∷ [])
    && not false
    && any (tells (config ∷ []) 5 1) (order ∷ []))
write-has_job_example = write-has_job (config ∷ []) 5 1 false ("state" ∷ []) (order ∷ [])

order-config : config_of (config ∷ []) order ≡ some config
unfolding config_of
order-config = refl

order-active : cartona_sync_active (config ∷ []) order ≡ true
unfolding cartona_sync_active config_of
order-active = refl

order-filled : filled order.cartona_id ≡ true
unfolding filled
order-filled = refl

sync_status_to_cartona-Settled_example :
    Settled
      (told python net config order (map_odoo_status_to_cartona order.state))
      (map_odoo_status_to_cartona order.state)
      (sync_status_to_cartona python net 100 (config ∷ []) order)
sync_status_to_cartona-Settled_example =
    sync_status_to_cartona-Settled python net 100 (config ∷ []) config order order-config refl
      order-filled

abbrev filled_order : Order ℕ
filled_order = record order { order_line = line ∷ [] }

abbrev int_json : ℕ → Json
int_json n = int (pos n)

filled_order-config : config_of (config ∷ []) filled_order ≡ some config
unfolding config_of
filled_order-config = refl

sync_order_details_to_cartona-Ends_example :
    Ends
      (not (is_nil (order_details int_json filled_order.order_line)))
      (told_details python net config (some "h1") (order_details int_json filled_order.order_line))
      logs
      (sync_order_details_to_cartona python net 100 caller int_json (config ∷ []) filled_order logs)
sync_order_details_to_cartona-Ends_example =
    sync_order_details_to_cartona-Ends python net 100 caller int_json (config ∷ []) config
      filled_order logs filled_order-config refl refl order-filled

post_ack-logs_example :
    (l : Log) × ((post_ack net "timeout" 100 caller config none order "h1" logs).logs
      ≡ logs.logs ++ (l ∷ []))
    × ((post_ack net "timeout" 100 caller config none order "h1" logs).lines ≡ logs.lines)
    × (l.id ≡ logs.next_id)
    × (l.vals.cartona_config_id ≡ config.id)
    × (l.vals.about ≡ some (record { model = "sale.order"; id = order.id; name = order.name }))
    × (is_success l.vals.status
        ≡ was_accepted (net.request (ack_request net "timeout" 100 caller config "h1")))
post_ack-logs_example = post_ack-logs net "timeout" 100 caller config none order "h1" logs

abbrev validate : Validate ℕ
validate ds = ok (finished, ds)

order-supplied : by_supplier order.delivered_by ≡ true
order-supplied = refl

action_confirm-Guarded_example :
    Guarded python validate
      (config ∷ [])
      (some "1234")
      delivered
      (told_delivery python net config (record order { cartona_delivery_otp = some "1234" }))
      (action_confirm python net 100 caller validate
        (config ∷ [])
        (some "1234")
        delivered
        order
        logs)
action_confirm-Guarded_example =
    action_confirm-Guarded python net 100 caller validate (config ∷ []) config (some "1234")
      delivered order logs order-config refl order-filled order-supplied

tea-own : foreign none config.company_id ≡ false
unfolding foreign
tea-own = refl

build_variant_payload-resolve_variant_example :
    (sent : String) × (str_json python (
        get_none (build_variant_payload shelf tea SyncFields.both 1 (some 1)) "internal_product_id")
      ≡ sent)
    × (resolve_variant browse sent config ≡ resolved tea)
    × (str_int (pos 42) ≡ sent)
build_variant_payload-resolve_variant_example =
    build_variant_payload-resolve_variant python browse config shelf tea SyncFields.both 1 (some 1)
      refl refl refl tea-own
