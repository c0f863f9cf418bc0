-- ===== src/Examples.antt =====
-- A small world: a Python whose floats are natural numbers, one warehouse, two variants, one
-- retailer and one order. The children apply the theorems to it.
mod Orders
mod Sync
mod Products
mod Queue
mod Records
mod Migration
mod Renames
mod Linking
use cartona_odoo.Base.{
  ℕ, suc, ◌+◌, ◌*◌, ◌<◌, ◌≡◌, refl, subst, arith, String, Bool, true, false, not, Option, none,
  some, List, [], ◌∷◌, ◌++◌, map, any, ◌==◌, ltb, if◌then◌else◌,
}
use cartona_odoo.Py.Exn.{Exn, Result, ok, err, ok_injective}
use cartona_odoo.Py.Number.{ℤ, pos, negsuc}
use cartona_odoo.Py.Json.{
  Json, null, bool, int, str, arr, obj, nil, cons, Fields, field, end, Python,
}
use cartona_odoo.Config.Data.{Config, ConnectionStatus}
use cartona_odoo.Order.Data.{
  Order, Line, OrderState, SyncStatus, DeliveredBy, Picking, PickingState, PaymentMethod, Text,
}
use cartona_odoo.Order.Resolve.{Variant}
use cartona_odoo.Order.Lines.{CreateLine}
use cartona_odoo.Order.World.{World, Env}
use cartona_odoo.Order.Transition.{Odoo}
use cartona_odoo.Partner.{Partner, Directory}
use cartona_odoo.Log.{Logs, Caller}
use cartona_odoo.Product.SyncTable.{SyncRow}
use cartona_odoo.Product.Trigger.{Site}
use cartona_odoo.Api.Request.{Net, HttpRequest, Reply, replied}
use cartona_odoo.Api.Payload.{Shelf}
use cartona_odoo.Api.Batch.{SyncWorld}

abbrev natural : ℤ → Option ℕ
natural (pos n) = some n
natural (negsuc n) = none

abbrev python : Python
python = record {
  Float = ℕ;
  of_text = λ _. none;
  of_int = natural;
  mul = λ a b. a * b;
  is_zero = λ n. n == 0;
  le_zero = λ n. n == 0;
  gt_zero = λ n. ltb 0 n;
  eq = λ a b. a == b;
  hash_text = λ _. some "0";
  str_other = λ _. "";
}

abbrev config : Config
config = record {
  id = 1;
  name = "Cartona";
  warehouse_id = 1;
  company_id = 1;
  api_base_url = "https://api.example/v1/";
  auth_token = "token";
  is_cartona_sync_enabled = true;
  batch_size = 1;
  timeout = 30;
  last_sync_date = none;
  connection_status = ConnectionStatus.connected;
  error_message = none;
  total_products_synced = 0;
  total_orders_pulled = 0;
  last_order_pull = none;
  dashboard_issues_refreshed_at = none;
  product_mapping_issue_ids = [];
  recent_sync_issue_ids = [];
}

abbrev tea : Variant
tea = record { id = 42; name = "Tea"; active = true; sale_ok = true; company_id = none }

abbrev salt : Variant
salt = record { id = 43; name = "Salt"; active = true; sale_ok = true; company_id = some 1 }

abbrev browse : ℤ → Option Variant
browse (pos n) = if n == 42 then some tea else if n == 43 then some salt else none
browse (negsuc n) = none

-- A new line has an id above those of the order.
abbrev next_id : List (Line ℕ) → ℕ
next_id [] = 1
next_id (l ∷ ls) = suc (l.id + next_id ls)

abbrev create_line : CreateLine ℕ
create_line o l = ok (record l { id = next_id o.order_line })

abbrev directory : Directory
directory = record {
  create_partner = λ ps p. ok (record p { id = 7 });
  country_by_code = λ _. none;
  country_by_name = λ _. some 65;
  upper = λ s. s;
}

abbrev odoo : Odoo ℕ
odoo = record {
  action_confirm = λ o. (none, record o { state = OrderState.sale });
  action_cancel = λ o. (none, record o { state = OrderState.cancel });
  action_assign = λ _ o. (none, o);
  button_validate = λ _ o. (none, o);
  cancel_pickings = λ _ o. (none, o);
}

abbrev env : Env ℕ
env = record {
  browse = browse;
  odoo = odoo;
  directory = directory;
  create_line = create_line;
  create_order = λ _ o. ok (record o { id = 5; name = "S5" });
  unlink_order = λ _. none;
  now = 100;
  stamp = "100";
}

abbrev world : World ℕ
world = record { configs = config ∷ []; orders = []; partners = []; acks = []; issues = [] }

-- One line, of two pieces of tea.
abbrev payload : Json
payload = obj (
    field "hashed_id" (str "h1") (
      field "status" (str "approved") (
        field "retailer"
          (obj (field "retailer_name" (str "Shop") (field "retailer_code" (str "r9") end)))
          (field "order_details"
            (arr (
              cons
                (obj (
                  field "id" (int (pos 3)) (
                    field "internal_product_id" (str "42")
                      (field "amount" (int (pos 2)) (field "selling_price" (int (pos 10)) end)))))
                nil))
            end))))

abbrev net : Net
net = record {
  request = λ _. replied 200 "{}" (some (obj (field "success" (bool true) end)));
  dumps = λ _. "{}";
  rstrip_slash = λ s. s;
  lstrip_slash = λ s. s;
}

abbrev shelf : Shelf
shelf = record {
  lst_price = λ _ _. "10.0";
  free_qty = λ _ _. pos 4;
  is_unlimited_stock = λ _. false;
}

abbrev caller : Caller
caller = record { su = false; sync_log_internal = false; uid = 2 }

abbrev logs : Logs
logs = record { logs = []; lines = []; next_id = 1 }

abbrev row : SyncRow
row = record {
  product_id = 42;
  cartona_config_id = 1;
  company_id = 1;
  sync_status = SyncStatus.error;
  sync_date = none;
  sync_error = some "Timeout";
}

abbrev sync_world : SyncWorld
sync_world = record {
  rows = row ∷ [];
  logs = logs;
  queue = [];
  configs = config ∷ [];
  imported_orders = λ _. 0;
}

abbrev site : Site
site = record { skip_cartona_sync = false; company = 1; configs = config ∷ [] }

abbrev delivered : Picking ℕ
delivered = record {
  id = 8;
  name = "OUT8";
  outgoing = true;
  state = PickingState.done;
  move_ids = [];
}

abbrev pub line : Line ℕ
line = record {
  id = 1;
  product_id = some 42;
  name = "Tea";
  product_uom_qty = 2;
  price_unit = 10;
  cartona_line_id = some "3";
  cartona_line_notes = none;
}

abbrev order : Order ℕ
order = record {
  id = 5;
  name = "S5";
  state = OrderState.sale;
  partner_id = 7;
  company_id = 1;
  warehouse_id = 1;
  origin = "Cartona";
  cartona_id = some "h1";
  cartona_config_id = some 1;
  cartona_sync_status = SyncStatus.synced;
  cartona_sync_date = none;
  cartona_error_message = none;
  is_cartona_order = true;
  cartona_order_number = some "17";
  cartona_status = some "approved";
  cartona_payment_method = some PaymentMethod.installment;
  cartona_notes = none;
  delivered_by = DeliveredBy.delivered_by_supplier;
  cartona_delivery_otp = none;
  order_line = [];
  picking_ids = delivered ∷ [];
}
