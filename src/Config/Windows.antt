-- ===== src/Config/Windows.antt =====
-- The window actions of models/cartona_config.py, which list records: their domains are the data here.
pub mod Laws
use cartona_odoo.Base.{
  ℕ, String, Bool, true, false, not, ◌&&◌, Option, none, some, List, [], ◌∷◌, ◌++◌, map, ◌-◌, ◌*◌,
  str_eq, if◌then◌else◌,
}
use cartona_odoo.Config.Data.{Config}
use cartona_odoo.Config.Dashboard.{issue_since}
use cartona_odoo.Config.Domain.{
  Value, number, word, flag, Condition, equals, within, at_least, Cell,
}
use cartona_odoo.Config.Jobs.{Job, pending_jobs}

-- A window action, without the context of the dashboard's bar. Views are named by their ids in XML.
pub record Window : Type 0 where
  pub name : String
  pub res_model : String
  pub view_mode : String
  pub views : List String
  pub search_view : Option String
  pub domain : List Condition
  pub context : List Cell

abbrev pub cell : String → Value → Cell
cell field value = record { field = field; value = value }

abbrev default_config : Config → List Cell
default_config c = cell "default_cartona_config_id" (number c.id) ∷ []

-- `_dashboard_sync_domain(extra)`
unfoldable pub dashboard_sync_domain : Config → List Condition → List Condition
dashboard_sync_domain c extra = equals "cartona_config_id" (number c.id) ∷ extra

-- The statuses that a button asks for: one, or several.
pub data Wanted : Type 0 where
  one : String → Wanted
  several : List String → Wanted

abbrev status_filter : Wanted → Condition
status_filter (one s) = equals "sync_status" (word s)
status_filter (several ss) = within "sync_status" (map word ss)

abbrev window_name : Wanted → String
window_name (several ss) = "Pending Variants"
window_name (one s) =
    if str_eq s "synced"
    then "Synced Variants"
    else if str_eq s "error"
    then "Variants With Sync Errors"
    else if str_eq s "not_synced"
    then "Unsynced Variants"
    else if str_eq s "syncing"
    then "Variants Syncing"
    else "Variants"

unfoldable pub action_view_sync_by_status : Config → Wanted → Window
unfolding dashboard_sync_domain
action_view_sync_by_status c status = record {
  name = window_name status;
  res_model = "cartona.product.sync";
  view_mode = "list,form";
  views = "view_cartona_product_sync_list" ∷ "view_cartona_product_sync_form" ∷ [];
  search_view = none;
  domain = dashboard_sync_domain c (status_filter status ∷ []);
  context = default_config c;
}

unfoldable pub action_view_products_synced : Config → Window
unfolding action_view_sync_by_status
action_view_products_synced c = action_view_sync_by_status c (one "synced")

unfoldable pub action_view_synced_variants : Config → Window
unfolding action_view_sync_by_status
action_view_synced_variants c = action_view_sync_by_status c (one "synced")

unfoldable pub action_view_products_error : Config → Window
unfolding action_view_sync_by_status
action_view_products_error c = action_view_sync_by_status c (one "error")

unfoldable pub action_view_products_pending : Config → Window
unfolding action_view_sync_by_status
action_view_products_pending c =
    action_view_sync_by_status c (several ("not_synced" ∷ "syncing" ∷ []))

abbrev log_views : List String
log_views = "view_cartona_sync_log_list" ∷ "view_cartona_sync_log_form" ∷ []

abbrev trouble : Condition
trouble = within "status" (word "error" ∷ word "warning" ∷ [])

unfoldable pub action_dashboard_recent_activity : Config → Window
action_dashboard_recent_activity c = record {
  name = "Recent Activity";
  res_model = "cartona.sync.log";
  view_mode = "list,form";
  views = log_views;
  search_view = some "view_cartona_sync_log_search";
  domain = equals "cartona_config_id" (number c.id) ∷ [];
  context = default_config c;
}

unfoldable pub action_view_sync_logs : Config → Window
unfolding action_dashboard_recent_activity
action_view_sync_logs c = action_dashboard_recent_activity c

unfoldable pub action_dashboard_log_details : Config → Window
action_dashboard_log_details c = record {
  name = "Log Details";
  res_model = "cartona.sync.log.line";
  view_mode = "list,form";
  views = "view_cartona_sync_log_line_list" ∷ "view_cartona_sync_log_line_form" ∷ [];
  search_view = some "view_cartona_sync_log_line_search";
  domain = equals "sync_log_id.cartona_config_id" (number c.id) ∷ [];
  context = [];
}

-- `_dashboard_product_mapping_domain` and `_dashboard_recent_sync_domain`, as conditions.
unfoldable pub product_mapping_domain : ℕ → Config → List Condition
product_mapping_domain now c =
    equals "sync_log_id.cartona_config_id" (number c.id)
    ∷ at_least "sync_log_id.create_date" (issue_since now)
    ∷ equals "entry_type" (word "order_line")
    ∷ trouble
    ∷ within "error_code" (
        word "missing_internal_product_id"
        ∷ word "invalid_internal_product_id"
        ∷ word "variant_not_found"
        ∷ word "variant_not_available"
        ∷ [])
    ∷ []

unfoldable pub recent_sync_domain : ℕ → Config → List Condition
recent_sync_domain now c =
    equals "cartona_config_id" (number c.id)
    ∷ at_least "create_date" (issue_since now)
    ∷ trouble
    ∷ []

unfoldable pub action_view_product_mapping_issues : ℕ → Config → Window
unfolding action_dashboard_log_details product_mapping_domain
action_view_product_mapping_issues now c = record (action_dashboard_log_details c) {
  name = "Product Mapping Issues (24h)";
  domain = product_mapping_domain now c;
  context =
      (action_dashboard_log_details c).context
      ++ (cell "search_default_filter_order_line" (number 1)
          ∷ cell "search_default_filter_product_mapping" (number 1)
          ∷ []);
}

unfoldable pub action_view_recent_sync_issues : ℕ → Config → Window
unfolding action_dashboard_recent_activity recent_sync_domain
action_view_recent_sync_issues now c = record (action_dashboard_recent_activity c) {
  name = "Recent Sync Issues (24h)";
  domain = recent_sync_domain now c;
  context =
      (action_dashboard_recent_activity c).context
      ++ (cell "search_default_filter_error" (number 1) ∷ []);
}

unfoldable pub action_view_sync_errors_24h : ℕ → Config → Window
action_view_sync_errors_24h now c = record {
  name = "Recent Sync Issues";
  res_model = "cartona.sync.log";
  view_mode = "list,form";
  views = log_views;
  search_view = none;
  domain =
      equals "cartona_config_id" (number c.id)
      ∷ trouble
      ∷ at_least "create_date" (now - 24 * 60)
      ∷ [];
  context = [];
}

unfoldable pub action_view_pending_jobs : (String → String → Bool) → Config → List Job → Window
action_view_pending_jobs ilike c jobs = record {
  name = "Cartona Queue Jobs";
  res_model = "queue.job";
  view_mode = "list,form";
  views = [];
  search_view = none;
  domain = within "id" (map (λ j. number j.id) (pending_jobs ilike c jobs)) ∷ [];
  context = [];
}

unfoldable pub action_view_cartona_orders : Config → Window
action_view_cartona_orders c = record {
  name = "Cartona Orders";
  res_model = "sale.order";
  view_mode = "list,form";
  views = [];
  search_view = none;
  domain = equals "is_cartona_order" (flag true) ∷ equals "cartona_config_id" (number c.id) ∷ [];
  context = [];
}
