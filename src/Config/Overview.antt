-- ===== src/Config/Overview.antt =====
-- The dashboard's own window and the bar of windows that goes with it: models/cartona_config.py.
use cartona_odoo.Base.{
  ℕ, String, Bool, false, Option, none, List, [], ◌∷◌, ◌++◌, str_eq, if◌then◌else◌, length,
}
use cartona_odoo.Config.Data.{Config}
use cartona_odoo.Config.Dashboard.{refresh_dashboard_issues_if_stale}
use cartona_odoo.Config.Domain.{Cell}
use cartona_odoo.Config.Stats.{update_sync_stats}
use cartona_odoo.Log.{Logs}
use cartona_odoo.Product.SyncTable.{SyncRow}

-- An entry of the bar.
pub record Embedded : Type 0 where
  pub id : Option ℕ
  pub name : String
  pub parent_action_id : ℕ
  pub parent_res_model : String
  pub action_id : ℕ
  pub user_id : Option ℕ
  pub context : String
  pub domain : String
  pub default_view_mode : String
  pub groups_ids : List ℕ
  pub parent_res_id : ℕ
  pub filter_ids : List ℕ
  pub is_deletable : Bool
  pub python_method : Option String

-- The context of a window action, as Odoo reads it.
pub data WindowContext : Type 0 where
  absent : WindowContext
  source : String → WindowContext
  dict : List Cell → WindowContext

-- What Odoo knows of the window: its action, the ids of the bar's entries by their names in XML, the
-- visible entries for a configuration in their order, and `safe_eval`.
pub record Menu : Type 0 where
  pub parent_id : ℕ
  pub parent_name : String
  pub context : WindowContext
  pub embedded_id : String → ℕ
  pub visible : ℕ → List Embedded
  pub safe_eval : String → List Cell

unfoldable pub get_dashboard_embedded_actions : Menu → Config → List Embedded
get_dashboard_embedded_actions menu c =
    menu.visible c.id
    ++ (record {
      id = none;
      name = menu.parent_name;
      parent_action_id = menu.parent_id;
      parent_res_model = "cartona.config";
      action_id = menu.parent_id;
      user_id = none;
      context = "{}";
      domain = "[]";
      default_view_mode = "form";
      groups_ids = [];
      parent_res_id = 0;
      filter_ids = [];
      is_deletable = false;
      python_method = none;
    }
        ∷ [])

-- The keys of a context that hold the bar.
pub record Bar : Type 0 where
  pub active_id : ℕ
  pub active_model : String
  pub parent_action_id : ℕ
  pub current_embedded_action_id : ℕ
  pub parent_action_embedded_actions : List Embedded

unfoldable pub dashboard_embedded_context : Menu → Config → String → Bar
unfolding get_dashboard_embedded_actions
dashboard_embedded_context menu c xmlid = record {
  active_id = c.id;
  active_model = "cartona.config";
  parent_action_id = menu.parent_id;
  current_embedded_action_id = menu.embedded_id xmlid;
  parent_action_embedded_actions = get_dashboard_embedded_actions menu c;
}

-- The window of the dashboard, and the configuration that the call leaves.
pub record Overview : Type 0 where
  pub config : Config
  pub res_id : ℕ
  pub context : List Cell
  pub bar : Bar

window_context : Menu → WindowContext → List Cell
window_context menu absent = []
window_context menu (source s) = if str_eq s "" then [] else menu.safe_eval s
window_context menu (dict cells) = cells

unfoldable pub action_dashboard_overview : Menu → ℕ → Logs → Config → Overview
unfolding window_context dashboard_embedded_context
action_dashboard_overview menu now db c = record {
  config = refresh_dashboard_issues_if_stale now false db c;
  res_id = c.id;
  context = window_context menu menu.context;
  bar = dashboard_embedded_context menu c "cartona_embedded_dashboard_overview";
}

unfoldable pub action_open_dashboard : Menu → ℕ → List SyncRow → ℕ → Logs → Config → Overview
unfolding action_dashboard_overview
action_open_dashboard menu now rows pulled db c =
    action_dashboard_overview menu now db (update_sync_stats now rows pulled c)

-- `_compute_dashboard_issue_counts`
pub record IssueCounts : Type 0 where
  pub product_mapping : ℕ
  pub recent_sync : ℕ

unfoldable pub compute_dashboard_issue_counts : Config → IssueCounts
compute_dashboard_issue_counts c = record {
  product_mapping = length c.product_mapping_issue_ids;
  recent_sync = length c.recent_sync_issue_ids;
}
