-- ===== src/Config/Data.antt =====
-- The stored fields of `cartona.config` (models/cartona_config.py) that the addon computes with.
use cartona_odoo.Base.{ℕ, String, Bool, Option, List}

pub data ConnectionStatus : Type 0 where
  not_tested connected connection_error : ConnectionStatus

-- `company_id` is the related field of the warehouse. Times are minutes of the server's clock. The last
-- two fields are the snapshot of the dashboard: ids of lines and of logs.
pub record Config : Type 0 where
  pub id : ℕ
  pub name : String
  pub warehouse_id : ℕ
  pub company_id : ℕ
  pub api_base_url : String
  pub auth_token : String
  pub is_cartona_sync_enabled : Bool
  pub batch_size : ℕ
  pub timeout : ℕ
  pub last_sync_date : Option ℕ
  pub connection_status : ConnectionStatus
  pub error_message : Option String
  pub total_products_synced : ℕ
  pub total_orders_pulled : ℕ
  pub last_order_pull : Option ℕ
  pub dashboard_issues_refreshed_at : Option ℕ
  pub product_mapping_issue_ids : List ℕ
  pub recent_sync_issue_ids : List ℕ
