-- ===== src/Migrate/Names.antt =====
-- The schema that migrations/18.0.2.0.0 changes, and its constants: the old names and the new ones,
-- and the columns that go.
use cartona_odoo.Base.{String, List, [], ◌∷◌}

-- What a column holds: what it held, or one value in every row.
pub data Contents : Type 0 where
  kept : String → Contents
  filled : String → Contents

-- A row of `information_schema.columns`, with what the column holds.
pub record Column : Type 0 where
  pub table : String
  pub name : String
  pub contents : Contents

-- A row of `ir_model_fields`.
pub record ModelField : Type 0 where
  pub model : String
  pub name : String

-- `information_schema.tables`, the columns, `ir_model` and `ir_model_fields`
pub record Database : Type 0 where
  pub tables : List String
  pub columns : List Column
  pub models : List String
  pub model_fields : List ModelField

-- An old and a new name, and those of a column.
pub record Rename : Type 0 where
  pub old : String
  pub new : String

pub record ColumnRename : Type 0 where
  pub table : String
  pub old : String
  pub new : String

pub record ColumnName : Type 0 where
  pub table : String
  pub name : String

abbrev rename : String → String → Rename
rename old new = record { old = old; new = new }

-- `TABLE_RENAMES`
abbrev pub table_renames : List Rename
table_renames =
    rename "marketplace_config" "cartona_config"
    ∷ rename "marketplace_api" "cartona_api"
    ∷ rename "marketplace_order_processor" "cartona_order_processor"
    ∷ rename "marketplace_sync_log" "cartona_sync_log"
    ∷ []

-- `MODEL_RENAMES`
abbrev pub model_renames : List Rename
model_renames =
    rename "marketplace.config" "cartona.config"
    ∷ rename "marketplace.api" "cartona.api"
    ∷ rename "marketplace.order.processor" "cartona.order.processor"
    ∷ rename "marketplace.sync.log" "cartona.sync.log"
    ∷ rename "marketplace.delivery.otp.wizard" "cartona.delivery.otp.wizard"
    ∷ []

abbrev column : String → String → String → ColumnRename
column table old new = record { table = table; old = old; new = new }

-- `FIELD_RENAMES`, one table after the other.
abbrev pub field_renames : List ColumnRename
field_renames =
    column "product_product" "marketplace_sync_status" "cartona_sync_status"
    ∷ column "product_product" "marketplace_sync_date" "cartona_sync_date"
    ∷ column "product_product" "marketplace_error_message" "cartona_sync_error"
    ∷ column "sale_order" "marketplace_config_id" "cartona_config_id"
    ∷ column "sale_order" "marketplace_sync_status" "cartona_sync_status"
    ∷ column "sale_order" "marketplace_sync_date" "cartona_sync_date"
    ∷ column "sale_order" "marketplace_error_message" "cartona_error_message"
    ∷ column "sale_order" "is_marketplace_order" "is_cartona_order"
    ∷ column "sale_order" "marketplace_order_number" "cartona_order_number"
    ∷ column "sale_order" "marketplace_status" "cartona_status"
    ∷ column "sale_order" "marketplace_payment_method" "cartona_payment_method"
    ∷ column "sale_order" "marketplace_notes" "cartona_notes"
    ∷ column "sale_order" "marketplace_delivery_otp" "cartona_delivery_otp"
    ∷ column "sale_order_line" "marketplace_line_id" "cartona_line_id"
    ∷ column "sale_order_line" "marketplace_sku" "cartona_sku"
    ∷ column "sale_order_line" "marketplace_notes" "cartona_line_notes"
    ∷ column "res_partner" "marketplace_source" "cartona_config_id"
    ∷ column "res_partner" "is_marketplace_customer" "is_cartona_customer"
    ∷ column "res_partner" "marketplace_sync_date" "cartona_sync_date"
    ∷ column "cartona_sync_log" "marketplace_config_id" "cartona_config_id"
    ∷ []

abbrev dropped : String → String → ColumnName
dropped table name = record { table = table; name = name }

-- `COLUMNS_TO_DROP`, one table after the other.
abbrev pub columns_to_drop : List ColumnName
columns_to_drop =
    dropped "product_product" "cartona_id"
    ∷ dropped "product_product" "marketplace_stock_sync_enabled"
    ∷ dropped "product_product" "last_stock_sync_date"
    ∷ dropped "product_product" "stock_sync_error"
    ∷ dropped "product_template" "cartona_id"
    ∷ dropped "product_template" "delivered_by"
    ∷ dropped "product_template" "marketplace_sync_status"
    ∷ dropped "product_template" "marketplace_sync_date"
    ∷ dropped "product_template" "marketplace_error_message"
    ∷ dropped "product_template" "marketplace_sync_enabled"
    ∷ dropped "sale_order_line" "marketplace_product_id"
    ∷ dropped "res_partner" "marketplace_sync_status"
    ∷ dropped "res_partner" "marketplace_error_message"
    ∷ dropped "res_partner" "partner_type_marketplace"
    ∷ dropped "res_partner" "last_customer_sync_date"
    ∷ dropped "cartona_config" "auto_sync_prices"
    ∷ dropped "cartona_config" "auto_sync_stock"
    ∷ dropped "cartona_config" "auto_pull_orders"
    ∷ dropped "cartona_config" "retry_attempts"
    ∷ dropped "cartona_config" "auth_header"
    ∷ dropped "stock_quant" "marketplace_stock_sync_status"
    ∷ dropped "stock_quant" "last_marketplace_sync"
    ∷ dropped "stock_quant" "stock_sync_error"
    ∷ dropped "stock_location" "marketplace_sync_enabled"
    ∷ dropped "stock_location" "marketplace_location_code"
    ∷ []
