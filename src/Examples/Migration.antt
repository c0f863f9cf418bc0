-- ===== src/Examples/Migration.antt =====
-- The migration, at a database with a user in each marketplace group.
use cartona_odoo.Base.{
  ℕ, ◌≡◌, refl, not, ◌&&◌, ◌||◌, true, none, some, [], ◌∷◌, List, String, map, select,
}
use cartona_odoo.Py.Exn.{ok}
use cartona_odoo.Migrate.Tables.{XmlId, Database, is_xmlid, xmlid_row}
use cartona_odoo.Migrate.Cleanup.{migrate}
use cartona_odoo.Migrate.Cleanup.Laws.{has_user}
use cartona_odoo.Migrate.Jobs.{
  QueueJob, is_unfinished, names_marketplace, move_channel, migrate as migrate_jobs,
}
use cartona_odoo.Migrate.Jobs.Laws.{migrate-unfinished}
use cartona_odoo.Migrate.Cleanup.Completes.{migrate-Completes}
use cartona_odoo.Migrate.Pivot.{
  Database as PivotDatabase, PivotRow, has_column, pre_migrate, post_migrate,
}
use cartona_odoo.Migrate.Pivot.Laws.{has_row, had_state, post_migrate-pre_migrate}

abbrev group : String → ℕ → XmlId
group name i = record { addon = "cartona_odoo"; name = name; model = "res.groups"; res_id = i }

abbrev old_database : Database
old_database = record {
  xml_ids =
      group "group_marketplace_user" 1
      ∷ group "group_cartona_user" 2
      ∷ group "group_marketplace_manager" 3
      ∷ group "group_cartona_manager" 4
      ∷ [];
  groups_users = record { gid = 1; uid = 7 } ∷ record { gid = 3; uid = 8 } ∷ [];
  groups_implied = record { gid = 3; hid = 1 } ∷ [];
  rule_groups = [];
  groups = 1 ∷ 2 ∷ 3 ∷ 4 ∷ [];
  crons = [];
  server_actions = [];
  accesses = [];
  queue_job = some [];
  queue_job_channel = some (record { id = 5; complete_name = "root.marketplace" } ∷ []);
  queue_job_function = some [];
  other_tables = [];
  product_fields = "cartona_sync_date" ∷ [];
  product_columns = "cartona_sync_date" ∷ [];
}

old_user : xmlid_row old_database "group_marketplace_user" ≡ some (group "group_marketplace_user" 1)
unfolding xmlid_row is_xmlid
old_user = refl

new_user : xmlid_row old_database "group_cartona_user" ≡ some (group "group_cartona_user" 2)
unfolding xmlid_row is_xmlid
new_user = refl

old_manager :
    xmlid_row old_database "group_marketplace_manager" ≡ some (group "group_marketplace_manager" 3)
unfolding xmlid_row is_xmlid
old_manager = refl

new_manager :
    xmlid_row old_database "group_cartona_manager" ≡ some (group "group_cartona_manager" 4)
unfolding xmlid_row is_xmlid
new_manager = refl

migrate-Completes_example :
    (later : Database) × (migrate old_database ≡ ok later)
    × (has_user 2 7 later.groups_users
        ≡ (has_user 2 7 old_database.groups_users || has_user 1 7 old_database.groups_users))
    × (has_user 4 7 later.groups_users
        ≡ (has_user 4 7 old_database.groups_users || has_user 3 7 old_database.groups_users))
    × (later.queue_job ≡ old_database.queue_job)
migrate-Completes_example =
    migrate-Completes old_database (group "group_marketplace_user" 1) (group "group_cartona_user" 2)
      (group "group_marketplace_manager" 3) (group "group_cartona_manager" 4) 7 refl old_user
      new_user old_manager new_manager refl refl

abbrev stock_job : String → QueueJob
stock_job name = record {
  model_name = "product.product";
  method_name = name;
  kwargs = "{}";
  channel = "marketplace";
  state = "pending";
}

abbrev old_jobs : List QueueJob
old_jobs = stock_job "_sync_stock_to_marketplaces" ∷ stock_job "_sync_to_cartona" ∷ []

migrate-unfinished_example :
    select (λ j. is_unfinished j.state) (migrate_jobs old_jobs)
    ≡ map move_channel
        (select (λ j. is_unfinished j.state && not (names_marketplace j.method_name)) old_jobs)
migrate-unfinished_example = migrate-unfinished old_jobs

abbrev old_state : PivotDatabase
old_state = record {
  model_fields = [];
  columns = record { table = "product_product"; name = "cartona_sync_status" } ∷ [];
  xml_ids = [];
  views = [];
  products =
      record {
        id = 42;
        company_id = none;
        cartona_sync_status = some "synced";
        cartona_sync_date = some 9;
        cartona_sync_error = none;
      }
      ∷ [];
  configs = record { id = 1; company_id = 1 } ∷ [];
  staging = none;
  pivot = none;
}

old_state-has_column : has_column old_state "product_product" "cartona_sync_status" ≡ true
unfolding has_column
old_state-has_column = refl

post_migrate-pre_migrate_example :
    (rows : List PivotRow) × ((post_migrate
        (record (pre_migrate old_state) { pivot = some [] })).pivot
      ≡ some rows)
    × ((post_migrate (record (pre_migrate old_state) { pivot = some [] })).staging ≡ none)
    × (has_row 42 1 rows ≡ (has_row 42 1 [] || had_state 42 1 old_state.products old_state.configs))
post_migrate-pre_migrate_example = post_migrate-pre_migrate old_state [] 42 1 old_state-has_column
