-- ===== src/Migrate/Cleanup.antt =====
-- migrations/18.0.2.0.39/pre-migrate.py: what the removed marketplace addon left in the database goes,
-- and its groups' users move to the groups of this addon. A statement of SQL is a function on its
-- table; the counts of rows, which only the server's log shows, are left out.
pub mod Laws
pub mod Cleaned
pub mod Completes
use Prim.Native.Char.{code}
use cartona_odoo.Base.{
  ℕ, String, Bool, true, false, not, ◌&&◌, ◌||◌, Option, none, some, List, [], ◌∷◌, ◌++◌, map, any,
  find, select, str_eq, ◌<>◌, ◌==◌, is_some, if◌then◌else◌,
}
use mathlib.Core.Option
use cartona_odoo.Py.Exn.{Result, ok, err, raise, other_error, ◌>>=◌}
use cartona_odoo.Migrate.Tables.{
  Channel, Cron, Database, Implied, JobFunction, Membership, QueueJob, RuleGroup, Table, XmlId,
  delete_xmlid, is_xmlid, this_module, without, xmlid_row,
}
use cartona_odoo.Migrate.Channel.{
  cleanup_marketplace_channel, delete_channel, find_channel, forget_channel, is_active_job,
  is_unfinished, marketplace_channel, remove_channel, unless_active,
}

-- `_migrate_groups`

abbrev pub is_member : ℕ → ℕ → Membership → Bool
is_member g u m = m.gid == g && m.uid == u

-- One row of `INSERT … ON CONFLICT DO NOTHING`.
insert_member : List Membership → ℕ → ℕ → List Membership
insert_member ms g u =
    if any (is_member g u) ms then ms else ms ++ (record { gid = g; uid = u } ∷ [])

-- The rows that the `SELECT` gives, into the new group.
insert_members : ℕ → List Membership → List Membership → List Membership
unfolding insert_member
insert_members new [] ms = ms
insert_members new (m ∷ rest) ms = insert_members new rest (insert_member ms new m.uid)

unfoldable pub move_members : ℕ → ℕ → List Membership → List Membership
unfolding insert_members
move_members old new ms =
    select (λ m. not (m.gid == old)) (insert_members new (select (λ m. m.gid == old) ms) ms)

-- The statements on one pair of groups.
unfoldable pub move_group : String → ℕ → ℕ → Database → Database
unfolding move_members delete_xmlid
move_group old_name old new db = record (delete_xmlid old_name db) {
  groups_users = move_members old new db.groups_users;
  groups_implied = select (λ i. not (i.gid == old || i.hid == old)) db.groups_implied;
  rule_groups = select (λ r. not (r.group_id == old)) db.rule_groups;
  groups = without old db.groups;
}

migrate_rows : String → Database → Option XmlId → Option XmlId → Database
unfolding move_group
migrate_rows old_name db none new = db
migrate_rows old_name db (some o) none = db
migrate_rows old_name db (some o) (some n) =
    if str_eq o.model "res.groups" then move_group old_name o.res_id n.res_id db else db

-- The body of the loop.
unfoldable pub migrate_group : String → String → Database → Database
unfolding migrate_rows
migrate_group old_name new_name db =
    migrate_rows old_name db (xmlid_row db old_name) (xmlid_row db new_name)

unfoldable pub migrate_groups : Database → Database
migrate_groups db =
    migrate_group "group_marketplace_manager" "group_cartona_manager"
      (migrate_group "group_marketplace_user" "group_cartona_user" db)

-- `_cartona_pull_cron_active`

cron_is_active : Database → Option XmlId → Bool
cron_is_active db none = false
cron_is_active db (some x) = elim (find (λ c. c.id == x.res_id) db.crons) [
  | none ↦ false
  | some c ↦ c.active
]

unfoldable pub cartona_pull_cron_active : Database → Bool
unfolding cron_is_active
cartona_pull_cron_active db = cron_is_active db (xmlid_row db "cron_pull_cartona_orders")

-- `_remove_marketplace_cron`

-- `model.replace('.', '_')`
dots_to_underscores : String → String
dots_to_underscores String.[] = ""
dots_to_underscores (String.◌∷◌ c s) =
    let rest = dots_to_underscores s in if code c == 46 then "_" <> rest else String.◌∷◌ c rest

-- The other models of `_MODEL_TABLE` have the name that their dots give.
table_for_model : String → String
unfolding dots_to_underscores
table_for_model m = if str_eq m "ir.actions.server" then "ir_act_server" else dots_to_underscores m

-- `DELETE FROM … WHERE id = …`, where the table exists: no row of another table goes.
delete_by_id : String → ℕ → Database → Database
delete_by_id table i db = record db {
  crons = if str_eq table "ir_cron" then select (λ c. not (c.id == i)) db.crons else db.crons;
  server_actions =
      if str_eq table "ir_act_server" then without i db.server_actions else db.server_actions;
  groups = if str_eq table "res_groups" then without i db.groups else db.groups;
  accesses = if str_eq table "ir_model_access" then without i db.accesses else db.accesses;
  queue_job_channel =
      if str_eq table "queue_job_channel"
      then Option.map (select (λ (c : Channel). not (c.id == i))) db.queue_job_channel
      else db.queue_job_channel;
  other_tables =
      map (λ t. if str_eq t.name table then record t { ids = without i t.ids } else t)
        db.other_tables;
}

deactivate : ℕ → Cron → Cron
deactivate i c = if c.id == i then record c { active = false } else c

remove_row : String → Database → Option XmlId → Database
unfolding delete_by_id table_for_model deactivate delete_xmlid
remove_row xmlid db none = db
remove_row xmlid db (some x) =
    let stopped : Database =
      if str_eq x.model "ir.cron"
      then record db { crons = map (deactivate x.res_id) db.crons }
      else db in
    delete_by_id (table_for_model x.model) x.res_id (delete_xmlid xmlid stopped)

-- The body of the loop.
unfoldable pub remove_xmlid : String → Database → Database
unfolding remove_row
remove_xmlid xmlid db = remove_row xmlid db (xmlid_row db xmlid)

unfoldable pub remove_marketplace_cron : Database → Database
remove_marketplace_cron db =
    remove_xmlid "cron_pull_marketplace_orders_ir_actions_server"
      (remove_xmlid "cron_pull_marketplace_orders" db)

-- `_drop_orphan_schema`

-- `_OBSOLETE_PRODUCT_COLUMNS`
abbrev is_obsolete : String → Bool
is_obsolete c =
    str_eq c "cartona_sync_status" || str_eq c "cartona_sync_date" || str_eq c "cartona_sync_error"

unfoldable pub drop_orphan_schema : Database → Database
drop_orphan_schema db = record db {
  other_tables =
      select (λ t. not (str_eq t.name "marketplace_delivery_otp_wizard")) db.other_tables;
  product_fields = select (λ f. not (is_obsolete f)) db.product_fields;
  product_columns = select (λ c. not (is_obsolete c)) db.product_columns;
}

-- `_remove_stale_acl_rows`

abbrev stale_acl_xmlids : List String
stale_acl_xmlids =
    "access_cartona_config_user" ∷ "access_cartona_config_manager" ∷ "access_cartona_api_user"
    ∷ "access_cartona_api_manager" ∷ "access_cartona_sync_log_user"
    ∷ "access_cartona_sync_log_manager" ∷ "access_cartona_sync_log_line_user"
    ∷ "access_cartona_sync_log_line_manager" ∷ "access_cartona_order_processor_user"
    ∷ "access_cartona_order_processor_manager" ∷ "access_cartona_product_sync_user"
    ∷ "access_cartona_product_sync_manager" ∷ []

remove_access : String → Database → Option XmlId → Database
unfolding delete_xmlid
remove_access xmlid db none = db
remove_access xmlid db (some x) =
    if str_eq x.model "ir.model.access"
    then record (delete_xmlid xmlid db) { accesses = without x.res_id db.accesses }
    else db

unfoldable pub remove_stale_acls : List String → Database → Database
unfolding remove_access
remove_stale_acls [] db = db
remove_stale_acls (xmlid ∷ rest) db =
    remove_stale_acls rest (remove_access xmlid db (xmlid_row db xmlid))

unfoldable pub remove_stale_acl_rows : Database → Database
remove_stale_acl_rows db = remove_stale_acls stale_acl_xmlids db

-- What follows the groups and the cron.
finish : Result Database → Result Database
finish (err e) = err e
finish (ok db) = ok (remove_stale_acl_rows (drop_orphan_schema db))

unfoldable pub migrate_cron : Database → Database
migrate_cron db = if cartona_pull_cron_active db then remove_marketplace_cron db else db

unfoldable pub migrate : Database → Result Database
unfolding finish
migrate db = finish (cleanup_marketplace_channel (migrate_cron (migrate_groups db)))
