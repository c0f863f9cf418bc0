-- ===== src/Migrate/Cleanup/Cleaned.antt =====
-- The steps of the clean-up in migrations/18.0.2.0.39/pre-migrate.py.
use cartona_odoo.Base.{
  ℕ, ◌≡◌, refl, ap, ◌∙◌, Bool, true, false, not, Option, none, some, List, [], ◌∷◌, arith, any,
  select, str_eq, ◌==◌, is_some, Bool-cases, inl, inr, String, if◌then◌else◌,
}
use mathlib.Core.Option
use cartona_odoo.Py.Exn.{Result, ok}
use cartona_odoo.Migrate.Tables.{XmlId, Database, Channel, QueueJob, xmlid_row, delete_xmlid}
use cartona_odoo.Migrate.Cleanup.{
  migrate_group, migrate_groups, migrate_rows, move_group, delete_by_id, remove_row, remove_xmlid,
  remove_marketplace_cron, cartona_pull_cron_active, migrate_cron, drop_orphan_schema,
  remove_access, remove_stale_acls, remove_stale_acl_rows, stale_acl_xmlids, finish, migrate,
}
use cartona_odoo.Migrate.Channel.{
  cleanup_marketplace_channel, unless_active, remove_channel, delete_channel, forget_channel,
  marketplace_channel, is_active_job,
}

-- The members of the groups, the jobs, and that there is a table of channels, are as before.
abbrev Kept : Database → Database → Type 0
Kept db later =
    (later.groups_users ≡ db.groups_users)
    × (later.queue_job ≡ db.queue_job)
    × (is_some later.queue_job_channel ≡ is_some db.queue_job_channel)

Kept-trans : (a b c : Database) → Kept a b → Kept b c → Kept a c
Kept-trans a b c (x, y, z) (x', y', z') = (x' ∙ x, y' ∙ y, z' ∙ z)

delete_by_id-channels :
    (b : Bool) (i : ℕ) (cs : Option (List Channel))
    → is_some (if b then Option.map (select (λ (c : Channel). not (c.id == i))) cs else cs)
      ≡ is_some cs
delete_by_id-channels true i none = refl
delete_by_id-channels true i (some cs) = refl
delete_by_id-channels false i cs = refl

remove_row-Kept :
    (xmlid : String) (db : Database) (x : Option XmlId) → Kept db (remove_row xmlid db x)
unfolding remove_row delete_by_id delete_xmlid
remove_row-Kept xmlid db none = (refl, refl, refl)
remove_row-Kept xmlid db (some x) = elim (Bool-cases (str_eq x.model "ir.cron")) [
  | inl y ↦ rw y (refl, refl, delete_by_id-channels _ x.res_id db.queue_job_channel)
  | inr n ↦ rw n (refl, refl, delete_by_id-channels _ x.res_id db.queue_job_channel)
]

remove_xmlid-Kept : (xmlid : String) (db : Database) → Kept db (remove_xmlid xmlid db)
unfolding remove_xmlid
remove_xmlid-Kept xmlid db = remove_row-Kept xmlid db (xmlid_row db xmlid)

migrate_cron-Kept : (db : Database) → Kept db (migrate_cron db)
unfolding migrate_cron remove_marketplace_cron
migrate_cron-Kept db = elim (Bool-cases (cartona_pull_cron_active db)) [
  | inl y ↦
      let one : Database = remove_xmlid "cron_pull_marketplace_orders" db in
      rw y (
        Kept-trans db one (remove_xmlid "cron_pull_marketplace_orders_ir_actions_server" one)
          (remove_xmlid-Kept "cron_pull_marketplace_orders" db)
          (remove_xmlid-Kept "cron_pull_marketplace_orders_ir_actions_server" one))
  | inr n ↦ rw n (refl, refl, refl)
]

-- A result, and what it keeps.
abbrev Cleaned : Database → Result Database → Type 0
Cleaned db r =
    (later : Database) × (r ≡ ok later)
    × (later.groups_users ≡ db.groups_users)
    × (later.queue_job ≡ db.queue_job)

delete_channel-Cleaned :
    (i : ℕ) (db : Database) (cs : Option (List Channel))
    → is_some cs ≡ true
    → Cleaned db (delete_channel i db cs)
unfolding delete_channel
delete_channel-Cleaned i db none h = ground arith
delete_channel-Cleaned i db (some cs) h = (_, refl, refl, refl)

remove_channel-Cleaned :
    (db : Database) (i : Option ℕ)
    → is_some db.queue_job_channel ≡ true
    → Cleaned db (remove_channel db i)
unfolding remove_channel forget_channel delete_xmlid
remove_channel-Cleaned db none h = (db, refl, refl, refl)
remove_channel-Cleaned db (some i) h = elim (Bool-cases (i == 0)) [
  | inl y ↦ rw y (db, refl, refl, refl)
  | inr n ↦ rw n (delete_channel-Cleaned i (forget_channel i db) db.queue_job_channel h)
]

unless_active-Cleaned :
    (db : Database) (jobs : Option (List QueueJob))
    → is_some db.queue_job_channel ≡ true
    → Cleaned db (unless_active db jobs)
unfolding unless_active
unless_active-Cleaned db none h = (db, refl, refl, refl)
unless_active-Cleaned db (some jobs) h = elim (Bool-cases (any is_active_job jobs)) [
  | inl y ↦ rw y (db, refl, refl, refl)
  | inr n ↦ rw n (
      remove_channel-Cleaned db
        (marketplace_channel db (xmlid_row db "queue_job_channel_marketplace")) h)
]

remove_access-users :
    (xmlid : String) (db : Database) (x : Option XmlId)
    → ((remove_access xmlid db x).groups_users ≡ db.groups_users)
      × ((remove_access xmlid db x).queue_job ≡ db.queue_job)
unfolding remove_access delete_xmlid
remove_access-users xmlid db none = (refl, refl)
remove_access-users xmlid db (some x) = elim (Bool-cases (str_eq x.model "ir.model.access")) [
  | inl y ↦ rw y (refl, refl)
  | inr n ↦ rw n (refl, refl)
]

remove_stale_acls-users :
    (xmlids : List String) (db : Database)
    → ((remove_stale_acls xmlids db).groups_users ≡ db.groups_users)
      × ((remove_stale_acls xmlids db).queue_job ≡ db.queue_job)
unfolding remove_stale_acls
remove_stale_acls-users [] db = (refl, refl)
remove_stale_acls-users (xmlid ∷ rest) db =
    let (x, y) = remove_access-users xmlid db (xmlid_row db xmlid) in
    let (x', y') = remove_stale_acls-users rest (remove_access xmlid db (xmlid_row db xmlid)) in
    (x' ∙ x, y' ∙ y)

finish-Cleaned : (db : Database) (r : Result Database) → Cleaned db r → Cleaned db (finish r)
unfolding finish remove_stale_acl_rows drop_orphan_schema
finish-Cleaned db r (later, e, x, y) =
    let (x', y') = remove_stale_acls-users stale_acl_xmlids (drop_orphan_schema later) in
    rw e (_, refl, x' ∙ x, y' ∙ y)

-- The rows that a pair of groups leaves alone.
migrate_group-rest :
    (a b : String) (db : Database)
    → ((migrate_group a b db).queue_job ≡ db.queue_job)
      × ((migrate_group a b db).queue_job_channel ≡ db.queue_job_channel)
unfolding migrate_group
migrate_group-rest a b db = by_rows (xmlid_row db a) (xmlid_row db b)
  where
    by_rows :
        (o n : Option XmlId)
        → ((migrate_rows a db o n).queue_job ≡ db.queue_job)
          × ((migrate_rows a db o n).queue_job_channel ≡ db.queue_job_channel)
    by_rows none n = unfold migrate_rows in (refl, refl)
    by_rows (some o) none = unfold migrate_rows in (refl, refl)
    by_rows (some o) (some n) =
        unfold migrate_rows move_group delete_xmlid in
        elim (Bool-cases (str_eq o.model "res.groups")) [
          | inl y ↦ rw y (refl, refl)
          | inr f ↦ rw f (refl, refl)
        ]

pub migrate-Cleaned :
    (db : Database)
    → is_some db.queue_job_channel ≡ true
    → (later : Database) × (migrate db ≡ ok later)
      × (later.groups_users ≡ (migrate_groups db).groups_users)
      × (later.queue_job ≡ db.queue_job)
unfolding migrate cleanup_marketplace_channel migrate_groups
migrate-Cleaned db h =
    let one : Database = migrate_group "group_marketplace_user" "group_cartona_user" db in
    let (j, c) = migrate_group-rest "group_marketplace_user" "group_cartona_user" db in
    let (j', c') = migrate_group-rest "group_marketplace_manager" "group_cartona_manager" one in
    let (u, q, t) = migrate_cron-Kept (migrate_groups db) in
    let (later, e, x, y) = finish-Cleaned (migrate_cron (migrate_groups db)) _ (
      unless_active-Cleaned (migrate_cron (migrate_groups db))
        (migrate_cron (migrate_groups db)).queue_job (t ∙ ap is_some (c' ∙ c) ∙ h)) in
    (later, e, x ∙ u, y ∙ q ∙ j' ∙ j)
