-- ===== src/Migrate/Channel.antt =====
-- The removal of the marketplace addon's queue channel in migrations/18.0.2.0.39/pre-migrate.py.
use cartona_odoo.Base.{
  ℕ, String, Bool, not, ◌&&◌, ◌||◌, Option, none, some, List, any, find, select, str_eq, ◌==◌,
  if◌then◌else◌,
}
use mathlib.Core.Option
use cartona_odoo.Py.Exn.{Result, ok, raise, other_error}
use cartona_odoo.Migrate.Tables.{
  Channel, Database, JobFunction, QueueJob, XmlId, delete_xmlid, xmlid_row,
}

pub is_unfinished : String → Bool
is_unfinished s =
    str_eq s "pending"
    || str_eq s "enqueued"
    || str_eq s "failed"
    || str_eq s "started"
    || str_eq s "wait_dependencies"

unfoldable pub is_active_job : QueueJob → Bool
unfolding is_unfinished
is_active_job j = str_eq j.channel "marketplace" && is_unfinished j.state

pub find_channel : Option (List Channel) → Option ℕ
find_channel none = none
find_channel (some cs) =
    Option.map (λ (c : Channel). c.id) (find (λ c. str_eq c.complete_name "root.marketplace") cs)

pub marketplace_channel : Database → Option XmlId → Option ℕ
unfolding find_channel
marketplace_channel db (some x) = some x.res_id
marketplace_channel db none = find_channel db.queue_job_channel

-- A missing table of channels stops the migration.
unfoldable pub delete_channel : ℕ → Database → Option (List Channel) → Result Database
delete_channel i db none = raise other_error "relation \"queue_job_channel\" does not exist"
delete_channel i db (some cs) =
    ok (record db { queue_job_channel = some (select (λ c. not (c.id == i)) cs) })

-- What refers to the channel.
unfoldable pub forget_channel : ℕ → Database → Database
unfolding delete_xmlid
forget_channel i db = delete_xmlid "queue_job_channel_marketplace" (record db {
  queue_job_function =
      Option.map (select (λ (f : JobFunction). not (f.channel_id == i))) db.queue_job_function;
})

-- An id of 0 counts as none.
unfoldable pub remove_channel : Database → Option ℕ → Result Database
unfolding delete_channel forget_channel
remove_channel db none = ok db
remove_channel db (some i) =
    if i == 0 then ok db else delete_channel i (forget_channel i db) db.queue_job_channel

unfoldable pub unless_active : Database → Option (List QueueJob) → Result Database
unfolding remove_channel marketplace_channel is_active_job
unless_active db none = ok db
unless_active db (some jobs) =
    if any is_active_job jobs
    then ok db
    else remove_channel db (marketplace_channel db (xmlid_row db "queue_job_channel_marketplace"))

unfoldable pub cleanup_marketplace_channel : Database → Result Database
unfolding unless_active
cleanup_marketplace_channel db = unless_active db db.queue_job
