-- ===== src/Migrate/Tables.antt =====
-- The tables that migrations/18.0.2.0.39/pre-migrate.py reads and writes.
use cartona_odoo.Base.{ℕ, String, Bool, not, ◌&&◌, Option, List, find, select, str_eq, ◌==◌}

-- A row of `ir_model_data`.
pub record XmlId : Type 0 where
  pub addon : String
  pub name : String
  pub model : String
  pub res_id : ℕ

-- `res_groups_users_rel`, `res_groups_implied_rel` and `rule_group_rel`
pub record Membership : Type 0 where
  pub gid : ℕ
  pub uid : ℕ

pub record Implied : Type 0 where
  pub gid : ℕ
  pub hid : ℕ

pub record RuleGroup : Type 0 where
  pub rule_id : ℕ
  pub group_id : ℕ

pub record Cron : Type 0 where
  pub id : ℕ
  pub active : Bool

pub record QueueJob : Type 0 where
  pub channel : String
  pub state : String

pub record Channel : Type 0 where
  pub id : ℕ
  pub complete_name : String

pub record JobFunction : Type 0 where
  pub id : ℕ
  pub channel_id : ℕ

-- A table that is known by its name only, with the ids of its rows.
pub record Table : Type 0 where
  pub name : String
  pub ids : List ℕ

-- Odoo's own tables are always there; those of the queue may not be.
pub record Database : Type 0 where
  pub xml_ids : List XmlId
  pub groups_users : List Membership
  pub groups_implied : List Implied
  pub rule_groups : List RuleGroup
  pub groups : List ℕ
  pub crons : List Cron
  pub server_actions : List ℕ
  pub accesses : List ℕ
  pub queue_job : Option (List QueueJob)
  pub queue_job_channel : Option (List Channel)
  pub queue_job_function : Option (List JobFunction)
  pub other_tables : List Table
  -- `ir_model_fields` of `product.product`, and the columns of its table
  pub product_fields : List String
  pub product_columns : List String

abbrev pub this_module : String
this_module = "cartona_odoo"

unfoldable pub is_xmlid : String → XmlId → Bool
is_xmlid name x = str_eq x.addon this_module && str_eq x.name name

-- `_xmlid_row(cr, _MODULE, name)`
unfoldable pub xmlid_row : Database → String → Option XmlId
unfolding is_xmlid
xmlid_row db name = find (is_xmlid name) db.xml_ids

-- `DELETE FROM ir_model_data WHERE module = … AND name = …`
unfoldable pub delete_xmlid : String → Database → Database
unfolding is_xmlid
delete_xmlid name db = record db { xml_ids = select (λ x. not (is_xmlid name x)) db.xml_ids }

abbrev pub without : ℕ → List ℕ → List ℕ
without i = select (λ j. not (j == i))
