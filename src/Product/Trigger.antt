-- ===== src/Product/Trigger.antt =====
-- Which sync jobs a change queues: models/product_product.py, models/product_template.py and the
-- first part of models/stock_move.py. Queueing a job appends it to a list.
pub mod Laws
pub mod Routing
use cartona_odoo.Base.{
  ℕ, Bool, true, false, not, ◌&&◌, Option, none, some, List, [], ◌∷◌, ◌++◌, map, any, select,
  is_empty, ◌==◌, if◌then◌else◌,
}
use cartona_odoo.Config.Data.{Config}
use cartona_odoo.Config.Lookup.{get_for_warehouse, enabled_configs_for_company}
use cartona_odoo.Order.Resolve.{Variant}

pub data SyncFields : Type 0 where
  price stock both : SyncFields

-- `_sync_to_cartona(sync_fields, config_id=config.id)` of one variant.
pub record SyncJob : Type 0 where
  pub product : ℕ
  pub config : ℕ
  pub fields : SyncFields

-- The context key `skip_cartona_sync`, the company of the environment, and the configurations.
pub record Site : Type 0 where
  pub skip_cartona_sync : Bool
  pub company : ℕ
  pub configs : List Config

-- `self.company_id or self.env.company`, of which all enabled configurations are taken.
unfoldable pub cartona_enabled_configs : Site → Variant → List Config
cartona_enabled_configs site v = enabled_configs_for_company site.configs site.company v.company_id

abbrev queue_cartona_sync : Variant → SyncFields → Config → SyncJob
queue_cartona_sync v fields c = record { product = v.id; config = c.id; fields = fields }

if_enabled : Option Config → List Config
if_enabled none = []
if_enabled (some c) = if c.is_cartona_sync_enabled then c ∷ [] else []

-- A stock change with a warehouse goes to the configuration of that warehouse alone.
configs_for : Site → SyncFields → Option ℕ → Variant → List Config
unfolding if_enabled
configs_for site SyncFields.stock (some w) v = if_enabled (get_for_warehouse site.configs (some w))
configs_for site fields warehouse v = cartona_enabled_configs site v

trigger_each : Site → SyncFields → Option ℕ → List Variant → List SyncJob
unfolding configs_for
trigger_each site fields warehouse [] = []
trigger_each site fields warehouse (v ∷ vs) =
    map (queue_cartona_sync v fields) (configs_for site fields warehouse v)
    ++ trigger_each site fields warehouse vs

unfoldable pub trigger_cartona_sync : Site → SyncFields → Option ℕ → List Variant → List SyncJob
unfolding trigger_each
trigger_cartona_sync site fields warehouse vs =
    if site.skip_cartona_sync then [] else trigger_each site fields warehouse vs

-- `product.product.write`: which of the two fields are among the values.
unfoldable pub product_write : Site → Bool → Bool → List Variant → List SyncJob
product_write site lst_price unlimited vs =
    if site.skip_cartona_sync
    then []
    else (if lst_price then trigger_cartona_sync site SyncFields.price none vs else [])
      ++ (if unlimited then trigger_cartona_sync site SyncFields.stock none vs else [])

-- `product.template.write`, on the variants of the templates.
unfoldable pub template_write : Site → Bool → List Variant → List SyncJob
template_write site list_price variants =
    if list_price && not site.skip_cartona_sync
    then trigger_cartona_sync site SyncFields.price none
        (select (λ v. v.active && v.sale_ok) variants)
    else []

-- A location: its usage is `internal` or not, and it may lie in a warehouse.
pub record Location : Type 0 where
  pub internal : Bool
  pub warehouse_id : Option ℕ

-- A stock move or quant, with the locations of the fields that are inspected.
pub record StockRecord : Type 0 where
  pub product : Option Variant
  pub locations : List (Option Location)

-- The dict `by_warehouse`.
abbrev pub Groups : Type 0
Groups = List (ℕ × List Variant)

-- `products |= product`
join_product : Variant → List Variant → List Variant
join_product v vs = if any (λ u. u.id == v.id) vs then vs else vs ++ (v ∷ [])

unfoldable pub add_product : ℕ → Variant → Groups → Groups
unfolding join_product
add_product w v [] = (w, v ∷ []) ∷ []
add_product w v ((u, vs) ∷ groups) =
    if u == w then (u, join_product v vs) ∷ groups else (u, vs) ∷ add_product w v groups

-- The warehouse of a location that counts.
unfoldable pub warehouse_of : Option Location → Option ℕ
warehouse_of none = none
warehouse_of (some l) = if l.internal then l.warehouse_id else none

add_at : Variant → Option ℕ → Groups → Groups
add_at v none groups = groups
add_at v (some w) groups = add_product w v groups

add_locations : Variant → List (Option Location) → Groups → Groups
unfolding add_at
add_locations v [] groups = groups
add_locations v (l ∷ ls) groups = add_locations v ls (add_at v (warehouse_of l) groups)

add_record : Option Variant → List (Option Location) → Groups → Groups
unfolding add_locations
add_record none ls groups = groups
add_record (some v) ls groups = add_locations v ls groups

unfoldable pub group_by_warehouse : List StockRecord → Groups → Groups
unfolding add_record
group_by_warehouse [] groups = groups
group_by_warehouse (r ∷ rs) groups = group_by_warehouse rs (add_record r.product r.locations groups)

trigger_groups : Site → Groups → List SyncJob
trigger_groups site [] = []
trigger_groups site ((w, vs) ∷ groups) =
    trigger_cartona_sync site SyncFields.stock (some w) vs ++ trigger_groups site groups

unfoldable pub trigger_stock_sync_by_warehouse : Site → List StockRecord → List SyncJob
unfolding trigger_groups
trigger_stock_sync_by_warehouse site rs = trigger_groups site (group_by_warehouse rs [])

-- `stock.move._action_done` and `stock.quant.write` behind Odoo's own: `changed` says for a quant
-- that the quantity was written.
unfoldable pub action_done : Site → List StockRecord → List SyncJob
action_done site rs = if site.skip_cartona_sync then [] else trigger_stock_sync_by_warehouse site rs

unfoldable pub quant_write : Site → Bool → List StockRecord → List SyncJob
quant_write site changed rs =
    if changed && not site.skip_cartona_sync then trigger_stock_sync_by_warehouse site rs else []
