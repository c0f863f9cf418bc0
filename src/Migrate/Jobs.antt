-- ===== src/Migrate/Jobs.antt =====
-- migrations/18.0.2.0.35/pre-migrate.py: the queued jobs of the removed marketplace addon. Each of its
-- four statements is a function on one row; the columns of a cancelled job that say when and why are
-- left out.
pub mod Laws
use text.Mathlib.Text.{find?}
use cartona_odoo.Base.{String, Bool, ◌&&◌, ◌||◌, List, map, str_eq, is_some, if◌then◌else◌}

pub record QueueJob : Type 0 where
  pub model_name : String
  pub method_name : String
  pub kwargs : String
  pub channel : String
  pub state : String

unfoldable pub is_unfinished : String → Bool
is_unfinished s =
    str_eq s "pending"
    || str_eq s "enqueued"
    || str_eq s "failed"
    || str_eq s "started"
    || str_eq s "wait_dependencies"

-- `method_name LIKE '%marketplace%'`
unfoldable pub names_marketplace : String → Bool
names_marketplace m = is_some (find? m "marketplace")

unfoldable pub cancel_obsolete : QueueJob → QueueJob
cancel_obsolete j =
    if names_marketplace j.method_name && is_unfinished j.state
    then record j { state = "cancelled" }
    else j

unfoldable pub remap_stock : QueueJob → QueueJob
remap_stock j =
    if str_eq j.method_name "_sync_stock_to_marketplaces" && str_eq j.model_name "product.product"
    then record j { method_name = "_sync_to_cartona"; kwargs = "{\"sync_fields\": \"stock\"}" }
    else j

unfoldable pub remap_orders : QueueJob → QueueJob
remap_orders j =
    if str_eq j.method_name "_sync_status_to_marketplace" && str_eq j.model_name "sale.order"
    then record j { method_name = "_sync_status_to_cartona" }
    else j

unfoldable pub move_channel : QueueJob → QueueJob
move_channel j = if str_eq j.channel "marketplace" then record j { channel = "cartona" } else j

unfoldable pub migrate : List QueueJob → List QueueJob
migrate jobs = map move_channel (map remap_orders (map remap_stock (map cancel_obsolete jobs)))
