-- ===== src/Config/Lookup.antt =====
-- The resolvers of models/cartona_config.py, and the check of models/cartona_mixin.py.
use cartona_odoo.Base.{ℕ, Bool, not, ◌&&◌, Option, none, some, List, find, select, is_empty, ◌==◌}
use cartona_odoo.Py.Exn.{Result, ok, raise, user_error}
use cartona_odoo.Config.Data.{Config}

-- `search([('warehouse_id', '=', warehouse.id)], limit=1)`, none for no warehouse.
unfoldable pub get_for_warehouse : List Config → Option ℕ → Option Config
get_for_warehouse configs none = none
get_for_warehouse configs (some w) = find (λ c. c.warehouse_id == w) configs

or_no_config : Option Config → Result Config
or_no_config none = raise user_error "No Cartona configuration for warehouse %s."
or_no_config (some c) = ok c

unfoldable pub require_for_warehouse : List Config → Option ℕ → Result Config
unfolding or_no_config get_for_warehouse
require_for_warehouse configs w = or_no_config (get_for_warehouse configs w)

-- The company of the environment stands in for a missing one.
unfoldable pub enabled_configs_for_company : List Config → ℕ → Option ℕ → List Config
enabled_configs_for_company configs env_company none =
    select (λ c. c.company_id == env_company && c.is_cartona_sync_enabled) configs
enabled_configs_for_company configs env_company (some company) =
    select (λ c. c.company_id == company && c.is_cartona_sync_enabled) configs

unfoldable pub cartona_sync_enabled : List Config → ℕ → Option ℕ → Bool
unfolding enabled_configs_for_company
cartona_sync_enabled configs env_company company =
    not (is_empty (enabled_configs_for_company configs env_company company))
