-- ===== src/Config/Rules.antt =====
-- What models/cartona_config.py refuses: `write`, `copy`, `unlink` and the two constraints.
pub mod Laws
use Prim.Native.Char.{code}
use text.Mathlib.Text.{starts_with}
use cartona_odoo.Base.{
  ℕ, String, Bool, true, false, not, ◌&&◌, ◌||◌, ◌<>◌, Option, none, some, List, [], ◌∷◌, any,
  select, str_eq, ltb, ◌==◌, is_id, if◌then◌else◌,
}
use cartona_odoo.Py.Exn.{Result, ok, err, raise, user_error, value_error, ◌>>=◌}
use cartona_odoo.Config.Data.{Config}
use cartona_odoo.Order.Data.{Order}

-- `write`, before Odoo's own: `vals` are the names of the fields.
unfoldable pub check_write : List String → Result (Unit {0})
check_write vals =
    if any (λ f. str_eq f "enable_custom_state_mapping" || str_eq f "custom_state_mapping") vals
    then raise user_error "Cartona order state mapping is fixed and cannot be changed."
    else ok tt

-- `url.endswith('/')`
unfoldable pub ends_in_slash : String → Bool
ends_in_slash String.[] = false
ends_in_slash (String.◌∷◌ c s) =
    let rest = ends_in_slash s in if str_eq s "" then code c == 47 else rest

-- `ValidationError` is Odoo's own kind of `UserError`.
unfoldable pub check_api_base_url : Config → Result Config
unfolding ends_in_slash
check_api_base_url c =
    if str_eq c.api_base_url ""
    then ok c
    else if not (starts_with c.api_base_url "http://" || starts_with c.api_base_url "https://")
    then raise user_error "API Base URL must start with http:// or https://"
    else if ends_in_slash c.api_base_url
    then ok c
    else ok (record c { api_base_url = c.api_base_url <> "/" })

unfoldable pub check_batch_size : Config → Result Config
check_batch_size c =
    if ltb c.batch_size 1 || ltb 1000 c.batch_size
    then raise user_error "Batch size must be between 1 and 1000"
    else ok c

abbrev linked : {F : Type 0} → List (Order F) → Config → Bool
linked orders c = any (λ o. is_id c.id o.cartona_config_id) orders

-- The configurations that are deleted, by whether the user is a manager.
unfoldable pub unlink :
    {F : Type 0} → Bool → List (Order F) → List Config → List Config → Result (List Config)
unlink manager orders deleted configs =
    if not manager
    then raise user_error "Cartona configuration cannot be deleted."
    else if any (linked orders) deleted
    then raise user_error
        "Cannot delete Cartona configuration for warehouse %s: Cartona orders are still linked to it."
    else ok (select (λ c. not (any (λ d. d.id == c.id) deleted)) configs)
