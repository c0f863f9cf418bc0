-- ===== src/Order/World.antt =====
-- The tables and the surroundings of an import, and the acknowledgement that ends it:
-- models/cartona_order_processor.py and `ack_order_synced` of models/cartona_api.py.
use cartona_odoo.Base.{
  ℕ, String, Bool, true, false, not, ◌&&◌, Option, none, some, List, [], ◌∷◌, ◌++◌, map, find,
  select, str_eq, or_else, ◌==◌, if◌then◌else◌,
}
use cartona_odoo.Py.Exn.{Exn, Result, ok, err, raise, user_error}
use cartona_odoo.Py.Number.{ℤ}
use cartona_odoo.Py.Json.{Json, bool, int, real, str, Fields, Python, truthy, str_json, is_text}
use cartona_odoo.Config.Data.{Config}
use cartona_odoo.Partner.{Partner, Directory}
use cartona_odoo.Order.Data.{Order, OrderState, Text, is_error}
use cartona_odoo.Order.Issue.{Status, EntryType, ErrorCode, Issue, Outcome, make_issue, any_error}
use cartona_odoo.Order.Resolve.{Variant}
use cartona_odoo.Order.Retailer.{Customer}
use cartona_odoo.Order.Validate.{Validated}
use cartona_odoo.Order.Transition.{Odoo}
use cartona_odoo.Order.Lines.{CreateLine, ref_of}

-- The tables that an import touches, the acknowledgements that were sent, and the issues so far.
pub record World (F : Type 0) : Type 0 where
  pub configs : List Config
  pub orders : List (Order F)
  pub partners : List Partner
  pub acks : List String
  pub issues : List Issue

-- What the code calls and does not define: Odoo's records, its clock (a number of minutes, and its
-- text), and the calls on an order.
pub record Env (F : Type 0) : Type 0 where
  pub browse : ℤ → Option Variant
  pub odoo : Odoo F
  pub directory : Directory
  pub create_line : CreateLine F
  -- `sale.order.create`, which gives the row its id and name, and `unlink`
  pub create_order : List (Order F) → Order F → Result (Order F)
  pub unlink_order : Order F → Option Exn
  pub now : ℕ
  pub stamp : String

pub find_config : List Config → Option ℕ → Option Config
find_config cs none = none
find_config cs (some i) = find (λ c. c.id == i) cs

-- `_get_cartona_config`, from the id in the context.
pub get_cartona_config : List Config → Option ℕ → Result Config
unfolding find_config
get_cartona_config cs none = raise user_error "No Cartona configuration specified"
get_cartona_config cs (some i) = elim (find_config cs (some i)) [
  | none ↦ raise user_error "Invalid Cartona configuration"
  | some c ↦ ok c
]

abbrev pub state_eq : OrderState → OrderState → Bool
state_eq OrderState.draft OrderState.draft = true
state_eq OrderState.sent OrderState.sent = true
state_eq OrderState.sale OrderState.sale = true
state_eq OrderState.done OrderState.done = true
state_eq OrderState.cancel OrderState.cancel = true
state_eq _ _ = false

-- `any(issue['entry_type'] == 'order_line' for issue in issues)`
abbrev pub is_line_entry : EntryType → Bool
is_line_entry EntryType.order_line = true
is_line_entry _ = false

-- `order.cartona_id`, which is false where it is empty
unfoldable pub filled : Option String → Bool
filled none = false
filled (some s) = not (str_eq s "")

module _ {F : Type 0} where
  pub replace_row : Order F → Order F → Order F
  replace_row o p = if p.id == o.id then o else p

  unfoldable pub put_order : Order F → World F → World F
  unfolding replace_row
  put_order o w = record w { orders = map (replace_row o) w.orders }

  unfoldable pub remove_order : Order F → World F → World F
  remove_order o w = record w { orders = select (λ p. not (p.id == o.id)) w.orders }

  unfoldable pub add_issue : Issue → World F → World F
  add_issue i w = record w { issues = w.issues ++ (i ∷ []) }

  unfoldable pub can_ack_order : Option (Order F) → List Issue → Bool
  unfolding filled
  can_ack_order none issues = false
  can_ack_order (some o) issues =
      filled o.cartona_id && not (is_error o.cartona_sync_status) && not (any_error issues)

  -- `ack_order_synced` of models/cartona_api.py up to the thread that it starts, which posts the
  -- status `synced` of this id; an exception is dropped.
  unfoldable pub send_ack : Option String → Result Config → World F → World F
  unfolding filled
  send_ack none c w = w
  send_ack (some id) (err e) w = w
  send_ack (some id) (ok c) w =
      if filled (some id) && c.is_cartona_sync_enabled
      then record w { acks = w.acks ++ (id ∷ []) }
      else w

  unfoldable pub ack_order_synced_to_cartona : Option ℕ → Order F → World F → World F
  unfolding send_ack
  ack_order_synced_to_cartona context o w =
      send_ack o.cartona_id (get_cartona_config w.configs (or_else o.cartona_config_id context)) w

  unfoldable pub ack_if : Bool → Option ℕ → Option (Order F) → World F → World F
  ack_if true context (some o) w = ack_order_synced_to_cartona context o w
  ack_if _ context o w = w

  unfoldable pub ack_and_return : Option ℕ → Outcome F → World F → Outcome F × World F
  unfolding ack_if
  ack_and_return context r w =
      (r, ack_if (r.success && can_ack_order r.order r.issues) context r.order w)

module _ (P : Python) where
  -- `order.cartona_status != status`; an empty field reads `False`, which equals the number 0.
  pub char_differs : Option String → Json → Bool
  char_differs none (bool b) = b
  char_differs none (int n) = truthy P (int n)
  char_differs none (real s) = truthy P (real s)
  char_differs none v = true
  char_differs (some t) v = not (is_text v t)

  -- The dict `customer_data` that the validation builds.
  unfoldable pub customer_fields : Customer → Fields
  customer_fields c = Fields.field "retailer_name" c.retailer_name (
      Fields.field "retailer_code" c.retailer_code (
        Fields.field "retailer_number" c.retailer_number (
          Fields.field "retailer_email" c.retailer_email (
            Fields.field "retailer_address" c.retailer_address (
              Fields.field "phone" c.retailer_number (
                Fields.field "email" c.retailer_email (
                  Fields.field "name" c.retailer_name
                    (Fields.field "external_id" (str c.external_id) Fields.end))))))))

  abbrev pub label_of : Validated P.Float → String
  label_of v =
      if truthy P v.cartona_order_number
      then str_json P v.cartona_order_number
      else str_json P v.order_id

  unfoldable pub order_issue :
      Status → Text → Option Json → Option ErrorCode → Option (Order P.Float) → Issue
  order_issue status message order_data code about =
      make_issue P status EntryType.order message order_data none code
        (elim about [ none ↦ none | some o ↦ some (ref_of P o) ])
