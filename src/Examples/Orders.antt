-- ===== src/Examples/Orders.antt =====
-- The theorems on the import and the pull of orders, at one order.
use cartona_odoo.Base.{
  ℕ, ◌+◌, ◌≤◌, ◌≡◌, refl, sym, ◌∙◌, ap, subst, arith, false, not, none, some, [], ◌∷◌, any, str_eq,
}
use cartona_odoo.Py.Exn.{ok, ok_injective}
use cartona_odoo.Py.Number.{pos, str_int, int_of_text}
use cartona_odoo.Py.Json.{str, null}
use cartona_odoo.Order.Data.{Order, OrderState}
use cartona_odoo.Order.Issue.{any_error}
use cartona_odoo.Order.Resolve.{Resolution, resolve_variant, check_variant, resolved, unresolved}
use cartona_odoo.Order.Item.{Item}
use cartona_odoo.Order.Validate.{validate_order_data}
use cartona_odoo.Order.Validate.Sound.{SoundOrder, validate_order_data-SoundOrder}
use cartona_odoo.Order.Lines.{create_order_lines, line_values, line_signature}
use cartona_odoo.Order.Lines.Restores.{Restores}
use cartona_odoo.Order.Lines.Match.{
  KeepsValues, IsCanonical, MatchesAfter, DiffersAfter, create_order_lines-match,
  noncanonical-mismatch,
}
use cartona_odoo.Order.Process.{process_cartona_order}
use cartona_odoo.Order.Process.Acks.{AcksRight}
use cartona_odoo.Order.Process.Laws.{process_cartona_order-AcksRight}
use cartona_odoo.Order.Process.Created.{Truthful}
use cartona_odoo.Order.Process.Contract.{process_cartona_order-Truthful}
use cartona_odoo.Api.Pull.{PullWorld, process_orders, pull_each}
use cartona_odoo.Api.Tally.{no_orders}
use cartona_odoo.Api.Pull.Laws.{Balanced, process_orders-Counts, pull_each-Logs, is_success}
use cartona_odoo.Log.{Log}
use cartona_odoo.Api.Pull.Snapshot.{shows, pull_each-hidden}
use cartona_odoo.Examples.{
  python, config, row, tea, browse, create_line, env, world, payload, net, caller, logs, order,
}

process_cartona_order-Truthful_example :
    Truthful (process_cartona_order python env (some 1) payload world).0
process_cartona_order-Truthful_example =
    process_cartona_order-Truthful python env (some 1) payload world

process_cartona_order-AcksRight_example :
    AcksRight []
      (process_cartona_order python env (some 1) payload world).0
      (process_cartona_order python env (some 1) payload world).1.acks
process_cartona_order-AcksRight_example =
    process_cartona_order-AcksRight python env (some 1) payload world

validate_order_data-SoundOrder_example :
    SoundOrder python browse config (validate_order_data python browse config payload)
validate_order_data-SoundOrder_example = validate_order_data-SoundOrder python browse config payload

tea-resolves : resolve_variant browse "42" config ≡ resolved tea
unfolding resolve_variant check_variant int_of_text
tea-resolves = refl

-- One line of two pieces, as it is validated.
abbrev item : Item ℕ
item = record {
  internal_product_id = "42";
  quantity = 2;
  unit_price = 10;
  total_price = 20;
  cartona_line_id = str "3";
  comment = null;
}

create_line-keeps : KeepsValues python create_line
create_line-keeps o l new e =
    subst (λ m. line_signature python m ≡ line_signature python l) (ok_injective e)
      (unfold line_signature in refl)

variant_id : ℕ → Resolution → ℕ
variant_id n (resolved v) = v.id
variant_id n (unresolved code t) = n

forty_two : str_int (pos 42) ≡ "42"
unfolding str_int
forty_two = refl

item-IsCanonical : IsCanonical python browse create_line config item
unfolding variant_id
item-IsCanonical = record {
  prints = λ v e.
      subst (λ n. str_int (pos n) ≡ "42") (ap (variant_id 0) (sym tea-resolves ∙ e)) forty_two;
  number = refl;
}

-- The second line names no variant, so the first one goes again.
abbrev unknown : Item ℕ
unknown = record item { internal_product_id = "999" }

abbrev draft_order : Order ℕ
draft_order = record order { state = OrderState.draft; order_line = [] }

create_order_lines-match_example :
    MatchesAfter python browse create_line config
      (item ∷ [])
      (create_order_lines python browse create_line config (item ∷ []) payload order [])
create_order_lines-match_example =
    create_order_lines-match python browse create_line config create_line-keeps (item ∷ []) payload
      order [] refl (item-IsCanonical, tt)

abbrev zero_item : Item ℕ
zero_item = record item { internal_product_id = "042" }

zero_resolves : resolve_variant browse "042" config ≡ resolved tea
unfolding resolve_variant check_variant int_of_text
zero_resolves = refl

noncanonical-mismatch_example :
    DiffersAfter python browse create_line config
      (zero_item ∷ [])
      (create_order_lines python browse create_line config (zero_item ∷ []) payload order [])
noncanonical-mismatch_example =
    noncanonical-mismatch python browse create_line config create_line-keeps zero_item tea
      (record (line_values python zero_item tea) { id = 1 }) payload order [] refl zero_resolves
      (λ e. ground (arith, ap (λ s. str_eq s "042") (sym forty_two ∙ e))) refl

abbrev pull_world : PullWorld ℕ
pull_world = record { world = world; logs = logs; rows = row ∷ [] }

process_orders-Counts_example :
    Balanced 2
      (process_orders python net env caller
        (λ t. t.template)
        1
        (payload ∷ null ∷ [])
        no_orders
        world).0
process_orders-Counts_example =
    process_orders-Counts python net env caller (λ t. t.template) 1 (payload ∷ null ∷ []) world

pull_each-Logs_example :
    (l : Log) × ((pull_each python net env caller
        (λ t. t.template)
        config
        none
        (ok (payload ∷ null ∷ []))
        pull_world).1.logs.logs
      ≡ l ∷ [])
    × (l.vals.records_processed ≡ 2)
    × (l.vals.records_success + l.vals.records_error ≤ 2)
    × (is_success l.vals.status
        ≡ not (
            any_error
              (process_orders python net env caller
                (λ t. t.template)
                1
                (payload ∷ null ∷ [])
                no_orders
                world).0.detail_lines))
pull_each-Logs_example =
    pull_each-Logs python net env caller (λ t. t.template) config none (payload ∷ null ∷ [])
      pull_world

pull_each-hidden_example :
    (l : Log) × ((pull_each python net env caller
        (λ t. t.template)
        config
        none
        (ok (payload ∷ null ∷ []))
        pull_world).1.logs.logs
      ≡ l ∷ [])
    × (any
          (shows 1 l.id)
          (pull_each python net env caller
            (λ t. t.template)
            config
            none
            (ok (payload ∷ null ∷ []))
            pull_world).1.world.configs
        ≡ false)
pull_each-hidden_example =
    pull_each-hidden python net env caller (λ t. t.template) config none (payload ∷ null ∷ [])
      pull_world (refl, refl)
