-- ===== src/Examples/Products.antt =====
-- The theorems on variants and their sync rows, at two variants and one configuration.
use cartona_odoo.Base.{ℕ, ◌≡◌, refl, true, ◌&&◌, none, some, [], ◌∷◌, ◌++◌, any, all, ◌==◌}
use cartona_odoo.Py.Exn.{ok}
use cartona_odoo.Config.Lookup.{get_for_warehouse}
use cartona_odoo.Config.Rules.{check_batch_size}
use cartona_odoo.Product.SyncTable.{SyncRow, ensure_for_products, get_for_product_config, has_key}
use cartona_odoo.Product.SyncTable.Laws.{Unique, get_for_product_config-Gets}
use cartona_odoo.Product.SyncTable.Ensure.{Has, ensure_for_products-Has}
use cartona_odoo.Product.Trigger.{
  SyncFields, StockRecord, trigger_cartona_sync, trigger_stock_sync_by_warehouse,
  group_by_warehouse, add_product, warehouse_of,
}
use cartona_odoo.Product.Trigger.Laws.{queued as queued_for, touches}
use cartona_odoo.Product.Trigger.Routing.{Serves, company_of, price_fanout, stock_routing}
use cartona_odoo.Product.Sync.{chosen_config, sync_to_cartona}
use cartona_odoo.Product.Sync.Laws.{LogsOne, told, sync_to_cartona-LogsOne}
use cartona_odoo.Api.Batch.{SyncWorld}
use cartona_odoo.Api.Run.{sync_variants_in_batches, sync_all_variants_fanout}
use cartona_odoo.Api.Run.Laws.{Counted, sync_variants_in_batches-Counted}
use cartona_odoo.Api.Run.Fanout.{queued, sync_all_variants_fanout-queued}
use cartona_odoo.Api.Retry.{collect_variants_for_retry}
use cartona_odoo.Api.Retry.Laws.{due, collect_variants_for_retry-due}
use cartona_odoo.Examples.{python, config, tea, salt, net, shelf, caller, row, sync_world, site}

get_for_product_config-Gets_example :
    (r : SyncRow) × ((get_for_product_config
        (λ rows. rows)
        (some 43)
        (some config)
        true
        (row ∷ [])).0
      ≡ some r)
    × (has_key 43 1 r ≡ true)
    × Unique (get_for_product_config (λ rows. rows) (some 43) (some config) true (row ∷ [])).1
get_for_product_config-Gets_example =
    get_for_product_config-Gets (λ rows. rows) 43 config (row ∷ []) (λ u. u) (refl, tt)

ensure_for_products-Has_example :
    Unique (ensure_for_products (λ rows. rows) (42 ∷ 43 ∷ []) config (row ∷ [])).1
    × Has 43 1 (ensure_for_products (λ rows. rows) (42 ∷ 43 ∷ []) config (row ∷ [])).1
ensure_for_products-Has_example =
    ensure_for_products-Has (λ rows. rows) (42 ∷ 43 ∷ []) config (row ∷ []) 43
      (record { unique = λ rows u. u; keeps = λ rows product c h. h }) (refl, tt) refl

pub valid_config : check_batch_size config ≡ ok config
unfolding check_batch_size
valid_config = refl

sync_variants_in_batches-Counted_example :
    (w : SyncWorld) × (sync_variants_in_batches python net shelf 100 caller
        (some 1)
        config
        "{success}"
        none
        (tea ∷ salt ∷ [])
        sync_world
      ≡ ok w)
    × Counted (tea ∷ salt ∷ []) sync_world w
sync_variants_in_batches-Counted_example =
    sync_variants_in_batches-Counted python net shelf 100 caller (some 1) config "{success}" none
      tea (salt ∷ []) sync_world valid_config

sync_all_variants_fanout-queued_example :
    (w : SyncWorld) × (sync_all_variants_fanout python net shelf 100 caller config
        (tea ∷ salt ∷ [])
        sync_world
      ≡ ok w)
    × (queued w.queue ≡ queued [] ++ (42 ∷ 43 ∷ []))
sync_all_variants_fanout-queued_example =
    sync_all_variants_fanout-queued python net shelf 100 caller config (tea ∷ salt ∷ []) sync_world
      valid_config

collect_variants_for_retry-due_example :
    all
      (due config (row ∷ []))
      (collect_variants_for_retry config 100 (tea ∷ salt ∷ []) (row ∷ [])).0
    ≡ true
collect_variants_for_retry-due_example =
    collect_variants_for_retry-due config (row ∷ []) 100 (tea ∷ salt ∷ [])

site_config : chosen_config site (some 1) none tea ≡ some config
unfolding chosen_config
site_config = refl

sync_to_cartona-LogsOne_example :
    (w : SyncWorld) × (sync_to_cartona python net shelf 100 caller site SyncFields.both
        (some 1)
        none
        none
        tea
        sync_world
      ≡ ok w)
    × LogsOne (told python net shelf config SyncFields.both tea) config tea sync_world w
sync_to_cartona-LogsOne_example =
    sync_to_cartona-LogsOne python net shelf 100 caller site SyncFields.both (some 1) none none tea
      config sync_world site_config refl (refl, tt)

abbrev moved : StockRecord
moved = record {
  product = some tea;
  locations = some (record { internal = true; warehouse_id = some 1 }) ∷ none ∷ [];
}

price_fanout_example :
    queued_for 42 1 (trigger_cartona_sync site SyncFields.price none (tea ∷ []))
    ≡ any
        (λ v.
          v.id == 42
          && any
              (λ c.
                c.id == 1
                && (c.company_id == company_of site v.company_id && c.is_cartona_sync_enabled))
              site.configs)
        (tea ∷ [])
price_fanout_example = price_fanout site (tea ∷ []) 42 1 refl

moved-queued : queued_for 42 1 (trigger_stock_sync_by_warehouse site (moved ∷ [])) ≡ true
unfolding trigger_stock_sync_by_warehouse group_by_warehouse trigger_cartona_sync add_product
    warehouse_of get_for_warehouse
moved-queued = refl

stock_routing_example : (w : ℕ) × Serves site 1 w × (any (touches w 42) (moved ∷ []) ≡ true)
stock_routing_example = stock_routing site (moved ∷ []) 42 1 moved-queued
