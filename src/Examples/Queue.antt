-- ===== src/Examples/Queue.antt =====
-- The theorems on the queue of a full sync, at two variants in batches of one.
use cartona_odoo.Base.{ℕ, ◌≡◌, refl, true, none, [], ◌∷◌}
use cartona_odoo.Py.Exn.{ok}
use cartona_odoo.Product.SyncTable.{ensure_for_products, has_key}
use cartona_odoo.Api.Batch.{SyncWorld}
use cartona_odoo.Api.Run.{sync_all_variants_fanout}
use cartona_odoo.Examples.{python, config, tea, salt, net, shelf, caller, row, sync_world}
use cartona_odoo.Order.Resolve.{Variant}
use cartona_odoo.Order.Data.{SyncStatus}
use cartona_odoo.Api.Batch.{slices, slices_within}
use cartona_odoo.Api.Run.{queue_all, queue_batches}
use cartona_odoo.Product.SyncTable.{
  insert_all, insert_or_nothing, missing_ids, search_rows, new_row, has_key,
}
use cartona_odoo.Api.Run.Drain.{Drains, done, Drains-ends}
use cartona_odoo.Api.Run.Settled.{Settled as SettledRow, sync_all_variants_fanout-Settled}
use cartona_odoo.Examples.Products.{valid_config}
use cartona_odoo.Base.{ℕ}

abbrev browse_any : ℕ → Variant
browse_any i = record { id = i; name = "Tea"; active = true; sale_ok = true; company_id = none }

-- The world behind the fan-out.
abbrev fanned : SyncWorld
fanned = record sync_world {
  rows =
      row
      ∷ record {
        product_id = 43;
        cartona_config_id = 1;
        company_id = 1;
        sync_status = SyncStatus.not_synced;
        sync_date = none;
        sync_error = none;
      }
      ∷ [];
  queue =
      record { config = 1; variants = 42 ∷ []; index = 1; total = 2 }
      ∷ record { config = 1; variants = 43 ∷ []; index = 2; total = 2 }
      ∷ [];
}

fans_out :
    sync_all_variants_fanout python net shelf 100 caller config (tea ∷ salt ∷ []) sync_world
    ≡ ok fanned
unfolding sync_all_variants_fanout queue_all queue_batches slices slices_within ensure_for_products
    insert_all insert_or_nothing missing_ids search_rows new_row has_key
fans_out = refl

drained : (u : SyncWorld) × Drains python caller 2 fanned u × (u.queue ≡ [])
drained =
    (Drains-ends python caller net shelf 100 browse_any (λ i. refl) 0 fanned fanned (done fanned)).1

sync_all_variants_fanout-Settled_example : SettledRow 1 43 drained.0
sync_all_variants_fanout-Settled_example =
    sync_all_variants_fanout-Settled python net shelf 100 caller config (tea ∷ salt ∷ []) 43 2
      sync_world fanned drained.0 valid_config (refl, tt) refl refl fans_out drained.1 drained.2
