-- ===== src/Api/Run/Fanout.antt =====
-- The jobs of `sync_all_variants_fanout` in models/cartona_api.py.
use cartona_odoo.Base.{ℕ, suc, List, [], ◌∷◌, ◌++◌, ◌≡◌, refl, sym, ◌∙◌, ap, map, length}
use mathlib.Core.List.{map-append, append_assoc}
use cartona_odoo.Py.Exn.{ok, ◌>>=◌}
use cartona_odoo.Py.Json.{Python}
use cartona_odoo.Config.Data.{Config}
use cartona_odoo.Order.Resolve.{Variant}
use cartona_odoo.Log.{Caller}
use cartona_odoo.Api.Request.{Net}
use cartona_odoo.Api.Payload.{Shelf}
use cartona_odoo.Api.Batch.{BatchJob, SyncWorld}
use cartona_odoo.Api.Run.{queue_batches, queue_all, sync_all_variants_fanout}
use cartona_odoo.Api.Batch.Slices.{concat, slices-covers}
use cartona_odoo.Config.Rules.{check_batch_size}
use cartona_odoo.Config.Rules.Laws.{check_batch_size-positive}

-- The variants that the jobs of a queue cover, in order.
unfoldable pub queued : List BatchJob → List ℕ
queued [] = []
queued (j ∷ js) = j.variants ++ queued js

queued-append : (js ks : List BatchJob) → queued (js ++ ks) ≡ queued js ++ queued ks
unfolding queued
queued-append [] ks = refl
queued-append (j ∷ js) ks =
    ap (λ l. j.variants ++ l) (queued-append js ks)
    ∙ sym (append_assoc j.variants (queued js) (queued ks))

module _ (P : Python) (net : Net) (shelf : Shelf) (now : ℕ) (caller : Caller) where
  queued-queue_batches :
      (c : Config) (i n : ℕ) (batches : List (List Variant))
      → queued (queue_batches P net shelf now caller c i n batches)
        ≡ map (λ v. v.id) (concat batches)
  unfolding queued queue_batches concat
  queued-queue_batches c i n [] = refl
  queued-queue_batches c i n (b ∷ bs) =
      ap (λ l. map (λ v. v.id) b ++ l) (queued-queue_batches c (suc i) n bs)
      ∙ sym (map-append (λ v. v.id) b (concat bs))

  -- Under a stored configuration the fan-out does not raise, and the jobs that it queues cover the
  -- variants in order, each once.
  pub sync_all_variants_fanout-queued :
      (c : Config) (vs : List Variant) (w : SyncWorld)
      → check_batch_size c ≡ ok c
      → (w' : SyncWorld) × (sync_all_variants_fanout P net shelf now caller c vs w ≡ ok w')
        × (queued w'.queue ≡ queued w.queue ++ map (λ v. v.id) vs)
  unfolding sync_all_variants_fanout queue_all
  sync_all_variants_fanout-queued c vs w valid =
      let (batches, cut, same, fit) =
        slices-covers c.batch_size vs (check_batch_size-positive c valid) in
      (
        _,
        ap (λ r. r >>= queue_all P net shelf now caller c vs w) cut,
        queued-append w.queue _
            ∙ ap (λ l. queued w.queue ++ l)
                (queued-queue_batches c 1 (length batches) batches ∙ ap (map (λ v. v.id)) same),
      )
