-- ===== src/Api/Run/Settled.antt =====
-- What a full sync leaves in the sync table when its batches have been worked off.
use cartona_odoo.Base.{
  ℕ, suc, ◌≡◌, refl, ap, ap₂, ◌∙◌, sym, subst, arith, true, false, ◌&&◌, Option, none, some, List,
  [], ◌∷◌, ◌++◌, map, all-impl, length, find, any, all, any-append, Bool-cases, inl, inr, ◌==◌,
}
use mathlib.Core.List.{map-append}
use cartona_odoo.Py.Exn.{ok, ok_injective, ◌>>=◌}
use cartona_odoo.Py.Json.{Python}
use cartona_odoo.Config.Data.{Config}
use cartona_odoo.Config.Rules.{check_batch_size}
use cartona_odoo.Config.Rules.Laws.{check_batch_size-positive}
use cartona_odoo.Order.Resolve.{Variant}
use cartona_odoo.Log.{Caller, guarded, create, create_lines, append_log, log_operation}
use cartona_odoo.Product.SyncTable.{SyncRow, mem, has_key, ensure_for_products}
use cartona_odoo.Product.SyncTable.Laws.{Unique}
use cartona_odoo.Product.SyncTable.Ensure.{ensure_for_products-Has}
use cartona_odoo.Api.Request.{Net}
use cartona_odoo.Api.Payload.{Shelf}
use cartona_odoo.Api.Batch.{BatchJob, SyncWorld, variant_ids, sync_one_batch}
use cartona_odoo.Api.Batch.Slices.{concat, slices-covers}
use cartona_odoo.Api.Run.{
  logged, finish_batches, logged_and_finished, run_batch_job, sync_variant_batch_job, queue_batches,
  queue_all, sync_all_variants_fanout,
}
use cartona_odoo.Api.Run.Drain.{Works, work, Drains, done, next}
use cartona_odoo.Api.Run.Live.{
  live, refresh_stats-keeps, live-write_config, find-id, live-none, live-disabled,
}
use cartona_odoo.Api.Run.Tracked.{
  is_settled, waits, tracked, tracked-other, sync_one_batch-Has, sync_one_batch-tracked,
}

all-true : {A : Type 0} (xs : List A) → all (λ _. true) xs ≡ true
all-true [] = refl
all-true (x ∷ xs) = ground (arith, all-true xs)

-- What holds of a full sync that is under way, for one of its variants.
abbrev Tracked : ℕ → List ℕ → ℕ → SyncWorld → Type 0
Tracked k products product w =
    (all (tracked k products w.queue) w.rows ≡ true)
    × (live k w.configs ≡ true)
    × (any (has_key product k) w.rows ≡ true)

module _ (P : Python) (caller : Caller) (k : ℕ) (products : List ℕ) (product : ℕ) where
  module _ (net : Net) (shelf : Shelf) (now : ℕ) (before after : List BatchJob) (j : BatchJob)
      (vs : List Variant) (ids : variant_ids vs ≡ j.variants) (w : SyncWorld) where
    Tracked-dropped :
        (j.config == k) ≡ false
        → Tracked k products product (record w { queue = before ++ (j ∷ after) })
        → Tracked k products product (record w { queue = before ++ after })
    Tracked-dropped n (h, l, t) = (
      all-impl (tracked k products (before ++ (j ∷ after))) (tracked k products (before ++ after))
          w.rows (λ r. tracked-other k products before after j r n) h,
      l,
      t,
    )

    run_batch_job-enabled :
        (c : Config) (h : c.is_cartona_sync_enabled ≡ true)
        → (w' : SyncWorld) × (run_batch_job P net shelf now caller
              (some c)
              vs
              j.index
              j.total
              (record w { queue = before ++ after })
            ≡ ok w')
          × (w'.queue ≡ before ++ after)
          × (w'.rows ≡ (sync_one_batch P net shelf now caller (some c.warehouse_id) c vs w.rows).1)
          × (live k w'.configs ≡ live k w.configs)
    unfolding run_batch_job logged_and_finished finish_batches logged log_operation create
        create_lines append_log guarded
    run_batch_job-enabled c y =
        simp y (
          _,
          refl,
          refl,
          refl,
          live-write_config k c.id _ w.configs (refresh_stats-keeps _ _ _ _ _),
        )

    run_batch_job-Tracked :
        (found : Option Config)
        → find (λ c. c.id == j.config) w.configs ≡ found
        → Tracked k products product (record w { queue = before ++ (j ∷ after) })
        → (w' : SyncWorld) × (run_batch_job P net shelf now caller found vs j.index j.total
              (record w { queue = before ++ after })
            ≡ ok w')
          × Tracked k products product w'
    unfolding run_batch_job
    run_batch_job-Tracked none e (h, l, t) =
        (_, refl, Tracked-dropped (live-none k j.config w.configs l e) (h, l, t))
    run_batch_job-Tracked (some c) e (h, l, t) = elim (Bool-cases c.is_cartona_sync_enabled) [
      | inl y ↦
          let (w', ran, q, rows, same) = run_batch_job-enabled c y in
          let s =
            sync_one_batch-tracked P net shelf now caller k products before after j
              (some c.warehouse_id) c vs w.rows (find-id j.config w.configs c e) ids h in
          let has =
            sync_one_batch-Has P net shelf now caller product k (some c.warehouse_id) c vs w.rows in
          (
            w',
            ran,
            (
              ap₂ (λ q rows. all (tracked k products q) rows) q rows ∙ s,
              same ∙ l,
              ap (any (has_key product k)) rows ∙ has ∙ t,
            ),
          )
      | inr n ↦ (
        record w { queue = before ++ after },
        simp n refl,
        Tracked-dropped (live-disabled k j.config c w.configs l e n) (h, l, t),
      )
    ]

  Works-Tracked :
      {w w' : SyncWorld}
      → Works P caller w w'
      → Tracked k products product w
      → Tracked k products product w'
  unfolding sync_variant_batch_job
  Works-Tracked (work net shelf now before after j vs w w' q ids e) h =
      let (u, e', t) =
        run_batch_job-Tracked net shelf now before after j vs ids w
          (find (λ c. c.id == j.config) w.configs) refl
          (subst (λ q. Tracked k products product (record w { queue = q })) q h) in
      subst (Tracked k products product) (ok_injective (sym e' ∙ e)) t

  Drains-Tracked :
      {n : ℕ} {w w' : SyncWorld}
      → Drains P caller n w w'
      → Tracked k products product w
      → Tracked k products product w'
  Drains-Tracked (done w) h = h
  Drains-Tracked (next s d) h = Drains-Tracked d (Works-Tracked s h)

  waits-queue_batches :
      (net : Net) (shelf : Shelf) (now : ℕ) (c : Config) (i n : ℕ) (batches : List (List Variant))
      → waits c.id product (queue_batches P net shelf now caller c i n batches)
        ≡ mem product (map (λ v. v.id) (concat batches))
  unfolding queue_batches concat
  waits-queue_batches net shelf now c i n [] = refl
  waits-queue_batches net shelf now c i n (b ∷ bs) = ground (
    arith,
    waits-queue_batches net shelf now c (suc i) n bs,
    ap (mem product) (map-append (λ v. v.id) b (concat bs)),
    any-append (λ i. i == product) (variant_ids b) (map (λ v. v.id) (concat bs)),
  )

  -- A row of the variant that is tracked, where no job is left, is settled.
  settled-row :
      (rows : List SyncRow)
      → mem product products ≡ true
      → all (tracked k products []) rows ≡ true
      → any (has_key product k) rows ≡ true
      → any (λ r. has_key product k r && is_settled r.sync_status) rows ≡ true
  unfolding has_key
  settled-row [] m h t = cc
  settled-row (r ∷ rows) m h t = ground (arith, m, h, t, settled-row rows m)

abbrev pub Settled : ℕ → ℕ → SyncWorld → Type 0
Settled config product w =
    any (λ r. has_key product config r && is_settled r.sync_status) w.rows ≡ true

module _ (P : Python) (net : Net) (shelf : Shelf) (now : ℕ) (caller : Caller) where
  fan_out-Tracked :
      (c : Config) (vs : List Variant) (product : ℕ) (w : SyncWorld)
      → check_batch_size c ≡ ok c
      → Unique w.rows
      → live c.id w.configs ≡ true
      → mem product (variant_ids vs) ≡ true
      → (w' : SyncWorld) × (sync_all_variants_fanout P net shelf now caller c vs w ≡ ok w')
        × Tracked c.id (variant_ids vs) product w'
  unfolding sync_all_variants_fanout queue_all
  fan_out-Tracked c vs product w valid unique l m =
      let (batches, cut, same, fit) =
        slices-covers c.batch_size vs (check_batch_size-positive c valid) in
      let jobs = queue_batches P net shelf now caller c 1 (length batches) batches in
      let rows = (ensure_for_products (λ r. r) (variant_ids vs) c w.rows).1 in
      (
        _,
        ap (λ r. r >>= queue_all P net shelf now caller c vs w) cut,
        (
          all-impl (λ r. true) (tracked c.id (variant_ids vs) (w.queue ++ jobs)) rows
              (λ r _. ground (
                arith,
                any-append (λ (j : BatchJob). j.config == c.id && mem r.product_id j.variants)
                    w.queue jobs,
                waits-queue_batches P caller c.id (variant_ids vs) r.product_id net shelf now c 1
                    (length batches) batches,
                ap (λ l. mem r.product_id (map (λ v. v.id) l)) same,
              ))
              (all-true rows),
          l,
          (ensure_for_products-Has (λ r. r) (variant_ids vs) c w.rows product
              (record { unique = λ rows u. u; keeps = λ rows p c h. h }) unique m).1,
        ),
      )

  -- A full sync settles each of its variants: under a stored configuration that is enabled, and
  -- whatever Cartona answers to which batch and in whichever order workers take the jobs, each variant
  -- of the fan-out has a row that is synced or failed when the queue is empty.
  pub sync_all_variants_fanout-Settled :
      (c : Config) (vs : List Variant) (product n : ℕ) (w w' u : SyncWorld)
      → check_batch_size c ≡ ok c
      → Unique w.rows
      → live c.id w.configs ≡ true
      → mem product (variant_ids vs) ≡ true
      → sync_all_variants_fanout P net shelf now caller c vs w ≡ ok w'
      → Drains P caller n w' u
      → u.queue ≡ []
      → Settled c.id product u
  sync_all_variants_fanout-Settled c vs product n w w' u valid unique l m e d empty =
      let (v, e', t) = fan_out-Tracked c vs product w valid unique l m in
      let (h, _, has) =
        Drains-Tracked P caller c.id (variant_ids vs) product d
          (subst (Tracked c.id (variant_ids vs) product) (ok_injective (sym e' ∙ e)) t) in
      settled-row P caller c.id (variant_ids vs) product u.rows m
        (subst (λ q. all (tracked c.id (variant_ids vs) q) u.rows ≡ true) empty h) has
