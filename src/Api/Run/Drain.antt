-- ===== src/Api/Run/Drain.antt =====
-- The queued batches of a full sync, as workers take them: any job, at any time, with any answer.
use cartona_odoo.Base.{
  ℕ, suc, ◌+◌, ◌≡◌, refl, ap, ap₂, map, ◌∙◌, sym, arith, Option, none, some, List, [], ◌∷◌, ◌++◌,
  find, length, length-append, Bool-cases, inl, inr, ◌==◌,
}
use cartona_odoo.Py.Exn.{ok, ok_injective}
use cartona_odoo.Py.Json.{Python}
use cartona_odoo.Config.Data.{Config}
use cartona_odoo.Order.Resolve.{Variant}
use cartona_odoo.Log.{Caller, guarded, create, create_lines, append_log, log_operation}
use cartona_odoo.Api.Request.{Net}
use cartona_odoo.Api.Payload.{Shelf}
use cartona_odoo.Api.Batch.{BatchJob, SyncWorld, variant_ids}
use cartona_odoo.Api.Run.{
  logged, finish_batches, logged_and_finished, run_batch_job, sync_variant_batch_job,
}

module _ (P : Python) (caller : Caller) where
  -- A worker takes a job out of the queue. The answers of Cartona, the prices and the clock are those
  -- of that moment; `vs` are the variants of the job's ids.
  pub data Works : SyncWorld → SyncWorld → Type 0 where
    work :
        (net : Net) (shelf : Shelf) (now : ℕ) (before after : List BatchJob) (j : BatchJob)
        (vs : List Variant) (w w' : SyncWorld)
        → w.queue ≡ before ++ (j ∷ after)
        → variant_ids vs ≡ j.variants
        → sync_variant_batch_job P net shelf now caller j.config vs j.index j.total
            (record w { queue = before ++ after })
          ≡ ok w'
        → Works w w'

  -- So many jobs, one after the other.
  pub data Drains : ℕ → SyncWorld → SyncWorld → Type 0 where
    done : (w : SyncWorld) → Drains 0 w w
    next : {n : ℕ} {w v u : SyncWorld} → Works w v → Drains n v u → Drains (suc n) w u

  module _ (net : Net) (shelf : Shelf) (now : ℕ) where
    run_batch_job-queue :
        (found : Option Config) (vs : List Variant) (index total : ℕ) (w : SyncWorld)
        → (w' : SyncWorld) × (run_batch_job P net shelf now caller found vs index total w ≡ ok w')
          × (w'.queue ≡ w.queue)
    unfolding run_batch_job logged_and_finished finish_batches logged log_operation create
        create_lines append_log guarded
    run_batch_job-queue none vs index total w = (w, refl, refl)
    run_batch_job-queue (some c) vs index total w = elim (Bool-cases c.is_cartona_sync_enabled) [
      | inl y ↦ rw y (_, refl, refl)
      | inr n ↦ rw n (_, refl, refl)
    ]

    sync_variant_batch_job-queue :
        (config : ℕ) (vs : List Variant) (index total : ℕ) (w : SyncWorld)
        → (w' : SyncWorld) × (sync_variant_batch_job P net shelf now caller config vs index total w
            ≡ ok w')
          × (w'.queue ≡ w.queue)
    unfolding sync_variant_batch_job
    sync_variant_batch_job-queue config vs index total w =
        run_batch_job-queue (find (λ c. c.id == config) w.configs) vs index total w

  Works-length : {w w' : SyncWorld} → Works w w' → length w.queue ≡ suc (length w'.queue)
  Works-length (work net shelf now before after j vs w w' q ids e) =
      let (u, e', same) =
        sync_variant_batch_job-queue net shelf now j.config vs j.index j.total
          (record w { queue = before ++ after }) in
      let same' : w'.queue ≡ before ++ after =
        ap (λ v. v.queue) (ok_injective (sym e ∙ e')) ∙ same in
      omega (
        arith,
        ap length q,
        ap length same',
        length-append before (j ∷ after),
        length-append before after,
      )

  Drains-length : {n : ℕ} {w w' : SyncWorld} → Drains n w w' → length w'.queue + n ≡ length w.queue
  Drains-length (done w) = omega arith
  Drains-length (next s d) = omega (arith, Drains-length d, Works-length s)

  module _ (net : Net) (shelf : Shelf) (now : ℕ) (browse : ℕ → Variant)
      (same_id : (i : ℕ) → (browse i).id ≡ i) where
    browse-ids : (is : List ℕ) → variant_ids (map browse is) ≡ is
    browse-ids [] = refl
    browse-ids (i ∷ is) = ap₂ (λ x xs. x ∷ xs) (same_id i) (browse-ids is)

    drain :
        (q : List BatchJob) (w : SyncWorld)
        → w.queue ≡ q
        → (w' : SyncWorld) × Drains (length q) w w' × (w'.queue ≡ [])
    drain [] w e = (w, done w, e)
    drain (j ∷ q) w e =
        let (v, run, same) =
          sync_variant_batch_job-queue net shelf now j.config (map browse j.variants) j.index
            j.total (record w { queue = q }) in
        let (u, rest, empty) = drain q v same in
        (
          u,
          next (work net shelf now [] q j (map browse j.variants) w v e (browse-ids j.variants) run)
              rest,
          empty,
        )

    -- Workers may take the jobs in any order and with any answers of Cartona: each job leaves the
    -- queue for good, and from wherever they have got to, as many further jobs as are left empty it,
    -- since no job raises. `browse` gives a record for every id.
    pub Drains-ends :
        (n : ℕ) (w w' : SyncWorld)
        → Drains n w w'
        → (length w'.queue + n ≡ length w.queue)
          × ((u : SyncWorld) × Drains (length w'.queue) w' u × (u.queue ≡ []))
    Drains-ends n w w' d = (Drains-length d, drain w'.queue w' refl)
