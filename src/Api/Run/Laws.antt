-- ===== src/Api/Run/Laws.antt =====
-- What a run over product batches counts and logs.
use cartona_odoo.Base.{
  ℕ, ◌+◌, String, Option, List, [], ◌∷◌, ◌++◌, ◌≡◌, refl, ap, subst, arith, map, length,
}
use cartona_odoo.Py.Exn.{ok, ◌>>=◌, ok_injective}
use cartona_odoo.Py.Json.{Python}
use cartona_odoo.Config.Data.{Config}
use cartona_odoo.Order.Resolve.{Variant}
use cartona_odoo.Log.{
  Log, ActionType, Caller, guarded, create, create_lines, append_log, log_operation,
}
use cartona_odoo.Product.SyncTable.{ensure_for_products}
use cartona_odoo.Api.Request.{Net}
use cartona_odoo.Api.Payload.{Shelf}
use cartona_odoo.Api.Batch.{nothing_yet, SyncWorld, batch_status, sync_log}
use cartona_odoo.Api.Run.{
  sync_variants_in_batches, finish_batches, logged, logged_and_finished, run_batches,
}
use cartona_odoo.Api.Batch.Slices.{concat, slices-covers}
use cartona_odoo.Config.Rules.{check_batch_size}
use cartona_odoo.Config.Rules.Laws.{check_batch_size-positive}
use cartona_odoo.Api.Batch.Laws.{sync_each-counts}

-- The log that a run over these variants adds.
abbrev pub Counted : List Variant → SyncWorld → SyncWorld → Type 0
Counted vs w w' =
    (l : Log) × (w'.logs.logs ≡ w.logs.logs ++ (l ∷ []))
    × (l.vals.records_processed ≡ length vs)
    × (l.vals.records_success + l.vals.records_error ≡ length vs)
    × (l.vals.status ≡ batch_status l.vals.records_success l.vals.records_error)

module _ (P : Python) (net : Net) (shelf : Shelf) (now : ℕ) (caller : Caller) where
  run_batches-Counted :
      (context : Option ℕ) (c : Config) (template : String) (action : Option ActionType)
      (vs : List Variant) (w w' : SyncWorld) (batches : List (List Variant))
      → concat batches ≡ vs
      → run_batches P net shelf now caller context c template action vs w batches ≡ ok w'
      → Counted vs w w'
  unfolding run_batches logged_and_finished finish_batches logged log_operation create create_lines
      append_log guarded sync_log
  run_batches-Counted context c template action vs w w' batches same e =
      subst (Counted vs w) (ok_injective e) (
        _,
        refl,
        refl,
        omega (
          arith,
          ap length same,
          sync_each-counts P net shelf now caller context c batches nothing_yet
              (ensure_for_products (λ r. r) (map (λ v. v.id) vs) c w.rows).1,
        ),
        refl,
      )

  -- Under a stored configuration, whose batch size has passed its constraint, a run over at least one
  -- variant does not raise; it adds one log, which counts each variant once, as a success or an error,
  -- and whose status follows from the two counts.
  pub sync_variants_in_batches-Counted :
      (context : Option ℕ) (c : Config) (template : String) (action : Option ActionType)
      (v : Variant) (vs : List Variant) (w : SyncWorld)
      → check_batch_size c ≡ ok c
      → (w' : SyncWorld) × (sync_variants_in_batches P net shelf now caller context c template
            action
            (v ∷ vs)
            w
          ≡ ok w')
        × Counted (v ∷ vs) w w'
  unfolding sync_variants_in_batches run_batches logged_and_finished finish_batches logged
      log_operation create create_lines append_log guarded sync_log
  sync_variants_in_batches-Counted context c template action v vs w valid =
      let (batches, cut, same, fit) =
        slices-covers c.batch_size (v ∷ vs) (check_batch_size-positive c valid) in
      (
        _,
        ap (λ r. r >>= run_batches P net shelf now caller context c template action (v ∷ vs) w) cut,
        run_batches-Counted context c template action (v ∷ vs) w _ batches same refl,
      )
