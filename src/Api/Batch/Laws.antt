-- ===== src/Api/Batch/Laws.antt =====
-- The product batches of models/cartona_api.py.
use cartona_odoo.Base.{
  ℕ, ◌+◌, String, Bool, true, false, ◌&&◌, Option, List, [], ◌∷◌, ◌≡◌, refl, arith, length, any,
  Bool-cases, inl, inr, length-append,
}
use cartona_odoo.Py.Json.{Python, Fields}
use cartona_odoo.Config.Data.{Config}
use cartona_odoo.Order.Data.{SyncStatus}
use cartona_odoo.Order.Resolve.{Variant}
use cartona_odoo.Log.{Caller}
use cartona_odoo.Product.SyncTable.{SyncRow, mark_success, mark_error}
use cartona_odoo.Api.Request.{Net}
use cartona_odoo.Api.Payload.{Shelf}
use cartona_odoo.Api.Batch.{Totals, batch_done, batch_row, add_batch, sync_one_batch, sync_each}
use cartona_odoo.Api.Batch.Slices.{concat}

abbrev is_syncing : SyncStatus → Bool
is_syncing SyncStatus.syncing = true
is_syncing _ = false

-- A row that a batch has left behind as being synced.
abbrev pub stuck : Config → List Variant → SyncRow → Bool
stuck c batch r = batch_row c batch r && is_syncing r.sync_status

module _ (P : Python) (net : Net) (shelf : Shelf) (now : ℕ) (caller : Caller) where
  mark_success-stuck :
      (c : Config) (batch : List Variant) (rows : List SyncRow)
      → any (stuck c batch) (mark_success now (batch_row c batch) rows) ≡ false
  unfolding mark_success
  mark_success-stuck c batch [] = refl
  mark_success-stuck c batch (r ∷ rows) = elim (Bool-cases (batch_row c batch r)) [
    | inl y ↦ rw y (ground (arith, mark_success-stuck c batch rows))
    | inr n ↦ rw n (ground (arith, n, mark_success-stuck c batch rows))
  ]

  mark_error-stuck :
      (e : Option String) (c : Config) (batch : List Variant) (rows : List SyncRow)
      → any (stuck c batch) (mark_error now e (batch_row c batch) rows) ≡ false
  unfolding mark_error
  mark_error-stuck e c batch [] = refl
  mark_error-stuck e c batch (r ∷ rows) = elim (Bool-cases (batch_row c batch r)) [
    | inl y ↦ rw y (ground (arith, mark_error-stuck e c batch rows))
    | inr n ↦ rw n (ground (arith, n, mark_error-stuck e c batch rows))
  ]

  batch_done-settles :
      (c : Config) (batch : List Variant) (result : Fields) (b : Bool) (rows : List SyncRow)
      → ((batch_done P net shelf now caller c batch result b rows).0.success_count
            + (batch_done P net shelf now caller c batch result b rows).0.error_count
          ≡ length batch)
        × (any (stuck c batch) (batch_done P net shelf now caller c batch result b rows).1 ≡ false)
  unfolding batch_done
  batch_done-settles c batch result true rows = (omega arith, mark_success-stuck c batch rows)
  batch_done-settles c batch result false rows = (omega arith, mark_error-stuck _ c batch rows)

  -- Whatever the network answers, a batch counts each of its variants once, as a success or an error,
  -- and leaves none of their rows as being synced.
  pub sync_one_batch-settles :
      (context : Option ℕ) (c : Config) (batch : List Variant) (rows : List SyncRow)
      → ((sync_one_batch P net shelf now caller context c batch rows).0.success_count
            + (sync_one_batch P net shelf now caller context c batch rows).0.error_count
          ≡ length batch)
        × (any (stuck c batch) (sync_one_batch P net shelf now caller context c batch rows).1
            ≡ false)
  unfolding sync_one_batch
  sync_one_batch-settles context c batch rows = batch_done-settles c batch _ _ _

  pub sync_each-counts :
      (context : Option ℕ) (c : Config) (batches : List (List Variant)) (t : Totals)
      (rows : List SyncRow)
      → (sync_each P net shelf now caller context c batches t rows).0.success_count
          + (sync_each P net shelf now caller context c batches t rows).0.error_count
        ≡ t.success_count + t.error_count + length (concat batches)
  unfolding sync_each concat add_batch
  sync_each-counts context c [] t rows = omega arith
  sync_each-counts context c (b ∷ bs) t rows = omega (
    arith,
    length-append b (concat bs),
    (sync_one_batch-settles context c b rows).0,
    sync_each-counts context c bs
        (add_batch P net shelf now caller (sync_one_batch P net shelf now caller context c b rows).0
          t)
        (sync_one_batch P net shelf now caller context c b rows).1,
  )
