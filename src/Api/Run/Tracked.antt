-- ===== src/Api/Run/Tracked.antt =====
-- A product batch of models/cartona_api.py and the rows of a full sync.
use cartona_odoo.Base.{
  ℕ, String, ◌≡◌, refl, ap, ◌∙◌, arith, Bool, true, false, not, ◌&&◌, ◌||◌, Option, List, [], ◌∷◌,
  ◌++◌, map, any, all, any-append, Bool-cases, inl, inr, ◌==◌, if◌then◌else◌,
}
use cartona_odoo.Py.Json.{Python, Fields}
use cartona_odoo.Config.Data.{Config}
use cartona_odoo.Order.Data.{SyncStatus}
use cartona_odoo.Order.Resolve.{Variant}
use cartona_odoo.Log.{Caller}
use cartona_odoo.Product.SyncTable.{SyncRow, mem, has_key, mark_syncing, mark_success, mark_error}
use cartona_odoo.Api.Request.{Net}
use cartona_odoo.Api.Payload.{Shelf}
use cartona_odoo.Api.Batch.{BatchJob, variant_ids, batch_row, batch_done, sync_one_batch}

-- Synced, or failed.
abbrev pub is_settled : SyncStatus → Bool
is_settled SyncStatus.synced = true
is_settled SyncStatus.error = true
is_settled _ = false

-- Whether a job for a variant under a configuration is queued.
abbrev pub waits : ℕ → ℕ → List BatchJob → Bool
waits config product q = any (λ j. j.config == config && mem product j.variants) q

-- A row of one of the variants is settled, or its job is still queued.
abbrev pub tracked : ℕ → List ℕ → List BatchJob → SyncRow → Bool
tracked config products q r =
    not (r.cartona_config_id == config && mem r.product_id products)
    || is_settled r.sync_status
    || waits config r.product_id q

pub all-mapped :
    {A : Type 0} (p q : A → Bool) (f : A → A) (xs : List A)
    → ((x : A) → p x ≡ true → q (f x) ≡ true)
    → all p xs ≡ true
    → all q (map f xs) ≡ true
all-mapped p q f [] h k = refl
all-mapped p q f (x ∷ xs) h k = ground (arith, h x, all-mapped p q f xs h)

waits-left :
    (config product : ℕ) (before after : List BatchJob) (j : BatchJob)
    → waits config product (before ++ (j ∷ after))
      ≡ ((j.config == config && mem product j.variants) || waits config product (before ++ after))
waits-left config product before after j =
    let test = λ (b : BatchJob). b.config == config && mem product b.variants in
    ground (arith, any-append test before (j ∷ after), any-append test before after)

module _ (k : ℕ) (products : List ℕ) (before after : List BatchJob) (j : BatchJob) where
  abbrev tracked_before : SyncRow → Bool
  tracked_before = tracked k products (before ++ (j ∷ after))

  abbrev tracked_after : SyncRow → Bool
  tracked_after = tracked k products (before ++ after)

  -- The job of another configuration can go.
  pub tracked-other :
      (r : SyncRow) → (j.config == k) ≡ false → tracked_before r ≡ true → tracked_after r ≡ true
  tracked-other r n h = ground (arith, n, h, waits-left k r.product_id before after j)

  abbrev between : Config → List Variant → SyncRow → Bool
  between c vs r = batch_row c vs r || tracked_after r

  module _ (c : Config) (vs : List Variant) (same : c.id ≡ j.config)
      (ids : variant_ids vs ≡ j.variants) where
    batch_row-tracked : (r : SyncRow) → tracked_before r ≡ true → between c vs r ≡ true
    batch_row-tracked r h =
        let m = ap (mem r.product_id) ids in
        ground (arith, h, m, same, waits-left k r.product_id before after j)

    all-marked_syncing :
        (rows : List SyncRow)
        → all tracked_before rows ≡ true
        → all (between c vs) (mark_syncing (batch_row c vs) rows) ≡ true
    unfolding mark_syncing
    all-marked_syncing rows h =
        all-mapped tracked_before (between c vs) _ rows
          (λ r y. elim (Bool-cases (batch_row c vs r)) [
            | inl b ↦ rw b (ground (arith, b))
            | inr b ↦ rw b (batch_row-tracked r y)
          ])
          h

    all-marked_success :
        (now : ℕ) (rows : List SyncRow)
        → all (between c vs) rows ≡ true
        → all tracked_after (mark_success now (batch_row c vs) rows) ≡ true
    unfolding mark_success
    all-marked_success now rows h =
        all-mapped (between c vs) tracked_after _ rows
          (λ r y. elim (Bool-cases (batch_row c vs r)) [
            | inl b ↦ rw b (ground arith)
            | inr b ↦ rw b (ground (arith, b, y))
          ])
          h

    all-marked_error :
        (now : ℕ) (e : Option String) (rows : List SyncRow)
        → all (between c vs) rows ≡ true
        → all tracked_after (mark_error now e (batch_row c vs) rows) ≡ true
    unfolding mark_error
    all-marked_error now e rows h =
        all-mapped (between c vs) tracked_after _ rows
          (λ r y. elim (Bool-cases (batch_row c vs r)) [
            | inl b ↦ rw b (ground arith)
            | inr b ↦ rw b (ground (arith, b, y))
          ])
          h

any-mapped :
    {A : Type 0} (p : A → Bool) (f : A → A) (xs : List A)
    → ((x : A) → p (f x) ≡ p x)
    → any p (map f xs) ≡ any p xs
any-mapped p f [] h = refl
any-mapped p f (x ∷ xs) h = ground (arith, h x, any-mapped p f xs h)

module _ (product config : ℕ) (test : SyncRow → Bool) where
  marked-Has :
      (f : SyncRow → SyncRow) (rows : List SyncRow)
      → ((r : SyncRow) → has_key product config (f r) ≡ has_key product config r)
      → any (has_key product config) (map (λ r. if test r then f r else r) rows)
        ≡ any (has_key product config) rows
  marked-Has f rows h =
      any-mapped (has_key product config) _ rows
        (λ r. elim (Bool-cases (test r)) [ inl y ↦ rw y (h r) | inr n ↦ rw n refl ])

module _ (P : Python) (net : Net) (shelf : Shelf) (now : ℕ) (caller : Caller) where
  pub batch_done-Has :
      (product config : ℕ) (c : Config) (vs : List Variant) (result : Fields) (b : Bool)
      (rows : List SyncRow)
      → any (has_key product config) (batch_done P net shelf now caller c vs result b rows).1
        ≡ any (has_key product config) rows
  unfolding batch_done mark_success mark_error has_key
  batch_done-Has product config c vs result true rows =
      marked-Has product config (batch_row c vs) _ rows (λ r. refl)
  batch_done-Has product config c vs result false rows =
      marked-Has product config (batch_row c vs) _ rows (λ r. refl)

  pub sync_one_batch-Has :
      (product config : ℕ) (context : Option ℕ) (c : Config) (vs : List Variant)
      (rows : List SyncRow)
      → any (has_key product config) (sync_one_batch P net shelf now caller context c vs rows).1
        ≡ any (has_key product config) rows
  unfolding sync_one_batch mark_syncing has_key
  sync_one_batch-Has product config context c vs rows =
      batch_done-Has product config c vs _ _ _
      ∙ marked-Has product config (batch_row c vs) _ rows (λ r. refl)

  module _ (k : ℕ) (products : List ℕ) (before after : List BatchJob) (j : BatchJob) where
    batch_done-tracked :
        (c : Config) (vs : List Variant) (result : Fields) (b : Bool) (rows : List SyncRow)
        → c.id ≡ j.config
        → variant_ids vs ≡ j.variants
        → all (between k products before after j c vs) rows ≡ true
        → all
            (tracked k products (before ++ after))
            (batch_done P net shelf now caller c vs result b rows).1
          ≡ true
    unfolding batch_done
    batch_done-tracked c vs result true rows same ids h =
        all-marked_success k products before after j c vs same ids now rows h
    batch_done-tracked c vs result false rows same ids h =
        all-marked_error k products before after j c vs same ids now _ rows h

    pub sync_one_batch-tracked :
        (context : Option ℕ) (c : Config) (vs : List Variant) (rows : List SyncRow)
        → c.id ≡ j.config
        → variant_ids vs ≡ j.variants
        → all (tracked k products (before ++ (j ∷ after))) rows ≡ true
        → all
            (tracked k products (before ++ after))
            (sync_one_batch P net shelf now caller context c vs rows).1
          ≡ true
    unfolding sync_one_batch
    sync_one_batch-tracked context c vs rows same ids h =
        batch_done-tracked c vs _ _ _ same ids
          (all-marked_syncing k products before after j c vs same ids rows h)
