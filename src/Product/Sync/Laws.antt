-- ===== src/Product/Sync/Laws.antt =====
-- The sync of one variant in models/product_product.py: its log and its row.
use cartona_odoo.Base.{
  ℕ, Bool, true, false, not, ◌||◌, all, arith, sym, subst, String, Option, none, some, List, [],
  ◌∷◌, ◌++◌, ◌≡◌, refl, ◌∙◌, ap,
}
use cartona_odoo.Py.Exn.{ok}
use cartona_odoo.Py.Json.{Python, Fields}
use cartona_odoo.Config.Data.{Config}
use cartona_odoo.Order.Issue.{Status}
use cartona_odoo.Order.Resolve.{Variant}
use cartona_odoo.Log.{
  Log, ActionType, Caller, guarded, create, create_lines, append_log, log_operation,
}
use cartona_odoo.Product.SyncTable.{
  SyncRow, has_key, same_key, get_for_product_config, mark_syncing, mark_success, mark_error,
}
use cartona_odoo.Product.SyncTable.Laws.{Unique, get_for_product_config-Gets}
use cartona_odoo.Order.Data.{is_synced, is_error}
use cartona_odoo.Product.Trigger.{SyncFields, Site}
use cartona_odoo.Api.Request.{Net, successful}
use cartona_odoo.Api.Payload.{Shelf, bulk_update_products}
use cartona_odoo.Api.Batch.{SyncWorld}
use cartona_odoo.Product.Sync.{
  chosen_config, is_row, product_log, logging, answered, sync_row, sync_under, sync_to_cartona,
}

abbrev pub is_success : Status → Bool
is_success Status.success = true
is_success _ = false

-- Cartona's answer to the update of a variant: whether it is a success.
abbrev pub told : Python → Net → Shelf → Config → SyncFields → Variant → Bool
told P net shelf c fields v =
    successful P (bulk_update_products P net shelf c (some c.warehouse_id) fields (v ∷ []))

-- What a row shows of an answer.
abbrev pub shows : Bool → SyncRow → Bool
shows true r = is_synced r.sync_status
shows false r = is_error r.sync_status

abbrev one_if : Bool → ℕ
one_if true = 1
one_if false = 0

-- One log more, of the variant and the configuration, counted and marked by the answer, as are their
-- rows.
abbrev pub LogsOne : Bool → Config → Variant → SyncWorld → SyncWorld → Type 0
LogsOne b c v w w' =
    (l : Log) × (w'.logs.logs ≡ w.logs.logs ++ (l ∷ []))
    × (l.vals.cartona_config_id ≡ c.id)
    × (l.vals.about ≡ some (record { model = "product.product"; id = v.id; name = v.name }))
    × (l.vals.records_processed ≡ 1)
    × (l.vals.records_success ≡ one_if b)
    × (l.vals.records_error ≡ one_if (not b))
    × (is_success l.vals.status ≡ b)
    × (all (λ r. not (has_key v.id c.id r) || shows b r) w'.rows ≡ true)

has_key-same :
    (p c : ℕ) (k r : SyncRow) → has_key p c k ≡ true → has_key p c r ≡ true → same_key k r ≡ true
unfolding has_key
has_key-same p c k r h g = ground arith

mark_success-shows :
    (now p c : ℕ) (k : SyncRow) (rows : List SyncRow)
    → has_key p c k ≡ true
    → all (λ r. not (has_key p c r) || shows true r) (mark_success now (same_key k) rows) ≡ true
unfolding mark_success has_key
mark_success-shows now p c k [] h = refl
mark_success-shows now p c k (r ∷ rs) h = ground (arith, mark_success-shows now p c k rs)

mark_error-shows :
    (now p c : ℕ) (e : Option String) (k : SyncRow) (rows : List SyncRow)
    → has_key p c k ≡ true
    → all (λ r. not (has_key p c r) || shows false r) (mark_error now e (same_key k) rows) ≡ true
unfolding mark_error has_key
mark_error-shows now p c e k [] h = refl
mark_error-shows now p c e k (r ∷ rs) h = ground (arith, mark_error-shows now p c e k rs)

abbrev or_no_key : ℕ → ℕ → Option SyncRow → Bool
or_no_key p c none = false
or_no_key p c (some k) = has_key p c k

module _ (P : Python) (net : Net) (shelf : Shelf) (now : ℕ) (caller : Caller) (site : Site) where
  answered-LogsOne :
      (c : Config) (v : Variant) (fields : SyncFields) (action : Option ActionType) (k : SyncRow)
      (result : Fields) (b : Bool) (w : SyncWorld)
      → has_key v.id c.id k ≡ true
      → (w' : SyncWorld) × (answered P net shelf now caller site c v fields action
            (is_row (some k))
            result
            b
            w
          ≡ ok w')
        × LogsOne b c v w w'
  unfolding answered logging product_log log_operation create create_lines append_log guarded
  answered-LogsOne c v fields action k result true w h = (
    _,
    refl,
    (_, refl, refl, refl, refl, refl, refl, refl, mark_success-shows now v.id c.id k _ h),
  )
  answered-LogsOne c v fields action k result false w h = (
    _,
    refl,
    (_, refl, refl, refl, refl, refl, refl, refl, mark_error-shows now v.id c.id _ k _ h),
  )

  sync_row-LogsOne :
      (c : Config) (v : Variant) (fields : SyncFields) (action : Option ActionType) (k : SyncRow)
      (r : Option SyncRow × List SyncRow) (w : SyncWorld)
      → r.0 ≡ some k
      → has_key v.id c.id k ≡ true
      → (w' : SyncWorld) × (sync_row P net shelf now caller site c v fields action r w ≡ ok w')
        × LogsOne (told P net shelf c fields v) c v w w'
  unfolding sync_row
  sync_row-LogsOne c v fields action k (none, rows) w e h = cc
  sync_row-LogsOne c v fields action k (some j, rows) w e h =
      let result = bulk_update_products P net shelf c (some c.warehouse_id) fields (v ∷ []) in
      answered-LogsOne c v fields action j result (successful P result)
        (record w { rows = mark_syncing (same_key j) rows })
        (subst (λ x. or_no_key v.id c.id x ≡ true) (sym e) h)

  sync_under-enabled :
      (c : Config) (v : Variant) (fields : SyncFields) (action : Option ActionType) (w : SyncWorld)
      → c.is_cartona_sync_enabled ≡ true
      → sync_under P net shelf now caller site (some c) v fields action w
        ≡ sync_row P net shelf now caller site c v fields action
            (get_for_product_config (λ r. r) (some v.id) (some c) true w.rows)
            w
  unfolding sync_under
  sync_under-enabled c v fields action w y = simp y refl

  -- Under an enabled configuration, and where the table of sync rows keeps its unique constraint, the
  -- sync of a variant does not raise, whatever the network answers. It adds one log, of the variant and
  -- the configuration, that counts one record, as a success exactly where the answer is one and as an
  -- error otherwise; and each row of the two is left synced in the first case, in error in the second.
  pub sync_to_cartona-LogsOne :
      (fields : SyncFields) (config_id context : Option ℕ) (action : Option ActionType)
      (v : Variant) (c : Config) (w : SyncWorld)
      → chosen_config site config_id context v ≡ some c
      → c.is_cartona_sync_enabled ≡ true
      → Unique w.rows
      → (w' : SyncWorld) × (sync_to_cartona P net shelf now caller site fields config_id context
            action v w
          ≡ ok w')
        × LogsOne (told P net shelf c fields v) c v w w'
  unfolding sync_to_cartona
  sync_to_cartona-LogsOne fields config_id context action v c w chosen y u =
      let (k, got, key, still) = get_for_product_config-Gets (λ r. r) v.id c w.rows (λ t. t) u in
      let (w', done, one) =
        sync_row-LogsOne c v fields action k
          (get_for_product_config (λ r. r) (some v.id) (some c) true w.rows) w got key in
      (
        w',
        ap (λ s. sync_under P net shelf now caller site s v fields action w) chosen
            ∙ sync_under-enabled c v fields action w y
            ∙ done,
        one,
      )
