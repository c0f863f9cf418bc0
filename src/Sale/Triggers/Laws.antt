-- ===== src/Sale/Triggers/Laws.antt =====
-- Which orders a write queues a status job for.
use cartona_odoo.Base.{
  ℕ, String, Bool, true, false, not, ◌&&◌, ◌||◌, Option, none, some, List, [], ◌∷◌, ◌≡◌, refl, ◌∙◌,
  ap, arith, any, select, is_id, ◌==◌, Bool-cases, inl, inr, any-append,
}
use cartona_odoo.Config.Data.{Config}
use cartona_odoo.Order.Data.{Order}
use cartona_odoo.Order.World.{filled}
use cartona_odoo.Sale.Triggers.{
  Job, Method, job, is_allowed, cartona_sync_active, filter_orders_for_sync, trigger_status_sync,
  writes, write,
}

abbrev is_status : Method → Bool
is_status Method.sync_status_to_cartona = true
is_status _ = false

-- A status job of an order, in the context of a configuration.
abbrev pub has_job : ℕ → ℕ → List Job → Bool
has_job i k = any (λ j. j.order_id == i && j.config_id == k && is_status j.method)

module _ {F : Type 0} (configs : List Config) (i k : ℕ) where
  -- An imported order with this id and this configuration, which is enabled, that may tell of its
  -- status.
  abbrev pub tells : Order F → Bool
  tells o =
      o.id == i
      && is_id k o.cartona_config_id
      && o.is_cartona_order
      && is_allowed o
      && cartona_sync_active configs o

  has_job-job :
      (o : Order F) (c : Option ℕ)
      → has_job i k (job Method.sync_status_to_cartona o c) ≡ (o.id == i && is_id k c)
  has_job-job o none = ground arith
  has_job-job o (some c) = ground arith

  has_job-trigger :
      (o : Order F) (os : List (Order F))
      → filled o.cartona_id ≡ true
      → has_job i k (trigger_status_sync (o ∷ os))
        ≡ (o.id == i && is_id k o.cartona_config_id || has_job i k (trigger_status_sync os))
  unfolding trigger_status_sync
  has_job-trigger o os f = rw f (
      any-append (λ (j : Job). j.order_id == i && j.config_id == k && is_status j.method)
        (job Method.sync_status_to_cartona o o.cartona_config_id) (trigger_status_sync os)
      ∙ ap (λ b. b || has_job i k (trigger_status_sync os)) (has_job-job o o.cartona_config_id))

  is_allowed-filled : (o : Order F) → is_allowed o ≡ true → filled o.cartona_id ≡ true
  unfolding is_allowed
  is_allowed-filled o h = ground arith

  has_job-chosen :
      (os : List (Order F))
      → has_job i k (
          trigger_status_sync (
            select
              (cartona_sync_active configs)
              (filter_orders_for_sync (select (λ o. o.is_cartona_order) os))))
        ≡ any tells os
  unfolding filter_orders_for_sync
  has_job-chosen [] = unfold trigger_status_sync in refl
  has_job-chosen (o ∷ os) = elim (Bool-cases o.is_cartona_order) [
    | inl y ↦ elim (Bool-cases (is_allowed o)) [
      | inl z ↦ elim (Bool-cases (cartona_sync_active configs o)) [
        | inl u ↦ simp y (
            simp z (
              simp u
                (has_job-trigger o _ (is_allowed-filled o z) ∙ ground (arith, has_job-chosen os))))
        | inr u ↦ ground (arith, y, z, u, has_job-chosen os)
      ]
      | inr z ↦ ground (arith, y, z, has_job-chosen os)
    ]
    | inr y ↦ ground (arith, y, has_job-chosen os)
  ]

  -- A write queues a status job for an order's id in the context of a configuration exactly where it
  -- writes the state or the delivery status, does not skip the sync, and an order with that id and that
  -- configuration was imported and may tell of its status, and its configuration is enabled.
  pub write-has_job :
      (skip_cartona_sync : Bool) (vals : List String) (os : List (Order F))
      → has_job i k (write skip_cartona_sync configs vals os)
        ≡ (writes ("state" ∷ "delivery_status" ∷ []) vals && not skip_cartona_sync && any tells os)
  unfolding write
  write-has_job skip vals os = ground (arith, has_job-chosen os)
