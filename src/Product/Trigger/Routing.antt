-- ===== src/Product/Trigger/Routing.antt =====
-- Which configurations a change reaches.
use cartona_odoo.Base.{
  ℕ, ◌≡◌, refl, ◌∙◌, Bool, true, false, ◌&&◌, ◌||◌, Option, none, some, List, [], ◌∷◌, ◌++◌, map,
  any, select, arith, any-append, Bool-cases, inl, inr, ◌==◌,
}
use cartona_odoo.Config.Data.{Config}
use cartona_odoo.Config.Lookup.{get_for_warehouse, enabled_configs_for_company}
use cartona_odoo.Order.Resolve.{Variant}
use cartona_odoo.Product.Trigger.{
  SyncFields, SyncJob, Site, cartona_enabled_configs, queue_cartona_sync, if_enabled, configs_for,
  trigger_each, trigger_cartona_sync, StockRecord, Groups, group_by_warehouse, trigger_groups,
  trigger_stock_sync_by_warehouse,
}
use cartona_odoo.Product.Trigger.Laws.{queued, grouped, touches, group_by_warehouse-grouped}

any-select :
    (p q : Config → Bool) (cs : List Config) → any p (select q cs) ≡ any (λ c. p c && q c) cs
any-select p q [] = refl
any-select p q (c ∷ cs) = ground (arith, any-select p q cs)

queued-map :
    (product config : ℕ) (v : Variant) (fields : SyncFields) (cs : List Config)
    → queued product config (map (queue_cartona_sync v fields) cs)
      ≡ (v.id == product && any (λ c. c.id == config) cs)
queued-map product config v fields [] = ground arith
queued-map product config v fields (c ∷ cs) = ground (arith, queued-map product config v fields cs)

queued-append :
    (product config : ℕ) (a b : List SyncJob)
    → queued product config (a ++ b) ≡ (queued product config a || queued product config b)
queued-append product config a b =
    any-append (λ (j : SyncJob). j.product == product && j.config == config) a b

-- The company whose configurations a variant is sent to.
abbrev pub company_of : Site → Option ℕ → ℕ
company_of site none = site.company
company_of site (some c) = c

enabled-any :
    (site : Site) (v : Variant) (config : ℕ)
    → any (λ c. c.id == config) (cartona_enabled_configs site v)
      ≡ any
          (λ c.
            c.id == config
            && (c.company_id == company_of site v.company_id && c.is_cartona_sync_enabled))
          site.configs
unfolding cartona_enabled_configs
enabled-any site v config = by_company v.company_id
  where
    by_company :
        (o : Option ℕ)
        → any (λ c. c.id == config) (enabled_configs_for_company site.configs site.company o)
          ≡ any
              (λ c.
                c.id == config && (c.company_id == company_of site o && c.is_cartona_sync_enabled))
              site.configs
    by_company none = unfold enabled_configs_for_company in any-select _ _ site.configs
    by_company (some company) = unfold enabled_configs_for_company in any-select _ _ site.configs

-- A price change reaches exactly the enabled configurations of the variant's company.
pub price_fanout :
    (site : Site) (vs : List Variant) (product config : ℕ)
    → site.skip_cartona_sync ≡ false
    → queued product config (trigger_cartona_sync site SyncFields.price none vs)
      ≡ any
          (λ v.
            v.id == product
            && any
                (λ c.
                  c.id == config
                  && (c.company_id == company_of site v.company_id && c.is_cartona_sync_enabled))
                site.configs)
          vs
unfolding trigger_cartona_sync
price_fanout site vs product config s = simp s (each vs)
  where
    each :
        (us : List Variant)
        → queued product config (trigger_each site SyncFields.price none us)
          ≡ any
              (λ v.
                v.id == product
                && any
                    (λ c.
                      c.id == config
                      && (c.company_id == company_of site v.company_id
                          && c.is_cartona_sync_enabled))
                    site.configs)
              us
    each [] = unfold trigger_each in refl
    each (v ∷ us) =
        unfold trigger_each configs_for in
        queued-append product config
          (map (queue_cartona_sync v SyncFields.price) (cartona_enabled_configs site v))
          (trigger_each site SyncFields.price none us)
        ∙ ground (
          arith,
          queued-map product config v SyncFields.price (cartona_enabled_configs site v),
          enabled-any site v config,
          each us,
        )

-- The configuration of a warehouse, if it is enabled, takes the stock of that warehouse.
abbrev pub Serves : Site → ℕ → ℕ → Type 0
Serves site config w =
    (c : Config) × (get_for_warehouse site.configs (some w) ≡ some c)
    × (c.id ≡ config)
    × (c.is_cartona_sync_enabled ≡ true)

Serves-of :
    (site : Site) (config w : ℕ) (o : Option Config)
    → get_for_warehouse site.configs (some w) ≡ o
    → any (λ c. c.id == config) (if_enabled o) ≡ true
    → Serves site config w
unfolding if_enabled
Serves-of site config w none e h = cc
Serves-of site config w (some c) e h = (c, e, ground arith, ground arith)

stock-each :
    (site : Site) (w product config : ℕ) (vs : List Variant)
    → queued product config (trigger_each site SyncFields.stock (some w) vs) ≡ true
    → Serves site config w × (any (λ v. v.id == product) vs ≡ true)
unfolding trigger_each configs_for
stock-each site w product config [] h = cc
stock-each site w product config (v ∷ vs) h =
    elim (Bool-cases (
      v.id == product
      && any (λ (c : Config). c.id == config)
          (if_enabled (get_for_warehouse site.configs (some w))))) [
            | inl here ↦ (
              Serves-of site config w (get_for_warehouse site.configs (some w)) refl (ground arith),
              ground arith,
            )
            | inr later ↦
                let (s, t) = stock-each site w product config vs (
                  ground (
                    arith,
                    queued-append product config
                        (map (queue_cartona_sync v SyncFields.stock)
                          (if_enabled (get_for_warehouse site.configs (some w))))
                        (trigger_each site SyncFields.stock (some w) vs),
                    queued-map product config v SyncFields.stock
                        (if_enabled (get_for_warehouse site.configs (some w))),
                  )) in
                (s, ground arith)
          ]

groups_sound :
    (site : Site) (product config : ℕ) (groups : Groups)
    → queued product config (trigger_groups site groups) ≡ true
    → (w : ℕ) × Serves site config w × (grouped w product groups ≡ true)
unfolding trigger_groups trigger_cartona_sync
groups_sound site product config [] h = cc
groups_sound site product config ((w, vs) ∷ groups) h =
    elim (Bool-cases
      (queued product config (trigger_cartona_sync site SyncFields.stock (some w) vs))) [
        | inl here ↦
            let (s, t) = stock-each site w product config vs (ground arith) in (w, s, ground arith)
        | inr later ↦
            let (u, s, t) = groups_sound site product config groups (
              ground (
                arith,
                queued-append product config
                    (trigger_cartona_sync site SyncFields.stock (some w) vs)
                    (trigger_groups site groups),
              )) in
            (u, s, ground arith)
      ]

-- A stock job goes only to the enabled configuration of a warehouse in which some record changes
-- that product's stock.
pub stock_routing :
    (site : Site) (rs : List StockRecord) (product config : ℕ)
    → queued product config (trigger_stock_sync_by_warehouse site rs) ≡ true
    → (w : ℕ) × Serves site config w × (any (touches w product) rs ≡ true)
unfolding trigger_stock_sync_by_warehouse
stock_routing site rs product config h =
    let (w, s, g) = groups_sound site product config (group_by_warehouse rs []) h in
    (w, s, ground (arith, group_by_warehouse-grouped w product rs []))
