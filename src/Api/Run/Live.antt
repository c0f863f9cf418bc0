-- ===== src/Api/Run/Live.antt =====
-- The configuration of a batch job of models/cartona_api.py, while its statistics are written.
use cartona_odoo.Base.{
  ℕ, ◌≡◌, refl, arith, Bool, true, false, ◌||◌, none, some, List, [], ◌∷◌, find, Bool-cases, inl,
  inr, ◌==◌, if◌then◌else◌,
}
use cartona_odoo.Config.Data.{Config}
use cartona_odoo.Config.Stats.{update_sync_stats, dashboard_issues_cache_expired}
use cartona_odoo.Config.Dashboard.{
  compute_dashboard_issue_snapshots, refresh_dashboard_issues_if_stale, refresh_stats, write_config,
}
use cartona_odoo.Log.{Logs}
use cartona_odoo.Product.SyncTable.{SyncRow}

-- Whether the configuration of an id is stored, and enabled.
abbrev pub live : ℕ → List Config → Bool
live k [] = false
live k (c ∷ cs) = if c.id == k then c.is_cartona_sync_enabled else live k cs

module _ (now : ℕ) (force : Bool) (rows : List SyncRow) (pulled : ℕ) (db : Logs) where
  pub refresh_stats-keeps :
      (c : Config)
      → ((refresh_stats now force rows pulled db c).id ≡ c.id)
        × ((refresh_stats now force rows pulled db c).is_cartona_sync_enabled
            ≡ c.is_cartona_sync_enabled)
  unfolding refresh_stats refresh_dashboard_issues_if_stale compute_dashboard_issue_snapshots
      update_sync_stats
  refresh_stats-keeps c =
      elim (Bool-cases
        (force || dashboard_issues_cache_expired now (update_sync_stats now rows pulled c))) [
          | inl y ↦ rw y (refl, refl)
          | inr n ↦ rw n (refl, refl)
        ]

pub live-write_config :
    (k i : ℕ) (f : Config → Config) (cs : List Config)
    → ((c : Config)
        → ((f c).id ≡ c.id) × ((f c).is_cartona_sync_enabled ≡ c.is_cartona_sync_enabled))
    → live k (write_config i f cs) ≡ live k cs
unfolding write_config
live-write_config k i f [] keeps = refl
live-write_config k i f (d ∷ cs) keeps = elim (Bool-cases (d.id == i)) [
  | inl y ↦ rw y (ground (arith, keeps d, live-write_config k i f cs keeps))
  | inr n ↦ rw n (ground (arith, live-write_config k i f cs keeps))
]

pub find-id : (k : ℕ) (cs : List Config) (c : Config) → find (λ d. d.id == k) cs ≡ some c → c.id ≡ k
find-id k [] c e = cc
find-id k (d ∷ cs) c e = ground (arith, e, find-id k cs c)

pub live-none :
    (k m : ℕ) (cs : List Config)
    → live k cs ≡ true
    → find (λ d. d.id == m) cs ≡ none
    → (m == k) ≡ false
live-none k m [] l e = cc
live-none k m (c ∷ cs) l e = ground (arith, l, e, live-none k m cs)

pub live-disabled :
    (k m : ℕ) (c : Config) (cs : List Config)
    → live k cs ≡ true
    → find (λ d. d.id == m) cs ≡ some c
    → c.is_cartona_sync_enabled ≡ false
    → (m == k) ≡ false
live-disabled k m c [] l e n = cc
live-disabled k m c (d ∷ cs) l e n = ground (arith, l, e, n, live-disabled k m c cs)
