-- ===== src/Api/Pull/Snapshot.antt =====
-- What the dashboard's snapshot shows after a pull.
use cartona_odoo.Base.{
  ℕ, String, ◌≡◌, refl, arith, Bool, true, false, ◌&&◌, Option, List, [], ◌∷◌, ◌++◌, map, any, all,
  ltb, ◌==◌, Bool-cases, inl, inr,
}
use cartona_odoo.Py.Exn.{ok}
use cartona_odoo.Py.Json.{Json, Python}
use cartona_odoo.Config.Data.{Config}
use cartona_odoo.Config.Dashboard.{
  Entry, search_newest, newest_first, log_entries, compute_dashboard_issue_snapshots,
  refresh_dashboard_issues_if_stale, refresh_stats, write_config,
}
use cartona_odoo.Config.Dashboard.Laws.{any-newest_first, any-take}
use cartona_odoo.Order.Data.{Text}
use cartona_odoo.Order.World.{Env}
use cartona_odoo.Log.{
  Log, ActionType, Caller, guarded, create, create_lines, append_log, log_operation,
}
use cartona_odoo.Log.Laws.{IsValid}
use cartona_odoo.Product.SyncTable.{mem}
use cartona_odoo.Api.Request.{Net}
use cartona_odoo.Api.Pull.{PullWorld, finish_pull, logging, pull_log, report_pull, pull_each}

mem-ids : (n : ℕ) (es : List Entry) → mem n (map (λ e. e.id) es) ≡ any (λ e. e.id == n) es
mem-ids n [] = refl
mem-ids n (e ∷ es) = ground (arith, mem-ids n es)

fresh-entries :
    (n : ℕ) (test : Log → Bool) (ls : List Log)
    → all (λ l. ltb l.id n) ls ≡ true
    → any (λ e. e.id == n) (log_entries test ls) ≡ false
unfolding log_entries
fresh-entries n test [] h = refl
fresh-entries n test (l ∷ ls) h = ground (arith, h, fresh-entries n test ls)

fresh-newest :
    (n limit : ℕ) (test : Log → Bool) (ls : List Log)
    → all (λ l. ltb l.id n) ls ≡ true
    → mem n (map (λ e. e.id) (search_newest limit (log_entries test ls))) ≡ false
unfolding search_newest
fresh-newest n limit test ls h =
    let es = log_entries test ls in
    let p = λ (e : Entry). e.id == n in
    ground (
      arith,
      mem-ids n (search_newest limit es),
      any-take p limit (newest_first es),
      any-newest_first p es,
      fresh-entries n test ls h,
    )

-- Whether a snapshot of the configuration shows the log of an id.
abbrev pub shows : ℕ → ℕ → Config → Bool
shows config n c = c.id == config && mem n c.recent_sync_issue_ids

absent : (a b : Bool) → b ≡ false → (a && b) ≡ false
absent a b h = ground (arith, h)

module _ (P : Python) (net : Net) (env : Env P.Float) (caller : Caller)
    (render : Text → String) where
  finish_pull-shows :
      (config : ℕ) (w : PullWorld P.Float) (c : Config)
      → IsValid w.logs
      → shows config w.logs.next_id (finish_pull P net env caller render w c) ≡ false
  unfolding finish_pull refresh_stats refresh_dashboard_issues_if_stale
      compute_dashboard_issue_snapshots
  finish_pull-shows config w c v =
      let unseen : mem w.logs.next_id
            (finish_pull P net env caller render w c).recent_sync_issue_ids
          ≡ false =
        fresh-newest w.logs.next_id 50 _ w.logs.logs v.0 in
      absent _ _ unseen

  write_config-shows :
      (config : ℕ) (w : PullWorld P.Float) (cs : List Config)
      → IsValid w.logs
      → any
          (shows config w.logs.next_id)
          (write_config config (finish_pull P net env caller render w) cs)
        ≡ false
  unfolding write_config
  write_config-shows config w [] v = refl
  write_config-shows config w (c ∷ cs) v = elim (Bool-cases (c.id == config)) [
    | inl y ↦
        rw y (ground (arith, finish_pull-shows config w c v, write_config-shows config w cs v))
    | inr n ↦ rw n (ground (arith, n, write_config-shows config w cs v))
  ]

  -- Where the log is valid: the pull of a list of orders refreshes the dashboard, and yet no snapshot
  -- of its configuration shows the log that the pull adds, be it an error.
  pub pull_each-hidden :
      (c : Config) (action : Option ActionType) (orders : List Json) (w : PullWorld P.Float)
      → IsValid w.logs
      → (l : Log) × ((pull_each P net env caller render c action (ok orders) w).1.logs.logs
          ≡ w.logs.logs ++ (l ∷ []))
        × (any
              (shows c.id l.id)
              (pull_each P net env caller render c action (ok orders) w).1.world.configs
            ≡ false)
  unfolding pull_each report_pull logging pull_log log_operation create create_lines append_log
      guarded
  pull_each-hidden c action orders w v = (_, refl, write_config-shows c.id _ _ v)
