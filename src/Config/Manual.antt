-- ===== src/Config/Manual.antt =====
-- The buttons of a configuration that pull orders and queue all variants, and the job behind the
-- second: models/cartona_config.py.
use cartona_odoo.Base.{
  ℕ, String, not, some, List, [], ◌∷◌, ◌++◌, select, length, ◌==◌, if◌then◌else◌,
}
use cartona_odoo.Py.Exn.{Result, ok, err, raise, user_error}
use cartona_odoo.Py.Number.{decimal}
use cartona_odoo.Py.Json.{Json, Python}
use cartona_odoo.Config.Data.{Config}
use cartona_odoo.Config.Stats.{eligible_product}
use cartona_odoo.Config.Dashboard.{write_config, action_refresh_dashboard}
use cartona_odoo.Order.Data.{Text}
use cartona_odoo.Order.Issue.{text}
use cartona_odoo.Order.Resolve.{Variant}
use cartona_odoo.Order.World.{Env}
use cartona_odoo.Log.{ActionType, Caller}
use cartona_odoo.Api.Request.{Net}
use cartona_odoo.Api.Tally.{PullResult}
use cartona_odoo.Api.Pull.{PullWorld, pull_and_process_orders}
use cartona_odoo.Api.Payload.{Shelf}
use cartona_odoo.Api.Batch.{SyncWorld}
use cartona_odoo.Api.Run.{sync_all_variants}

-- The client's notification.
pub record Notification : Type 0 where
  pub title : String
  pub message : Text
  pub kind : String

order_pull_complete : PullResult → Notification
order_pull_complete r = record {
  title = "Order Pull Complete";
  message = r.message;
  kind = if r.success then "success" else "warning";
}

module _ {F : Type 0} where
  pulled_manually : ℕ → Config → Result PullResult × PullWorld F → Result Notification × PullWorld F
  unfolding order_pull_complete
  pulled_manually now c (err e, w) = (err e, w)
  pulled_manually now c (ok r, w) = (
    ok (order_pull_complete r),
    record w {
      world = record w.world {
        configs =
            write_config c.id (action_refresh_dashboard now w.rows w.world.orders w.logs)
              w.world.configs;
      };
    },
  )

module _ (P : Python) (net : Net) (env : Env P.Float) (caller : Caller)
    (render : Text → String) where
  -- `_update_sync_stats` and the forced refresh of the dashboard follow the pull once more.
  unfoldable pub manual_pull_orders :
      Config → Json → Json → PullWorld P.Float → Result Notification × PullWorld P.Float
  unfolding pulled_manually
  manual_pull_orders c from to w =
      if not c.is_cartona_sync_enabled
      then (raise user_error "Enable Cartona sync on configuration first.", w)
      else pulled_manually env.now c (
          pull_and_process_orders P net env caller render (some c.id) from to
            (some ActionType.manual) w)

variants_queued : ℕ → Notification
variants_queued n = record {
  title = "Variant Sync Queued";
  message =
      text
        "%(count)s variant(s) queued for price and stock sync for warehouse %(warehouse)s. Track progress in Recent Activity."
        (decimal n ∷ []);
  kind = "info";
}

-- The ids of the configurations whose `sync_all_variants_job` is queued.
unfoldable pub manual_sync_all_variants :
    Config → List Variant → List ℕ → Result (Notification × List ℕ)
unfolding variants_queued
manual_sync_all_variants c products queue =
    if not c.is_cartona_sync_enabled
    then raise user_error "Enable Cartona sync on configuration first."
    else if length (select (eligible_product c) products) == 0
    then raise user_error "No saleable product variants found for %s."
    else ok (variants_queued (length (select (eligible_product c) products)), queue ++ (c.id ∷ []))

module _ (P : Python) (net : Net) (shelf : Shelf) (now : ℕ) (caller : Caller) where
  unfoldable pub sync_all_variants_job : Config → List Variant → SyncWorld → Result SyncWorld
  sync_all_variants_job c products w =
      if not c.is_cartona_sync_enabled
      then ok w
      else sync_all_variants P net shelf now caller c products w
