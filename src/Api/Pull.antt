-- ===== src/Api/Pull.antt =====
-- `pull_and_process_orders` and `cron_pull_orders` of models/cartona_api.py.
pub mod Laws
pub mod Snapshot
use Prim.Native.String.{◌∷◌ as char, [] as no_chars}
use cartona_odoo.Base.{
  ℕ, suc, ◌+◌, ◌-◌, String, Bool, true, false, not, ◌&&◌, ◌||◌, ◌<>◌, Option, none, some, List, [],
  ◌∷◌, ◌++◌, map, ◌==◌, length, select, is_empty, if◌then◌else◌,
}
use cartona_odoo.Py.Exn.{Exn, Result, ok, err, raise, type_error}
use cartona_odoo.Py.Number.{pos, decimal}
use cartona_odoo.Py.Json.{
  Json, null, int, str, arr, obj, items, Items, nil, Fields, field, end, Python, get_none, get_or,
  truthy, str_json,
}
use cartona_odoo.Config.Data.{Config}
use cartona_odoo.Config.Stats.{count_imported}
use cartona_odoo.Config.Dashboard.{refresh_stats, write_config}
use cartona_odoo.Order.Data.{Text}
use cartona_odoo.Order.Issue.{Status, EntryType, ErrorCode, unexpected_error, Issue, Outcome, text}
use cartona_odoo.Order.World.{World, Env, get_cartona_config}
use cartona_odoo.Order.Process.{process_cartona_order}
use cartona_odoo.Log.{Logs, LogVals, Detail, Operation, ActionType, Caller, log_operation}
use cartona_odoo.Product.SyncTable.{SyncRow}
use cartona_odoo.Api.Request.{error_text, Net, successful, pull_orders}
use cartona_odoo.Api.Tally.{
  PullResult, Tally, detail, each_order, is_trouble, join_lines, no_orders, pull_message,
  pull_status, tally_order,
}

pub record PullWorld (F : Type 0) : Type 0 where
  pub world : World F
  pub logs : Logs
  pub rows : List SyncRow

-- `render` puts the values into a message.
module _ (P : Python) (net : Net) (env : Env P.Float) (caller : Caller)
    (render : Text → String) where
  open P use {Float}

  -- The loop over the orders, each imported under the configuration.
  unfoldable pub process_orders : ℕ → List Json → Tally → World Float → Tally × World Float
  process_orders config [] t w = (t, w)
  process_orders config (raw ∷ rest) t w =
      let (r, w') = process_cartona_order P env (some config) raw w in
      process_orders config rest (tally_order (ok r) t) w'

  abbrev Pulled : Type 0
  Pulled = Result PullResult × PullWorld Float

  -- The log of a pull, with no counts.
  pull_log : Config → Option ActionType → Status → Text → LogVals
  pull_log c action status message = record {
    cartona_config_id = c.id;
    operation_type = Operation.order_pull;
    status = status;
    message = message;
    about = none;
    error_details = none;
    request_data = none;
    response_data = none;
    records_processed = 0;
    records_success = 0;
    records_error = 0;
    action_type = action;
  }

  -- A log, and then the result.
  logging : LogVals → List Detail → PullResult → PullWorld Float → Pulled
  logging vals details r w = elim (log_operation env.now caller vals details w.logs) [
    | err e ↦ (err e, w)
    | ok logs ↦ (ok r, record w { logs = logs })
  ]

  abbrev nothing_pulled : Bool → Text → PullResult
  nothing_pulled succeeded message = record {
    success = succeeded;
    message = message;
    orders_pulled = 0;
    orders_new = 0;
    orders_updated = 0;
    orders_skipped = 0;
    errors = [];
  }

  -- The statistics, the forced refresh of the dashboard, and the time of the pull.
  unfoldable pub finish_pull : PullWorld Float → Config → Config
  finish_pull w c =
      record (refresh_stats env.now true w.rows (count_imported w.world.orders c) w.logs c) {
        last_order_pull = some env.now;
      }

  -- Behind the loop.
  report_pull : Config → Option ActionType → ℕ → Tally → PullWorld Float → Pulled
  unfolding logging pull_log join_lines pull_message
  report_pull c action pulled t w =
      let failures = length t.errors + t.orders_skipped in
      logging
        (record (pull_log c action (pull_status t) (pull_message pulled t)) {
          records_processed = pulled;
          records_success = t.orders_new + t.orders_updated;
          records_error = failures;
          error_details =
              join_lines
                (map (λ i. render i.message) (select (λ i. is_trouble i.status) t.detail_lines));
        })
        (map detail t.detail_lines)
        (record {
          success = true;
          message = text "Processed %s orders" (decimal t.orders_processed ∷ []);
          orders_pulled = pulled;
          orders_new = t.orders_new;
          orders_updated = t.orders_updated;
          orders_skipped = t.orders_skipped;
          errors = t.errors;
        })
        (record w {
          world = record w.world { configs = write_config c.id (finish_pull w) w.world.configs };
        })

  unfoldable pub pull_each :
      Config → Option ActionType → Result (List Json) → PullWorld Float → Pulled
  unfolding report_pull
  pull_each c action (err e) w = (err e, w)
  pull_each c action (ok orders) w =
      let (t, world) = process_orders c.id orders no_orders w.world in
      report_pull c action (length orders) t (record w { world = world })

  -- Behind the request.
  pull_answered : Config → Option ActionType → Fields → PullWorld Float → Pulled
  unfolding logging pull_log pull_each
  pull_answered c action result w =
      if not (successful P result)
      then (let error_msg = str_json P (get_or result "error" (str "Pull failed")) in
          logging
            (record (pull_log c action Status.error
              (text "Order pull failed: %s" (error_msg ∷ []))) {
                records_error = 1;
                error_details = error_text P result "Pull failed";
              })
            [] (nothing_pulled false (text "%s" (error_msg ∷ []))) w)
      else if not (truthy P (get_or result "data" (arr nil)))
      then logging (pull_log c action Status.info (text "No orders found in date range" [])) []
          (nothing_pulled true (text "No orders in date range" [])) w
      else pull_each c action (each_order (get_or result "data" (arr nil))) w

  pull_under : Result Config → Json → Json → Option ActionType → PullWorld Float → Pulled
  unfolding pull_answered
  pull_under (err e) from to action w = (err e, w)
  pull_under (ok c) from to action w =
      if not c.is_cartona_sync_enabled
      then (ok (nothing_pulled false (text "Cartona sync disabled" [])), w)
      else pull_answered c action (pull_orders net c from to 1 100) w

  -- The dates are those that the request sends: the given one or a day ago, and now.
  unfoldable pub pull_and_process_orders :
      Option ℕ → Json → Json → Option ActionType → PullWorld Float → Pulled
  unfolding pull_under
  pull_and_process_orders context from to action w =
      pull_under (get_cartona_config w.world.configs context) from to action w

  pull_for : List Config → Json → Json → PullWorld Float → PullWorld Float
  pull_for [] from to w = w
  pull_for (c ∷ cs) from to w =
      pull_for cs from to (pull_and_process_orders (some c.id) from to none w).1

  -- A pull that raises does not stop the others.
  unfoldable pub cron_pull_orders : Json → Json → PullWorld Float → PullWorld Float
  unfolding pull_for
  cron_pull_orders from to w =
      pull_for (select (λ c. c.is_cartona_sync_enabled) w.world.configs) from to w
