-- ===== src/Api/Pull/Laws.antt =====
-- What a pull counts and reports.
use cartona_odoo.Base.{
  ℕ, suc, ◌+◌, ◌≤◌, Bool, true, false, not, ◌&&◌, ◌||◌, String, Option, some, List, [], ◌∷◌, ◌++◌,
  ◌≡◌, refl, ◌∙◌, ap₂, subst, arith, length, length-append, ◌==◌,
}
use cartona_odoo.Py.Exn.{Result, ok, err}
use cartona_odoo.Py.Json.{Json, Python}
use cartona_odoo.Config.Data.{Config}
use cartona_odoo.Order.Data.{Text}
use cartona_odoo.Order.Issue.{Status, Outcome, any_error}
use cartona_odoo.Order.Issue.Reports.{any_error-snoc, any_error-append}
use cartona_odoo.Order.World.{World, Env}
use cartona_odoo.Order.Process.{process_cartona_order}
use cartona_odoo.Order.Process.Created.{Truthful}
use cartona_odoo.Order.Process.Contract.{process_cartona_order-Truthful}
use cartona_odoo.Log.{
  Log, ActionType, Caller, guarded, create, create_lines, append_log, log_operation,
}
use cartona_odoo.Api.Request.{Net}
use cartona_odoo.Api.Tally.{Tally, no_orders, tally_order, pull_status, one_if}
use cartona_odoo.Api.Pull.{PullWorld, process_orders, logging, pull_log, report_pull, pull_each}

-- A tally of so many orders: each is counted once, and an error is reported where one failed.
abbrev pub Balanced : ℕ → Tally → Type 0
Balanced n t =
    (t.orders_processed + t.orders_skipped + length t.errors ≡ n)
    × (t.orders_new + t.orders_updated ≤ t.orders_processed)
    × (any_error t.detail_lines ≡ not (length t.errors + t.orders_skipped == 0))

-- A result that is as it says, or an exception.
abbrev TruthfulResult : {F : Type 0} → Result (Outcome F) → Type 0
TruthfulResult (ok r) = Truthful r
TruthfulResult (err e) = Unit

abbrev pub is_success : Status → Bool
is_success Status.success = true
is_success _ = false

one_if-not : (b : Bool) → one_if b + one_if (not b) ≡ 1
one_if-not true = omega arith
one_if-not false = omega arith

-- A processed order is new, updated or neither.
one_if-kinds : (s n u : Bool) → one_if (s && n) + one_if (s && not n && u) ≤ one_if s
one_if-kinds false n u = omega arith
one_if-kinds true true u = omega arith
one_if-kinds true false true = omega arith
one_if-kinds true false false = omega arith

one_if-failures :
    (s : Bool) (e k : ℕ) → (not (e + k == 0) || not s) ≡ not (e + (k + one_if (not s)) == 0)
one_if-failures true e k = ground arith
one_if-failures false e k = ground arith

tally_order-Balanced :
    {F : Type 0} (r : Result (Outcome F)) (n : ℕ) (t : Tally)
    → TruthfulResult r
    → Balanced n t
    → Balanced (suc n) (tally_order r t)
unfolding tally_order
tally_order-Balanced (ok r) n t (h, k) (a, b, c) = (
  omega (arith, a, one_if-not r.success),
  omega (arith, b, one_if-kinds r.success r.is_new r.updated),
  any_error-append t.detail_lines r.issues
      ∙ ap₂ (λ x y. x || y) c h
      ∙ one_if-failures r.success (length t.errors) t.orders_skipped,
)
tally_order-Balanced (err e) n t h (a, b, c) = (
  omega (arith, a, length-append t.errors (e.text ∷ [])),
  b,
  any_error-snoc t.detail_lines _ refl ∙ ground (arith, length-append t.errors (e.text ∷ [])),
)

pull_status-Balanced :
    (n : ℕ) (t : Tally)
    → Balanced n t
    → (t.orders_new + t.orders_updated + (length t.errors + t.orders_skipped) ≤ n)
      × (is_success (pull_status t) ≡ not (any_error t.detail_lines))
unfolding pull_status
pull_status-Balanced n t (a, b, c) = (omega (arith, a, b), ground (arith, c))

module _ (P : Python) (net : Net) (env : Env P.Float) (caller : Caller)
    (render : Text → String) where
  process_orders-Balanced :
      (config : ℕ) (orders : List Json) (n : ℕ) (t : Tally) (w : World P.Float)
      → Balanced n t
      → Balanced (n + length orders) (process_orders P net env caller render config orders t w).0
  unfolding process_orders
  process_orders-Balanced config [] n t w h = subst (λ k. Balanced k t) (omega arith) h
  process_orders-Balanced config (raw ∷ rest) n t w h =
      subst
        (λ k.
          Balanced k
            (process_orders P net env caller render config rest
              (tally_order (ok (process_cartona_order P env (some config) raw w).0) t)
              (process_cartona_order P env (some config) raw w).1).0)
        (omega arith)
        (process_orders-Balanced config rest (suc n) _ _ (
          tally_order-Balanced (ok (process_cartona_order P env (some config) raw w).0) n t
            (process_cartona_order-Truthful P env (some config) raw w) h))

  -- The loop counts each order of a pull exactly once, as processed, skipped or raised; at most the
  -- processed ones are new or updated; and its detail lines hold an error exactly where an order was
  -- skipped or raised.
  pub process_orders-Counts :
      (config : ℕ) (orders : List Json) (w : World P.Float)
      → Balanced
          (length orders)
          (process_orders P net env caller render config orders no_orders w).0
  process_orders-Counts config orders w =
      subst (λ k. Balanced k (process_orders P net env caller render config orders no_orders w).0)
        (omega arith)
        (process_orders-Balanced config orders 0 no_orders w
          (omega arith, omega arith, unfold any_error in refl))

  -- A pull of a list of orders adds one log, of that many records, whose successes and errors are no
  -- more than that, and whose status is a success exactly where no order's import reported an error.
  pub pull_each-Logs :
      (c : Config) (action : Option ActionType) (orders : List Json) (w : PullWorld P.Float)
      → (l : Log) × ((pull_each P net env caller render c action (ok orders) w).1.logs.logs
          ≡ w.logs.logs ++ (l ∷ []))
        × (l.vals.records_processed ≡ length orders)
        × (l.vals.records_success + l.vals.records_error ≤ length orders)
        × (is_success l.vals.status
            ≡ not (
                any_error
                  (process_orders P net env caller render c.id orders no_orders
                    w.world).0.detail_lines))
  unfolding pull_each report_pull logging pull_log log_operation create create_lines append_log
      guarded pull_status
  pull_each-Logs c action orders w =
      let (few, honest) = pull_status-Balanced _ _ (process_orders-Counts c.id orders w.world) in
      (_, refl, refl, few, honest)
