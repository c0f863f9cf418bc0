-- ===== src/Log.antt =====
-- models/cartona_sync_log.py and models/cartona_sync_log_line.py: the log of the operations and its
-- detail lines, which only the addon itself writes.
pub mod Laws
use cartona_odoo.Base.{
  ℕ, suc, ◌+◌, ◌-◌, ◌*◌, String, Bool, true, false, not, ◌||◌, Option, none, some, List, [], ◌∷◌,
  ◌++◌, map, any, select, length, ltb, ◌==◌, if◌then◌else◌,
}
use cartona_odoo.Py.Exn.{Result, ok, raise, access_error, ◌>>=◌}
use cartona_odoo.Order.Data.{Text}
use cartona_odoo.Order.Issue.{Status, Issue, RecordRef}

pub data Operation : Type 0 where
  product_sync stock_sync order_pull status_sync connection_test bulk_operation : Operation

pub data ActionType : Type 0 where
  manual automated : ActionType

-- What a caller passes to `log_operation`; the duration is left out. `line_vals_list` is beside it.
pub record LogVals : Type 0 where
  pub cartona_config_id : ℕ
  pub operation_type : Operation
  pub status : Status
  pub message : Text
  pub about : Option RecordRef
  pub error_details : Option String
  pub request_data : Option String
  pub response_data : Option String
  pub records_processed : ℕ
  pub records_success : ℕ
  pub records_error : ℕ
  pub action_type : Option ActionType

pub record Log : Type 0 where
  pub id : ℕ
  pub vals : LogVals
  pub action_type : ActionType
  pub user_id : ℕ
  pub create_date : ℕ

-- The values of one detail line, and the line.
pub record Detail : Type 0 where
  pub entry : Issue
  pub request_data : Option String
  pub response_data : Option String

pub record LogLine : Type 0 where
  pub sync_log_id : ℕ
  pub detail : Detail

-- Both tables; `next_id` is the sequence of the first.
pub record Logs : Type 0 where
  pub logs : List Log
  pub lines : List LogLine
  pub next_id : ℕ

-- Who calls: `env.su`, the context key `cartona_sync_log_internal`, and the user.
pub record Caller : Type 0 where
  pub su : Bool
  pub sync_log_internal : Bool
  pub uid : ℕ

-- `not self.env.su and not self.env.context.get('cartona_sync_log_internal')`
unfoldable pub guarded {ℓ} : {A : Type ℓ} → Caller → String → A → Result A
guarded c message a = if c.su || c.sync_log_internal then ok a else raise access_error message

abbrev or_automated : Option ActionType → ActionType
or_automated none = ActionType.automated
or_automated (some a) = a

module _ (now : ℕ) where
  unfoldable pub append_log : ℕ → LogVals → Logs → Logs
  append_log uid vals db = record db {
    logs =
        db.logs
        ++ (record {
          id = db.next_id;
          vals = vals;
          action_type = or_automated vals.action_type;
          user_id = uid;
          create_date = now;
        }
            ∷ []);
    next_id = suc db.next_id;
  }

  -- `create` of the log, with one row.
  unfoldable pub create : Caller → LogVals → Logs → Result Logs
  unfolding guarded append_log
  create c vals db = guarded c "Sync logs cannot be created manually." (append_log c.uid vals db)

  -- `create` of the detail lines of one log.
  unfoldable pub create_lines : Caller → ℕ → List Detail → Logs → Result Logs
  unfolding guarded
  create_lines c log details db =
      guarded c "Sync log details cannot be created manually." (record db {
        lines = db.lines ++ map (λ d. record { sync_log_id = log; detail = d }) details;
      })

  -- `self.sudo()`
  abbrev sudo : Caller → Caller
  sudo c = record c { su = true }

  unfoldable pub log_operation : Caller → LogVals → List Detail → Logs → Result Logs
  unfolding create create_lines
  log_operation c vals details db = do
    db' ← create (sudo c) vals db
    create_lines (sudo c) db.next_id details db'

  -- `create_date < cutoff`
  abbrev is_old : ℕ → Log → Bool
  is_old cutoff l = ltb l.create_date cutoff

  -- `unlink` of the logs that pass the test; the lines go with them (`ondelete='cascade'`).
  unfoldable pub unlink : Caller → (Log → Bool) → Logs → Result Logs
  unfolding guarded
  unlink c test db = guarded c "Sync logs cannot be deleted manually." (record db {
    logs = select (λ l. not (test l)) db.logs;
    lines = select (λ l. not (any (λ g. g.id == l.sync_log_id) (select test db.logs))) db.lines;
  })

  -- `write` of the logs that pass the test: what changes is a function.
  unfoldable pub write : Caller → (Log → Bool) → (Log → Log) → Logs → Result Logs
  unfolding guarded
  write c test change db =
      guarded c "Sync logs are read-only."
        (record db { logs = map (λ l. if test l then change l else l) db.logs })

  unfoldable pub write_lines : Caller → (LogLine → Bool) → (LogLine → LogLine) → Logs → Result Logs
  unfolding guarded
  write_lines c test change db =
      guarded c "Sync log details are read-only."
        (record db { lines = map (λ l. if test l then change l else l) db.lines })

  unfoldable pub unlink_lines : Caller → (LogLine → Bool) → Logs → Result Logs
  unfolding guarded
  unlink_lines c test db =
      guarded c "Sync log details cannot be deleted manually."
        (record db { lines = select (λ l. not (test l)) db.lines })

  -- A copy is refused whoever asks.
  unfoldable pub copy : Caller → ℕ → Logs → Result Logs
  copy c log db = raise access_error "Sync logs cannot be duplicated."

  unfoldable pub copy_lines : Caller → ℕ → Logs → Result Logs
  copy_lines c line db = raise access_error "Sync log details cannot be duplicated."

  -- Days are counted in minutes. It returns how many logs were deleted.
  unfoldable pub cleanup_old_logs : Caller → ℕ → Logs → Result (ℕ × Logs)
  unfolding unlink
  cleanup_old_logs c days db =
      let cutoff = now - days * 1440 in
      do
        db' ← unlink (record c { su = true; sync_log_internal = true }) (is_old cutoff) db
        ok (length (select (is_old cutoff) db.logs), db')
