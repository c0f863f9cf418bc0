-- ===== src/Log/Laws.antt =====
-- What the guards of models/cartona_sync_log.py and models/cartona_sync_log_line.py keep of the log.
use cartona_odoo.Base.{
  ℕ, suc, ◌≡◌, refl, ◌∙◌, ap, Bool, true, false, List, [], ◌∷◌, ◌++◌, map, any, all, ltb, ◌==◌,
  arith, any-append, all-append, all-impl,
}
use cartona_odoo.Py.Exn.{ok, raise, access_error}
use cartona_odoo.Log.{
  Log, LogVals, LogLine, Detail, Logs, Caller, guarded, create, create_lines, log_operation,
  append_log, unlink, unlink_lines, write, write_lines, copy, copy_lines,
}

abbrev pub has_log : List Log → ℕ → Bool
has_log logs i = any (λ g. g.id == i) logs

-- Ids below the sequence, and a log for each line.
abbrev pub IsValid : Logs → Type 0
IsValid db =
    (all (λ g. ltb g.id db.next_id) db.logs ≡ true)
    × (all (λ l. has_log db.logs l.sync_log_id) db.lines ≡ true)

-- One log more, and the lines of it.
abbrev pub Adds : ℕ → Caller → LogVals → List Detail → Logs → Logs → Type 0
Adds now c vals details db later =
    (g : Log) × (later.logs ≡ db.logs ++ (g ∷ []))
    × (g.vals ≡ vals)
    × (g.user_id ≡ c.uid)
    × (g.create_date ≡ now)
    × (has_log db.logs g.id ≡ false)
    × (new : List LogLine) × (later.lines ≡ db.lines ++ new)
    × (map (λ l. l.detail) new ≡ details)
    × (all (λ l. l.sync_log_id == g.id) new ≡ true)

all-mapped :
    (log : ℕ) (logs : List Log) (details : List Detail)
    → has_log logs log ≡ true
    → all
        (λ (l : LogLine). has_log logs l.sync_log_id)
        (map (λ d. record { sync_log_id = log; detail = d }) details)
      ≡ true
all-mapped log logs [] h = refl
all-mapped log logs (d ∷ ds) h = ground (arith, all-mapped log logs ds h)

has_log-append :
    (logs more : List Log) (i : ℕ) → has_log logs i ≡ true → has_log (logs ++ more) i ≡ true
has_log-append logs more i h = ground (arith, any-append (λ (g : Log). g.id == i) logs more)

has_log-last : (logs : List Log) (g : Log) → has_log (logs ++ (g ∷ [])) g.id ≡ true
has_log-last logs g = ground (arith, any-append (λ (k : Log). k.id == g.id) logs (g ∷ []))

has_log-fresh :
    (n : ℕ) (logs : List Log) → all (λ g. ltb g.id n) logs ≡ true → has_log logs n ≡ false
has_log-fresh n [] h = refl
has_log-fresh n (g ∷ gs) h = ground (arith, has_log-fresh n gs)

details-mapped :
    (log : ℕ) (details : List Detail)
    → map (λ (l : LogLine). l.detail) (map (λ d. record { sync_log_id = log; detail = d }) details)
      ≡ details
details-mapped log [] = refl
details-mapped log (d ∷ ds) = ap (λ xs. d ∷ xs) (details-mapped log ds)

of_log-mapped :
    (log : ℕ) (details : List Detail)
    → all
        (λ (l : LogLine). l.sync_log_id == log)
        (map (λ d. record { sync_log_id = log; detail = d }) details)
      ≡ true
of_log-mapped log [] = refl
of_log-mapped log (d ∷ ds) = ground (arith, of_log-mapped log ds)

module _ (now : ℕ) where
  append_log-ids :
      (uid : ℕ) (vals : LogVals) (db : Logs)
      → IsValid db
      → all (λ g. ltb g.id (suc db.next_id)) (append_log now uid vals db).logs ≡ true
  unfolding append_log
  append_log-ids uid vals db v =
      all-append (λ (g : Log). ltb g.id (suc db.next_id)) db.logs _
      ∙ ground (
        arith,
        all-impl (λ (g : Log). ltb g.id db.next_id) (λ g. ltb g.id (suc db.next_id)) db.logs
            (λ g h. ground arith) v.0,
      )

  append_log-lines :
      (uid : ℕ) (vals : LogVals) (details : List Detail) (db : Logs)
      → IsValid db
      → all
          (λ (l : LogLine). has_log (append_log now uid vals db).logs l.sync_log_id)
          (db.lines ++ map (λ d. record { sync_log_id = db.next_id; detail = d }) details)
        ≡ true
  unfolding append_log
  append_log-lines uid vals details db v =
      let grown = (append_log now uid vals db).logs in
      all-append (λ (l : LogLine). has_log grown l.sync_log_id) db.lines _
      ∙ ground (
        arith,
        all-impl (λ (l : LogLine). has_log db.logs l.sync_log_id) (λ l. has_log grown l.sync_log_id)
            db.lines (λ l h. has_log-append db.logs _ l.sync_log_id h) v.1,
        all-mapped db.next_id grown details (has_log-last db.logs _),
      )

  -- Logging never fails, whoever calls: behind the logs that were there it adds one with the given
  -- values, by the caller and of this time, under an id that no log has; behind the lines that were
  -- there it adds lines of that log with the given values, in order; and it keeps the tables valid,
  -- with ids below the sequence and a log for each line.
  pub log_operation-IsValid :
      (c : Caller) (vals : LogVals) (details : List Detail) (db : Logs)
      → IsValid db
      → (later : Logs) × (log_operation now c vals details db ≡ ok later)
        × IsValid later
        × Adds now c vals details db later
  unfolding log_operation create create_lines guarded append_log
  log_operation-IsValid c vals details db v = (
    record (append_log now c.uid vals db) {
      lines = db.lines ++ map (λ d. record { sync_log_id = db.next_id; detail = d }) details;
    },
    refl,
    (append_log-ids c.uid vals db v, append_log-lines c.uid vals details db v),
    (
      _,
      refl,
      refl,
      refl,
      refl,
      has_log-fresh db.next_id db.logs v.0,
      _,
      refl,
      details-mapped db.next_id details,
      of_log-mapped db.next_id details,
    ),
  )

  -- Someone who is neither superuser nor in the addon's context changes nothing: creating, writing,
  -- deleting and copying logs and their lines are refused.
  pub guard_refuses :
      (c : Caller) (vals : LogVals) (details : List Detail) (log : ℕ) (test : Log → Bool)
      (change : Log → Log) (test_line : LogLine → Bool) (change_line : LogLine → LogLine)
      (db : Logs)
      → c.su ≡ false
      → c.sync_log_internal ≡ false
      → ((create now c vals db ≡ raise access_error "Sync logs cannot be created manually.")
          × (write now c test change db ≡ raise access_error "Sync logs are read-only.")
          × (unlink now c test db ≡ raise access_error "Sync logs cannot be deleted manually.")
          × (copy now c log db ≡ raise access_error "Sync logs cannot be duplicated."))
        × (create_lines now c log details db
            ≡ raise access_error "Sync log details cannot be created manually.")
        × (write_lines now c test_line change_line db
            ≡ raise access_error "Sync log details are read-only.")
        × (unlink_lines now c test_line db
            ≡ raise access_error "Sync log details cannot be deleted manually.")
        × (copy_lines now c log db ≡ raise access_error "Sync log details cannot be duplicated.")
  unfolding create create_lines write write_lines unlink unlink_lines copy copy_lines guarded
  guard_refuses c vals details log test change test_line change_line db s i = (
    (rw (s, i) refl, rw (s, i) refl, rw (s, i) refl, refl),
    rw (s, i) refl,
    rw (s, i) refl,
    rw (s, i) refl,
    refl,
  )
