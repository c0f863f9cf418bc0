-- ===== src/Config/Dashboard/Laws.antt =====
-- The snapshot of recent issues in models/cartona_config.py.
use Prim.Native.Nat.{min}
use cartona_odoo.Base.{
  ℕ, zero, suc, ◌≡◌, refl, ap, ◌∙◌, select, Bool, true, false, not, ◌&&◌, ◌||◌, List, [], ◌∷◌,
  arith, map, any, all, take, length, length-take, ◌==◌,
}
use cartona_odoo.Config.Dashboard.{
  Entry, not_older, insert_entry, newest_first, search_newest, log_entries, is_recent_issue,
  compute_dashboard_issue_snapshots, refresh_dashboard_issues_if_stale,
}
use cartona_odoo.Config.Data.{Config}
use cartona_odoo.Log.{Log, Logs}

abbrev pub same : Entry → Entry → Bool
same a b = a.id == b.id && a.created == b.created

abbrev pub member : Entry → List Entry → Bool
member e es = any (same e) es

abbrev sorted : List Entry → Bool
sorted [] = true
sorted (x ∷ xs) = all (not_older x) xs && sorted xs

not_older_trans :
    (a b c : Entry) → not_older a b ≡ true → not_older b c ≡ true → not_older a c ≡ true
unfolding not_older
not_older_trans a b c h k = ground arith

not_older_total : (a b : Entry) → not_older a b ≡ false → not_older b a ≡ true
unfolding not_older
not_older_total a b h = ground arith

not_older-same : (a b e : Entry) → same e b ≡ true → not_older a b ≡ true → not_older a e ≡ true
unfolding not_older
not_older-same a b e h k = ground arith

all_trans :
    (a b : Entry) (xs : List Entry)
    → not_older a b ≡ true
    → all (not_older b) xs ≡ true
    → all (not_older a) xs ≡ true
all_trans a b [] h k = refl
all_trans a b (x ∷ xs) h k = ground (arith, not_older_trans a b x, all_trans a b xs h)

all-insert :
    (p : Entry → Bool) (e : Entry) (xs : List Entry) → all p (insert_entry e xs) ≡ (p e && all p xs)
unfolding insert_entry
all-insert p e [] = refl
all-insert p e (x ∷ xs) = ground (arith, all-insert p e xs)

any-insert :
    (p : Entry → Bool) (e : Entry) (xs : List Entry) → any p (insert_entry e xs) ≡ (p e || any p xs)
unfolding insert_entry
any-insert p e [] = refl
any-insert p e (x ∷ xs) = ground (arith, any-insert p e xs)

length-insert : (e : Entry) (xs : List Entry) → length (insert_entry e xs) ≡ suc (length xs)
unfolding insert_entry
length-insert e [] = refl
length-insert e (x ∷ xs) = ground (arith, length-insert e xs)

insert-sorted : (e : Entry) (xs : List Entry) → sorted xs ≡ true → sorted (insert_entry e xs) ≡ true
unfolding insert_entry
insert-sorted e [] h = refl
insert-sorted e (x ∷ xs) h = ground (
  arith,
  all-insert (not_older x) e xs,
  insert-sorted e xs,
  all_trans e x xs,
  not_older_total e x,
)

newest_first-sorted : (es : List Entry) → sorted (newest_first es) ≡ true
unfolding newest_first
newest_first-sorted [] = refl
newest_first-sorted (e ∷ es) = insert-sorted e (newest_first es) (newest_first-sorted es)

pub any-newest_first : (p : Entry → Bool) (es : List Entry) → any p (newest_first es) ≡ any p es
unfolding newest_first
any-newest_first p [] = refl
any-newest_first p (e ∷ es) =
    ground (arith, any-insert p e (newest_first es), any-newest_first p es)

length-newest_first : (es : List Entry) → length (newest_first es) ≡ length es
unfolding newest_first
length-newest_first [] = refl
length-newest_first (e ∷ es) =
    ground (arith, length-insert e (newest_first es), length-newest_first es)

pub any-take :
    (p : Entry → Bool) (n : ℕ) (xs : List Entry) → any p (take n xs) ≡ true → any p xs ≡ true
any-take p zero xs h = ground arith
any-take p (suc n) [] h = h
any-take p (suc n) (x ∷ xs) h = ground (arith, any-take p n xs)

all-member :
    (a e : Entry) (xs : List Entry)
    → all (not_older a) xs ≡ true
    → member e xs ≡ true
    → not_older a e ≡ true
all-member a e [] h k = ground arith
all-member a e (x ∷ xs) h k = ground (arith, not_older-same a x e, all-member a e xs)

take-newest :
    (n : ℕ) (e : Entry) (xs : List Entry)
    → sorted xs ≡ true
    → (not (member e xs) || member e (take n xs) || all (λ x. not_older x e) (take n xs)) ≡ true
take-newest zero e xs h = ground arith
take-newest (suc n) e [] h = refl
take-newest (suc n) e (x ∷ xs) h = ground (arith, all-member x e xs, take-newest n e xs)

-- A search with a limit gives as many rows as pass, up to the limit, each one of them; and a row that
-- passes and is left out is not newer than any that is given.
search_newest-Newest :
    (limit : ℕ) (es : List Entry) (e : Entry)
    → (length (search_newest limit es) ≡ min limit (length es))
      × ((not (member e (search_newest limit es)) || member e es) ≡ true)
      × ((not (member e es)
            || member e (search_newest limit es)
            || all (λ x. not_older x e) (search_newest limit es))
          ≡ true)
unfolding search_newest
search_newest-Newest limit es e = (
  length-take limit (newest_first es) ∙ ap (min limit) (length-newest_first es),
  ground (arith, any-take (same e) limit (newest_first es), any-newest_first (same e) es),
  ground (
    arith,
    take-newest limit e (newest_first es) (newest_first-sorted es),
    any-newest_first (same e) es,
  ),
)

length-log_entries :
    (test : Log → Bool) (ls : List Log) → length (log_entries test ls) ≡ length (select test ls)
unfolding log_entries
length-log_entries test [] = refl
length-log_entries test (l ∷ ls) = ground (arith, length-log_entries test ls)

-- Whether a log that passes has the id and the time of an entry.
abbrev pub stands_for : (Log → Bool) → Entry → List Log → Bool
stands_for test e ls = any (λ l. test l && e.id == l.id && e.created == l.create_date) ls

log_entries-stands_for :
    (test : Log → Bool) (e : Entry) (ls : List Log)
    → member e (log_entries test ls) ≡ stands_for test e ls
unfolding log_entries
log_entries-stands_for test e [] = refl
log_entries-stands_for test e (l ∷ ls) = ground (arith, log_entries-stands_for test e ls)

-- A forced refresh keeps the recent issues of the last day, errors and warnings of the configuration:
-- as many as there are, up to fifty, each with the id and the time of such a log; and an issue that
-- is left out is not newer than any that is kept.
pub refresh-Newest :
    (now : ℕ) (db : Logs) (c : Config)
    → (kept : List Entry) × ((refresh_dashboard_issues_if_stale now true db c).recent_sync_issue_ids
        ≡ map (λ k. k.id) kept)
      × (length kept ≡ min 50 (length (select (is_recent_issue now c) db.logs)))
      × ((e : Entry)
          → ((not (member e kept) || stands_for (is_recent_issue now c) e db.logs) ≡ true)
            × ((not (stands_for (is_recent_issue now c) e db.logs)
                  || member e kept
                  || all (λ x. not_older x e) kept)
                ≡ true))
unfolding refresh_dashboard_issues_if_stale compute_dashboard_issue_snapshots
refresh-Newest now db c =
    let test = is_recent_issue now c in
    let es = log_entries test db.logs in
    (
      search_newest 50 es,
      refl,
      (search_newest-Newest 50 es (record { id = 0; created = 0 })).0
          ∙ ap (min 50) (length-log_entries test db.logs),
      λ e.
          let (count, sound, newest) = search_newest-Newest 50 es e in
          (
            ground (arith, sound, log_entries-stands_for test e db.logs),
            ground (arith, newest, log_entries-stands_for test e db.logs),
          ),
    )
