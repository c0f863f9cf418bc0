-- ===== src/Api/Tally.antt =====
-- What a pull counts and says: the loop's counters, the status and the message of
-- `pull_and_process_orders` in models/cartona_api.py.
use Prim.Native.String.{◌∷◌ as char, [] as no_chars}
use cartona_odoo.Base.{
  ℕ, ◌+◌, String, Bool, true, false, not, ◌&&◌, ◌<>◌, Option, none, some, List, [], ◌∷◌, ◌++◌, ◌==◌,
  length, if◌then◌else◌,
}
use cartona_odoo.Py.Exn.{Result, ok, err, raise, type_error}
use cartona_odoo.Py.Number.{decimal}
use cartona_odoo.Py.Json.{Json, str, arr, obj, items, Fields, field, end}
use cartona_odoo.Order.Data.{Text}
use cartona_odoo.Order.Issue.{Status, EntryType, unexpected_error, Issue, Outcome, text}
use cartona_odoo.Log.{Detail}

-- The counters of the loop, the texts of the orders that raised, and the detail lines.
pub record Tally : Type 0 where
  pub orders_processed : ℕ
  pub orders_new : ℕ
  pub orders_updated : ℕ
  pub orders_skipped : ℕ
  pub errors : List String
  pub detail_lines : List Issue

-- What a pull returns.
pub record PullResult : Type 0 where
  pub success : Bool
  pub message : Text
  pub orders_pulled : ℕ
  pub orders_new : ℕ
  pub orders_updated : ℕ
  pub orders_skipped : ℕ
  pub errors : List String

abbrev pub no_orders : Tally
no_orders = record {
  orders_processed = 0;
  orders_new = 0;
  orders_updated = 0;
  orders_skipped = 0;
  errors = [];
  detail_lines = [];
}

abbrev pub one_if : Bool → ℕ
one_if true = 1
one_if false = 0

-- One order of the loop: its result, or what it raised.
unfoldable pub tally_order : {F : Type 0} → Result (Outcome F) → Tally → Tally
tally_order (ok r) t = record t {
  orders_processed = t.orders_processed + one_if r.success;
  orders_new = t.orders_new + one_if (r.success && r.is_new);
  orders_updated = t.orders_updated + one_if (r.success && not r.is_new && r.updated);
  orders_skipped = t.orders_skipped + one_if (not r.success);
  detail_lines = t.detail_lines ++ r.issues;
}
tally_order (err e) t = record t {
  errors = t.errors ++ (e.text ∷ []);
  detail_lines =
      t.detail_lines
      ++ (record {
        status = Status.error;
        entry_type = EntryType.system;
        message = text "%s" (e.text ∷ []);
        error_code = some unexpected_error;
        order_ids = none;
        line_ids = none;
        about = none;
      }
          ∷ []);
}

-- The status of the whole pull.
unfoldable pub pull_status : Tally → Status
pull_status t =
    if length t.errors + t.orders_skipped == 0
    then Status.success
    else if t.orders_processed == 0
    then Status.error
    else Status.warning

chars : String → List Json
chars no_chars = []
chars (char c s) = str (char c no_chars) ∷ chars s

keys : Fields → List Json
keys end = []
keys (field k v fs) = str k ∷ keys fs

-- `for order_data in orders_data`: a dict is read by its keys, a text by its characters.
unfoldable pub each_order : Json → Result (List Json)
unfolding chars keys
each_order (arr vs) = ok (items vs)
each_order (obj fs) = ok (keys fs)
each_order (str s) = ok (chars s)
each_order _ = raise type_error "object is not iterable"

-- A part of the message that stands only for a count above zero.
abbrev part : ℕ → String → String
part n template = if n == 0 then "" else template

abbrev part_args : ℕ → List String
part_args n = if n == 0 then [] else decimal n ∷ []

unfoldable pub pull_message : ℕ → Tally → Text
pull_message pulled t =
    text
      ("Pulled %s orders: %s processed (%s new, %s updated)"
        <> part t.orders_skipped ", %s skipped"
        <> part (length t.errors) ", %s errors")
      ((decimal pulled
          ∷ decimal t.orders_processed
          ∷ decimal t.orders_new
          ∷ decimal t.orders_updated
          ∷ [])
        ++ part_args t.orders_skipped
        ++ part_args (length t.errors))

-- An error or a warning.
abbrev pub is_trouble : Status → Bool
is_trouble Status.error = true
is_trouble Status.warning = true
is_trouble _ = false

-- `'\n'.join(…) or None`
unfoldable pub join_lines : List String → Option String
join_lines [] = none
join_lines (s ∷ ss) = elim (join_lines ss) [ none ↦ some s | some t ↦ some (s <> "\n" <> t) ]

abbrev pub detail : Issue → Detail
detail i = record { entry = i; request_data = none; response_data = none }
