-- ===== src/Link.antt =====
-- dev/link_cartona_products.py: a script that links Cartona's products to Odoo's variants, one after
-- the other, and verifies each.
pub mod Laws
use Prim.Native.String.{◌∷◌ as char, [] as no_chars}
use cartona_odoo.Base.{
  ℕ, zero, suc, ◌+◌, String, Bool, true, false, not, ◌&&◌, ◌<>◌, Option, none, some, List, [], ◌∷◌,
  ◌++◌, ltb, leb, ◌==◌, if◌then◌else◌,
}
use cartona_odoo.Py.Exn.{
  Exn, Result, ok, err, raise, type_error, value_error, key_error, attribute_error, other_error,
}
use cartona_odoo.Py.Number.{ℤ, pos, negsuc, decimal, str_int, int_of_text}
use cartona_odoo.Py.Json.{
  Json, null, bool, int, real, str, arr, obj, Items, nil, cons, Fields, field, end, Python, get,
  get_none, truthy, str_json, is_text,
}
use cartona_odoo.Api.Request.{Reply, replied, timed_out, connection_failed, failed}
use cartona_odoo.Api.Tally.{each_order}

-- The server, which has a state; `error_text` is the text of what `requests` raises for a reply.
pub record Server (S : Type 0) : Type 0 where
  pub fetch : Fields → S → Reply × S
  pub post : Json → S → Reply × S
  pub error_text : Reply → String

-- A call that may raise, and the state that it leaves.
abbrev pub Call : Type 0 → Type 0 → Type 0
Call S A = S → Result A × S

unfoldable pub then_call : {S A B : Type 0} → Call S A → (A → Call S B) → Call S B
then_call m next s = let (r, s') = m s in elim r [ err e ↦ (err e, s') | ok a ↦ next a s' ]

-- A row of the mapping file, and of the results.
pub record Mapping : Type 0 where
  pub ps_id : String
  pub variant_id : ℤ
  pub name : String

pub record Linked : Type 0 where
  pub ps_id : ℤ
  pub variant_id : ℤ
  pub good : Bool
  pub actual : Option Json
  pub error : Option String

pub record Report : Type 0 where
  pub linked : ℕ
  pub fail : ℕ
  pub results : List Linked

-- `text[:n]`
take_chars : ℕ → String → String
take_chars zero s = no_chars
take_chars (suc n) no_chars = no_chars
take_chars (suc n) (char c s) = char c (take_chars n s)

-- `a == b` on a decoded value and a number.
abbrev same_int : ℤ → ℤ → Bool
same_int (pos a) (pos b) = a == b
same_int (negsuc a) (negsuc b) = a == b
same_int _ _ = false

abbrev one_or_zero : Bool → ℤ
one_or_zero true = pos 1
one_or_zero false = pos 0

-- `owner['id']`
id_of : Json → Result Json
id_of (obj fs) = elim (get fs "id") [ none ↦ raise key_error "'id'" | some v ↦ ok v ]
id_of _ = raise type_error "indices must be integers or slices, not str"

-- `rows[0]`, where `rows` is not empty.
first_of : Json → Result Json
first_of (arr (cons v vs)) = ok v
first_of (str (char c s)) = ok (str (char c no_chars))
first_of (obj fs) = raise key_error "0"
first_of _ = raise type_error "object is not subscriptable"

-- `row.get('internal_product_id')`
internal_id_of : Json → Result Json
internal_id_of (obj fs) = ok (get_none fs "internal_product_id")
internal_id_of _ = raise attribute_error "object has no attribute 'get'"

-- `int(row['ps_id'])`
number_of : Option ℤ → Result ℤ
number_of none = raise value_error "invalid literal for int() with base 10"
number_of (some n) = ok n

decoded : {S : Type 0} → Server S → Reply → Result Json
decoded server (replied status text (some v)) = ok v
decoded server r = raise other_error (server.error_text r)

-- `raise_for_status` and `json`
fetched : {S : Type 0} → Server S → Reply → Result Json
unfolding decoded
fetched server (replied status text body) =
    if leb 400 status && ltb status 600
    then raise other_error (server.error_text (replied status text body))
    else decoded server (replied status text body)
fetched server r = raise other_error (server.error_text r)

updated : {S : Type 0} → Server S → Reply → Result Json
unfolding decoded take_chars
updated server (replied status text body) =
    if leb 400 status
    then raise other_error
        ("bulk-update failed (" <> decimal status <> "): " <> take_chars 500 text)
    else decoded server (replied status text body)
updated server r = raise other_error (server.error_text r)

-- What the loop does with the outcome of a row.
unfoldable pub add_outcome : ℤ → ℤ → Result (Bool × Json) → Report → Report
add_outcome ps_id variant (ok (good, actual)) r = record {
  linked = if good then suc r.linked else r.linked;
  fail = if good then r.fail else suc r.fail;
  results =
      r.results
      ++ (record {
        ps_id = ps_id;
        variant_id = variant;
        good = good;
        actual = some actual;
        error = none;
      }
          ∷ []);
}
add_outcome ps_id variant (err e) r = record r {
  fail = suc r.fail;
  results =
      r.results
      ++ (record {
        ps_id = ps_id;
        variant_id = variant;
        good = false;
        actual = none;
        error = some e.text;
      }
          ∷ []);
}

module _ (P : Python) {S : Type 0} (server : Server S) where
  unfoldable pub api_get : Fields → Call S Json
  unfolding fetched
  api_get params s = let (r, s') = server.fetch params s in (fetched server r, s')

  unfoldable pub api_bulk_update : Json → Call S Json
  unfolding updated
  api_bulk_update payload s = let (r, s') = server.post payload s in (updated server r, s')

  abbrev returning : {A : Type 0} → Result A → Call S A
  returning r s = (r, s)

  -- `owner_id == target_ps_id`
  is_target : Json → ℤ → Bool
  is_target (int n) target = same_int n target
  is_target (bool b) target = same_int (one_or_zero b) target
  is_target (real s) target = equal_floats (P.of_text s) (P.of_int target)
    where
      equal_floats : Option P.Float → Option P.Float → Bool
      equal_floats none y = false
      equal_floats (some x) none = false
      equal_floats (some x) (some y) = P.eq x y
  is_target _ target = false

  update_one : Json → Json → Call S Json
  unfolding api_bulk_update
  update_one ps_id internal_id = api_bulk_update (
      arr (
        cons (obj (field "supplier_product_id" ps_id (field "internal_product_id" internal_id end)))
          nil))

  -- Every other owner of the variant's id gets another one.
  move_each : ℤ → List Json → Call S Unit
  unfolding id_of is_target update_one
  move_each target [] = returning (ok tt)
  move_each target (owner ∷ owners) =
      let rest = move_each target owners in
      then_call (returning (id_of owner)) λ owner_id.
        if is_target owner_id target
        then rest
        else then_call (update_one owner_id (str ("conflict-" <> str_json P owner_id))) (λ _. rest)

  unfoldable pub move_conflicts : ℤ → ℤ → Call S Unit
  unfolding move_each api_get
  move_conflicts variant target =
      then_call (api_get (field "internal_product_id" (str (str_int variant)) end))
        λ owners. then_call (returning (each_order owners)) (move_each target)

  unfoldable pub assign : ℤ → ℤ → Call S Json
  unfolding update_one
  assign target variant = update_one (int target) (str (str_int variant))

  verify_rows : ℤ → Json → Call S (Bool × Json)
  unfolding first_of internal_id_of
  verify_rows variant rows =
      if truthy P rows
      then then_call (returning (first_of rows)) (λ row.
        then_call (returning (internal_id_of row))
          (λ actual. returning (ok (is_text actual (str_int variant), actual))))
      else returning (ok (false, str "not found"))

  unfoldable pub verify : ℤ → ℤ → Call S (Bool × Json)
  unfolding verify_rows api_get
  verify target variant =
      then_call (api_get (field "supplier_product_id" (int target) end)) (verify_rows variant)

  unfoldable pub link_product : ℤ → ℤ → Call S (Bool × Json)
  unfolding move_conflicts assign verify
  link_product ps_id variant =
      then_call (move_conflicts variant ps_id)
        λ _. then_call (assign ps_id variant) λ _. verify ps_id variant

  unfoldable pub link_each : List Mapping → Report → Call S Report
  unfolding link_product number_of
  link_each [] r = returning (ok r)
  link_each (m ∷ ms) r = then_call (returning (number_of (int_of_text m.ps_id))) λ ps_id. λ s.
      let (outcome, s') = link_product ps_id m.variant_id s in
      link_each ms (add_outcome ps_id m.variant_id outcome r) s'

  -- The report that is written, and the exit code.
  unfoldable pub main : List Mapping → Call S (Report × ℕ)
  main mapping =
      then_call (link_each mapping (record { linked = 0; fail = 0; results = [] }))
        λ r. returning (ok (r, if r.fail == 0 then 0 else 1))
