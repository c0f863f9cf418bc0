-- ===== src/Py/Json.antt =====
-- A value that `response.json()` decodes, and Python's truth, `str` and `float` on it.
use cartona_odoo.Base.{
  zero, suc, ◌<>◌, Bool, true, false, not, Option, none, some, List, [], ◌∷◌, String, str_eq,
  if◌then◌else◌,
}
use cartona_odoo.Py.Number.{ℤ, pos, negsuc, str_int}
use cartona_odoo.Py.Exn.{Result, ok, raise, type_error, value_error, attribute_error, other_error}

-- A number with a fraction or an exponent is kept as its literal, `real`. The keys of an object are
-- those of the decoded dict, each once.
mutual
  pub data Json : Type 0 where
    null : Json
    bool : Bool → Json
    int : ℤ → Json
    real : String → Json
    str : String → Json
    arr : Items → Json
    obj : Fields → Json

  pub data Items : Type 0 where
    nil : Items
    cons : Json → Items → Items

  pub data Fields : Type 0 where
    end : Fields
    field : String → Json → Fields → Fields

-- The parts of Python that are left open: floats, and the text of a list, a dict or a float.
pub record Python : Type 1 where
  pub Float : Type 0
  -- `float(text)`, if it does not raise
  pub of_text : String → Option Float
  -- `float(n)`, which overflows for large numbers
  pub of_int : ℤ → Option Float
  pub mul : Float → Float → Float
  -- `x == 0`, `x <= 0`, `x > 0` and `x == y`, which are all false for NaN
  pub is_zero : Float → Bool
  pub le_zero : Float → Bool
  pub gt_zero : Float → Bool
  pub eq : Float → Float → Bool
  -- `str(hash(v))[:8]`; a list or a dict has no hash
  pub hash_text : Json → Option String
  -- `str` of a float literal, a list or a dict
  pub str_other : Json → String

abbrev pub items : Items → List Json
items nil = []
items (cons v vs) = v ∷ items vs

-- `d.get(key)`, with `none` for a missing key
unfoldable pub get : Fields → String → Option Json
get end key = none
get (field k v fs) key = if str_eq k key then some v else get fs key

-- `d.get(key, default)`
unfoldable pub get_or : Fields → String → Json → Json
unfolding get
get_or fs key d = elim (get fs key) [ none ↦ d | some v ↦ v ]

-- `d.get(key)`, where a missing key reads `None`
abbrev pub get_none : Fields → String → Json
get_none fs key = get_or fs key null

-- `key in d`
unfoldable pub has : Fields → String → Bool
unfolding get
has fs key = elim (get fs key) [ none ↦ false | some _ ↦ true ]

module _ (P : Python) where
  open P use {Float, of_text, of_int, is_zero, gt_zero, str_other}

  -- the truth of a float: all but zero
  nonzero : Option Float → Bool
  nonzero none = true
  nonzero (some x) = not (is_zero x)

  -- `bool(v)`
  unfoldable pub truthy : Json → Bool
  unfolding nonzero
  truthy null = false
  truthy (bool b) = b
  truthy (int (pos zero)) = false
  truthy (int (pos (suc n))) = true
  truthy (int (negsuc n)) = true
  truthy (real s) = nonzero (of_text s)
  truthy (str s) = not (str_eq s "")
  truthy (arr nil) = false
  truthy (arr (cons v vs)) = true
  truthy (obj end) = false
  truthy (obj (field k v fs)) = true

  -- `a or b`
  unfoldable pub or_json : Json → Json → Json
  unfolding truthy
  or_json a b = if truthy a then a else b

  -- `str(v)`
  unfoldable pub str_json : Json → String
  unfolding str_int
  str_json null = "None"
  str_json (bool true) = "True"
  str_json (bool false) = "False"
  str_json (int n) = str_int n
  str_json (str s) = s
  str_json (real s) = str_other (real s)
  str_json (arr vs) = str_other (arr vs)
  str_json (obj fs) = str_other (obj fs)

  abbrev or_raise : Option Float → Result Float → Result Float
  or_raise none r = r
  or_raise (some x) r = ok x

  -- `float(v)`; an integer that is too large raises `OverflowError`
  unfoldable pub float_json : Json → Result Float
  float_json (bool true) = or_raise (of_int (pos 1)) (raise other_error "")
  float_json (bool false) = or_raise (of_int (pos 0)) (raise other_error "")
  float_json (int n) = or_raise (of_int n) (raise other_error "int too large to convert to float")
  float_json (real s) = or_raise (of_text s) (raise value_error s)
  float_json (str s) =
      or_raise (of_text s) (raise value_error ("could not convert string to float: " <> s))
  float_json _ = raise type_error "float() argument must be a string or a real number"

  -- `v > 0`
  unfoldable pub gt_zero_json : Json → Result Bool
  gt_zero_json (bool b) = ok b
  gt_zero_json (int (pos zero)) = ok false
  gt_zero_json (int (pos (suc n))) = ok true
  gt_zero_json (int (negsuc n)) = ok false
  gt_zero_json (real s) = elim (of_text s) [ none ↦ ok false | some x ↦ ok (gt_zero x) ]
  gt_zero_json _ = raise type_error "'>' not supported"

-- `v.get(…)`, which only a dict has
unfoldable pub as_dict : Json → Result Fields
as_dict (obj fs) = ok fs
as_dict _ = raise attribute_error "object has no attribute 'get'"

-- A value as the key of a dict or an element of a set: a list or a dict is unhashable.
unfoldable pub hashable : Json → Result Json
hashable (arr vs) = raise type_error "unhashable type: 'list'"
hashable (obj fs) = raise type_error "unhashable type: 'dict'"
hashable v = ok v

-- `v == text`
unfoldable pub is_text : Json → String → Bool
is_text (str s) t = str_eq s t
is_text _ t = false
