-- ===== src/Config/Domain.antt =====
-- Search domains, as the window actions of models/cartona_config.py and models/cartona_sync_log.py carry
-- them: conditions that all have to hold. What a condition means is Odoo's.
use cartona_odoo.Base.{
  ℕ, String, Bool, true, false, not, List, [], ◌∷◌, all, any, ltb, str_eq, ◌==◌, if◌then◌else◌,
}

-- A value of a field, and of a condition.
pub data Value : Type 0 where
  number : ℕ → Value
  word : String → Value
  flag : Bool → Value
  nothing : Value

-- `('field', '=', value)`, `('field', 'in', values)` and `('field', '>=', number)`
pub data Condition : Type 0 where
  equals : String → Value → Condition
  within : String → List Value → Condition
  at_least : String → ℕ → Condition

abbrev pub same_value : Value → Value → Bool
same_value (number a) (number b) = a == b
same_value (word a) (word b) = str_eq a b
same_value (flag true) (flag b) = b
same_value (flag false) (flag b) = not b
same_value nothing nothing = true
same_value _ _ = false

abbrev pub not_below : ℕ → Value → Bool
not_below n (number a) = not (ltb a n)
not_below n _ = false

-- The fields of a record.
pub record Cell : Type 0 where
  pub field : String
  pub value : Value

abbrev pub value_of : String → List Cell → Value
value_of f [] = nothing
value_of f (c ∷ cs) = let rest = value_of f cs in if str_eq f c.field then c.value else rest

abbrev pub holds : List Cell → Condition → Bool
holds row (equals f v) = same_value (value_of f row) v
holds row (within f vs) = any (same_value (value_of f row)) vs
holds row (at_least f n) = not_below n (value_of f row)

-- `search(domain)`
abbrev pub matches : List Condition → List Cell → Bool
matches domain row = all (holds row) domain
