-- ===== src/Py/Number/Decimal.antt =====
-- `int(str(n))` on numbers.
use Prim.Native.Char.{code}
use text.Mathlib.TextLemmas.{nil-append, cons-append}
use mathlib.Core.List.{append_assoc, append-nil}
use cartona_odoo.Base.{
  ℕ, zero, suc, ◌+◌, ◌*◌, ◌/◌, ◌%◌, ◌<◌, ◌<>◌, ◌≡◌, refl, sym, ◌∙◌, ap, arith, Bool, true, false,
  some, List, [], ◌∷◌, ◌++◌, String, str_eq, ltb, ◌==◌, eq_iff, Bool-cases, inl, inr,
}
use cartona_odoo.Py.Number.{
  pos, digit, decimal_within, decimal, codes, is_space, is_digit, int_digits, signed, int_sign,
  strip, int_of_text,
}

codes-append : (a b : String) → codes (a <> b) ≡ codes a ++ codes b
codes-append String.[] b = ap codes (nil-append b)
codes-append (String.◌∷◌ c a) b =
    ap codes (cons-append c a b) ∙ ap (λ cs. code c ∷ cs) (codes-append a b)

codes-digit : (d : ℕ) → ltb d 10 ≡ true → codes (digit d) ≡ (48 + d) ∷ []
codes-digit zero h = refl
codes-digit (suc zero) h = refl
codes-digit (suc (suc zero)) h = refl
codes-digit (suc (suc (suc zero))) h = refl
codes-digit (suc (suc (suc (suc zero)))) h = refl
codes-digit (suc (suc (suc (suc (suc zero))))) h = refl
codes-digit (suc (suc (suc (suc (suc (suc zero)))))) h = refl
codes-digit (suc (suc (suc (suc (suc (suc (suc zero))))))) h = refl
codes-digit (suc (suc (suc (suc (suc (suc (suc (suc zero)))))))) h = refl
codes-digit (suc (suc (suc (suc (suc (suc (suc (suc (suc zero))))))))) h = refl
codes-digit (suc (suc (suc (suc (suc (suc (suc (suc (suc (suc d)))))))))) h = ground arith

last_digit : (n : ℕ) → ltb (n % 10) 10 ≡ true
last_digit n = ground arith

-- A number of one digit, or one digit more than its tenth.
decimal_within-small :
    (fuel n : ℕ) → ltb n 10 ≡ true → codes (decimal_within (suc fuel) n) ≡ (48 + n) ∷ []
unfolding decimal_within
decimal_within-small fuel n h = rw h (codes-digit n h)

decimal_within-tenth :
    (fuel n : ℕ)
    → ltb n 10 ≡ false
    → decimal_within (suc fuel) n ≡ decimal_within fuel (n / 10) <> digit (n % 10)
unfolding decimal_within
decimal_within-tenth fuel n h = rw h refl

decimal_within-large :
    (fuel n : ℕ)
    → ltb n 10 ≡ false
    → codes (decimal_within (suc fuel) n)
      ≡ codes (decimal_within fuel (n / 10)) ++ ((48 + n % 10) ∷ [])
decimal_within-large fuel n h =
    ap codes (decimal_within-tenth fuel n h)
    ∙ codes-append (decimal_within fuel (n / 10)) (digit (n % 10))
    ∙ ap (λ cs. codes (decimal_within fuel (n / 10)) ++ cs) (codes-digit (n % 10) (last_digit n))

is_digit-code : (d : ℕ) → ltb d 10 ≡ true → is_digit (48 + d) ≡ true
unfolding is_digit
is_digit-code d h = ground arith

int_digits-digit :
    (n d : ℕ) (after : Bool) (cs : List ℕ)
    → ltb d 10 ≡ true
    → int_digits n after ((48 + d) ∷ cs) ≡ int_digits (n * 10 + d) true cs
unfolding int_digits
int_digits-digit n d after cs h =
    simp (is_digit-code d h) (ap (λ k. int_digits (n * 10 + k) true cs) (omega arith))

int_digits-decimal :
    (fuel n : ℕ) (after : Bool) (cs : List ℕ)
    → n < fuel
    → int_digits 0 after (codes (decimal_within fuel n) ++ cs) ≡ int_digits n true cs
int_digits-decimal zero n after cs h = ground arith
int_digits-decimal (suc fuel) n after cs h = elim (Bool-cases (ltb n 10)) [
  | inr large ↦
      ap (λ xs. int_digits 0 after (xs ++ cs)) (decimal_within-large fuel n large)
      ∙ ap (int_digits 0 after) (append_assoc (codes (decimal_within fuel (n / 10))) _ cs)
      ∙ int_digits-decimal fuel (n / 10) after ((48 + n % 10) ∷ cs) (ground arith)
      ∙ int_digits-digit (n / 10) (n % 10) true cs (last_digit n)
      ∙ ap (λ k. int_digits k true cs) (omega arith)
  | inl small ↦
      ap (λ xs. int_digits 0 after (xs ++ cs)) (decimal_within-small fuel n small)
      ∙ int_digits-digit 0 n after cs small
      ∙ ap (λ k. int_digits k true cs) (omega arith)
]

-- The first character is a digit.
decimal_within-first :
    (fuel n : ℕ)
    → (d : ℕ) × (cs : List ℕ) × (ltb d 10 ≡ true)
      × (codes (decimal_within (suc fuel) n) ≡ (48 + d) ∷ cs)
unfolding decimal_within
decimal_within-first zero n = elim (Bool-cases (ltb n 10)) [
  | inl small ↦ (n, [], small, decimal_within-small zero n small)
  | inr large ↦ (n % 10, [], last_digit n, decimal_within-large zero n large)
]
decimal_within-first (suc fuel) n = elim (Bool-cases (ltb n 10)) [
  | inl small ↦ (n, [], small, decimal_within-small (suc fuel) n small)
  | inr large ↦
      let (d, cs, small, first) = decimal_within-first fuel (n / 10) in
      (
        d,
        cs ++ ((48 + n % 10) ∷ []),
        small,
        decimal_within-large (suc fuel) n large ∙ ap (λ xs. xs ++ ((48 + n % 10) ∷ [])) first,
      )
]

is_space-digit : (d : ℕ) → is_space (48 + d) ≡ false
unfolding is_space
is_space-digit d = ground arith

strip-digit : (d : ℕ) (cs : List ℕ) → strip ((48 + d) ∷ cs) ≡ (48 + d) ∷ cs
unfolding strip
strip-digit d cs = simp (is_space-digit d) refl

int_sign-digit :
    (d : ℕ) (cs : List ℕ)
    → int_sign ((48 + d) ∷ cs) ≡ signed pos (int_digits 0 false ((48 + d) ∷ cs))
unfolding int_sign
int_sign-digit d cs = simp (minus d) (simp (plus d) refl)
  where
    minus : (d : ℕ) → ((48 + d) == 45) ≡ false
    minus d = ground arith

    plus : (d : ℕ) → ((48 + d) == 43) ≡ false
    plus d = ground arith

int_digits-whole : (n : ℕ) → int_digits 0 false (codes (decimal_within (suc n) n)) ≡ some n
unfolding int_digits
int_digits-whole n =
    ap (int_digits 0 false) (sym (append-nil (codes (decimal_within (suc n) n))))
    ∙ int_digits-decimal (suc n) n false [] (omega arith)
    ∙ ended n
  where
    ended : (n : ℕ) → int_digits n true [] ≡ some n
    ended n = refl

-- A number's decimal text reads as that number.
pub int_of_text-decimal : (n : ℕ) → int_of_text (decimal n) ≡ some (pos n)
unfolding int_of_text decimal
int_of_text-decimal n =
    let (d, cs, small, first) = decimal_within-first n n in
    ap (λ xs. int_sign (strip xs)) first
    ∙ ap int_sign (strip-digit d cs)
    ∙ int_sign-digit d cs
    ∙ ap (λ xs. signed pos (int_digits 0 false xs)) (sym first)
    ∙ ap (signed pos) (int_digits-whole n)

-- It is not empty.
pub decimal-text : (n : ℕ) → str_eq (decimal n) "" ≡ false
unfolding decimal
decimal-text n =
    let (d, cs, small, first) = decimal_within-first n n in
    not_empty (decimal_within (suc n) n) (48 + d) cs first
  where
    absurd : {A : Type 0} (c : ℕ) (cs : List ℕ) → (c ∷ cs) ≡ [] → A
    absurd c cs h = cc

    not_empty : (s : String) (c : ℕ) (cs : List ℕ) → codes s ≡ c ∷ cs → str_eq s "" ≡ false
    not_empty s c cs h = elim (Bool-cases (str_eq s "")) [
      | inl empty ↦ absurd c cs (sym h ∙ ap codes ((eq_iff s "").0 empty))
      | inr text ↦ text
    ]
