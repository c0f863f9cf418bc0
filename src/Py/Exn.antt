-- ===== src/Py/Exn.antt =====
-- Exceptions as values. A call that may raise and that mutates returns its state beside the
-- outcome: what was written before a raise stays written.
use cartona_odoo.Base.{◌≡◌, ap, String, Bool, true, false, Option, none, some}

-- The exception classes that the handlers of the addon tell apart; `other_error` is any other.
pub data Kind : Type 0 where
  type_error value_error key_error attribute_error user_error access_error : Kind
  timeout connection_error other_error : Kind

-- `text` is `str(err)`.
pub record Exn : Type 0 where
  pub kind : Kind
  pub text : String

pub data Result {ℓ} (A : Type ℓ) : Type ℓ where
  ok : A → Result A
  err : Exn → Result A

ok_or {ℓ} : {A : Type ℓ} → A → Result A → A
ok_or a (ok b) = b
ok_or a (err e) = a

pub ok_injective {ℓ} : {A : Type ℓ} {a b : A} → ok a ≡ ok b → a ≡ b
unfolding ok_or
ok_injective {a = a} e = ap (ok_or a) e

-- The rest of a block runs on the value, unless the first part raised.
infixl 5 ◌>>=◌
abbrev pub ◌>>=◌ {i j} : {V : Type i} {W : Type j} → Result V → (V → Result W) → Result W
(ok value) >>= rest = rest value
(err raised) >>= rest = err raised

abbrev pub raise {ℓ} : {A : Type ℓ} → Kind → String → Result A
raise k t = err (record { kind = k; text = t })

-- An action on a state, with what it left of the state.
abbrev pub Act {ℓ} : Type ℓ → Type ℓ
Act S = S → Option Exn × S

-- `a; b`
abbrev pub after {ℓ} : {S : Type ℓ} → Act S → Act S → Act S
after a b s = let (o, s') = a s in elim o [ none ↦ b s' | some e ↦ (some e, s') ]

-- `if c: a`
abbrev pub when {ℓ} : {S : Type ℓ} → Bool → Act S → Act S
when true a s = a s
when false a s = (none, s)
