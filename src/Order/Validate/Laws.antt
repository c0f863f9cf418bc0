-- ===== src/Order/Validate/Laws.antt =====
-- The result and the issues of `_validate_order_data` in models/cartona_order_processor.py.
use cartona_odoo.Base.{
  ℕ, String, ◌≡◌, refl, true, Option, none, some, List, [], ◌∷◌, ◌++◌, ◌+◌, arith, length,
  length-append,
}
use cartona_odoo.Py.Exn.{Result, ok, err, ◌>>=◌}
use cartona_odoo.Py.Number.{ℤ}
use cartona_odoo.Py.Json.{Json, arr, obj, nil, cons, Fields, items, get_none, Python}
use cartona_odoo.Config.Data.{Config}
use cartona_odoo.Order.Data.{PaymentMethod}
use cartona_odoo.Order.Issue.{Issue, any_error, make_issue}
use cartona_odoo.Order.Resolve.{Variant}
use cartona_odoo.Order.Item.{Item, Checked, accepted, rejected, validate_order_item}
use cartona_odoo.Order.Retailer.{customer_of, Customer}
use cartona_odoo.Order.Validate.{
  validate_lines, line_then, validate_order_data, validate_value, validate_dict, details_or_reject,
  validate_details, with_lines, payment_method_of, missing_fields, required_fields,
}

-- What a validation may return: an order with no issue, or none with an error among the issues.
abbrev pub Verdict {ℓ} : {A : Type ℓ} → Result (Option A × List Issue) → Type 0
Verdict (err e) = Unit
Verdict (ok (some v, issues)) = issues ≡ []
Verdict (ok (none, issues)) = any_error issues ≡ true

-- The lines that a validation has found, if it has.
abbrev pub Counts {ℓ} : {A : Type ℓ} → ℕ → Result (Option (List A) × List Issue) → Type 0
Counts n (err e) = Unit
Counts n (ok (some lines, issues)) = length lines ≡ n
Counts n (ok (none, issues)) = Unit

module _ (P : Python) (browse : ℤ → Option Variant) (config : Config) where
  line_then-Verdict :
      (order_data : Json) (r : Result (Checked P.Float))
      (next : Item P.Float → Result (Option (List (Item P.Float)) × List Issue))
      → ((i : Item P.Float) → Verdict (next i))
      → Verdict (line_then P browse config order_data r next)
  unfolding line_then any_error make_issue
  line_then-Verdict order_data (err e) next h = tt
  line_then-Verdict order_data (ok (rejected issue)) next h = ground arith
  line_then-Verdict order_data (ok (accepted item)) next h = h item

  pub validate_lines-Verdict :
      (order_data : Json) (details : List Json) (done : List (Item P.Float))
      → Verdict (validate_lines P browse config order_data details done)
  unfolding validate_lines
  validate_lines-Verdict order_data [] done = refl
  validate_lines-Verdict order_data (d ∷ details) done =
      line_then-Verdict order_data (validate_order_item P browse config d order_data) _
        (λ i. validate_lines-Verdict order_data details (done ++ (i ∷ [])))

  line_then-Counts :
      (n : ℕ) (order_data : Json) (r : Result (Checked P.Float))
      (next : Item P.Float → Result (Option (List (Item P.Float)) × List Issue))
      → ((i : Item P.Float) → Counts n (next i))
      → Counts n (line_then P browse config order_data r next)
  unfolding line_then
  line_then-Counts n order_data (err e) next h = tt
  line_then-Counts n order_data (ok (rejected issue)) next h = tt
  line_then-Counts n order_data (ok (accepted item)) next h = h item

  -- One line for each detail, so an order is taken whole or not at all.
  pub validate_lines-Counts :
      (n : ℕ) (order_data : Json) (details : List Json) (done : List (Item P.Float))
      → length done + length details ≡ n
      → Counts n (validate_lines P browse config order_data details done)
  unfolding validate_lines
  validate_lines-Counts n order_data [] done e = omega arith
  validate_lines-Counts n order_data (d ∷ details) done e =
      line_then-Counts n order_data (validate_order_item P browse config d order_data) _ (λ i.
        validate_lines-Counts n order_data details (done ++ (i ∷ []))
          (omega (arith, length-append {0} done (i ∷ []))))

Verdict-bind {ℓ} :
    {A : Type ℓ} {B : Type ℓ} (m : Result B) (f : B → Result (Option A × List Issue))
    → ((b : B) → Verdict (f b))
    → Verdict (m >>= f)
Verdict-bind (ok b) f h = h b
Verdict-bind (err e) f h = tt

module _ (P : Python) (browse : ℤ → Option Variant) (config : Config) where
  with_lines-Verdict :
      (fs : Fields) (c : Customer) (p : PaymentMethod)
      (r : Result (Option (List (Item P.Float)) × List Issue))
      → Verdict r
      → Verdict (r >>= λ checked. ok (with_lines P browse config fs c p checked))
  unfolding with_lines
  with_lines-Verdict fs c p (err e) h = tt
  with_lines-Verdict fs c p (ok (none, issues)) h = h
  with_lines-Verdict fs c p (ok (some v, issues)) h = h

  validate_details-Verdict :
      (fs : Fields) (details : List Json) → Verdict (validate_details P browse config fs details)
  unfolding validate_details
  validate_details-Verdict fs details = Verdict-bind (customer_of P (get_none fs "retailer")) _ λ c.
      Verdict-bind (payment_method_of P browse config fs) _ λ p.
        with_lines-Verdict fs c p (validate_lines P browse config (obj fs) details [])
          (validate_lines-Verdict P browse config (obj fs) details [])

  details_or_reject-Verdict :
      (fs : Fields) (v : Json) → Verdict (details_or_reject P browse config fs v)
  unfolding details_or_reject any_error make_issue
  details_or_reject-Verdict fs (arr (cons v vs)) = validate_details-Verdict fs (v ∷ items vs)
  details_or_reject-Verdict fs _ = refl

  validate_dict-Verdict :
      (fs : Fields) (missing : List String) → Verdict (validate_dict P browse config fs missing)
  unfolding validate_dict any_error make_issue
  validate_dict-Verdict fs [] = details_or_reject-Verdict fs (get_none fs "order_details")
  validate_dict-Verdict fs (f ∷ missing) = refl

  validate_value-Verdict : (v : Json) → Verdict (validate_value P browse config v)
  unfolding validate_value any_error make_issue
  validate_value-Verdict (obj fs) = validate_dict-Verdict fs (missing_fields fs required_fields)
  validate_value-Verdict _ = refl

  -- A validated order comes with no issue, and a refusal with an error among the issues.
  pub validate_order_data-Verdict : (v : Json) → Verdict (validate_order_data P browse config v)
  unfolding validate_order_data any_error make_issue
  validate_order_data-Verdict (arr nil) = refl
  validate_order_data-Verdict (arr (cons v vs)) = validate_value-Verdict v
  validate_order_data-Verdict v = validate_value-Verdict v
