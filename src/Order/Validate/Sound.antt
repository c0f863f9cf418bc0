-- ===== src/Order/Validate/Sound.antt =====
-- The lines that `_validate_order_data` of models/cartona_order_processor.py returns.
use cartona_odoo.Base.{
  String, ◌≡◌, refl, false, Option, none, some, List, [], ◌∷◌, ◌++◌, All, All-append, Bool-cases,
  inl, inr,
}
use cartona_odoo.Py.Exn.{Result, ok, err, ◌>>=◌}
use cartona_odoo.Py.Number.{ℤ, pos}
use cartona_odoo.Py.Json.{
  Json, int, arr, obj, nil, cons, Fields, items, get_none, get_or, has, truthy, float_json, Python,
}
use cartona_odoo.Config.Data.{Config}
use cartona_odoo.Order.Data.{PaymentMethod}
use cartona_odoo.Order.Issue.{Issue}
use cartona_odoo.Order.Resolve.{Variant, Resolution, resolved, unresolved, resolve_variant}
use cartona_odoo.Order.Resolve.Laws.{IsSaleable, resolve_variant-IsSaleable}
use cartona_odoo.Order.Item.{
  Item, Checked, accepted, rejected, item_verdict, resolve_item, normalize_item, check_quantity,
  caught_float, validate_fields, validate_order_item,
}
use cartona_odoo.Order.Retailer.{Customer, customer_of}
use cartona_odoo.Order.Validate.{
  Validated, line_then, validate_lines, payment_method_of, with_lines, validate_details,
  details_or_reject, validate_dict, validate_value, validate_order_data, normalized, missing_fields,
  required_fields,
}

module _ (P : Python) (browse : ℤ → Option Variant) (config : Config) where
  -- The variant of the line can be sold, and the quantity passed the test `<= 0`.
  pub record IsSound (i : Item P.Float) : Type 0 where
    pub variant : Variant
    pub saleable : IsSaleable browse config i.internal_product_id variant
    pub quantity : P.le_zero i.quantity ≡ false

  abbrev SoundLine : Result (Checked P.Float) → Type 0
  SoundLine (err e) = Unit
  SoundLine (ok (rejected issue)) = Unit
  SoundLine (ok (accepted i)) = IsSound i

  abbrev SoundLines : Result (Option (List (Item P.Float)) × List Issue) → Type 0
  SoundLines (err e) = Unit
  SoundLines (ok (none, issues)) = Unit
  SoundLines (ok (some lines, issues)) = All IsSound lines

  -- All lines of the order, if the validation returned one.
  abbrev pub SoundOrder : Result (Option (Validated P.Float) × List Issue) → Type 0
  SoundOrder (err e) = Unit
  SoundOrder (ok (none, issues)) = Unit
  SoundOrder (ok (some v, issues)) = All IsSound v.order_lines

  item_verdict-SoundLine :
      (od : Json) (item : Fields) (n : Item P.Float) (r : Resolution)
      → resolve_variant browse n.internal_product_id config ≡ r
      → P.le_zero n.quantity ≡ false
      → SoundLine (ok (item_verdict P browse config od item n r))
  unfolding item_verdict
  item_verdict-SoundLine od item n (resolved v) e h = record {
    variant = v;
    saleable = resolve_variant-IsSaleable browse config n.internal_product_id v e;
    quantity = h;
  }
  item_verdict-SoundLine od item n (unresolved code message) e h = tt

  SoundLine-bind :
      {B : Type 0} (m : Result B) (f : B → Result (Checked P.Float))
      → ((b : B) → SoundLine (f b))
      → SoundLine (m >>= f)
  SoundLine-bind (ok b) f h = h b
  SoundLine-bind (err e) f h = tt

  check_quantity-SoundLine :
      (od : Json) (item : Fields) (q : Option P.Float)
      → SoundLine (check_quantity P browse config od item q)
  unfolding check_quantity normalize_item resolve_item
  check_quantity-SoundLine od item none = tt
  check_quantity-SoundLine od item (some q) = elim (Bool-cases (P.le_zero q)) [
    | inl small ↦ rw small tt
    | inr big ↦ rw big (
        SoundLine-bind (float_json P (get_or item "selling_price" (int (pos 0)))) _
          (λ price. item_verdict-SoundLine od item _ _ refl big))
  ]

  validate_fields-SoundLine :
      (od : Json) (item : Fields) → SoundLine (validate_fields P browse config od item)
  unfolding validate_fields
  validate_fields-SoundLine od item =
      elim (Bool-cases (truthy P (get_none item "internal_product_id"))) [
        | inl filled ↦ rw filled (elim (Bool-cases (has item "amount")) [
          | inl there ↦ rw there (
              SoundLine-bind (caught_float P browse config (get_none item "amount")) _
                (check_quantity-SoundLine od item))
          | inr absent ↦ rw absent tt
        ])
        | inr empty ↦ rw empty tt
      ]

  validate_order_item-SoundLine :
      (v od : Json) → SoundLine (validate_order_item P browse config v od)
  unfolding validate_order_item
  validate_order_item-SoundLine (obj item) od = validate_fields-SoundLine od item
  validate_order_item-SoundLine _ od = tt

  line_then-SoundLines :
      (od : Json) (r : Result (Checked P.Float))
      (next : Item P.Float → Result (Option (List (Item P.Float)) × List Issue))
      → SoundLine r
      → ((i : Item P.Float) → IsSound i → SoundLines (next i))
      → SoundLines (line_then P browse config od r next)
  unfolding line_then
  line_then-SoundLines od (err e) next s h = tt
  line_then-SoundLines od (ok (rejected issue)) next s h = tt
  line_then-SoundLines od (ok (accepted item)) next s h = h item s

  validate_lines-SoundLines :
      (od : Json) (details : List Json) (done : List (Item P.Float))
      → All IsSound done
      → SoundLines (validate_lines P browse config od details done)
  unfolding validate_lines
  validate_lines-SoundLines od [] done a = a
  validate_lines-SoundLines od (d ∷ details) done a =
      line_then-SoundLines od (validate_order_item P browse config d od) _
        (validate_order_item-SoundLine d od)
        (λ i s.
          validate_lines-SoundLines od details (done ++ (i ∷ []))
            (All-append IsSound done (i ∷ []) a (s, tt)))

  SoundOrder-bind :
      {B : Type 0} (m : Result B) (f : B → Result (Option (Validated P.Float) × List Issue))
      → ((b : B) → SoundOrder (f b))
      → SoundOrder (m >>= f)
  SoundOrder-bind (ok b) f h = h b
  SoundOrder-bind (err e) f h = tt

  with_lines-SoundOrder :
      (fs : Fields) (c : Customer) (p : PaymentMethod)
      (r : Result (Option (List (Item P.Float)) × List Issue))
      → SoundLines r
      → SoundOrder (r >>= λ checked. ok (with_lines P browse config fs c p checked))
  unfolding with_lines normalized
  with_lines-SoundOrder fs c p (err e) h = tt
  with_lines-SoundOrder fs c p (ok (none, issues)) h = tt
  with_lines-SoundOrder fs c p (ok (some v, issues)) h = h

  validate_details-SoundOrder :
      (fs : Fields) (details : List Json) → SoundOrder (validate_details P browse config fs details)
  unfolding validate_details
  validate_details-SoundOrder fs details =
      SoundOrder-bind (customer_of P (get_none fs "retailer")) _ λ c.
        SoundOrder-bind (payment_method_of P browse config fs) _ λ p.
          with_lines-SoundOrder fs c p (validate_lines P browse config (obj fs) details [])
            (validate_lines-SoundLines (obj fs) details [] tt)

  details_or_reject-SoundOrder :
      (fs : Fields) (v : Json) → SoundOrder (details_or_reject P browse config fs v)
  unfolding details_or_reject
  details_or_reject-SoundOrder fs (arr (cons v vs)) = validate_details-SoundOrder fs (v ∷ items vs)
  details_or_reject-SoundOrder fs _ = tt

  validate_value-SoundOrder : (v : Json) → SoundOrder (validate_value P browse config v)
  unfolding validate_value
  validate_value-SoundOrder (obj fs) = by_missing (missing_fields fs required_fields)
    where
      by_missing : (missing : List String) → SoundOrder (validate_dict P browse config fs missing)
      by_missing [] =
          unfold validate_dict in details_or_reject-SoundOrder fs (get_none fs "order_details")
      by_missing (f ∷ missing) = unfold validate_dict in tt
  validate_value-SoundOrder _ = tt

  -- For any payload, every line of the order that the validation returns names an existing variant,
  -- active, for sale and of no other company, in a quantity that is not below or equal to zero.
  pub validate_order_data-SoundOrder :
      (v : Json) → SoundOrder (validate_order_data P browse config v)
  unfolding validate_order_data
  validate_order_data-SoundOrder (arr nil) = tt
  validate_order_data-SoundOrder (arr (cons v vs)) = validate_value-SoundOrder v
  validate_order_data-SoundOrder v = validate_value-SoundOrder v
