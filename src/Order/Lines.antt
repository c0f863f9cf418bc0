-- ===== src/Order/Lines.antt =====
-- The order's lines in models/cartona_order_processor.py: `_payload_line_signatures`,
-- `_order_line_signatures`, `_ensure_order_lines`, `_create_order_lines` and the rollback.
pub mod Restores
pub mod Laws
pub mod Match
use cartona_odoo.Base.{
  ℕ, ◌+◌, String, Bool, true, false, not, ◌&&◌, ◌||◌, Option, none, some, List, [], ◌∷◌, ◌++◌, map,
  length, any, select, is_empty, str_eq, option_eq, ◌==◌, if◌then◌else◌,
}
use cartona_odoo.Py.Exn.{Exn, Result, ok, err}
use cartona_odoo.Py.Number.{ℤ, pos, str_int}
use cartona_odoo.Py.Json.{Json, str, Fields, Python, or_json, str_json}
use cartona_odoo.Config.Data.{Config}
use cartona_odoo.Order.Data.{Order, Line, Text, OrderState, is_draft, to_char}
use cartona_odoo.Order.Issue.{
  Status, EntryType, ErrorCode, no_valid_order_lines, unexpected_error, Issue, RecordRef,
  line_identifiers, make_issue, text,
}
use cartona_odoo.Order.Resolve.{Variant, Resolution, resolved, unresolved, resolve_variant}
use cartona_odoo.Order.Item.{Item}

-- The key of a `Counter`: line id, product, quantity.
pub record Signature (F : Type 0) : Type 0 where
  pub line_id : Option String
  pub product : String
  pub quantity : F

module _ {ℓ} {A : Type ℓ} (eq : A → A → Bool) where
  cons_some : A → Option (List A) → Option (List A)
  cons_some y none = none
  cons_some y (some l) = some (y ∷ l)

  -- One occurrence fewer, if there is one.
  remove_one : A → List A → Option (List A)
  unfolding cons_some
  remove_one x [] = none
  remove_one x (y ∷ ys) =
      let rest = cons_some y (remove_one x ys) in if eq x y then some ys else rest

  -- `Counter(xs) == Counter(ys)`
  unfoldable pub same_counts : List A → List A → Bool
  unfolding remove_one
  same_counts [] ys = is_empty ys
  same_counts (x ∷ xs) ys = elim (remove_one x ys) [
    | none ↦ false
    | some rest ↦ same_counts xs rest
  ]

-- What Odoo does for a new line: it gives it an id, or raises.
abbrev pub CreateLine : Type 0 → Type 0
CreateLine F = Order F → Line F → Result (Line F)

-- `str(line.product_id.id)`
unfoldable pub product_text : Option ℕ → String
product_text none = "False"
product_text (some n) = str_int (pos n)

module _ (P : Python) where
  open P use {Float}

  unfoldable pub same_signature : Signature Float → Signature Float → Bool
  same_signature a b =
      option_eq a.line_id b.line_id && str_eq a.product b.product && P.eq a.quantity b.quantity

  unfoldable pub payload_signature : Item Float → Signature Float
  payload_signature i = record {
    line_id = to_char P i.cartona_line_id;
    product = i.internal_product_id;
    quantity = i.quantity;
  }

  unfoldable pub line_signature : Line Float → Signature Float
  unfolding product_text
  line_signature l = record {
    line_id = l.cartona_line_id;
    product = product_text l.product_id;
    quantity = l.product_uom_qty;
  }

  -- `order.cartona_order_number or order.cartona_id`
  abbrev pub shown : Order Float → String
  shown o = elim o.cartona_order_number [
    | some n ↦ n
    | none ↦ elim o.cartona_id [ some c ↦ c | none ↦ "False" ]
  ]

  abbrev pub ref_of : Order Float → RecordRef
  ref_of o = record { model = "sale.order"; id = o.id; name = o.name }

  abbrev char_json : Option String → Json
  char_json none = Json.bool false
  char_json (some s) = str s

  -- `{'hashed_id': order.cartona_id, 'receipt_id': order.cartona_order_number}`
  abbrev pub payload_of : Order Float → Json
  payload_of o = Json.obj (
      Fields.field "hashed_id" (char_json o.cartona_id)
        (Fields.field "receipt_id" (char_json o.cartona_order_number) Fields.end))

  -- The values of a new line.
  unfoldable pub line_values : Item Float → Variant → Line Float
  line_values i v = record {
    id = 0;
    product_id = some v.id;
    name = v.name;
    product_uom_qty = i.quantity;
    price_unit = i.unit_price;
    cartona_line_id = to_char P i.cartona_line_id;
    cartona_line_notes = to_char P i.comment;
  }

  -- The order, the issues and the answer of a call that changes the first two.
  abbrev pub Step : Type 0
  Step = Bool × Order Float × List Issue

  -- `browse(line_ids).unlink()`. Both callers have a draft order at hand, whose lines Odoo deletes; of
  -- a confirmed one it would refuse to.
  unfoldable pub rollback_created_order_lines : List ℕ → Order Float → Order Float
  rollback_created_order_lines ids o = record o {
    order_line = select (λ l. not (any (λ i. i == l.id) ids)) o.order_line;
  }

  module _ (browse : ℤ → Option Variant) (create_line : CreateLine Float) (config : Config) where
    unresolved_issue : Order Float → Item Float → ErrorCode → Text → Issue
    unresolved_issue o i code message =
        make_issue P Status.error EntryType.order_line
          (text "Order %(order)s failed on order detail #%(line)s: %(detail)s" (
            shown o
            ∷ str_json P (or_json P i.cartona_line_id (str "?"))
            ∷ message.template
            ∷ message.args))
          (some (payload_of o))
          (some (line_identifiers P Json.null i.cartona_line_id (str i.internal_product_id)))
          (some code) none

    raised_issue : Order Float → Json → Exn → Issue
    raised_issue o order_data e =
        make_issue P Status.error EntryType.order
          (text "Order %(order)s failed while creating lines: %s" (shown o ∷ e.text ∷ []))
          (some order_data) none (some unexpected_error) (some (ref_of o))

    -- A line whose variant does not resolve ends the loop: the created lines are taken back.
    resolve_then :
        List ℕ → Item Float → Order Float → List Issue → Resolution → (Variant → Step) → Step
    unfolding rollback_created_order_lines unresolved_issue
    resolve_then ids i o issues (unresolved code message) next = (
      false,
      rollback_created_order_lines ids o,
      issues ++ (unresolved_issue o i code message ∷ []),
    )
    resolve_then ids i o issues (resolved v) next = next v

    -- So does an exception of `create`.
    create_then :
        Json → List ℕ → Order Float → List Issue → Result (Line Float) → (Line Float → Step) → Step
    unfolding rollback_created_order_lines raised_issue
    create_then order_data ids o issues (err e) next =
        (false, rollback_created_order_lines ids o, issues ++ (raised_issue o order_data e ∷ []))
    create_then order_data ids o issues (ok l) next = next l

    -- The loop, with the ids of the lines created so far.
    create_each : Json → List ℕ → List (Item Float) → Order Float → List Issue → Step
    unfolding resolve_then create_then
    create_each order_data ids [] o issues = (true, o, issues)
    create_each order_data ids (i ∷ rest) o issues =
        resolve_then ids i o issues (resolve_variant browse i.internal_product_id config) λ v.
          create_then order_data ids o issues (create_line o (line_values i v)) λ l.
            create_each order_data (ids ++ (l.id ∷ [])) rest
              (record o { order_line = o.order_line ++ (l ∷ []) }) issues

    -- The count of created lines is that of the loop's rounds, so the test after the loop passes.
    unfoldable pub create_order_lines : List (Item Float) → Json → Order Float → List Issue → Step
    unfolding create_each
    create_order_lines lines order_data o issues = create_each order_data [] lines o issues

    lines_issue : Order Float → Json → String → Issue
    lines_issue o order_data template =
        make_issue P Status.error EntryType.order (text template (shown o ∷ [])) (some order_data)
          none (some no_valid_order_lines) (some (ref_of o))

    unfoldable pub lines_match : List (Item Float) → Order Float → Bool
    lines_match lines o =
        same_counts same_signature (map line_signature o.order_line) (map payload_signature lines)

    unfoldable pub ensure_order_lines : List (Item Float) → Json → Order Float → List Issue → Step
    unfolding lines_issue
    ensure_order_lines lines order_data o issues =
        if lines_match lines o
        then (true, o, issues)
        else if not (is_empty o.order_line)
        then (
          false,
          o,
          issues
              ++ (lines_issue o order_data
                    "Order %(order)s rejected: SO lines do not match Cartona order details"
                  ∷ []),
        )
        else if not (is_draft o.state)
        then (
          false,
          o,
          issues
              ++ (lines_issue o order_data
                    "Order %(order)s has no lines and is not draft — manual fix required"
                  ∷ []),
        )
        else create_order_lines lines order_data o issues
