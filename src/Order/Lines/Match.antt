-- ===== src/Order/Lines/Match.antt =====
-- The comparison of an order's lines with a payload, in models/cartona_order_processor.py.
use cartona_odoo.Base.{
  ℕ, ◌≡◌, refl, sym, subst, ap, ◌∙◌, Bool, true, false, ◌≢◌, Option, List, [], ◌∷◌, ◌++◌, map,
  arith, eq_iff, eq_refl, option_eq_refl,
}
use mathlib.Core.List.{append_assoc, append-nil}
use cartona_odoo.Py.Exn.{Result, ok, err}
use cartona_odoo.Py.Number.{ℤ, pos, str_int}
use cartona_odoo.Py.Json.{Json, Python}
use cartona_odoo.Config.Data.{Config}
use cartona_odoo.Order.Data.{Order, Line, to_char}
use cartona_odoo.Order.Issue.{Issue}
use cartona_odoo.Order.Resolve.{Variant, Resolution, resolved, unresolved, resolve_variant}
use cartona_odoo.Order.Item.{Item}
use cartona_odoo.Order.Lines.{
  CreateLine, Step, same_counts, remove_one, same_signature, payload_signature, product_text,
  line_signature, line_values, create_each, resolve_then, create_then, create_order_lines,
  lines_match,
}

-- What the code relies on: a new line keeps the values that it is created with.
abbrev pub KeepsValues : (P : Python) → CreateLine P.Float → Type 0
KeepsValues P create =
    (o : Order P.Float) (l new : Line P.Float)
    → create o l ≡ ok new
    → line_signature P new ≡ line_signature P l

module _ {ℓ} {A : Type ℓ} (eq : A → A → Bool) where
  abbrev Pointwise : List A → List A → Type 0
  Pointwise [] [] = Unit
  Pointwise [] (y ∷ ys) = ⊥
  Pointwise (x ∷ xs) [] = ⊥
  Pointwise (x ∷ xs) (y ∷ ys) = (eq x y ≡ true) × Pointwise xs ys

  same_counts-Pointwise : (xs ys : List A) → Pointwise xs ys → same_counts eq xs ys ≡ true
  unfolding same_counts remove_one
  same_counts-Pointwise [] [] h = refl
  same_counts-Pointwise [] (y ∷ ys) h = absurd h
  same_counts-Pointwise (x ∷ xs) [] h = absurd h
  same_counts-Pointwise (x ∷ xs) (y ∷ ys) (e, h) = ground (arith, same_counts-Pointwise xs ys h)

module _ (P : Python) (browse : ℤ → Option Variant) (create_line : CreateLine P.Float)
    (config : Config) where
  -- The id is the text of the variant's id, and the quantity equals itself, as all floats but NaN do.
  pub record IsCanonical (i : Item P.Float) : Type 0 where
    pub prints :
        (v : Variant)
        → resolve_variant browse i.internal_product_id config ≡ resolved v
        → str_int (pos v.id) ≡ i.internal_product_id
    pub number : P.eq i.quantity i.quantity ≡ true

  abbrev pub AllCanonical : List (Item P.Float) → Type 0
  AllCanonical [] = Unit
  AllCanonical (i ∷ is) = IsCanonical i × AllCanonical is

  abbrev Signed : List (Line P.Float) → List (Item P.Float) → Type 0
  Signed ls is =
      Pointwise (same_signature P) (map (line_signature P) ls) (map (payload_signature P) is)

  -- A finished loop has made one matching line for each item.
  record Made (before : List (Line P.Float)) (items : List (Item P.Float)) (o : Order P.Float)
      : Type 0 where
    made : List (Line P.Float)
    lines : o.order_line ≡ before ++ made
    signed : Signed made items

  abbrev Makes : List (Line P.Float) → List (Item P.Float) → Step P → Type 0
  Makes before items (true, o, issues) = Made before items o
  Makes before items (false, o, issues) = Unit

  line-same :
      KeepsValues P create_line
      → (i : Item P.Float) (v : Variant) (o : Order P.Float) (l : Line P.Float) → IsCanonical i
      → resolve_variant browse i.internal_product_id config ≡ resolved v
      → create_line o (line_values P i v) ≡ ok l
      → same_signature P (line_signature P l) (payload_signature P i) ≡ true
  unfolding same_signature payload_signature
  line-same keeps i v o l c e m =
      let kept = keeps o (line_values P i v) l m in
      rw kept (
        unfold line_signature line_values in
        rw (c.prints v e) (
          ground (
            arith,
            c.number,
            eq_refl i.internal_product_id,
            option_eq_refl (to_char P i.cartona_line_id),
          )))

  create_each-Makes :
      KeepsValues P create_line
      → (od : Json) (ids : List ℕ) (items : List (Item P.Float)) (o : Order P.Float)
        (issues : List Issue)
      → AllCanonical items
      → Makes o.order_line items (create_each P browse create_line config od ids items o issues)
  unfolding create_each
  create_each-Makes keeps od ids [] o issues c = record {
    made = [];
    lines = sym (append-nil o.order_line);
    signed = tt;
  }
  create_each-Makes keeps od ids (i ∷ items) o issues (c, cs) =
      by_resolution (resolve_variant browse i.internal_product_id config) _ λ v e.
        by_line (create_line o (line_values P i v)) _ λ l m.
          longer l _ (line-same keeps i v o l c e m) (
            create_each-Makes keeps od (ids ++ (l.id ∷ [])) items
              (record o { order_line = o.order_line ++ (l ∷ []) }) issues cs)
    where
      longer :
          (l : Line P.Float) (s : Step P)
          → same_signature P (line_signature P l) (payload_signature P i) ≡ true
          → Makes (o.order_line ++ (l ∷ [])) items s
          → Makes o.order_line (i ∷ items) s
      longer l (true, p, later) same m = record {
        made = l ∷ m.made;
        lines = m.lines ∙ append_assoc o.order_line (l ∷ []) m.made;
        signed = (same, m.signed);
      }
      longer l (false, p, later) same m = tt

      by_line :
          (r : Result (Line P.Float)) (next : Line P.Float → Step P)
          → ((l : Line P.Float) → r ≡ ok l → Makes o.order_line (i ∷ items) (next l))
          → Makes o.order_line
              (i ∷ items)
              (create_then P browse create_line config od ids o issues r next)
      by_line (err x) next h = unfold create_then in tt
      by_line (ok l) next h = unfold create_then in h l refl

      by_resolution :
          (r : Resolution) (next : Variant → Step P)
          → ((v : Variant) → r ≡ resolved v → Makes o.order_line (i ∷ items) (next v))
          → Makes o.order_line
              (i ∷ items)
              (resolve_then P browse create_line config ids i o issues r next)
      by_resolution (unresolved code message) next h = unfold resolve_then in tt
      by_resolution (resolved v) next h = unfold resolve_then in h v refl

  -- The answer of the comparison, where the creation of the lines succeeded.
  abbrev pub MatchesAfter : List (Item P.Float) → Step P → Type 0
  MatchesAfter items (true, o, issues) = lines_match P browse create_line config items o ≡ true
  MatchesAfter items (false, o, issues) = Unit

  -- An order without lines that is filled from a payload with canonical ids matches that payload
  -- when it comes again.
  pub create_order_lines-match :
      KeepsValues P create_line
      → (items : List (Item P.Float)) (od : Json) (o : Order P.Float) (issues : List Issue)
      → o.order_line ≡ []
      → AllCanonical items
      → MatchesAfter items (create_order_lines P browse create_line config items od o issues)
  unfolding create_order_lines
  create_order_lines-match keeps items od o issues empty c =
      by_step _ (create_each-Makes keeps od [] items o issues c)
    where
      by_step : (s : Step P) → Makes o.order_line items s → MatchesAfter items s
      by_step (true, p, later) m =
          unfold lines_match in
          rw (m.lines, empty) (same_counts-Pointwise (same_signature P) _ _ m.signed)
      by_step (false, p, later) m = tt

  -- The comparison, where the creation of the lines succeeded, fails.
  abbrev pub DiffersAfter : List (Item P.Float) → Step P → Type 0
  DiffersAfter items (true, o, issues) = lines_match P browse create_line config items o ≡ false
  DiffersAfter items (false, o, issues) = ⊥

  -- A payload of one line, whose variant id is another text than the decimal number of the variant that
  -- it resolves to, as "042" is: where Odoo creates the line and keeps its values, an order without
  -- lines is filled from the payload, and does not match the same payload when it comes again.
  pub noncanonical-mismatch :
      KeepsValues P create_line
      → (i : Item P.Float) (v : Variant) (l : Line P.Float) (od : Json) (o : Order P.Float)
        (issues : List Issue)
      → o.order_line ≡ []
      → resolve_variant browse i.internal_product_id config ≡ resolved v
      → str_int (pos v.id) ≢ i.internal_product_id
      → create_line o (line_values P i v) ≡ ok l
      → DiffersAfter (i ∷ []) (create_order_lines P browse create_line config (i ∷ []) od o issues)
  unfolding create_order_lines create_each
  noncanonical-mismatch keeps i v l od o issues empty found other made =
      subst (DiffersAfter (i ∷ []))
        (sym (
          ap
            (λ r. resolve_then P browse create_line config [] i o issues r λ w.
              create_then P browse create_line config od [] o issues
                (create_line o (line_values P i w)) λ k. filled k)
            found
          ∙ unfold resolve_then in
            ap (λ r. create_then P browse create_line config od [] o issues r λ k. filled k) made
            ∙ unfold create_then in refl))
        (differs (keeps o (line_values P i v) l made))
    where
      filled : Line P.Float → Step P
      filled k = (true, record o { order_line = o.order_line ++ (k ∷ []) }, issues)

      differs :
          line_signature P l ≡ line_signature P (line_values P i v)
          → lines_match P browse create_line config
              (i ∷ [])
              (record o { order_line = o.order_line ++ (l ∷ []) })
            ≡ false
      differs same =
          unfold lines_match same_counts remove_one in
          rw empty (
            rw same (
              unfold same_signature line_signature payload_signature line_values product_text in
              ground (arith, eq_iff (str_int (pos v.id)) i.internal_product_id)))
