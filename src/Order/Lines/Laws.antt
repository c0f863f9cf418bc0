-- ===== src/Order/Lines/Laws.antt =====
-- The issues of the creation of lines and of the check of a known order, in
-- models/cartona_order_processor.py.
use cartona_odoo.Base.{ℕ, refl, Option, List, [], ◌∷◌, ◌++◌, is_empty, Bool-cases, inl, inr}
use cartona_odoo.Py.Exn.{Result, ok, err}
use cartona_odoo.Py.Number.{ℤ}
use cartona_odoo.Py.Json.{Json, Python}
use cartona_odoo.Config.Data.{Config}
use cartona_odoo.Order.Data.{Order, Line, is_draft}
use cartona_odoo.Order.Issue.{Issue, make_issue}
use cartona_odoo.Order.Issue.Reports.{Reports, any_error-snoc}
use cartona_odoo.Order.Resolve.{Variant, Resolution, resolved, unresolved, resolve_variant}
use cartona_odoo.Order.Item.{Item}
use cartona_odoo.Order.Lines.{
  CreateLine, Step, line_values, create_each, resolve_then, create_then, create_order_lines,
  unresolved_issue, raised_issue, lines_issue, lines_match, ensure_order_lines,
}

module _ (P : Python) (browse : ℤ → Option Variant) (create_line : CreateLine P.Float)
    (config : Config) where
  abbrev pub ReportsStep : List Issue → Step P → Type 0
  ReportsStep before (done, o, later) = Reports done before later

  create_each-Reports :
      (od : Json) (ids : List ℕ) (items : List (Item P.Float)) (o : Order P.Float)
      (issues : List Issue)
      → ReportsStep issues (create_each P browse create_line config od ids items o issues)
  unfolding create_each resolve_then create_then unresolved_issue raised_issue make_issue
  create_each-Reports od ids [] o issues = refl
  create_each-Reports od ids (i ∷ items) o issues =
      by_resolution (resolve_variant browse i.internal_product_id config) _ (λ v.
        by_line (create_line o (line_values P i v)) _ (λ l.
          create_each-Reports od (ids ++ (l.id ∷ [])) items
            (record o { order_line = o.order_line ++ (l ∷ []) }) issues))
    where
      by_line :
          (r : Result (Line P.Float)) (next : Line P.Float → Step P)
          → ((l : Line P.Float) → ReportsStep issues (next l))
          → ReportsStep issues (create_then P browse create_line config od ids o issues r next)
      by_line (err e) next h = any_error-snoc issues _ refl
      by_line (ok l) next h = h l

      by_resolution :
          (r : Resolution) (next : Variant → Step P)
          → ((v : Variant) → ReportsStep issues (next v))
          → ReportsStep issues (resolve_then P browse create_line config ids i o issues r next)
      by_resolution (unresolved code message) next h = any_error-snoc issues _ refl
      by_resolution (resolved v) next h = h v

  -- A creation of lines succeeds in silence, or fails with an error among the issues.
  pub create_order_lines-Reports :
      (items : List (Item P.Float)) (od : Json) (o : Order P.Float) (issues : List Issue)
      → ReportsStep issues (create_order_lines P browse create_line config items od o issues)
  unfolding create_order_lines
  create_order_lines-Reports items od o issues = create_each-Reports od [] items o issues

  -- So does the comparison with an order that is there.
  pub ensure_order_lines-Reports :
      (items : List (Item P.Float)) (od : Json) (o : Order P.Float) (issues : List Issue)
      → ReportsStep issues (ensure_order_lines P browse create_line config items od o issues)
  unfolding ensure_order_lines lines_issue make_issue
  ensure_order_lines-Reports items od o issues =
      elim (Bool-cases (lines_match P browse create_line config items o)) [
        | inl same ↦ rw same refl
        | inr differ ↦ rw differ (elim (Bool-cases (is_empty o.order_line)) [
          | inl empty ↦ rw empty (elim (Bool-cases (is_draft o.state)) [
            | inl d ↦ rw d (create_order_lines-Reports items od o issues)
            | inr n ↦ rw n (any_error-snoc issues _ refl)
          ])
          | inr full ↦ rw full (any_error-snoc issues _ refl)
        ])
      ]
