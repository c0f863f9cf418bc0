-- ===== src/Order/Lines/Restores.antt =====
-- The rollback of the order lines in models/cartona_order_processor.py.
use cartona_odoo.Base.{
  ℕ, ◌≡◌, refl, Bool, true, false, not, Option, List, [], ◌∷◌, ◌++◌, arith, any, all, any-append,
  select, ◌==◌,
}
use cartona_odoo.Py.Exn.{ok}
use cartona_odoo.Py.Number.{ℤ}
use cartona_odoo.Py.Json.{Json, Python}
use cartona_odoo.Config.Data.{Config}
use cartona_odoo.Order.Data.{Order, Line}
use cartona_odoo.Order.Issue.{Issue}
use cartona_odoo.Order.Resolve.{Variant}
use cartona_odoo.Order.Item.{Item}
use cartona_odoo.Order.Lines.{CreateLine, Step}

-- What the code relies on: a new line has an id that no line of the order has.
abbrev pub GivesFreshIds : {F : Type 0} → CreateLine F → Type 0
GivesFreshIds {F} create =
    (o : Order F) (l new : Line F)
    → create o l ≡ ok new
    → any (λ m. m.id == new.id) o.order_line ≡ false

module _ {F : Type 0} where
  abbrev is_old : List ℕ → Line F → Bool
  is_old ids l = not (any (λ i. i == l.id) ids)

  abbrev is_created : List ℕ → Line F → Bool
  is_created ids l = any (λ i. i == l.id) ids

  select-all :
      (ids : List ℕ) (ls : List (Line F)) → all (is_old ids) ls ≡ true → select (is_old ids) ls ≡ ls
  select-all ids [] h = refl
  select-all ids (l ∷ ls) h = ground (arith, select-all ids ls)

  all-created-snoc :
      (ids : List ℕ) (id : ℕ) (ls : List (Line F))
      → all (is_created ids) ls ≡ true
      → all (is_created (ids ++ (id ∷ []))) ls ≡ true
  all-created-snoc ids id [] h = refl
  all-created-snoc ids id (l ∷ ls) h =
      ground (arith, all-created-snoc ids id ls, any-append (λ i. i == l.id) ids (id ∷ []))

module _ (P : Python) (browse : ℤ → Option Variant) (create_line : CreateLine P.Float)
    (config : Config) where
  -- After a failure the order has the lines that it began with.
  abbrev pub Restores : List (Line P.Float) → Step P → Type 0
  Restores old (true, o, issues) = Unit
  Restores old (false, o, issues) = o.order_line ≡ old

  -- An order that is no draft is as it was.
  abbrev pub Untouched : Bool → Order P.Float → Step P → Type 0
  Untouched true o s = Unit
  Untouched false o (b, o', issues) = o' ≡ o

  -- The state of the loop: the lines so far are the old ones and those whose ids are noted.
  record IsLoop (ids : List ℕ) (old : List (Line P.Float)) (o : Order P.Float) : Type 0 where
    made : List (Line P.Float)
    lines : o.order_line ≡ old ++ made
    olds : all (is_old ids) old ≡ true
    news : all (is_created ids) made ≡ true
