-- ===== src/Order/Issue/Reports.antt =====
-- What it is that a call of models/cartona_order_processor.py reports itself.
use cartona_odoo.Base.{Bool, true, false, ◌≡◌, List, [], ◌∷◌, ◌++◌, ◌||◌, arith, any-append}
use cartona_odoo.Order.Issue.{Issue, Status, any_error, is_error_status}

abbrev pub Reports : Bool → List Issue → List Issue → Type 0
Reports true before later = later ≡ before
Reports false before later = any_error later ≡ true

pub any_error-snoc :
    (issues : List Issue) (i : Issue)
    → i.status ≡ Status.error
    → any_error (issues ++ (i ∷ [])) ≡ true
unfolding any_error
any_error-snoc issues i e =
    ground (arith, any-append (λ (j : Issue). is_error_status j.status) issues (i ∷ []))

-- An issue that is no error leaves the answer as it was.
pub any_error-snoc_other :
    (issues : List Issue) (i : Issue)
    → is_error_status i.status ≡ false
    → any_error (issues ++ (i ∷ [])) ≡ any_error issues
unfolding any_error
any_error-snoc_other issues i e =
    ground (arith, any-append (λ (j : Issue). is_error_status j.status) issues (i ∷ []))

pub any_error-append :
    (issues more : List Issue) → any_error (issues ++ more) ≡ (any_error issues || any_error more)
unfolding any_error
any_error-append issues more = any-append (λ (j : Issue). is_error_status j.status) issues more
