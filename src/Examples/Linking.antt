-- ===== src/Examples/Linking.antt =====
-- The linking script at a server that has one other product under a variant's id.
use cartona_odoo.Base.{
  ℕ, suc, ◌≡◌, refl, true, some, List, [], ◌∷◌, length, all, ◌==◌, if◌then◌else◌,
}
use cartona_odoo.Py.Exn.{ok}
use cartona_odoo.Py.Number.{pos, int_of_text}
use cartona_odoo.Py.Json.{Json, int, str, arr, obj, nil, cons, field, end}
use cartona_odoo.Api.Request.{replied}
use cartona_odoo.Link.{Server, Mapping, Report, main}
use cartona_odoo.Link.Laws.{Balanced, has_number, main-Balanced}
use cartona_odoo.Examples.{python}

-- It counts the calls, and refuses the update that is its sixth.
abbrev server : Server ℕ
server = record {
  fetch = λ params n. (replied 200 "" (some (rows n)), suc n);
  post = λ body n. (replied (status n) "busy" (some (obj end)), suc n);
  error_text = λ r. "error";
}
  where
    product : Json
    product = obj (field "id" (int (pos 9)) (field "internal_product_id" (str "51") end))

    rows : ℕ → Json
    rows n = arr (cons product nil)

    status : ℕ → ℕ
    status n = if n == 5 then 503 else 200

abbrev mapping : List Mapping
mapping =
    record { ps_id = "12"; variant_id = pos 51; name = "Tea" }
    ∷ record { ps_id = "13"; variant_id = pos 52; name = "Salt" }
    ∷ []

numbered : all has_number mapping ≡ true
unfolding int_of_text
numbered = refl

main-Balanced_example :
    (r : Report) × (code : ℕ) × (s' : ℕ) × (main python server mapping 0 ≡ (ok (r, code), s'))
    × Balanced (length mapping) r
    × ((code == 0) ≡ all (λ l. l.good) r.results)
main-Balanced_example = main-Balanced python server mapping 0 numbered
