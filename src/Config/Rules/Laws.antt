-- ===== src/Config/Rules/Laws.antt =====
-- What a stored configuration is known to be.
use Prim.Native.String.{◌∷◌ as char, [] as no_chars}
use text.Mathlib.Text.{starts_with}
use Prim.Native.String.append
use text.Mathlib.TextEquality.{starts_with_iff}
use text.Mathlib.TextLemmas.{append_assoc}
use text.Mathlib.TextPositions.{starts_with_of_prefix}
use cartona_odoo.Base.{
  ◌≤◌, String, Bool, true, false, ◌&&◌, ◌||◌, ◌<>◌, ◌≡◌, refl, sym, ◌∙◌, ap, subst, arith, str_eq,
  Bool-cases, inl, inr, eq_iff, ◌⊎◌,
}
use cartona_odoo.Py.Exn.{ok, ok_injective}
use cartona_odoo.Config.Data.{Config}
use cartona_odoo.Config.Rules.{ends_in_slash, check_api_base_url, check_batch_size}

pub check_batch_size-positive : (c : Config) → check_batch_size c ≡ ok c → 1 ≤ c.batch_size
unfolding check_batch_size
check_batch_size-positive c e = ground arith

ends_in_slash-append : (s : String) → ends_in_slash (s <> "/") ≡ true
unfolding ends_in_slash
ends_in_slash-append no_chars = refl
ends_in_slash-append (char c s) =
    ap ends_in_slash (append.cons c s "/")
    ∙ by_empty (ends_in_slash-append s) (Bool-cases (str_eq (s <> "/") ""))
  where
    by_empty :
        ends_in_slash (s <> "/") ≡ true
        → (str_eq (s <> "/") "" ≡ true) ⊎ (str_eq (s <> "/") "" ≡ false)
        → ends_in_slash (char c (s <> "/")) ≡ true
    by_empty h (inl y) =
        let wrong = sym (ap ends_in_slash ((eq_iff (s <> "/") "").0 y)) ∙ h in ground (arith, wrong)
    by_empty h (inr n) = rw n h

starts_with-append : (s t u : String) → starts_with s t ≡ true → starts_with (s <> u) t ≡ true
starts_with-append s t u h =
    let (r, e) = (starts_with_iff s t).0 h in
    starts_with_of_prefix t (s <> u) (r <> u, sym (append_assoc t r u) ∙ ap (λ v. v <> u) e)

abbrev pub has_scheme : String → Bool
has_scheme s = starts_with s "http://" || starts_with s "https://"

has_scheme-append : (s u : String) → has_scheme s ≡ true → has_scheme (s <> u) ≡ true
has_scheme-append s u h =
    ground (arith, starts_with-append s "http://" u, starts_with-append s "https://" u)

-- No URL, or one with a scheme and a slash at its end.
abbrev pub HasForm : Config → Type 0
HasForm c =
    (str_eq c.api_base_url "" || has_scheme c.api_base_url && ends_in_slash c.api_base_url) ≡ true

-- A configuration that passes the constraint on its URL has none or one with a scheme and a slash at
-- its end.
pub check_api_base_url-HasForm : (c c' : Config) → check_api_base_url c ≡ ok c' → HasForm c'
check_api_base_url-HasForm c c' e = elim (Bool-cases (str_eq c.api_base_url "")) [
  | inl none_given ↦ kept (unfold check_api_base_url in simp none_given refl) (simp none_given refl)
  | inr given ↦ elim (Bool-cases (has_scheme c.api_base_url)) [
    | inl good ↦ elim (Bool-cases (ends_in_slash c.api_base_url)) [
      | inl ends ↦
          kept (unfold check_api_base_url in simp given (simp good (simp ends refl)))
            (simp good (simp ends (ground arith)))
      | inr open_end ↦
          slashed (unfold check_api_base_url in simp given (simp good (simp open_end refl))) (
            simp (has_scheme-append c.api_base_url "/" good)
              (simp (ends_in_slash-append c.api_base_url) (ground arith)))
    ]
    | inr bad ↦ unfold check_api_base_url in ground arith
  ]
]
  where
    kept : check_api_base_url c ≡ ok c → HasForm c → HasForm c'
    kept k h = subst HasForm (ok_injective (sym k ∙ e)) h

    slashed :
        check_api_base_url c ≡ ok (record c { api_base_url = c.api_base_url <> "/" })
        → HasForm (record c { api_base_url = c.api_base_url <> "/" })
        → HasForm c'
    slashed k h = subst HasForm (ok_injective (sym k ∙ e)) h
