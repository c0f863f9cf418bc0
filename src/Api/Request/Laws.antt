-- ===== src/Api/Request/Laws.antt =====
-- What the result of a request says of the reply.
use cartona_odoo.Base.{
  ℕ, String, ◌≡◌, refl, ◌∙◌, ap, Bool, true, false, not, ◌||◌, Option, none, some, arith, str_eq,
  eq_iff, Bool-cases, inl, inr, ◌==◌, if◌then◌else◌,
}
use cartona_odoo.Py.Json.{Json, obj, Fields, field, end, get, get_or, has, truthy, Python}
use cartona_odoo.Config.Data.{Config}
use cartona_odoo.Api.Request.{
  Method, Net, Reply, replied, timed_out, connection_failed, failed, put, successful,
  api_log_fields, accepted, answered, failure, read_reply, make_api_request, normalize_api_response,
  request_of, body_of,
}

get-put :
    (key j : String) (v : Json) (fs : Fields)
    → get (put key v fs) j ≡ (if str_eq key j then some v else get fs j)
unfolding get put
get-put key j v end = refl
get-put key j v (field k u fs) =
    ground (arith, eq_iff key j, eq_iff k key, eq_iff k j, get-put key j v fs)

-- What a caller must take from a reply: Cartona accepted the request, and did not say otherwise in
-- the body.
abbrev pub means_success : Python → Reply → Bool
means_success P (replied status text json) =
    if status == 200 || status == 201
    then elim json [ some (obj fs) ↦ not (has fs "success") || successful P fs | _ ↦ true ]
    else status == 204
means_success P _ = false

module _ (P : Python) (net : Net) where
  get-api_log_fields :
      (endpoint : String) (method : Method) (body status response : Json) (fs : Fields)
      → get (api_log_fields net endpoint method body status response fs) "success"
        ≡ get fs "success"
  unfolding api_log_fields
  get-api_log_fields endpoint method body status response fs =
      get-put "response_data" "success" _ (put "request_data" _ fs)
      ∙ get-put "request_data" "success" _ fs

  -- The outcome that a caller reads, which only the field `success` decides.
  abbrev outcome : Option Json → Bool
  outcome none = true
  outcome (some v) = truthy P v

  normalize-outcome :
      (fs : Fields) → successful P (normalize_api_response fs) ≡ outcome (get fs "success")
  unfolding normalize_api_response has get_or
  normalize-outcome fs = by_field (get fs "success") refl
    where
      by_field :
          (o : Option Json)
          → get fs "success" ≡ o
          → successful P (normalize_api_response fs) ≡ outcome o
      by_field none e = unfold normalize_api_response has get_or get truthy in ground (arith, e)
      by_field (some v) e = unfold normalize_api_response has get_or in ground (arith, e)

  accepted-outcome :
      (endpoint : String) (method : Method) (body : Json) (status : ℕ) (text : String)
      (json : Option Json)
      → successful P (normalize_api_response (accepted net endpoint method body status text json))
        ≡ elim json [ some (obj fs) ↦ not (has fs "success") || successful P fs | _ ↦ true ]
  unfolding accepted
  accepted-outcome endpoint method body status text none =
      normalize-outcome _
      ∙ ap outcome (get-api_log_fields endpoint method body _ _ _)
      ∙ unfold get truthy in refl
  accepted-outcome endpoint method body status text (some (obj fs)) =
      normalize-outcome _
      ∙ ap outcome (get-api_log_fields endpoint method body _ _ _)
      ∙ by_field (get fs "success") refl
    where
      by_field :
          (o : Option Json)
          → get fs "success" ≡ o
          → outcome o ≡ (not (has fs "success") || successful P fs)
      by_field none e = unfold has in ground (arith, e)
      by_field (some v) e = unfold has get_or in ground (arith, e)
  accepted-outcome endpoint method body status text (some _) =
      normalize-outcome _
      ∙ ap outcome (get-api_log_fields endpoint method body _ _ _)
      ∙ unfold get truthy in refl

  logged-outcome :
      (endpoint : String) (method : Method) (body status text : Json) (fs : Fields)
      → successful P
          (normalize_api_response (api_log_fields net endpoint method body status text fs))
        ≡ outcome (get fs "success")
  logged-outcome endpoint method body status text fs =
      normalize-outcome _ ∙ ap outcome (get-api_log_fields endpoint method body status text fs)

  answered-outcome :
      (endpoint : String) (method : Method) (body : Json) (status : ℕ) (text : String)
      (json : Option Json)
      → successful P (normalize_api_response (answered net endpoint method body status text json))
        ≡ means_success P (replied status text json)
  unfolding answered failure get truthy
  answered-outcome endpoint method body status text json =
      elim (Bool-cases (status == 200 || status == 201)) [
        | inl good ↦ rw good (accepted-outcome endpoint method body status text json)
        | inr other ↦ rw other (elim (Bool-cases (status == 204)) [
          | inl nothing ↦ rw nothing (logged-outcome endpoint method body _ _ _)
          | inr bad ↦ rw bad (logged-outcome endpoint method body _ _ _)
        ])
      ]

  -- Whatever the network does, the request returns a result, and it reads as a success exactly if
  -- the reply is a success: status 200 or 201 whose body does not say otherwise, or status 204.
  pub make_api_request-outcome :
      (c : Config) (endpoint : String) (method : Method) (payload : Json) (params : Option Json)
      → successful P
          (normalize_api_response (make_api_request net c endpoint method payload params))
        ≡ means_success P (net.request (request_of net c endpoint method payload params))
  unfolding make_api_request
  make_api_request-outcome c endpoint method payload params =
      by_reply (net.request (request_of net c endpoint method payload params))
    where
      body : Json
      body = body_of method payload params

      by_reply :
          (r : Reply)
          → successful P (normalize_api_response (read_reply net c endpoint method body r))
            ≡ means_success P r
      by_reply (replied status text json) =
          unfold read_reply in answered-outcome endpoint method body status text json
      by_reply timed_out =
          unfold read_reply failure get truthy in logged-outcome endpoint method body _ _ _
      by_reply (connection_failed e) =
          unfold read_reply failure get truthy in logged-outcome endpoint method body _ _ _
      by_reply (failed e) =
          unfold read_reply failure get truthy in logged-outcome endpoint method body _ _ _
