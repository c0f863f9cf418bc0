-- ===== src/Config/Jobs.antt =====
-- The queued jobs of a configuration, as its dashboard counts and lists them: models/cartona_config.py.
use cartona_odoo.Base.{
  ℕ, String, Bool, true, not, ◌&&◌, ◌||◌, Option, none, some, List, all, any, select, str_eq, ◌==◌,
  is_empty, [], ◌∷◌,
}
use cartona_odoo.Config.Data.{Config}

-- A queued job: its id, its state, its channel, its name, and the companies of its records; a record
-- that has no such field, or an empty one, has none.
pub record Job : Type 0 where
  pub id : ℕ
  pub state : String
  pub channel : String
  pub name : String
  pub companies : List (Option ℕ)

-- `_filter_cartona_jobs_for_company`
abbrev of_company : Config → Option ℕ → Bool
of_company c none = true
of_company c (some k) = k == c.company_id

unfoldable pub filter_cartona_jobs_for_company : Config → List Job → List Job
filter_cartona_jobs_for_company c jobs =
    select (λ j. not (is_empty j.companies) && all (of_company c) j.companies) jobs

abbrev pending_states : List String
pending_states = "pending" ∷ "enqueued" ∷ "started" ∷ "wait_dependencies" ∷ []

-- `_cartona_pending_jobs_domain`; `ilike` tells whether the first text holds the second, in upper or
-- lower case.
unfoldable pub is_pending_job : (String → String → Bool) → Job → Bool
is_pending_job ilike j =
    any (str_eq j.state) pending_states && (ilike j.channel "cartona" || ilike j.name "Cartona")

unfoldable pub pending_jobs : (String → String → Bool) → Config → List Job → List Job
pending_jobs ilike c jobs = filter_cartona_jobs_for_company c (select (is_pending_job ilike) jobs)
