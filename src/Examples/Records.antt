-- ===== src/Examples/Records.antt =====
-- The theorems on customers, logs and configurations, at one of each.
use Prim.Native.Nat.{min}
use cartona_odoo.Base.{
  ◌≡◌, refl, subst, true, not, ◌||◌, none, some, List, [], ◌∷◌, length, select, map, all,
}
use cartona_odoo.Config.Dashboard.{
  Entry, not_older, is_recent_issue, refresh_dashboard_issues_if_stale,
}
use cartona_odoo.Config.Dashboard.Laws.{member, stands_for, refresh-Newest}
use cartona_odoo.Py.Exn.{ok, ok_injective}
use cartona_odoo.Py.Json.{str, Fields, field, end}
use cartona_odoo.Config.Rules.{check_api_base_url, ends_in_slash}
use cartona_odoo.Config.Rules.Laws.{HasForm, check_api_base_url-HasForm}
use cartona_odoo.Config.Connection.{test_connection}
use cartona_odoo.Config.Connection.Laws.{Tells, test_connection-Tells}
use cartona_odoo.Order.Issue.{Status, text}
use cartona_odoo.Partner.{
  Partner, new_partner, external_of, search_partner, find_or_create_cartona_customer,
}
use cartona_odoo.Partner.Laws.{KeepsKeys, find_or_create_cartona_customer-again}
use cartona_odoo.Log.{LogVals, Operation, ActionType, Logs, log_operation}
use cartona_odoo.Log.Laws.{IsValid, Adds, log_operation-IsValid}
use cartona_odoo.Examples.{net, python, config, directory, caller, logs}

abbrev vals : LogVals
vals = record {
  cartona_config_id = 1;
  operation_type = Operation.order_pull;
  status = Status.info;
  message = text "No orders found in date range" [];
  about = none;
  error_details = none;
  request_data = none;
  response_data = none;
  records_processed = 0;
  records_success = 0;
  records_error = 0;
  action_type = none;
}

log_operation-IsValid_example :
    (later : Logs) × (log_operation 100 caller vals [] logs ≡ ok later)
    × IsValid later
    × Adds 100 caller vals [] logs later
log_operation-IsValid_example = log_operation-IsValid 100 caller vals [] logs (refl, refl)

directory-keeps : KeepsKeys directory
directory-keeps ps q p e =
    subst
      (λ r.
        (r.company_id ≡ q.company_id)
        × (r.cartona_config_id ≡ q.cartona_config_id)
        × (r.cartona_id ≡ q.cartona_id))
      (ok_injective e) (refl, refl, refl)

abbrev retailer : Fields
retailer = field "retailer_code" (str "r9") end

abbrev found : Partner
found =
    record (new_partner python directory 100 retailer config
      (external_of python directory 100 "100" retailer)) { id = 7 }

none-matches :
    search_partner python directory 100 retailer config
      (external_of python directory 100 "100" retailer)
      []
    ≡ none
unfolding search_partner
none-matches = refl

find_or_create_cartona_customer-again_example :
    (find_or_create_cartona_customer python directory 100 "100" retailer config []
      ≡ (ok (some 7), found ∷ []))
    × ((find_or_create_cartona_customer python directory 100 "100" retailer config (found ∷ [])).0
        ≡ ok (some 7))
find_or_create_cartona_customer-again_example =
    find_or_create_cartona_customer-again python directory 100 "100" "retailer_code" (str "r9") end
      config [] found directory-keeps none-matches refl

config-checked : check_api_base_url config ≡ ok config
unfolding check_api_base_url ends_in_slash
config-checked = refl

check_api_base_url-HasForm_example : HasForm config
check_api_base_url-HasForm_example = check_api_base_url-HasForm config config config-checked

test_connection-Tells_example : Tells logs (test_connection net 100 caller (config, logs))
test_connection-Tells_example = test_connection-Tells net 100 caller config logs refl

abbrev failed_pull : Logs
failed_pull = record {
  logs =
      record {
        id = 1;
        vals = record vals { status = Status.error };
        action_type = ActionType.automated;
        user_id = 2;
        create_date = 50;
      }
      ∷ [];
  lines = [];
  next_id = 2;
}

refresh-Newest_example :
    (kept : List Entry) × ((refresh_dashboard_issues_if_stale 100 true failed_pull
        config).recent_sync_issue_ids
      ≡ map (λ k. k.id) kept)
    × (length kept ≡ min 50 (length (select (is_recent_issue 100 config) failed_pull.logs)))
    × ((e : Entry)
        → ((not (member e kept) || stands_for (is_recent_issue 100 config) e failed_pull.logs)
            ≡ true)
          × ((not (stands_for (is_recent_issue 100 config) e failed_pull.logs)
                || member e kept
                || all (λ x. not_older x e) kept)
              ≡ true))
refresh-Newest_example = refresh-Newest 100 failed_pull config
