-- ===== src/Order/Issue.antt =====
-- The issues and the result that an import reports: `_order_identifiers`, `_line_identifiers`,
-- `_make_issue` and `_make_result` of models/cartona_order_processor.py, and the log lines'
-- selections in models/cartona_sync_log_line.py.
pub mod Reports
use cartona_odoo.Base.{ℕ, String, Bool, true, false, Option, none, some, List, any}
use cartona_odoo.Py.Json.{
  Json, null, bool, str, arr, obj, cons, nil, Fields, Python, get_none, or_json, str_json,
}
use cartona_odoo.Order.Data.{Text, Order}

pub data Status : Type 0 where
  success error warning info : Status

pub data EntryType : Type 0 where
  order order_line product system : EntryType

pub data ErrorCode : Type 0 where
  missing_internal_product_id invalid_internal_product_id variant_not_found : ErrorCode
  variant_not_available missing_order_fields invalid_order_details : ErrorCode
  no_valid_order_lines customer_error state_transition_error unexpected_error other : ErrorCode

-- `cartona_order_id` and `cartona_order_number`
pub record OrderIds : Type 0 where
  pub order_id : Json
  pub order_number : Json

-- `cartona_line_id` and `internal_product_id`
pub record LineIds : Type 0 where
  pub line_id : Json
  pub internal_product_id : Json

-- `record_model`, `record_id` and `record_name`
pub record RecordRef : Type 0 where
  pub model : String
  pub id : ℕ
  pub name : String

pub record Issue : Type 0 where
  pub status : Status
  pub entry_type : EntryType
  pub message : Text
  pub error_code : Option ErrorCode
  pub order_ids : Option OrderIds
  pub line_ids : Option LineIds
  pub about : Option RecordRef

pub record Outcome (F : Type 0) : Type 0 where
  pub success : Bool
  pub is_new : Bool
  pub updated : Bool
  pub order : Option (Order F)
  pub issues : List Issue
  pub order_ids : Option OrderIds

module _ (P : Python) where
  ids_of : Fields → OrderIds
  ids_of fs =
      let order_id = get_none fs "hashed_id" in
      record { order_id = order_id; order_number = or_json P (get_none fs "receipt_id") order_id }

  -- No identifiers for a payload that is no dict, nor a list that begins with one.
  unfoldable pub order_identifiers : Json → Option OrderIds
  unfolding ids_of
  order_identifiers (arr nil) = some (ids_of Fields.end)
  order_identifiers (arr (cons (obj fs) vs)) = some (ids_of fs)
  order_identifiers (obj fs) = some (ids_of fs)
  order_identifiers _ = none

  text_or_false : Json → Json
  text_or_false null = bool false
  text_or_false v = str (str_json P v)

  -- The three values that are read from `item_data`: `id`, `cartona_line_id`, `internal_product_id`.
  unfoldable pub line_identifiers : Json → Json → Json → LineIds
  unfolding text_or_false
  line_identifiers id cartona_line_id internal_product_id = record {
    line_id = text_or_false (or_json P id cartona_line_id);
    internal_product_id = text_or_false internal_product_id;
  }

  abbrev pub order_ids? : Option Json → Option OrderIds
  order_ids? none = none
  order_ids? (some v) = order_identifiers v

  unfoldable pub make_issue :
      Status
      → EntryType
      → Text
      → Option Json
      → Option LineIds
      → Option ErrorCode
      → Option RecordRef
      → Issue
  make_issue status entry_type message order_data line error_code about = record {
    status = status;
    entry_type = entry_type;
    message = message;
    error_code = error_code;
    order_ids = order_ids? order_data;
    line_ids = line;
    about = about;
  }

  unfoldable pub make_result :
      {F : Type 0} → Bool → Json → List Issue → Bool → Bool → Option (Order F) → Outcome F
  make_result succeeded order_data issues is_new updated record? = record {
    success = succeeded;
    is_new = is_new;
    updated = updated;
    order = record?;
    issues = issues;
    order_ids = order_identifiers order_data;
  }

abbrev pub is_error_status : Status → Bool
is_error_status Status.error = true
is_error_status _ = false

-- `any(issue.get('status') == 'error' for issue in issues)`
unfoldable pub any_error : List Issue → Bool
any_error = any (λ i. is_error_status i.status)

abbrev pub text : String → List String → Text
text t a = record { template = t; args = a }
