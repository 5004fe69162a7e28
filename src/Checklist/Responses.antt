-- ===== src/Checklist/Responses.antt =====
-- Classification of answers and failure detection of checklist-engine.ts.
pub mod Laws
use fg_details_to_be_added_f.Prelude.{
  String, Bool, true, false, ◌&&◌, ◌||◌, Option, none, some, List, keep, is_empty, not, is_truthy,
  trim, lookup, Number, is_finite, less, if◌then◌else◌,
}
use fg_details_to_be_added_f.Checklist.Items
use fg_details_to_be_added_f.Checklist.Items.{
  ItemType, pass_fail_na, acceptable_unacceptable_na, yes_no_na, short_text, long_text, temperature,
  single_select, photo_evidence, is_status_item_type, StatusValue, pass, fail, not_applicable,
  ItemValue, status, text, select, photo, Response, ResponseMap, Item,
}

-- RESPONSE_STATUSES
pub data ResponseStatus : Type 0 where
  unanswered passed failed marked_na : ResponseStatus

abbrev of_status_value : StatusValue → ResponseStatus
of_status_value pass = passed
of_status_value fail = failed
of_status_value not_applicable = marked_na

abbrev answered_if : Bool → ResponseStatus
answered_if b = if b then passed else unanswered

classify_status : ItemValue → ResponseStatus
classify_status (status v) = of_status_value v
classify_status _ = unanswered

classify_text : ItemValue → ResponseStatus
classify_text (text s) = answered_if (is_truthy (trim s))
classify_text _ = unanswered

classify_number : ItemValue → ResponseStatus
classify_number (ItemValue.number n) = answered_if (is_finite n)
classify_number _ = unanswered

classify_date : ItemValue → ResponseStatus
classify_date (ItemValue.date s) = answered_if (is_truthy s)
classify_date _ = unanswered

classify_time : ItemValue → ResponseStatus
classify_time (ItemValue.time s) = answered_if (is_truthy s)
classify_time _ = unanswered

classify_select : ItemValue → ResponseStatus
classify_select (select s) = answered_if (is_truthy s)
classify_select _ = unanswered

classify_photo : ItemValue → ResponseStatus
classify_photo (photo ps) = answered_if (not (is_empty ps))
classify_photo _ = unanswered

classify_signature : ItemValue → ResponseStatus
classify_signature (ItemValue.signature s) = answered_if (is_truthy s.signed_at)
classify_signature _ = unanswered

classify_value : ItemType → ItemValue → ResponseStatus
unfolding classify_status classify_text classify_number classify_date classify_time classify_select
    classify_photo classify_signature
classify_value pass_fail_na v = classify_status v
classify_value acceptable_unacceptable_na v = classify_status v
classify_value yes_no_na v = classify_status v
classify_value short_text v = classify_text v
classify_value long_text v = classify_text v
classify_value ItemType.number v = classify_number v
classify_value temperature v = classify_number v
classify_value ItemType.date v = classify_date v
classify_value ItemType.time v = classify_time v
classify_value single_select v = classify_select v
classify_value photo_evidence v = classify_photo v
classify_value ItemType.signature v = classify_signature v

-- classifyResponseStatus
unfoldable pub classify_response_status : ItemType → Option ItemValue → ResponseStatus
unfolding classify_value
classify_response_status t none = unanswered
classify_response_status t (some v) = classify_value t v

-- `response?.value`
abbrev pub value_of : Option Response → Option ItemValue
value_of none = none
value_of (some r) = r.value

abbrev pub status_of : Item → Option Response → ResponseStatus
status_of item r = classify_response_status item.item_type (value_of r)

abbrev pub is_unanswered : ResponseStatus → Bool
is_unanswered unanswered = true
is_unanswered _ = false

-- isAnswered
unfoldable pub is_answered : Item → Option Response → Bool
is_answered item r = not (is_unanswered (status_of item r))

-- `typeof item.minValue === "number" && value < item.minValue`, and the same for the maximum
abbrev below_min : Option Number → Number → Bool
below_min none n = false
below_min (some lo) n = less n lo

abbrev above_max : Option Number → Number → Bool
above_max none n = false
above_max (some hi) n = less hi n

pub is_out_of_range : Item → Number → Bool
is_out_of_range item n = below_min item.min_value n || above_max item.max_value n

abbrev pub is_numeric : ItemType → Bool
is_numeric ItemType.number = true
is_numeric temperature = true
is_numeric _ = false

failure_of : Bool → Bool → Item → ItemValue → Bool
failure_of true numeric item (status fail) = true
failure_of true numeric item _ = false
failure_of false true item (ItemValue.number n) = is_out_of_range item n
failure_of false _ item _ = false

-- isFailureResponse
unfoldable pub is_failure_response : Item → Option Response → Bool
unfolding failure_of is_out_of_range
is_failure_response item r = elim (value_of r) [
  | none ↦ false
  | some v ↦ failure_of (is_status_item_type item.item_type) (is_numeric item.item_type) item v
]

abbrev pub is_failing : ResponseMap → Item → Bool
is_failing responses item = is_failure_response item (lookup item.id responses)

-- detectCriticalFailures
unfoldable pub detect_critical_failures : List Item → ResponseMap → List Item
detect_critical_failures items responses =
    keep (λ item. item.is_critical_failure && is_failing responses item) items

-- hasCriticalFailure
unfoldable pub has_critical_failure : List Item → ResponseMap → Bool
has_critical_failure items responses = not (is_empty (detect_critical_failures items responses))
