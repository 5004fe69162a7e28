-- ===== src/Checklist/Validation.antt =====
-- `validateChecklistResponses` of checklist-engine.ts, and the rule checks of template authoring.
pub mod Laws
use Prim.Native.String
use fg_details_to_be_added_f.Prelude.{
  String, Bool, true, false, ◌&&◌, ◌||◌, not, Option, none, some, List, [], ◌∷◌, ◌++◌, map,
  is_empty, has_text, lookup, Number, less, if◌then◌else◌,
}
use fg_details_to_be_added_f.Checklist.Items
use fg_details_to_be_added_f.Checklist.Items.{
  ItemType, single_select, ItemValue, EvidencePhoto, Response, ResponseMap, Item, Section,
}
use fg_details_to_be_added_f.Checklist.Responses.{
  ResponseStatus, unanswered, marked_na, is_unanswered, status_of, value_of, is_numeric,
  is_failure_response, detect_critical_failures,
}
use fg_details_to_be_added_f.Checklist.Order.{flatten_items}

-- ChecklistValidationErrorCode
pub data ErrorCode : Type 0 where
  required not_applicable_not_allowed remark_required evidence_required : ErrorCode
  corrective_action_required out_of_range : ErrorCode

pub record ValidationError : Type 0 where
  pub item_id : String
  pub code : ErrorCode
  pub message : String

-- ChecklistValidationResult
pub record ValidationResult : Type 0 where
  pub is_valid : Bool
  pub errors : List ValidationError
  pub critical_failure_item_ids : List String
  pub has_critical_failure : Bool

-- Templates of the messages: a text before the quoted label, and one behind it.
abbrev around_label : String → Item → String → String
around_label before item after =
    String.◌++◌ before (String.◌++◌ "\"" (String.◌++◌ item.label (String.◌++◌ "\"" after)))

abbrev error_for : Item → ErrorCode → String → ValidationError
error_for item c m = record { item_id = item.id; code = c; message = m }

-- `if (test) errors.push(error)`, before the errors that follow.
abbrev pub push_if : Bool → ValidationError → List ValidationError → List ValidationError
push_if true e rest = e ∷ rest
push_if false e rest = rest

abbrev is_marked_na : ResponseStatus → Bool
is_marked_na marked_na = true
is_marked_na _ = false

abbrev pub is_number_value : Option ItemValue → Bool
is_number_value (some (ItemValue.number n)) = true
is_number_value _ = false

abbrev remark_of : Option Response → Option String
remark_of none = none
remark_of (some r) = r.remark

abbrev corrective_action_of : Option Response → Option String
corrective_action_of none = none
corrective_action_of (some r) = r.corrective_action

abbrev photos_given : Option (List EvidencePhoto) → Bool
photos_given none = false
photos_given (some ps) = not (is_empty ps)

abbrev pub has_evidence : Option Response → Bool
has_evidence none = false
has_evidence (some r) = photos_given r.evidence

-- The checks on an item whose answer is a failure.
failure_errors : Item → Option Response → List ValidationError
failure_errors item r =
    push_if (item.remark_required_on_fail && not (has_text (remark_of r)))
      (error_for item remark_required (around_label "Describe why " item " failed"))
      (push_if (item.requires_evidence_on_fail && not (has_evidence r))
        (error_for item evidence_required (around_label "Attach photo evidence for " item ""))
        (push_if
          (item.corrective_action_required_on_fail && not (has_text (corrective_action_of r)))
          (error_for item corrective_action_required
            (around_label "Add a corrective action for " item ""))
          []))

answered_errors : Item → Option Response → List ValidationError
answered_errors item r =
    push_if (is_marked_na (status_of item r) && not item.allow_not_applicable)
      (error_for item not_applicable_not_allowed (around_label "" item " cannot be marked N/A"))
      (push_if
        (is_numeric item.item_type && is_number_value (value_of r) && is_failure_response item r)
        (error_for item out_of_range (around_label "" item " is outside the allowed range"))
        (if is_failure_response item r then failure_errors item r else []))

-- One round of the loop over the items; `continue` skips all further checks.
pub item_errors : Item → Option Response → List ValidationError
unfolding answered_errors failure_errors
item_errors item r =
    if is_unanswered (status_of item r)
    then push_if item.is_required
        (error_for item required (around_label "" item " requires a response")) []
    else answered_errors item r

pub errors_of : List Item → ResponseMap → List ValidationError
errors_of [] responses = []
errors_of (item ∷ items) responses =
    item_errors item (lookup item.id responses) ++ errors_of items responses

-- validateChecklistResponses
unfoldable pub validate_checklist_responses : List Section → ResponseMap → ValidationResult
unfolding errors_of item_errors
validate_checklist_responses sections responses =
    let items = flatten_items sections in
    let errors = errors_of items responses in
    let critical = map (λ i. i.id) (detect_critical_failures items responses) in
    record {
      is_valid = is_empty errors;
      errors = errors;
      critical_failure_item_ids = critical;
      has_critical_failure = not (is_empty critical);
    }

-- An issue that checkItemRuleInvariants adds.
pub data RuleIssue : Type 0 where
  min_above_max select_without_options : RuleIssue

abbrev min_exceeds_max : Option Number → Option Number → Bool
min_exceeds_max (some lo) (some hi) = less hi lo
min_exceeds_max _ _ = false

abbrev is_single_select : Option ItemType → Bool
is_single_select (some single_select) = true
is_single_select _ = false

abbrev lacks_options {ℓ} : {A : Type ℓ} → Option (List A) → Bool
lacks_options none = true
lacks_options (some os) = is_empty os

-- checkItemRuleInvariants
unfoldable pub check_item_rule_invariants {ℓ} :
    {A : Type ℓ}
    → Option Number
    → Option Number
    → Option ItemType
    → Option (List A)
    → List RuleIssue
check_item_rule_invariants lo hi t options =
    (if min_exceeds_max lo hi then min_above_max ∷ [] else [])
    ++ (if is_single_select t && lacks_options options then select_without_options ∷ [] else [])
