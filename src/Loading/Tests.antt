-- ===== src/Loading/Tests.antt =====
-- The theorems on packages/shared/src/truck-inspection.ts at one item.
use fg_details_to_be_added_f.Prelude.{◌≡◌, ◌↔◌, [], ◌∷◌, true, false, none}
use fg_details_to_be_added_f.Checklist.Items
use fg_details_to_be_added_f.Checklist.Items.{Item}
use fg_details_to_be_added_f.Loading.{approved_for_loading, conditionally_approved, loading_blocked}
use fg_details_to_be_added_f.Loading.Laws.{
  HasCriticalFailure, HasFailure, decision, compute_recommended_outcomes,
}

abbrev seal : Item
seal = record {
  id = "seal";
  label = "Seal";
  sort_order = 1;
  item_type = Items.pass_fail_na;
  options = [];
  is_required = true;
  allow_not_applicable = false;
  requires_evidence_on_fail = false;
  is_critical_failure = true;
  remark_required_on_fail = false;
  corrective_action_required_on_fail = false;
  min_value = none;
  max_value = none;
  default_response = none;
}

compute_recommended_outcomes_example :
    ((decision (seal ∷ []) [] ≡ loading_blocked) ↔ HasCriticalFailure (seal ∷ []) [])
    × ((decision (seal ∷ []) [] ≡ approved_for_loading) ↔ (¬ HasFailure (seal ∷ []) []))
    × ((decision (seal ∷ []) [] ≡ conditionally_approved)
        ↔ (HasFailure (seal ∷ []) [] × (¬ HasCriticalFailure (seal ∷ []) [])))
compute_recommended_outcomes_example = compute_recommended_outcomes (seal ∷ []) []
