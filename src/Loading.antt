-- ===== src/Loading.antt =====
-- The loading decision of packages/shared/src/truck-inspection.ts.
pub mod Laws
pub mod Tests
use fg_details_to_be_added_f.Prelude.{
  String, Bool, true, false, not, Option, none, some, List, [], ◌∷◌, map, any, is_empty,
  if◌then◌else◌,
}
use fg_details_to_be_added_f.Checklist.Items.{ResponseMap, Item}
use fg_details_to_be_added_f.Checklist.Responses.{is_failing, detect_critical_failures}

-- LoadingDecision of records.ts
pub data LoadingDecision : Type 0 where
  pending approved_for_loading conditionally_approved loading_blocked rejected : LoadingDecision

-- FinalLoadingDecision, the decisions but `pending`
abbrev pub final_loading_decisions : List LoadingDecision
final_loading_decisions =
    approved_for_loading ∷ conditionally_approved ∷ loading_blocked ∷ rejected ∷ []

-- LoadingDecisionCalculation
pub record Calculation : Type 0 where
  pub decision : LoadingDecision
  pub has_critical_failure : Bool
  pub has_any_failure : Bool
  pub critical_failure_item_ids : List String

-- computeRecommendedLoadingDecision
unfoldable pub compute_recommended_loading_decision : List Item → ResponseMap → Calculation
compute_recommended_loading_decision items responses =
    let critical = detect_critical_failures items responses in
    let has_critical = not (is_empty critical) in
    let has_any = any (is_failing responses) items in
    record {
      decision =
          if has_critical
          then loading_blocked
          else if has_any
          then conditionally_approved
          else approved_for_loading;
      has_critical_failure = has_critical;
      has_any_failure = has_any;
      critical_failure_item_ids = map (λ i. i.id) critical;
    }

abbrev is_blocked : Option LoadingDecision → Bool
is_blocked (some loading_blocked) = true
is_blocked _ = false

-- isOverrideToApprovedAllowed
unfoldable pub is_override_to_approved_allowed : Option LoadingDecision → Bool
is_override_to_approved_allowed recommended = not (is_blocked recommended)

-- allowedFinalDecisions
unfoldable pub allowed_final_decisions : Option LoadingDecision → List LoadingDecision
unfolding is_override_to_approved_allowed
allowed_final_decisions recommended =
    if is_override_to_approved_allowed recommended
    then final_loading_decisions
    else loading_blocked ∷ rejected ∷ []
