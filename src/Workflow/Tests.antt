-- ===== src/Workflow/Tests.antt =====
-- The theorems on packages/shared/src/record-workflow.ts at concrete sequences of actions.
use fg_details_to_be_added_f.Prelude.{◌≡◌, refl, true, some, [], ◌∷◌, In}
use fg_details_to_be_added_f.Records.{draft, verified, archived, pending_check}
use fg_details_to_be_added_f.Workflow.{
  submit, check, verify, return, resubmit, void, is_immutable_verified_status,
  resolve_workflow_transition,
}
use fg_details_to_be_added_f.Workflow.Graph.{follow, follow-immutable, follow-draft_verified}

voids : follow verified (void ∷ []) ≡ some archived
unfolding follow resolve_workflow_transition
voids = refl

verified_is_immutable : is_immutable_verified_status verified ≡ true
unfolding is_immutable_verified_status
verified_is_immutable = refl

follow-immutable_example : is_immutable_verified_status archived ≡ true
follow-immutable_example =
    follow-immutable archived verified (void ∷ []) voids verified_is_immutable

verifies : follow draft (submit ∷ check ∷ verify ∷ []) ≡ some verified
unfolding follow resolve_workflow_transition
verifies = refl

follow-draft_verified_example :
    In check (submit ∷ check ∷ verify ∷ []) × In verify (submit ∷ check ∷ verify ∷ [])
follow-draft_verified_example =
    follow-draft_verified verified (submit ∷ check ∷ verify ∷ []) verifies verified_is_immutable

resubmits : follow draft (submit ∷ return ∷ resubmit ∷ []) ≡ some pending_check
unfolding follow resolve_workflow_transition
resubmits = refl
