-- ===== src/Workflow.antt =====
-- The check / verify / return / reject / void rules of packages/shared/src/record-workflow.ts.
pub mod Graph
pub mod Tests
use fg_details_to_be_added_f.Prelude.{
  ℕ, String, ◌==◌, Bool, true, false, not, ◌&&◌, ◌||◌, Option, none, some, List, [], ◌∷◌, eqb, find,
  is_some, is_truthy, if◌then◌else◌,
}
use fg_details_to_be_added_f.Records.{
  RecordStatus, draft, submitted, pending_check, pending_verification, verified, completed,
  returned_for_correction, rejected, archived, same_status, has_status,
}

-- WorkflowAction
pub data Action : Type 0 where
  submit check verify return reject resubmit complete void : Action

abbrev action_code : Action → ℕ
action_code submit = 0
action_code check = 1
action_code verify = 2
action_code return = 3
action_code reject = 4
action_code resubmit = 5
action_code complete = 6
action_code void = 7

abbrev pub same_action : Action → Action → Bool
same_action a b = eqb (action_code a) (action_code b)

pub record Transition : Type 0 where
  pub source : RecordStatus
  pub action : Action
  pub target : RecordStatus

abbrev edge : RecordStatus → Action → RecordStatus → Transition
edge s a t = record { source = s; action = a; target = t }

-- WORKFLOW_TRANSITIONS
abbrev pub workflow_transitions : List Transition
workflow_transitions =
    edge draft submit pending_check
    ∷ edge returned_for_correction resubmit pending_check
    ∷ edge rejected resubmit pending_check
    ∷ edge submitted check pending_verification
    ∷ edge pending_check check pending_verification
    ∷ edge pending_verification verify verified
    ∷ edge verified complete completed
    ∷ edge submitted return returned_for_correction
    ∷ edge pending_check return returned_for_correction
    ∷ edge pending_verification return returned_for_correction
    ∷ edge pending_verification reject rejected
    ∷ edge verified void archived
    ∷ edge completed void archived
    ∷ []

abbrev target_of : Option Transition → Option RecordStatus
target_of none = none
target_of (some t) = some t.target

-- resolveWorkflowTransition
unfoldable pub resolve_workflow_transition : RecordStatus → Action → Option RecordStatus
resolve_workflow_transition s a =
    target_of (find (λ t. same_status t.source s && same_action t.action a) workflow_transitions)

-- isValidWorkflowTransition
pub is_valid_workflow_transition : RecordStatus → Action → Bool
is_valid_workflow_transition s a = is_some (resolve_workflow_transition s a)

pub record WorkflowPolicy : Type 0 where
  pub allow_creator_self_check : Bool
  pub allow_checker_self_verify : Bool

-- DEFAULT_WORKFLOW_POLICY
abbrev pub default_workflow_policy : WorkflowPolicy
default_workflow_policy = record {
  allow_creator_self_check = false;
  allow_checker_self_verify = false;
}

-- The reasons that the two assertions give.
pub data DutyReason : Type 0 where
  creator_checks creator_verifies checker_verifies : DutyReason

-- assertCheckSegregationOfDuty; `none` is `{ ok: true }`.
unfoldable pub assert_check_segregation_of_duty :
    WorkflowPolicy → String → String → Option DutyReason
assert_check_segregation_of_duty policy actor_user_id created_by_id =
    if not policy.allow_creator_self_check && actor_user_id == created_by_id
    then some creator_checks
    else none

-- `checkedById && actorUserId === checkedById`
abbrev is_checker : Option String → String → Bool
is_checker none actor = false
is_checker (some c) actor = is_truthy c && actor == c

-- assertVerifySegregationOfDuty
unfoldable pub assert_verify_segregation_of_duty :
    WorkflowPolicy → String → String → Option String → Option DutyReason
assert_verify_segregation_of_duty policy actor_user_id created_by_id checked_by_id =
    if actor_user_id == created_by_id
    then some creator_verifies
    else if not policy.allow_checker_self_verify && is_checker checked_by_id actor_user_id
    then some checker_verifies
    else none

-- commentRequiredForAction
unfoldable pub comment_required_for_action : Action → Bool
comment_required_for_action a = same_action a return || same_action a reject || same_action a void

-- isImmutableVerifiedStatus
unfoldable pub is_immutable_verified_status : RecordStatus → Bool
is_immutable_verified_status s =
    same_status s verified || same_status s completed || same_status s archived
