-- ===== src/Inspections/Submit.antt =====
-- Submission: submit, createCorrectiveActionsForFailures and recordLoadingDecisionRecommendation of
-- inspection-records.service.ts.
pub mod Keeping
pub mod Claim
pub mod Result
pub mod Laws
pub mod Failing
pub mod Actions
use Prim.Native.String
use fg_details_to_be_added_f.Prelude.{
  ℕ, zero, suc, String, ◌==◌, Bool, true, false, ◌&&◌, not, Option, none, some, List, [], ◌∷◌, map,
  eqb, find_last, is_some, is_truthy, lookup, if◌then◌else◌,
}
use fg_details_to_be_added_f.Checklist.Items.{Response, ResponseMap, Item, Section}
use fg_details_to_be_added_f.Checklist.Order.{flatten_items}
use fg_details_to_be_added_f.Checklist.Responses.{is_failure_response}
use fg_details_to_be_added_f.Checklist.Validation.{validate_checklist_responses}
use fg_details_to_be_added_f.Records.{
  RecordStatus, pending_check, UserRole, RecordCounts, is_record_editable, compute_record_counts,
  next_responsible_role_for_status,
}
use fg_details_to_be_added_f.Loading.{LoadingDecision, compute_recommended_loading_decision}
use fg_details_to_be_added_f.Exec.{
  Exec, ◌>>=◌, ◌>>◌, pure, skip, gets, modify, or_throw, throw, require,
}
use fg_details_to_be_added_f.Prisma.{Prisma, id}
use fg_details_to_be_added_f.Inspections.State
use fg_details_to_be_added_f.Inspections.State.{
  RequestUser, InspectionRecord, InspectionResult, InspectionAttachment, CorrectiveAction,
  TruckDetail, Exception, record_validation, record_locked, invalid_record_payload, row_missing,
  recommended, Parsed, success, failure, World, Db,
}
use fg_details_to_be_added_f.Inspections.Access.{find_record_or_throw, assert_owner_can_edit}
use fg_details_to_be_added_f.Inspections.Mapping.{to_response_map}
use fg_details_to_be_added_f.Inspections.Detail.{load_template_version_content, results_of}
use fg_details_to_be_added_f.Inspections.Review.{is_task_of}
use fg_details_to_be_added_f.Inspections.Answers.{persist_responses}

-- DOCUMENT_CODES.FREEZER_TRUCK and DOCUMENT_CODES.DAILY_CLEANING
abbrev pub freezer_truck : String
freezer_truck = "NMS/PPU/CL/30"

abbrev pub daily_cleaning : String
daily_cleaning = "NMS/PPU/CL/24"

-- SubmitRecordResult, but for the record number, which is derived from the record.
pub record SubmitResult : Type 0 where
  pub record_id : String
  pub document_code : String
  pub status : RecordStatus
  pub submitted_at : ℕ
  pub counts : RecordCounts
  pub has_critical_failure : Bool
  pub corrective_actions_created : ℕ
  pub next_responsible_role : Option UserRole
  pub loading_decision : Option LoadingDecision

-- `[a, b, c].filter(Boolean).join(" — ")`
abbrev joined : String → String → String
joined a b =
    if is_truthy a then (if is_truthy b then String.◌++◌ a (String.◌++◌ " — " b) else a) else b

abbrev text_or_empty : Option String → String
text_or_empty none = ""
text_or_empty (some s) = s

abbrev field : (Response → Option String) → Option Response → String
field f none = ""
field f (some r) = text_or_empty (f r)

description_of : Item → Option Response → String
description_of item r =
    let text =
      joined (field (λ x. x.issue_reason) r)
        (joined (field (λ x. x.remark) r) (field (λ x. x.correction) r)) in
    if is_truthy text
    then text
    else String.◌++◌ "Failure recorded for \"" (String.◌++◌ item.label "\"")

module _ (p : Prisma) (user : RequestUser) (rid : String) where
  create_corrective_action :
      Item → Option Response → InspectionResult → Exec Exception (Db p) (Unit {0})
  unfolding description_of
  create_corrective_action item r result = modify (λ s. record s {
    corrective_actions =
        p.create (id (p.next_id s.corrective_actions))
          (record {
            record_id = rid;
            result_id = result.id;
            title = String.◌++◌ item.label " — corrective action required";
            description = description_of item r;
            priority = if item.is_critical_failure then State.critical else State.high;
            created_by_id = user.id;
          })
          s.corrective_actions;
  })

  -- One round of the loop: 1 if a corrective action was created, else 0. Each `continue` gives 0, in
  -- whatever order the tests stand.
  create_for_item : Item → Option Response → Option InspectionResult → Exec Exception (Db p) ℕ
  unfolding create_corrective_action
  create_for_item item r none = pure 0
  create_for_item item r (some result) =
      if not item.corrective_action_required_on_fail
      then pure 0
      else if not (is_failure_response item r)
      then pure 0
      else (do
        existing ← gets (λ s. p.find_first (λ c. c.result_id == result.id) s.corrective_actions)
        if is_some existing then pure 0 else (do create_corrective_action item r result; pure 1))

  -- createCorrectiveActionsForFailures.
  unfoldable pub create_corrective_actions_for_failures :
      List Item → ResponseMap → List InspectionResult → Exec Exception (Db p) ℕ
  unfolding create_for_item
  create_corrective_actions_for_failures [] responses results = pure 0
  create_corrective_actions_for_failures (item ∷ items) responses results = do
    n ←
        create_for_item item (lookup item.id responses)
          (find_last (λ r. r.item_id == item.id) results)
    m ← create_corrective_actions_for_failures items responses results
    pure (elim n [ zero ↦ m | suc k ↦ suc m ])

  -- recordLoadingDecisionRecommendation
  unfoldable pub record_loading_decision_recommendation :
      List Item → ResponseMap → Exec Exception (Db p) LoadingDecision
  record_loading_decision_recommendation items responses = do
    let decision = (compute_recommended_loading_decision items responses).decision
    found ← gets (λ s. p.find_unique (id rid) s.trucks)
    truck ← or_throw row_missing found
    modify (λ s. record s {
      trucks =
          p.update (id rid)
            (λ t. record t { recommended_decision = some decision; loading_decision = decision })
            s.trucks;
      audit_logs =
          p.create (id (p.next_id s.audit_logs))
            (record {
              actor_id = user.id;
              action = "LOADING_DECISION_RECOMMENDED";
              entity_type = "TruckInspectionDetail";
              entity_id = some truck.id;
              metadata = recommended rid decision;
            })
            s.audit_logs;
    })
    pure decision

module _ (p : Prisma) (w : World) (user : RequestUser) where
  -- `updateMany` with the condition on the status: the concurrency gate.
  unfoldable pub claim : String → Exec Exception (Db p) (Unit {0})
  claim rid = do
    count ← gets (λ s.
        (p.update_where (id rid) (λ r. is_record_editable r.status)
          (λ r. record r { status = pending_check; submitted_at = some w.now }) s.records).1)
    modify (λ s. record s {
      records =
          (p.update_where (id rid) (λ r. is_record_editable r.status)
            (λ r. record r { status = pending_check; submitted_at = some w.now }) s.records).0;
    })
    require (eqb count 1) record_locked

  unfoldable pub decide_loading :
      InspectionRecord → List Item → ResponseMap → Exec Exception (Db p) (Option LoadingDecision)
  unfolding record_loading_decision_recommendation
  decide_loading r items responses =
      if r.document_code == freezer_truck
      then (do
        d ← record_loading_decision_recommendation p user r.id items responses
        pure (some d))
      else pure none

  -- The transaction of submit behind the claim.
  unfoldable pub after_claim :
      InspectionRecord
      → List Item
      → ResponseMap
      → List InspectionResult
      → Exec Exception (Db p) (ℕ × Option LoadingDecision)
  unfolding create_corrective_actions_for_failures decide_loading
  after_claim r items responses results = do
    created ← create_corrective_actions_for_failures p user r.id items responses results
    modify (λ s. record s {
      tasks = p.update_many (is_task_of r.id) (λ t. record t { status = State.submitted }) s.tasks;
    })
    decision ← decide_loading r items responses
    pure (created, decision)

  -- The body of the transaction of submit.
  unfoldable pub submit_transaction :
      InspectionRecord
      → List Item
      → ResponseMap
      → List InspectionResult
      → Exec Exception (Db p) (ℕ × Option LoadingDecision)
  unfolding claim after_claim
  submit_transaction r items responses results = do
    claim r.id
    after_claim r items responses results

  -- What submit answers, once its transaction is done.
  unfoldable pub result_of :
      InspectionRecord → List Section → ResponseMap → ℕ × Option LoadingDecision → SubmitResult
  result_of r sections responses done = record {
    record_id = r.id;
    document_code = r.document_code;
    status = pending_check;
    submitted_at = w.now;
    counts = compute_record_counts (flatten_items sections) responses;
    has_critical_failure = (validate_checklist_responses sections responses).has_critical_failure;
    corrective_actions_created = done.0;
    next_responsible_role = next_responsible_role_for_status pending_check;
    loading_decision = done.1;
  }

  -- submit from the validation on.
  unfoldable pub submit_answers :
      InspectionRecord
      → List Section
      → List (InspectionResult × List InspectionAttachment)
      → Exec Exception (Db p) SubmitResult
  unfolding submit_transaction result_of
  submit_answers r sections results = do
    let responses = to_response_map results
    let validation = validate_checklist_responses sections responses
    require validation.is_valid (record_validation validation.errors)
    done ←
        p.transaction
          (submit_transaction r (flatten_items sections) responses (map (λ x. x.0) results))
    pure (result_of r sections responses done)

  -- submit from the stored answers on.
  unfoldable pub submit_stored : InspectionRecord → Exec Exception (Db p) SubmitResult
  unfolding load_template_version_content submit_answers
  submit_stored r = do
    version ← load_template_version_content p r.template_version_id
    results ← gets (results_of p r.id)
    submit_answers r version.sections results

  -- `if (parsed.data.responses) await this.persistResponses(...)`
  pub persist_given :
      InspectionRecord → Option (List (String × Parsed Response)) → Exec Exception (Db p) (Unit {0})
  unfolding load_template_version_content persist_responses
  persist_given r none = skip
  persist_given r (some responses) = do
    version ← load_template_version_content p r.template_version_id
    persist_responses p w user r.id (flatten_items version.sections) responses

  -- submit. The version that the source reads once is read by each part: no part writes it.
  unfoldable pub submit :
      String
      → Parsed (Option (List (String × Parsed Response)))
      → Exec Exception (Db p) SubmitResult
  unfolding find_record_or_throw assert_owner_can_edit persist_given submit_stored
  submit rid (failure message) = throw (invalid_record_payload message)
  submit rid (success responses) = do
    r ← find_record_or_throw p rid
    assert_owner_can_edit p r user
    persist_given r responses
    submit_stored r
