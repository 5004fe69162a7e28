-- ===== src/Inspections/Review.antt =====
-- Check, verify, return, reject and void: the workflow operations of inspection-records.service.ts.
pub mod Effects
pub mod Atomic
pub mod Duty
pub mod Writes
pub mod Edges
use Prim.Native.String
use fg_details_to_be_added_f.Prelude.{
  ℕ, String, ◌==◌, Bool, true, false, ◌&&◌, not, Option, none, some, List, [], ◌∷◌, is_some,
  is_truthy, trim, has_text, if◌then◌else◌,
}
use fg_details_to_be_added_f.Records.{RecordStatus, UserRole}
use fg_details_to_be_added_f.Workflow.{
  Action, check, verify, return, reject, complete, void, same_action, resolve_workflow_transition,
  default_workflow_policy, assert_check_segregation_of_duty, assert_verify_segregation_of_duty,
  comment_required_for_action, is_immutable_verified_status,
}
use fg_details_to_be_added_f.Exec.{
  Exec, ◌>>=◌, ◌>>◌, pure, gets, modify, require, or_throw, throw_some,
}
use fg_details_to_be_added_f.Prisma.{Prisma, id}
use fg_details_to_be_added_f.Inspections.State
use fg_details_to_be_added_f.Inspections.State.{
  RequestUser, InspectionRecord, ApprovalType, ApprovalDecision, ApprovalRecord, approved,
  AuditMetadata, to_status, NotificationType, TaskStatus, TaskAssignment, Exception, record_locked,
  invalid_workflow_transition, workflow_comment_required, workflow_segregation_of_duty,
  duplicate_workflow_approval, row_missing, World, Db,
}
use fg_details_to_be_added_f.Inspections.Access.{
  require_permission, find_record_or_throw, assert_can_view,
}
use fg_details_to_be_added_f.Inspections.Detail.{Detail, get_by_id}

-- `comment?.trim() || null`
abbrev pub trimmed_or_null : Option String → Option String
trimmed_or_null none = none
trimmed_or_null (some s) = if is_truthy (trim s) then some (trim s) else none

abbrev is_check : ApprovalType → Bool
is_check State.check = true
is_check _ = false

abbrev is_verify : ApprovalType → Bool
is_verify State.verify = true
is_verify _ = false

abbrev is_approved : ApprovalDecision → Bool
is_approved approved = true
is_approved _ = false

-- `where: { recordId, approvalType, decision: "APPROVED" }`
abbrev pub is_prior_check : String → ApprovalRecord → Bool
is_prior_check rid a = a.record_id == rid && (is_check a.approval_type && is_approved a.decision)

abbrev pub is_prior_verify : String → ApprovalRecord → Bool
is_prior_verify rid a = a.record_id == rid && (is_verify a.approval_type && is_approved a.decision)

abbrev pub is_task_of : String → TaskAssignment → Bool
is_task_of rid t = elim t.record_id [ none ↦ false | some r ↦ r == rid ]

-- `commentRequiredForAction(action) && !comment?.trim()`
unfoldable pub lacks_comment : Action → Option String → Bool
lacks_comment action comment = comment_required_for_action action && not (has_text comment)

-- `isImmutableVerifiedStatus(from) && action !== "VOID" && action !== "COMPLETE"`
unfoldable pub is_locked_for : RecordStatus → Action → Bool
is_locked_for s action =
    is_immutable_verified_status s
    && (not (same_action action void) && not (same_action action complete))

module _ (p : Prisma) where
  -- `inspectionRecord.update`, which throws where the record is missing.
  unfoldable pub update_record :
      String → (InspectionRecord → InspectionRecord) → Exec Exception (Db p) (Unit {0})
  update_record rid f = do
    found ← gets (λ s. p.find_unique (id rid) s.records)
    or_throw row_missing found
    modify (λ s. record s { records = p.update (id rid) f s.records })

  unfoldable pub create_approval : ApprovalRecord → Exec Exception (Db p) (Unit {0})
  create_approval a =
      modify (λ s. record s { approvals = p.create (id (p.next_id s.approvals)) a s.approvals })

  -- `taskAssignment.updateMany({ where: { recordId }, data: { status } })`
  pub set_task_status : String → TaskStatus → Exec Exception (Db p) (Unit {0})
  set_task_status rid status = modify (λ s. record s {
    tasks = p.update_many (is_task_of rid) (λ t. record t { status = status }) s.tasks;
  })

  -- writeWorkflowAudit
  pub write_workflow_audit :
      RequestUser → String → String → AuditMetadata → Exec Exception (Db p) (Unit {0})
  write_workflow_audit user rid action metadata = modify (λ s. record s {
    audit_logs =
        p.create (id (p.next_id s.audit_logs))
          (record {
            actor_id = user.id;
            action = action;
            entity_type = "InspectionRecord";
            entity_id = some rid;
            metadata = metadata;
          })
          s.audit_logs;
  })

  -- notifyUser
  pub notify_user :
      String → NotificationType → String → String → String → Exec Exception (Db p) (Unit {0})
  notify_user user_id type title body related = modify (λ s. record s {
    notifications =
        p.create (id (p.next_id s.notifications))
          (record {
            user_id = user_id;
            type = type;
            title = title;
            body = body;
            related_entity_type = "InspectionRecord";
            related_entity_id = related;
          })
          s.notifications;
  })

  -- The checks of applyWorkflow on the record that it found, up to the transaction.
  unfoldable pub admit_record :
      RequestUser
      → Action
      → InspectionRecord
      → Exec Exception (Db p) (InspectionRecord × RecordStatus)
  unfolding assert_can_view
  admit_record user action r = do
    assert_can_view p r user
    require (not (is_locked_for r.status action)) record_locked
    target ←
        or_throw (invalid_workflow_transition r.status action)
          (resolve_workflow_transition r.status action)
    pure (r, target)

  -- applyWorkflow up to its transaction: the record, and the status that the action leads to.
  unfoldable pub admit_action :
      RequestUser
      → String
      → Action
      → Option String
      → Exec Exception (Db p) (InspectionRecord × RecordStatus)
  unfolding find_record_or_throw admit_record
  admit_action user rid action comment = do
    require (not (lacks_comment action comment)) (workflow_comment_required action)
    r ← find_record_or_throw p rid
    admit_record user action r

  -- applyWorkflow
  unfoldable pub apply_workflow :
      RequestUser
      → String
      → Action
      → Option String
      → (InspectionRecord → RecordStatus → Exec Exception (Db p) (Unit {0}))
      → Exec Exception (Db p) Detail
  unfolding admit_action
  apply_workflow user rid action comment mutate = do
    admitted ← admit_action user rid action comment
    p.transaction (mutate admitted.0 admitted.1)
    get_by_id p user rid

  module _ (w : World) (user : RequestUser) where
    unfoldable pub approval_of :
        String → ApprovalType → ApprovalDecision → Option String → ApprovalRecord
    approval_of rid type decision comments = record {
      record_id = rid;
      approval_type = type;
      decision = decision;
      decided_by_id = user.id;
      decided_at = w.now;
      comments = comments;
    }

    about : String → InspectionRecord → String → String
    about before r after = String.◌++◌ before (String.◌++◌ r.document_code after)

    -- The transaction of checkRecord.
    unfoldable pub check_mutation :
        Option String → InspectionRecord → RecordStatus → Exec Exception (Db p) (Unit {0})
    unfolding update_record create_approval write_workflow_audit notify_user approval_of about
    check_mutation comment r target = do
      throw_some workflow_segregation_of_duty
          (assert_check_segregation_of_duty default_workflow_policy user.id r.created_by_id)
      prior ← gets (λ s. p.find_first (is_prior_check r.id) s.approvals)
      require (not (is_some prior)) (duplicate_workflow_approval check)
      update_record r.id
          (λ x. record x { status = target; checked_by_id = some user.id; checked_at = some w.now })
      create_approval (approval_of r.id State.check approved (trimmed_or_null comment))
      write_workflow_audit user r.id "RECORD_CHECKED" (to_status target user.roles none)
      notify_user r.created_by_id State.record_checked "Record checked"
          (about "Record " r " was checked.") r.id
      notify_user r.created_by_id State.record_pending_verification "Awaiting verification"
          (about "Record " r " is pending QA verification.") r.id

    -- checkRecord
    unfoldable pub check_record : String → Option String → Exec Exception (Db p) Detail
    unfolding require_permission apply_workflow check_mutation
    check_record rid comment = do
      require_permission p user State.records_check check
      apply_workflow user rid check comment (check_mutation comment)

    -- The transaction of verifyRecord.
    unfoldable pub verify_mutation :
        Option String → InspectionRecord → RecordStatus → Exec Exception (Db p) (Unit {0})
    unfolding update_record create_approval set_task_status write_workflow_audit notify_user
        approval_of about
    verify_mutation comment r target = do
      throw_some workflow_segregation_of_duty (
          assert_verify_segregation_of_duty default_workflow_policy user.id r.created_by_id
            r.checked_by_id)
      prior ← gets (λ s. p.find_first (is_prior_verify r.id) s.approvals)
      require (not (is_some prior)) (duplicate_workflow_approval verify)
      update_record r.id (λ x. record x {
        status = target;
        verified_by_id = some user.id;
        verified_at = some w.now;
      })
      create_approval (approval_of r.id State.verify approved (trimmed_or_null comment))
      set_task_status r.id State.verified
      write_workflow_audit user r.id "RECORD_VERIFIED" (to_status target user.roles none)
      notify_user r.created_by_id State.record_verified "Record verified"
          (about "Record " r " was verified.") r.id

    -- verifyRecord
    unfoldable pub verify_record : String → Option String → Exec Exception (Db p) Detail
    unfolding require_permission apply_workflow verify_mutation
    verify_record rid comment = do
      require_permission p user State.records_verify verify
      apply_workflow user rid verify comment (verify_mutation comment)

    -- `const comment = dto?.comment?.trim(); if (!comment) throw`
    pub required_comment : Action → Option String → Exec Exception (Db p) String
    required_comment action comment =
        or_throw (workflow_comment_required action) (trimmed_or_null comment)

    -- The transaction of returnRecord.
    unfoldable pub return_mutation :
        String → InspectionRecord → RecordStatus → Exec Exception (Db p) (Unit {0})
    unfolding update_record create_approval set_task_status write_workflow_audit notify_user
        approval_of
    return_mutation comment r target = do
      update_record r.id (λ x. record x { status = target })
      create_approval (approval_of r.id State.return State.rejected (some comment))
      set_task_status r.id TaskStatus.rejected
      write_workflow_audit user r.id "RECORD_RETURNED" (to_status target user.roles (some comment))
      notify_user r.created_by_id State.record_returned "Record returned for correction" comment
          r.id

    -- returnRecord
    unfoldable pub return_record : String → Option String → Exec Exception (Db p) Detail
    unfolding require_permission required_comment apply_workflow return_mutation
    return_record rid comment = do
      require_permission p user State.records_return return
      text ← required_comment return comment
      apply_workflow user rid return (some text) (return_mutation text)

    -- The transaction of rejectRecord.
    unfoldable pub reject_mutation :
        String → InspectionRecord → RecordStatus → Exec Exception (Db p) (Unit {0})
    unfolding update_record create_approval set_task_status write_workflow_audit notify_user
        approval_of
    reject_mutation comment r target = do
      update_record r.id (λ x. record x { status = target })
      create_approval (approval_of r.id State.reject State.rejected (some comment))
      set_task_status r.id TaskStatus.rejected
      write_workflow_audit user r.id "RECORD_REJECTED" (to_status target user.roles (some comment))
      notify_user r.created_by_id State.record_rejected "Record rejected" comment r.id

    -- rejectRecord
    unfoldable pub reject_record : String → Option String → Exec Exception (Db p) Detail
    unfolding require_permission required_comment apply_workflow reject_mutation
    reject_record rid comment = do
      require_permission p user State.records_reject reject
      text ← required_comment reject comment
      apply_workflow user rid reject (some text) (reject_mutation text)

    -- The transaction of voidRecord.
    unfoldable pub void_mutation :
        String → InspectionRecord → RecordStatus → Exec Exception (Db p) (Unit {0})
    unfolding update_record create_approval write_workflow_audit approval_of
    void_mutation comment r target = do
      update_record r.id (λ x. record x { status = target; archived_at = some w.now })
      create_approval (approval_of r.id State.void State.rejected (some comment))
      write_workflow_audit user r.id "RECORD_VOIDED" (to_status target user.roles (some comment))

    -- voidRecord
    unfoldable pub void_record : String → Option String → Exec Exception (Db p) Detail
    unfolding require_permission required_comment apply_workflow void_mutation
    void_record rid comment = do
      require_permission p user State.records_void void
      text ← required_comment void comment
      apply_workflow user rid void (some text) (void_mutation text)

-- The review endpoints of inspection-records.controller.ts, `POST :id/check` and its siblings.
pub data Operation : Type 0 where
  checking verifying returning rejecting voiding : Operation

module _ (p : Prisma) (w : World) (user : RequestUser) where
  -- What each endpoint calls.
  unfoldable pub review : Operation → String → Option String → Exec Exception (Db p) Detail
  review checking rid comment = check_record p w user rid comment
  review verifying rid comment = verify_record p w user rid comment
  review returning rid comment = return_record p w user rid comment
  review rejecting rid comment = reject_record p w user rid comment
  review voiding rid comment = void_record p w user rid comment
