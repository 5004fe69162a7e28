-- ===== src/CorrectiveActions.antt =====
-- apps/api/src/corrective-actions/corrective-actions.service.ts and the routes of its controller. The
-- list with its filters and pages is not modelled.
pub mod State
pub mod Writes
pub mod Invariant
pub mod Closing
mod Tests
use fg_details_to_be_added_f.Prelude.{
  ℕ, String, ◌==◌, Bool, true, false, ◌&&◌, not, Option, none, some, List, [], ◌∷◌, length,
  is_truthy, is_present, trim,
}
use fg_details_to_be_added_f.Exec.{Exec, ◌>>=◌, ◌>>◌, gets, modify, or_throw, require}
use fg_details_to_be_added_f.Prisma.{Prisma, id}
use fg_details_to_be_added_f.Inspections.State.{Priority}
use fg_details_to_be_added_f.Accounts.State.{is_active}
use fg_details_to_be_added_f.CorrectiveActions.State
use fg_details_to_be_added_f.CorrectiveActions.State.{
  CaStatus, includes_status, CorrectiveAction, Evidence, Person, Metadata, assignment, CaAudit,
  CaException, not_found, cannot, inactive_assignee, is_required, own_action, CaDb,
}

-- ASSIGNABLE, STARTABLE, COMPLETABLE, VERIFYABLE, REJECTABLE, REOPENABLE, CANCELABLE
abbrev pub assignable : List CaStatus
assignable = State.opened ∷ State.reopened ∷ State.rejected ∷ State.assigned ∷ []

abbrev pub startable : List CaStatus
startable = State.opened ∷ State.assigned ∷ State.reopened ∷ []

abbrev pub completable : List CaStatus
completable = State.in_progress ∷ State.assigned ∷ State.reopened ∷ State.opened ∷ []

abbrev pub verifyable : List CaStatus
verifyable = State.pending_verification ∷ State.completed ∷ []

abbrev pub rejectable : List CaStatus
rejectable = State.pending_verification ∷ State.completed ∷ State.in_progress ∷ []

abbrev pub reopenable : List CaStatus
reopenable = State.rejected ∷ State.verified ∷ State.closed ∷ []

abbrev pub cancelable : List CaStatus
cancelable =
    State.opened ∷ State.assigned ∷ State.in_progress ∷ State.reopened ∷ State.rejected ∷ []

-- CorrectiveActionSummary
pub record CaSummary : Type 0 where
  pub id : String
  pub action_number : Option String
  pub title : String
  pub description : String
  pub status : CaStatus
  pub priority : Priority
  pub record_id : Option String
  pub result_id : Option String
  pub assigned_to_id : Option String
  pub assigned_to_name : Option String
  pub due_date : Option String
  pub created_at : ℕ
  pub updated_at : ℕ

-- CorrectiveActionDetail
pub record CaDetail : Type 0 where
  pub summary : CaSummary
  pub root_cause : Option String
  pub immediate_correction : Option String
  pub completion_comment : Option String
  pub verification_comment : Option String
  pub rejection_reason : Option String
  pub cancel_reason : Option String
  pub created_by_id : String
  pub created_by_name : String
  pub verified_by_id : Option String
  pub verified_by_name : Option String
  pub completed_at : Option ℕ
  pub verified_at : Option ℕ
  pub closed_at : Option ℕ
  pub reopened_at : Option ℕ
  pub evidence_count : ℕ

-- `person?.fullName ?? null` and `person?.fullName ?? ""`
abbrev name_of : Option Person → Option String
name_of none = none
name_of (some person) = some person.full_name

abbrev name_or_empty : Option Person → String
name_or_empty none = ""
name_or_empty (some person) = person.full_name

-- toSummary
pub to_summary : CorrectiveAction → Option Person → CaSummary
to_summary row assigned_to = record {
  id = row.id;
  action_number = row.action_number;
  title = row.title;
  description = row.description;
  status = row.status;
  priority = row.priority;
  record_id = row.record_id;
  result_id = row.result_id;
  assigned_to_id = row.assigned_to_id;
  assigned_to_name = name_of assigned_to;
  due_date = row.due_date;
  created_at = row.created_at;
  updated_at = row.updated_at;
}

-- toDetail
unfoldable pub to_detail :
    CorrectiveAction → Option Person → Option Person → Option Person → ℕ → CaDetail
unfolding to_summary
to_detail row assigned_to created_by verified_by evidence_count = record {
  summary = to_summary row assigned_to;
  root_cause = row.root_cause;
  immediate_correction = row.immediate_correction;
  completion_comment = row.completion_comment;
  verification_comment = row.verification_comment;
  rejection_reason = row.rejection_reason;
  cancel_reason = row.cancel_reason;
  created_by_id = row.created_by_id;
  created_by_name = name_or_empty created_by;
  verified_by_id = row.verified_by_id;
  verified_by_name = name_of verified_by;
  completed_at = row.completed_at;
  verified_at = row.verified_at;
  closed_at = row.closed_at;
  reopened_at = row.reopened_at;
  evidence_count = evidence_count;
}

module _ (p : Prisma) where
  -- The relation of an optional foreign key.
  abbrev related : Option String → CaDb p → Option Person
  related none s = none
  related (some pid) s = p.find_unique (id pid) s.people

  -- The detail of a row with its relations.
  abbrev pub detail_of : CorrectiveAction → CaDb p → CaDetail
  unfolding to_detail
  detail_of row s =
      to_detail row (related row.assigned_to_id s) (related (some row.created_by_id) s)
        (related row.verified_by_id s)
        (length (p.find_many (λ (e : Evidence). e.corrective_action_id == row.id) s.evidence))

  -- require
  unfoldable pub require_action : String → Exec CaException (CaDb p) CorrectiveAction
  require_action rid = do
    found ← gets (λ s. p.find_unique (id rid) s.corrective_actions)
    or_throw not_found found

  -- getById
  unfoldable pub get_by_id : String → Exec CaException (CaDb p) CaDetail
  unfolding require_action
  get_by_id rid = do row ← require_action rid; gets (detail_of row)

  -- assertTransition
  unfoldable pub assert_transition :
      CaStatus → List CaStatus → String → Exec CaException (CaDb p) (Unit {0})
  assert_transition current allowed action =
      require (includes_status allowed current) (cannot action current)

  -- audit
  unfoldable pub audit : String → String → String → Metadata → Exec CaException (CaDb p) (Unit {0})
  audit actor_id entity_id action metadata = modify (λ s. record s {
    audits =
        p.create (id (p.next_id s.audits))
          (record {
            actor_id = actor_id;
            action = action;
            entity_id = entity_id;
            metadata = metadata;
          })
          s.audits;
  })

  -- The end of each operation: the update, the audit entry, and the row as it is then.
  unfoldable pub finish :
      ℕ
      → String
      → (CorrectiveAction → CorrectiveAction)
      → String
      → String
      → Metadata
      → Exec CaException (CaDb p) CaDetail
  unfolding audit get_by_id
  finish now actor_id change rid action metadata = do
    modify (λ s. record s {
      corrective_actions =
          p.update (id rid) (λ row. record (change row) { updated_at = now }) s.corrective_actions;
    })
    audit actor_id rid action metadata
    get_by_id rid

-- The requests that the controller hands on, each with its body.
pub data Request : Type 0 where
  assigning : String → Option String → Request
  starting reopening : Request
  completing verifying rejecting cancelling : String → Request

-- `dueDate ? ... : row.dueDate`
abbrev pub due_or_kept : Option String → Option String → Option String
due_or_kept given kept = elim (is_present given) [ true ↦ given | false ↦ kept ]

abbrev pub assign_change :
    String → Option String → Option String → CorrectiveAction → CorrectiveAction
assign_change assignee_id due_date kept row = record row {
  assigned_to_id = some assignee_id;
  due_date = due_or_kept due_date kept;
  status = State.assigned;
}

abbrev pub start_change : CorrectiveAction → CorrectiveAction
start_change row = record row { status = State.in_progress }

abbrev pub complete_change : ℕ → String → CorrectiveAction → CorrectiveAction
complete_change now comment row = record row {
  status = State.pending_verification;
  completion_comment = some (trim comment);
  completed_at = some now;
}

-- `row.assignedToId && row.assignedToId === actorId`
abbrev pub is_assignee : String → Option String → Bool
is_assignee actor_id none = false
is_assignee actor_id (some pid) = is_truthy pid && pid == actor_id

abbrev pub verify_change : ℕ → String → String → CorrectiveAction → CorrectiveAction
verify_change now actor_id comment row = record row {
  status = State.closed;
  verification_comment = some (trim comment);
  verified_by_id = some actor_id;
  verified_at = some now;
  closed_by_id = some actor_id;
  closed_at = some now;
}

abbrev pub reject_change : String → String → CorrectiveAction → CorrectiveAction
reject_change actor_id reason row = record row {
  status = State.rejected;
  rejection_reason = some (trim reason);
  verified_by_id = some actor_id;
}

abbrev pub reopen_change : ℕ → CorrectiveAction → CorrectiveAction
reopen_change now row = record row {
  status = State.reopened;
  reopened_at = some now;
  closed_at = none;
  closed_by_id = none;
}

abbrev pub cancel_change : ℕ → String → String → CorrectiveAction → CorrectiveAction
cancel_change now actor_id reason row = record row {
  status = State.cancelled_with_reason;
  cancel_reason = some (trim reason);
  closed_at = some now;
  closed_by_id = some actor_id;
}

module _ (p : Prisma) (now : ℕ) (actor_id : String) where
  -- assign
  unfoldable pub assign : String → String → Option String → Exec CaException (CaDb p) CaDetail
  unfolding require_action assert_transition finish
  assign rid assignee_id due_date = do
    row ← require_action p rid
    assert_transition p row.status assignable "assign"
    found ← gets (λ s. p.find_unique (id assignee_id) s.people)
    assignee ← or_throw inactive_assignee found
    require (is_active assignee.status) inactive_assignee
    finish p now actor_id (assign_change assignee_id due_date row.due_date) rid "CA_ASSIGNED"
        (assignment assignee_id due_date)

  -- start
  unfoldable pub start : String → Exec CaException (CaDb p) CaDetail
  unfolding require_action assert_transition finish
  start rid = do
    row ← require_action p rid
    assert_transition p row.status startable "start"
    finish p now actor_id start_change rid "CA_STARTED" State.empty

  -- complete
  unfoldable pub complete : String → String → Exec CaException (CaDb p) CaDetail
  unfolding require_action assert_transition finish
  complete rid comment = do
    row ← require_action p rid
    assert_transition p row.status completable "complete"
    require (is_truthy (trim comment)) (is_required State.completion_comment)
    finish p now actor_id (complete_change now comment) rid "CA_COMPLETED" State.empty

  -- verify
  unfoldable pub verify : String → String → Exec CaException (CaDb p) CaDetail
  unfolding require_action assert_transition finish
  verify rid comment = do
    row ← require_action p rid
    assert_transition p row.status verifyable "verify"
    require (is_truthy (trim comment)) (is_required State.verification_comment)
    require (not (is_assignee actor_id row.assigned_to_id)) own_action
    finish p now actor_id (verify_change now actor_id comment) rid "CA_VERIFIED_CLOSED" State.empty

  -- reject
  unfoldable pub reject : String → String → Exec CaException (CaDb p) CaDetail
  unfolding require_action assert_transition finish
  reject rid reason = do
    row ← require_action p rid
    assert_transition p row.status rejectable "reject"
    require (is_truthy (trim reason)) (is_required State.rejection_reason)
    finish p now actor_id (reject_change actor_id reason) rid "CA_REJECTED" State.empty

  -- reopen
  unfoldable pub reopen : String → Exec CaException (CaDb p) CaDetail
  unfolding require_action assert_transition finish
  reopen rid = do
    row ← require_action p rid
    assert_transition p row.status reopenable "reopen"
    finish p now actor_id (reopen_change now) rid "CA_REOPENED" State.empty

  -- cancel
  unfoldable pub cancel : String → String → Exec CaException (CaDb p) CaDetail
  unfolding require_action assert_transition finish
  cancel rid reason = do
    row ← require_action p rid
    assert_transition p row.status cancelable "cancel"
    require (is_truthy (trim reason)) (is_required State.cancel_reason)
    finish p now actor_id (cancel_change now actor_id reason) rid "CA_CANCELLED" State.empty

  unfoldable pub handle : String → Request → Exec CaException (CaDb p) CaDetail
  unfolding assign start complete verify reject reopen cancel
  handle rid (assigning assignee_id due_date) = assign rid assignee_id due_date
  handle rid starting = start rid
  handle rid (completing comment) = complete rid comment
  handle rid (verifying comment) = verify rid comment
  handle rid (rejecting reason) = reject rid reason
  handle rid reopening = reopen rid
  handle rid (cancelling reason) = cancel rid reason
