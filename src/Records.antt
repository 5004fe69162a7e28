-- ===== src/Records.antt =====
-- Statuses and pure helpers of inspection records: packages/shared/src/records.ts and
-- packages/shared/src/inspection-records.ts.
pub mod Laws
pub mod Tests
use fg_details_to_be_added_f.Prelude.{
  ℕ, ◌+◌, String, ◌==◌, Bool, true, false, not, Option, none, some, List, [], ◌∷◌, length, ltb, eqb,
  any, lookup, if◌then◌else◌,
}
use fg_details_to_be_added_f.Checklist.Items.{ResponseMap, Item}
use fg_details_to_be_added_f.Checklist.Responses.{
  ResponseStatus, unanswered, passed, failed, marked_na, status_of,
}

-- RecordStatus
pub data RecordStatus : Type 0 where
  draft submitted pending_check checked pending_verification verified : RecordStatus
  completed returned_for_correction resubmitted rejected archived : RecordStatus

-- A number for each status, by which statuses are compared.
abbrev pub status_code : RecordStatus → ℕ
status_code draft = 0
status_code submitted = 1
status_code pending_check = 2
status_code checked = 3
status_code pending_verification = 4
status_code verified = 5
status_code completed = 6
status_code returned_for_correction = 7
status_code resubmitted = 8
status_code rejected = 9
status_code archived = 10

abbrev pub same_status : RecordStatus → RecordStatus → Bool
same_status s t = eqb (status_code s) (status_code t)

abbrev pub has_status : List RecordStatus → RecordStatus → Bool
has_status statuses s = any (λ t. same_status t s) statuses

-- WorkShift
pub data WorkShift : Type 0 where
  morning afternoon night : WorkShift

-- detectWorkShiftForHour
pub detect_work_shift_for_hour : ℕ → WorkShift
detect_work_shift_for_hour hour =
    if ltb hour 14 then morning else if ltb hour 22 then afternoon else night

-- UserRole of roles.ts
pub data UserRole : Type 0 where
  fg_operator fg_supervisor qa_executive food_safety_team_leader : UserRole
  system_administrator auditor : UserRole

abbrev editable_statuses : List RecordStatus
editable_statuses = draft ∷ rejected ∷ returned_for_correction ∷ []

-- isRecordEditable
unfoldable pub is_record_editable : RecordStatus → Bool
is_record_editable s = has_status editable_statuses s

abbrev active_blocking_statuses : List RecordStatus
active_blocking_statuses =
    submitted ∷ pending_check ∷ checked ∷ pending_verification ∷ verified ∷ completed ∷ resubmitted
    ∷ []

-- isActiveBlockingStatus
unfoldable pub is_active_blocking_status : RecordStatus → Bool
is_active_blocking_status s = has_status active_blocking_statuses s

-- nextResponsibleRoleForStatus
unfoldable pub next_responsible_role_for_status : RecordStatus → Option UserRole
next_responsible_role_for_status submitted = some fg_supervisor
next_responsible_role_for_status pending_check = some fg_supervisor
next_responsible_role_for_status resubmitted = some fg_supervisor
next_responsible_role_for_status checked = some qa_executive
next_responsible_role_for_status pending_verification = some qa_executive
next_responsible_role_for_status rejected = some fg_operator
next_responsible_role_for_status returned_for_correction = some fg_operator
next_responsible_role_for_status _ = none

-- ExistingActiveRecordCheck
pub record ExistingRecord : Type 0 where
  pub id : String
  pub status : RecordStatus
  pub created_by_id : String

-- The two reasons of a conflict; the first text names the status.
pub data ConflictReason : Type 0 where
  already : RecordStatus → ConflictReason
  another_operator : ConflictReason

-- DuplicateResolution
pub data DuplicateResolution : Type 0 where
  create : DuplicateResolution
  resume : String → DuplicateResolution
  conflict : ConflictReason → DuplicateResolution

-- resolveDraftDuplicate
unfoldable pub resolve_draft_duplicate : Option ExistingRecord → String → DuplicateResolution
unfolding is_active_blocking_status
resolve_draft_duplicate none requester_id = create
resolve_draft_duplicate (some r) requester_id =
    if same_status r.status archived
    then create
    else if is_active_blocking_status r.status
    then conflict (already r.status)
    else if not (r.created_by_id == requester_id)
    then conflict another_operator
    else resume r.id

-- RecordCounts
pub record RecordCounts : Type 0 where
  pub acceptable : ℕ
  pub failed : ℕ
  pub not_applicable : ℕ
  pub unanswered : ℕ
  pub total : ℕ

abbrev count_one : ResponseStatus → RecordCounts → RecordCounts
count_one passed c = record c { acceptable = c.acceptable + 1 }
count_one ResponseStatus.failed c = record c { failed = c.failed + 1 }
count_one marked_na c = record c { not_applicable = c.not_applicable + 1 }
count_one ResponseStatus.unanswered c = record c { unanswered = c.unanswered + 1 }

-- The loop of computeRecordCounts.
count_loop : RecordCounts → List Item → ResponseMap → RecordCounts
count_loop c [] responses = c
count_loop c (item ∷ items) responses =
    count_loop (count_one (status_of item (lookup item.id responses)) c) items responses

abbrev no_counts : ℕ → RecordCounts
no_counts total = record {
  acceptable = 0;
  failed = 0;
  not_applicable = 0;
  unanswered = 0;
  total = total;
}

-- computeRecordCounts
unfoldable pub compute_record_counts : List Item → ResponseMap → RecordCounts
unfolding count_loop
compute_record_counts items responses = count_loop (no_counts (length items)) items responses
