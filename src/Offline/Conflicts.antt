-- ===== src/Offline/Conflicts.antt =====
-- How the syncOne of apps/web/src/lib/offline/sync-engine.ts classifies what it meets.
use Prim.Native.String as Text
use fg_details_to_be_added_f.Prelude.{
  ℕ, String, ◌+◌, Bool, true, false, ◌||◌, not, Option, none, some, [], ◌∷◌, eqb, ltb, to_lower,
  contains, if◌then◌else◌,
}
use fg_details_to_be_added_f.Records
use fg_details_to_be_added_f.Records.{RecordStatus, same_status, has_status}
use fg_details_to_be_added_f.Exec.{Outcome}
use fg_details_to_be_added_f.Offline.{
  ConflictReason, RecordType, Time, QueueItem, next_retry_delay_ms, saved_on_device, synced,
  sync_failed, conflict_requires_review, server_record_already_submitted, record_already_checked,
  record_already_verified, template_version_changed, user_permission_changed,
  record_date_or_task_invalid, newer_server_version, corrective_action_draft,
}

-- The part of a fetched record that the engine reads.
pub record Fetched : Type 0 where
  pub status : RecordStatus
  pub updated_at : Option Time
  pub template_version_number : ℕ
  pub editable : Bool

-- What a call throws: its HTTP status, or 0, and its message.
pub record ApiError : Type 0 where
  pub status : ℕ
  pub message : String

-- The API's calls, on the state of the server.
pub record Api (S : Type 0) : Type 0 where
  pub fetch : String → S → Outcome ApiError Fetched × S
  pub submit : String → String → String → S → Outcome ApiError (Unit {0}) × S

-- The statuses in which a record is not submitted.
abbrev pub is_open_status : RecordStatus → Bool
is_open_status status = has_status (Records.draft ∷ Records.returned_for_correction ∷ []) status

-- The first part of classifyConflict: by the status of the record.
abbrev pub conflict_of_status : RecordStatus → Option ConflictReason
conflict_of_status status =
    if has_status (Records.checked ∷ Records.pending_verification ∷ []) status
    then some record_already_checked
    else if has_status (Records.verified ∷ Records.completed ∷ []) status
    then some record_already_verified
    else if not (is_open_status status)
    then some server_record_already_submitted
    else none

-- The rest of it: by the message, which is in ASCII, and the HTTP status.
unfoldable pub conflict_of_message : ℕ → String → Option ConflictReason
conflict_of_message status message =
    let lower = to_lower message in
    if contains lower "template"
    then some template_version_changed
    else if contains lower "permission" || eqb status 403
    then some user_permission_changed
    else if contains lower "date" || contains lower "task" || contains lower "assignment"
    then some record_date_or_task_invalid
    else if eqb status 409
    then some server_record_already_submitted
    else none

-- classifyConflict
unfoldable pub classify_conflict : ℕ → String → Option RecordStatus → Option ConflictReason
unfolding conflict_of_message
classify_conflict status message none = conflict_of_message status message
classify_conflict status message (some server_status) = elim (conflict_of_status server_status) [
  | some reason ↦ some reason
  | none ↦ conflict_of_message status message
]

-- `remote > local`, if both are there and Date reads them.
abbrev pub is_newer : Option Time → Option Time → Bool
is_newer (some (some local)) (some (some remote)) = ltb local remote
is_newer _ _ = false

abbrev pub is_other_version : Option ℕ → ℕ → Bool
is_other_version none version = false
is_other_version (some n) version = not (eqb version n)

-- `/locked|already|submitted/i`
unfoldable pub says_submitted : String → Bool
says_submitted message =
    let lower = to_lower message in
    contains lower "locked" || contains lower "already" || contains lower "submitted"

-- `Record status is ${status}`
unfoldable pub status_name : RecordStatus → String
status_name Records.draft = "DRAFT"
status_name Records.submitted = "SUBMITTED"
status_name Records.pending_check = "PENDING_CHECK"
status_name Records.checked = "CHECKED"
status_name Records.pending_verification = "PENDING_VERIFICATION"
status_name Records.verified = "VERIFIED"
status_name Records.completed = "COMPLETED"
status_name Records.returned_for_correction = "RETURNED_FOR_CORRECTION"
status_name Records.resubmitted = "RESUBMITTED"
status_name Records.rejected = "REJECTED"
status_name Records.archived = "ARCHIVED"

abbrev pub Patch : Type 0
Patch = QueueItem → QueueItem

abbrev pub in_conflict : ConflictReason → String → Patch
in_conflict reason message item = record item {
  state = conflict_requires_review;
  conflict_reason = some reason;
  last_error = some message;
}

abbrev pub done : Patch
done item = record item { state = synced; conflict_reason = none; last_error = none }

abbrev pub kept_on_device : Patch
kept_on_device item = record item {
  state = saved_on_device;
  last_error = some "Corrective-action online submit API not available; draft kept on device.";
}

abbrev pub failed : ℕ → ℕ → String → Patch
failed now attempts message item = record item {
  state = sync_failed;
  attempt_count = attempts;
  last_error = some message;
  next_retry_at = some (now + next_retry_delay_ms attempts);
}

abbrev pub reason_or_submitted : Option ConflictReason → ConflictReason
reason_or_submitted none = server_record_already_submitted
reason_or_submitted (some reason) = reason

abbrev pub is_action_draft : RecordType → Bool
is_action_draft corrective_action_draft = true
is_action_draft _ = false

-- The early returns of syncOne after the fetch, in their order.
unfoldable pub early_return : QueueItem → Fetched → Option Patch
unfolding classify_conflict status_name
early_return item server =
    if is_newer item.server_updated_at server.updated_at
    then some (in_conflict newer_server_version "Server record is newer than the offline draft.")
    else if is_other_version item.template_version_number server.template_version_number
    then some (
        in_conflict template_version_changed
          "Template version changed since the offline draft was saved.")
    else if not server.editable
    then some (
        in_conflict
          (reason_or_submitted (classify_conflict 409 "not editable" (some server.status)))
          (Text.◌++◌ "Record status is " (status_name server.status)))
    else if is_action_draft item.record_type
    then some kept_on_device
    else none
