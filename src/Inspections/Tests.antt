-- ===== src/Inspections/Tests.antt =====
-- The theorems on apps/api/src/inspection-records at concrete requests.
mod Drafting
mod Loading
mod Actions
mod Queues
mod Opening
use fg_details_to_be_added_f.Prelude.{
  ℕ, String, ◌≡◌, ◌≢◌, ◌⊎◌, inl, inr, refl, sym, ap, Bool, true, false, Option, none, some, List,
  [], ◌∷◌, is_some,
}
use fg_details_to_be_added_f.Records
use fg_details_to_be_added_f.Records.{is_record_editable}
use fg_details_to_be_added_f.Workflow.{check, is_immutable_verified_status}
use fg_details_to_be_added_f.Exec.{Outcome, ok, err}
use fg_details_to_be_added_f.Prisma.{Prisma, PrismaLaws, Key, id}
use fg_details_to_be_added_f.Prisma.Memory.{memory, memory_laws}
use fg_details_to_be_added_f.Inspections.State
use fg_details_to_be_added_f.Inspections.State.{
  InspectionRecord, Exception, workflow_permission_forbidden, Db, Parsed, success, failure,
}
use fg_details_to_be_added_f.Inspections.Access.{has_permission}
use fg_details_to_be_added_f.Inspections.Detail.{Detail}
use fg_details_to_be_added_f.Inspections.Fixture.{
  version, world, operator, supervisor, executive, row, db_at, db_at-IsKeyed, db_at-HasVersions,
  db_at-IsSound,
}
use fg_details_to_be_added_f.Inspections.Review.{
  checking, verifying, returning, review, check_record, verify_record, lacks_comment, is_locked_for,
}
use fg_details_to_be_added_f.Inspections.Review.Atomic.{review_throws_unchanged}
use fg_details_to_be_added_f.Inspections.Review.Duty.{check_record-ok, verify_record-ok}
use fg_details_to_be_added_f.Inspections.Review.Edges.{IsReviewed, review-ok}
use fg_details_to_be_added_f.Inspections.History.{Reach, start, next, reviews}
use fg_details_to_be_added_f.Inspections.History.Sound.{IsSound}
use fg_details_to_be_added_f.Inspections.History.FourEyes.{Reach-IsSound}
use fg_details_to_be_added_f.Inspections.History.Once.{check_record-once}

-- A check of one record.
Reach-IsSound_example :
    IsSound memory
      (review memory world supervisor checking "r1" none (db_at Records.pending_check)).1
unfolding is_immutable_verified_status
Reach-IsSound_example =
    Reach-IsSound memory memory_laws (db_at Records.pending_check) _
      (next start (reviews world supervisor checking "r1" none))
      (db_at-IsSound Records.pending_check refl)

abbrev checked_row : InspectionRecord
checked_row = record (row Records.pending_verification) {
  checked_by_id = some "sup";
  checked_at = some 1000;
}

abbrev shown : InspectionRecord → Detail
shown r = record { header = r; version = version; responses = []; editable = false; truck = none }

abbrev db_checked : Db memory
db_checked = (check_record memory world supervisor "r1" none (db_at Records.pending_check)).1

checks :
    check_record memory world supervisor "r1" none (db_at Records.pending_check)
    ≡ (ok (shown checked_row), db_checked)
unfolding check_record has_permission lacks_comment
    fg_details_to_be_added_f.Workflow.comment_required_for_action
    fg_details_to_be_added_f.Inspections.Access.can_view
    fg_details_to_be_added_f.Inspections.Access.has_only_role is_locked_for
    is_immutable_verified_status fg_details_to_be_added_f.Workflow.resolve_workflow_transition
    fg_details_to_be_added_f.Workflow.assert_check_segregation_of_duty
    fg_details_to_be_added_f.Inspections.Detail.get_by_id
    fg_details_to_be_added_f.Inspections.Mapping.to_response_map is_record_editable
    fg_details_to_be_added_f.Inspections.Detail.results_of
checks = refl

check_record-ok_example : has_permission supervisor State.records_check ≡ true
check_record-ok_example =
    (check_record-ok memory memory_laws world supervisor "r1" none (db_at Records.pending_check)
      db_checked (shown checked_row) (db_at-IsKeyed Records.pending_check) checks).2

review_checks :
    review memory world supervisor checking "r1" none (db_at Records.pending_check)
    ≡ (ok (shown checked_row), db_checked)
unfolding review
review_checks = checks

review-ok_example :
    IsReviewed memory supervisor checking "r1" (db_at Records.pending_check) db_checked
review-ok_example =
    review-ok memory memory_laws world supervisor checking "r1" none (db_at Records.pending_check)
      db_checked (shown checked_row) (db_at-IsKeyed Records.pending_check) review_checks

pending_is_open : is_immutable_verified_status Records.pending_check ≡ false
unfolding is_immutable_verified_status
pending_is_open = refl

-- The record is asked to be returned between the two checks, by a user who may not.
check_record-once_example :
    (check_record memory world executive "r1" none
      (review memory world executive returning "r1" (some "Wash again") db_checked).1).0
    ≢ ok (shown checked_row)
check_record-once_example =
    check_record-once memory "r1" memory_laws world world supervisor executive none none
      (db_at Records.pending_check) db_checked _ (shown checked_row)
      (db_at-IsSound Records.pending_check pending_is_open) checks
      (next start (reviews world executive returning "r1" (some "Wash again"))) (shown checked_row)

abbrev verified_row : InspectionRecord
verified_row = record (row Records.verified) { verified_by_id = some "qa"; verified_at = some 1000 }

abbrev to_verify : Db memory
to_verify = db_at Records.pending_verification

abbrev db_verified : Db memory
db_verified = (verify_record memory world executive "r1" none to_verify).1

verifies :
    verify_record memory world executive "r1" none to_verify
    ≡ (ok (shown verified_row), db_verified)
unfolding verify_record has_permission lacks_comment
    fg_details_to_be_added_f.Workflow.comment_required_for_action
    fg_details_to_be_added_f.Inspections.Access.can_view
    fg_details_to_be_added_f.Inspections.Access.has_only_role is_locked_for
    is_immutable_verified_status fg_details_to_be_added_f.Workflow.resolve_workflow_transition
    fg_details_to_be_added_f.Workflow.assert_verify_segregation_of_duty
    fg_details_to_be_added_f.Inspections.Detail.get_by_id
    fg_details_to_be_added_f.Inspections.Mapping.to_response_map is_record_editable
    fg_details_to_be_added_f.Inspections.Detail.results_of
verifies = refl

forbidden : review memory world operator checking "r1" none (db_at Records.pending_check) ≡ (
  err (workflow_permission_forbidden check),
  (review memory world operator checking "r1" none (db_at Records.pending_check)).1,
)
unfolding review check_record has_permission
forbidden = refl

review_throws_unchanged_example :
    (review memory world operator checking "r1" none (db_at Records.pending_check)).1
    ≡ db_at Records.pending_check
review_throws_unchanged_example =
    review_throws_unchanged memory memory_laws world operator checking "r1" none
      (db_at Records.pending_check) _ (workflow_permission_forbidden check)
      (db_at-IsKeyed Records.pending_check) (db_at-HasVersions Records.pending_check) forbidden

verify_record-ok_example : has_permission executive State.records_verify ≡ true
verify_record-ok_example =
    (verify_record-ok memory memory_laws world executive "r1" none to_verify db_verified
      (shown verified_row) (db_at-IsKeyed Records.pending_verification) verifies).2
