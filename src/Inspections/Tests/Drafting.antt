-- ===== src/Inspections/Tests/Drafting.antt =====
-- The theorems on drafting and submitting at concrete requests of
-- apps/api/src/inspection-records.
use fg_details_to_be_added_f.Prelude.{◌≡◌, refl, true, false, none, some, [], ◌∷◌}
use fg_details_to_be_added_f.Checklist.Items
use fg_details_to_be_added_f.Checklist.Validation
use fg_details_to_be_added_f.Records
use fg_details_to_be_added_f.Records.{is_record_editable}
use fg_details_to_be_added_f.Exec.{ok, err}
use fg_details_to_be_added_f.Prisma.{id}
use fg_details_to_be_added_f.Prisma.Memory.{memory, memory_laws}
use fg_details_to_be_added_f.Inspections.State
use fg_details_to_be_added_f.Inspections.State.{
  InspectionRecord, record_not_found, record_locked, duplicate_record, Db, Parsed, success, failure,
}
use fg_details_to_be_added_f.Inspections.Untouched.{Untouched}
use fg_details_to_be_added_f.Inspections.Fixture.{
  packaging, world, operator, supervisor, row, db_at, passing, answers,
}
use fg_details_to_be_added_f.Inspections.Answers.{SaveDraftInput, save_draft, persist_responses}
use fg_details_to_be_added_f.Inspections.Answers.Saving.{IsSaved, save_draft-IsSaved}
use fg_details_to_be_added_f.Inspections.Submit.{
  SubmitResult, persist_given, submit_transaction, submit,
}
use fg_details_to_be_added_f.Inspections.Submit.Claim.{submit_transaction-twice}
use fg_details_to_be_added_f.Inspections.Submit.Laws.{IsSubmitted, submit-ok}
use fg_details_to_be_added_f.Inspections.Submit.Failing.{submit-KeepsOnErr}
use fg_details_to_be_added_f.Inspections.Drafts.{CleaningInput, open_cleaning_draft}
use fg_details_to_be_added_f.Inspections.Drafts.Laws.{open_cleaning_draft-again}

abbrev draft_db : Db memory
draft_db = db_at Records.draft

abbrev submitted_db : Db memory
submitted_db = (submit memory world operator "r1" (success answers) draft_db).1

abbrev submitted_result : SubmitResult
submitted_result = record {
  record_id = "r1";
  document_code = "NMS/PPU/CL/24";
  status = Records.pending_check;
  submitted_at = 1000;
  counts = record { acceptable = 1; failed = 0; not_applicable = 0; unanswered = 0; total = 1 };
  has_critical_failure = false;
  corrective_actions_created = 0;
  next_responsible_role = some Records.fg_supervisor;
  loading_decision = none;
}

submits_answers :
    submit memory world operator "r1" (success answers) draft_db
    ≡ (ok submitted_result, submitted_db)
unfolding submit is_record_editable fg_details_to_be_added_f.Checklist.Order.flatten_items
    Validation.validate_checklist_responses
    fg_details_to_be_added_f.Checklist.Responses.classify_response_status
    fg_details_to_be_added_f.Inspections.Mapping.to_response_map
    fg_details_to_be_added_f.Inspections.Detail.results_of
    fg_details_to_be_added_f.Inspections.Mapping.result_status_from_normalized
    fg_details_to_be_added_f.Checklist.Responses.is_failure_response Records.compute_record_counts
    fg_details_to_be_added_f.Checklist.Responses.detect_critical_failures
    Records.next_responsible_role_for_status
submits_answers = refl

submit-ok_example :
    (r : InspectionRecord) × (t : Db memory) × (memory.find_unique (id "r1") draft_db.records
      ≡ some r)
    × (r.created_by_id ≡ "op")
    × (is_record_editable r.status ≡ true)
    × Untouched memory draft_db t
    × (persist_given memory world operator r answers draft_db ≡ (ok tt, t))
    × IsSubmitted memory memory_laws world operator r t submitted_db submitted_result
submit-ok_example =
    submit-ok memory memory_laws world operator "r1" answers draft_db submitted_db submitted_result
      submits_answers

submits_nothing : submit memory world operator "r1" (success none) draft_db ≡ (
  err (
      State.record_validation (
        record {
          item_id = "i1";
          code = Validation.required;
          message = "\"Packaging intact\" requires a response";
        }
        ∷ [])),
  (submit memory world operator "r1" (success none) draft_db).1,
)
unfolding submit is_record_editable Validation.validate_checklist_responses
    fg_details_to_be_added_f.Checklist.Order.flatten_items
    fg_details_to_be_added_f.Checklist.Responses.classify_response_status
    fg_details_to_be_added_f.Inspections.Mapping.to_response_map
    fg_details_to_be_added_f.Inspections.Detail.results_of
submits_nothing = refl

submit-KeepsOnErr_example :
    Untouched memory draft_db (submit memory world operator "r1" (success none) draft_db).1
submit-KeepsOnErr_example =
    submit-KeepsOnErr memory memory_laws world operator "r1" (success none) draft_db _ _
      submits_nothing

claims :
    submit_transaction memory world operator (row Records.draft) (packaging ∷ []) [] [] draft_db ≡ (
      ok (0, none),
      (submit_transaction memory world operator
          (row Records.draft)
          (packaging ∷ [])
          []
          []
          draft_db).1,
    )
unfolding submit_transaction is_record_editable
claims = refl

submit_transaction-twice_example :
    (submit_transaction memory world operator
      (row Records.draft)
      (packaging ∷ [])
      []
      []
      (submit_transaction memory world operator
        (row Records.draft)
        (packaging ∷ [])
        []
        []
        draft_db).1).0
    ≡ err record_locked
submit_transaction-twice_example =
    submit_transaction-twice memory memory_laws world operator (row Records.draft) (packaging ∷ [])
      (packaging ∷ []) [] [] [] [] draft_db _ (0, none) claims

abbrev saving : SaveDraftInput
saving = record { responses = ("i1", success passing) ∷ []; area_label = some "Cold store" }

save_draft-IsSaved_example :
    IsSaved memory "r1" draft_db (save_draft memory world operator "r1" (success saving) draft_db).1
save_draft-IsSaved_example = save_draft-IsSaved memory world operator "r1" (success saving) draft_db

abbrev saved_answers : Db memory
saved_answers =
    (persist_responses memory world operator "r1" (packaging ∷ []) saving.responses draft_db).1

abbrev opening : CleaningInput
opening = record {
  record_date = none;
  shift_code = none;
  area_label = some "Cold store";
  task_assignment_id = none;
}

abbrev opened_row : InspectionRecord
opened_row = record (row Records.draft) { id = "r1n"; area_label = some "Cold store" }

opens :
    open_cleaning_draft memory world operator opening draft_db
    ≡ (ok opened_row, (open_cleaning_draft memory world operator opening draft_db).1)
unfolding open_cleaning_draft Records.resolve_draft_duplicate
opens = refl

open_cleaning_draft-again_example :
    open_cleaning_draft memory world supervisor opening
      (open_cleaning_draft memory world operator opening draft_db).1
    ≡ (
      err (duplicate_record Records.another_operator),
      (open_cleaning_draft memory world operator opening draft_db).1,
    )
open_cleaning_draft-again_example =
    open_cleaning_draft-again memory memory_laws world operator supervisor opening draft_db _
      opened_row opens
