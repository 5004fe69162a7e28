-- ===== src/Records/Tests.antt =====
-- The theorems on packages/shared/src/inspection-records.ts at concrete records.
use fg_details_to_be_added_f.Prelude.{◌+◌, String, ◌≡◌, ◌↔◌, true, some, []}
use fg_details_to_be_added_f.Checklist.Responses
use fg_details_to_be_added_f.Checklist.Responses.{passed, marked_na}
use fg_details_to_be_added_f.Records.{
  returned_for_correction, archived, is_record_editable, ExistingRecord, create, resume,
  resolve_draft_duplicate, compute_record_counts,
}
use fg_details_to_be_added_f.Records.Laws.{
  tally, resolve_draft_duplicate_outcomes, compute_record_counts_tallies,
}

abbrev returned : ExistingRecord
returned = record { id = "r1"; status = returned_for_correction; created_by_id = "op" }

resolve_draft_duplicate_outcomes_example :
    ((resolve_draft_duplicate (some returned) "op" ≡ create)
      ↔ ((r : ExistingRecord) → some returned ≡ some r → r.status ≡ archived))
    × ((id : String)
        → (resolve_draft_duplicate (some returned) "op" ≡ resume id) ↔ (
            (r : ExistingRecord) × (some returned ≡ some r)
            × (is_record_editable r.status ≡ true)
            × (r.created_by_id ≡ "op")
            × (r.id ≡ id)))
resolve_draft_duplicate_outcomes_example = resolve_draft_duplicate_outcomes (some returned) "op"

compute_record_counts_tallies_example :
    let c = compute_record_counts [] [] in
    (c.acceptable ≡ tally passed [] [])
    × (c.failed ≡ tally Responses.failed [] [])
    × (c.not_applicable ≡ tally marked_na [] [])
    × (c.unanswered ≡ tally Responses.unanswered [] [])
    × (c.total ≡ 0)
    × (c.acceptable + c.failed + c.not_applicable + c.unanswered ≡ c.total)
compute_record_counts_tallies_example = compute_record_counts_tallies [] []
