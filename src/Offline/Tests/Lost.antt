-- ===== src/Offline/Tests/Lost.antt =====
-- A submission of apps/web/src/lib/offline whose answer is lost, against the handlers of
-- apps/api/src/inspection-records.
use fg_details_to_be_added_f.Prelude.{◌≡◌, refl, true, false, none, some, List, [], ◌∷◌}
use fg_details_to_be_added_f.Records
use fg_details_to_be_added_f.Checklist.Validation
use fg_details_to_be_added_f.Prisma.{id}
use fg_details_to_be_added_f.Prisma.Memory.{memory, memory_laws}
use fg_details_to_be_added_f.Inspections.State.{InspectionRecord, success}
use fg_details_to_be_added_f.Inspections.Fixture.{world, operator, db_at, db_at-IsKeyed, answers}
use fg_details_to_be_added_f.Offline.{QueueItem, is_synced}
use fg_details_to_be_added_f.Offline.Conflicts.{Patch, is_open_status}
use fg_details_to_be_added_f.Offline.Engine.{verdict}
use fg_details_to_be_added_f.Offline.Server.{
  Delivery, delivered, answer_lost, Wire, Remote, server, sync-settles,
}
use fg_details_to_be_added_f.Offline.Tests.{item_1}

abbrev wire : Wire
wire = record {
  error_of = λ _. record { status = 400; message = "refused" };
  updated_at = λ _. none;
  parse = λ _. success answers;
}

-- The submission arrives, and the proxy answers for it.
abbrev deliveries : List Delivery
deliveries = delivered ∷ answer_lost (record { status = 409; message = "Already in progress" }) ∷ []

abbrev outcome : Patch × Remote memory world operator wire
outcome = verdict (server memory world operator wire) 9 item_1 (deliveries, db_at Records.draft)

lost_answer_synced : is_synced (outcome.0 item_1).state ≡ true
unfolding verdict server fg_details_to_be_added_f.Inspections.Detail.get_by_id
    fg_details_to_be_added_f.Inspections.Access.can_view
    fg_details_to_be_added_f.Inspections.Access.has_only_role Records.is_record_editable
    fg_details_to_be_added_f.Offline.Engine.after_refetch
    fg_details_to_be_added_f.Inspections.Submit.submit
    fg_details_to_be_added_f.Checklist.Order.flatten_items Validation.validate_checklist_responses
    fg_details_to_be_added_f.Checklist.Responses.classify_response_status
    fg_details_to_be_added_f.Inspections.Mapping.to_response_map
    fg_details_to_be_added_f.Inspections.Detail.results_of
    fg_details_to_be_added_f.Inspections.Mapping.result_status_from_normalized
    fg_details_to_be_added_f.Checklist.Responses.is_failure_response
lost_answer_synced = refl

sync-settles_example :
    (r : InspectionRecord) × (memory.find_unique (id "r1") ((outcome.1).1).records ≡ some r)
    × (is_open_status r.status ≡ false)
sync-settles_example =
    sync-settles memory world operator wire memory_laws 9 item_1 item_1 deliveries
      (db_at Records.draft) ((outcome.1).1) ((outcome.1).0) outcome.0 (db_at-IsKeyed Records.draft)
      refl lost_answer_synced
