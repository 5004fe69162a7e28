-- ===== src/Inspections/Tests/Queues.antt =====
-- A review queue of apps/api/src/inspection-records with one record.
use fg_details_to_be_added_f.Prelude.{◌≡◌, refl, true, false, ◌&&◌, none, [], ◌∷◌, every}
use fg_details_to_be_added_f.Records
use fg_details_to_be_added_f.Records.{has_status}
use fg_details_to_be_added_f.Exec.{ok}
use fg_details_to_be_added_f.Prisma.Memory.{memory, memory_laws}
use fg_details_to_be_added_f.Inspections.Access.{can_view}
use fg_details_to_be_added_f.Inspections.Fixture.{version, supervisor, row, db_at}
use fg_details_to_be_added_f.Inspections.Detail.{Detail, list_by_statuses}
use fg_details_to_be_added_f.Inspections.Detail.Laws.{list_by_statuses-every}

abbrev waiting : Detail
waiting = record {
  header = row Records.pending_check;
  version = version;
  responses = [];
  editable = false;
  truck = none;
}

lists :
    list_by_statuses memory supervisor (Records.pending_check ∷ []) (db_at Records.pending_check)
    ≡ (ok (waiting ∷ []), db_at Records.pending_check)
unfolding list_by_statuses can_view fg_details_to_be_added_f.Inspections.Access.has_only_role
    fg_details_to_be_added_f.Inspections.Mapping.to_response_map Records.is_record_editable
    fg_details_to_be_added_f.Inspections.Detail.results_of
lists = refl

list_by_statuses-every_example :
    every
      (λ d. can_view d.header supervisor && has_status (Records.pending_check ∷ []) d.header.status)
      (waiting ∷ [])
    ≡ true
list_by_statuses-every_example =
    list_by_statuses-every memory supervisor memory_laws (Records.pending_check ∷ [])
      (db_at Records.pending_check) (db_at Records.pending_check) (waiting ∷ []) lists
