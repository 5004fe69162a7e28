-- ===== src/Inspections/Tests/Opening.antt =====
-- Opening a cleaning draft and a truck draft of apps/api/src/inspection-records.
use fg_details_to_be_added_f.Prelude.{◌≡◌, refl, true, none, some, [], ◌∷◌, is_some}
use fg_details_to_be_added_f.Records
use fg_details_to_be_added_f.Prisma.{id}
use fg_details_to_be_added_f.Prisma.Memory.{memory, memory_laws}
use fg_details_to_be_added_f.Inspections.State
use fg_details_to_be_added_f.Inspections.State.{RequestUser, Db, success}
use fg_details_to_be_added_f.Inspections.Fixture.{world, operator, db_at}
use fg_details_to_be_added_f.Inspections.Drafts.{CleaningInput, TruckInput, create_cleaning_draft}
use fg_details_to_be_added_f.Inspections.Drafts.Opening.{IsOpened, create_cleaning_draft-IsOpened}
use fg_details_to_be_added_f.Inspections.TruckDrafts.{create_truck_draft}
use fg_details_to_be_added_f.Inspections.TruckDrafts.Laws.{create_truck_draft-IsOpened}

abbrev night_shift : CleaningInput
night_shift = record {
  record_date = none;
  shift_code = some Records.night;
  area_label = none;
  task_assignment_id = some "task1";
}

create_cleaning_draft-IsOpened_example :
    IsOpened memory operator
      (db_at Records.verified)
      (create_cleaning_draft memory world operator (success night_shift) (db_at Records.verified)).1
create_cleaning_draft-IsOpened_example =
    create_cleaning_draft-IsOpened memory operator world memory_laws (success night_shift)
      (db_at Records.verified)

abbrev driver : RequestUser
driver = record operator { permissions = State.vehicles_manual_entry ∷ [] }

abbrev truck_templates : Db memory
truck_templates = record (db_at Records.verified) {
  templates = (id "NMS/PPU/CL/30", record { id = "t2"; current_version_id = some "v1" }) ∷ [];
}

abbrev manual : TruckInput
manual = record {
  record_date = none;
  shift_code = none;
  area_label = none;
  vehicle_id = none;
  freezer_truck_number = some "FT-1";
  vehicle_number = some "WP-1234";
  driver_id = none;
  transporter_id = none;
  loading_reference = none;
  product_category = none;
  task_assignment_id = none;
  reinspection_of_record_id = some "r1";
}

-- The request creates a truck under the new record's id.
manual_truck_created :
    is_some (
      memory.find_unique
        (id "r1n")
        (create_truck_draft memory world driver (success manual) truck_templates).1.trucks)
    ≡ true
unfolding create_truck_draft fg_details_to_be_added_f.Inspections.Drafts.names_a_vehicle
    fg_details_to_be_added_f.Inspections.Access.has_permission Records.resolve_draft_duplicate
    fg_details_to_be_added_f.Inspections.Detail.build_detail
manual_truck_created = refl

create_truck_draft-IsOpened_example :
    IsOpened memory driver truck_templates
      (create_truck_draft memory world driver (success manual) truck_templates).1
create_truck_draft-IsOpened_example =
    create_truck_draft-IsOpened memory world driver memory_laws (success manual) truck_templates
