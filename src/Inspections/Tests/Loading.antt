-- ===== src/Inspections/Tests/Loading.antt =====
-- The theorems on the loading decision at concrete requests of apps/api/src/inspection-records.
use fg_details_to_be_added_f.Prelude.{◌≡◌, refl, subst, none, some, [], ◌∷◌, arith}
use fg_details_to_be_added_f.Records
use fg_details_to_be_added_f.Loading
use fg_details_to_be_added_f.Prisma.{id}
use fg_details_to_be_added_f.Prisma.Memory.{memory, memory_laws}
use fg_details_to_be_added_f.Inspections.State.{TruckDetail, Db, success}
use fg_details_to_be_added_f.Inspections.Fixture.{world, supervisor, db_at}
use fg_details_to_be_added_f.Inspections.Decision.{DecisionInput, approve_loading_decision}
use fg_details_to_be_added_f.Inspections.Decision.Laws.{
  IsHonest, AllHonest, approve_loading_decision-AllHonest,
}

abbrev truck : TruckDetail
truck = record {
  id = "t1";
  vehicle_id = none;
  driver_id = none;
  transporter_id = none;
  freezer_truck_number = "F1";
  vehicle_number = "V1";
  inspection_time = none;
  loading_reference = none;
  product_category = none;
  recommended_decision = some Loading.loading_blocked;
  loading_decision = Loading.loading_blocked;
  decided_by_id = none;
  decided_at = none;
  remarks = none;
}

abbrev truck_db : Db memory
truck_db = record (db_at Records.pending_check) { trucks = (id "r1", truck) ∷ [] }

abbrev approving : DecisionInput
approving = record { decision = Loading.approved_for_loading; remarks = none }

truck_db-AllHonest : AllHonest memory truck_db
truck_db-AllHonest k t e = subst IsHonest same (λ _. refl)
  where
    same : truck ≡ t
    same = ground arith

approve_loading_decision-AllHonest_example :
    AllHonest memory
      (approve_loading_decision memory world supervisor "r1" (success approving) truck_db).1
approve_loading_decision-AllHonest_example =
    approve_loading_decision-AllHonest memory memory_laws world supervisor "r1" (success approving)
      truck_db truck_db-AllHonest
