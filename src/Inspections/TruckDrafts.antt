-- ===== src/Inspections/TruckDrafts.antt =====
-- createTruckDraft of inspection-records.service.ts: a draft for one vehicle, date and shift.
pub mod Laws
use fg_details_to_be_added_f.Prelude.{
  String, ◌==◌, Bool, false, ◌&&◌, Option, none, some, is_present, if◌then◌else◌,
}
use fg_details_to_be_added_f.Records.{resolve_draft_duplicate, detect_work_shift_for_hour}
use fg_details_to_be_added_f.Loading.{pending}
use fg_details_to_be_added_f.Exec.{Exec, ◌>>=◌, ◌>>◌, pure, gets, modify, or_throw, throw, require}
use fg_details_to_be_added_f.Prisma.{Prisma, id}
use fg_details_to_be_added_f.Inspections.State
use fg_details_to_be_added_f.Inspections.State.{
  RequestUser, InspectionRecord, TruckDetail, Vehicle, Exception, record_not_found,
  invalid_record_payload, vehicle_not_found, manual_vehicle_entry_forbidden, Parsed, success,
  failure, World, Db,
}
use fg_details_to_be_added_f.Inspections.Access.{has_permission}
use fg_details_to_be_added_f.Inspections.Detail.{Detail, build_detail}
use fg_details_to_be_added_f.Inspections.Submit.{freezer_truck}
use fg_details_to_be_added_f.Inspections.Drafts.{
  TruckInput, names_a_vehicle, default_truck_area_label, or_else, shift_key, id_of_shift, same_text,
  existing_of, ResolvedVehicle, find_published_template_version, link_task_assignment, draft_of,
  resume_or_create,
}

-- `a ?? b` of two optional texts.
abbrev first_given : Option String → Option String → Option String
first_given none b = b
first_given (some a) b = some a

module _ (p : Prisma) (w : World) (user : RequestUser) where
  resolved_of : Vehicle → Exec Exception (Db p) ResolvedVehicle
  resolved_of v =
      if is_present v.freezer_truck_number
      then pure (record {
        vehicle_id = some v.id;
        freezer_truck_number = or_else v.freezer_truck_number "";
        vehicle_number = v.vehicle_number;
        transporter_id = v.transporter_id;
      })
      else throw (invalid_record_payload "Selected vehicle has no freezer truck number on file")

  -- resolveVehicleForTruckDraft; the schema has made sure of the manual numbers.
  unfoldable pub resolve_vehicle_for_truck_draft :
      TruckInput → Exec Exception (Db p) ResolvedVehicle
  unfolding resolved_of
  resolve_vehicle_for_truck_draft i =
      if is_present i.vehicle_id
      then (do
        let vid = or_else i.vehicle_id ""
        found ← gets (λ s. p.find_unique (id vid) s.vehicles)
        v ← or_throw (vehicle_not_found vid) found
        resolved_of v)
      else (do
        require (has_permission user State.vehicles_manual_entry) manual_vehicle_entry_forbidden
        pure (record {
          vehicle_id = none;
          freezer_truck_number = or_else i.freezer_truck_number "";
          vehicle_number = or_else i.vehicle_number "";
          transporter_id = none;
        }))

  -- resolveReinspectionTarget
  resolve_reinspection_target : Option String → Exec Exception (Db p) (Option String)
  resolve_reinspection_target target =
      if is_present target
      then (do
        let rid = or_else target ""
        found ← gets (λ s. p.find_unique (id rid) s.records)
        prior ← or_throw (record_not_found rid) found
        pure (some prior.id))
      else pure none

  abbrev vehicle_number_is : Option TruckDetail → String → Bool
  vehicle_number_is none n = false
  vehicle_number_is (some t) n = t.vehicle_number == n

  -- The records for the same date, shift and vehicle.
  abbrev pub is_same_truck : Db p → String → Option String → String → InspectionRecord → Bool
  is_same_truck s date shift_id number r =
      r.document_code == freezer_truck
      && (r.record_date == date
          && (same_text r.shift_id shift_id
              && vehicle_number_is (p.find_unique (id r.id) s.trucks) number))

  truck_detail_of : String → TruckInput → ResolvedVehicle → TruckDetail
  truck_detail_of tid i v = record {
    id = tid;
    vehicle_id = v.vehicle_id;
    driver_id = i.driver_id;
    transporter_id = first_given i.transporter_id v.transporter_id;
    freezer_truck_number = v.freezer_truck_number;
    vehicle_number = v.vehicle_number;
    inspection_time = some w.colombo_time_hm;
    loading_reference = i.loading_reference;
    product_category = i.product_category;
    recommended_decision = none;
    loading_decision = pending;
    decided_by_id = none;
    decided_at = none;
    remarks = none;
  }

  -- `inspectionRecord.create` with its nested truck detail.
  create_truck :
      TruckInput
      → ResolvedVehicle
      → String
      → Option String
      → String
      → Exec Exception (Db p) InspectionRecord
  unfolding find_published_template_version draft_of resolve_reinspection_target truck_detail_of
  create_truck i v date shift_id area = do
    version ← find_published_template_version p w user freezer_truck
    reinspection_of ← resolve_reinspection_target i.reinspection_of_record_id
    rid ← gets (λ s. p.next_id s.records)
    let r = draft_of p w user rid version freezer_truck date shift_id area reinspection_of
    modify (λ s. record s {
      records = p.create (id rid) r s.records;
      trucks = p.create (id rid) (truck_detail_of (p.next_id s.trucks) i v) s.trucks;
    })
    pure r

  -- createTruckDraft up to the record.
  unfoldable pub open_truck_draft : TruckInput → Exec Exception (Db p) InspectionRecord
  unfolding resolve_vehicle_for_truck_draft resume_or_create create_truck
  open_truck_draft i = do
    let date = or_else i.record_date w.colombo_date_only
    let area = or_else i.area_label default_truck_area_label
    shift ← gets (λ s.
        p.find_unique
          (id (shift_key (or_else i.shift_code (detect_work_shift_for_hour w.colombo_hour))))
          s.shifts)
    v ← resolve_vehicle_for_truck_draft i
    existing ←
        gets
          (λ s. p.find_newest (is_same_truck s date (id_of_shift shift) v.vehicle_number) s.records)
    resume_or_create p w user (resolve_draft_duplicate (existing_of existing) user.id)
        (create_truck i v date (id_of_shift shift) area)

  -- createTruckDraft; the parsed input names a vehicle, or `safeParse` has failed.
  unfoldable pub create_truck_draft : Parsed TruckInput → Exec Exception (Db p) Detail
  unfolding open_truck_draft link_task_assignment
  create_truck_draft (failure message) = throw (invalid_record_payload message)
  create_truck_draft (success i) =
      if names_a_vehicle i
      then (do
        r ← open_truck_draft i
        link_task_assignment p w user i.task_assignment_id r.id
        build_detail p r user)
      else throw (
          invalid_record_payload
            "Select a vehicle, or enter freezer truck and vehicle numbers manually")
