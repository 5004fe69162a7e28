-- ===== src/Inspections/TruckDrafts/Laws.antt =====
-- What createTruckDraft of apps/api/src/inspection-records can change of the stored records.
use fg_details_to_be_added_f.Prelude.{String, ◌≡◌, inl, inr, refl, Option, Bool-cases, arith}
use fg_details_to_be_added_f.Records.{resolve_draft_duplicate, detect_work_shift_for_hour}
use fg_details_to_be_added_f.Exec.{◌>>◌}
use fg_details_to_be_added_f.Prisma.{Prisma, PrismaLaws, id}
use fg_details_to_be_added_f.Inspections.State.{RequestUser, World, Parsed, success, failure, Db}
use fg_details_to_be_added_f.Inspections.Detail.{build_detail}
use fg_details_to_be_added_f.Inspections.Submit.{freezer_truck}
use fg_details_to_be_added_f.Inspections.Drafts.{
  TruckInput, names_a_vehicle, default_truck_area_label, or_else, shift_key, id_of_shift,
  existing_of, ResolvedVehicle, find_published_template_version, link_task_assignment, draft_of,
}
use fg_details_to_be_added_f.Inspections.Drafts.Opening.{
  IsOpened, IsOpened-refl, continue-IsQuiet, continue-IsOpened, find_published-state,
  resume_or_create-IsOpened, linked_detail_IsQuiet,
}
use fg_details_to_be_added_f.Inspections.TruckDrafts.{
  resolve_vehicle_for_truck_draft, resolve_reinspection_target, is_same_truck, truck_detail_of,
  create_truck, open_truck_draft, create_truck_draft,
}

module _ (p : Prisma) (w : World) (user : RequestUser) where
  resolve_vehicle-state :
      (i : TruckInput) (s : Db p) → (resolve_vehicle_for_truck_draft p w user i s).1 ≡ s
  unfolding resolve_vehicle_for_truck_draft
  resolve_vehicle-state i s = ground arith

  resolve_target-state :
      (target : Option String) (s : Db p) → (resolve_reinspection_target p w user target s).1 ≡ s
  unfolding resolve_reinspection_target
  resolve_target-state target s = ground arith

  module _ (laws : PrismaLaws p) where
    create_truck-IsOpened :
        (i : TruckInput) (v : ResolvedVehicle) (date : String) (shift_id : Option String)
        (area : String) (s : Db p)
        → IsOpened p user s (create_truck p w user i v date shift_id area s).1
    unfolding create_truck draft_of truck_detail_of
    create_truck-IsOpened i v date shift_id area s =
        continue-IsOpened p user s (find_published_template_version p w user freezer_truck s) _
          (find_published-state p user w freezer_truck s)
          (λ version.
            continue-IsOpened p user s
              (resolve_reinspection_target p w user i.reinspection_of_record_id s) _
              (resolve_target-state i.reinspection_of_record_id s)
              (λ target. record {
                rows = inr (
                  _,
                  laws.find_unique-next_id s.records,
                  refl,
                  refl,
                  refl,
                  inr (_, refl, refl, refl),
                );
                approvals = refl;
                versions = refl;
              }))

    open_truck_draft-IsOpened :
        (i : TruckInput) (s : Db p) → IsOpened p user s (open_truck_draft p w user i s).1
    unfolding open_truck_draft
    open_truck_draft-IsOpened i s =
        let date = or_else i.record_date w.colombo_date_only in
        let area = or_else i.area_label default_truck_area_label in
        let shift_id = id_of_shift (
          p.find_unique
            (id (shift_key (or_else i.shift_code (detect_work_shift_for_hour w.colombo_hour))))
            s.shifts) in
        continue-IsOpened p user s (resolve_vehicle_for_truck_draft p w user i s) _
          (resolve_vehicle-state i s)
          (λ v.
            resume_or_create-IsOpened p user w
              (resolve_draft_duplicate
                (existing_of (
                  p.find_newest (is_same_truck p w user s date shift_id v.vehicle_number)
                    s.records))
                user.id)
              (create_truck p w user i v date shift_id area) s
              (create_truck-IsOpened i v date shift_id area s))

    -- Given the laws of the database client: whether it returns or throws, createTruckDraft changes
    -- no stored record, truck, approval or template version. At most one record is new: a draft of
    -- the user, under an id that was free. A truck is new at most together with it and under its id,
    -- with no recommendation and a decision that is pending.
    pub create_truck_draft-IsOpened :
        (parsed : Parsed TruckInput) (s : Db p)
        → IsOpened p user s (create_truck_draft p w user parsed s).1
    unfolding create_truck_draft
    create_truck_draft-IsOpened (failure message) s = IsOpened-refl p user s
    create_truck_draft-IsOpened (success i) s = elim (Bool-cases (names_a_vehicle i)) [
      | inr nameless ↦ rw nameless (IsOpened-refl p user s)
      | inl named ↦ rw named (
          continue-IsQuiet p user s (open_truck_draft p w user i s)
            (λ r. link_task_assignment p w user i.task_assignment_id r.id >> build_detail p r user)
            (open_truck_draft-IsOpened i s)
            (λ r t. linked_detail_IsQuiet p user w i.task_assignment_id r t))
    ]
