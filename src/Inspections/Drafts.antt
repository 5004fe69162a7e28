-- ===== src/Inspections/Drafts.antt =====
-- Starting and resuming drafts: createCleaningDraft and createTruckDraft of
-- inspection-records.service.ts.
pub mod Laws
pub mod Opening
use fg_details_to_be_added_f.Prelude.{
  ℕ, String, ◌==◌, Bool, true, false, ◌&&◌, not, Option, none, some, List, [], ◌∷◌, is_truthy,
  is_present, if◌then◌else◌,
}
use fg_details_to_be_added_f.Records.{
  RecordStatus, WorkShift, morning, afternoon, night, ExistingRecord, DuplicateResolution,
  resolve_draft_duplicate, detect_work_shift_for_hour,
}
use fg_details_to_be_added_f.Records
use fg_details_to_be_added_f.Loading.{pending}
use fg_details_to_be_added_f.Exec.{
  Exec, ◌>>=◌, ◌>>◌, pure, skip, gets, modify, or_throw, throw, require,
}
use fg_details_to_be_added_f.Prisma.{Prisma, id}
use fg_details_to_be_added_f.Inspections.State
use fg_details_to_be_added_f.Inspections.State.{
  RequestUser, InspectionRecord, TruckDetail, TemplateVersion, TemplateStatus, TaskAssignment,
  TaskStatus, Shift, Vehicle, Exception, record_not_found, published_template_not_found,
  duplicate_record, invalid_record_payload, vehicle_not_found, manual_vehicle_entry_forbidden,
  row_missing, Parsed, success, failure, World, Db,
}
use fg_details_to_be_added_f.Inspections.Access.{has_permission}
use fg_details_to_be_added_f.Inspections.Detail.{Detail, build_detail}
use fg_details_to_be_added_f.Inspections.Submit.{freezer_truck, daily_cleaning}

-- CreateCleaningDraftInput
pub record CleaningInput : Type 0 where
  pub record_date : Option String
  pub shift_code : Option WorkShift
  pub area_label : Option String
  pub task_assignment_id : Option String

-- CreateTruckDraftInput
pub record TruckInput : Type 0 where
  pub record_date : Option String
  pub shift_code : Option WorkShift
  pub area_label : Option String
  pub vehicle_id : Option String
  pub freezer_truck_number : Option String
  pub vehicle_number : Option String
  pub driver_id : Option String
  pub transporter_id : Option String
  pub loading_reference : Option String
  pub product_category : Option String
  pub task_assignment_id : Option String
  pub reinspection_of_record_id : Option String

-- The check that createTruckDraftSchema adds to its fields.
unfoldable pub names_a_vehicle : TruckInput → Bool
names_a_vehicle i =
    if is_present i.vehicle_id
    then true
    else is_present i.freezer_truck_number && is_present i.vehicle_number

abbrev default_cleaning_area_label : String
default_cleaning_area_label = "Finished Goods + Changing Room"

abbrev pub default_truck_area_label : String
default_truck_area_label = "Dispatch / Loading Bay"

-- `a ?? b`
abbrev pub or_else {ℓ} : {A : Type ℓ} → Option A → A → A
or_else none b = b
or_else (some a) b = a

abbrev pub shift_key : WorkShift → String
shift_key morning = "MORNING"
shift_key afternoon = "AFTERNOON"
shift_key night = "NIGHT"

abbrev pub id_of_shift : Option Shift → Option String
id_of_shift none = none
id_of_shift (some s) = some s.id

abbrev pub same_text : Option String → Option String → Bool
same_text none none = true
same_text (some a) (some b) = a == b
same_text _ _ = false

abbrev pub existing_of : Option InspectionRecord → Option ExistingRecord
existing_of none = none
existing_of (some r) =
    some (record { id = r.id; status = r.status; created_by_id = r.created_by_id })

-- What resolveVehicleForTruckDraft gives.
pub record ResolvedVehicle : Type 0 where
  pub vehicle_id : Option String
  pub freezer_truck_number : String
  pub vehicle_number : String
  pub transporter_id : Option String

abbrev is_published : TemplateStatus → Bool
is_published State.published = true
is_published _ = false

-- `assignment.status === "ASSIGNED" ? "IN_PROGRESS" : assignment.status`
abbrev started : TaskStatus → TaskStatus
started State.assigned = State.in_progress
started s = s

module _ (p : Prisma) (w : World) (user : RequestUser) where
  -- findPublishedTemplateVersion
  unfoldable pub find_published_template_version : String → Exec Exception (Db p) TemplateVersion
  find_published_template_version code = do
    template ← gets (λ s. p.find_unique (id code) s.templates)
    t ← or_throw (published_template_not_found code) template
    vid ← or_throw (published_template_not_found code) t.current_version_id
    version ← gets (λ s. p.find_unique (id vid) s.versions)
    v ← or_throw (published_template_not_found code) version
    require (is_published v.status) (published_template_not_found code)
    pure v

  -- The assignment, if it is there and owned by the user.
  owned_task : Option TaskAssignment → Option TaskAssignment
  owned_task none = none
  owned_task (some t) = if t.assigned_to_id == user.id then some t else none

  -- linkTaskAssignment; an assignment that is missing or another user's is ignored.
  unfoldable pub link_task_assignment : Option String → String → Exec Exception (Db p) (Unit {0})
  unfolding owned_task
  link_task_assignment none rid = skip
  link_task_assignment (some tid) rid = do
    found ← gets (λ s. p.find_unique (id tid) s.tasks)
    elim (owned_task found) [
      | none ↦ skip
      | some t ↦ modify (λ s. record s {
        tasks =
            p.update (id tid) (λ x. record x { record_id = some rid; status = started t.status })
              s.tasks;
      })
    ]

  -- `findUniqueOrThrow`
  fetch_record : String → Exec Exception (Db p) InspectionRecord
  fetch_record rid = do
    found ← gets (λ s. p.find_unique (id rid) s.records)
    or_throw row_missing found

  unfoldable pub draft_of :
      String
      → TemplateVersion
      → String
      → String
      → Option String
      → String
      → Option String
      → InspectionRecord
  draft_of rid version code date shift_id area reinspection_of = record {
    id = rid;
    template_version_id = version.id;
    document_code = code;
    status = Records.draft;
    record_date = date;
    shift_id = shift_id;
    area_label = some area;
    created_by_id = user.id;
    checked_by_id = none;
    verified_by_id = none;
    reinspection_of_id = reinspection_of;
    submitted_at = none;
    checked_at = none;
    verified_at = none;
    archived_at = none;
  }

  -- Either the draft that is resumed, or a new one.
  unfoldable pub resume_or_create :
      DuplicateResolution
      → Exec Exception (Db p) InspectionRecord
      → Exec Exception (Db p) InspectionRecord
  unfolding fetch_record
  resume_or_create (Records.conflict reason) make = throw (duplicate_record reason)
  resume_or_create (Records.resume rid) make = fetch_record rid
  resume_or_create Records.create make = make

  -- `inspectionRecord.create` of a cleaning draft.
  insert_cleaning :
      String → Option String → String → TemplateVersion → Exec Exception (Db p) InspectionRecord
  unfolding draft_of
  insert_cleaning date shift_id area version = do
    rid ← gets (λ s. p.next_id s.records)
    let r = draft_of rid version daily_cleaning date shift_id area none
    modify (λ s. record s { records = p.create (id rid) r s.records })
    pure r

  create_cleaning : String → Option String → String → Exec Exception (Db p) InspectionRecord
  unfolding find_published_template_version insert_cleaning
  create_cleaning date shift_id area = do
    version ← find_published_template_version daily_cleaning
    insert_cleaning date shift_id area version

  -- The records for the same document, date, shift and area.
  abbrev pub is_same_cleaning : String → Option String → String → InspectionRecord → Bool
  is_same_cleaning date shift_id area r =
      r.document_code == daily_cleaning
      && (r.record_date == date
          && (same_text r.shift_id shift_id && same_text r.area_label (some area)))

  -- createCleaningDraft from the search for an existing record up to the record.
  open_cleaning : String → String → Option String → Exec Exception (Db p) InspectionRecord
  unfolding resume_or_create create_cleaning
  open_cleaning date area shift_id = do
    existing ← gets (λ s. p.find_newest (is_same_cleaning date shift_id area) s.records)
    resume_or_create (resolve_draft_duplicate (existing_of existing) user.id)
        (create_cleaning date shift_id area)

  -- createCleaningDraft up to the record.
  unfoldable pub open_cleaning_draft : CleaningInput → Exec Exception (Db p) InspectionRecord
  unfolding open_cleaning
  open_cleaning_draft input = do
    shift ← gets (λ s.
        p.find_unique
          (id (shift_key (or_else input.shift_code (detect_work_shift_for_hour w.colombo_hour))))
          s.shifts)
    open_cleaning (or_else input.record_date w.colombo_date_only)
        (or_else input.area_label default_cleaning_area_label) (id_of_shift shift)

  -- createCleaningDraft
  unfoldable pub create_cleaning_draft : Parsed CleaningInput → Exec Exception (Db p) Detail
  unfolding open_cleaning_draft link_task_assignment
  create_cleaning_draft (failure message) = throw (invalid_record_payload message)
  create_cleaning_draft (success input) = do
    r ← open_cleaning_draft input
    link_task_assignment input.task_assignment_id r.id
    build_detail p r user
