-- ===== src/Inspections/Fixture.antt =====
-- A small database in memory for the tests of apps/api/src/inspection-records: one template, one
-- record of an operator, and the users who review it.
use fg_details_to_be_added_f.Prelude.{
  String, eq_iff, ◌≡◌, refl, sym, ap, subst, ◌∙◌, true, false, Option, none, some, List, [], ◌∷◌,
  arith,
}
use fg_details_to_be_added_f.Checklist.Items
use fg_details_to_be_added_f.Checklist.Items.{Item, Section, Response}
use fg_details_to_be_added_f.Records
use fg_details_to_be_added_f.Records.{RecordStatus, is_record_editable}
use fg_details_to_be_added_f.Workflow.{is_immutable_verified_status}
use fg_details_to_be_added_f.Prisma.{id}
use fg_details_to_be_added_f.Prisma.Memory.{memory}
use fg_details_to_be_added_f.Inspections.State
use fg_details_to_be_added_f.Inspections.State.{
  RequestUser, InspectionRecord, TruckDetail, TemplateVersion, World, Db, Parsed, success, failure,
}
use fg_details_to_be_added_f.Inspections.Review.Atomic.{HasVersions}
use fg_details_to_be_added_f.Inspections.Review.Duty.{IsKeyed}
use fg_details_to_be_added_f.Inspections.History.Sound.{IsSound, FourEyes}

abbrev pub packaging : Item
packaging = record {
  id = "i1";
  label = "Packaging intact";
  sort_order = 1;
  item_type = Items.pass_fail_na;
  options = [];
  is_required = true;
  allow_not_applicable = false;
  requires_evidence_on_fail = false;
  is_critical_failure = true;
  remark_required_on_fail = true;
  corrective_action_required_on_fail = false;
  min_value = none;
  max_value = none;
  default_response = none;
}

abbrev pub version : TemplateVersion
version = record {
  id = "v1";
  template_id = "t1";
  title = "Daily cleaning";
  version_number = 1;
  status = State.published;
  sections = record { id = "s1"; name = "Store"; sort_order = 1; items = packaging ∷ [] } ∷ [];
}

abbrev pub world : World
world = record {
  now = 1000;
  now_iso = "2025-01-06T08:00:00.000Z";
  colombo_date_only = "2025-01-06";
  colombo_hour = 8;
  colombo_time_hm = "08:00";
  upload = λ _. none;
}

abbrev pub operator : RequestUser
operator = record {
  id = "op";
  roles = Records.fg_operator ∷ [];
  permissions = State.records_create ∷ [];
}

abbrev pub supervisor : RequestUser
supervisor = record {
  id = "sup";
  roles = Records.fg_supervisor ∷ [];
  permissions = State.records_check ∷ State.records_return ∷ [];
}

abbrev pub executive : RequestUser
executive = record {
  id = "qa";
  roles = Records.qa_executive ∷ [];
  permissions = State.records_verify ∷ [];
}

abbrev pub row : RecordStatus → InspectionRecord
row status = record {
  id = "r1";
  template_version_id = "v1";
  document_code = "NMS/PPU/CL/24";
  status = status;
  record_date = "2025-01-06";
  shift_id = none;
  area_label = some "Changing Room";
  created_by_id = "op";
  checked_by_id = none;
  verified_by_id = none;
  reinspection_of_id = none;
  submitted_at = none;
  checked_at = none;
  verified_at = none;
  archived_at = none;
}

abbrev pub db_at : RecordStatus → Db memory
db_at status = record {
  records = (id "r1", row status) ∷ [];
  trucks = [];
  approvals = [];
  audit_logs = [];
  notifications = [];
  tasks = [];
  results = [];
  attachments = [];
  corrective_actions = [];
  templates = (id "NMS/PPU/CL/24", record { id = "t1"; current_version_id = some "v1" }) ∷ [];
  versions = (id "v1", version) ∷ [];
  shifts = [];
  vehicles = [];
}

pub only_row :
    (status : RecordStatus) (k : String) (r : InspectionRecord)
    → memory.find_unique (id k) (db_at status).records ≡ some r
    → (k ≡ "r1") × (row status ≡ r)
only_row status k r e = (ground (arith, eq_iff "r1" k), ground arith)

pub db_at-IsKeyed : (status : RecordStatus) → IsKeyed memory (db_at status)
db_at-IsKeyed status k r e =
    ap (λ (x : InspectionRecord). x.id) (sym (only_row status k r e).1)
    ∙ sym (only_row status k r e).0

pub db_at-HasVersions : (status : RecordStatus) → HasVersions memory (db_at status)
db_at-HasVersions status k r e = rw (← (only_row status k r e).1) refl

pub db_at-IsSound :
    (status : RecordStatus)
    → is_immutable_verified_status status ≡ false
    → IsSound memory (db_at status)
db_at-IsSound status h = record {
  keyed = db_at-IsKeyed status;
  versions = db_at-HasVersions status;
  four_eyes = λ k r e. subst FourEyes (only_row status k r e).1 (λ i. cc (sym h ∙ i));
}

-- Answers that pass the one item.
abbrev pub passing : Response
passing = record {
  item_id = "i1";
  value = some (Items.status Items.pass);
  remark = none;
  issue_reason = none;
  correction = none;
  corrective_action = none;
  evidence = none;
}

abbrev pub answers : Option (List (String × Parsed Response))
answers = some (("i1", success passing) ∷ [])
