-- ===== src/Inspections/State.antt =====
-- The rows of apps/api/prisma/schema.prisma that the inspection-records service reads and writes, the
-- exceptions of inspection-records.errors.ts, and the request's user. A DateTime is a number of
-- milliseconds; the calendar date of a record is its `YYYY-MM-DD` text.
use fg_details_to_be_added_f.Prelude.{ℕ, String, Option, List}
use fg_details_to_be_added_f.Checklist.Items.{Section}
use fg_details_to_be_added_f.Checklist.Validation.{ValidationError}
use fg_details_to_be_added_f.Records.{RecordStatus, UserRole, ConflictReason}
use fg_details_to_be_added_f.Workflow.{Action, DutyReason}
use fg_details_to_be_added_f.Loading.{LoadingDecision}
use fg_details_to_be_added_f.Prisma.{Prisma}

-- PermissionKey of permissions.ts
pub data Permission : Type 0 where
  users_manage roles_manage templates_manage templates_publish master_data_manage : Permission
  records_create records_read records_check records_verify records_return : Permission
  records_reject records_void records_amend corrective_actions_manage : Permission
  corrective_actions_read reports_read audit_read loading_decisions_approve : Permission
  vehicles_manual_entry : Permission

-- RequestUser
pub record RequestUser : Type 0 where
  pub id : String
  pub roles : List UserRole
  pub permissions : List Permission

pub record InspectionRecord : Type 0 where
  pub id : String
  pub template_version_id : String
  pub document_code : String
  pub status : RecordStatus
  pub record_date : String
  pub shift_id : Option String
  pub area_label : Option String
  pub created_by_id : String
  pub checked_by_id : Option String
  pub verified_by_id : Option String
  pub reinspection_of_id : Option String
  pub submitted_at : Option ℕ
  pub checked_at : Option ℕ
  pub verified_at : Option ℕ
  pub archived_at : Option ℕ

-- TruckInspectionDetail, under the id of its record
pub record TruckDetail : Type 0 where
  pub id : String
  pub vehicle_id : Option String
  pub driver_id : Option String
  pub transporter_id : Option String
  pub freezer_truck_number : String
  pub vehicle_number : String
  pub inspection_time : Option String
  pub loading_reference : Option String
  pub product_category : Option String
  pub recommended_decision : Option LoadingDecision
  pub loading_decision : LoadingDecision
  pub decided_by_id : Option String
  pub decided_at : Option ℕ
  pub remarks : Option String

pub data ApprovalType : Type 0 where
  check verify return reject void loading_decision : ApprovalType

pub data ApprovalDecision : Type 0 where
  approved rejected : ApprovalDecision

pub record ApprovalRecord : Type 0 where
  pub record_id : String
  pub approval_type : ApprovalType
  pub decision : ApprovalDecision
  pub decided_by_id : String
  pub decided_at : ℕ
  pub comments : Option String

-- The metadata of the audit entries of this service.
pub data AuditMetadata : Type 0 where
  to_status : RecordStatus → List UserRole → Option String → AuditMetadata
  recommended : String → LoadingDecision → AuditMetadata
  decision_changed : String → LoadingDecision → LoadingDecision → Option String → AuditMetadata

pub record AuditLog : Type 0 where
  pub actor_id : String
  pub action : String
  pub entity_type : String
  pub entity_id : Option String
  pub metadata : AuditMetadata

pub data NotificationType : Type 0 where
  record_rejected record_verified record_returned record_checked : NotificationType
  record_pending_verification system : NotificationType

pub record Notification : Type 0 where
  pub user_id : String
  pub type : NotificationType
  pub title : String
  pub body : String
  pub related_entity_type : String
  pub related_entity_id : String

pub data TaskStatus : Type 0 where
  assigned in_progress submitted verified rejected : TaskStatus

pub record TaskAssignment : Type 0 where
  pub id : String
  pub assigned_to_id : String
  pub status : TaskStatus
  pub record_id : Option String

pub data ResultStatus : Type 0 where
  acceptable unacceptable not_applicable pass fail : ResultStatus

-- InspectionResult, unique by the pair of its record and its item
pub record InspectionResult : Type 0 where
  pub id : String
  pub record_id : String
  pub item_id : String
  pub status : ResultStatus
  pub issue_reason : Option String
  pub correction : Option String
  pub corrective_action : Option String
  pub notes : Option String

pub record InspectionAttachment : Type 0 where
  pub id : String
  pub record_id : String
  pub result_id : String
  pub file_url : String
  pub file_name : String
  pub mime_type : String
  pub grid_fs_file_id : Option String
  pub uploaded_by_id : String
  pub uploaded_at : String

pub data Priority : Type 0 where
  low medium high critical : Priority

-- The columns of a CorrectiveAction that this service writes; it is created OPEN.
pub record CorrectiveAction : Type 0 where
  pub record_id : String
  pub result_id : String
  pub title : String
  pub description : String
  pub priority : Priority
  pub created_by_id : String

pub data TemplateStatus : Type 0 where
  draft published archived : TemplateStatus

pub record TemplateVersion : Type 0 where
  pub id : String
  pub template_id : String
  pub title : String
  pub version_number : ℕ
  pub status : TemplateStatus
  pub sections : List Section

pub record Template : Type 0 where
  pub id : String
  pub current_version_id : Option String

pub record Shift : Type 0 where
  pub id : String
  pub name : String

pub record Vehicle : Type 0 where
  pub id : String
  pub vehicle_number : String
  pub freezer_truck_number : Option String
  pub transporter_id : Option String

-- The exceptions that the service throws. `row_missing` is what Prisma throws for an `update` or
-- `findUniqueOrThrow` without its document, and `evidence_failed` what storing a photo throws.
pub data Exception : Type 0 where
  record_not_found : String → Exception
  published_template_not_found : String → Exception
  duplicate_record : ConflictReason → Exception
  record_locked : Exception
  invalid_record_payload : String → Exception
  vehicle_not_found : String → Exception
  manual_vehicle_entry_forbidden : Exception
  not_a_truck_inspection : String → Exception
  loading_decision_forbidden : Exception
  critical_failure_override : Exception
  record_validation : List ValidationError → Exception
  invalid_workflow_transition : RecordStatus → Action → Exception
  workflow_comment_required : Action → Exception
  workflow_segregation_of_duty : DutyReason → Exception
  duplicate_workflow_approval : Action → Exception
  workflow_permission_forbidden : Action → Exception
  row_missing : Exception
  evidence_failed : Exception

-- What `safeParse` gives: the data, or the joined messages of the issues.
pub data Parsed (A : Type 0) : Type 0 where
  success : A → Parsed A
  failure : String → Parsed A

-- What a handler reads of the world: the clock in its several forms, and the evidence store, which
-- gives a file id to an uploaded data URL or fails.
pub record World : Type 0 where
  pub now : ℕ
  pub now_iso : String
  pub colombo_date_only : String
  pub colombo_hour : ℕ
  pub colombo_time_hm : String
  pub upload : String → Option String

module _ (p : Prisma) where
  open p use {Table}

  -- The collections of the database.
  pub record Db : Type 0 where
    pub records : Table InspectionRecord
    pub trucks : Table TruckDetail
    pub approvals : Table ApprovalRecord
    pub audit_logs : Table AuditLog
    pub notifications : Table Notification
    pub tasks : Table TaskAssignment
    pub results : Table InspectionResult
    pub attachments : Table InspectionAttachment
    pub corrective_actions : Table CorrectiveAction
    pub templates : Table Template
    pub versions : Table TemplateVersion
    pub shifts : Table Shift
    pub vehicles : Table Vehicle
