-- ===== src/CorrectiveActions/State.antt =====
-- The rows that apps/api/src/corrective-actions reads and writes, its statuses
-- (packages/shared/src/corrective-actions.ts) and its exceptions. A DateTime is a number of
-- milliseconds; a due date is its `YYYY-MM-DD` text.
use fg_details_to_be_added_f.Prelude.{ℕ, String, Option, Bool, List, eqb, any}
use fg_details_to_be_added_f.Prisma.{Prisma}
use fg_details_to_be_added_f.Inspections.State.{Priority}
use fg_details_to_be_added_f.Accounts.State.{UserStatus}

-- CorrectiveActionStatus
pub data CaStatus : Type 0 where
  opened assigned in_progress completed pending_verification rejected : CaStatus
  verified closed reopened overdue cancelled cancelled_with_reason : CaStatus

abbrev pub status_code : CaStatus → ℕ
status_code opened = 0
status_code assigned = 1
status_code in_progress = 2
status_code completed = 3
status_code pending_verification = 4
status_code rejected = 5
status_code verified = 6
status_code closed = 7
status_code reopened = 8
status_code overdue = 9
status_code cancelled = 10
status_code cancelled_with_reason = 11

-- `allowed.includes(current)`
abbrev pub includes_status : List CaStatus → CaStatus → Bool
includes_status allowed current = any (λ s. eqb (status_code s) (status_code current)) allowed

-- CorrectiveAction
pub record CorrectiveAction : Type 0 where
  pub id : String
  pub record_id : Option String
  pub result_id : Option String
  pub action_number : Option String
  pub title : String
  pub description : String
  pub status : CaStatus
  pub priority : Priority
  pub root_cause : Option String
  pub immediate_correction : Option String
  pub completion_comment : Option String
  pub verification_comment : Option String
  pub rejection_reason : Option String
  pub cancel_reason : Option String
  pub created_by_id : String
  pub assigned_to_id : Option String
  pub verified_by_id : Option String
  pub closed_by_id : Option String
  pub due_date : Option String
  pub completed_at : Option ℕ
  pub verified_at : Option ℕ
  pub closed_at : Option ℕ
  pub reopened_at : Option ℕ
  pub created_at : ℕ
  pub updated_at : ℕ

-- CorrectiveActionEvidence
pub record Evidence : Type 0 where
  pub id : String
  pub corrective_action_id : String

-- The columns of a User that this service reads.
pub record Person : Type 0 where
  pub id : String
  pub full_name : String
  pub status : UserStatus

-- The metadata of the audit entries.
pub data Metadata : Type 0 where
  assignment : String → Option String → Metadata
  empty : Metadata

pub record CaAudit : Type 0 where
  pub actor_id : String
  pub action : String
  pub entity_id : String
  pub metadata : Metadata

pub data Required : Type 0 where
  completion_comment verification_comment rejection_reason cancel_reason : Required

-- The exceptions, each with what its message names.
pub data CaException : Type 0 where
  not_found : CaException
  cannot : String → CaStatus → CaException
  inactive_assignee : CaException
  is_required : Required → CaException
  own_action : CaException

module _ (p : Prisma) where
  open p use {Table}

  pub record CaDb : Type 0 where
    pub corrective_actions : Table CorrectiveAction
    pub people : Table Person
    pub evidence : Table Evidence
    pub audits : Table CaAudit
