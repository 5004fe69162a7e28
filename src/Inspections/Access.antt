-- ===== src/Inspections/Access.antt =====
-- Who may see, edit and act: the private checks of inspection-records.service.ts.
use fg_details_to_be_added_f.Prelude.{
  ℕ, String, ◌==◌, Bool, ◌&&◌, not, List, [], ◌∷◌, eqb, any, every, is_empty,
}
use fg_details_to_be_added_f.Records.{
  UserRole, fg_operator, fg_supervisor, qa_executive, food_safety_team_leader, system_administrator,
  auditor, is_record_editable,
}
use fg_details_to_be_added_f.Workflow.{Action}
use fg_details_to_be_added_f.Exec.{Exec, ◌>>=◌, ◌>>◌, require, gets, or_throw}
use fg_details_to_be_added_f.Prisma.{Prisma, id}
use fg_details_to_be_added_f.Inspections.State.{
  Permission, RequestUser, InspectionRecord, Exception, record_not_found, record_locked,
  workflow_permission_forbidden, Db,
}
use fg_details_to_be_added_f.Inspections.State

abbrev role_code : UserRole → ℕ
role_code fg_operator = 0
role_code fg_supervisor = 1
role_code qa_executive = 2
role_code food_safety_team_leader = 3
role_code system_administrator = 4
role_code auditor = 5

abbrev pub same_role : UserRole → UserRole → Bool
same_role a b = eqb (role_code a) (role_code b)

-- The place of a key in PERMISSIONS.
abbrev permission_code : Permission → ℕ
permission_code State.users_manage = 0
permission_code State.roles_manage = 1
permission_code State.templates_manage = 2
permission_code State.templates_publish = 3
permission_code State.master_data_manage = 4
permission_code State.records_create = 5
permission_code State.records_read = 6
permission_code State.records_check = 7
permission_code State.records_verify = 8
permission_code State.records_return = 9
permission_code State.records_reject = 10
permission_code State.records_void = 11
permission_code State.records_amend = 12
permission_code State.corrective_actions_manage = 13
permission_code State.corrective_actions_read = 14
permission_code State.reports_read = 15
permission_code State.audit_read = 16
permission_code State.loading_decisions_approve = 17
permission_code State.vehicles_manual_entry = 18

abbrev pub same_permission : Permission → Permission → Bool
same_permission a b = eqb (permission_code a) (permission_code b)

-- hasOnlyRole
unfoldable pub has_only_role : List UserRole → UserRole → Bool
has_only_role roles role = not (is_empty roles) && every (λ r. same_role r role) roles

-- hasAnyRole
unfoldable pub has_any_role : List UserRole → List UserRole → Bool
has_any_role roles allowed = any (λ role. any (λ r. same_role r role) roles) allowed

-- hasPermission
unfoldable pub has_permission : RequestUser → Permission → Bool
has_permission user p = any (λ q. same_permission q p) user.permissions

-- LOADING_DECISION_ROLES
abbrev pub loading_decision_roles : List UserRole
loading_decision_roles =
    fg_supervisor ∷ qa_executive ∷ food_safety_team_leader ∷ system_administrator ∷ []

-- The test of assertCanView, negated: the record may be seen.
unfoldable pub can_view : InspectionRecord → RequestUser → Bool
can_view r user = not (has_only_role user.roles fg_operator && not (r.created_by_id == user.id))

module _ (p : Prisma) where
  -- requirePermission
  unfoldable pub require_permission :
      RequestUser → Permission → Action → Exec Exception (Db p) (Unit {0})
  require_permission user permission action =
      require (has_permission user permission) (workflow_permission_forbidden action)

  -- findRecordOrThrow
  unfoldable pub find_record_or_throw : String → Exec Exception (Db p) InspectionRecord
  find_record_or_throw rid = do
    found ← gets (λ s. p.find_unique (id rid) s.records)
    or_throw (record_not_found rid) found

  -- assertCanView
  unfoldable pub assert_can_view : InspectionRecord → RequestUser → Exec Exception (Db p) (Unit {0})
  assert_can_view r user = require (can_view r user) (record_not_found r.id)

  -- assertOwnerCanEdit
  unfoldable pub assert_owner_can_edit :
      InspectionRecord → RequestUser → Exec Exception (Db p) (Unit {0})
  assert_owner_can_edit r user = do
    require (r.created_by_id == user.id) (record_not_found r.id)
    require (is_record_editable r.status) record_locked
