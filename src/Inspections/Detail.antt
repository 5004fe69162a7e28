-- ===== src/Inspections/Detail.antt =====
-- Reading a record: buildDetail, getById and the review lists of inspection-records.service.ts.
pub mod Laws
use fg_details_to_be_added_f.Prelude.{String, ◌==◌, Bool, ◌&&◌, Option, List, [], ◌∷◌, map}
use fg_details_to_be_added_f.Checklist.Items.{ResponseMap}
use fg_details_to_be_added_f.Records.{
  RecordStatus, pending_check, submitted, resubmitted, pending_verification, checked, has_status,
  is_record_editable,
}
use fg_details_to_be_added_f.Workflow.{check, verify}
use fg_details_to_be_added_f.Exec.{Outcome, Exec, ok, err, ◌>>=◌, ◌>>◌, pure, gets, or_throw}
use fg_details_to_be_added_f.Prisma.{Prisma, id}
use fg_details_to_be_added_f.Inspections.State
use fg_details_to_be_added_f.Inspections.State.{
  RequestUser, InspectionRecord, TruckDetail, TemplateVersion, InspectionResult,
  InspectionAttachment, ApprovalRecord, Exception, row_missing, Db,
}
use fg_details_to_be_added_f.Inspections.Access.{
  require_permission, find_record_or_throw, assert_can_view,
}
use fg_details_to_be_added_f.Inspections.Mapping.{to_response_map}

-- InspectionRecordDetail. The header is the stored record with the title and number of its version;
-- its labels in words, and the names of the users, are left to the client of the model.
pub record Detail : Type 0 where
  pub header : InspectionRecord
  pub version : TemplateVersion
  pub responses : ResponseMap
  pub editable : Bool
  pub truck : Option TruckDetail

module _ (p : Prisma) where
  -- loadTemplateVersionContent
  unfoldable pub load_template_version_content : String → Exec Exception (Db p) TemplateVersion
  load_template_version_content vid = do
    found ← gets (λ s. p.find_unique (id vid) s.versions)
    or_throw row_missing found

  -- `findMany({ where: { recordId }, include: { attachments: true } })`
  unfoldable pub results_of : String → Db p → List (InspectionResult × List InspectionAttachment)
  results_of rid s =
      map (λ r. (r, p.find_many (λ a. a.result_id == r.id) s.attachments))
        (p.find_many (λ r. r.record_id == rid) s.results)

  -- buildDetail
  unfoldable pub build_detail : InspectionRecord → RequestUser → Exec Exception (Db p) Detail
  unfolding load_template_version_content
  build_detail r user = do
    version ← load_template_version_content r.template_version_id
    results ← gets (results_of r.id)
    truck ← gets (λ s. p.find_unique (id r.id) s.trucks)
    pure (record {
      header = r;
      version = version;
      responses = to_response_map results;
      editable = is_record_editable r.status && r.created_by_id == user.id;
      truck = truck;
    })

  -- getById
  unfoldable pub get_by_id : RequestUser → String → Exec Exception (Db p) Detail
  unfolding build_detail find_record_or_throw assert_can_view
  get_by_id user rid = do
    r ← find_record_or_throw p rid
    assert_can_view p r user
    build_detail r user

  -- One round of the loop of listByStatuses: a record that cannot be shown is skipped.
  add_shown : Outcome Exception Detail → List Detail → List Detail
  add_shown (ok d) rest = d ∷ rest
  add_shown (err e) rest = rest

  collect_details : RequestUser → List InspectionRecord → Db p → List Detail
  unfolding build_detail assert_can_view add_shown
  collect_details user [] s = []
  collect_details user (r ∷ rows) s =
      add_shown ((assert_can_view p r user >> build_detail r user) s).0
        (collect_details user rows s)

  -- listByStatuses
  unfoldable pub list_by_statuses :
      RequestUser → List RecordStatus → Exec Exception (Db p) (List Detail)
  unfolding collect_details
  list_by_statuses user statuses = do
    rows ←
        gets
          (λ s. p.find_page (λ r. has_status statuses r.status) (λ r. r.submitted_at) 50 s.records)
    gets (collect_details user rows)

  -- listPendingCheck
  unfoldable pub list_pending_check : RequestUser → Exec Exception (Db p) (List Detail)
  unfolding require_permission list_by_statuses
  list_pending_check user = do
    require_permission p user State.records_check check
    list_by_statuses user (pending_check ∷ submitted ∷ resubmitted ∷ [])

  -- listPendingVerification
  unfoldable pub list_pending_verification : RequestUser → Exec Exception (Db p) (List Detail)
  unfolding require_permission list_by_statuses
  list_pending_verification user = do
    require_permission p user State.records_verify verify
    list_by_statuses user (pending_verification ∷ checked ∷ [])

  -- listApprovalHistory
  unfoldable pub list_approval_history :
      RequestUser → String → Exec Exception (Db p) (List ApprovalRecord)
  unfolding find_record_or_throw assert_can_view
  list_approval_history user rid = do
    r ← find_record_or_throw p rid
    assert_can_view p r user
    gets (λ s. p.find_many (λ a. a.record_id == rid) s.approvals)
