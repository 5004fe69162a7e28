-- ===== src/Inspections/Review/Writes.antt =====
-- The transactions of the workflow operations: what they demand, and the rows that they write.
use fg_details_to_be_added_f.Prelude.{
  String, eq_iff, ◌≡◌, ◌≢◌, true, false, Option, some, is_some, is_truthy, arith,
}
use fg_details_to_be_added_f.Records.{RecordStatus}
use fg_details_to_be_added_f.Workflow.{
  assert_check_segregation_of_duty, assert_verify_segregation_of_duty,
}
use fg_details_to_be_added_f.Exec.{ok}
use fg_details_to_be_added_f.Prisma.{Prisma, id}
use fg_details_to_be_added_f.Inspections.State
use fg_details_to_be_added_f.Inspections.State.{
  RequestUser, InspectionRecord, ApprovalRecord, approved, World, Db,
}
use fg_details_to_be_added_f.Inspections.Review.{
  is_prior_check, is_prior_verify, trimmed_or_null, approval_of, check_mutation, verify_mutation,
  return_mutation, reject_mutation, void_mutation,
}

-- The updates of the record.
module _ (w : World) (user : RequestUser) (target : RecordStatus) where
  abbrev pub mark_checked : InspectionRecord → InspectionRecord
  mark_checked x = record x {
    status = target;
    checked_by_id = some user.id;
    checked_at = some w.now;
  }

  abbrev pub mark_verified : InspectionRecord → InspectionRecord
  mark_verified x = record x {
    status = target;
    verified_by_id = some user.id;
    verified_at = some w.now;
  }

abbrev pub mark_status : RecordStatus → InspectionRecord → InspectionRecord
mark_status target x = record x { status = target }

abbrev pub mark_archived : World → RecordStatus → InspectionRecord → InspectionRecord
mark_archived w target x = record x { status = target; archived_at = some w.now }

module _ (p : Prisma) where
  -- One record changed, one approval created; no answer, no truck and no template was touched.
  pub record Writes (s s' : Db p) (rid : String) (f : InspectionRecord → InspectionRecord)
      (a : ApprovalRecord) : Type 0 where
    pub records : s'.records ≡ p.update (id rid) f s.records
    pub approvals : s'.approvals ≡ p.create (id (p.next_id s.approvals)) a s.approvals
    pub results : s'.results ≡ s.results
    pub attachments : s'.attachments ≡ s.attachments
    pub trucks : s'.trucks ≡ s.trucks
    pub versions : s'.versions ≡ s.versions
    pub corrective_actions : s'.corrective_actions ≡ s.corrective_actions

  module _ (w : World) (user : RequestUser) (r : InspectionRecord) (target : RecordStatus)
      (s s' : Db p) where
    pub check_mutation-ok :
        (comment : Option String)
        → check_mutation p w user comment r target s ≡ (ok tt, s')
        → (user.id ≢ r.created_by_id)
          × (is_some (p.find_first (is_prior_check r.id) s.approvals) ≡ false)
          × Writes s s' r.id
              (mark_checked w user target)
              (approval_of p w user r.id State.check approved (trimmed_or_null comment))
    unfolding check_mutation assert_check_segregation_of_duty
    check_mutation-ok comment h =
        (ground (arith, eq_iff user.id r.created_by_id), ground arith, ground arith)

    pub verify_mutation-ok :
        (comment : Option String)
        → verify_mutation p w user comment r target s ≡ (ok tt, s')
        → (user.id ≢ r.created_by_id)
          × ((c : String) → r.checked_by_id ≡ some c → is_truthy c ≡ true → user.id ≢ c)
          × (is_some (p.find_first (is_prior_verify r.id) s.approvals) ≡ false)
          × Writes s s' r.id
              (mark_verified w user target)
              (approval_of p w user r.id State.verify approved (trimmed_or_null comment))
    unfolding verify_mutation assert_verify_segregation_of_duty
    verify_mutation-ok comment h = (
      ground (arith, eq_iff user.id r.created_by_id),
      λ c e t. ground (arith, eq_iff user.id c),
      ground arith,
      ground arith,
    )

    pub return_mutation-ok :
        (comment : String)
        → return_mutation p w user comment r target s ≡ (ok tt, s')
        → Writes s s' r.id
            (mark_status target)
            (approval_of p w user r.id State.return State.rejected (some comment))
    unfolding return_mutation
    return_mutation-ok comment h = ground arith

    pub reject_mutation-ok :
        (comment : String)
        → reject_mutation p w user comment r target s ≡ (ok tt, s')
        → Writes s s' r.id
            (mark_status target)
            (approval_of p w user r.id State.reject State.rejected (some comment))
    unfolding reject_mutation
    reject_mutation-ok comment h = ground arith

    pub void_mutation-ok :
        (comment : String)
        → void_mutation p w user comment r target s ≡ (ok tt, s')
        → Writes s s' r.id
            (mark_archived w target)
            (approval_of p w user r.id State.void State.rejected (some comment))
    unfolding void_mutation
    void_mutation-ok comment h = ground arith
