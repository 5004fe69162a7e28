-- ===== src/Inspections/Review/Duty.antt =====
-- Segregation of duty: what a returned check or verification guarantees.
use fg_details_to_be_added_f.Prelude.{
  String, ◌==◌, eq_iff, eq_refl, ◌≡◌, ◌≢◌, ◌⊎◌, inl, inr, sym, ap, ◌∙◌, true, false, Option, some,
  is_some, is_truthy, Bool-cases, arith,
}
use fg_details_to_be_added_f.Records.{
  RecordStatus, submitted, pending_check, pending_verification, verified,
}
use fg_details_to_be_added_f.Workflow.{check, verify, resolve_workflow_transition}
use fg_details_to_be_added_f.Exec.{ok}
use fg_details_to_be_added_f.Prisma.{Prisma, PrismaLaws, id}
use fg_details_to_be_added_f.Inspections.State
use fg_details_to_be_added_f.Inspections.State.{
  RequestUser, InspectionRecord, ApprovalRecord, Permission, World, Db,
}
use fg_details_to_be_added_f.Inspections.Access.{has_permission}
use fg_details_to_be_added_f.Inspections.Detail.{Detail}
use fg_details_to_be_added_f.Inspections.Review.{
  is_prior_check, is_prior_verify, check_mutation, check_record, verify_mutation, verify_record,
}
use fg_details_to_be_added_f.Inspections.Review.Effects.{permitted-ok}
use fg_details_to_be_added_f.Inspections.Review.Writes.{
  Writes, mark_checked, mark_verified, check_mutation-ok, verify_mutation-ok,
}

resolve-check :
    (s t : RecordStatus)
    → resolve_workflow_transition s check ≡ some t
    → (t ≡ pending_verification) × ((s ≡ pending_check) ⊎ (s ≡ submitted))
unfolding resolve_workflow_transition
resolve-check s t h = ground arith

resolve-verify :
    (s t : RecordStatus)
    → resolve_workflow_transition s verify ≡ some t
    → (t ≡ verified) × (s ≡ pending_verification)
unfolding resolve_workflow_transition
resolve-verify s t h = ground arith

module _ (p : Prisma) where
  -- Each record is stored under its own id.
  abbrev pub IsKeyed : Db p → Type 0
  IsKeyed s =
      (k : String) (r : InspectionRecord) → p.find_unique (id k) s.records ≡ some r → r.id ≡ k

  -- No record but the one under `rid` has changed.
  abbrev pub KeepsOthers : String → Db p → Db p → Type 0
  KeepsOthers rid s s' =
      (j : String) → j ≢ rid → p.find_unique (id j) s'.records ≡ p.find_unique (id j) s.records

  module _ (laws : PrismaLaws p) where
    pub Writes-record :
        {s s' : Db p} {rid : String} {f : InspectionRecord → InspectionRecord} {a : ApprovalRecord}
        (r : InspectionRecord)
        → Writes p s s' rid f a
        → p.find_unique (id rid) s.records ≡ some r
        → p.find_unique (id rid) s'.records ≡ some (f r)
    Writes-record {s} {s'} {rid} {f} r w h =
        ap (p.find_unique (id rid)) w.records
        ∙ laws.find_unique-update (id rid) (id rid) f s.records
        ∙ rw (eq_refl rid, h)

    pub Writes-others :
        {s s' : Db p} {rid : String} {f : InspectionRecord → InspectionRecord} {a : ApprovalRecord}
        → Writes p s s' rid f a
        → KeepsOthers rid s s'
    Writes-others {s} {s'} {rid} {f} w j ne =
        ap (p.find_unique (id j)) w.records
        ∙ laws.find_unique-update (id rid) (id j) f s.records
        ∙ elim (Bool-cases (rid == j)) [
          | inl e ↦ absurd (ne (sym ((eq_iff rid j).0 e)))
          | inr e ↦ rw e
        ]

    module _ (w : World) (user : RequestUser) (rid : String) (comment : Option String) (s s' : Db p)
        (d : Detail) (keyed : IsKeyed s) where
      -- A check that returns was made with the permission, on a record that awaits it and that the user
      -- did not create, and that has no approved check yet. It moves that record, and no other, to
      -- pending verification and writes down who checked it.
      pub check_record-ok :
          check_record p w user rid comment s ≡ (ok d, s')
          → (r : InspectionRecord) × (p.find_unique (id rid) s.records ≡ some r)
            × (has_permission user State.records_check ≡ true)
            × ((r.status ≡ pending_check) ⊎ (r.status ≡ submitted))
            × (user.id ≢ r.created_by_id)
            × (is_some (p.find_first (is_prior_check rid) s.approvals) ≡ false)
            × (p.find_unique (id rid) s'.records
                ≡ some (mark_checked w user pending_verification r))
            × KeepsOthers rid s s'
      unfolding check_record
      check_record-ok h =
          let (permitted, admission) =
            permitted-ok p laws user State.records_check rid check comment
              (check_mutation p w user comment) s s' d h in
          let (r, target, admitted, ran) = admission in
          let (to_pending, was) = resolve-check r.status target admitted.leads in
          let own : r.id ≡ rid = keyed rid r admitted.found in
          let (other, no_prior, writes) = check_mutation-ok p w user r target s s' comment ran in
          let writes' = rw own at writes in
          (
            r,
            admitted.found,
            permitted,
            was,
            other,
            rw own at no_prior,
            Writes-record r writes' admitted.found
                ∙ ap (λ t. some (mark_checked w user t r)) to_pending,
            Writes-others writes',
          )

      -- A verification that returns was made with the permission, on a record that awaits it, by a user
      -- who neither created nor checked it, and that has no approved verification yet. It moves that
      -- record, and no other, to verified and writes down who verified it.
      pub verify_record-ok :
          verify_record p w user rid comment s ≡ (ok d, s')
          → (r : InspectionRecord) × (p.find_unique (id rid) s.records ≡ some r)
            × (has_permission user State.records_verify ≡ true)
            × (r.status ≡ pending_verification)
            × (user.id ≢ r.created_by_id)
            × ((c : String) → r.checked_by_id ≡ some c → is_truthy c ≡ true → user.id ≢ c)
            × (is_some (p.find_first (is_prior_verify rid) s.approvals) ≡ false)
            × (p.find_unique (id rid) s'.records ≡ some (mark_verified w user verified r))
            × KeepsOthers rid s s'
      unfolding verify_record
      verify_record-ok h =
          let (permitted, admission) =
            permitted-ok p laws user State.records_verify rid verify comment
              (verify_mutation p w user comment) s s' d h in
          let (r, target, admitted, ran) = admission in
          let (to_verified, was) = resolve-verify r.status target admitted.leads in
          let own : r.id ≡ rid = keyed rid r admitted.found in
          let (other, not_checker, no_prior, writes) =
            verify_mutation-ok p w user r target s s' comment ran in
          let writes' = rw own at writes in
          (
            r,
            admitted.found,
            permitted,
            was,
            other,
            not_checker,
            rw own at no_prior,
            Writes-record r writes' admitted.found
                ∙ ap (λ t. some (mark_verified w user t r)) to_verified,
            Writes-others writes',
          )
