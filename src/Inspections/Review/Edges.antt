-- ===== src/Inspections/Review/Edges.antt =====
-- The review operations against the transition table.
use fg_details_to_be_added_f.Prelude.{
  String, ◌≡◌, ◌⊎◌, inl, inr, refl, subst, true, Option, some, Option-cases, arith,
}
use fg_details_to_be_added_f.Records.{RecordStatus}
use fg_details_to_be_added_f.Workflow.{Action, check, verify, return, reject, void}
use fg_details_to_be_added_f.Exec.{ok, Exec, ◌>>=◌, ◌>>◌}
use fg_details_to_be_added_f.Prisma.{Prisma, PrismaLaws}
use fg_details_to_be_added_f.Inspections.State
use fg_details_to_be_added_f.Inspections.State.{
  RequestUser, InspectionRecord, ApprovalRecord, Permission, Exception, World, Db,
}
use fg_details_to_be_added_f.Inspections.Access.{has_permission, require_permission}
use fg_details_to_be_added_f.Inspections.Detail.{Detail}
use fg_details_to_be_added_f.Inspections.Review.{
  trimmed_or_null, required_comment, apply_workflow, check_mutation, check_record, verify_mutation,
  verify_record, return_mutation, return_record, reject_mutation, reject_record, void_mutation,
  void_record, Operation, checking, verifying, returning, rejecting, voiding, review,
}
use fg_details_to_be_added_f.Inspections.Review.Effects.{
  IsAdmitted, apply_workflow-ok, permitted-ok,
}
use fg_details_to_be_added_f.Inspections.Review.Writes.{
  Writes, check_mutation-ok, verify_mutation-ok, return_mutation-ok, reject_mutation-ok,
  void_mutation-ok,
}
use fg_details_to_be_added_f.Inspections.Review.Duty.{IsKeyed}

-- The workflow action of each operation, and the permission that it asks for.
abbrev pub action_of : Operation → Action
action_of checking = check
action_of verifying = verify
action_of returning = return
action_of rejecting = reject
action_of voiding = void

abbrev pub permission_of : Operation → Permission
permission_of checking = State.records_check
permission_of verifying = State.records_verify
permission_of returning = State.records_return
permission_of rejecting = State.records_reject
permission_of voiding = State.records_void

-- The updates that leave the identity of a record alone.
pub record IsIdentityKept (f : InspectionRecord → InspectionRecord) : Type 0 where
  pub same_id : (x : InspectionRecord) → (f x).id ≡ x.id
  pub same_owner : (x : InspectionRecord) → (f x).created_by_id ≡ x.created_by_id
  pub same_version : (x : InspectionRecord) → (f x).template_version_id ≡ x.template_version_id

-- The operations that write down nobody as the checker or the verifier.
pub record IsReviewerKept (f : InspectionRecord → InspectionRecord) : Type 0 where
  pub same_checker : (x : InspectionRecord) → (f x).checked_by_id ≡ x.checked_by_id
  pub same_verifier : (x : InspectionRecord) → (f x).verified_by_id ≡ x.verified_by_id

module _ (p : Prisma) where
  -- What an operation that returns has done.
  pub record IsReviewed (user : RequestUser) (o : Operation) (rid : String) (s s' : Db p)
      : Type 0 where
    pub before : InspectionRecord
    pub target : RecordStatus
    pub permitted : has_permission user (permission_of o) ≡ true
    pub admitted : IsAdmitted p user rid (action_of o) s before target
    pub change : InspectionRecord → InspectionRecord
    pub approval : ApprovalRecord
    pub writes : Writes p s s' rid change approval
    pub moves : (x : InspectionRecord) → (change x).status ≡ target
    pub identity : IsIdentityKept change
    pub reviewers : (o ≡ checking) ⊎ ((o ≡ verifying) ⊎ IsReviewerKept change)

  reviewed :
      {user : RequestUser} {o : Operation} {rid : String} {s s' : Db p} {r : InspectionRecord}
      {target : RecordStatus} {f : InspectionRecord → InspectionRecord} {a : ApprovalRecord}
      → IsKeyed p s
      → has_permission user (permission_of o) ≡ true
      → IsAdmitted p user rid (action_of o) s r target
      → Writes p s s' r.id f a
      → ((x : InspectionRecord) → (f x).status ≡ target)
      → IsIdentityKept f
      → (o ≡ checking) ⊎ ((o ≡ verifying) ⊎ IsReviewerKept f)
      → IsReviewed user o rid s s'
  reviewed {user} {o} {rid} {s} {s'} {r} {target} {f} {a} keyed permitted admitted writes moves
        identity reviewers =
      record {
        before = r;
        target = target;
        permitted = permitted;
        admitted = admitted;
        change = f;
        approval = a;
        writes = subst (λ i. Writes p s s' i f a) (keyed rid r admitted.found) writes;
        moves = moves;
        identity = identity;
        reviewers = reviewers;
      }

  module _ (laws : PrismaLaws p) (w : World) (user : RequestUser) where
    commented-ok :
        (permission : Permission) (rid : String) (action : Action) (comment : Option String)
        (mutate : String → InspectionRecord → RecordStatus → Exec Exception (Db p) (Unit {0}))
        (s s' : Db p) (d : Detail)
        → (require_permission p user permission action
              >> (required_comment p w user action comment >>= λ text.
                  apply_workflow p user rid action (some text) (mutate text)))
            s
          ≡ (ok d, s')
        → (text : String) × (has_permission user permission ≡ true)
          × ((r : InspectionRecord) × (target : RecordStatus) × IsAdmitted p user rid action s r
                target
              × (mutate text r target s ≡ (ok tt, s')))
    unfolding require_permission required_comment
    commented-ok permission rid action comment mutate s s' d h =
        elim (Option-cases (trimmed_or_null comment)) [
          | inl missing ↦ ground arith
          | inr (text, given) ↦ (
            text,
            ground arith,
            apply_workflow-ok p laws user rid action (some text) (mutate text) s s' d
                (ground arith),
          )
        ]

    -- Given the laws of the database client, with each record under its id: a review operation that
    -- returns was permitted and its record visible; it moved that record along an edge of the
    -- transition table from the status that it found, created one approval, changed no identity, and
    -- left answers, attachments, trucks, template versions and corrective actions alone; only a
    -- check or a verification can write down a reviewer.
    pub review-ok :
        (o : Operation) (rid : String) (comment : Option String) (s s' : Db p) (d : Detail)
        → IsKeyed p s
        → review p w user o rid comment s ≡ (ok d, s')
        → IsReviewed user o rid s s'
    unfolding review check_record verify_record return_record reject_record void_record
    review-ok checking rid comment s s' d keyed h =
        let (permitted, admission) =
          permitted-ok p laws user State.records_check rid check comment
            (check_mutation p w user comment) s s' d h in
        let (r, target, admitted, ran) = admission in
        reviewed keyed permitted admitted (check_mutation-ok p w user r target s s' comment ran).2
          (λ x. refl)
          (record { same_id = λ x. refl; same_owner = λ x. refl; same_version = λ x. refl })
          (inl refl)
    review-ok verifying rid comment s s' d keyed h =
        let (permitted, admission) =
          permitted-ok p laws user State.records_verify rid verify comment
            (verify_mutation p w user comment) s s' d h in
        let (r, target, admitted, ran) = admission in
        reviewed keyed permitted admitted (verify_mutation-ok p w user r target s s' comment ran).3
          (λ x. refl)
          (record { same_id = λ x. refl; same_owner = λ x. refl; same_version = λ x. refl })
          (inr (inl refl))
    review-ok returning rid comment s s' d keyed h =
        let (text, permitted, admission) =
          commented-ok State.records_return rid return comment (return_mutation p w user) s s' d
            h in
        let (r, target, admitted, ran) = admission in
        reviewed keyed permitted admitted (return_mutation-ok p w user r target s s' text ran)
          (λ x. refl)
          (record { same_id = λ x. refl; same_owner = λ x. refl; same_version = λ x. refl })
          (inr (inr (record { same_checker = λ x. refl; same_verifier = λ x. refl })))
    review-ok rejecting rid comment s s' d keyed h =
        let (text, permitted, admission) =
          commented-ok State.records_reject rid reject comment (reject_mutation p w user) s s' d
            h in
        let (r, target, admitted, ran) = admission in
        reviewed keyed permitted admitted (reject_mutation-ok p w user r target s s' text ran)
          (λ x. refl)
          (record { same_id = λ x. refl; same_owner = λ x. refl; same_version = λ x. refl })
          (inr (inr (record { same_checker = λ x. refl; same_verifier = λ x. refl })))
    review-ok voiding rid comment s s' d keyed h =
        let (text, permitted, admission) =
          commented-ok State.records_void rid void comment (void_mutation p w user) s s' d h in
        let (r, target, admitted, ran) = admission in
        reviewed keyed permitted admitted (void_mutation-ok p w user r target s s' text ran)
          (λ x. refl)
          (record { same_id = λ x. refl; same_owner = λ x. refl; same_version = λ x. refl })
          (inr (inr (record { same_checker = λ x. refl; same_verifier = λ x. refl })))
