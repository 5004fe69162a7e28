-- ===== src/Inspections/Review/Atomic.antt =====
-- A workflow operation that throws has written nothing.
use fg_details_to_be_added_f.Prelude.{
  String, ◌≡◌, ◌≢◌, inl, inr, refl, sym, ap, ◌∙◌, true, Option, some, is_some, arith, Option-cases,
}
use fg_details_to_be_added_f.Records.{RecordStatus}
use fg_details_to_be_added_f.Workflow.{Action, check, verify, return, reject, void}
use fg_details_to_be_added_f.Exec.{Outcome, ok, err, Exec, ◌>>=◌, ◌>>◌}
use fg_details_to_be_added_f.Exec.Inversion.{bind-eq-err, settle-eq-err, settle-eq-ok}
use fg_details_to_be_added_f.Prisma.{Prisma, PrismaLaws, id}
use fg_details_to_be_added_f.Inspections.State
use fg_details_to_be_added_f.Inspections.State.{
  RequestUser, InspectionRecord, ApprovalRecord, Permission, Exception, World, Db,
}
use fg_details_to_be_added_f.Inspections.Access.{can_view, require_permission}
use fg_details_to_be_added_f.Inspections.Detail.{get_by_id}
use fg_details_to_be_added_f.Inspections.Review.{
  Operation, checking, verifying, returning, rejecting, voiding, review, trimmed_or_null,
  admit_action, apply_workflow, required_comment, check_mutation, check_record, verify_mutation,
  verify_record, return_mutation, return_record, reject_mutation, reject_record, void_mutation,
  void_record,
}
use fg_details_to_be_added_f.Inspections.Review.Effects.{IsAdmitted, admit_action-ok}
use fg_details_to_be_added_f.Inspections.Review.Writes.{
  Writes, check_mutation-ok, verify_mutation-ok, return_mutation-ok, reject_mutation-ok,
  void_mutation-ok,
}
use fg_details_to_be_added_f.Inspections.Review.Duty.{IsKeyed, Writes-record}

module _ (p : Prisma) where
  -- Each record's template version is stored.
  abbrev pub HasVersions : Db p → Type 0
  HasVersions s =
      (k : String) (r : InspectionRecord)
      → p.find_unique (id k) s.records ≡ some r
      → is_some (p.find_unique (id r.template_version_id) s.versions) ≡ true

  get_by_id-returns :
      (user : RequestUser) (rid : String) (s s' : Db p) (r : InspectionRecord) (e : Exception)
      → p.find_unique (id rid) s.records ≡ some r
      → can_view r user ≡ true
      → is_some (p.find_unique (id r.template_version_id) s.versions) ≡ true
      → get_by_id p user rid s ≢ (err e, s')
  unfolding get_by_id
  get_by_id-returns user rid s s' r e found visible version h = ground arith

  admit_action-state :
      (user : RequestUser) (rid : String) (action : Action) (comment : Option String) (s : Db p)
      → (admit_action p user rid action comment s).1 ≡ s
  unfolding admit_action
  admit_action-state user rid action comment s = ground arith

  -- An update that leaves the owner and the template of a record alone.
  abbrev IsMild : (InspectionRecord → InspectionRecord) → Type 0
  IsMild f =
      (x : InspectionRecord)
      → ((f x).created_by_id ≡ x.created_by_id)
        × ((f x).template_version_id ≡ x.template_version_id)

  -- A transaction whose only change to a record is a mild one of the admitted record.
  abbrev IsMildMutation :
      (InspectionRecord → RecordStatus → Exec Exception (Db p) (Unit {0})) → Type 0
  IsMildMutation mutate =
      (r : InspectionRecord) (target : RecordStatus) (s s' : Db p)
      → mutate r target s ≡ (ok tt, s')
      → (f : InspectionRecord → InspectionRecord) × (a : ApprovalRecord) × Writes p s s' r.id f a
        × IsMild f

  can_view-mild :
      (f : InspectionRecord → InspectionRecord) (r : InspectionRecord) (user : RequestUser)
      → IsMild f
      → can_view (f r) user ≡ can_view r user
  unfolding can_view
  can_view-mild f r user h = rw (h r).0 refl

  module _ (laws : PrismaLaws p) where
    -- After the transaction of an admitted action the record can be read back.
    reads_back :
        (user : RequestUser) (rid : String) (action : Action) (m : Exec Exception (Db p) (Unit {0}))
        (s v s' : Db p) (r : InspectionRecord) (target : RecordStatus) (e : Exception)
        → IsKeyed p s
        → HasVersions s
        → IsAdmitted p user rid action s r target
        → ((s s' : Db p)
            → m s ≡ (ok tt, s')
            → (f : InspectionRecord → InspectionRecord) × (a : ApprovalRecord) × Writes p s s' r.id
                f a
              × IsMild f)
        → m s ≡ (ok tt, v)
        → get_by_id p user rid v ≢ (err e, s')
    reads_back user rid action m s v s' r target e keyed versions admitted mild ran read =
        let (f, a, writes, soft) = mild s v ran in
        let own : r.id ≡ rid = keyed rid r admitted.found in
        let found : p.find_unique (id rid) v.records ≡ some (f r) =
          Writes-record p laws r (rw own at writes) admitted.found in
        get_by_id-returns user rid v s' (f r) e found
          (can_view-mild f r user soft ∙ admitted.visible)
          (rw ((soft r).1, writes.versions) (versions rid r admitted.found)) read

    apply_workflow-err :
        (user : RequestUser) (rid : String) (action : Action) (comment : Option String)
        (mutate : InspectionRecord → RecordStatus → Exec Exception (Db p) (Unit {0})) (s s' : Db p)
        (e : Exception)
        → IsKeyed p s
        → HasVersions s
        → IsMildMutation mutate
        → apply_workflow p user rid action comment mutate s ≡ (err e, s')
        → s' ≡ s
    unfolding apply_workflow
    apply_workflow-err user rid action comment mutate s s' e keyed versions mild h =
        elim (bind-eq-err (admit_action p user rid action comment)
          (λ a. p.transaction (mutate a.0 a.1) >> get_by_id p user rid) h) [
            | inl refused ↦
                sym (
                  ap (λ (r : Outcome Exception (InspectionRecord × RecordStatus) × Db p). r.1)
                    refused)
                ∙ admit_action-state user rid action comment s
            | inr (a, t, admitted, rest) ↦
                let (is_admitted, same) =
                  admit_action-ok p user rid action comment s t a admitted in
                elim (bind-eq-err (p.transaction (mutate a.0 a.1)) (λ _. get_by_id p user rid)
                  rest) [
                    | inl failed ↦
                        settle-eq-err t (mutate a.0 a.1 t)
                          (sym (laws.transaction_lem (mutate a.0 a.1) t) ∙ failed)
                        ∙ same
                    | inr (u, v, ran, read) ↦ absurd (
                        reads_back user rid action (mutate a.0 a.1) s v s' a.0 a.1 e keyed versions
                          is_admitted (mild a.0 a.1)
                          (ap (mutate a.0 a.1) (sym same)
                            ∙ settle-eq-ok t (mutate a.0 a.1 t)
                                (sym (laws.transaction_lem (mutate a.0 a.1) t) ∙ ran))
                          read)
                  ]
          ]

    permitted-err :
        (user : RequestUser) (permission : Permission) (rid : String) (action : Action)
        (comment : Option String)
        (mutate : InspectionRecord → RecordStatus → Exec Exception (Db p) (Unit {0})) (s s' : Db p)
        (e : Exception)
        → IsKeyed p s
        → HasVersions s
        → IsMildMutation mutate
        → (require_permission p user permission action
              >> apply_workflow p user rid action comment mutate)
            s
          ≡ (err e, s')
        → s' ≡ s
    unfolding require_permission
    permitted-err user permission rid action comment mutate s s' e keyed versions mild h =
        ground (arith, apply_workflow-err user rid action comment mutate s s' e keyed versions mild)

    commented-err :
        (user : RequestUser) (permission : Permission) (rid : String) (action : Action)
        (comment : Option String)
        (mutate : String → InspectionRecord → RecordStatus → Exec Exception (Db p) (Unit {0}))
        (w : World) (s s' : Db p) (e : Exception)
        → IsKeyed p s
        → HasVersions s
        → ((text : String) → IsMildMutation (mutate text))
        → (require_permission p user permission action
              >> (required_comment p w user action comment >>= λ text.
                  apply_workflow p user rid action (some text) (mutate text)))
            s
          ≡ (err e, s')
        → s' ≡ s
    unfolding require_permission required_comment
    commented-err user permission rid action comment mutate w s s' e keyed versions mild h =
        elim (Option-cases (trimmed_or_null comment)) [
          | inl missing ↦ ground arith
          | inr (text, given) ↦ ground (
            arith,
            apply_workflow-err user rid action (some text) (mutate text) s s' e keyed versions
                (mild text),
          )
        ]

    module _ (w : World) (user : RequestUser) where
      -- Given the laws of the database client, with each record under its id and its template
      -- version stored: a check, verify, return, reject or void that throws leaves the database as
      -- it found it.
      pub review_throws_unchanged :
          (o : Operation) (rid : String) (comment : Option String) (s s' : Db p) (e : Exception)
          → IsKeyed p s
          → HasVersions s
          → review p w user o rid comment s ≡ (err e, s')
          → s' ≡ s
      unfolding review check_record verify_record return_record reject_record void_record
      review_throws_unchanged checking rid comment s s' e keyed versions h =
          permitted-err user State.records_check rid check comment (check_mutation p w user comment)
            s s' e keyed versions
            (λ r target s s' ran.
              (_, _, (check_mutation-ok p w user r target s s' comment ran).2, λ x. (refl, refl)))
            h
      review_throws_unchanged verifying rid comment s s' e keyed versions h =
          permitted-err user State.records_verify rid verify comment
            (verify_mutation p w user comment) s s' e keyed versions
            (λ r target s s' ran.
              (_, _, (verify_mutation-ok p w user r target s s' comment ran).3, λ x. (refl, refl)))
            h
      review_throws_unchanged returning rid comment s s' e keyed versions h =
          commented-err user State.records_return rid return comment (return_mutation p w user) w s
            s' e keyed versions
            (λ text r target s s' ran.
              (_, _, return_mutation-ok p w user r target s s' text ran, λ x. (refl, refl)))
            h
      review_throws_unchanged rejecting rid comment s s' e keyed versions h =
          commented-err user State.records_reject rid reject comment (reject_mutation p w user) w s
            s' e keyed versions
            (λ text r target s s' ran.
              (_, _, reject_mutation-ok p w user r target s s' text ran, λ x. (refl, refl)))
            h
      review_throws_unchanged voiding rid comment s s' e keyed versions h =
          commented-err user State.records_void rid void comment (void_mutation p w user) w s s' e
            keyed versions
            (λ text r target s s' ran.
              (_, _, void_mutation-ok p w user r target s s' text ran, λ x. (refl, refl)))
            h
