-- ===== src/Inspections/Review/Effects.antt =====
-- What each workflow operation requires and writes, when it returns.
use fg_details_to_be_added_f.Prelude.{String, ◌≡◌, sym, ap, ◌∙◌, true, Option, some, arith}
use fg_details_to_be_added_f.Records.{RecordStatus}
use fg_details_to_be_added_f.Workflow.{Action, resolve_workflow_transition}
use fg_details_to_be_added_f.Exec.{Outcome, ok, Exec, ◌>>◌}
use fg_details_to_be_added_f.Exec.Inversion.{bind-eq-ok, settle-eq-ok}
use fg_details_to_be_added_f.Prisma.{Prisma, PrismaLaws, id}
use fg_details_to_be_added_f.Inspections.State.{
  RequestUser, Permission, InspectionRecord, Exception, Db,
}
use fg_details_to_be_added_f.Inspections.Access.{
  can_view, has_permission, require_permission, find_record_or_throw,
}
use fg_details_to_be_added_f.Inspections.Detail.{Detail, get_by_id}
use fg_details_to_be_added_f.Inspections.Review.{admit_record, admit_action, apply_workflow}

module _ (p : Prisma) where
  pub get_by_id-state :
      (user : RequestUser) (rid : String) (s : Db p) → (get_by_id p user rid s).1 ≡ s
  unfolding get_by_id
  get_by_id-state user rid s = ground arith

  require_permission-ok :
      (user : RequestUser) (permission : Permission) (action : Action) (s t : Db p)
      → require_permission p user permission action s ≡ (ok tt, t)
      → (has_permission user permission ≡ true) × (t ≡ s)
  unfolding require_permission
  require_permission-ok user permission action s t h = (ground arith, ground arith)

  -- What an action needs before its transaction begins.
  pub record IsAdmitted (user : RequestUser) (rid : String) (action : Action) (s : Db p)
      (r : InspectionRecord) (target : RecordStatus) : Type 0 where
    pub found : p.find_unique (id rid) s.records ≡ some r
    pub visible : can_view r user ≡ true
    pub leads : resolve_workflow_transition r.status action ≡ some target

  admit_record-ok :
      (user : RequestUser) (action : Action) (r : InspectionRecord) (s t : Db p)
      (a : InspectionRecord × RecordStatus)
      → admit_record p user action r s ≡ (ok a, t)
      → (can_view r user ≡ true)
        × (resolve_workflow_transition r.status action ≡ some a.1)
        × (r ≡ a.0)
        × (t ≡ s)
  unfolding admit_record
  admit_record-ok user action r s t a h = (ground arith, ground arith, ground arith, ground arith)

  find_record_or_throw-ok :
      (rid : String) (s t : Db p) (r : InspectionRecord)
      → find_record_or_throw p rid s ≡ (ok r, t)
      → (p.find_unique (id rid) s.records ≡ some r) × (t ≡ s)
  unfolding find_record_or_throw
  find_record_or_throw-ok rid s t r h = (ground arith, ground arith)

  pub admit_action-ok :
      (user : RequestUser) (rid : String) (action : Action) (comment : Option String) (s t : Db p)
      (a : InspectionRecord × RecordStatus)
      → admit_action p user rid action comment s ≡ (ok a, t)
      → IsAdmitted user rid action s a.0 a.1 × (t ≡ s)
  unfolding admit_action
  admit_action-ok user rid action comment s t a h =
      admitted (bind-eq-ok (find_record_or_throw p rid) (admit_record p user action) (ground arith))
    where
      admitted :
          (r : InspectionRecord) × (u : Db p) × (find_record_or_throw p rid s ≡ (ok r, u))
            × (admit_record p user action r u ≡ (ok a, t))
          → IsAdmitted user rid action s a.0 a.1 × (t ≡ s)
      admitted (r, u, found, rest) =
          let (first, same) = find_record_or_throw-ok rid s u r found in
          let (visible, leads, same_r, same_t) = admit_record-ok user action r u t a rest in
          (
            record {
              found = first ∙ ap some same_r;
              visible = rw (← same_r) visible;
              leads = rw (← same_r) leads;
            },
            same_t ∙ same,
          )

  module _ (laws : PrismaLaws p) where
    -- A workflow operation that returns was admitted, and left what its transaction wrote.
    pub apply_workflow-ok :
        (user : RequestUser) (rid : String) (action : Action) (comment : Option String)
        (mutate : InspectionRecord → RecordStatus → Exec Exception (Db p) (Unit {0})) (s s' : Db p)
        (d : Detail)
        → apply_workflow p user rid action comment mutate s ≡ (ok d, s')
        → (r : InspectionRecord) × (target : RecordStatus) × IsAdmitted user rid action s r target
          × (mutate r target s ≡ (ok tt, s'))
    unfolding apply_workflow
    apply_workflow-ok user rid action comment mutate s s' d h =
        let (a, t, admitted, rest) =
          bind-eq-ok (admit_action p user rid action comment)
            (λ a. p.transaction (mutate a.0 a.1) >> get_by_id p user rid) h in
        let (u, v, ran, read) =
          bind-eq-ok (p.transaction (mutate a.0 a.1)) (λ _. get_by_id p user rid) rest in
        let (is_admitted, same) = admit_action-ok user rid action comment s t a admitted in
        let last : v ≡ s' =
          sym (get_by_id-state user rid v)
          ∙ ap (λ (r : Outcome Exception Detail × Db p). r.1) read in
        let body =
          settle-eq-ok t (mutate a.0 a.1 t) (sym (laws.transaction_lem (mutate a.0 a.1) t) ∙ ran) in
        (
          a.0,
          a.1,
          is_admitted,
          ap (mutate a.0 a.1) (sym same)
              ∙ body
              ∙ ap (λ x. let r : Outcome Exception (Unit {0}) × Db p = (ok tt, x) in r) last,
        )

    -- The same for an operation that asks for a permission first.
    pub permitted-ok :
        (user : RequestUser) (permission : Permission) (rid : String) (action : Action)
        (comment : Option String)
        (mutate : InspectionRecord → RecordStatus → Exec Exception (Db p) (Unit {0})) (s s' : Db p)
        (d : Detail)
        → (require_permission p user permission action
              >> apply_workflow p user rid action comment mutate)
            s
          ≡ (ok d, s')
        → (has_permission user permission ≡ true)
          × ((r : InspectionRecord) × (target : RecordStatus) × IsAdmitted user rid action s r
                target
              × (mutate r target s ≡ (ok tt, s')))
    permitted-ok user permission rid action comment mutate s s' d h =
        let (u, t, allowed, rest) =
          bind-eq-ok (require_permission p user permission action)
            (λ _. apply_workflow p user rid action comment mutate) h in
        let (permitted, same) = require_permission-ok user permission action s t allowed in
        (
          permitted,
          apply_workflow-ok user rid action comment mutate s s' d
              (ap (apply_workflow p user rid action comment mutate) (sym same) ∙ rest),
        )
