-- ===== src/Inspections/History/Once.antt =====
-- A record is checked once: the approved check that the first one leaves is never taken away.
use fg_details_to_be_added_f.Prelude.{
  String, eq_refl, ◌≡◌, ◌≢◌, inl, inr, sym, ap, subst, ◌∙◌, Bool, true, ◌||◌, Option, is_some,
  arith,
}
use fg_details_to_be_added_f.Workflow.{check}
use fg_details_to_be_added_f.Exec.{ok}
use fg_details_to_be_added_f.Prisma.{Prisma, PrismaLaws, id}
use fg_details_to_be_added_f.Inspections.State
use fg_details_to_be_added_f.Inspections.State.{
  RequestUser, ApprovalRecord, approved, World, Db, Parsed, success, failure,
}
use fg_details_to_be_added_f.Inspections.Detail.{Detail}
use fg_details_to_be_added_f.Inspections.Answers.{save_draft}
use fg_details_to_be_added_f.Inspections.Answers.Saving.{save_draft-IsSaved}
use fg_details_to_be_added_f.Inspections.Submit.{submit}
use fg_details_to_be_added_f.Inspections.Submit.Laws.{submit-ok}
use fg_details_to_be_added_f.Inspections.Submit.Failing.{submit-KeepsOnErr}
use fg_details_to_be_added_f.Inspections.Decision.{approve_loading_decision}
use fg_details_to_be_added_f.Inspections.Decision.Effects.{approve_loading_decision-IsDecided}
use fg_details_to_be_added_f.Inspections.Review.{
  checking, review, is_prior_check, trimmed_or_null, approval_of, check_mutation, check_record,
}
use fg_details_to_be_added_f.Inspections.Review.Duty.{IsKeyed, check_record-ok}
use fg_details_to_be_added_f.Inspections.Review.Effects.{permitted-ok}
use fg_details_to_be_added_f.Inspections.Review.Writes.{check_mutation-ok}
use fg_details_to_be_added_f.Inspections.Review.Edges.{review-ok}
use fg_details_to_be_added_f.Inspections.Review.Atomic.{review_throws_unchanged}
use fg_details_to_be_added_f.Inspections.History.{
  Step, reviews, saves, submits, decides, Reach, start, next, outcome-cases,
}
use fg_details_to_be_added_f.Inspections.History.Sound.{IsSound}
use fg_details_to_be_added_f.Inspections.History.FourEyes.{Reach-IsSound}

module _ (p : Prisma) (rid : String) where
  -- An approved check of the record is on file.
  abbrev pub has_check : Db p → Bool
  has_check s = is_some (p.find_first (is_prior_check rid) s.approvals)

  same-has_check : (s s' : Db p) → s'.approvals ≡ s.approvals → has_check s' ≡ has_check s
  same-has_check s s' e = ap (λ t. is_some (p.find_first (is_prior_check rid) t)) e

  module _ (laws : PrismaLaws p) where
    create-has_check :
        (s s' : Db p) (a : ApprovalRecord)
        → s'.approvals ≡ p.create (id (p.next_id s.approvals)) a s.approvals
        → has_check s' ≡ (is_prior_check rid a || has_check s)
    create-has_check s s' a e =
        ap (λ t. is_some (p.find_first (is_prior_check rid) t)) e
        ∙ laws.find_first-create (is_prior_check rid) (id (p.next_id s.approvals)) a s.approvals

    check_record-has_check :
        (w : World) (user : RequestUser) (comment : Option String) (s s' : Db p) (d : Detail)
        → IsKeyed p s
        → check_record p w user rid comment s ≡ (ok d, s')
        → has_check s' ≡ true
    unfolding check_record approval_of
    check_record-has_check w user comment s s' d keyed h =
        let (permitted, admission) =
          permitted-ok p laws user State.records_check rid check comment
            (check_mutation p w user comment) s s' d h in
        let (r, target, admitted, ran) = admission in
        let own : r.id ≡ rid = keyed rid r admitted.found in
        let (other, no_prior, writes) = check_mutation-ok p w user r target s s' comment ran in
        create-has_check s s'
          (approval_of p w user r.id State.check approved (trimmed_or_null comment))
          writes.approvals
        ∙ rw (own, eq_refl rid)

    Step-has_check :
        (s s' : Db p) → Step p s s' → IsSound p s → has_check s ≡ true → has_check s' ≡ true
    unfolding submit
    Step-has_check s _ (reviews w user o i comment) sound h =
        let s' = (review p w user o i comment s).1 in
        elim (outcome-cases (review p w user o i comment s)) [
          | inr (e, thrown) ↦
              same-has_check s s' (
                ap (λ (x : Db p). x.approvals)
                  (review_throws_unchanged p laws w user o i comment s s' e sound.keyed
                    sound.versions thrown))
              ∙ h
          | inl (d, returned) ↦
              let done = review-ok p laws w user o i comment s s' d sound.keyed returned in
              create-has_check s s' done.approval done.writes.approvals ∙ rw h (ground arith)
        ]
    Step-has_check s _ (saves w user i parsed) sound h =
        same-has_check s (save_draft p w user i parsed s).1
          (save_draft-IsSaved p w user i parsed s).approvals
        ∙ h
    Step-has_check s _ (submits w user i (failure message)) sound h = h
    Step-has_check s _ (submits w user i (success responses)) sound h =
        let s' = (submit p w user i (success responses) s).1 in
        elim (outcome-cases (submit p w user i (success responses) s)) [
          | inr (e, thrown) ↦
              same-has_check s s'
                (submit-KeepsOnErr p laws w user i (success responses) s s' e thrown).approvals
              ∙ h
          | inl (result, returned) ↦
              let (r, t, found, owner, can, kept, persisted, done) =
                submit-ok p laws w user i responses s s' result returned in
              same-has_check s s' (done.approvals ∙ kept.approvals) ∙ h
        ]
    Step-has_check s _ (decides w user i parsed) sound h =
        let s' = (approve_loading_decision p w user i parsed s).1 in
        elim (approve_loading_decision-IsDecided p w user i parsed s).approvals [
          | inl same ↦ same-has_check s s' same ∙ h
          | inr (a, created) ↦ create-has_check s s' a created ∙ rw h (ground arith)
        ]

    Reach-has_check :
        (s s' : Db p) → Reach p s s' → IsSound p s → has_check s ≡ true → has_check s' ≡ true
    Reach-has_check s _ start sound h = h
    Reach-has_check s u (next {t} before step) sound h =
        Step-has_check t u step (Reach-IsSound p laws s t before sound)
          (Reach-has_check s t before sound h)

    -- Given the laws of the database client and a sound database: once a check of a record has
    -- returned, no later check of that record returns, whoever asks and whatever requests to review,
    -- save, submit or decide on loading happened in between, also after the record was returned for correction and
    -- submitted again.
    pub check_record-once :
        (w w' : World) (user user' : RequestUser) (comment comment' : Option String)
        (s s' s'' : Db p) (d : Detail)
        → IsSound p s
        → check_record p w user rid comment s ≡ (ok d, s')
        → Reach p s' s''
        → (d' : Detail) → (check_record p w' user' rid comment' s'').0 ≢ ok d'
    unfolding review
    check_record-once w w' user user' comment comment' s s' s'' d sound h between d' again =
        let first : Reach p s s' =
          subst (Reach p s) (ap (λ r. r.1) h) (next start (reviews w user checking rid comment)) in
        let sound' = Reach-IsSound p laws s s' first sound in
        let sound'' = Reach-IsSound p laws s' s'' between sound' in
        let on_file =
          Reach-has_check s' s'' between sound'
            (check_record-has_check w user comment s s' d sound.keyed h) in
        let ran = (check_record p w' user' rid comment' s'').1 in
        let (r, found, permitted, status, other, no_prior, now, others) =
          check_record-ok p laws w' user' rid comment' s'' ran d' sound''.keyed
            (ap (λ x. (x, ran)) again) in
        cc (sym on_file ∙ no_prior)
