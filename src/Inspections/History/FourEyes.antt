-- ===== src/Inspections/History/FourEyes.antt =====
-- Segregation of duty as an invariant of the stored records.
use fg_details_to_be_added_f.Prelude.{
  String, ◌≡◌, ◌≢◌, ◌⊎◌, inl, inr, refl, sym, ap, subst, ◌∙◌, true, Option, some, List, Bool-cases,
  arith,
}
use fg_details_to_be_added_f.Checklist.Items.{Response}
use fg_details_to_be_added_f.Inspections.Detail.{Detail}
use fg_details_to_be_added_f.Records.{RecordStatus, is_record_editable}
use fg_details_to_be_added_f.Workflow.{resolve_workflow_transition, is_immutable_verified_status}
use fg_details_to_be_added_f.Exec.{ok}
use fg_details_to_be_added_f.Prisma.{Prisma, PrismaLaws, id, change_if}
use fg_details_to_be_added_f.Inspections.State.{
  RequestUser, InspectionRecord, World, Db, Parsed, success, failure,
}
use fg_details_to_be_added_f.Inspections.Answers.{SaveDraftInput, save_draft}
use fg_details_to_be_added_f.Inspections.Answers.Saving.{relabel, save_draft-IsSaved}
use fg_details_to_be_added_f.Inspections.Submit.{submit}
use fg_details_to_be_added_f.Inspections.Submit.Claim.{mark_submitted}
use fg_details_to_be_added_f.Inspections.Submit.Laws.{submit-ok}
use fg_details_to_be_added_f.Inspections.Submit.Failing.{submit-KeepsOnErr}
use fg_details_to_be_added_f.Inspections.Decision.{approve_loading_decision}
use fg_details_to_be_added_f.Inspections.Decision.Effects.{approve_loading_decision-IsDecided}
use fg_details_to_be_added_f.Inspections.Review.{Operation, checking, verifying, review}
use fg_details_to_be_added_f.Inspections.Review.Duty.{IsKeyed, Writes-record, verify_record-ok}
use fg_details_to_be_added_f.Inspections.Review.Edges.{
  action_of, IsIdentityKept, IsReviewerKept, IsReviewed, review-ok,
}
use fg_details_to_be_added_f.Inspections.Review.Atomic.{review_throws_unchanged}
use fg_details_to_be_added_f.Inspections.History.{
  Step, reviews, saves, submits, decides, Reach, start, next, outcome-cases,
}
use fg_details_to_be_added_f.Inspections.History.Sound.{
  FourEyes, IsSound, IsSoundChange, IsSoundChange-refl, Follows-IsSound, same-Follows,
  change-Follows, update-Follows, Untouched-IsSound, same_row,
}

module _ (p : Prisma) where
  module _ (laws : PrismaLaws p) where
    submitted_change :
        (w : World) (q : InspectionRecord)
        → IsSoundChange p q (change_if (λ r. is_record_editable r.status) (mark_submitted w) q)
    unfolding is_immutable_verified_status
    submitted_change w q = elim (Bool-cases (is_record_editable q.status)) [
      | inl editable ↦ record {
        same_id = ground arith;
        same_version = ground arith;
        eyes = λ e h. absurd (ground arith);
      }
      | inr locked ↦ rw locked (IsSoundChange-refl p q)
    ]

    submit-IsSound :
        (w : World) (user : RequestUser) (rid : String)
        (parsed : Parsed (Option (List (String × Parsed Response)))) (s : Db p)
        → IsSound p s
        → IsSound p (submit p w user rid parsed s).1
    unfolding submit
    submit-IsSound w user rid (failure message) s sound = sound
    submit-IsSound w user rid (success responses) s sound =
        let s' = (submit p w user rid (success responses) s).1 in
        elim (outcome-cases (submit p w user rid (success responses) s)) [
          | inr (e, thrown) ↦
              Untouched-IsSound p laws sound
                (submit-KeepsOnErr p laws w user rid (success responses) s s' e thrown)
          | inl (result, returned) ↦
              let (r, t, found, owner, can, kept, persisted, done) =
                submit-ok p laws w user rid responses s s' result returned in
              Follows-IsSound p (Untouched-IsSound p laws sound kept) done.versions (
                change-Follows p r.id
                  (change_if (λ r. is_record_editable r.status) (mark_submitted w)) t s'
                  (λ k.
                    ap (p.find_unique (id k)) done.written
                    ∙ laws.find_unique-update_where (id r.id) (id k)
                        (λ r. is_record_editable r.status) (mark_submitted w) t.records)
                  (λ q _. submitted_change w q))
        ]

    save-IsSound :
        (w : World) (user : RequestUser) (rid : String) (parsed : Parsed SaveDraftInput) (s : Db p)
        → IsSound p s
        → IsSound p (save_draft p w user rid parsed s).1
    save-IsSound w user rid parsed s sound =
        let s' = (save_draft p w user rid parsed s).1 in
        let saved = save_draft-IsSaved p w user rid parsed s in
        Follows-IsSound p sound saved.versions (elim saved.records [
          | inl same ↦ same-Follows p s s' same
          | inr (label, r, found, e) ↦
              update-Follows p laws rid (relabel label) s s' e
                (λ q _. record { same_id = refl; same_version = refl; eyes = λ eyes. eyes })
        ])

    not_reached :
        (o : Operation) (s t : RecordStatus)
        → resolve_workflow_transition s (action_of o) ≡ some t
        → is_immutable_verified_status t ≡ true
        → (o ≡ verifying) ⊎ ((o ≢ checking) × (is_immutable_verified_status s ≡ true))
    unfolding resolve_workflow_transition is_immutable_verified_status
    not_reached o s t h i = ground arith

    verified_FourEyes :
        (w : World) (user : RequestUser) (rid : String) (comment : Option String) (s s' : Db p)
        (d : Detail) (x : InspectionRecord)
        → IsKeyed p s
        → review p w user verifying rid comment s ≡ (ok d, s')
        → p.find_unique (id rid) s'.records ≡ some x
        → FourEyes x
    unfolding review
    verified_FourEyes w user rid comment s s' d x keyed e found =
        let (r, was, permitted, status, not_owner, not_checker, no_prior, now, others) =
          verify_record-ok p laws w user rid comment s s' d keyed e in
        subst FourEyes (same_row (sym now ∙ found)) (λ _. (user.id, refl, not_owner, not_checker))

    kept_FourEyes :
        (f : InspectionRecord → InspectionRecord) (q : InspectionRecord)
        → IsIdentityKept f
        → IsReviewerKept f
        → is_immutable_verified_status q.status ≡ true
        → FourEyes q
        → FourEyes (f q)
    kept_FourEyes f q identity kept already eyes _ =
        let (v, verifier, not_owner, not_checker) = eyes already in
        (
          v,
          kept.same_verifier q ∙ verifier,
          rw (identity.same_owner q) not_owner,
          λ c e. not_checker c (sym (kept.same_checker q) ∙ e),
        )

    -- What an operation that returns has made of the record.
    reviewed_change :
        (w : World) (user : RequestUser) (o : Operation) (rid : String) (comment : Option String)
        (s s' : Db p) (d : Detail) (q : InspectionRecord)
        → IsKeyed p s
        → review p w user o rid comment s ≡ (ok d, s')
        → p.find_unique (id rid) s.records ≡ some q
        → (done : IsReviewed p user o rid s s') → IsSoundChange p q (done.change q)
    reviewed_change w user o rid comment s s' d q keyed e found done =
        let same : done.before ≡ q = same_row (sym done.admitted.found ∙ found) in
        let leads : resolve_workflow_transition q.status (action_of o) ≡ some done.target =
          ap (λ (x : InspectionRecord). resolve_workflow_transition x.status (action_of o))
            (sym same)
          ∙ done.admitted.leads in
        let by_verifying : o ≡ verifying → FourEyes (done.change q) = λ v.
          verified_FourEyes w user rid comment s s' d (done.change q) keyed
            (subst (λ o. review p w user o rid comment s ≡ (ok d, s')) v e)
            (Writes-record p laws q done.writes found) in
        record {
          same_id = done.identity.same_id q;
          same_version = done.identity.same_version q;
          eyes = λ eyes i.
              elim (not_reached o q.status done.target leads
                (sym (ap is_immutable_verified_status (done.moves q)) ∙ i)) [
                  | inl v ↦ by_verifying v i
                  | inr (unchecked, already) ↦ elim done.reviewers [
                    | inl checks ↦ absurd (unchecked checks)
                    | inr (inl v) ↦ by_verifying v i
                    | inr (inr kept) ↦ kept_FourEyes done.change q done.identity kept already eyes i
                  ]
                ];
        }

    review-IsSound :
        (w : World) (user : RequestUser) (o : Operation) (rid : String) (comment : Option String)
        (s : Db p)
        → IsSound p s
        → IsSound p (review p w user o rid comment s).1
    review-IsSound w user o rid comment s sound =
        let s' = (review p w user o rid comment s).1 in
        elim (outcome-cases (review p w user o rid comment s)) [
          | inr (e, thrown) ↦
              subst (IsSound p)
                (sym (
                  review_throws_unchanged p laws w user o rid comment s s' e sound.keyed
                    sound.versions thrown))
                sound
          | inl (d, returned) ↦
              let done = review-ok p laws w user o rid comment s s' d sound.keyed returned in
              Follows-IsSound p sound done.writes.versions (
                update-Follows p laws rid done.change s s' done.writes.records (λ q found.
                  reviewed_change w user o rid comment s s' d q sound.keyed returned found done))
        ]

    Step-IsSound : (s s' : Db p) → Step p s s' → IsSound p s → IsSound p s'
    Step-IsSound s _ (reviews w user o rid comment) sound =
        review-IsSound w user o rid comment s sound
    Step-IsSound s _ (saves w user rid parsed) sound = save-IsSound w user rid parsed s sound
    Step-IsSound s _ (submits w user rid parsed) sound = submit-IsSound w user rid parsed s sound
    Step-IsSound s _ (decides w user rid parsed) sound =
        let s' = (approve_loading_decision p w user rid parsed s).1 in
        let decided = approve_loading_decision-IsDecided p w user rid parsed s in
        Follows-IsSound p sound decided.versions (same-Follows p s s' decided.records)

    -- Given the laws of the database client: whatever requests to review, save, submit or decide
    -- on loading arrive, in whatever order, from whatever users, and whether they return or throw, a sound database stays
    -- sound. Sound is: each record stands under its id, its template version is there, and if it is
    -- verified, completed or archived, somebody other than its creator and its checker verified it.
    pub Reach-IsSound : (s s' : Db p) → Reach p s s' → IsSound p s → IsSound p s'
    Reach-IsSound s _ start sound = sound
    Reach-IsSound s u (next {t} before step) sound =
        Step-IsSound t u step (Reach-IsSound s t before sound)
