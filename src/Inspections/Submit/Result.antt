-- ===== src/Inspections/Submit/Result.antt =====
-- What the transaction of a submission gives back.
use fg_details_to_be_added_f.Prelude.{
  ℕ, ◌==◌, ◌≡◌, inl, inr, sym, ap, ◌∙◌, Option, none, some, List, Bool-cases, Option-cases,
  if◌then◌else◌,
}
use fg_details_to_be_added_f.Checklist.Items.{ResponseMap, Item}
use fg_details_to_be_added_f.Loading.{LoadingDecision, compute_recommended_loading_decision}
use fg_details_to_be_added_f.Exec.{Outcome, ok, pure}
use fg_details_to_be_added_f.Exec.Inversion.{bind-eq-ok}
use fg_details_to_be_added_f.Prisma.{Prisma, id}
use fg_details_to_be_added_f.Inspections.State.{
  RequestUser, InspectionRecord, InspectionResult, Exception, World, Db,
}
use fg_details_to_be_added_f.Inspections.Submit.{
  freezer_truck, create_corrective_actions_for_failures, record_loading_decision_recommendation,
  decide_loading, claim, after_claim, submit_transaction,
}

-- The decision that a submission of a truck answers, and no other record.
abbrev pub decision_of : InspectionRecord → List Item → ResponseMap → Option LoadingDecision
decision_of r items responses =
    if r.document_code == freezer_truck
    then some (compute_recommended_loading_decision items responses).decision
    else none

module _ (p : Prisma) (w : World) (user : RequestUser) where
  decide_loading-ok :
      (r : InspectionRecord) (items : List Item) (responses : ResponseMap) (s s' : Db p)
      (d : Option LoadingDecision)
      → decide_loading p w user r items responses s ≡ (ok d, s')
      → d ≡ decision_of r items responses
  unfolding decide_loading record_loading_decision_recommendation
  decide_loading-ok r items responses s s' d h =
      elim (Bool-cases (r.document_code == freezer_truck)) [
        | inr other ↦ let h' = rw other at h in rw other (cc (ap (λ x. x.0) h'))
        | inl truck ↦ elim (Option-cases (p.find_unique (id r.id) s.trucks)) [
          | inl missing ↦ let h' = rw (truck, missing) at h in cc (ap (λ x. x.0) h')
          | inr (t, found) ↦ let h' = rw (truck, found) at h in rw truck (cc (ap (λ x. x.0) h'))
        ]
      ]

  -- The count is that of the loop over the items after the claim, the decision the recommended one.
  pub submit_transaction-done :
      (r : InspectionRecord) (items : List Item) (responses : ResponseMap)
      (results : List InspectionResult) (s s' : Db p) (done : ℕ × Option LoadingDecision)
      → submit_transaction p w user r items responses results s ≡ (ok done, s')
      → (t : Db p) × (u : Db p) × (claim p w user r.id s ≡ (ok tt, t))
        × (create_corrective_actions_for_failures p user r.id items responses results t
            ≡ (ok done.0, u))
        × (done.1 ≡ decision_of r items responses)
  unfolding submit_transaction after_claim
  submit_transaction-done r items responses results s s' done h =
      let (_, t, claimed, rest) =
        bind-eq-ok (claim p w user r.id) (λ _. after_claim p w user r items responses results) h in
      let (created, u, looped, rest') =
        bind-eq-ok (create_corrective_actions_for_failures p user r.id items responses results) _
          rest in
      let (decision, x, decided, last) =
        bind-eq-ok (decide_loading p w user r items responses) (λ d. pure (created, d)) rest' in
      let both : (created, decision) ≡ done = cc (ap (λ y. y.0) last) in
      (
        t,
        u,
        claimed,
        looped
            ∙ ap
                (λ (y : ℕ × Option LoadingDecision).
                  let o : Outcome Exception ℕ × Db p = (ok y.0, u) in o)
                both,
        sym (ap (λ (y : ℕ × Option LoadingDecision). y.1) both)
            ∙ decide_loading-ok r items responses _ x decision decided,
      )
