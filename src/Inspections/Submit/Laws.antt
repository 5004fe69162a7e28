-- ===== src/Inspections/Submit/Laws.antt =====
-- What a returned submission means.
use fg_details_to_be_added_f.Prelude.{
  ℕ, String, eq_iff, ◌≡◌, inl, inr, refl, sym, ap, subst, ◌∙◌, Bool, true, false, Option, none,
  some, List, map, Option-cases, arith,
}
use fg_details_to_be_added_f.Checklist.Items.{Response}
use fg_details_to_be_added_f.Checklist.Order.{flatten_items}
use fg_details_to_be_added_f.Checklist.Validation.{validate_checklist_responses}
use fg_details_to_be_added_f.Records.{is_record_editable}
use fg_details_to_be_added_f.Loading.{LoadingDecision}
use fg_details_to_be_added_f.Exec.{Outcome, ok, Exec, ◌>>=◌, ◌>>◌, pure, require}
use fg_details_to_be_added_f.Exec.Inversion.{bind-eq-ok, settle-eq-ok}
use fg_details_to_be_added_f.Prisma.{Prisma, PrismaLaws, id}
use fg_details_to_be_added_f.Inspections.State.{
  RequestUser, InspectionRecord, TemplateVersion, Exception, record_validation, Parsed, success,
  World, Db,
}
use fg_details_to_be_added_f.Inspections.Mapping.{to_response_map}
use fg_details_to_be_added_f.Inspections.Detail.{load_template_version_content, results_of}
use fg_details_to_be_added_f.Inspections.Access.{find_record_or_throw, assert_owner_can_edit}
use fg_details_to_be_added_f.Inspections.Untouched.{Untouched, Keeps, Untouched-refl}
use fg_details_to_be_added_f.Inspections.Answers.Keeping.{persist_responses-Keeps}
use fg_details_to_be_added_f.Inspections.Submit.{
  claim, create_corrective_actions_for_failures, SubmitResult, result_of, submit_transaction,
  submit_answers, submit_stored, persist_given, submit,
}
use fg_details_to_be_added_f.Inspections.Submit.Result.{decision_of, submit_transaction-done}
use fg_details_to_be_added_f.Inspections.Submit.Claim.{mark_submitted, submit_transaction-ok}

module _ (p : Prisma) (laws : PrismaLaws p) (w : World) (user : RequestUser) where
  pub persist_given-Keeps :
      (r : InspectionRecord) (responses : Option (List (String × Parsed Response)))
      → Keeps p (persist_given p w user r responses)
  unfolding persist_given load_template_version_content
  persist_given-Keeps r none s = Untouched-refl p
  persist_given-Keeps r (some responses) s =
      elim (Option-cases (p.find_unique (id r.template_version_id) s.versions)) [
        | inl missing ↦ record {
          records = ground arith;
          approvals = ground arith;
          versions = ground arith;
        }
        | inr (v, found) ↦
            let kept =
              persist_responses-Keeps p w user r.id (flatten_items v.sections) responses s in
            record {
              records = ground (arith, kept);
              approvals = ground (arith, kept);
              versions = ground (arith, kept);
            }
      ]

  -- What a submission that returns has established, from the answers `t` that it has stored on.
  pub record IsSubmitted (r : InspectionRecord) (t s' : Db p) (result : SubmitResult) : Type 0 where
    pub version : TemplateVersion
    pub version_found : p.find_unique (id r.template_version_id) t.versions ≡ some version
    pub valid :
        (validate_checklist_responses version.sections
          (to_response_map (results_of p r.id t))).is_valid
        ≡ true
    pub done : ℕ × Option LoadingDecision
    pub answer :
        result ≡ result_of p w user r version.sections (to_response_map (results_of p r.id t)) done
    -- The loop over the items runs right after the claim, on the stored answers.
    pub claimed : Db p
    pub claim_made : claim p w user r.id t ≡ (ok tt, claimed)
    pub acted : Db p
    pub created :
        create_corrective_actions_for_failures p user r.id
          (flatten_items version.sections)
          (to_response_map (results_of p r.id t))
          (map (λ x. x.0) (results_of p r.id t))
          claimed
        ≡ (ok done.0, acted)
    pub decided :
        done.1
        ≡ decision_of r (flatten_items version.sections) (to_response_map (results_of p r.id t))
    pub before : InspectionRecord
    pub found : p.find_unique (id r.id) t.records ≡ some before
    pub editable : is_record_editable before.status ≡ true
    pub after : p.find_unique (id r.id) s'.records ≡ some (mark_submitted w before)
    pub written :
        s'.records
        ≡ (p.update_where
            (id r.id)
            (λ r. is_record_editable r.status)
            (mark_submitted w)
            t.records).0
    pub approvals : s'.approvals ≡ t.approvals
    pub versions : s'.versions ≡ t.versions

  require-ok :
      {A : Type 0} (b : Bool) (e : Exception) (m : Exec Exception (Db p) A) (t s' : Db p) (a : A)
      → (require b e >> m) t ≡ (ok a, s')
      → (b ≡ true) × (m t ≡ (ok a, s'))
  require-ok true e m t s' a h = (refl, h)
  require-ok false e m t s' a h = cc (ap (λ r. r.0) h)

  submit_answers-ok :
      (r : InspectionRecord) (version : TemplateVersion) (t s' : Db p) (result : SubmitResult)
      → p.find_unique (id r.template_version_id) t.versions ≡ some version
      → submit_answers p w user r version.sections (results_of p r.id t) t ≡ (ok result, s')
      → IsSubmitted r t s' result
  unfolding submit_answers
  submit_answers-ok r version t s' result e h =
      let responses = to_response_map (results_of p r.id t) in
      let validation = validate_checklist_responses version.sections responses in
      let body =
        submit_transaction p w user r (flatten_items version.sections) responses
          (map (λ x. x.0) (results_of p r.id t)) in
      let (valid, rest) =
        require-ok validation.is_valid (record_validation validation.errors)
          (p.transaction body >>= λ done.
            pure (result_of p w user r version.sections responses done))
          t s' result h in
      let (done, u, ran, answered) =
        bind-eq-ok (p.transaction body)
          (λ done. pure (result_of p w user r version.sections responses done)) rest in
      let last : u ≡ s' = ap (λ (x : Outcome Exception SubmitResult × Db p). x.1) answered in
      let ran' =
        settle-eq-ok t (body t) (sym (laws.transaction_lem body t) ∙ ran)
        ∙ ap
            (λ x. let r : Outcome Exception (ℕ × Option LoadingDecision) × Db p = (ok done, x) in r)
            last in
      let (q, found, can, marked, written, approvals, versions) =
        submit_transaction-ok p laws w user r (flatten_items version.sections) responses
          (map (λ x. x.0) (results_of p r.id t)) t s' done ran' in
      let (claimed, acted, claim_made, created, decided) =
        submit_transaction-done p w user r (flatten_items version.sections) responses
          (map (λ x. x.0) (results_of p r.id t)) t s' done ran' in
      record {
        claimed = claimed;
        claim_made = claim_made;
        acted = acted;
        created = created;
        decided = decided;
        version = version;
        version_found = e;
        valid = valid;
        done = done;
        answer = ground arith;
        before = q;
        found = found;
        editable = can;
        after = marked;
        written = written;
        approvals = approvals;
        versions = versions;
      }

  submit_stored-ok :
      (r : InspectionRecord) (t s' : Db p) (result : SubmitResult)
      → submit_stored p w user r t ≡ (ok result, s')
      → IsSubmitted r t s' result
  unfolding submit_stored load_template_version_content
  submit_stored-ok r t s' result h =
      elim (Option-cases (p.find_unique (id r.template_version_id) t.versions)) [
        | inl missing ↦ ground arith
        | inr (v, found) ↦ submit_answers-ok r v t s' result found (ground arith)
      ]

  submit_prefix :
      (rid : String) (s t : Db p) (r : InspectionRecord)
      → find_record_or_throw p rid s ≡ (ok r, t)
      → (p.find_unique (id rid) s.records ≡ some r) × (t ≡ s)
  unfolding find_record_or_throw
  submit_prefix rid s t r h = (ground arith, ground arith)

  owner_prefix :
      (r : InspectionRecord) (s t : Db p)
      → assert_owner_can_edit p r user s ≡ (ok tt, t)
      → (r.created_by_id ≡ user.id) × (is_record_editable r.status ≡ true) × (t ≡ s)
  unfolding assert_owner_can_edit
  owner_prefix r s t h =
      (ground (arith, eq_iff r.created_by_id user.id), ground arith, ground arith)

  -- Given the laws of the database client: a submission that returns was made by the record's
  -- creator, while the record was editable. It first stores the answers that it was given, which
  -- changes no record, approval or template version. The answers that are stored then make a valid
  -- checklist; the record is pending check afterwards, with the time of submission, and no other
  -- record and no approval has changed. The result is computed from those stored answers: its counts
  -- and its critical failure, the number of corrective actions that the loop over the items creates,
  -- and, for a truck and no other record, the loading decision recommended for them.
  pub submit-ok :
      (rid : String) (responses : Option (List (String × Parsed Response))) (s s' : Db p)
      (result : SubmitResult)
      → submit p w user rid (success responses) s ≡ (ok result, s')
      → (r : InspectionRecord) × (t : Db p) × (p.find_unique (id rid) s.records ≡ some r)
        × (r.created_by_id ≡ user.id)
        × (is_record_editable r.status ≡ true)
        × Untouched p s t
        × (persist_given p w user r responses s ≡ (ok tt, t))
        × IsSubmitted r t s' result
  unfolding submit
  submit-ok rid responses s s' result h =
      let (r, a, found, rest) =
        bind-eq-ok (find_record_or_throw p rid)
          (λ r.
            assert_owner_can_edit p r user
            >> (persist_given p w user r responses >> submit_stored p w user r))
          h in
      let (first, same) = submit_prefix rid s a r found in
      let (u, b, owned, rest') =
        bind-eq-ok (assert_owner_can_edit p r user)
          (λ _. persist_given p w user r responses >> submit_stored p w user r) rest in
      let (owner, editable, same') = owner_prefix r a b owned in
      let (v, t, persisted, last) =
        bind-eq-ok (persist_given p w user r responses) (λ _. submit_stored p w user r) rest' in
      let kept : Untouched p b t =
        subst (Untouched p b) (ap (λ (x : Outcome Exception (Unit {0}) × Db p). x.1) persisted)
          (persist_given-Keeps r responses b) in
      (
        r,
        t,
        first,
        owner,
        editable,
        subst (λ x. Untouched p x t) (same' ∙ same) kept,
        ap (persist_given p w user r responses) (sym (same' ∙ same)) ∙ persisted,
        submit_stored-ok r t s' result last,
      )
