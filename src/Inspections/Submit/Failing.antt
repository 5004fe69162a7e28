-- ===== src/Inspections/Submit/Failing.antt =====
-- A submission that throws: the answers that it stored first stay; of the records, the approvals and
-- the template versions every change is taken back.
use fg_details_to_be_added_f.Prelude.{
  String, ◌≡◌, inl, inr, sym, ap, subst, ◌∙◌, Bool, true, false, Option, List, map, arith,
}
use fg_details_to_be_added_f.Checklist.Items.{Response, Section}
use fg_details_to_be_added_f.Checklist.Order.{flatten_items}
use fg_details_to_be_added_f.Checklist.Validation.{validate_checklist_responses}
use fg_details_to_be_added_f.Exec.{Outcome, err, Exec, ◌>>=◌, ◌>>◌, pure, gets, require}
use fg_details_to_be_added_f.Exec.Inversion.{bind-eq-err, settle-eq-err}
use fg_details_to_be_added_f.Prisma.{Prisma, PrismaLaws}
use fg_details_to_be_added_f.Inspections.State.{
  RequestUser, InspectionRecord, InspectionResult, InspectionAttachment, Exception,
  record_validation, Parsed, success, failure, World, Db,
}
use fg_details_to_be_added_f.Inspections.Mapping.{to_response_map}
use fg_details_to_be_added_f.Inspections.Detail.{load_template_version_content, results_of}
use fg_details_to_be_added_f.Inspections.Access.{find_record_or_throw, assert_owner_can_edit}
use fg_details_to_be_added_f.Inspections.Untouched.{
  Untouched, Keeps, Untouched-refl, Untouched-trans, gets-Keeps, load-Keeps, find-Keeps,
  owner-Keeps,
}
use fg_details_to_be_added_f.Inspections.Submit.Laws.{persist_given-Keeps}
use fg_details_to_be_added_f.Inspections.Submit.{
  SubmitResult, result_of, submit_transaction, submit_answers, submit_stored, persist_given, submit,
}

module _ (p : Prisma) where
  -- A handler that leaves the records, the approvals and the templates alone when it throws.
  abbrev pub KeepsOnErr : {A : Type 0} → Exec Exception (Db p) A → Type 0
  KeepsOnErr {A} m = (s s' : Db p) (e : Exception) → m s ≡ (err e, s') → Untouched p s s'

  Keeps-KeepsOnErr : {A : Type 0} (m : Exec Exception (Db p) A) → Keeps p m → KeepsOnErr m
  Keeps-KeepsOnErr {A} m k s s' e h =
      subst (Untouched p s) (ap (λ (x : Outcome Exception A × Db p). x.1) h) (k s)

  module _ {A B : Type 0} where
    bind-KeepsOnErr :
        (m : Exec Exception (Db p) A) (f : A → Exec Exception (Db p) B)
        → Keeps p m
        → ((a : A) → KeepsOnErr (f a))
        → KeepsOnErr (m >>= f)
    bind-KeepsOnErr m f k h s s' e thrown = elim (bind-eq-err m f thrown) [
      | inl first ↦ Keeps-KeepsOnErr m k s s' e first
      | inr (a, t, ran, rest) ↦
          Untouched-trans p
            (subst (Untouched p s) (ap (λ (x : Outcome Exception A × Db p). x.1) ran) (k s))
            (h a t s' e rest)
    ]

  pure-KeepsOnErr : {A : Type 0} (a : A) → KeepsOnErr (pure a)
  pure-KeepsOnErr {A} a = Keeps-KeepsOnErr (pure a) (λ s. Untouched-refl p)

  require-Keeps : (b : Bool) (e : Exception) → Keeps p (require b e)
  require-Keeps true e s = Untouched-refl p
  require-Keeps false e s = Untouched-refl p

  module _ (laws : PrismaLaws p) (w : World) (user : RequestUser) where
    transaction-KeepsOnErr :
        {A B : Type 0} (m : Exec Exception (Db p) A) (f : A → B)
        → KeepsOnErr (p.transaction m >>= λ a. pure (f a))
    transaction-KeepsOnErr m f s s' e h = elim (bind-eq-err (p.transaction m) (λ a. pure (f a)) h) [
      | inl thrown ↦
          subst (Untouched p s)
            (sym (settle-eq-err s (m s) (sym (laws.transaction_lem m s) ∙ thrown)))
            (Untouched-refl p)
      | inr (a, t, ran, rest) ↦ absurd (ground arith)
    ]

    submit_answers-KeepsOnErr :
        (r : InspectionRecord) (sections : List Section)
        (results : List (InspectionResult × List InspectionAttachment))
        → KeepsOnErr (submit_answers p w user r sections results)
    unfolding submit_answers
    submit_answers-KeepsOnErr r sections results =
        let responses = to_response_map results in
        let validation = validate_checklist_responses sections responses in
        let body =
          submit_transaction p w user r (flatten_items sections) responses
            (map (λ x. x.0) results) in
        bind-KeepsOnErr (require validation.is_valid (record_validation validation.errors))
          (λ _. p.transaction body >>= λ done. pure (result_of p w user r sections responses done))
          (require-Keeps validation.is_valid (record_validation validation.errors))
          (λ _. transaction-KeepsOnErr body (result_of p w user r sections responses))

    submit_stored-KeepsOnErr : (r : InspectionRecord) → KeepsOnErr (submit_stored p w user r)
    unfolding submit_stored
    submit_stored-KeepsOnErr r =
        bind-KeepsOnErr (load_template_version_content p r.template_version_id)
          (λ v.
            gets (results_of p r.id) >>= λ results. submit_answers p w user r v.sections results)
          (load-Keeps p r.template_version_id)
          (λ v.
            bind-KeepsOnErr (gets (results_of p r.id))
              (λ results. submit_answers p w user r v.sections results)
              (gets-Keeps p (results_of p r.id))
              (λ results. submit_answers-KeepsOnErr r v.sections results))

    -- Given the laws of the database client: a submission that throws has changed no record, no
    -- approval and no template version, at whatever point it threw.
    pub submit-KeepsOnErr :
        (rid : String) (parsed : Parsed (Option (List (String × Parsed Response)))) (s s' : Db p)
        (e : Exception)
        → submit p w user rid parsed s ≡ (err e, s')
        → Untouched p s s'
    unfolding submit
    submit-KeepsOnErr rid (failure message) s s' e h =
        subst (Untouched p s) (ap (λ (x : Outcome Exception SubmitResult × Db p). x.1) h)
          (Untouched-refl p)
    submit-KeepsOnErr rid (success responses) s s' e h =
        bind-KeepsOnErr (find_record_or_throw p rid)
          (λ r.
            assert_owner_can_edit p r user
            >> (persist_given p w user r responses >> submit_stored p w user r))
          (find-Keeps p rid)
          (λ r.
            bind-KeepsOnErr (assert_owner_can_edit p r user)
              (λ _. persist_given p w user r responses >> submit_stored p w user r)
              (owner-Keeps p user r)
              (λ _.
                bind-KeepsOnErr (persist_given p w user r responses) (λ _. submit_stored p w user r)
                  (persist_given-Keeps p laws w user r responses)
                  (λ _. submit_stored-KeepsOnErr r)))
          s s' e h
