-- ===== src/Inspections/Drafts/Laws.antt =====
-- Opening a cleaning draft a second time.
use fg_details_to_be_added_f.Prelude.{
  String, ◌==◌, eq_iff, eq_refl, ◌≡◌, inl, inr, refl, sym, ap, subst, ◌∙◌, true, Option, none, some,
  Bool-cases, arith, if◌then◌else◌,
}
use fg_details_to_be_added_f.Records
use fg_details_to_be_added_f.Records.{
  resolve_draft_duplicate, detect_work_shift_for_hour, DuplicateResolution, is_record_editable,
  is_active_blocking_status,
}
use fg_details_to_be_added_f.Exec.{Outcome, ok, err, Exec}
use fg_details_to_be_added_f.Exec.Inversion.{bind-eq-ok}
use fg_details_to_be_added_f.Prisma.{Prisma, PrismaLaws, id}
use fg_details_to_be_added_f.Inspections.State.{
  RequestUser, InspectionRecord, TemplateVersion, Exception, duplicate_record, World, Db,
}
use fg_details_to_be_added_f.Inspections.Submit.{daily_cleaning}
use fg_details_to_be_added_f.Inspections.Drafts.{
  CleaningInput, default_cleaning_area_label, or_else, shift_key, id_of_shift, same_text,
  existing_of, find_published_template_version, draft_of, insert_cleaning, fetch_record,
  resume_or_create, create_cleaning, is_same_cleaning, open_cleaning, open_cleaning_draft,
}

same_text_refl : (o : Option String) → same_text o o ≡ true
same_text_refl none = refl
same_text_refl (some s) = eq_refl s

module _ (p : Prisma) (laws : PrismaLaws p) (w : World) (user : RequestUser) where
  -- A draft that has just been stored.
  record IsStored (date : String) (shift_id : Option String) (area : String) (s s' : Db p)
      (r : InspectionRecord) : Type 0 where
    same_key_fields : is_same_cleaning p w user date shift_id area r ≡ true
    is_draft : r.status ≡ Records.draft
    owner : r.created_by_id ≡ user.id
    records : s'.records ≡ p.create (id r.id) r s.records
    shifts : s'.shifts ≡ s.shifts

  insert_cleaning-IsStored :
      (date : String) (shift_id : Option String) (area : String) (v : TemplateVersion) (s : Db p)
      → let s' = (insert_cleaning p w user date shift_id area v s).1 in
        IsStored date shift_id area s s'
          (draft_of p w user (p.next_id s.records) v daily_cleaning date shift_id area none)
  unfolding insert_cleaning draft_of
  insert_cleaning-IsStored date shift_id area v s = record {
    same_key_fields =
        rw (eq_refl daily_cleaning, eq_refl date, same_text_refl shift_id, eq_refl area);
    is_draft = refl;
    owner = refl;
    records = refl;
    shifts = refl;
  }

  insert_cleaning-ok :
      (date : String) (shift_id : Option String) (area : String) (v : TemplateVersion) (s s' : Db p)
      (r : InspectionRecord)
      → insert_cleaning p w user date shift_id area v s ≡ (ok r, s')
      → IsStored date shift_id area s s' r
  unfolding insert_cleaning
  insert_cleaning-ok date shift_id area v s s' r h =
      let stored = insert_cleaning-IsStored date shift_id area v s in
      let same_state : (insert_cleaning p w user date shift_id area v s).1 ≡ s' = ap (λ x. x.1) h in
      let same_row : draft_of p w user (p.next_id s.records) v daily_cleaning date shift_id area
            none
          ≡ r =
        ok_same (ap (λ x. x.0) h) in
      subst (λ t. IsStored date shift_id area s t r) same_state
        (subst (IsStored date shift_id area s (insert_cleaning p w user date shift_id area v s).1)
          same_row stored)
    where
      ok_same :
          {a b : InspectionRecord}
          → (let x : Outcome Exception InspectionRecord = ok a in x) ≡ ok b
          → a ≡ b
      ok_same e = cc e

  find_published-state :
      (code : String) (s : Db p) → (find_published_template_version p w user code s).1 ≡ s
  unfolding find_published_template_version
  find_published-state code s = ground arith

  create_cleaning-ok :
      (date : String) (shift_id : Option String) (area : String) (s s' : Db p)
      (r : InspectionRecord)
      → create_cleaning p w user date shift_id area s ≡ (ok r, s')
      → IsStored date shift_id area s s' r
  unfolding create_cleaning
  create_cleaning-ok date shift_id area s s' r h =
      let (v, t, found, rest) =
        bind-eq-ok (find_published_template_version p w user daily_cleaning)
          (insert_cleaning p w user date shift_id area) h in
      let same : t ≡ s = sym (ap (λ x. x.1) found) ∙ find_published-state daily_cleaning s in
      subst (λ x. IsStored date shift_id area x s' r) same
        (insert_cleaning-ok date shift_id area v t s' r rest)

  abbrev outcome_for : RequestUser → InspectionRecord → Outcome Exception InspectionRecord
  outcome_for user' r =
      if user.id == user'.id then ok r else err (duplicate_record Records.another_operator)

  abbrev resolution_for : RequestUser → String → DuplicateResolution
  resolution_for user' rid =
      if user.id == user'.id then Records.resume rid else Records.conflict Records.another_operator

  resolve_stored :
      (user' : RequestUser) (date : String) (shift_id : Option String) (area : String) (s s' : Db p)
      (r : InspectionRecord)
      → IsStored date shift_id area s s' r
      → resolve_draft_duplicate
          (existing_of (p.find_newest (is_same_cleaning p w user date shift_id area) s'.records))
          user'.id
        ≡ resolution_for user' r.id
  unfolding resolve_draft_duplicate is_active_blocking_status
  resolve_stored user' date shift_id area s s' r stored =
      let newest =
        ap (p.find_newest (is_same_cleaning p w user date shift_id area)) stored.records
        ∙ laws.find_newest-create (is_same_cleaning p w user date shift_id area) (id r.id) r
            s.records in
      rw (newest, stored.same_key_fields, stored.is_draft, stored.owner) (ground arith)

  resolve_resumed :
      (user' : RequestUser) (o : Option InspectionRecord) (rid : String)
      → resolve_draft_duplicate (existing_of o) user.id ≡ Records.resume rid
      → resolve_draft_duplicate (existing_of o) user'.id ≡ resolution_for user' rid
  unfolding resolve_draft_duplicate
  resolve_resumed user' none rid h = cc
  resolve_resumed user' (some r) rid h = ground (arith, eq_iff r.created_by_id user.id)

  resume_found :
      (user' : RequestUser) (rid : String) (r : InspectionRecord) (s : Db p)
      (make : Exec Exception (Db p) InspectionRecord)
      → p.find_unique (id rid) s.records ≡ some r
      → resume_or_create p w user' (resolution_for user' rid) make s ≡ (outcome_for user' r, s)
  unfolding resume_or_create fetch_record
  resume_found user' rid r s make found = elim (Bool-cases (user.id == user'.id)) [
    | inl mine ↦ rw (mine, found)
    | inr other ↦ rw other
  ]

  fetch_record-ok :
      (rid : String) (s s' : Db p) (r : InspectionRecord)
      → fetch_record p w user rid s ≡ (ok r, s')
      → (p.find_unique (id rid) s.records ≡ some r) × (s ≡ s')
  unfolding fetch_record
  fetch_record-ok rid s s' r h = (ground arith, ground arith)

  abbrev IsAgain : RequestUser → String → String → Option String → Db p → InspectionRecord → Type 0
  IsAgain user' date area shift_id s' r =
      open_cleaning p w user' date area shift_id s' ≡ (outcome_for user' r, s')

  resolved-IsAgain :
      (user' : RequestUser) (date : String) (shift_id : Option String) (area : String) (s s' : Db p)
      (r : InspectionRecord) (d : DuplicateResolution)
      → resolve_draft_duplicate
          (existing_of (p.find_newest (is_same_cleaning p w user date shift_id area) s.records))
          user.id
        ≡ d
      → resume_or_create p w user d (create_cleaning p w user date shift_id area) s ≡ (ok r, s')
      → IsAgain user' date area shift_id s' r × (s'.shifts ≡ s.shifts)
  unfolding open_cleaning resume_or_create
  resolved-IsAgain user' date shift_id area s s' r (Records.conflict reason) e h =
      cc (ap (λ x. x.0) h)
  resolved-IsAgain user' date shift_id area s s' r (Records.resume rid) e h =
      let (found, same) = fetch_record-ok rid s s' r h in
      (
        subst (λ x. IsAgain user' date area shift_id x r) same
            (ap (λ d. resume_or_create p w user' d (create_cleaning p w user' date shift_id area) s)
                (resolve_resumed user'
                  (p.find_newest (is_same_cleaning p w user date shift_id area) s.records) rid e)
              ∙ resume_found user' rid r s (create_cleaning p w user' date shift_id area) found),
        ap (λ (x : Db p). x.shifts) (sym same),
      )
  resolved-IsAgain user' date shift_id area s s' r Records.create e h =
      let stored = create_cleaning-ok date shift_id area s s' r h in
      let found : p.find_unique (id r.id) s'.records ≡ some r =
        ap (p.find_unique (id r.id)) stored.records
        ∙ laws.find_unique-create (id r.id) (id r.id) r s.records
        ∙ ap (λ b. if b then some r else p.find_unique (id r.id) s.records) (eq_refl r.id) in
      (
        ap (λ d. resume_or_create p w user' d (create_cleaning p w user' date shift_id area) s')
              (resolve_stored user' date shift_id area s s' r stored)
            ∙ resume_found user' r.id r s' (create_cleaning p w user' date shift_id area) found,
        stored.shifts,
      )

  -- Given the laws of the database client: after a cleaning draft has been opened, opening it again
  -- with the same input at the same time gives its owner the same record and any other user a
  -- conflict, and changes nothing.
  pub open_cleaning_draft-again :
      (user' : RequestUser) (input : CleaningInput) (s s' : Db p) (r : InspectionRecord)
      → open_cleaning_draft p w user input s ≡ (ok r, s')
      → open_cleaning_draft p w user' input s' ≡ (
        if user.id == user'.id then ok r else err (duplicate_record Records.another_operator),
        s',
      )
  unfolding open_cleaning_draft open_cleaning
  open_cleaning_draft-again user' input s s' r h =
      let date = or_else input.record_date w.colombo_date_only in
      let area = or_else input.area_label default_cleaning_area_label in
      let key =
        id (shift_key (or_else input.shift_code (detect_work_shift_for_hour w.colombo_hour))) in
      let (again, same) =
        resolved-IsAgain user' date (id_of_shift (p.find_unique key s.shifts)) area s s' r _ refl
          h in
      ap (λ t. open_cleaning p w user' date area (id_of_shift (p.find_unique key t)) s') same
      ∙ again
