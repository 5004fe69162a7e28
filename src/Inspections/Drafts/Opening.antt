-- ===== src/Inspections/Drafts/Opening.antt =====
-- What opening a draft of apps/api/src/inspection-records can change of the stored records, and the
-- cleaning drafts.
use fg_details_to_be_added_f.Prelude.{
  String, ◌≡◌, ◌⊎◌, inl, inr, refl, sym, subst, ◌∙◌, Option, none, some, arith,
}
use fg_details_to_be_added_f.Records
use fg_details_to_be_added_f.Records.{
  DuplicateResolution, resolve_draft_duplicate, detect_work_shift_for_hour,
}
use fg_details_to_be_added_f.Loading.{pending}
use fg_details_to_be_added_f.Exec.{Outcome, ok, err, Exec, continue, ◌>>◌}
use fg_details_to_be_added_f.Prisma.{Prisma, PrismaLaws, id}
use fg_details_to_be_added_f.Inspections.State.{
  RequestUser, InspectionRecord, TruckDetail, TemplateVersion, Exception, World, Parsed, success,
  failure, Db,
}
use fg_details_to_be_added_f.Inspections.Detail.{build_detail}
use fg_details_to_be_added_f.Inspections.Submit.{daily_cleaning}
use fg_details_to_be_added_f.Inspections.Drafts.{
  CleaningInput, default_cleaning_area_label, or_else, existing_of, find_published_template_version,
  link_task_assignment, draft_of, insert_cleaning, fetch_record, resume_or_create, create_cleaning,
  is_same_cleaning, open_cleaning, open_cleaning_draft, create_cleaning_draft,
}

module _ (p : Prisma) where
  -- The truck details stay, but for one that may be new under the id of a new record, with no
  -- recommendation and a pending decision.
  abbrev pub HasNewTruck : String → Db p → Db p → Type 0
  HasNewTruck rid s s' =
      (s'.trucks ≡ s.trucks)
      ⊎ ((t : TruckDetail) × (t.recommended_decision ≡ none)
          × (t.loading_decision ≡ pending)
          × (s'.trucks ≡ p.create (id rid) t s.trucks))

  -- No stored record, truck, approval or version has changed. At most one record is new, under an id
  -- that was free: a draft of the user.
  pub record IsOpened (user : RequestUser) (s s' : Db p) : Type 0 where
    pub rows :
        ((s'.records ≡ s.records) × (s'.trucks ≡ s.trucks))
        ⊎ ((r : InspectionRecord) × (p.find_unique (id r.id) s.records ≡ none)
            × (r.status ≡ Records.draft)
            × (r.created_by_id ≡ user.id)
            × (s'.records ≡ p.create (id r.id) r s.records)
            × HasNewTruck r.id s s')
    pub approvals : s'.approvals ≡ s.approvals
    pub versions : s'.versions ≡ s.versions

  -- A step behind the record leaves these four collections alone.
  pub record IsQuiet (s s' : Db p) : Type 0 where
    pub records : s'.records ≡ s.records
    pub trucks : s'.trucks ≡ s.trucks
    pub approvals : s'.approvals ≡ s.approvals
    pub versions : s'.versions ≡ s.versions

  module _ (user : RequestUser) where
    pub IsOpened-refl : (s : Db p) → IsOpened user s s
    IsOpened-refl s = record { rows = inl (refl, refl); approvals = refl; versions = refl }

    IsOpened-IsQuiet : (s t u : Db p) → IsOpened user s t → IsQuiet t u → IsOpened user s u
    IsOpened-IsQuiet s t u o q = record {
      rows = elim o.rows [
        | inl (records, trucks) ↦ inl (q.records ∙ records, q.trucks ∙ trucks)
        | inr (r, free, status, owner, records, trucks) ↦ inr (
          r,
          free,
          status,
          owner,
          q.records ∙ records,
          elim trucks [
            | inl same ↦ inl (q.trucks ∙ same)
            | inr (t, none_yet, waits, created) ↦ inr (t, none_yet, waits, q.trucks ∙ created)
          ],
        )
      ];
      approvals = q.approvals ∙ o.approvals;
      versions = q.versions ∙ o.versions;
    }

    module _ {A B : Type 0} where
      pub continue-IsQuiet :
          (s : Db p) (r : Outcome Exception A × Db p) (f : A → Exec Exception (Db p) B)
          → IsOpened user s r.1
          → ((a : A) (t : Db p) → IsQuiet t (f a t).1)
          → IsOpened user s (continue r f).1
      continue-IsQuiet s (ok a, t) f o h = IsOpened-IsQuiet s t (f a t).1 o (h a t)
      continue-IsQuiet s (err e, t) f o h = o

      -- A query before the writes.
      pub continue-IsOpened :
          (s : Db p) (r : Outcome Exception A × Db p) (f : A → Exec Exception (Db p) B)
          → r.1 ≡ s
          → ((a : A) → IsOpened user s (f a s).1)
          → IsOpened user s (continue r f).1
      continue-IsOpened s (ok a, t) f same h =
          subst (λ x. IsOpened user s (f a x).1) (sym same) (h a)
      continue-IsOpened s (err e, t) f same h = subst (IsOpened user s) (sym same) (IsOpened-refl s)

    module _ (w : World) where
      pub find_published-state :
          (code : String) (s : Db p) → (find_published_template_version p w user code s).1 ≡ s
      unfolding find_published_template_version
      find_published-state code s = ground arith

      fetch_record-state : (rid : String) (s : Db p) → (fetch_record p w user rid s).1 ≡ s
      unfolding fetch_record
      fetch_record-state rid s = ground arith

      pub resume_or_create-IsOpened :
          (d : DuplicateResolution) (make : Exec Exception (Db p) InspectionRecord) (s : Db p)
          → IsOpened user s (make s).1
          → IsOpened user s (resume_or_create p w user d make s).1
      unfolding resume_or_create
      resume_or_create-IsOpened (Records.conflict reason) make s h = IsOpened-refl s
      resume_or_create-IsOpened (Records.resume rid) make s h =
          subst (IsOpened user s) (sym (fetch_record-state rid s)) (IsOpened-refl s)
      resume_or_create-IsOpened Records.create make s h = h

      link_task_assignment-IsQuiet :
          (tid : Option String) (r : InspectionRecord) (s : Db p)
          → IsQuiet s (link_task_assignment p w user tid r.id s).1
      unfolding link_task_assignment
      link_task_assignment-IsQuiet none r s = record {
        records = refl;
        trucks = refl;
        approvals = refl;
        versions = refl;
      }
      link_task_assignment-IsQuiet (some tid) r s = record {
        records = ground arith;
        trucks = ground arith;
        approvals = ground arith;
        versions = ground arith;
      }

      build_detail-state : (r : InspectionRecord) (s : Db p) → (build_detail p r user s).1 ≡ s
      unfolding build_detail
      build_detail-state r s = ground arith

      -- What follows the record in both operations.
      pub linked_detail_IsQuiet :
          (tid : Option String) (r : InspectionRecord) (s : Db p)
          → IsQuiet s ((link_task_assignment p w user tid r.id >> build_detail p r user) s).1
      linked_detail_IsQuiet tid r s =
          behind (link_task_assignment p w user tid r.id s) (link_task_assignment-IsQuiet tid r s)
        where
          behind :
              (x : Outcome Exception (Unit {0}) × Db p)
              → IsQuiet s x.1
              → IsQuiet s (continue x (λ _. build_detail p r user)).1
          behind (ok a, t) q = subst (IsQuiet s) (sym (build_detail-state r t)) q
          behind (err e, t) q = q

      module _ (laws : PrismaLaws p) where
        insert_cleaning-IsOpened :
            (date : String) (shift_id : Option String) (area : String) (v : TemplateVersion)
            (s : Db p)
            → IsOpened user s (insert_cleaning p w user date shift_id area v s).1
        unfolding insert_cleaning draft_of
        insert_cleaning-IsOpened date shift_id area v s = record {
          rows = inr (_, laws.find_unique-next_id s.records, refl, refl, refl, inl refl);
          approvals = refl;
          versions = refl;
        }

        open_cleaning-IsOpened :
            (date area : String) (shift_id : Option String) (s : Db p)
            → IsOpened user s (open_cleaning p w user date area shift_id s).1
        unfolding open_cleaning create_cleaning
        open_cleaning-IsOpened date area shift_id s =
            resume_or_create-IsOpened
              (resolve_draft_duplicate
                (existing_of
                  (p.find_newest (is_same_cleaning p w user date shift_id area) s.records))
                user.id)
              (create_cleaning p w user date shift_id area) s
              (continue-IsOpened s (find_published_template_version p w user daily_cleaning s)
                (insert_cleaning p w user date shift_id area)
                (find_published-state daily_cleaning s)
                (λ v. insert_cleaning-IsOpened date shift_id area v s))

        -- Given the laws of the database client: whether it returns or throws, createCleaningDraft
        -- changes no stored record, approval or template version. At most one record is new: a draft
        -- of the user, under an id that was free. A truck is new at most together with it and under
        -- its id, with no recommendation and a decision that is pending.
        pub create_cleaning_draft-IsOpened :
            (parsed : Parsed CleaningInput) (s : Db p)
            → IsOpened user s (create_cleaning_draft p w user parsed s).1
        unfolding create_cleaning_draft open_cleaning_draft
        create_cleaning_draft-IsOpened (failure message) s = IsOpened-refl s
        create_cleaning_draft-IsOpened (success input) s =
            continue-IsQuiet s (open_cleaning_draft p w user input s)
              (λ r.
                link_task_assignment p w user input.task_assignment_id r.id
                >> build_detail p r user)
              (open_cleaning-IsOpened (or_else input.record_date w.colombo_date_only)
                (or_else input.area_label default_cleaning_area_label) _ s)
              (λ r t. linked_detail_IsQuiet input.task_assignment_id r t)
