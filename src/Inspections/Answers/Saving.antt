-- ===== src/Inspections/Answers/Saving.antt =====
-- What saving a draft can change of the stored records.
use fg_details_to_be_added_f.Prelude.{
  String, ◌≡◌, ◌⊎◌, inl, inr, sym, ap, subst, Option-cases, ◌∙◌, Bool, true, false, Option, none,
  some, arith,
}
use fg_details_to_be_added_f.Checklist.Order.{flatten_items}
use fg_details_to_be_added_f.Exec.{Outcome, ok, err, Exec, continue, ◌>>=◌, when}
use fg_details_to_be_added_f.Prisma.{Prisma, id}
use fg_details_to_be_added_f.Inspections.State.{
  RequestUser, InspectionRecord, Exception, Parsed, success, failure, World, Db,
}
use fg_details_to_be_added_f.Inspections.Access.{find_record_or_throw, assert_owner_can_edit}
use fg_details_to_be_added_f.Inspections.Detail.{get_by_id, load_template_version_content}
use fg_details_to_be_added_f.Inspections.Review.{update_record}
use fg_details_to_be_added_f.Inspections.Review.Effects.{get_by_id-state}
use fg_details_to_be_added_f.Inspections.Untouched.{
  Untouched, Keeps, Untouched-refl, find-Keeps, owner-Keeps, load-Keeps,
}
use fg_details_to_be_added_f.Inspections.Answers.Keeping.{persist_responses-Keeps}
use fg_details_to_be_added_f.Inspections.Answers.{
  is_new_label, SaveDraftInput, persist_responses, label_record, save_parsed, save_draft,
}

-- `data: { areaLabel }`
abbrev pub relabel : String → InspectionRecord → InspectionRecord
relabel label x = record x { area_label = some label }

module _ (p : Prisma) where
  -- At most the area label of one stored record is new.
  pub record IsSaved (rid : String) (s s' : Db p) : Type 0 where
    pub records :
        (s'.records ≡ s.records)
        ⊎ ((label : String) × (r : InspectionRecord) × (p.find_unique (id rid) s.records ≡ some r)
            × (s'.records ≡ p.update (id rid) (relabel label) s.records))
    pub approvals : s'.approvals ≡ s.approvals
    pub versions : s'.versions ≡ s.versions

  module _ (rid : String) where
    Untouched-IsSaved : {s s' : Db p} → Untouched p s s' → IsSaved rid s s'
    Untouched-IsSaved u = record {
      records = inl u.records;
      approvals = u.approvals;
      versions = u.versions;
    }

    after_Untouched : (s t u : Db p) → Untouched p s t → IsSaved rid t u → IsSaved rid s u
    after_Untouched s t u k saved = record {
      records = elim saved.records [
        | inl same ↦ inl (same ∙ k.records)
        | inr (label, r, found, e) ↦ inr (
          label,
          r,
          ap (p.find_unique (id rid)) (sym k.records) ∙ found,
          e ∙ ap (p.update (id rid) (relabel label)) k.records,
        )
      ];
      approvals = saved.approvals ∙ k.approvals;
      versions = saved.versions ∙ k.versions;
    }

    module _ {A B : Type 0} where
      continue-IsSaved :
          (s : Db p) (r : Outcome Exception A × Db p) (f : A → Exec Exception (Db p) B)
          → Untouched p s r.1
          → ((a : A) (t : Db p) → IsSaved rid t (f a t).1)
          → IsSaved rid s (continue r f).1
      continue-IsSaved s (ok a, t) f k h = after_Untouched s t (f a t).1 k (h a t)
      continue-IsSaved s (err e, t) f k h = Untouched-IsSaved k

      bind-IsSaved :
          (m : Exec Exception (Db p) A) (f : A → Exec Exception (Db p) B)
          → Keeps p m
          → ((a : A) (t : Db p) → IsSaved rid t (f a t).1)
          → (s : Db p) → IsSaved rid s ((m >>= f) s).1
      bind-IsSaved m f k h s = continue-IsSaved s (m s) f (k s) h

  module _ (w : World) (user : RequestUser) where
    relabel-IsSaved :
        (rid label : String) (b : Bool) (s : Db p)
        → IsSaved rid s (when b (update_record p rid (relabel label)) s).1
    unfolding update_record
    relabel-IsSaved rid label false s = Untouched-IsSaved rid (Untouched-refl p)
    relabel-IsSaved rid label true s = elim (Option-cases (p.find_unique (id rid) s.records)) [
      | inl missing ↦ record {
        records = inl (ground arith);
        approvals = ground arith;
        versions = ground arith;
      }
      | inr (r, found) ↦ record {
        records = inr (label, r, found, ground arith);
        approvals = ground arith;
        versions = ground arith;
      }
    ]

    label_record-IsSaved :
        (rid : String) (old label : Option String) (s : Db p)
        → IsSaved rid s (label_record p w user rid old label s).1
    unfolding label_record
    label_record-IsSaved rid old none s = Untouched-IsSaved rid (Untouched-refl p)
    label_record-IsSaved rid old (some label) s =
        relabel-IsSaved rid label (is_new_label label old) s

    read-IsSaved :
        (rid : String) (s : Db p) (r : Outcome Exception (Unit {0}) × Db p)
        → IsSaved rid s r.1
        → IsSaved rid s (continue r (λ _. get_by_id p user rid)).1
    read-IsSaved rid s (ok a, t) saved =
        subst (IsSaved rid s) (sym (get_by_id-state p user rid t)) saved
    read-IsSaved rid s (err e, t) saved = saved

    -- Whether it returns or throws, saving a draft can change the area label of the record, and no other
    -- field of any record, no approval and no template version.
    pub save_draft-IsSaved :
        (rid : String) (parsed : Parsed SaveDraftInput) (s : Db p)
        → IsSaved rid s (save_draft p w user rid parsed s).1
    unfolding save_draft save_parsed
    save_draft-IsSaved rid (failure message) s = Untouched-IsSaved rid (Untouched-refl p)
    save_draft-IsSaved rid (success input) s =
        bind-IsSaved rid (find_record_or_throw p rid) _ (find-Keeps p rid)
          (λ r. bind-IsSaved rid (assert_owner_can_edit p r user) _ (owner-Keeps p user r) (λ _.
            bind-IsSaved rid (load_template_version_content p r.template_version_id) _
              (load-Keeps p r.template_version_id)
              (λ v.
                bind-IsSaved rid
                  (persist_responses p w user r.id (flatten_items v.sections) input.responses) _
                  (persist_responses-Keeps p w user r.id (flatten_items v.sections) input.responses)
                  (λ _ t.
                    read-IsSaved rid t (label_record p w user rid r.area_label input.area_label t)
                      (label_record-IsSaved rid r.area_label input.area_label t)))))
          s
