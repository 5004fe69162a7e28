-- ===== src/Inspections/Answers/Stored.antt =====
-- The row that persistOneResponse of inspection-records.service.ts stores for an answer, and how the
-- mappers read it back.
use fg_details_to_be_added_f.Prelude.{
  String, ◌==◌, eq_refl, ◌≡◌, inl, inr, refl, ap, ◌∙◌, Bool, true, false, Option, none, some, List,
  [], ◌∷◌, Option-cases, arith,
}
use fg_details_to_be_added_f.Checklist.Items.{
  ItemType, pass_fail_na, StatusValue, status, EvidencePhoto, Response, Item,
}
use fg_details_to_be_added_f.Exec.{Outcome, ok, err, Exec, continue}
use fg_details_to_be_added_f.Prisma.{Prisma, PrismaLaws, Key, pair, same_key}
use fg_details_to_be_added_f.Inspections.State.{
  RequestUser, InspectionResult, ResultStatus, acceptable, unacceptable, not_applicable, pass, fail,
  InspectionAttachment, Exception, World, Db,
}
use fg_details_to_be_added_f.Inspections.Mapping.{
  normalized_status_from_result_status, result_status_from_normalized, response_of,
}
use fg_details_to_be_added_f.Inspections.Answers.{
  store_photo, store_photos, replace_evidence, upsert_result, persist_status,
}

-- The words of an item type: pass and fail where it is named for them.
abbrev pub is_word_of : ItemType → ResultStatus → Bool
is_word_of _ not_applicable = true
is_word_of pass_fail_na pass = true
is_word_of pass_fail_na fail = true
is_word_of pass_fail_na _ = false
is_word_of _ acceptable = true
is_word_of _ unacceptable = true
is_word_of _ _ = false

-- The row keeps the answer, in the words of the item's type, and the texts beside it.
pub record IsStoredAs (item : Item) (v : StatusValue) (response : Response) (r : InspectionResult)
    : Type 0 where
  pub word : is_word_of item.item_type r.status ≡ true
  pub value :
      (attachments : List InspectionAttachment)
      → (response_of r attachments).value ≡ some (status v)
  pub remark : r.notes ≡ response.remark
  pub issue_reason : r.issue_reason ≡ response.issue_reason
  pub correction : r.correction ≡ response.correction
  pub corrective_action : r.corrective_action ≡ response.corrective_action

result_status-is_word_of :
    (t : ItemType) (v : StatusValue) → is_word_of t (result_status_from_normalized t v) ≡ true
unfolding result_status_from_normalized
result_status-is_word_of t v = ground arith

normalized_status-result_status :
    (t : ItemType) (v : StatusValue)
    → normalized_status_from_result_status (result_status_from_normalized t v) ≡ v
unfolding normalized_status_from_result_status result_status_from_normalized
normalized_status-result_status t v = ground arith

module _ (p : Prisma) (w : World) (user : RequestUser) (rid : String) where
  continue-results :
      {A B : Type 0} (r : Outcome Exception A × Db p) (f : A → Exec Exception (Db p) B)
      → ((a : A) (s : Db p) → (f a s).1.results ≡ s.results)
      → (continue r f).1.results ≡ r.1.results
  continue-results (ok a, s) f h = h a s
  continue-results (err e, s) f h = refl

  pub continue-row :
      {A B : Type 0} (x : String) (r : Outcome Exception A × Db p) (f : A → Exec Exception (Db p) B)
      → ((a : A) (s : Db p)
          → p.find_unique (pair rid x) (f a s).1.results ≡ p.find_unique (pair rid x) s.results)
      → p.find_unique (pair rid x) (continue r f).1.results ≡ p.find_unique (pair rid x) r.1.results
  continue-row x (ok a, s) f h = h a s
  continue-row x (err e, s) f h = refl

  store_photo-results :
      (x : String) (photo : EvidencePhoto) (s : Db p)
      → (store_photo p w user rid x photo s).1.results ≡ s.results
  unfolding store_photo
  store_photo-results x photo s = ground arith

  store_photos-results :
      (x : String) (photos : List EvidencePhoto) (s : Db p)
      → (store_photos p w user rid x photos s).1.results ≡ s.results
  unfolding store_photos
  store_photos-results x [] s = refl
  store_photos-results x (photo ∷ photos) s =
      continue-results (store_photo p w user rid x photo s)
        (λ _. store_photos p w user rid x photos) (λ _ t. store_photos-results x photos t)
      ∙ store_photo-results x photo s

  replace_evidence-results :
      (x : String) (photos : Option (List EvidencePhoto)) (s : Db p)
      → (replace_evidence p w user rid x photos s).1.results ≡ s.results
  unfolding replace_evidence
  replace_evidence-results x none s = refl
  replace_evidence-results x (some photos) s =
      store_photos-results x photos
        (record s { attachments = p.delete_many (λ a. a.result_id == x) s.attachments })

  persist_status-results :
      (item : Item) (v : StatusValue) (response : Response) (s : Db p)
      → (persist_status p w user rid item v response s).1.results
        ≡ (upsert_result p w user rid item v response s).results
  unfolding persist_status
  persist_status-results item v response s =
      let t = upsert_result p w user rid item v response s in
      elim (Option-cases (p.find_unique (pair rid item.id) t.results)) [
        | inl missing ↦ rw missing refl
        | inr (r, found) ↦ rw found (replace_evidence-results r.id response.evidence t)
      ]

  module _ (laws : PrismaLaws p) where
    -- The row under the key of an upsert is the created one, or a changed one.
    upsert-holds :
        (k : Key) (a : InspectionResult) (f : InspectionResult → InspectionResult)
        (t : p.Table InspectionResult) (P : InspectionResult → Type 0)
        → same_key k k ≡ true
        → P a
        → ((b : InspectionResult) → P (f b))
        → (r : InspectionResult) × (p.find_unique k (p.upsert k a f t) ≡ some r) × P r
    upsert-holds k a f t P same new changed = elim (Option-cases (p.find_unique k t)) [
      | inl none_yet ↦ (a, laws.find_unique-upsert k k a f t ∙ rw (same, none_yet) refl, new)
      | inr (old, was) ↦
          (f old, laws.find_unique-upsert k k a f t ∙ rw (same, was) refl, changed old)
    ]

    filled-IsStoredAs :
        (item : Item) (v : StatusValue) (response : Response) (r : InspectionResult)
        → r.status ≡ result_status_from_normalized item.item_type v
        → r.notes ≡ response.remark
        → r.issue_reason ≡ response.issue_reason
        → r.correction ≡ response.correction
        → r.corrective_action ≡ response.corrective_action
        → IsStoredAs item v response r
    unfolding response_of
    filled-IsStoredAs item v response r e remark reason correction action = record {
      word = ap (is_word_of item.item_type) e ∙ result_status-is_word_of item.item_type v;
      value = λ _.
          ap (λ x. some (status (normalized_status_from_result_status x))) e
          ∙ ap (λ x. some (status x)) (normalized_status-result_status item.item_type v);
      remark = remark;
      issue_reason = reason;
      correction = correction;
      corrective_action = action;
    }

    upserted-IsStoredAs :
        (item : Item) (v : StatusValue) (response : Response) (s : Db p)
        → (r : InspectionResult) × (p.find_unique
              (pair rid item.id)
              (upsert_result p w user rid item v response s).results
            ≡ some r)
          × IsStoredAs item v response r
    unfolding upsert_result
    upserted-IsStoredAs item v response s =
        upsert-holds (pair rid item.id) _ _ s.results (IsStoredAs item v response)
          (rw (eq_refl rid, eq_refl item.id) refl)
          (filled-IsStoredAs item v response _ refl refl refl refl refl)
          (λ b. filled-IsStoredAs item v response _ refl refl refl refl refl)

    upserted-others :
        (item : Item) (v : StatusValue) (response : Response) (s : Db p) (x : String)
        → (item.id == x) ≡ false
        → p.find_unique (pair rid x) (upsert_result p w user rid item v response s).results
          ≡ p.find_unique (pair rid x) s.results
    unfolding upsert_result
    upserted-others item v response s x other =
        laws.find_unique-upsert (pair rid item.id) (pair rid x) _ _ s.results
        ∙ rw (eq_refl rid, other) refl

    pub persist_status-IsStoredAs :
        (item : Item) (v : StatusValue) (response : Response) (s : Db p)
        → (r : InspectionResult) × (p.find_unique
              (pair rid item.id)
              (persist_status p w user rid item v response s).1.results
            ≡ some r)
          × IsStoredAs item v response r
    persist_status-IsStoredAs item v response s =
        let (r, found, stored) = upserted-IsStoredAs item v response s in
        (
          r,
          ap (p.find_unique (pair rid item.id)) (persist_status-results item v response s) ∙ found,
          stored,
        )

    pub persist_status-others :
        (item : Item) (v : StatusValue) (response : Response) (s : Db p) (x : String)
        → (item.id == x) ≡ false
        → p.find_unique (pair rid x) (persist_status p w user rid item v response s).1.results
          ≡ p.find_unique (pair rid x) s.results
    persist_status-others item v response s x other =
        ap (p.find_unique (pair rid x)) (persist_status-results item v response s)
        ∙ upserted-others item v response s x other
