-- ===== src/Inspections/Answers/Keeping.antt =====
-- Saving answers, which writes results and attachments, leaves the records, the approvals and the
-- template versions alone.
use fg_details_to_be_added_f.Prelude.{
  String, Option, none, some, List, [], ◌∷◌, find_last, ◌==◌, refl, arith,
}
use fg_details_to_be_added_f.Exec.{◌>>=◌, gets, modify, or_throw}
use fg_details_to_be_added_f.Checklist.Items.{
  StatusValue, ItemValue, status, EvidencePhoto, Response, Item,
}
use fg_details_to_be_added_f.Prisma.{Prisma, pair}
use fg_details_to_be_added_f.Inspections.State.{
  RequestUser, Parsed, success, failure, World, Db, row_missing,
}
use fg_details_to_be_added_f.Inspections.Untouched.{
  Untouched, Keeps, Untouched-refl, bind-Keeps, gets-Keeps, or_throw-Keeps,
}
use fg_details_to_be_added_f.Inspections.Answers.{
  store_photo, store_photos, replace_evidence, upsert_result, persist_status, persist_value,
  persist_one_response, persist_entry, persist_responses,
}

module _ (p : Prisma) (w : World) (user : RequestUser) (rid : String) where
  store_photo-Keeps :
      (x : String) (photo : EvidencePhoto) → Keeps p (store_photo p w user rid x photo)
  unfolding store_photo
  store_photo-Keeps x photo s = record {
    records = ground arith;
    approvals = ground arith;
    versions = ground arith;
  }

  store_photos-Keeps :
      (x : String) (photos : List EvidencePhoto) → Keeps p (store_photos p w user rid x photos)
  unfolding store_photos
  store_photos-Keeps x [] s = Untouched-refl p
  store_photos-Keeps x (photo ∷ photos) s =
      bind-Keeps p (store_photo p w user rid x photo) (λ _. store_photos p w user rid x photos)
        (store_photo-Keeps x photo) (λ _. store_photos-Keeps x photos) s

  replace_evidence-Keeps :
      (x : String) (photos : Option (List EvidencePhoto))
      → Keeps p (replace_evidence p w user rid x photos)
  unfolding replace_evidence
  replace_evidence-Keeps x none s = Untouched-refl p
  replace_evidence-Keeps x (some photos) s =
      let u =
        store_photos-Keeps x photos
          (record s { attachments = p.delete_many (λ a. a.result_id == x) s.attachments }) in
      record { records = u.records; approvals = u.approvals; versions = u.versions }

  upsert_result-Keeps :
      (item : Item) (v : StatusValue) (r : Response) (s : Db p)
      → Untouched p s (upsert_result p w user rid item v r s)
  unfolding upsert_result
  upsert_result-Keeps item v r s = record { records = refl; approvals = refl; versions = refl }

  persist_status-Keeps :
      (item : Item) (v : StatusValue) (r : Response)
      → Keeps p (persist_status p w user rid item v r)
  unfolding persist_status
  persist_status-Keeps item v r =
      bind-Keeps p (modify (upsert_result p w user rid item v r))
        (λ _. gets (λ s. p.find_unique (pair rid item.id) s.results) >>= λ found.
          or_throw row_missing found >>= λ x. replace_evidence p w user rid x.id r.evidence)
        (upsert_result-Keeps item v r)
        (λ _.
          bind-Keeps p (gets (λ s. p.find_unique (pair rid item.id) s.results))
            (λ found.
              or_throw row_missing found >>= λ x. replace_evidence p w user rid x.id r.evidence)
            (gets-Keeps p (λ s. p.find_unique (pair rid item.id) s.results))
            (λ found.
              bind-Keeps p (or_throw row_missing found)
                (λ x. replace_evidence p w user rid x.id r.evidence)
                (or_throw-Keeps p row_missing found) (λ x. replace_evidence-Keeps x.id r.evidence)))

  persist_value-Keeps :
      (item : Item) (r : Response) (v : Option ItemValue)
      → Keeps p (persist_value p w user rid item r v)
  unfolding persist_value
  persist_value-Keeps item r (some (status v)) s = persist_status-Keeps item v r s
  persist_value-Keeps item r (some _) s = Untouched-refl p
  persist_value-Keeps item r none s = Untouched-refl p

  persist_entry-Keeps :
      (item : Option Item) (raw : Parsed Response) → Keeps p (persist_entry p w user rid item raw)
  unfolding persist_entry persist_one_response
  persist_entry-Keeps none raw s = Untouched-refl p
  persist_entry-Keeps (some item) (failure m) s = Untouched-refl p
  persist_entry-Keeps (some item) (success r) s = persist_value-Keeps item r r.value s

  pub persist_responses-Keeps :
      (items : List Item) (answers : List (String × Parsed Response))
      → Keeps p (persist_responses p w user rid items answers)
  unfolding persist_responses
  persist_responses-Keeps items [] s = Untouched-refl p
  persist_responses-Keeps items ((x, raw) ∷ rest) s =
      bind-Keeps p (persist_entry p w user rid (find_last (λ i. i.id == x) items) raw)
        (λ _. persist_responses p w user rid items rest)
        (persist_entry-Keeps (find_last (λ i. i.id == x) items) raw)
        (λ _. persist_responses-Keeps items rest) s
