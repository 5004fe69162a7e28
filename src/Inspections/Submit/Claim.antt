-- ===== src/Inspections/Submit/Claim.antt =====
-- The claim of a submission's transaction: the gate against a second one.
use mathlib.Core.Option
use fg_details_to_be_added_f.Prelude.{
  ℕ, String, eq_refl, ◌≡◌, refl, sym, ap, ◌∙◌, Bool, true, false, Option, none, some, List, arith,
}
use fg_details_to_be_added_f.Checklist.Items.{ResponseMap, Item}
use fg_details_to_be_added_f.Records.{pending_check, is_record_editable}
use fg_details_to_be_added_f.Loading.{LoadingDecision}
use fg_details_to_be_added_f.Exec.{Outcome, ok, err, Exec, ◌>>=◌}
use fg_details_to_be_added_f.Exec.Inversion.{bind-eq-ok}
use fg_details_to_be_added_f.Prisma.{Prisma, PrismaLaws, id, change_if, count_match}
use fg_details_to_be_added_f.Inspections.State.{
  RequestUser, InspectionRecord, InspectionResult, Exception, record_locked, World, Db,
}
use fg_details_to_be_added_f.Inspections.Submit.Keeping.{after_claim-Keeps}
use fg_details_to_be_added_f.Inspections.Submit.{claim, after_claim, submit_transaction}

abbrev pub mark_submitted : World → InspectionRecord → InspectionRecord
mark_submitted w r = record r { status = pending_check; submitted_at = some w.now }

module _ (p : Prisma) (laws : PrismaLaws p) (w : World) (user : RequestUser) where
  claim-writes :
      (rid : String) (s s' : Db p)
      → claim p w user rid s ≡ (ok tt, s')
      → (count_match (λ r. is_record_editable r.status) (p.find_unique (id rid) s.records) ≡ 1)
        × (s'.records
            ≡ (p.update_where
                (id rid)
                (λ r. is_record_editable r.status)
                (mark_submitted w)
                s.records).0)
        × (s'.approvals ≡ s.approvals)
        × (s'.versions ≡ s.versions)
  unfolding claim
  claim-writes rid s s' h = (
    ground (
      arith,
      laws.update_where_count (id rid) (λ r. is_record_editable r.status) (mark_submitted w)
          s.records,
    ),
    ground arith,
    ground arith,
    ground arith,
  )

  matched :
      (o : Option InspectionRecord)
      → count_match (λ r. is_record_editable r.status) o ≡ 1
      → (r : InspectionRecord) × (o ≡ some r)
        × (is_record_editable r.status ≡ true)
        × (Option.map (change_if (λ r. is_record_editable r.status) (mark_submitted w)) o
            ≡ some (mark_submitted w r))
  matched none h = cc
  matched (some r) h = (r, refl, ground arith, ground arith)

  -- The claim goes through only on a stored record that is editable.
  claim-ok :
      (rid : String) (s s' : Db p)
      → claim p w user rid s ≡ (ok tt, s')
      → (r : InspectionRecord) × (p.find_unique (id rid) s.records ≡ some r)
        × (is_record_editable r.status ≡ true)
        × (p.find_unique (id rid) s'.records ≡ some (mark_submitted w r))
  claim-ok rid s s' h =
      let editable : InspectionRecord → Bool = λ r. is_record_editable r.status in
      let (counted, written, same, _) = claim-writes rid s s' h in
      let (r, found, can, mapped) = matched (p.find_unique (id rid) s.records) counted in
      (
        r,
        found,
        can,
        ap (p.find_unique (id rid)) written
            ∙ laws.find_unique-update_where (id rid) (id rid) editable (mark_submitted w) s.records
            ∙ rw (eq_refl rid) mapped,
      )

  claim-refused :
      (rid : String) (s : Db p) (r : InspectionRecord)
      → p.find_unique (id rid) s.records ≡ some r
      → is_record_editable r.status ≡ false
      → (claim p w user rid s).0 ≡ err record_locked
  unfolding claim
  claim-refused rid s r found locked = ground (
    arith,
    laws.update_where_count (id rid) (λ r. is_record_editable r.status) (mark_submitted w)
        s.records,
  )

  pub submit_transaction-ok :
      (r : InspectionRecord) (items : List Item) (responses : ResponseMap)
      (results : List InspectionResult) (s s' : Db p) (done : ℕ × Option LoadingDecision)
      → submit_transaction p w user r items responses results s ≡ (ok done, s')
      → (q : InspectionRecord) × (p.find_unique (id r.id) s.records ≡ some q)
        × (is_record_editable q.status ≡ true)
        × (p.find_unique (id r.id) s'.records ≡ some (mark_submitted w q))
        × (s'.records
            ≡ (p.update_where
                (id r.id)
                (λ r. is_record_editable r.status)
                (mark_submitted w)
                s.records).0)
        × (s'.approvals ≡ s.approvals)
        × (s'.versions ≡ s.versions)
  unfolding submit_transaction
  submit_transaction-ok r items responses results s s' done h =
      let (u, t, claimed, rest) =
        bind-eq-ok (claim p w user r.id) (λ _. after_claim p w user r items responses results) h in
      let (q, found, can, marked) = claim-ok r.id s t claimed in
      let (counted, written, approvals, versions) = claim-writes r.id s t claimed in
      let kept = after_claim-Keeps p w user r items responses results t in
      let last : (after_claim p w user r items responses results t).1 ≡ s' =
        ap (λ (x : Outcome Exception (ℕ × Option LoadingDecision) × Db p). x.1) rest in
      let records : s'.records ≡ t.records =
        ap (λ (x : Db p). x.records) (sym last) ∙ kept.records in
      (
        q,
        found,
        can,
        ap (p.find_unique (id r.id)) records ∙ marked,
        records ∙ written,
        ap (λ (x : Db p). x.approvals) (sym last) ∙ kept.approvals ∙ approvals,
        ap (λ (x : Db p). x.versions) (sym last) ∙ kept.versions ∙ versions,
      )

  -- Given the laws of the database client: after the transaction of a submission has returned, that
  -- of a second submission of the record throws that it is locked, whatever answers it would submit.
  pub submit_transaction-twice :
      (r : InspectionRecord) (items items' : List Item) (responses responses' : ResponseMap)
      (results results' : List InspectionResult) (s s' : Db p) (done : ℕ × Option LoadingDecision)
      → submit_transaction p w user r items responses results s ≡ (ok done, s')
      → (submit_transaction p w user r items' responses' results' s').0 ≡ err record_locked
  unfolding submit_transaction is_record_editable
  submit_transaction-twice r items items' responses responses' results results' s s' done h =
      let (q, found, can, marked, written, approvals, versions) =
        submit_transaction-ok r items responses results s s' done h in
      first_throws (claim p w user r.id) (λ _. after_claim p w user r items' responses' results')
        (claim-refused r.id s' (mark_submitted w q) marked refl)
    where
      first_throws :
          {A B : Type 0} (m : Exec Exception (Db p) A) (f : A → Exec Exception (Db p) B)
          → (m s').0 ≡ err record_locked
          → ((m >>= f) s').0 ≡ err record_locked
      first_throws m f e = ground arith
