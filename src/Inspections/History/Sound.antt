-- ===== src/Inspections/History/Sound.antt =====
-- The invariant of the stored records, and the changes that keep it.
use mathlib.Core.Option
use fg_details_to_be_added_f.Prelude.{
  String, ◌==◌, eq_iff, ◌≡◌, ◌≢◌, inl, inr, refl, sym, ap, subst, ◌∙◌, true, Option, none, some,
  is_truthy, Bool-cases, arith, if◌then◌else◌,
}
use fg_details_to_be_added_f.Workflow.{is_immutable_verified_status}
use fg_details_to_be_added_f.Prisma.{Prisma, PrismaLaws, id, same_key}
use fg_details_to_be_added_f.Inspections.State.{InspectionRecord, Db}
use fg_details_to_be_added_f.Inspections.Untouched.{Untouched}
use fg_details_to_be_added_f.Inspections.Review.Duty.{IsKeyed}
use fg_details_to_be_added_f.Inspections.Review.Atomic.{HasVersions}

-- A verified, completed or archived record was verified by somebody who neither created nor checked
-- it.
abbrev pub FourEyes : InspectionRecord → Type 0
FourEyes r =
    is_immutable_verified_status r.status ≡ true
    → (v : String) × (r.verified_by_id ≡ some v)
      × (v ≢ r.created_by_id)
      × ((c : String) → r.checked_by_id ≡ some c → is_truthy c ≡ true → v ≢ c)

pub same_row : {q r : InspectionRecord} → some q ≡ some r → q ≡ r
same_row e = cc e

module _ (p : Prisma) where
  -- The invariant: the records stand under their ids, have their template versions, and keep the four
  -- eyes.
  pub record IsSound (s : Db p) : Type 0 where
    pub keyed : IsKeyed p s
    pub versions : HasVersions p s
    pub four_eyes :
        (k : String) (r : InspectionRecord) → p.find_unique (id k) s.records ≡ some r → FourEyes r

  -- Each record that is stored afterwards was there before, or is a sound change of one.
  pub record IsSoundChange (q r : InspectionRecord) : Type 0 where
    pub same_id : r.id ≡ q.id
    pub same_version : r.template_version_id ≡ q.template_version_id
    pub eyes : FourEyes q → FourEyes r

  abbrev pub Follows : Db p → Db p → Type 0
  Follows s s' =
      (k : String) (r : InspectionRecord)
      → p.find_unique (id k) s'.records ≡ some r
      → (q : InspectionRecord) × (p.find_unique (id k) s.records ≡ some q) × IsSoundChange q r

  pub IsSoundChange-refl : (r : InspectionRecord) → IsSoundChange r r
  IsSoundChange-refl r = record { same_id = refl; same_version = refl; eyes = λ e. e }

  pub Follows-IsSound :
      {s s' : Db p} → IsSound s → s'.versions ≡ s.versions → Follows s s' → IsSound s'
  Follows-IsSound {s} {s'} sound same f = record {
    keyed = λ k r e. let (q, found, c) = f k r e in c.same_id ∙ sound.keyed k q found;
    versions = λ k r e.
        let (q, found, c) = f k r e in rw (c.same_version, same) (sound.versions k q found);
    four_eyes = λ k r e. let (q, found, c) = f k r e in c.eyes (sound.four_eyes k q found);
  }

  pub same-Follows : (s s' : Db p) → s'.records ≡ s.records → Follows s s'
  same-Follows s s' same k r e = (r, ap (p.find_unique (id k)) (sym same) ∙ e, IsSoundChange-refl r)

  mapped :
      (f : InspectionRecord → InspectionRecord) (o : Option InspectionRecord) (r : InspectionRecord)
      → Option.map f o ≡ some r
      → (q : InspectionRecord) × (o ≡ some q) × (f q ≡ r)
  mapped f none r h = cc
  mapped f (some q) r h = (q, refl, ground arith)

  -- One record is changed.
  pub change-Follows :
      (rid : String) (f : InspectionRecord → InspectionRecord) (s s' : Db p)
      → ((k : String)
          → p.find_unique (id k) s'.records ≡ (
              if same_key (id rid) (id k)
              then Option.map f (p.find_unique (id k) s.records)
              else p.find_unique (id k) s.records))
      → ((q : InspectionRecord) → p.find_unique (id rid) s.records ≡ some q → IsSoundChange q (f q))
      → Follows s s'
  change-Follows rid f s s' written sound k r e =
      let found = sym (written k) ∙ e in
      elim (Bool-cases (rid == k)) [
        | inl here ↦
            let (q, was, same) = mapped f (p.find_unique (id k) s.records) r (rw here at found) in
            (
              q,
              was,
              subst (IsSoundChange q) same (
                  sound q (ap (λ i. p.find_unique (id i) s.records) ((eq_iff rid k).0 here) ∙ was)),
            )
        | inr other ↦ (r, rw other at found, IsSoundChange-refl r)
      ]

  module _ (laws : PrismaLaws p) where
    pub update-Follows :
        (rid : String) (f : InspectionRecord → InspectionRecord) (s s' : Db p)
        → s'.records ≡ p.update (id rid) f s.records
        → ((q : InspectionRecord)
            → p.find_unique (id rid) s.records ≡ some q
            → IsSoundChange q (f q))
        → Follows s s'
    update-Follows rid f s s' written = change-Follows rid f s s' (λ k.
        ap (p.find_unique (id k)) written ∙ laws.find_unique-update (id rid) (id k) f s.records)

    pub Untouched-IsSound : {s s' : Db p} → IsSound s → Untouched p s s' → IsSound s'
    Untouched-IsSound {s} {s'} sound u =
        Follows-IsSound sound u.versions (same-Follows s s' u.records)
