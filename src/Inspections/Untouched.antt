-- ===== src/Inspections/Untouched.antt =====
-- Handlers of the inspection-records service that leave the records, the approvals and the templates
-- alone, whether they return or throw.
use fg_details_to_be_added_f.Prelude.{arith, String, ◌≡◌, refl, ◌∙◌, Option, none, some}
use fg_details_to_be_added_f.Exec.{Outcome, ok, err, Exec, continue, ◌>>=◌, gets, or_throw}
use fg_details_to_be_added_f.Prisma.{Prisma}
use fg_details_to_be_added_f.Inspections.State.{RequestUser, InspectionRecord, Exception, Db}
use fg_details_to_be_added_f.Inspections.Access.{find_record_or_throw, assert_owner_can_edit}
use fg_details_to_be_added_f.Inspections.Detail.{load_template_version_content}

module _ (p : Prisma) where
  pub record Untouched (s s' : Db p) : Type 0 where
    pub records : s'.records ≡ s.records
    pub approvals : s'.approvals ≡ s.approvals
    pub versions : s'.versions ≡ s.versions

  abbrev pub Keeps : {A : Type 0} → Exec Exception (Db p) A → Type 0
  Keeps m = (s : Db p) → Untouched s (m s).1

  pub Untouched-refl : {s : Db p} → Untouched s s
  Untouched-refl = record { records = refl; approvals = refl; versions = refl }

  pub Untouched-trans : {s t u : Db p} → Untouched s t → Untouched t u → Untouched s u
  Untouched-trans a b = record {
    records = b.records ∙ a.records;
    approvals = b.approvals ∙ a.approvals;
    versions = b.versions ∙ a.versions;
  }

  module _ {A B : Type 0} where
    continue-Keeps :
        (s : Db p) (r : Outcome Exception A × Db p) (f : A → Exec Exception (Db p) B)
        → Untouched s r.1
        → ((a : A) → Keeps (f a))
        → Untouched s (continue r f).1
    continue-Keeps s (ok a, t) f u h = Untouched-trans u (h a t)
    continue-Keeps s (err e, t) f u h = u

    pub bind-Keeps :
        (m : Exec Exception (Db p) A) (f : A → Exec Exception (Db p) B)
        → Keeps m
        → ((a : A) → Keeps (f a))
        → Keeps (m >>= f)
    bind-Keeps m f k h s = continue-Keeps s (m s) f (k s) h

  pub gets-Keeps : {A : Type 0} (f : Db p → A) → Keeps (gets f)
  gets-Keeps f s = Untouched-refl

  pub or_throw-Keeps : {A : Type 0} (e : Exception) (o : Option A) → Keeps (or_throw e o)
  or_throw-Keeps e none s = Untouched-refl
  or_throw-Keeps e (some a) s = Untouched-refl

  pub load-Keeps : (vid : String) → Keeps (load_template_version_content p vid)
  unfolding load_template_version_content
  load-Keeps vid s = record {
    records = ground arith;
    approvals = ground arith;
    versions = ground arith;
  }

  pub find-Keeps : (rid : String) → Keeps (find_record_or_throw p rid)
  unfolding find_record_or_throw
  find-Keeps rid s = record {
    records = ground arith;
    approvals = ground arith;
    versions = ground arith;
  }

  pub owner-Keeps :
      (user : RequestUser) (r : InspectionRecord) → Keeps (assert_owner_can_edit p r user)
  unfolding assert_owner_can_edit
  owner-Keeps user r s = record {
    records = ground arith;
    approvals = ground arith;
    versions = ground arith;
  }
