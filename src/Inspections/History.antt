-- ===== src/Inspections/History.antt =====
-- The service over time: sequences of requests, by any users at any times, on records that are there.
pub mod Sound
pub mod FourEyes
pub mod Once
use fg_details_to_be_added_f.Prelude.{String, Option, List, ◌≡◌, inl, inr, refl, ◌⊎◌, arith}
use fg_details_to_be_added_f.Checklist.Items.{Response}
use fg_details_to_be_added_f.Exec.{Outcome, ok, err, Exec}
use fg_details_to_be_added_f.Prisma.{Prisma}
use fg_details_to_be_added_f.Inspections.State.{RequestUser, Parsed, World, Db}
use fg_details_to_be_added_f.Inspections.Review.{Operation, review}
use fg_details_to_be_added_f.Inspections.Answers.{SaveDraftInput, save_draft}
use fg_details_to_be_added_f.Inspections.Submit.{submit}
use fg_details_to_be_added_f.Inspections.Decision.{DecisionInput, approve_loading_decision}

-- One request, and the database that it leaves, whether it returns or throws.
pub data Step (p : Prisma) (s : Db p) : Db p → Type 0 where
  reviews :
      (w : World) (user : RequestUser) (o : Operation) (rid : String) (comment : Option String)
      → Step p s (review p w user o rid comment s).1
  saves :
      (w : World) (user : RequestUser) (rid : String) (parsed : Parsed SaveDraftInput)
      → Step p s (save_draft p w user rid parsed s).1
  submits :
      (w : World) (user : RequestUser) (rid : String)
      (parsed : Parsed (Option (List (String × Parsed Response))))
      → Step p s (submit p w user rid parsed s).1
  decides :
      (w : World) (user : RequestUser) (rid : String) (parsed : Parsed DecisionInput)
      → Step p s (approve_loading_decision p w user rid parsed s).1

-- Any number of requests, one after another.
pub data Reach (p : Prisma) (s : Db p) : Db p → Type 0 where
  start : Reach p s s
  next : {t u : Db p} → Reach p s t → Step p t u → Reach p s u

pub outcome-cases :
    {E S A : Type 0} (r : Outcome E A × S)
    → ((a : A) × (r ≡ (ok a, r.1))) ⊎ ((e : E) × (r ≡ (err e, r.1)))
outcome-cases (ok a, s) = inl (a, refl)
outcome-cases (err e, s) = inr (e, refl)
