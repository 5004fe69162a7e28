-- ===== src/CorrectiveActions/Invariant.antt =====
-- What the stored corrective actions promise, whatever requests arrived.
use fg_details_to_be_added_f.Prelude.{
  ℕ, String, ◌≡◌, inl, inr, refl, sym, ap, subst, ◌∙◌, true, false, some, is_present, is_some,
  is_truthy, trim,
}
use fg_details_to_be_added_f.Prisma.{Prisma, PrismaLaws, id}
use fg_details_to_be_added_f.Prisma.Rows.{AllRows, update-AllRows}
use fg_details_to_be_added_f.CorrectiveActions.State
use fg_details_to_be_added_f.CorrectiveActions.State.{
  CaStatus, includes_status, CorrectiveAction, CaDb,
}
use fg_details_to_be_added_f.CorrectiveActions.{
  is_assignee, Request, assigning, starting, completing, verifying, rejecting, reopening,
  cancelling, handle,
}
use fg_details_to_be_added_f.CorrectiveActions.Writes.{Admits, change_for, handle-Result}

-- `Allowed u r`: the user may make the request. A closed action was verified with a comment by a user who
-- was allowed to and is not its assignee; an action that waits for verification has a completion
-- comment; a rejected one has the reason, and the user whose allowed rejection gave it; a cancelled
-- one has the reason, and the user whose allowed cancellation gave it.
pub record IsAccounted (Allowed : String → Request → Type 0) (row : CorrectiveAction) : Type 0 where
  pub closing :
      row.status ≡ State.closed
      → (u : String) × (comment : String) × Allowed u (verifying comment)
        × (row.closed_by_id ≡ some u)
        × (row.verified_by_id ≡ some u)
        × (is_assignee u row.assigned_to_id ≡ false)
        × (row.verification_comment ≡ some (trim comment))
        × (is_truthy (trim comment) ≡ true)
        × (is_some row.closed_at ≡ true)
  pub waiting :
      row.status ≡ State.pending_verification
      → (is_present row.completion_comment ≡ true) × (is_some row.completed_at ≡ true)
  pub rejecting :
      row.status ≡ State.rejected
      → (u : String) × (reason : String) × Allowed u (rejecting reason)
        × (row.verified_by_id ≡ some u)
        × (row.rejection_reason ≡ some (trim reason))
        × (is_truthy (trim reason) ≡ true)
  pub cancelling :
      row.status ≡ State.cancelled_with_reason
      → (u : String) × (reason : String) × Allowed u (cancelling reason)
        × (row.closed_by_id ≡ some u)
        × (row.cancel_reason ≡ some (trim reason))
        × (is_truthy (trim reason) ≡ true)

module _ (Allowed : String → Request → Type 0) (now : ℕ) (actor_id : String) where
  change-IsAccounted :
      (p : Prisma) (request : Request) (row : CorrectiveAction)
      → Allowed actor_id request
      → Admits p now actor_id request row
      → IsAccounted Allowed
          (record (change_for p now actor_id request row row) { updated_at = now })
  change-IsAccounted p (assigning assignee_id due_date) row may admits = record {
    closing = λ e. cc;
    waiting = λ e. cc;
    rejecting = λ e. cc;
    cancelling = λ e. cc;
  }
  change-IsAccounted p starting row may admits = record {
    closing = λ e. cc;
    waiting = λ e. cc;
    rejecting = λ e. cc;
    cancelling = λ e. cc;
  }
  change-IsAccounted p (completing comment) row may admits = record {
    closing = λ e. cc;
    waiting = λ e. (admits, refl);
    rejecting = λ e. cc;
    cancelling = λ e. cc;
  }
  change-IsAccounted p (verifying comment) row may admits = record {
    closing = λ e. (actor_id, comment, may, refl, refl, admits.1, refl, admits.0, refl);
    waiting = λ e. cc;
    rejecting = λ e. cc;
    cancelling = λ e. cc;
  }
  change-IsAccounted p (rejecting reason) row may admits = record {
    closing = λ e. cc;
    waiting = λ e. cc;
    rejecting = λ e. (actor_id, reason, may, refl, refl, admits);
    cancelling = λ e. cc;
  }
  change-IsAccounted p reopening row may admits = record {
    closing = λ e. cc;
    waiting = λ e. cc;
    rejecting = λ e. cc;
    cancelling = λ e. cc;
  }
  change-IsAccounted p (cancelling reason) row may admits = record {
    closing = λ e. cc;
    waiting = λ e. cc;
    rejecting = λ e. cc;
    cancelling = λ e. (actor_id, reason, may, refl, refl, admits);
  }

-- One allowed request of a user at a time, and what it leaves, whether it returns or throws.
pub data Step (p : Prisma) (Allowed : String → Request → Type 0) (s : CaDb p)
    : CaDb p → Type 0 where
  requests :
      (now : ℕ) (actor_id rid : String) (request : Request)
      → Allowed actor_id request
      → Step p Allowed s (handle p now actor_id rid request s).1

pub data Reach (p : Prisma) (Allowed : String → Request → Type 0) (s : CaDb p)
    : CaDb p → Type 0 where
  here : Reach p Allowed s s
  after : {t u : CaDb p} → Reach p Allowed s t → Step p Allowed t u → Reach p Allowed s u

module _ (p : Prisma) (laws : PrismaLaws p) (Allowed : String → Request → Type 0) where
  handle-IsAccounted :
      (now : ℕ) (actor_id rid : String) (request : Request) (s : CaDb p)
      → Allowed actor_id request
      → AllRows p (IsAccounted Allowed) s.corrective_actions
      → AllRows p (IsAccounted Allowed) (handle p now actor_id rid request s).1.corrective_actions
  handle-IsAccounted now actor_id rid request s may all =
      elim (handle-Result p now actor_id rid request s) [
        | inl same ↦
            subst (AllRows p (IsAccounted Allowed))
              (ap (λ (t : CaDb p). t.corrective_actions) (sym same)) all
        | inr (row, w) ↦ subst (AllRows p (IsAccounted Allowed)) (sym w.written) (
            update-AllRows p (IsAccounted Allowed) laws (id rid) _ s.corrective_actions all
              (λ r was.
                subst
                  (λ q.
                    IsAccounted Allowed
                      (record (change_for p now actor_id request row q) { updated_at = now }))
                  (cc (sym w.found ∙ was))
                  (change-IsAccounted Allowed now actor_id p request row may w.admits)))
      ]

  -- Given the laws of the database client, and any rule of who may make which request: whatever allowed
  -- requests to assign, start, complete, verify, reject, reopen or cancel arrive, in whatever order
  -- and from whatever users, and whether they return or throw, if every stored corrective action is
  -- accounted for, then every one still is. Each closed action names a user who was allowed to verify
  -- it with the comment that it holds and who is not its assignee; each that waits for verification
  -- has a completion comment; each that is rejected or cancelled with a reason names a user who was
  -- allowed to reject or cancel it with the reason that it holds. No comment or reason is blank.
  pub Reach-IsAccounted :
      (s s' : CaDb p)
      → Reach p Allowed s s'
      → AllRows p (IsAccounted Allowed) s.corrective_actions
      → AllRows p (IsAccounted Allowed) s'.corrective_actions
  Reach-IsAccounted s _ here all = all
  Reach-IsAccounted s u (after {t} before (requests now actor_id rid request may)) all =
      handle-IsAccounted now actor_id rid request t may (Reach-IsAccounted s t before all)
