-- ===== src/CorrectiveActions/Closing.antt =====
-- Which corrective actions can still be closed.
use fg_details_to_be_added_f.Prelude.{
  ℕ, String, ◌≡◌, refl, ◌∙◌, Bool, true, false, some, List, [], ◌∷◌, is_truthy, trim, arith,
  eq_refl,
}
use fg_details_to_be_added_f.Exec.{Outcome, ok, err, Exec, ◌>>◌, skip}
use fg_details_to_be_added_f.Prisma.{Prisma, PrismaLaws, id}
use fg_details_to_be_added_f.CorrectiveActions.State
use fg_details_to_be_added_f.CorrectiveActions.State.{
  CaStatus, opened, assigned, in_progress, completed, pending_verification, rejected, verified,
  closed, reopened, overdue, cancelled, cancelled_with_reason, includes_status, CorrectiveAction,
  CaException, cannot, CaDb,
}
use fg_details_to_be_added_f.CorrectiveActions.{
  assign, cancel, assigning, cancelling, verifyable, completable, reopenable, detail_of,
  reopen_change, complete_change, verify_change, CaDetail, require_action, get_by_id,
  assert_transition, audit, finish, is_assignee, start, complete, verify, reject, reopen, Request,
  starting, completing, verifying, rejecting, reopening, handle,
}
use fg_details_to_be_added_f.CorrectiveActions.Writes.{Admits, change_for, allowed_for}

-- The statuses that no operation leaves.
abbrev pub is_final : CaStatus → Bool
is_final overdue = true
is_final cancelled = true
is_final cancelled_with_reason = true
is_final _ = false

-- Requests that lead from a status to an action that is closed, or closed again.
abbrev pub to_close : String → CaStatus → List Request
to_close comment opened = completing comment ∷ verifying comment ∷ []
to_close comment assigned = completing comment ∷ verifying comment ∷ []
to_close comment in_progress = completing comment ∷ verifying comment ∷ []
to_close comment reopened = completing comment ∷ verifying comment ∷ []
to_close comment completed = verifying comment ∷ []
to_close comment pending_verification = verifying comment ∷ []
to_close comment rejected = reopening ∷ completing comment ∷ verifying comment ∷ []
to_close comment verified = reopening ∷ completing comment ∷ verifying comment ∷ []
to_close comment closed = reopening ∷ completing comment ∷ verifying comment ∷ []
to_close comment _ = []

module _ (p : Prisma) (now : ℕ) (actor_id rid : String) where
  -- One request after another, up to the first that throws.
  abbrev pub handle_all : List Request → Exec CaException (CaDb p) (Unit {0})
  handle_all [] = skip
  handle_all (request ∷ rest) = handle p now actor_id rid request >> handle_all rest

  abbrev Row : CaDb p → CorrectiveAction → Type 0
  Row s row = p.find_unique (id rid) s.corrective_actions ≡ some row

  abbrev changed : Request → CorrectiveAction → CorrectiveAction
  changed request row = record (change_for p now actor_id request row row) { updated_at = now }

  abbrev Returned : CorrectiveAction → Outcome CaException CaDetail × CaDb p → Type 0
  Returned row r = (r ≡ (ok (detail_of p row r.1), r.1)) × Row r.1 row

  -- The request returns, and leaves the changed row.
  abbrev Advances : Request → CaDb p → CorrectiveAction → Type 0
  Advances request s row = Returned (changed request row) (handle p now actor_id rid request s)

  module _ (laws : PrismaLaws p) where
    finish-Returned :
        (change : CorrectiveAction → CorrectiveAction) (action : String) (s : CaDb p)
        (row : CorrectiveAction)
        → Row s row
        → Returned
            (record (change row) { updated_at = now })
            (finish p now actor_id change rid action State.empty s)
    unfolding finish audit get_by_id require_action
    finish-Returned change action s row found =
        let stored : p.find_unique (id rid)
              (p.update (id rid) (λ r. record (change r) { updated_at = now }) s.corrective_actions)
            ≡ some (record (change row) { updated_at = now }) =
          laws.find_unique-update (id rid) (id rid) (λ r. record (change r) { updated_at = now })
            s.corrective_actions
          ∙ rw (eq_refl rid, found) refl in
        (rw stored refl, rw stored stored)

    abbrev Fits : Request → CorrectiveAction → Type 0
    Fits request row =
        (includes_status (allowed_for p now actor_id request) row.status ≡ true)
        × Admits p now actor_id request row

    reopens :
        (s : CaDb p) (row : CorrectiveAction)
        → Row s row
        → Fits reopening row
        → Advances reopening s row
    unfolding handle reopen require_action assert_transition
    reopens s row found (allowed, admits) =
        rw (found, allowed) (finish-Returned (reopen_change now) "CA_REOPENED" s row found)

    completes :
        (comment : String) (s : CaDb p) (row : CorrectiveAction)
        → Row s row
        → Fits (completing comment) row
        → Advances (completing comment) s row
    unfolding handle complete require_action assert_transition
    completes comment s row found (allowed, given) =
        rw (found, allowed, given)
          (finish-Returned (complete_change now comment) "CA_COMPLETED" s row found)

    verifies :
        (comment : String) (s : CaDb p) (row : CorrectiveAction)
        → Row s row
        → Fits (verifying comment) row
        → Advances (verifying comment) s row
    unfolding handle verify require_action assert_transition
    verifies comment s row found (allowed, (given, other)) =
        rw (found, allowed, given, other)
          (finish-Returned (verify_change now actor_id comment) "CA_VERIFIED_CLOSED" s row found)

    abbrev ClosesFrom : CaDb p → CorrectiveAction → List Request → Type 0
    ClosesFrom s row requests =
        (s' : CaDb p) × (last : CorrectiveAction) × (handle_all requests s ≡ (ok tt, s'))
        × Row s' last
        × (last.status ≡ closed)

    -- One request and then the others.
    step-ClosesFrom :
        (request : Request) (rest : List Request) (s : CaDb p) (row : CorrectiveAction)
        → Advances request s row
        → ClosesFrom (handle p now actor_id rid request s).1 (changed request row) rest
        → ClosesFrom s row (request ∷ rest)
    step-ClosesFrom request rest s row (returned, found) (s', last, ran, stored, status) =
        (s', last, rw returned ran, stored, status)

    module _ (comment : String) (given : is_truthy (trim comment) ≡ true) where
      verify-ClosesFrom :
          (s : CaDb p) (row : CorrectiveAction)
          → Row s row
          → includes_status verifyable row.status ≡ true
          → is_assignee actor_id row.assigned_to_id ≡ false
          → ClosesFrom s row (verifying comment ∷ [])
      verify-ClosesFrom s row found allowed other =
          let done = verifies comment s row found (allowed, (given, other)) in
          step-ClosesFrom (verifying comment) [] s row done (_, _, refl, done.1, refl)

      complete-ClosesFrom :
          (s : CaDb p) (row : CorrectiveAction)
          → Row s row
          → includes_status completable row.status ≡ true
          → is_assignee actor_id row.assigned_to_id ≡ false
          → ClosesFrom s row (completing comment ∷ verifying comment ∷ [])
      complete-ClosesFrom s row found allowed other =
          let done = completes comment s row found (allowed, given) in
          step-ClosesFrom (completing comment) (verifying comment ∷ []) s row done
            (verify-ClosesFrom _ (changed (completing comment) row) done.1 refl other)

      reopen-ClosesFrom :
          (s : CaDb p) (row : CorrectiveAction)
          → Row s row
          → includes_status reopenable row.status ≡ true
          → is_assignee actor_id row.assigned_to_id ≡ false
          → ClosesFrom s row (reopening ∷ completing comment ∷ verifying comment ∷ [])
      reopen-ClosesFrom s row found allowed other =
          let done = reopens s row found (allowed, tt) in
          step-ClosesFrom reopening (completing comment ∷ verifying comment ∷ []) s row done
            (complete-ClosesFrom _ (changed reopening row) done.1 refl other)

      by_status :
          (c : CaStatus) (s : CaDb p) (row : CorrectiveAction)
          → row.status ≡ c
          → Row s row
          → is_final c ≡ false
          → is_assignee actor_id row.assigned_to_id ≡ false
          → ClosesFrom s row (to_close comment c)
      by_status opened s row e found live other = complete-ClosesFrom s row found (rw e refl) other
      by_status assigned s row e found live other =
          complete-ClosesFrom s row found (rw e refl) other
      by_status in_progress s row e found live other =
          complete-ClosesFrom s row found (rw e refl) other
      by_status reopened s row e found live other =
          complete-ClosesFrom s row found (rw e refl) other
      by_status completed s row e found live other = verify-ClosesFrom s row found (rw e refl) other
      by_status pending_verification s row e found live other =
          verify-ClosesFrom s row found (rw e refl) other
      by_status rejected s row e found live other = reopen-ClosesFrom s row found (rw e refl) other
      by_status verified s row e found live other = reopen-ClosesFrom s row found (rw e refl) other
      by_status closed s row e found live other = reopen-ClosesFrom s row found (rw e refl) other
      by_status overdue s row e found live other = cc live
      by_status cancelled s row e found live other = cc live
      by_status cancelled_with_reason s row e found live other = cc live

    -- Given the laws of the database client: a corrective action that is stored in any status but
    -- overdue and the two cancelled ones can be closed by one user who is not its assignee and gives
    -- a comment that is not blank: reopening it first where it is rejected, verified or closed,
    -- completing it where it is not completed yet, and verifying it. Each of these requests
    -- returns, and the action is stored as closed afterwards.
    pub to_close-ClosesFrom :
        (comment : String) (s : CaDb p) (row : CorrectiveAction)
        → p.find_unique (id rid) s.corrective_actions ≡ some row
        → is_truthy (trim comment) ≡ true
        → is_final row.status ≡ false
        → is_assignee actor_id row.assigned_to_id ≡ false
        → (s' : CaDb p) × (last : CorrectiveAction) × (handle_all (to_close comment row.status) s
            ≡ (ok tt, s'))
          × (p.find_unique (id rid) s'.corrective_actions ≡ some last)
          × (last.status ≡ closed)
    to_close-ClosesFrom comment s row found given live other =
        by_status comment given row.status s row refl found live other

-- No operation is allowed in a final status.
never_allowed :
    (p : Prisma) (now : ℕ) (actor_id : String) (request : Request) (c : CaStatus)
    → is_final c ≡ true
    → includes_status (allowed_for p now actor_id request) c ≡ false
never_allowed p now actor_id request c h = ground arith

module _ (p : Prisma) (now : ℕ) (actor_id rid : String) where
  -- No request moves a corrective action that is overdue or cancelled: each throws, whoever makes it,
  -- and changes nothing.
  pub final-handle :
      (request : Request) (s : CaDb p) (row : CorrectiveAction)
      → p.find_unique (id rid) s.corrective_actions ≡ some row
      → is_final row.status ≡ true
      → (action : String) × (handle p now actor_id rid request s
          ≡ (err (cannot action row.status), s))
  unfolding handle assign start complete verify reject reopen cancel require_action
      assert_transition
  final-handle (assigning assignee_id due_date) s row found h = (
    "assign",
    rw (found, never_allowed p now actor_id (assigning assignee_id due_date) row.status h) refl,
  )
  final-handle starting s row found h =
      ("start", rw (found, never_allowed p now actor_id starting row.status h) refl)
  final-handle (completing comment) s row found h =
      ("complete", rw (found, never_allowed p now actor_id (completing comment) row.status h) refl)
  final-handle (verifying comment) s row found h =
      ("verify", rw (found, never_allowed p now actor_id (verifying comment) row.status h) refl)
  final-handle (rejecting reason) s row found h =
      ("reject", rw (found, never_allowed p now actor_id (rejecting reason) row.status h) refl)
  final-handle reopening s row found h =
      ("reopen", rw (found, never_allowed p now actor_id reopening row.status h) refl)
  final-handle (cancelling reason) s row found h =
      ("cancel", rw (found, never_allowed p now actor_id (cancelling reason) row.status h) refl)
