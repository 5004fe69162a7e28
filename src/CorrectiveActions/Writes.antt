-- ===== src/CorrectiveActions/Writes.antt =====
-- What each operation of corrective-actions.service.ts changes in the corrective actions.
use fg_details_to_be_added_f.Prelude.{
  not, ℕ, String, ◌≡◌, ◌⊎◌, inl, inr, refl, Bool, true, false, some, List, Option-cases, Bool-cases,
  arith, trim, is_truthy,
}
use fg_details_to_be_added_f.Prisma.{Prisma, id}
use fg_details_to_be_added_f.Accounts.State.{is_active}
use fg_details_to_be_added_f.CorrectiveActions.State
use fg_details_to_be_added_f.Exec.{Exec, ◌>>=◌, ◌>>◌, require}
use fg_details_to_be_added_f.CorrectiveActions.State.{
  CaException, assignment, inactive_assignee, is_required, own_action, CaStatus, includes_status,
  CorrectiveAction, Metadata, CaDb,
}
use fg_details_to_be_added_f.CorrectiveActions.{
  CaDetail, audit, is_active, assignable, startable, completable, verifyable, rejectable,
  reopenable, cancelable, require_action, get_by_id, assert_transition, finish, assign_change,
  start_change, complete_change, is_assignee, verify_change, reject_change, reopen_change,
  cancel_change, assign, start, complete, verify, reject, reopen, cancel, Request, assigning,
  starting, completing, verifying, rejecting, reopening, cancelling, handle,
}

module _ (p : Prisma) (now : ℕ) (actor_id : String) where
  -- The statuses that a request is allowed in.
  abbrev pub allowed_for : Request → List CaStatus
  allowed_for (assigning assignee_id due_date) = assignable
  allowed_for starting = startable
  allowed_for (completing comment) = completable
  allowed_for (verifying comment) = verifyable
  allowed_for (rejecting reason) = rejectable
  allowed_for reopening = reopenable
  allowed_for (cancelling reason) = cancelable

  -- What a request does to the row that it was read from.
  abbrev pub change_for : Request → CorrectiveAction → CorrectiveAction → CorrectiveAction
  change_for (assigning assignee_id due_date) was = assign_change assignee_id due_date was.due_date
  change_for starting was = start_change
  change_for (completing comment) was = complete_change now comment
  change_for (verifying comment) was = verify_change now actor_id comment
  change_for (rejecting reason) was = reject_change actor_id reason
  change_for reopening was = reopen_change now
  change_for (cancelling reason) was = cancel_change now actor_id reason

  -- The guards beyond the status.
  abbrev pub Admits : Request → CorrectiveAction → Type 0
  Admits (assigning assignee_id due_date) row = Unit
  Admits starting row = Unit
  Admits (completing comment) row = is_truthy (trim comment) ≡ true
  Admits (verifying comment) row =
      (is_truthy (trim comment) ≡ true) × (is_assignee actor_id row.assigned_to_id ≡ false)
  Admits (rejecting reason) row = is_truthy (trim reason) ≡ true
  Admits reopening row = Unit
  Admits (cancelling reason) row = is_truthy (trim reason) ≡ true

  -- A request that writes was made on a row that is there, in a status that allows it.
  pub record IsWritten (rid : String) (request : Request) (s s' : CaDb p) (row : CorrectiveAction)
      : Type 0 where
    pub found : p.find_unique (id rid) s.corrective_actions ≡ some row
    pub allowed : includes_status (allowed_for request) row.status ≡ true
    pub admits : Admits request row
    pub written :
        s'.corrective_actions
        ≡ p.update
            (id rid)
            (λ r. record (change_for request row r) { updated_at = now })
            s.corrective_actions

  -- A request whose row is missing, or in another status, changes nothing.
  through :
      (P : CaDb p → Type 0) (rid action : String) (allowed : List CaStatus)
      (rest : CorrectiveAction → Exec CaException (CaDb p) CaDetail) (s : CaDb p)
      → P s
      → ((row : CorrectiveAction)
          → p.find_unique (id rid) s.corrective_actions ≡ some row
          → includes_status allowed row.status ≡ true
          → P (rest row s).1)
      → P
          ((require_action p rid >>= λ row.
              assert_transition p row.status allowed action >> rest row)
            s).1
  unfolding require_action assert_transition
  through P rid action allowed rest s same run =
      elim (Option-cases (p.find_unique (id rid) s.corrective_actions)) [
        | inl missing ↦ rw missing same
        | inr (row, found) ↦ elim (Bool-cases (includes_status allowed row.status)) [
          | inr barred ↦ rw (found, barred) same
          | inl ok_status ↦ rw (found, ok_status) (run row found ok_status)
        ]
      ]

  -- A further guard that fails changes nothing.
  guarded :
      (P : CaDb p → Type 0) (test : Bool) (e : CaException)
      (rest : Exec CaException (CaDb p) CaDetail) (s : CaDb p)
      → P s
      → (test ≡ true → P (rest s).1)
      → P ((require test e >> rest) s).1
  guarded P true e rest s same run = run refl
  guarded P false e rest s same run = same

  finish_lem :
      (change : CorrectiveAction → CorrectiveAction) (rid action : String) (metadata : Metadata)
      (s : CaDb p)
      → (finish p now actor_id change rid action metadata s).1.corrective_actions
        ≡ p.update (id rid) (λ r. record (change r) { updated_at = now }) s.corrective_actions
  unfolding finish audit get_by_id require_action
  finish_lem change rid action metadata s = ground arith

  abbrev pub Result : String → Request → CaDb p → CaDb p → Type 0
  Result rid request s s' = (s' ≡ s) ⊎ ((row : CorrectiveAction) × IsWritten rid request s s' row)

  finish-Result :
      (rid : String) (request : Request) (action : String) (metadata : Metadata) (s : CaDb p)
      (row : CorrectiveAction)
      → p.find_unique (id rid) s.corrective_actions ≡ some row
      → includes_status (allowed_for request) row.status ≡ true
      → Admits request row
      → Result rid request s
          (finish p now actor_id (change_for request row) rid action metadata s).1
  finish-Result rid request action metadata s row found allowed admits =
      let written = finish_lem (change_for request row) rid action metadata s in
      inr (row, record { found = found; allowed = allowed; admits = admits; written = written })

  -- Each request, returning or throwing, either changes nothing or writes an admitted change.
  pub handle-Result :
      (rid : String) (request : Request) (s : CaDb p)
      → Result rid request s (handle p now actor_id rid request s).1
  unfolding handle assign start complete verify reject reopen cancel
  handle-Result rid (assigning assignee_id due_date) s =
      let P = Result rid (assigning assignee_id due_date) s in
      through P rid "assign" assignable _ s (inl refl) (λ row found ok.
        elim (Option-cases (p.find_unique (id assignee_id) s.people)) [
          | inl missing ↦ rw missing (inl refl)
          | inr (assignee, known) ↦ rw known (
              guarded P (is_active assignee.status) inactive_assignee _ s (inl refl) (λ live.
                finish-Result rid (assigning assignee_id due_date) "CA_ASSIGNED"
                  (assignment assignee_id due_date) s row found ok tt))
        ])
  handle-Result rid starting s =
      through (Result rid starting s) rid "start" startable _ s (inl refl)
        (λ row found ok. finish-Result rid starting "CA_STARTED" State.empty s row found ok tt)
  handle-Result rid reopening s =
      through (Result rid reopening s) rid "reopen" reopenable _ s (inl refl)
        (λ row found ok. finish-Result rid reopening "CA_REOPENED" State.empty s row found ok tt)
  handle-Result rid (completing comment) s =
      let P = Result rid (completing comment) s in
      through P rid "complete" completable _ s (inl refl) (λ row found ok.
        guarded P (is_truthy (trim comment)) (is_required State.completion_comment) _ s (inl refl)
          (λ given.
            finish-Result rid (completing comment) "CA_COMPLETED" State.empty s row found ok given))
  handle-Result rid (rejecting reason) s =
      let P = Result rid (rejecting reason) s in
      through P rid "reject" rejectable _ s (inl refl) (λ row found ok.
        guarded P (is_truthy (trim reason)) (is_required State.rejection_reason) _ s (inl refl)
          (λ given.
            finish-Result rid (rejecting reason) "CA_REJECTED" State.empty s row found ok given))
  handle-Result rid (cancelling reason) s =
      let P = Result rid (cancelling reason) s in
      through P rid "cancel" cancelable _ s (inl refl) (λ row found ok.
        guarded P (is_truthy (trim reason)) (is_required State.cancel_reason) _ s (inl refl)
          (λ given.
            finish-Result rid (cancelling reason) "CA_CANCELLED" State.empty s row found ok given))
  handle-Result rid (verifying comment) s =
      let P = Result rid (verifying comment) s in
      through P rid "verify" verifyable _ s (inl refl) (λ row found ok.
        guarded P (is_truthy (trim comment)) (is_required State.verification_comment) _ s (inl refl)
          (λ given.
            guarded P (not (is_assignee actor_id row.assigned_to_id)) own_action _ s (inl refl)
              (λ other.
                finish-Result rid (verifying comment) "CA_VERIFIED_CLOSED" State.empty s row found
                  ok (given, ground arith))))
