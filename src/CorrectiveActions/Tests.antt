-- ===== src/CorrectiveActions/Tests.antt =====
-- Tests of apps/api/src/corrective-actions on a small database: one action, its assignee and a
-- verifier.
use fg_details_to_be_added_f.Prelude.{String, ◌≡◌, refl, subst, none, some, [], ◌∷◌, arith, trim}
use fg_details_to_be_added_f.Exec.{ok, err}
use fg_details_to_be_added_f.Prisma.{Key, id}
use fg_details_to_be_added_f.Prisma.Memory.{memory, memory_laws}
use fg_details_to_be_added_f.Prisma.Rows.{AllRows}
use fg_details_to_be_added_f.Inspections.State
use fg_details_to_be_added_f.Accounts.State as Accounts
use fg_details_to_be_added_f.CorrectiveActions.State as CaState
use fg_details_to_be_added_f.CorrectiveActions.State.{
  CaStatus, CorrectiveAction, CaDb, cannot, own_action,
}
use fg_details_to_be_added_f.CorrectiveActions.{
  starting, completing, rejecting, Request, handle, verify, assign,
}
use fg_details_to_be_added_f.CorrectiveActions.Invariant.{
  IsAccounted, here, after, requests, Reach-IsAccounted,
}
use fg_details_to_be_added_f.CorrectiveActions.Closing.{
  to_close, handle_all, to_close-ClosesFrom, final-handle,
}

abbrev row : CaStatus → CorrectiveAction
row status = record {
  id = "a1";
  record_id = some "r1";
  result_id = none;
  action_number = none;
  title = "Seal torn";
  description = "";
  status = status;
  priority = State.medium;
  root_cause = none;
  immediate_correction = none;
  completion_comment = none;
  verification_comment = none;
  rejection_reason = none;
  cancel_reason = none;
  created_by_id = "op";
  assigned_to_id = some "fixer";
  verified_by_id = none;
  closed_by_id = none;
  due_date = none;
  completed_at = none;
  verified_at = none;
  closed_at = none;
  reopened_at = none;
  created_at = 1;
  updated_at = 1;
}

abbrev db : CaStatus → CaDb memory
db status = record {
  corrective_actions = (id "a1", row status) ∷ [];
  people =
      (id "fixer", record { id = "fixer"; full_name = "Nimal"; status = Accounts.active }) ∷ [];
  evidence = [];
  audits = [];
}

assignee_cannot_verify :
    verify memory 9 "fixer" "a1" "fine" (db CaState.pending_verification)
    ≡ (err own_action, db CaState.pending_verification)
unfolding verify trim
assignee_cannot_verify = refl

unknown_assignee :
    (assign memory 9 "qa" "a1" "nobody" none (db CaState.opened)).0 ≡ err CaState.inactive_assignee
unfolding assign
unknown_assignee = refl

only_row :
    (status : CaStatus) (k : Key) (r : CorrectiveAction)
    → memory.find_unique k (db status).corrective_actions ≡ some r
    → row status ≡ r
only_row status k r e = ground arith

-- The worker completes and starts, and others verify, reject and cancel.
abbrev MayRequest : String → Request → Type 0
MayRequest u (completing comment) = u ≡ "fixer"
MayRequest u starting = u ≡ "fixer"
MayRequest u request = u ≡ "qa"

open_IsAccounted : IsAccounted MayRequest (row CaState.opened)
open_IsAccounted = record {
  closing = λ e. cc;
  waiting = λ e. cc;
  rejecting = λ e. cc;
  cancelling = λ e. cc;
}

Reach-IsAccounted_example :
    AllRows memory
      (IsAccounted MayRequest)
      (handle memory 8 "qa" "a1"
        (rejecting "still torn")
        (handle memory 7 "fixer" "a1" starting (db CaState.opened)).1).1.corrective_actions
Reach-IsAccounted_example =
    Reach-IsAccounted memory memory_laws MayRequest (db CaState.opened)
      (handle memory 8 "qa" "a1" (rejecting "still torn")
        (handle memory 7 "fixer" "a1" starting (db CaState.opened)).1).1
      (after (after here (requests 7 "fixer" "a1" starting refl))
        (requests 8 "qa" "a1" (rejecting "still torn") refl))
      (λ k r e. subst (IsAccounted MayRequest) (only_row CaState.opened k r e) open_IsAccounted)

to_close-ClosesFrom_example :
    (s' : CaDb memory) × (last : CorrectiveAction) × (handle_all memory 9 "qa" "a1"
        (to_close "fine" CaState.rejected)
        (db CaState.rejected)
      ≡ (ok tt, s'))
    × (memory.find_unique (id "a1") s'.corrective_actions ≡ some last)
    × (last.status ≡ CaState.closed)
unfolding trim
to_close-ClosesFrom_example =
    to_close-ClosesFrom memory 9 "qa" "a1" memory_laws "fine" (db CaState.rejected)
      (row CaState.rejected) refl refl refl refl

final-handle_example :
    (action : String) × (handle memory 9 "qa" "a1" starting (db CaState.overdue)
      ≡ (err (cannot action CaState.overdue), db CaState.overdue))
final-handle_example =
    final-handle memory 9 "qa" "a1" starting (db CaState.overdue) (row CaState.overdue) refl refl
