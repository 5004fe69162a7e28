-- ===== src/Inspections/Decision.antt =====
-- The final loading decision: approveLoadingDecision of inspection-records.service.ts.
pub mod Laws
pub mod Effects
use fg_details_to_be_added_f.Prelude.{
  ℕ, String, Bool, true, false, ◌&&◌, not, Option, none, some, List, [], ◌∷◌, if◌then◌else◌,
}
use fg_details_to_be_added_f.Loading.{
  LoadingDecision, approved_for_loading, conditionally_approved, is_override_to_approved_allowed,
}
use fg_details_to_be_added_f.Exec.{Exec, ◌>>=◌, ◌>>◌, gets, modify, or_throw, throw, require}
use fg_details_to_be_added_f.Prisma.{Prisma, id}
use fg_details_to_be_added_f.Inspections.State
use fg_details_to_be_added_f.Inspections.State.{
  RequestUser, InspectionRecord, TruckDetail, Exception, invalid_record_payload,
  not_a_truck_inspection, loading_decision_forbidden, critical_failure_override, decision_changed,
  Parsed, success, failure, World, Db,
}
use fg_details_to_be_added_f.Inspections.Access.{
  has_any_role, loading_decision_roles, find_record_or_throw,
}
use fg_details_to_be_added_f.Inspections.Detail.{Detail, get_by_id}
use fg_details_to_be_added_f.Inspections.Review.{create_approval}

-- LoadingDecisionInput
pub record DecisionInput : Type 0 where
  pub decision : LoadingDecision
  pub remarks : Option String

abbrev pub is_approved_outcome : LoadingDecision → Bool
is_approved_outcome approved_for_loading = true
is_approved_outcome conditionally_approved = true
is_approved_outcome _ = false

-- `parsed.data.remarks ?? record.truckDetail.remarks`
abbrev given_or_kept : Option String → Option String → Option String
given_or_kept none kept = kept
given_or_kept (some s) kept = some s

module _ (p : Prisma) (w : World) (user : RequestUser) where
  -- The update of the truck.
  abbrev pub decided : Option String → DecisionInput → TruckDetail → TruckDetail
  decided remarks input t = record t {
    loading_decision = input.decision;
    decided_by_id = some user.id;
    decided_at = some w.now;
    remarks = given_or_kept input.remarks remarks;
  }

  -- The three writes; they stand in no transaction.
  unfoldable pub write_decision :
      InspectionRecord → TruckDetail → DecisionInput → Exec Exception (Db p) (Unit {0})
  unfolding create_approval
  write_decision r truck input = do
    modify (λ s. record s { trucks = p.update (id r.id) (decided truck.remarks input) s.trucks })
    create_approval p (record {
      record_id = r.id;
      approval_type = State.loading_decision;
      decision = if is_approved_outcome input.decision then State.approved else State.rejected;
      decided_by_id = user.id;
      decided_at = w.now;
      comments = input.remarks;
    })
    modify (λ s. record s {
      audit_logs =
          p.create (id (p.next_id s.audit_logs))
            (record {
              actor_id = user.id;
              action = "LOADING_DECISION_CHANGED";
              entity_type = "TruckInspectionDetail";
              entity_id = some truck.id;
              metadata = decision_changed r.id truck.loading_decision input.decision input.remarks;
            })
            s.audit_logs;
    })

  -- approveLoadingDecision from the record and its truck on.
  decide_found :
      String → DecisionInput → InspectionRecord → TruckDetail → Exec Exception (Db p) Detail
  unfolding write_decision get_by_id
  decide_found rid input r truck = do
    require
        (not (
          is_approved_outcome input.decision
          && not (is_override_to_approved_allowed truck.recommended_decision)))
        critical_failure_override
    write_decision r truck input
    get_by_id p user rid

  -- approveLoadingDecision behind the role check and the parse.
  decide_parsed : String → DecisionInput → Exec Exception (Db p) Detail
  unfolding find_record_or_throw decide_found
  decide_parsed rid input = do
    r ← find_record_or_throw p rid
    found ← gets (λ s. p.find_unique (id r.id) s.trucks)
    truck ← or_throw (not_a_truck_inspection rid) found
    decide_found rid input r truck

  -- approveLoadingDecision
  unfoldable pub approve_loading_decision :
      String → Parsed DecisionInput → Exec Exception (Db p) Detail
  unfolding decide_parsed
  approve_loading_decision rid parsed = do
    require (has_any_role user.roles loading_decision_roles) loading_decision_forbidden
    elim parsed [
      | failure message ↦ throw (invalid_record_payload message)
      | success input ↦ decide_parsed rid input
    ]
