-- ===== src/Inspections/Decision/Effects.antt =====
-- The effects of approveLoadingDecision of inspection-records.service.ts on the records, the template
-- versions and the approvals.
use fg_details_to_be_added_f.Prelude.{
  String, ◌≡◌, ◌⊎◌, inl, inr, refl, Bool, true, false, ◌&&◌, not, Option-cases, Bool-cases,
}
use fg_details_to_be_added_f.Loading.{is_override_to_approved_allowed}
use fg_details_to_be_added_f.Exec.{◌>>◌, require, throw}
use fg_details_to_be_added_f.Prisma.{Prisma, id}
use fg_details_to_be_added_f.Inspections.State.{
  RequestUser, InspectionRecord, TruckDetail, ApprovalRecord, invalid_record_payload,
  loading_decision_forbidden, Parsed, success, failure, World, Db,
}
use fg_details_to_be_added_f.Inspections.Access.{
  has_any_role, loading_decision_roles, find_record_or_throw,
}
use fg_details_to_be_added_f.Inspections.Review.Effects.{get_by_id-state}
use fg_details_to_be_added_f.Inspections.Decision.{
  DecisionInput, is_approved_outcome, write_decision, decide_found, decide_parsed,
  approve_loading_decision,
}

module _ (p : Prisma) where
  -- No record and no version has changed, and at most one approval is new.
  pub record IsDecided (s s' : Db p) : Type 0 where
    pub records : s'.records ≡ s.records
    pub versions : s'.versions ≡ s.versions
    pub approvals :
        (s'.approvals ≡ s.approvals)
        ⊎ ((a : ApprovalRecord) × (s'.approvals
              ≡ p.create (id (p.next_id s.approvals)) a s.approvals))

  IsDecided-refl : (s : Db p) → IsDecided s s
  IsDecided-refl s = record { records = refl; versions = refl; approvals = inl refl }

  module _ (w : World) (user : RequestUser) where
    write_decision-IsDecided :
        (r : InspectionRecord) (truck : TruckDetail) (input : DecisionInput) (s : Db p)
        → IsDecided s (write_decision p w user r truck input s).1
    unfolding write_decision
    write_decision-IsDecided r truck input s = record {
      records = refl;
      versions = refl;
      approvals = inr (_, refl);
    }

    decide_found-IsDecided :
        (rid : String) (input : DecisionInput) (r : InspectionRecord) (truck : TruckDetail)
        (s : Db p)
        → IsDecided s (decide_found p w user rid input r truck s).1
    unfolding decide_found write_decision
    decide_found-IsDecided rid input r truck s =
        elim (Bool-cases (
          is_approved_outcome input.decision
          && not (is_override_to_approved_allowed truck.recommended_decision))) [
            | inl barred ↦ rw barred (IsDecided-refl s)
            | inr allowed ↦
                rw (allowed, get_by_id-state p user rid (write_decision p w user r truck input s).1)
                  (write_decision-IsDecided r truck input s)
          ]

    decide_parsed-IsDecided :
        (rid : String) (input : DecisionInput) (s : Db p)
        → IsDecided s (decide_parsed p w user rid input s).1
    unfolding decide_parsed find_record_or_throw
    decide_parsed-IsDecided rid input s = elim (Option-cases (p.find_unique (id rid) s.records)) [
      | inl missing ↦ rw missing (IsDecided-refl s)
      | inr (r, found) ↦ elim (Option-cases (p.find_unique (id r.id) s.trucks)) [
        | inl no_truck ↦ rw (found, no_truck) (IsDecided-refl s)
        | inr (truck, has) ↦ rw (found, has) (decide_found-IsDecided rid input r truck s)
      ]
    ]

    pub approve_loading_decision-IsDecided :
        (rid : String) (parsed : Parsed DecisionInput) (s : Db p)
        → IsDecided s (approve_loading_decision p w user rid parsed s).1
    unfolding approve_loading_decision
    approve_loading_decision-IsDecided rid parsed s =
        gated (has_any_role user.roles loading_decision_roles) parsed
      where
        gated :
            (allowed : Bool) (parsed : Parsed DecisionInput)
            → IsDecided s
                ((require allowed loading_decision_forbidden >> (elim parsed [
                  | failure message ↦ throw (invalid_record_payload message)
                  | success input ↦ decide_parsed p w user rid input
                ]))
                  s).1
        gated false parsed = IsDecided-refl s
        gated true (failure message) = IsDecided-refl s
        gated true (success input) = decide_parsed-IsDecided rid input s
