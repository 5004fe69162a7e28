-- ===== src/Inspections/Submit/Keeping.antt =====
-- After its claim, the transaction of submit, which writes corrective actions, tasks, the truck and
-- audit entries, leaves the records, the approvals and the template versions alone.
use fg_details_to_be_added_f.Prelude.{
  ℕ, zero, suc, String, ◌==◌, Option, none, some, List, [], ◌∷◌, find_last, lookup, refl, arith,
}
use fg_details_to_be_added_f.Checklist.Items.{Response, ResponseMap, Item}
use fg_details_to_be_added_f.Loading.{LoadingDecision}
use fg_details_to_be_added_f.Exec.{Exec, ◌>>=◌, ◌>>◌, pure, modify}
use fg_details_to_be_added_f.Prisma.{Prisma}
use fg_details_to_be_added_f.Inspections.State
use fg_details_to_be_added_f.Inspections.State.{
  RequestUser, InspectionRecord, InspectionResult, World, Db,
}
use fg_details_to_be_added_f.Inspections.Review.{is_task_of}
use fg_details_to_be_added_f.Inspections.Untouched.{Keeps, Untouched-refl, bind-Keeps}
use fg_details_to_be_added_f.Inspections.Submit.{
  create_for_item, create_corrective_action, create_corrective_actions_for_failures,
  record_loading_decision_recommendation, decide_loading, after_claim,
}

module _ (p : Prisma) (user : RequestUser) (rid : String) where
  create_for_item-Keeps :
      (item : Item) (r : Option Response) (result : Option InspectionResult)
      → Keeps p (create_for_item p user rid item r result)
  unfolding create_for_item create_corrective_action
  create_for_item-Keeps item r none s = Untouched-refl p
  create_for_item-Keeps item r (some result) s = record {
    records = ground arith;
    approvals = ground arith;
    versions = ground arith;
  }

  pub create_corrective_actions-Keeps :
      (items : List Item) (responses : ResponseMap) (results : List InspectionResult)
      → Keeps p (create_corrective_actions_for_failures p user rid items responses results)
  unfolding create_corrective_actions_for_failures
  create_corrective_actions-Keeps [] responses results s = Untouched-refl p
  create_corrective_actions-Keeps (item ∷ items) responses results s =
      let rest : ℕ → Exec State.Exception (Db p) ℕ = λ n.
        create_corrective_actions_for_failures p user rid items responses results >>= λ m.
        pure (elim n [ zero ↦ m | suc k ↦ suc m ]) in
      bind-Keeps p
        (create_for_item p user rid item (lookup item.id responses)
          (find_last (λ r. r.item_id == item.id) results))
        rest
        (create_for_item-Keeps item (lookup item.id responses)
          (find_last (λ r. r.item_id == item.id) results))
        (λ n.
          bind-Keeps p (create_corrective_actions_for_failures p user rid items responses results)
            (λ m. pure (elim n [ zero ↦ m | suc k ↦ suc m ]))
            (create_corrective_actions-Keeps items responses results) (λ m s. Untouched-refl p))
        s

module _ (p : Prisma) (w : World) (user : RequestUser) where
  decide_loading-Keeps :
      (r : InspectionRecord) (items : List Item) (responses : ResponseMap)
      → Keeps p (decide_loading p w user r items responses)
  unfolding decide_loading record_loading_decision_recommendation
  decide_loading-Keeps r items responses s = record {
    records = ground arith;
    approvals = ground arith;
    versions = ground arith;
  }

  pub after_claim-Keeps :
      (r : InspectionRecord) (items : List Item) (responses : ResponseMap)
      (results : List InspectionResult)
      → Keeps p (after_claim p w user r items responses results)
  unfolding after_claim
  after_claim-Keeps r items responses results =
      let submit_tasks : Db p → Db p = λ s. record s {
        tasks =
            p.update_many (is_task_of r.id) (λ t. record t { status = State.submitted }) s.tasks;
      } in
      let decide : ℕ → Exec State.Exception (Db p) (ℕ × Option LoadingDecision) =
        λ created. decide_loading p w user r items responses >>= λ d. pure (created, d) in
      bind-Keeps p (create_corrective_actions_for_failures p user r.id items responses results)
        (λ created. modify submit_tasks >> decide created)
        (create_corrective_actions-Keeps p user r.id items responses results)
        (λ created.
          bind-Keeps p (modify submit_tasks) (λ _. decide created)
            (λ s. record { records = refl; approvals = refl; versions = refl })
            (λ _.
              bind-Keeps p (decide_loading p w user r items responses) (λ d. pure (created, d))
                (decide_loading-Keeps r items responses) (λ d s. Untouched-refl p)))
