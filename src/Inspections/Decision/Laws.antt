-- ===== src/Inspections/Decision/Laws.antt =====
-- A critical failure cannot be overridden: no approved decision stands on a truck whose recommendation
-- is to block loading.
use mathlib.Core.Option
use fg_details_to_be_added_f.Prelude.{
  String, ◌==◌, eq_iff, ◌≡◌, ◌⊎◌, inl, inr, refl, sym, ap, subst, ◌∙◌, Bool, true, false, ◌&&◌, not,
  Option, none, some, List, Option-cases, Bool-cases, arith,
}
use fg_details_to_be_added_f.Checklist.Items.{Item, ResponseMap}
use fg_details_to_be_added_f.Loading.{
  loading_blocked, is_override_to_approved_allowed, compute_recommended_loading_decision,
}
use fg_details_to_be_added_f.Exec.{◌>>◌, require, throw}
use fg_details_to_be_added_f.Prisma.{Prisma, PrismaLaws, id}
use fg_details_to_be_added_f.Inspections.State.{
  RequestUser, InspectionRecord, TruckDetail, invalid_record_payload, loading_decision_forbidden,
  Parsed, success, failure, World, Db,
}
use fg_details_to_be_added_f.Inspections.Access.{
  has_any_role, loading_decision_roles, find_record_or_throw,
}
use fg_details_to_be_added_f.Inspections.Detail.{get_by_id}
use fg_details_to_be_added_f.Inspections.Submit.{record_loading_decision_recommendation}
use fg_details_to_be_added_f.Inspections.Decision.{
  DecisionInput, is_approved_outcome, decided, write_decision, decide_found, decide_parsed,
  approve_loading_decision,
}

abbrev pub IsHonest : TruckDetail → Type 0
IsHonest t =
    t.recommended_decision ≡ some loading_blocked → is_approved_outcome t.loading_decision ≡ false

module _ (p : Prisma) where
  abbrev pub AllHonest : Db p → Type 0
  AllHonest s = (k : String) (t : TruckDetail) → p.find_unique (id k) s.trucks ≡ some t → IsHonest t

  module _ (laws : PrismaLaws p) where
    IsHonest-map :
        (f : TruckDetail → TruckDetail) (o : Option TruckDetail) (t : TruckDetail)
        → ((q : TruckDetail) → o ≡ some q → IsHonest (f q))
        → Option.map f o ≡ some t
        → IsHonest t
    IsHonest-map f none t h e = cc
    IsHonest-map f (some q) t h e = subst IsHonest (some_same e) (h q refl)
      where
        some_same : {a b : TruckDetail} → some a ≡ some b → a ≡ b
        some_same e = cc e

    update-AllHonest :
        (rid : String) (f : TruckDetail → TruckDetail) (s s' : Db p)
        → AllHonest s
        → s'.trucks ≡ p.update (id rid) f s.trucks
        → ((q : TruckDetail) → p.find_unique (id rid) s.trucks ≡ some q → IsHonest (f q))
        → AllHonest s'
    update-AllHonest rid f s s' honest written sound k t e =
        let found =
          sym (laws.find_unique-update (id rid) (id k) f s.trucks)
          ∙ ap (p.find_unique (id k)) (sym written)
          ∙ e in
        elim (Bool-cases (rid == k)) [
          | inl here ↦
              IsHonest-map f (p.find_unique (id k) s.trucks) t
                (λ q was.
                  sound q (ap (λ i. p.find_unique (id i) s.trucks) ((eq_iff rid k).0 here) ∙ was))
                (rw here at found)
          | inr other ↦ honest k t (rw other at found)
        ]

    same-AllHonest : (s s' : Db p) → AllHonest s → s'.trucks ≡ s.trucks → AllHonest s'
    same-AllHonest s s' honest same k t e = honest k t (ap (p.find_unique (id k)) (sym same) ∙ e)

    module _ (w : World) (user : RequestUser) where
      recommended_write :
          (rid : String) (items : List Item) (responses : ResponseMap) (s : Db p)
          → let d = (compute_recommended_loading_decision items responses).decision in
            let s' = (record_loading_decision_recommendation p user rid items responses s).1 in
            (s'.trucks ≡ s.trucks)
            ⊎ (s'.trucks
                ≡ p.update
                    (id rid)
                    (λ t. record t { recommended_decision = some d; loading_decision = d })
                    s.trucks)
      unfolding record_loading_decision_recommendation
      recommended_write rid items responses s =
          elim (Option-cases (p.find_unique (id rid) s.trucks)) [
            | inl missing ↦ inl (ground arith)
            | inr (t, found) ↦ inr (ground arith)
          ]

      -- Given the laws of the database client: if no truck whose recommendation is to block loading
      -- has an approved decision, then none has one after the recommendation of a submission is
      -- recorded, whatever was decided before.
      pub record_recommendation-AllHonest :
          (rid : String) (items : List Item) (responses : ResponseMap) (s : Db p)
          → AllHonest s
          → AllHonest (record_loading_decision_recommendation p user rid items responses s).1
      record_recommendation-AllHonest rid items responses s honest =
          let s' = (record_loading_decision_recommendation p user rid items responses s).1 in
          elim (recommended_write rid items responses s) [
            | inl same ↦ same-AllHonest s s' honest same
            | inr written ↦ update-AllHonest rid _ s s' honest written (λ q _ blocked. ground arith)
          ]

      decided_write :
          (rid : String) (input : DecisionInput) (r : InspectionRecord) (truck : TruckDetail)
          (s : Db p)
          → let s' = (decide_found p w user rid input r truck s).1 in
            (s'.trucks ≡ s.trucks)
            ⊎ ((s'.trucks ≡ p.update (id r.id) (decided p w user truck.remarks input) s.trucks)
                × (truck.recommended_decision ≡ some loading_blocked
                    → is_approved_outcome input.decision ≡ false))
      unfolding decide_found write_decision is_override_to_approved_allowed get_by_id
      decided_write rid input r truck s =
          elim (Bool-cases (
            is_approved_outcome input.decision
            && not (is_override_to_approved_allowed truck.recommended_decision))) [
              | inl barred ↦ inl (ground arith)
              | inr allowed ↦ inr (ground arith, λ e. ground arith)
            ]

      decide_found-AllHonest :
          (rid : String) (input : DecisionInput) (r : InspectionRecord) (truck : TruckDetail)
          (s : Db p)
          → AllHonest s
          → p.find_unique (id r.id) s.trucks ≡ some truck
          → AllHonest (decide_found p w user rid input r truck s).1
      decide_found-AllHonest rid input r truck s honest found =
          let s' = (decide_found p w user rid input r truck s).1 in
          elim (decided_write rid input r truck s) [
            | inl same ↦ same-AllHonest s s' honest same
            | inr (written, guard) ↦
                update-AllHonest r.id (decided p w user truck.remarks input) s s' honest written
                  (λ q was blocked. guard (ground arith))
          ]

      decide_parsed-reaches :
          (rid : String) (input : DecisionInput) (s : Db p)
          → ((decide_parsed p w user rid input s).1 ≡ s)
            ⊎ ((r : InspectionRecord) × (truck : TruckDetail) × (p.find_unique (id r.id) s.trucks
                  ≡ some truck)
                × ((decide_parsed p w user rid input s).1
                    ≡ (decide_found p w user rid input r truck s).1))
      unfolding decide_parsed find_record_or_throw
      decide_parsed-reaches rid input s = elim (Option-cases (p.find_unique (id rid) s.records)) [
        | inl missing ↦ inl (ground arith)
        | inr (r, found) ↦ elim (Option-cases (p.find_unique (id r.id) s.trucks)) [
          | inl no_truck ↦ inl (ground arith)
          | inr (truck, has) ↦ inr (r, truck, has, ground arith)
        ]
      ]

      decide_parsed-AllHonest :
          (rid : String) (input : DecisionInput) (s : Db p)
          → AllHonest s
          → AllHonest (decide_parsed p w user rid input s).1
      decide_parsed-AllHonest rid input s honest = elim (decide_parsed-reaches rid input s) [
        | inl same ↦ subst AllHonest (sym same) honest
        | inr (r, truck, has, same) ↦
            subst AllHonest (sym same) (decide_found-AllHonest rid input r truck s honest has)
      ]

      -- Given the laws of the database client: if no truck whose recommendation is to block loading
      -- has an approved decision, then none has one after a final decision, whoever decides, and
      -- whether it returns or throws.
      pub approve_loading_decision-AllHonest :
          (rid : String) (parsed : Parsed DecisionInput) (s : Db p)
          → AllHonest s
          → AllHonest (approve_loading_decision p w user rid parsed s).1
      unfolding approve_loading_decision
      approve_loading_decision-AllHonest rid parsed s honest =
          gated (has_any_role user.roles loading_decision_roles) parsed
        where
          gated :
              (allowed : Bool) (parsed : Parsed DecisionInput)
              → AllHonest
                  ((require allowed loading_decision_forbidden >> (elim parsed [
                    | failure message ↦ throw (invalid_record_payload message)
                    | success input ↦ decide_parsed p w user rid input
                  ]))
                    s).1
          gated false parsed = honest
          gated true (failure message) = honest
          gated true (success input) = decide_parsed-AllHonest rid input s honest
