-- ===== src/Loading/Laws.antt =====
-- When each loading decision is recommended, and what it rules out.
use fg_details_to_be_added_f.Prelude.{
  ◌≡◌, ◌≢◌, ◌↔◌, ◌⊎◌, inl, refl, Bool, true, false, ◌&&◌, Option, some, List, [], ◌∷◌, In, keep,
  In-keep, In-keep_inv, any, any-In, any_witness, is_empty, arith, if◌then◌else◌, not,
}
use fg_details_to_be_added_f.Checklist.Items.{ResponseMap, Item}
use fg_details_to_be_added_f.Checklist.Responses.{is_failing, detect_critical_failures}
use fg_details_to_be_added_f.Loading.{
  LoadingDecision, pending, approved_for_loading, conditionally_approved, loading_blocked, rejected,
  compute_recommended_loading_decision, allowed_final_decisions,
}

-- The two tests of the decision, for any two conditions that they decide.
decide :
    (e a : Bool) {C F : Type 0}
    → ((e ≡ false) ↔ C)
    → ((a ≡ true) ↔ F)
    → (C → F)
    → let d =
        if not e
        then loading_blocked
        else if a
        then conditionally_approved
        else approved_for_loading in
      ((d ≡ loading_blocked) ↔ C)
      × ((d ≡ approved_for_loading) ↔ (¬ F))
      × ((d ≡ conditionally_approved) ↔ (F × (¬ C)))
decide false a c f weaker = (
  (λ _. c.0 refl, λ _. refl),
  (λ h. cc, λ n. absurd (n (weaker (c.0 refl)))),
  (λ h. cc, λ h. absurd (h.1 (c.0 refl))),
)
decide true true c f weaker = (
  (λ h. cc, λ x. cc (c.1 x)),
  (λ h. cc, λ n. absurd (n (f.0 refl))),
  (λ _. (f.0 refl, λ x. cc (c.1 x)), λ _. refl),
)
decide true false c f weaker =
    ((λ h. cc, λ x. cc (c.1 x)), (λ _ x. cc (f.1 x), λ _. refl), (λ h. cc, λ h. cc (f.1 h.0)))

module _ (items : List Item) (responses : ResponseMap) where
  abbrev pub HasCriticalFailure : Type 0
  HasCriticalFailure =
      (i : Item) × In i items × (i.is_critical_failure ≡ true) × (is_failing responses i ≡ true)

  abbrev pub HasFailure : Type 0
  HasFailure = (i : Item) × In i items × (is_failing responses i ≡ true)

  critical_iff : (is_empty (detect_critical_failures items responses) ≡ false) ↔ HasCriticalFailure
  unfolding detect_critical_failures
  critical_iff = (
    λ e. witness (keep is_critical_failing items) e (In-keep_inv is_critical_failing items),
    λ (i, m, c, f).
        nonempty (keep is_critical_failing items) i
          (In-keep is_critical_failing items i m (ground arith)),
  )
    where
      is_critical_failing : Item → Bool
      is_critical_failing i = i.is_critical_failure && is_failing responses i

      nonempty : (xs : List Item) (i : Item) → In i xs → is_empty xs ≡ false
      nonempty [] i m = absurd m
      nonempty (x ∷ xs) i m = refl

      witness :
          (xs : List Item)
          → is_empty xs ≡ false
          → ((i : Item) → In i xs → In i items × (is_critical_failing i ≡ true))
          → HasCriticalFailure
      witness [] e h = cc
      witness (x ∷ xs) e h = let (m, f) = h x (inl refl) in (x, m, ground arith, ground arith)

  any_iff : (any (is_failing responses) items ≡ true) ↔ HasFailure
  any_iff = (
    λ e. any_witness (is_failing responses) items e,
    λ (i, m, f). any-In (is_failing responses) items i m f,
  )

  abbrev pub decision : LoadingDecision
  decision = (compute_recommended_loading_decision items responses).decision

  -- Loading is blocked exactly if a critical item fails, approved exactly if no item fails, and
  -- approved conditionally exactly if an item fails and no critical one does.
  pub compute_recommended_outcomes :
      ((decision ≡ loading_blocked) ↔ HasCriticalFailure)
      × ((decision ≡ approved_for_loading) ↔ (¬ HasFailure))
      × ((decision ≡ conditionally_approved) ↔ (HasFailure × (¬ HasCriticalFailure)))
  unfolding compute_recommended_loading_decision
  compute_recommended_outcomes =
      decide (is_empty (detect_critical_failures items responses))
        (any (is_failing responses) items) critical_iff any_iff (λ (i, m, c, f). (i, m, f))

-- With a recommendation to block, no approved outcome is among the final decisions; otherwise every
-- final decision is allowed. `pending` never is.
pub In-allowed_final_decisions_iff :
    (recommended : Option LoadingDecision) (d : LoadingDecision)
    → In d (allowed_final_decisions recommended) ↔ (
        (d ≢ pending)
        × (recommended ≡ some loading_blocked → (d ≡ loading_blocked) ⊎ (d ≡ rejected)))
unfolding allowed_final_decisions
In-allowed_final_decisions_iff recommended d =
    (λ m. (λ e. ground arith, λ r. ground arith), λ h. ground (arith, h.1))
