-- ===== src/Workflow/Graph.antt =====
-- The transition diagram of a record, over sequences of actions.
use fg_details_to_be_added_f.Prelude.{
  ◌≡◌, ◌⊎◌, inl, inr, refl, Bool, true, false, Option, none, some, List, [], ◌∷◌, In, Option-cases,
  arith,
}
use fg_details_to_be_added_f.Records.{
  RecordStatus, draft, submitted, checked, pending_verification, verified, completed, resubmitted,
  archived,
}
use fg_details_to_be_added_f.Workflow.{
  Action, check, verify, resolve_workflow_transition, is_immutable_verified_status,
}

-- The status after a sequence of actions; `none` if one of them has no edge.
unfoldable pub follow : RecordStatus → List Action → Option RecordStatus
follow s [] = some s
follow s (a ∷ rest) = elim (resolve_workflow_transition s a) [
  | none ↦ none
  | some t ↦ follow t rest
]

follow-cons :
    (s t : RecordStatus) (a : Action) (rest : List Action)
    → follow s (a ∷ rest) ≡ some t
    → (u : RecordStatus) × (resolve_workflow_transition s a ≡ some u) × (follow u rest ≡ some t)
unfolding follow
follow-cons s t a rest h = elim (Option-cases (resolve_workflow_transition s a)) [
  | inl e ↦ cc (rw (e, follow) at h)
  | inr (u, e) ↦ (u, e, rw (e, follow) at h)
]

step-immutable :
    (s t : RecordStatus) (a : Action)
    → resolve_workflow_transition s a ≡ some t
    → is_immutable_verified_status s ≡ true
    → is_immutable_verified_status t ≡ true
unfolding resolve_workflow_transition is_immutable_verified_status
step-immutable s t a e h = ground arith

-- Only `verify` enters the statuses of a verified record.
step_verify :
    (s t : RecordStatus) (a : Action)
    → resolve_workflow_transition s a ≡ some t
    → is_immutable_verified_status s ≡ false
    → (a ≡ verify) ⊎ (is_immutable_verified_status t ≡ false)
unfolding resolve_workflow_transition is_immutable_verified_status
step_verify s t a e h = ground arith

-- The statuses in which a record has been checked in the current round.
abbrev is_past_check : RecordStatus → Bool
is_past_check pending_verification = true
is_past_check verified = true
is_past_check completed = true
is_past_check archived = true
is_past_check _ = false

step_check :
    (s t : RecordStatus) (a : Action)
    → resolve_workflow_transition s a ≡ some t
    → is_past_check s ≡ false
    → (a ≡ check) ⊎ (is_past_check t ≡ false)
unfolding resolve_workflow_transition
step_check s t a e h = ground arith

module _ (t : RecordStatus) where
  -- A record that is verified, completed or archived stays so, whatever actions follow.
  pub follow-immutable :
      (s : RecordStatus) (actions : List Action)
      → follow s actions ≡ some t
      → is_immutable_verified_status s ≡ true
      → is_immutable_verified_status t ≡ true
  follow-immutable s [] h i = unfold follow in ground arith
  follow-immutable s (a ∷ rest) h i =
      let (u, e, k) = follow-cons s t a rest h in
      follow-immutable u rest k (step-immutable s u a e i)

  needs_verify :
      (s : RecordStatus) (actions : List Action)
      → follow s actions ≡ some t
      → is_immutable_verified_status s ≡ false
      → is_immutable_verified_status t ≡ true
      → In verify actions
  needs_verify s [] h i j = absurd (unfold follow in ground arith)
  needs_verify s (a ∷ rest) h i j =
      let (u, e, k) = follow-cons s t a rest h in
      elim (step_verify s u a e i) [
        | inl here ↦ inl here
        | inr later ↦ inr (needs_verify u rest k later j)
      ]

  needs_check :
      (s : RecordStatus) (actions : List Action)
      → follow s actions ≡ some t
      → is_past_check s ≡ false
      → is_past_check t ≡ true
      → In check actions
  needs_check s [] h i j = absurd (unfold follow in ground arith)
  needs_check s (a ∷ rest) h i j =
      let (u, e, k) = follow-cons s t a rest h in
      elim (step_check s u a e i) [
        | inl here ↦ inl here
        | inr later ↦ inr (needs_check u rest k later j)
      ]

  -- From a draft, no sequence of actions leads to a verified, completed or archived record without
  -- both a check and a verification.
  pub follow-draft_verified :
      (actions : List Action)
      → follow draft actions ≡ some t
      → is_immutable_verified_status t ≡ true
      → In check actions × In verify actions
  unfolding is_immutable_verified_status
  follow-draft_verified actions h i =
      (needs_check draft actions h refl (ground arith), needs_verify draft actions h refl i)

-- The statuses that the workflow of a new record uses.
abbrev pub is_live : RecordStatus → Bool
is_live submitted = false
is_live checked = false
is_live resubmitted = false
is_live _ = true

step_live :
    (s t : RecordStatus) (a : Action) → resolve_workflow_transition s a ≡ some t → is_live t ≡ true
unfolding resolve_workflow_transition
step_live s t a e = ground arith

-- The statuses `submitted`, `checked` and `resubmitted` are never entered from a live one.
pub follow-is_live :
    (s t : RecordStatus) (actions : List Action)
    → follow s actions ≡ some t
    → is_live s ≡ true
    → is_live t ≡ true
follow-is_live s t [] h l = unfold follow in ground arith
follow-is_live s t (a ∷ rest) h l =
    let (u, e, k) = follow-cons s t a rest h in follow-is_live u t rest k (step_live s u a e)
