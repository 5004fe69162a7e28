-- ===== src/Inspections/Submit/Actions.antt =====
-- Corrective actions: each failure that needs one has one after the submission.
use fg_details_to_be_added_f.Prelude.{
  ℕ, zero, suc, String, ◌==◌, eq_refl, ◌≡◌, ◌⊎◌, inl, inr, refl, sym, ap, subst, ◌∙◌, Bool, true,
  Option, none, some, List, [], ◌∷◌, find_last, lookup, In, is_some, Bool-cases, arith, ◌||◌,
}
use fg_details_to_be_added_f.Checklist.Items.{Response, ResponseMap, Item}
use fg_details_to_be_added_f.Checklist.Responses.{is_failure_response}
use fg_details_to_be_added_f.Exec.{Outcome, ok, Exec, ◌>>=◌, pure}
use fg_details_to_be_added_f.Prisma.{Prisma, PrismaLaws, id}
use fg_details_to_be_added_f.Inspections.State.{RequestUser, InspectionResult, Exception, Db}
use fg_details_to_be_added_f.Inspections.Submit.{
  create_for_item, create_corrective_action, create_corrective_actions_for_failures,
}

-- Two handlers that return, one after the other.
two_steps :
    {E S : Type 0} (m g : Exec E S ℕ) (f : ℕ → ℕ → ℕ) (s t u : S) (n k : ℕ)
    → m s ≡ (ok n, t)
    → g t ≡ (ok k, u)
    → (m >>= λ a. g >>= λ b. pure (f a b)) s ≡ (ok (f n k), u)
two_steps m g f s t u n k first rest = rw (first, rest)

-- The counter of the loop.
abbrev count_on : ℕ → ℕ → ℕ
count_on n m = elim n [ zero ↦ m | suc k ↦ suc m ]

module _ (p : Prisma) where
  -- A corrective action for a result is on file.
  abbrev pub has_action : Db p → String → Bool
  has_action s x = is_some (p.find_first (λ c. c.result_id == x) s.corrective_actions)

  module _ (laws : PrismaLaws p) (user : RequestUser) (rid : String) where
    created-has_action :
        (item : Item) (r : Option Response) (result : InspectionResult) (x : String) (s : Db p)
        → has_action (create_corrective_action p user rid item r result s).1 x
          ≡ (result.id == x || has_action s x)
    unfolding create_corrective_action
    created-has_action item r result x s =
        laws.find_first-create (λ c. c.result_id == x) (id (p.next_id s.corrective_actions)) _
          s.corrective_actions

    -- What one round of the loop does.
    create_for_item-cases :
        (item : Item) (r : Option Response) (result : InspectionResult) (s : Db p)
        → let ran = create_for_item p user rid item r (some result) s in
          ((ran ≡ (ok 0, s))
            × (item.corrective_action_required_on_fail ≡ true
                → is_failure_response item r ≡ true
                → has_action s result.id ≡ true))
          ⊎ (ran ≡ (ok 1, (create_corrective_action p user rid item r result s).1))
    unfolding create_for_item create_corrective_action
    create_for_item-cases item r result s =
        elim (Bool-cases item.corrective_action_required_on_fail) [
          | inr unneeded ↦ inl (ground arith, λ e f. ground arith)
          | inl needed ↦ elim (Bool-cases (is_failure_response item r)) [
            | inr passes ↦ inl (ground arith, λ e f. ground arith)
            | inl fails ↦ elim (Bool-cases (has_action s result.id)) [
              | inl there ↦ inl (ground arith, λ e f. there)
              | inr missing ↦ inr (ground arith)
            ]
          ]
        ]

    -- One round, as a step that always returns.
    round-ok :
        (item : Item) (r : Option Response) (result : Option InspectionResult) (s : Db p)
        → (n : ℕ) × (create_for_item p user rid item r result s
            ≡ (ok n, (create_for_item p user rid item r result s).1))
    unfolding create_for_item
    round-ok item r none s = (0, refl)
    round-ok item r (some result) s = elim (create_for_item-cases item r result s) [
      | inl (same, _) ↦ (0, same ∙ ap (λ x. (ok 0, x)) (sym (ap (λ x. x.1) same)))
      | inr made ↦ (1, made ∙ ap (λ x. (ok 1, x)) (sym (ap (λ x. x.1) made)))
    ]

    round-keeps :
        (item : Item) (r : Option Response) (result : Option InspectionResult) (x : String)
        (s : Db p)
        → has_action s x ≡ true
        → has_action (create_for_item p user rid item r result s).1 x ≡ true
    unfolding create_for_item
    round-keeps item r none x s h = h
    round-keeps item r (some result) x s h = elim (create_for_item-cases item r result s) [
      | inl (same, _) ↦ subst (λ t. has_action t x ≡ true) (sym (ap (λ x. x.1) same)) h
      | inr made ↦
          subst (λ t. has_action t x ≡ true) (sym (ap (λ x. x.1) made))
            (created-has_action item r result x s ∙ rw h (ground arith))
    ]

    round-ensures :
        (item : Item) (r : Option Response) (result : InspectionResult) (s : Db p)
        → item.corrective_action_required_on_fail ≡ true
        → is_failure_response item r ≡ true
        → has_action (create_for_item p user rid item r (some result) s).1 result.id ≡ true
    round-ensures item r result s needed fails = elim (create_for_item-cases item r result s) [
      | inl (same, there) ↦
          subst (λ t. has_action t result.id ≡ true) (sym (ap (λ x. x.1) same)) (there needed fails)
      | inr made ↦
          subst (λ t. has_action t result.id ≡ true) (sym (ap (λ x. x.1) made))
            (created-has_action item r result result.id s ∙ rw (eq_refl result.id))
    ]

    module _ (responses : ResponseMap) (results : List InspectionResult) where
      abbrev result_for : Item → Option InspectionResult
      result_for item = find_last (λ r. r.item_id == item.id) results

      abbrev after : List Item → Db p → Db p
      after items s =
          (create_corrective_actions_for_failures p user rid items responses results s).1

      abbrev round_of : Item → Db p → Outcome Exception ℕ × Db p
      round_of item = create_for_item p user rid item (lookup item.id responses) (result_for item)

      loop-cons :
          (item : Item) (items : List Item) (s : Db p) (m : ℕ)
          → create_corrective_actions_for_failures p user rid items responses results
              (round_of item s).1
            ≡ (ok m, after items (round_of item s).1)
          → (n : ℕ) × (create_corrective_actions_for_failures p user rid
                (item ∷ items)
                responses
                results
                s
              ≡ (ok n, after items (round_of item s).1))
      unfolding create_corrective_actions_for_failures
      loop-cons item items s m rest =
          let (n, first) = round-ok item (lookup item.id responses) (result_for item) s in
          (
            count_on n m,
            two_steps (round_of item)
                (create_corrective_actions_for_failures p user rid items responses results) count_on
                s (round_of item s).1 (after items (round_of item s).1) n m first rest,
          )

      loop-ok :
          (items : List Item) (s : Db p)
          → (n : ℕ) × (create_corrective_actions_for_failures p user rid items responses results s
              ≡ (ok n, after items s))
      unfolding create_corrective_actions_for_failures
      loop-ok [] s = (0, refl)
      loop-ok (item ∷ items) s =
          let (m, rest) = loop-ok items (round_of item s).1 in
          let (n, whole) = loop-cons item items s m rest in
          (n, whole ∙ ap (λ x. (ok n, x)) (sym (ap (λ x. x.1) whole)))

      after-cons :
          (item : Item) (items : List Item) (s : Db p)
          → after (item ∷ items) s ≡ after items (round_of item s).1
      after-cons item items s =
          let (m, rest) = loop-ok items (round_of item s).1 in
          let (n, whole) = loop-cons item items s m rest in ap (λ x. x.1) whole

      after-keeps :
          (items : List Item) (x : String) (s : Db p)
          → has_action s x ≡ true
          → has_action (after items s) x ≡ true
      unfolding create_corrective_actions_for_failures
      after-keeps [] x s h = h
      after-keeps (item ∷ items) x s h =
          subst (λ t. has_action t x ≡ true) (sym (after-cons item items s))
            (after-keeps items x _
              (round-keeps item (lookup item.id responses) (result_for item) x s h))

      complete_here :
          (x : Item) (items : List Item) (s : Db p) (item : Item) (result : InspectionResult)
          → x ≡ item
          → item.corrective_action_required_on_fail ≡ true
          → is_failure_response item (lookup item.id responses) ≡ true
          → result_for item ≡ some result
          → has_action (after (x ∷ items) s) result.id ≡ true
      complete_here x items s item result here needed fails has =
          subst (λ t. has_action t result.id ≡ true) (sym (after-cons x items s))
            (after-keeps items result.id (round_of x s).1 (
              subst (λ i. has_action (round_of i s).1 result.id ≡ true) (sym here)
                (subst
                  (λ o.
                    has_action (create_for_item p user rid item (lookup item.id responses) o s).1
                      result.id
                    ≡ true)
                  (sym has) (round-ensures item (lookup item.id responses) result s needed fails))))

      -- Given the laws of the database client: after a submission's corrective actions are created,
      -- each failing item that needs one and has a stored result has a corrective action on file for
      -- that result, whatever was on file before.
      pub create_corrective_actions_complete :
          (items : List Item) (s : Db p) (item : Item) (result : InspectionResult)
          → In item items
          → item.corrective_action_required_on_fail ≡ true
          → is_failure_response item (lookup item.id responses) ≡ true
          → find_last (λ r. r.item_id == item.id) results ≡ some result
          → has_action
              (create_corrective_actions_for_failures p user rid items responses results s).1
              result.id
            ≡ true
      create_corrective_actions_complete [] s item result m needed fails has = absurd m
      create_corrective_actions_complete (x ∷ items) s item result (inl here) needed fails has =
          complete_here x items s item result here needed fails has
      create_corrective_actions_complete (x ∷ items) s item result (inr there) needed fails has =
          subst (λ t. has_action t result.id ≡ true) (sym (after-cons x items s))
            (create_corrective_actions_complete items _ item result there needed fails has)
