-- ===== src/Checklist/Validation/Laws.antt =====
-- When a checklist is valid, stated item by item.
use fg_details_to_be_added_f.Prelude.{
  ◌≡◌, ◌≢◌, ◌↔◌, inl, inr, refl, subst, true, false, Option, List, [], ◌∷◌, is_empty,
  is_empty-append, has_text, lookup, In, arith,
}
use fg_details_to_be_added_f.Checklist.Items.{Response, ResponseMap, Item, Section}
use fg_details_to_be_added_f.Checklist.Responses.{
  unanswered, marked_na, status_of, value_of, is_numeric, is_failure_response,
  classify_response_status,
}
use fg_details_to_be_added_f.Checklist.Order.{flatten_items, In-flatten_items_iff}
use fg_details_to_be_added_f.Checklist.Validation.{
  remark_of, corrective_action_of, has_evidence, is_number_value, item_errors, errors_of,
  validate_checklist_responses,
}

-- What a failing answer must come with.
pub record IsExplained (item : Item) (r : Option Response) : Type 0 where
  pub remark : item.remark_required_on_fail ≡ true → has_text (remark_of r) ≡ true
  pub evidence : item.requires_evidence_on_fail ≡ true → has_evidence r ≡ true
  pub action :
      item.corrective_action_required_on_fail ≡ true → has_text (corrective_action_of r) ≡ true

-- What the rules of an item ask of its response. A reading must be in range: a failing one is never
-- accepted, however well it is explained.
pub record Complies (item : Item) (r : Option Response) : Type 0 where
  pub optional : status_of item r ≡ unanswered → item.is_required ≡ false
  pub na_allowed : status_of item r ≡ marked_na → item.allow_not_applicable ≡ true
  pub in_range :
      is_numeric item.item_type ≡ true
      → status_of item r ≢ unanswered
      → is_failure_response item r ≡ false
  pub explained :
      status_of item r ≢ unanswered → is_failure_response item r ≡ true → IsExplained item r

number_of_answered :
    (item : Item) (r : Option Response)
    → is_numeric item.item_type ≡ true
    → status_of item r ≢ unanswered
    → is_number_value (value_of r) ≡ true
unfolding classify_response_status
number_of_answered item r h k = ground arith

item_errors_sound :
    (item : Item) (r : Option Response) → is_empty (item_errors item r) ≡ true → Complies item r
unfolding item_errors
item_errors_sound item r h = record {
  optional = λ e. ground arith;
  na_allowed = λ e. ground arith;
  in_range = λ e k. ground (arith, number_of_answered item r);
  explained = λ k e. record {
    remark = λ q. ground arith;
    evidence = λ q. ground arith;
    action = λ q. ground arith;
  };
}

item_errors_complete :
    (item : Item) (r : Option Response) → Complies item r → is_empty (item_errors item r) ≡ true
unfolding item_errors
item_errors_complete item r h = ground (arith, h.explained)

errors_of-empty_iff :
    (items : List Item) (responses : ResponseMap)
    → (is_empty (errors_of items responses) ≡ true)
      ↔ ((i : Item) → In i items → Complies i (lookup i.id responses))
unfolding errors_of
errors_of-empty_iff [] responses = (λ _ i m. absurd m, λ _. refl)
errors_of-empty_iff (x ∷ items) responses =
    let (to, from) = errors_of-empty_iff items responses in
    let here = item_errors x (lookup x.id responses) in
    let split = is_empty-append here (errors_of items responses) in
    (
      λ h i. elim [
        | inl e ↦
            subst (λ j. Complies j (lookup j.id responses)) e
              (item_errors_sound x (lookup x.id responses) (ground (arith, split)))
        | inr m ↦ to (ground (arith, split)) i m
      ],
      λ h. ground (
        arith,
        split,
        item_errors_complete x (lookup x.id responses) (h x (inl refl)),
        from (λ i m. h i (inr m)),
      ),
    )

-- A checklist is valid exactly when each item of each section has a response that complies with the
-- item's rules.
pub validate-is_valid_iff :
    (sections : List Section) (responses : ResponseMap)
    → ((validate_checklist_responses sections responses).is_valid ≡ true) ↔ (
        (s : Section) (i : Item)
        → In s sections
        → In i s.items
        → Complies i (lookup i.id responses))
unfolding validate_checklist_responses
validate-is_valid_iff sections responses =
    let (to, from) = errors_of-empty_iff (flatten_items sections) responses in
    (
      λ h s i m n. to h i ((In-flatten_items_iff i sections).1 (s, m, n)),
      λ h. from λ i m. let (s, n, k) = (In-flatten_items_iff i sections).0 m in h s i n k,
    )
