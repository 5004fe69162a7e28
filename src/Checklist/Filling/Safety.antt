-- ===== src/Checklist/Filling/Safety.antt =====
-- Mark All Acceptable never overwrites a recorded answer or failure, and is idempotent.
use fg_details_to_be_added_f.Prelude.{
  String, eq_iff, eq_refl, ◌≡◌, ◌≢◌, refl, sym, Bool, true, false, ◌&&◌, Option, some, List, [],
  ◌∷◌, any, any-In, any_witness, In, keep, is_empty, Bool-cases, lookup, arith, inl, inr, ap, ◌∙◌,
  subst,
}
use fg_details_to_be_added_f.Checklist.Items.{
  ItemType, ItemValue, is_status_item_type, Response, ResponseMap, Item,
}
use fg_details_to_be_added_f.Checklist.Responses.{
  unanswered, passed, is_unanswered, status_of, value_of, classify_response_status,
  is_failure_response, is_failing, detect_critical_failures,
}
use fg_details_to_be_added_f.Checklist.Filling.{
  apply_mark_all_acceptable, preview_mark_all_acceptable,
}
use fg_details_to_be_added_f.Checklist.Filling.Laws.{
  is_open, is_open_at, accepted, lookup-apply_mark_all_acceptable,
}

-- The status types classify a value alike.
classify-status_types :
    (t u : ItemType) (v : Option ItemValue)
    → is_status_item_type t ≡ true
    → is_status_item_type u ≡ true
    → classify_response_status t v ≡ classify_response_status u v
unfolding classify_response_status
classify-status_types t u v h k = ground arith

status_of-accepted :
    (item : Item) (id : String)
    → is_status_item_type item.item_type ≡ true
    → status_of item (some (accepted id)) ≡ passed
unfolding classify_response_status
status_of-accepted item id h = ground arith

is_failure-unanswered :
    (item : Item) (r : Option Response)
    → is_status_item_type item.item_type ≡ true
    → is_unanswered (status_of item r) ≡ true
    → is_failure_response item r ≡ false
unfolding classify_response_status is_failure_response
is_failure-unanswered item r h k = ground arith

is_failure-accepted :
    (item : Item) (id : String)
    → is_status_item_type item.item_type ≡ true
    → is_failure_response item (some (accepted id)) ≡ false
unfolding is_failure_response
is_failure-accepted item id h = ground arith

accepted_closed :
    (item : Item)
    → (is_status_item_type item.item_type
        && is_unanswered (status_of item (some (accepted item.id))))
      ≡ false
unfolding classify_response_status
accepted_closed item = ground arith

module _ (items : List Item) (responses : ResponseMap) where
  -- Where some item is open at an id, it is a status item without an answer.
  open_witness :
      (id : String)
      → any (is_open_at responses id) items ≡ true
      → (j : Item) × In j items
        × (j.id ≡ id)
        × (is_status_item_type j.item_type ≡ true)
        × (is_unanswered (status_of j (lookup id responses)) ≡ true)
  open_witness id h =
      let (j, m, k) = any_witness (is_open_at responses id) items h in
      let same : j.id ≡ id = (eq_iff j.id id).0 (ground arith) in
      (
        j,
        m,
        same,
        ground arith,
        subst (λ x. is_unanswered (status_of j (lookup x responses)) ≡ true) same (ground arith),
      )

  -- A status item that has an answer keeps its response, whatever the answer is.
  pub apply_mark_all_acceptable-keeps_answer :
      (item : Item)
      → is_status_item_type item.item_type ≡ true
      → status_of item (lookup item.id responses) ≢ unanswered
      → lookup item.id (apply_mark_all_acceptable items responses) ≡ lookup item.id responses
  apply_mark_all_acceptable-keeps_answer item h k =
      lookup-apply_mark_all_acceptable items responses item.id
      ∙ elim (Bool-cases (any (is_open_at responses item.id) items)) [
        | inr e ↦ rw e
        | inl e ↦
            let (j, m, same, status, unset) = open_witness item.id e in
            absurd (
              k (
                ground (
                  arith,
                  classify-status_types item.item_type j.item_type
                      (value_of (lookup item.id responses)) h status,
                )))
      ]

  -- One id has one type: the condition that the database's unique ids give.
  abbrev pub HasOneType : Type 0
  HasOneType = (i j : Item) → In i items → In j items → i.id ≡ j.id → i.item_type ≡ j.item_type

  is_failing-apply_mark_all_acceptable :
      (item : Item)
      → HasOneType
      → In item items
      → is_failing (apply_mark_all_acceptable items responses) item ≡ is_failing responses item
  is_failing-apply_mark_all_acceptable item one m =
      ap (is_failure_response item) (lookup-apply_mark_all_acceptable items responses item.id)
      ∙ elim (Bool-cases (any (is_open_at responses item.id) items)) [
        | inr e ↦ rw e
        | inl e ↦
            let (j, n, same, status, unset) = open_witness item.id e in
            let type : item.item_type ≡ j.item_type = one item j m n (sym same) in
            let status' : is_status_item_type item.item_type ≡ true = rw type status in
            rw e (
              is_failure-accepted item item.id status'
              ∙ sym (is_failure-unanswered item (lookup item.id responses) status' (rw type unset)))
      ]

  keep_same :
      (p q : Item → Bool) (xs : List Item)
      → ((i : Item) → In i xs → p i ≡ q i)
      → keep p xs ≡ keep q xs
  keep_same p q [] h = refl
  keep_same p q (x ∷ xs) h = rw (h x (inl refl), keep_same p q xs (λ i m. h i (inr m))) refl

  -- For items of which no two with the same id have different types: the critical failures are the
  -- same before and after, also those of out-of-range readings.
  pub detect-apply_mark_all_acceptable :
      HasOneType
      → detect_critical_failures items (apply_mark_all_acceptable items responses)
        ≡ detect_critical_failures items responses
  unfolding detect_critical_failures
  detect-apply_mark_all_acceptable one =
      keep_same _ _ items
        λ i m. ap (λ b. i.is_critical_failure && b) (is_failing-apply_mark_all_acceptable i one m)

  open_after :
      (item : Item)
      → In item items
      → is_open (apply_mark_all_acceptable items responses) item ≡ false
  open_after item m =
      ap (λ r. is_status_item_type item.item_type && is_unanswered (status_of item r))
        (lookup-apply_mark_all_acceptable items responses item.id)
      ∙ elim (Bool-cases (any (is_open_at responses item.id) items)) [
        | inl e ↦ rw e (accepted_closed item)
        | inr e ↦ rw e (closed_before e)
      ]
    where
      closed_before :
          any (is_open_at responses item.id) items ≡ false → is_open responses item ≡ false
      closed_before e = elim (Bool-cases (is_open responses item)) [
        | inr closed ↦ closed
        | inl o ↦
            cc (e, any-In (is_open_at responses item.id) items item m (rw (eq_refl item.id) o))
      ]

  -- Afterwards no status item of the list is without an answer.
  pub apply_mark_all_acceptable-answers :
      (item : Item)
      → In item items
      → is_status_item_type item.item_type ≡ true
      → status_of item (lookup item.id (apply_mark_all_acceptable items responses)) ≢ unanswered
  apply_mark_all_acceptable-answers item m h e = ground (arith, open_after item m)

preview_of_closed :
    (items : List Item) (responses : ResponseMap)
    → ((i : Item) → In i items → is_open responses i ≡ false)
    → is_empty (preview_mark_all_acceptable items responses).item_ids_to_fill ≡ true
unfolding preview_mark_all_acceptable
preview_of_closed [] responses h = refl
preview_of_closed (i ∷ items) responses h =
    ground (arith, h i (inl refl), preview_of_closed items responses (λ j m. h j (inr m)))

apply_unchanged :
    (items : List Item) (next : ResponseMap)
    → is_empty (preview_mark_all_acceptable items next).item_ids_to_fill ≡ true
    → apply_mark_all_acceptable items next ≡ next
unfolding apply_mark_all_acceptable
apply_unchanged items next e = rw e

-- A second use of Mark All Acceptable changes nothing.
pub apply_mark_all_acceptable-idempotent :
    (items : List Item) (responses : ResponseMap)
    → apply_mark_all_acceptable items (apply_mark_all_acceptable items responses)
      ≡ apply_mark_all_acceptable items responses
apply_mark_all_acceptable-idempotent items responses =
    apply_unchanged items _ (preview_of_closed items _ (open_after items responses))
