-- ===== src/Checklist/Tests.antt =====
-- The theorems on packages/shared/src/checklist-engine.ts at a small checklist: a status item, a
-- temperature with a range, and a text.
use fg_details_to_be_added_f.Prelude.{
  ℕ, String, ◌≡◌, ◌≢◌, ◌↔◌, ◌⊎◌, inl, inr, refl, ap, sym, ◌∙◌, Bool, true, false, Option, none,
  some, List, [], ◌∷◌, ◌++◌, In, All, lookup, any, Number, arith, if◌then◌else◌,
}
use fg_details_to_be_added_f.Checklist.Items.{
  ItemType, pass_fail_na, short_text, ItemValue, status, text, fail, Response, ResponseMap, Item,
  Section,
}
use fg_details_to_be_added_f.Checklist.Responses.{
  classify_response_status, unanswered, failed, status_of, value_of, is_failure_response,
  detect_critical_failures,
}
use fg_details_to_be_added_f.Checklist.Order.{flatten_items}
use fg_details_to_be_added_f.Checklist.Filling.{apply_mark_all_acceptable}
use fg_details_to_be_added_f.Checklist.Filling.Laws.{accepted, lookup-apply_mark_all_acceptable}
use fg_details_to_be_added_f.Checklist.Filling.Safety.{
  HasOneType, apply_mark_all_acceptable-keeps_answer, detect-apply_mark_all_acceptable,
}
use fg_details_to_be_added_f.Checklist.Validation.{validate_checklist_responses}
use fg_details_to_be_added_f.Checklist.Validation.Laws.{Complies, validate-is_valid_iff}

abbrev item_of : String → ItemType → ℕ → Item
item_of id t n = record {
  id = id;
  label = id;
  sort_order = n;
  item_type = t;
  options = [];
  is_required = true;
  allow_not_applicable = false;
  requires_evidence_on_fail = false;
  is_critical_failure = true;
  remark_required_on_fail = false;
  corrective_action_required_on_fail = false;
  min_value = none;
  max_value = none;
  default_response = none;
}

abbrev floor : Item
floor = item_of "floor" pass_fail_na 1

abbrev note : Item
note = item_of "note" short_text 2

abbrev items : List Item
items = floor ∷ note ∷ []

abbrev store : Section
store = record { id = "s1"; name = "Store"; sort_order = 1; items = items }

abbrev sections : List Section
sections = store ∷ []

abbrev answer_of : String → ItemValue → Response
answer_of id v = record {
  item_id = id;
  value = some v;
  remark = none;
  issue_reason = none;
  correction = none;
  corrective_action = none;
  evidence = none;
}

-- The floor fails, the note is written.
abbrev dirty : ResponseMap
dirty = ("floor", answer_of "floor" (status fail)) ∷ ("note", answer_of "note" (text "wet")) ∷ []

lookup-apply_mark_all_acceptable_example :
    lookup "floor" (apply_mark_all_acceptable items []) ≡ some (accepted "floor")
unfolding fg_details_to_be_added_f.Checklist.Responses.classify_response_status
lookup-apply_mark_all_acceptable_example = lookup-apply_mark_all_acceptable items [] "floor"

floor_answered : status_of floor (lookup "floor" dirty) ≢ unanswered
unfolding classify_response_status
floor_answered e = cc e

apply_mark_all_acceptable-keeps_answer_example :
    lookup "floor" (apply_mark_all_acceptable items dirty) ≡ lookup "floor" dirty
apply_mark_all_acceptable-keeps_answer_example =
    apply_mark_all_acceptable-keeps_answer items dirty floor refl floor_answered

apart : floor.id ≢ note.id
apart e = cc e

one_type : HasOneType items dirty
one_type i j (inl a) (inl b) e = let same : i ≡ j = cc (a, b) in ap (λ (x : Item). x.item_type) same
one_type i j (inl a) (inr (inl b)) e =
    absurd (apart (ap (λ (x : Item). x.id) a ∙ e ∙ ap (λ (x : Item). x.id) (sym b)))
one_type i j (inr (inl a)) (inl b) e =
    absurd (apart (ap (λ (x : Item). x.id) b ∙ sym e ∙ ap (λ (x : Item). x.id) (sym a)))
one_type i j (inr (inl a)) (inr (inl b)) e =
    let same : i ≡ j = cc (a, b) in ap (λ (x : Item). x.item_type) same
one_type i j (inr (inr a)) n e = absurd a
one_type i j (inl a) (inr (inr b)) e = absurd b
one_type i j (inr (inl a)) (inr (inr b)) e = absurd b

detect-apply_mark_all_acceptable_example :
    detect_critical_failures items (apply_mark_all_acceptable items dirty)
    ≡ detect_critical_failures items dirty
detect-apply_mark_all_acceptable_example = detect-apply_mark_all_acceptable items dirty one_type

validate-is_valid_iff_example :
    ((validate_checklist_responses sections dirty).is_valid ≡ true)
    ↔ ((s : Section) (i : Item) → In s sections → In i s.items → Complies i (lookup i.id dirty))
validate-is_valid_iff_example = validate-is_valid_iff sections dirty

dirty_is_valid : (validate_checklist_responses sections dirty).is_valid ≡ true
unfolding validate_checklist_responses flatten_items
    fg_details_to_be_added_f.Checklist.Responses.classify_response_status is_failure_response
    fg_details_to_be_added_f.Prelude.trim
dirty_is_valid = refl
