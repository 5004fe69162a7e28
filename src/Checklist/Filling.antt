-- ===== src/Checklist/Filling.antt =====
-- Mark All Acceptable of checklist-engine.ts.
pub mod Laws
pub mod Safety
use fg_details_to_be_added_f.Prelude.{
  String, Bool, true, false, Option, none, some, List, [], ◌∷◌, lookup, insert, includes, is_empty,
  if◌then◌else◌,
}
use fg_details_to_be_added_f.Checklist.Items.{
  ItemType, is_status_item_type, pass, ItemValue, status, Response, ResponseMap, Item,
}
use fg_details_to_be_added_f.Checklist.Responses.{
  ResponseStatus, unanswered, failed, value_of, classify_response_status,
}

-- acceptableValueForItemType
abbrev acceptable_value_for_item_type : ItemType → Option ItemValue
acceptable_value_for_item_type t = if is_status_item_type t then some (status pass) else none

-- MarkAllAcceptablePreview
pub record Preview : Type 0 where
  pub item_ids_to_fill : List String
  pub existing_failure_item_ids : List String

abbrev note_item : ResponseStatus → String → Preview → Preview
note_item unanswered id p = record p { item_ids_to_fill = id ∷ p.item_ids_to_fill }
note_item failed id p = record p { existing_failure_item_ids = id ∷ p.existing_failure_item_ids }
note_item _ id p = p

-- previewMarkAllAcceptable
unfoldable pub preview_mark_all_acceptable : List Item → ResponseMap → Preview
preview_mark_all_acceptable [] responses = record {
  item_ids_to_fill = [];
  existing_failure_item_ids = [];
}
preview_mark_all_acceptable (item ∷ items) responses =
    let rest = preview_mark_all_acceptable items responses in
    let found = classify_response_status item.item_type (value_of (lookup item.id responses)) in
    if is_status_item_type item.item_type then note_item found item.id rest else rest

-- `{ itemId: item.id, value }`
abbrev pub filled_response : String → ItemValue → Response
filled_response id v = record {
  item_id = id;
  value = some v;
  remark = none;
  issue_reason = none;
  correction = none;
  corrective_action = none;
  evidence = none;
}

fill_item : Bool → Option ItemValue → Item → ResponseMap → ResponseMap
fill_item true (some v) item next = insert item.id (filled_response item.id v) next
fill_item _ _ item next = next

-- The loop of applyMarkAllAcceptable.
pub fill_loop : List String → List Item → ResponseMap → ResponseMap
fill_loop ids [] next = next
fill_loop ids (item ∷ items) next =
    fill_loop ids items
      (fill_item (includes ids item.id) (acceptable_value_for_item_type item.item_type) item next)

-- applyMarkAllAcceptable
unfoldable pub apply_mark_all_acceptable : List Item → ResponseMap → ResponseMap
unfolding fill_loop fill_item preview_mark_all_acceptable
apply_mark_all_acceptable items responses =
    let ids = (preview_mark_all_acceptable items responses).item_ids_to_fill in
    if is_empty ids then responses else fill_loop ids items responses
