-- ===== src/Templates/Content.antt =====
-- What the service reads and writes inside a version: the nested writes of
-- checklist-templates.service.ts and the order of checklist-templates.mappers.ts.
use fg_details_to_be_added_f.Prelude.{
  ℕ, suc, String, ◌==◌, Bool, true, false, ◌&&◌, not, Option, none, some, List, [], ◌∷◌, ◌++◌, map,
  length, any, every, eqb, ltb, if◌then◌else◌,
}
use fg_details_to_be_added_f.Checklist.Items.{
  acceptable_unacceptable_na, OptionDefinition, Item, Section,
}
use fg_details_to_be_added_f.Checklist.Order.{sort_by}
use fg_details_to_be_added_f.Templates.{
  Version, OptionInput, ItemInput, Fresh, Template, Definition,
}

-- `given ?? kept`
abbrev pub or_kept : {A : Type 0} → A → Option A → A
or_kept kept none = kept
or_kept kept (some given) = given

abbrev pub or_else : {A : Type 0} → Option A → Option A → Option A
or_else kept none = kept
or_else kept (some given) = some given

-- VERSION_WITH_CONTENT_INCLUDE and mapVersionToDefinition
abbrev pub sorted_item : Item → Item
sorted_item i = record i { options = sort_by (λ (o : OptionDefinition). o.sort_order) i.options }

abbrev pub sorted_section : Section → Section
sorted_section s = record s {
  items = map sorted_item (sort_by (λ (i : Item). i.sort_order) s.items);
}

unfoldable pub sorted_sections : List Section → List Section
sorted_sections sections = map sorted_section (sort_by (λ (s : Section). s.sort_order) sections)

abbrev pub definition_of : Template → Version → Definition
definition_of t v = record {
  code = t.code;
  title = t.title;
  description = t.description;
  version_number = v.version_number;
  status = v.status;
  sections = sorted_sections v.sections;
}

-- buildClonedSectionsInput
abbrev pub cloned_item : Fresh → Item → Item
cloned_item w i = record i { id = w.copy_id i.id }

abbrev pub cloned_section : Fresh → Section → Section
cloned_section w s = record s { id = w.copy_id s.id; items = map (cloned_item w) s.items }

abbrev pub cloned_sections : Fresh → List Section → List Section
cloned_sections w sections = map (cloned_section w) sections

-- The rows under one parent, each with an id and a sort order that is unique there.
module _ {A : Type 0} (id_of : A → String) (order_of : A → ℕ) (with_order : ℕ → A → A) where
  abbrev pub has_id : String → A → Bool
  has_id i x = id_of x == i

  -- `update({ where: { id } })`
  abbrev pub change : String → (A → A) → List A → List A
  change i f [] = []
  change i f (x ∷ xs) = let rest = change i f xs in if id_of x == i then f x ∷ xs else x ∷ rest

  -- Whether another row has the order.
  abbrev pub is_taken : String → ℕ → List A → Bool
  is_taken i n xs = any (λ x. eqb (order_of x) n && not (id_of x == i)) xs

  -- The writes of a new order, from a position on: each is refused where another row has it.
  pub place : ℕ → List String → List A → Option (List A)
  place n [] xs = some xs
  place n (i ∷ ids) xs =
      let rest = place (suc n) ids (change i (with_order n) xs) in
      if is_taken i n xs then none else rest

  -- `orderedIds.length !== existingIds.size || !orderedIds.every(...)`, of distinct ids
  abbrev pub covers : List String → List A → Bool
  covers ids xs = eqb (length ids) (length xs) && every (λ i. any (has_id i) xs) ids

unfoldable pub place_sections : List String → List Section → Option (List Section)
unfolding place
place_sections =
    place (λ (s : Section). s.id) (λ s. s.sort_order) (λ n s. record s { sort_order = n }) 0

unfoldable pub place_items : List String → List Item → Option (List Item)
unfolding place
place_items = place (λ (i : Item). i.id) (λ i. i.sort_order) (λ n i. record i { sort_order = n }) 0

-- `section.id === sectionId`
abbrev pub change_section : String → (Section → Section) → List Section → List Section
change_section = change (λ (s : Section). s.id) (λ s. s.sort_order) (λ n s. s)

abbrev pub change_item : String → (Item → Item) → List Item → List Item
change_item = change (λ (i : Item). i.id) (λ i. i.sort_order) (λ n i. i)

-- The options of an item, each with its index as the order that is not given.
abbrev pub option_rows : ℕ → List OptionInput → List OptionDefinition
option_rows n [] = []
option_rows n (o ∷ rest) =
    record { value = o.value; label = o.label; sort_order = or_kept n o.sort_order }
    ∷ option_rows (suc n) rest

-- The unique index on the values of an item's options
abbrev pub has_distinct_values : List OptionInput → Bool
has_distinct_values [] = true
has_distinct_values (o ∷ rest) =
    not (any (λ (x : OptionInput). x.value == o.value) rest) && has_distinct_values rest

abbrev pub values_distinct : Option (List OptionInput) → Bool
values_distinct none = true
values_distinct (some os) = has_distinct_values os

abbrev pub new_options : Option (List OptionInput) → List OptionDefinition
new_options none = []
new_options (some os) = option_rows 0 os

abbrev pub kept_options : List OptionDefinition → Option (List OptionInput) → List OptionDefinition
kept_options kept none = kept
kept_options kept (some os) = option_rows 0 os

-- The data of addItem
abbrev pub created_item : String → ℕ → String → ItemInput → Item
created_item new_id count label input = record {
  id = new_id;
  label = label;
  sort_order = or_kept count input.sort_order;
  item_type = or_kept acceptable_unacceptable_na input.item_type;
  options = new_options input.options;
  is_required = or_kept true input.is_required;
  allow_not_applicable = or_kept false input.allow_not_applicable;
  requires_evidence_on_fail = or_kept false input.requires_evidence_on_fail;
  is_critical_failure = or_kept false input.is_critical_failure;
  remark_required_on_fail = or_kept false input.remark_required_on_fail;
  corrective_action_required_on_fail = or_kept false input.corrective_action_required_on_fail;
  min_value = input.min_value;
  max_value = input.max_value;
  default_response = input.default_response;
}

-- The data of updateItem: a field that is not given keeps its value.
abbrev pub changed_item : Option String → ItemInput → Item → Item
changed_item label input i = record {
  id = i.id;
  label = or_kept i.label label;
  sort_order = or_kept i.sort_order input.sort_order;
  item_type = or_kept i.item_type input.item_type;
  options = kept_options i.options input.options;
  is_required = or_kept i.is_required input.is_required;
  allow_not_applicable = or_kept i.allow_not_applicable input.allow_not_applicable;
  requires_evidence_on_fail = or_kept i.requires_evidence_on_fail input.requires_evidence_on_fail;
  is_critical_failure = or_kept i.is_critical_failure input.is_critical_failure;
  remark_required_on_fail = or_kept i.remark_required_on_fail input.remark_required_on_fail;
  corrective_action_required_on_fail =
      or_kept i.corrective_action_required_on_fail input.corrective_action_required_on_fail;
  min_value = or_else i.min_value input.min_value;
  max_value = or_else i.max_value input.max_value;
  default_response = or_else i.default_response input.default_response;
}

-- `sections.flatMap((s) => s.items)`
abbrev pub all_items : List Section → List Item
all_items [] = []
all_items (s ∷ rest) = s.items ++ all_items rest

-- `Math.max(0, ...numbers)`
abbrev pub max_number : List Version → ℕ
max_number [] = 0
max_number (v ∷ rest) =
    let m = max_number rest in if ltb m v.version_number then v.version_number else m

-- The version with the highest number, the first of several.
abbrev pub highest : Option Version → List Version → Option Version
highest best [] = best
highest none (v ∷ rest) = highest (some v) rest
highest (some b) (v ∷ rest) =
    highest (some (if ltb b.version_number v.version_number then v else b)) rest
