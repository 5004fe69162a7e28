-- ===== src/Templates/Service.antt =====
-- ChecklistTemplatesService of apps/api/src/checklist-templates/checklist-templates.service.ts.
use fg_details_to_be_added_f.Prelude.{
  ℕ, suc, String, ◌==◌, Bool, true, false, ◌&&◌, ◌||◌, not, Option, none, some, List, [], ◌∷◌, ◌++◌,
  map, length, any, find, is_some, is_empty, if◌then◌else◌,
}
use fg_details_to_be_added_f.Checklist.Items.{acceptable_unacceptable_na, Item, Section}
use fg_details_to_be_added_f.Checklist.Validation.{RuleIssue, check_item_rule_invariants}
use fg_details_to_be_added_f.Inspections.State.{
  Permission, templates_manage, templates_publish, TemplateStatus, draft, published, archived,
}
use fg_details_to_be_added_f.Inspections.Access.{same_permission}
use fg_details_to_be_added_f.Exec.{Exec, ◌>>=◌, ◌>>◌, pure, gets, modify, or_throw, require, skip}
use fg_details_to_be_added_f.Prisma.{Prisma, Key, id, numbered, same_key}
use fg_details_to_be_added_f.Templates.{
  Template, Version, key_of, is_draft, is_published, ItemInput, Fresh, Definition,
  TemplatesException, template_not_found, code_conflict, published_version_not_found,
  version_not_found, section_not_found, item_not_found, not_editable, not_draft, empty_template,
  already_archived, unique_violation, row_missing, invalid_item_rules, TemplatesDb,
}
use fg_details_to_be_added_f.Templates.Content.{
  or_kept, or_else, sorted_sections, definition_of, cloned_sections, covers, place_sections,
  place_items, is_taken, change_section, change_item, values_distinct, created_item, changed_item,
  all_items, max_number, highest, kept_options,
}

abbrev pub is_archived : TemplateStatus → Bool
is_archived archived = true
is_archived _ = false

-- CAN_VIEW_DRAFTS
abbrev pub can_view_drafts : List Permission
can_view_drafts = templates_manage ∷ templates_publish ∷ []

abbrev pub may_view : List Permission → Bool
may_view permissions = any (λ q. any (λ r. same_permission r q) can_view_drafts) permissions

abbrev pub is_current : Key → Option Key → Bool
is_current k none = false
is_current k (some j) = same_key j k

abbrev section_is_taken : String → ℕ → List Section → Bool
section_is_taken = is_taken (λ (s : Section). s.id) (λ s. s.sort_order) (λ n s. s)

abbrev item_is_taken : String → ℕ → List Item → Bool
item_is_taken = is_taken (λ (i : Item). i.id) (λ i. i.sort_order) (λ n i. i)

-- The items beside the one with the id, in its section.
abbrev items_beside : String → List Section → List Item
items_beside iid [] = []
items_beside iid (s ∷ rest) =
    let others = items_beside iid rest in
    if any (λ (i : Item). i.id == iid) s.items then s.items else others

abbrev option_count : {A : Type 0} → Option (List A) → Option (List (Unit {0}))
option_count none = none
option_count (some xs) = some (map (λ _. tt) xs)

-- The rules of the changed item: those of the item where the request gives none.
abbrev merged_issues : ItemInput → Item → List RuleIssue
merged_issues input i =
    check_item_rule_invariants (or_else i.min_value input.min_value)
      (or_else i.max_value input.max_value) (some (or_kept i.item_type input.item_type))
      (some (kept_options i.options input.options))

abbrev given_issues : ItemInput → List RuleIssue
given_issues input =
    check_item_rule_invariants input.min_value input.max_value
      (some (or_kept acceptable_unacceptable_na input.item_type)) input.options

module _ (p : Prisma) where
  abbrev Handler : Type 0 → Type 0
  Handler A = Exec TemplatesException (TemplatesDb p) A

  abbrev pub is_of : String → Version → Bool
  is_of code v = v.template_code == code

  -- findTemplateOrThrow, of which the versions are read where they are used
  unfoldable pub find_template_or_throw : String → Handler Template
  find_template_or_throw code = do
    found ← gets (λ s. p.find_unique (id code) s.templates)
    or_throw (template_not_found code) found

  -- findVersionOrThrow, with its template
  unfoldable pub find_version_or_throw : String → ℕ → Handler (Template × Version)
  unfolding find_template_or_throw
  find_version_or_throw code n = do
    t ← find_template_or_throw code
    found ← gets (λ s. p.find_unique (numbered t.code n) s.versions)
    v ← or_throw (version_not_found n) found
    pure (t, v)

  -- getVersionByNumber
  unfoldable pub get_version_by_number : String → ℕ → List Permission → Handler Definition
  unfolding find_version_or_throw
  get_version_by_number code n permissions = do
    (t, v) ← find_version_or_throw code n
    require (is_published v.status || may_view permissions) (version_not_found n)
    pure (definition_of t v)

  -- getPublishedVersion
  unfoldable pub get_published_version : String → Handler Definition
  unfolding find_template_or_throw
  get_published_version code = do
    t ← find_template_or_throw code
    current ← or_throw (published_version_not_found code) t.current_version
    found ← gets (λ s. p.find_unique current s.versions)
    v ← or_throw (published_version_not_found code) found
    require (is_published v.status) (published_version_not_found code)
    pure (definition_of t v)

  abbrev pub change_version : Key → (Version → Version) → Handler (Unit {0})
  change_version k f = modify (λ s. record s { versions = p.update k f s.versions })

  abbrev pub change_template : String → (Template → Template) → Handler (Unit {0})
  change_template code f = modify (λ s. record s { templates = p.update (id code) f s.templates })

  abbrev pub create_version : Version → Handler (Unit {0})
  create_version v = modify (λ s. record s { versions = p.create (key_of v) v s.versions })

  abbrev pub draft_of : String → ℕ → List Section → Version
  draft_of code n sections = record {
    template_code = code;
    version_number = n;
    status = draft;
    notes = none;
    published_by_id = none;
    published_at = none;
    sections = sections;
  }

  abbrev pub template_of : String → String → Option String → String → Template
  template_of code title description uid = record {
    code = code;
    title = title;
    description = description;
    is_active = true;
    current_version = none;
    created_by_id = uid;
  }

  -- createTemplate
  unfoldable pub create_template : String → String → Option String → String → Handler Definition
  create_template code title description uid = do
    existing ← gets (λ s. p.find_unique (id code) s.templates)
    require (not (is_some existing)) (code_conflict code)
    modify (λ s. record s {
      templates = p.create (id code) (template_of code title description uid) s.templates;
    })
    create_version (draft_of code 1 [])
    pure (definition_of (template_of code title description uid) (draft_of code 1 []))

  -- The content of a version that is there; the relation include reads it in its order.
  abbrev pub content_of : Option Version → List Section
  content_of none = []
  content_of (some v) = sorted_sections v.sections

  -- resolveCloneSource: the sections that the draft starts from
  unfoldable pub resolve_clone_source : Template → Option ℕ → Handler (List Section)
  unfolding find_version_or_throw
  resolve_clone_source t (some n) = do
    (_, v) ← find_version_or_throw t.code n
    pure (content_of (some v))
  resolve_clone_source t none = gets (λ s.
      content_of
        (highest none (p.find_many (λ v. is_of t.code v && is_published v.status) s.versions)))

  -- createDraftVersion, and cloneDraftFromVersion where the number is given
  unfoldable pub create_draft_version : Fresh → String → Option ℕ → Handler Definition
  unfolding find_template_or_throw resolve_clone_source
  create_draft_version w code from = do
    t ← find_template_or_throw code
    versions ← gets (λ s. p.find_many (is_of t.code) s.versions)
    source ← resolve_clone_source t from
    create_version (draft_of t.code (suc (max_number versions)) (cloned_sections w source))
    pure (definition_of t (draft_of t.code (suc (max_number versions)) (cloned_sections w source)))

  -- The change of a draft's content: assertDraft, then `edit` says what the sections become.
  unfoldable pub edit_draft :
      String → ℕ → (List Section → Handler (List Section → List Section)) → Handler Definition
  unfolding find_version_or_throw get_version_by_number
  edit_draft code n edit = do
    (t, v) ← find_version_or_throw code n
    require (is_draft v.status) not_editable
    f ← edit v.sections
    change_version (numbered t.code n) (λ x. record x { sections = f x.sections })
    get_version_by_number code n can_view_drafts

  -- The edit of add_section: its checks, then what the sections become.
  unfoldable pub section_added :
      Fresh → String → Option ℕ → List Section → Handler (List Section → List Section)
  section_added w name sort_order sections = do
    require (not (section_is_taken w.new_id (or_kept (length sections) sort_order) sections))
        unique_violation
    pure (λ x.
        x
        ++ (record {
          id = w.new_id;
          name = name;
          sort_order = or_kept (length sections) sort_order;
          items = [];
        }
            ∷ []))

  -- addSection
  unfoldable pub add_section : Fresh → String → ℕ → String → Option ℕ → Handler Definition
  unfolding edit_draft section_added
  add_section w code n name sort_order = edit_draft code n (section_added w name sort_order)

  -- The edit of reorder_sections: its checks, then what the sections become.
  unfoldable pub sections_ordered :
      List String → List Section → Handler (List Section → List Section)
  unfolding place_sections
  sections_ordered ordered_ids sections = do
    require (covers (λ (s : Section). s.id) (λ s. s.sort_order) (λ k s. s) ordered_ids sections)
        section_not_found
    placed ← or_throw unique_violation (place_sections ordered_ids sections)
    pure (λ _. placed)

  -- reorderSections
  unfoldable pub reorder_sections : String → ℕ → List String → Handler Definition
  unfolding edit_draft sections_ordered
  reorder_sections code n ordered_ids = edit_draft code n (sections_ordered ordered_ids)

  -- The edit of add_item: its checks, then what the sections become.
  unfoldable pub item_added :
      Fresh → String → String → ItemInput → List Section → Handler (List Section → List Section)
  item_added w section_id label input sections = do
    section ← or_throw section_not_found (find (λ (s : Section). s.id == section_id) sections)
    require (is_empty (given_issues input)) (invalid_item_rules (given_issues input))
    require
        (not
            (item_is_taken w.new_id (or_kept (length section.items) input.sort_order) section.items)
          && values_distinct input.options)
        unique_violation
    pure (
        change_section section_id (λ s. record s {
          items = s.items ++ (created_item w.new_id (length section.items) label input ∷ []);
        }))

  -- addItem
  unfoldable pub add_item : Fresh → String → ℕ → String → String → ItemInput → Handler Definition
  unfolding edit_draft item_added
  add_item w code n section_id label input = edit_draft code n (item_added w section_id label input)

  -- The edit of update_item: its checks, then what the sections become.
  unfoldable pub item_changed :
      String → Option String → ItemInput → List Section → Handler (List Section → List Section)
  item_changed item_id label input sections = do
    item ← or_throw item_not_found (find (λ (i : Item). i.id == item_id) (all_items sections))
    require (is_empty (merged_issues input item)) (invalid_item_rules (merged_issues input item))
    require
        (not (
            item_is_taken item_id (or_kept item.sort_order input.sort_order)
              (items_beside item_id sections))
          && values_distinct input.options)
        unique_violation
    pure (
        map (λ (s : Section). record s {
          items = change_item item_id (changed_item label input) s.items;
        }))

  -- updateItem
  unfoldable pub update_item : String → ℕ → String → Option String → ItemInput → Handler Definition
  unfolding edit_draft item_changed
  update_item code n item_id label input = edit_draft code n (item_changed item_id label input)

  -- The edit of reorder_items: its checks, then what the sections become.
  unfoldable pub items_ordered :
      String → List String → List Section → Handler (List Section → List Section)
  unfolding place_items
  items_ordered section_id ordered_ids sections = do
    section ← or_throw section_not_found (find (λ (s : Section). s.id == section_id) sections)
    require (covers (λ (i : Item). i.id) (λ i. i.sort_order) (λ k i. i) ordered_ids section.items)
        item_not_found
    placed ← or_throw unique_violation (place_items ordered_ids section.items)
    pure (change_section section_id (λ s. record s { items = placed }))

  -- reorderItems
  unfoldable pub reorder_items : String → ℕ → String → List String → Handler Definition
  unfolding edit_draft items_ordered
  reorder_items code n section_id ordered_ids =
      edit_draft code n (items_ordered section_id ordered_ids)

  abbrev pub publish_change : Fresh → String → Option String → Version → Version
  publish_change w uid notes v = record v {
    status = published;
    published_at = some w.now;
    published_by_id = some uid;
    notes = or_else v.notes notes;
  }

  -- publishVersion
  unfoldable pub publish_version : Fresh → String → ℕ → String → Option String → Handler Definition
  unfolding find_version_or_throw get_version_by_number
  publish_version w code n uid notes = do
    (t, v) ← find_version_or_throw code n
    require (is_draft v.status) not_draft
    require (not (is_empty v.sections) && not (is_empty (all_items v.sections))) empty_template
    change_version (numbered t.code n) (publish_change w uid notes)
    change_template t.code (λ x. record x { current_version = some (numbered t.code n) })
    get_version_by_number code n can_view_drafts

  abbrev pub if_current : Template → Key → Handler (Unit {0})
  if_current t k =
      if is_current k t.current_version
      then change_template t.code (λ x. record x { current_version = none })
      else skip

  -- archiveVersion. The version's template is the one that it was found by.
  unfoldable pub archive_version : String → ℕ → Handler Definition
  unfolding find_version_or_throw get_version_by_number
  archive_version code n = do
    (t, v) ← find_version_or_throw code n
    require (not (is_archived v.status)) already_archived
    found ← gets (λ s. p.find_unique (id v.template_code) s.templates)
    template ← or_throw row_missing found
    change_version (numbered t.code n) (λ x. record x { status = archived })
    if_current template (numbered t.code n)
    get_version_by_number code n can_view_drafts
