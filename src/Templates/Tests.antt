-- ===== src/Templates/Tests.antt =====
-- Runs of the checklist templates service over a database in memory.
use fg_details_to_be_added_f.Prelude.{
  ℕ, String, ◌≡◌, refl, sym, ap, subst, ◌∙◌, true, false, none, some, List, [], ◌∷◌, is_some, arith,
}
use fg_details_to_be_added_f.Checklist.Items.{acceptable_unacceptable_na, Item, Section}
use fg_details_to_be_added_f.Checklist.Order.{sort_by, insert_by}
use fg_details_to_be_added_f.Inspections.State.{published}
use fg_details_to_be_added_f.Exec.{ok, err}
use fg_details_to_be_added_f.Prisma.{Key, id, numbered, same_key_iff}
use fg_details_to_be_added_f.Prisma.Memory.{memory, memory_laws}
use fg_details_to_be_added_f.Templates.{
  Template, Version, key_of, is_published, Fresh, TemplatesDb, unique_violation, not_editable,
}
use fg_details_to_be_added_f.Templates.Content.{definition_of, sorted_sections}
use fg_details_to_be_added_f.Templates.Service.{
  get_published_version, reorder_sections, add_section,
}
use fg_details_to_be_added_f.Templates.Sound.{IsKept}
use fg_details_to_be_added_f.Templates.History.{
  Request, drafting, publishing, archiving, handle, handle_all, IsSound,
}
use fg_details_to_be_added_f.Templates.Lasting.{
  handle_all-keeps_content, get_published_version-handle_all,
}

abbrev floor : Item
floor = record {
  id = "i1";
  label = "Floor";
  sort_order = 0;
  item_type = acceptable_unacceptable_na;
  options = [];
  is_required = true;
  allow_not_applicable = false;
  requires_evidence_on_fail = false;
  is_critical_failure = false;
  remark_required_on_fail = false;
  corrective_action_required_on_fail = false;
  min_value = none;
  max_value = none;
  default_response = none;
}

abbrev section : String → ℕ → Section
section sid n = record { id = sid; name = sid; sort_order = n; items = floor ∷ [] }

abbrev version_1 : Version
version_1 = record {
  template_code = "CLEANING";
  version_number = 1;
  status = published;
  notes = none;
  published_by_id = some "u1";
  published_at = some 5;
  sections = section "s1" 0 ∷ section "s2" 1 ∷ [];
}

abbrev template : Template
template = record {
  code = "CLEANING";
  title = "Cleaning";
  description = none;
  is_active = true;
  current_version = some (numbered "CLEANING" 1);
  created_by_id = "u1";
}

abbrev db : TemplatesDb memory
db = record {
  templates = (id "CLEANING", template) ∷ [];
  versions = (numbered "CLEANING" 1, version_1) ∷ [];
}

abbrev fresh : Fresh
fresh = record { now = 9; new_id = "n"; copy_id = λ i. i }

-- A draft is cloned from the current version, and published in its place.
abbrev requests : List Request
requests =
    drafting fresh "CLEANING" none
    ∷ publishing fresh "CLEANING" 2 "u2" none
    ∷ archiving "CLEANING" 1
    ∷ []

only_version :
    (k : Key) (v : Version)
    → memory.find_unique k db.versions ≡ some v
    → (k ≡ numbered "CLEANING" 1) × (version_1 ≡ v)
only_version k v e = (only_key, ground arith)
  where
    only_key : k ≡ numbered "CLEANING" 1
    only_key = sym ((same_key_iff (numbered "CLEANING" 1) k).0 (ground arith))

only_template :
    (k : Key) (t : Template)
    → memory.find_unique k db.templates ≡ some t
    → (k ≡ id "CLEANING") × (template ≡ t)
only_template k t e = (only_key, ground arith)
  where
    only_key : k ≡ id "CLEANING"
    only_key = sym ((same_key_iff (id "CLEANING") k).0 (ground arith))

db-IsSound : IsSound memory db db
db-IsSound = (
  record {
    keyed = λ k v e. subst (λ x. k ≡ key_of x) (only_version k v e).1 (only_version k v e).0;
    named = λ k t e.
        subst (λ (x : Template). k ≡ id x.code) (only_template k t e).1 (only_template k t e).0;
    owned = λ k v e.
        subst
          (λ (x : Version). is_some (memory.find_unique (id x.template_code) db.templates) ≡ true)
          (only_version k v e).1 refl;
    frozen = λ k v e h. (v, e, refl, h);
  },
  λ k t c e is.
      let said = ap (λ (x : Template). x.current_version) (only_template k t e).1 ∙ is in
      let same : numbered "CLEANING" 1 ≡ c = cc in
      (
        version_1,
        subst (λ d. memory.find_unique d db.versions ≡ some version_1) same refl,
        refl,
        ap (λ (x : Template). x.code) (only_template k t e).1,
      ),
)

handle_all-keeps_content_example :
    IsKept memory (handle_all memory requests db) (numbered "CLEANING" 1) version_1
handle_all-keeps_content_example =
    handle_all-keeps_content memory memory_laws requests db (numbered "CLEANING" 1) version_1
      db-IsSound refl refl

abbrev template_2 : Template
template_2 = record template { current_version = some (numbered "CLEANING" 2) }

template_2_found :
    memory.find_unique (id "CLEANING") (handle_all memory requests db).templates ≡ some template_2
unfolding handle sorted_sections sort_by insert_by
template_2_found = refl

get_published_version-handle_all_example :
    (v : Version) × (memory.find_unique
        (numbered "CLEANING" 2)
        (handle_all memory requests db).versions
      ≡ some v)
    × (is_published v.status ≡ true)
    × (get_published_version memory "CLEANING" (handle_all memory requests db)
        ≡ (ok (definition_of template_2 v), handle_all memory requests db))
get_published_version-handle_all_example =
    get_published_version-handle_all memory memory_laws requests db "CLEANING" template_2
      (numbered "CLEANING" 2) db-IsSound template_2_found refl

-- Swapping two sections of a draft: the first write meets the order of the other section.
abbrev drafted : TemplatesDb memory
drafted = (handle memory (drafting fresh "CLEANING" none) db).1

swap_refused :
    reorder_sections memory "CLEANING" 2 ("s2" ∷ "s1" ∷ []) drafted
    ≡ (err unique_violation, drafted)
unfolding reorder_sections handle sorted_sections sort_by insert_by
swap_refused = refl

closed_refused : (add_section memory fresh "CLEANING" 1 "Walls" none db).0 ≡ err not_editable
unfolding add_section
closed_refused = refl
