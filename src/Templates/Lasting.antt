-- ===== src/Templates/Lasting.antt =====
-- What lasts under every sequence of requests to checklist-templates.service.ts.
use fg_details_to_be_added_f.Prelude.{
  ℕ, String, ◌≡◌, refl, true, false, Option, some, List, [], ◌∷◌,
}
use fg_details_to_be_added_f.Checklist.Items.{Section}
use fg_details_to_be_added_f.Exec.{ok}
use fg_details_to_be_added_f.Exec.Keeps.{Keeps, keeps_rules}
use fg_details_to_be_added_f.Prisma.{Prisma, PrismaLaws, Key, id}
use fg_details_to_be_added_f.Templates.{
  Template, Version, is_draft, is_published, ItemInput, Fresh, TemplatesDb,
}
use fg_details_to_be_added_f.Templates.Content.{definition_of}
use fg_details_to_be_added_f.Templates.Service.{
  section_added, sections_ordered, item_added, item_changed, items_ordered, find_template_or_throw,
  get_published_version, add_section, reorder_sections, add_item, update_item, reorder_items,
}
use fg_details_to_be_added_f.Templates.History.{
  Request, creating, drafting, adding_section, reordering_sections, adding_item, updating_item,
  reordering_items, publishing, archiving, handle, handle_all, IsSound, edit_draft-IsSound,
}
use fg_details_to_be_added_f.Templates.Lifecycle.{
  create_template-IsSound, publish_version-IsSound, archive_version-IsSound,
}
use fg_details_to_be_added_f.Templates.Numbering.{create_draft_version-IsSound}
use fg_details_to_be_added_f.Templates.Sound.{IsKept}

module _ (p : Prisma) (laws : PrismaLaws p) where
  section_added-Keeps :
      (w : Fresh) (name : String) (sort_order : Option ℕ) (xs : List Section) (s : TemplatesDb p)
      → Keeps (λ (x : TemplatesDb p). x ≡ s) (section_added p w name sort_order xs)
  unfolding section_added
  section_added-Keeps w name sort_order xs s = search (keeps_rules) depth 8

  sections_ordered-Keeps :
      (ordered_ids : List String) (xs : List Section) (s : TemplatesDb p)
      → Keeps (λ (x : TemplatesDb p). x ≡ s) (sections_ordered p ordered_ids xs)
  unfolding sections_ordered
  sections_ordered-Keeps ordered_ids xs s = search (keeps_rules) depth 8

  item_added-Keeps :
      (w : Fresh) (section_id : String) (label : String) (input : ItemInput) (xs : List Section)
      (s : TemplatesDb p)
      → Keeps (λ (x : TemplatesDb p). x ≡ s) (item_added p w section_id label input xs)
  unfolding item_added
  item_added-Keeps w section_id label input xs s = search (keeps_rules) depth 8

  item_changed-Keeps :
      (item_id : String) (label : Option String) (input : ItemInput) (xs : List Section)
      (s : TemplatesDb p)
      → Keeps (λ (x : TemplatesDb p). x ≡ s) (item_changed p item_id label input xs)
  unfolding item_changed
  item_changed-Keeps item_id label input xs s = search (keeps_rules) depth 8

  items_ordered-Keeps :
      (section_id : String) (ordered_ids : List String) (xs : List Section) (s : TemplatesDb p)
      → Keeps (λ (x : TemplatesDb p). x ≡ s) (items_ordered p section_id ordered_ids xs)
  unfolding items_ordered
  items_ordered-Keeps section_id ordered_ids xs s = search (keeps_rules) depth 8

  handle-IsSound :
      (s₀ : TemplatesDb p) (r : Request) (s : TemplatesDb p)
      → IsSound p s₀ s
      → IsSound p s₀ (handle p r s).1
  unfolding handle add_section reorder_sections add_item update_item reorder_items
  handle-IsSound s₀ (creating code title description uid) s h =
      create_template-IsSound p laws s₀ code title description uid s h
  handle-IsSound s₀ (drafting w code from) s h =
      create_draft_version-IsSound p laws s₀ w code from s h
  handle-IsSound s₀ (adding_section w code n name sort_order) s h =
      edit_draft-IsSound p laws s₀ code n (section_added p w name sort_order) s
        (λ xs. section_added-Keeps w name sort_order xs s) h
  handle-IsSound s₀ (reordering_sections code n ids) s h =
      edit_draft-IsSound p laws s₀ code n (sections_ordered p ids) s
        (λ xs. sections_ordered-Keeps ids xs s) h
  handle-IsSound s₀ (adding_item w code n sid label input) s h =
      edit_draft-IsSound p laws s₀ code n (item_added p w sid label input) s
        (λ xs. item_added-Keeps w sid label input xs s) h
  handle-IsSound s₀ (updating_item code n iid label input) s h =
      edit_draft-IsSound p laws s₀ code n (item_changed p iid label input) s
        (λ xs. item_changed-Keeps iid label input xs s) h
  handle-IsSound s₀ (reordering_items code n sid ids) s h =
      edit_draft-IsSound p laws s₀ code n (items_ordered p sid ids) s
        (λ xs. items_ordered-Keeps sid ids xs s) h
  handle-IsSound s₀ (publishing w code n uid notes) s h =
      publish_version-IsSound p laws s₀ w code n uid notes s h
  handle-IsSound s₀ (archiving code n) s h = archive_version-IsSound p laws s₀ code n s h

  handle_all-IsSound :
      (s₀ : TemplatesDb p) (rs : List Request) (s : TemplatesDb p)
      → IsSound p s₀ s
      → IsSound p s₀ (handle_all p rs s)
  handle_all-IsSound s₀ [] s h = h
  handle_all-IsSound s₀ (r ∷ rs) s h =
      handle_all-IsSound s₀ rs (handle p r s).1 (handle-IsSound s₀ r s h)

  -- Given the laws of the database client, and versions and templates that stand under their keys with
  -- published current versions: a version that is published or archived keeps its sections, items and
  -- options, and never becomes a draft again, whatever requests arrive, and whether they return or
  -- throw.
  pub handle_all-keeps_content :
      (rs : List Request) (s : TemplatesDb p) (k : Key) (v : Version)
      → IsSound p s s
      → p.find_unique k s.versions ≡ some v
      → is_draft v.status ≡ false
      → IsKept p (handle_all p rs s) k v
  handle_all-keeps_content rs s k v h found closed =
      (handle_all-IsSound s rs s h).0.frozen k v found closed

  -- Given the laws of the database client, and versions and templates that stand under their keys with
  -- published current versions: after any requests, a template that has a current version has it
  -- published, and getPublishedVersion returns that version.
  pub get_published_version-handle_all :
      (rs : List Request) (s : TemplatesDb p) (code : String) (t : Template) (c : Key)
      → IsSound p s s
      → p.find_unique (id code) (handle_all p rs s).templates ≡ some t
      → t.current_version ≡ some c
      → (v : Version) × (p.find_unique c (handle_all p rs s).versions ≡ some v)
        × (is_published v.status ≡ true)
        × (get_published_version p code (handle_all p rs s)
            ≡ (ok (definition_of t v), handle_all p rs s))
  unfolding get_published_version find_template_or_throw
  get_published_version-handle_all rs s code t c h found is =
      let (v, at_c, live, own) = (handle_all-IsSound s rs s h).1 (id code) t c found is in
      (v, at_c, live, rw (found, is, at_c, live) refl)
