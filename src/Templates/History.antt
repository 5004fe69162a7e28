-- ===== src/Templates/History.antt =====
-- Sequences of requests to checklist-templates.service.ts.
use fg_details_to_be_added_f.Prelude.{
  ℕ, String, ◌≡◌, ◌⊎◌, inl, inr, refl, sym, ap, subst, ◌∙◌, true, ◌||◌, Option, some, List, [], ◌∷◌,
  Bool-cases, Option-cases,
}
use fg_details_to_be_added_f.Checklist.Items.{Section}
use fg_details_to_be_added_f.Inspections.State.{Permission}
use fg_details_to_be_added_f.Exec.{Outcome, ok, err, Exec, continue}
use fg_details_to_be_added_f.Exec.Keeps.{Keeps}
use fg_details_to_be_added_f.Prisma.{Prisma, PrismaLaws, id, numbered}
use fg_details_to_be_added_f.Templates.{
  Template, Version, is_draft, is_published, ItemInput, Fresh, Definition, TemplatesException,
  template_not_found, version_not_found, TemplatesDb,
}
use fg_details_to_be_added_f.Templates.Service.{
  find_template_or_throw, find_version_or_throw, get_version_by_number, create_template,
  create_draft_version, edit_draft, add_section, reorder_sections, add_item, update_item,
  reorder_items, publish_version, archive_version, can_view_drafts, may_view,
}
use fg_details_to_be_added_f.Templates.Sound.{
  IsFiled, HasCurrent, change_version-IsFiled, change_version-HasCurrent,
}

-- The requests that write, each as its handler's arguments.
pub data Request : Type 0 where
  creating : String → String → Option String → String → Request
  drafting : Fresh → String → Option ℕ → Request
  adding_section : Fresh → String → ℕ → String → Option ℕ → Request
  reordering_sections : String → ℕ → List String → Request
  adding_item : Fresh → String → ℕ → String → String → ItemInput → Request
  updating_item : String → ℕ → String → Option String → ItemInput → Request
  reordering_items : String → ℕ → String → List String → Request
  publishing : Fresh → String → ℕ → String → Option String → Request
  archiving : String → ℕ → Request

module _ (p : Prisma) where
  unfoldable pub handle : Request → Exec TemplatesException (TemplatesDb p) Definition
  unfolding create_template create_draft_version add_section reorder_sections add_item update_item
      reorder_items publish_version archive_version
  handle (creating code title description uid) = create_template p code title description uid
  handle (drafting w code from) = create_draft_version p w code from
  handle (adding_section w code n name sort_order) = add_section p w code n name sort_order
  handle (reordering_sections code n ids) = reorder_sections p code n ids
  handle (adding_item w code n sid label input) = add_item p w code n sid label input
  handle (updating_item code n iid label input) = update_item p code n iid label input
  handle (reordering_items code n sid ids) = reorder_items p code n sid ids
  handle (publishing w code n uid notes) = publish_version p w code n uid notes
  handle (archiving code n) = archive_version p code n

  -- The state after a list of requests, each returning or throwing.
  abbrev pub handle_all : List Request → TemplatesDb p → TemplatesDb p
  handle_all [] s = s
  handle_all (r ∷ rest) s = handle_all rest (handle r s).1

  abbrev pub IsSound : TemplatesDb p → TemplatesDb p → Type 0
  IsSound s₀ s = IsFiled p s₀ s × HasCurrent p s

  abbrev pub Found : String → ℕ → TemplatesDb p → Type 0
  Found code n s =
      (t : Template) × (v : Version) × (find_version_or_throw p code n s ≡ (ok (t, v), s))
      × (p.find_unique (id code) s.templates ≡ some t)
      × (p.find_unique (numbered t.code n) s.versions ≡ some v)

  pub find_version_cases :
      (code : String) (n : ℕ) (s : TemplatesDb p)
      → ((e : TemplatesException) × (find_version_or_throw p code n s ≡ (err e, s)))
        ⊎ Found code n s
  unfolding find_version_or_throw find_template_or_throw
  find_version_cases code n s = elim (Option-cases (p.find_unique (id code) s.templates)) [
    | inl e ↦ inl (template_not_found code, rw e refl)
    | inr (t, e) ↦ elim (Option-cases (p.find_unique (numbered t.code n) s.versions)) [
      | inl e' ↦ inl (version_not_found n, rw (e, e') refl)
      | inr (v, e') ↦ inr (t, v, rw (e, e') refl, e, e')
    ]
  ]

  pub get_version_by_number-same :
      (code : String) (n : ℕ) (permissions : List Permission) (s : TemplatesDb p)
      → (get_version_by_number p code n permissions s).1 ≡ s
  unfolding get_version_by_number
  get_version_by_number-same code n permissions s = elim (find_version_cases code n s) [
    | inl (e, h) ↦ rw h refl
    | inr (t, v, h, _, _) ↦ elim (Bool-cases (is_published v.status || may_view permissions)) [
      | inl b ↦ rw (h, b) refl
      | inr b ↦ rw (h, b) refl
    ]
  ]

  module _ (laws : PrismaLaws p) (s₀ : TemplatesDb p) where
    pub edit_draft-IsSound :
        (code : String) (n : ℕ)
        (edit : List Section
          → Exec TemplatesException (TemplatesDb p) (List Section → List Section))
        (s : TemplatesDb p)
        → ((xs : List Section) → Keeps (λ (x : TemplatesDb p). x ≡ s) (edit xs))
        → IsSound s₀ s
        → IsSound s₀ (edit_draft p code n edit s).1
    unfolding edit_draft
    edit_draft-IsSound code n edit s reads (filed, current) = elim (find_version_cases code n s) [
      | inl (e, h) ↦ rw h (filed, current)
      | inr (t, v, h, _, at_k) ↦ elim (Bool-cases (is_draft v.status)) [
        | inr e ↦ rw (h, e) (filed, current)
        | inl e ↦ rw (h, e) (of_edit t v at_k e (edit v.sections s) ((reads v.sections).at s refl))
      ]
    ]
      where
        of_edit :
            (t : Template) (v : Version)
            → p.find_unique (numbered t.code n) s.versions ≡ some v
            → is_draft v.status ≡ true
            → (r : Outcome TemplatesException (List Section → List Section) × TemplatesDb p)
            → r.1 ≡ s
            → IsSound s₀
                (continue r (λ f x. get_version_by_number p code n can_view_drafts (record x {
                  versions =
                      p.update
                        (numbered t.code n)
                        (λ y. record y { sections = f y.sections })
                        x.versions;
                }))).1
        of_edit t v at_k open_ (err e, x) same = subst (IsSound s₀) (sym same) (filed, current)
        of_edit t v at_k open_ (ok f, x) same =
            subst (IsSound s₀) (sym (get_version_by_number-same code n can_view_drafts _)) (
              subst
                (λ z. IsSound s₀ (record z {
                  versions =
                      p.update (numbered t.code n) (λ y. record y { sections = f y.sections })
                        z.versions;
                }))
                (sym same)
                (
                  change_version-IsFiled p laws s₀ s (numbered t.code n) _
                      (record {
                        same_key = λ u. refl;
                        same_template = λ u. refl;
                        kept = λ u found closed.
                            let both : some u ≡ some v = sym found ∙ at_k in
                            let one : u ≡ v = cc in
                            let status = ap (λ (x : Version). is_draft x.status) one in absurd cc;
                      })
                      filed,
                  change_version-HasCurrent p laws s (numbered t.code n) _ (λ u. refl)
                      (λ u found live. live) current,
                ))
