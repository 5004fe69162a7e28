-- ===== src/Templates/Lifecycle.antt =====
-- createTemplate, publishVersion and archiveVersion keep the invariant.
use fg_details_to_be_added_f.Prelude.{
  ℕ, String, ◌≡◌, inl, inr, refl, sym, ap, subst, ◌∙◌, true, false, ◌&&◌, not, Option, none, some,
  is_some, [], Bool-cases, Option-cases, is_empty,
}
use fg_details_to_be_added_f.Inspections.State.{archived}
use fg_details_to_be_added_f.Prisma.{Prisma, PrismaLaws, Key, id, numbered, same_key, same_key_iff}
use fg_details_to_be_added_f.Prisma.Rows.{find-update_here}
use fg_details_to_be_added_f.Templates.{Template, Version, key_of, is_draft, Fresh, TemplatesDb}
use fg_details_to_be_added_f.Templates.Content.{all_items}
use fg_details_to_be_added_f.Templates.Service.{
  create_template, publish_version, publish_change, archive_version, is_archived, is_current,
  draft_of, template_of, can_view_drafts,
}
use fg_details_to_be_added_f.Templates.Sound.{
  IsFiled, HasCurrent, Rewrites, change_version-IsFiled, change_version-HasCurrent,
  create_version-IsFiled, create_version-HasCurrent,
}
use fg_details_to_be_added_f.Templates.Current.{
  change_template-IsFiled, set_current-HasCurrent, archive-HasCurrent, archive_other-HasCurrent,
  create_template-IsFiled, create_template-HasCurrent,
}
use fg_details_to_be_added_f.Templates.History.{
  IsSound, find_version_cases, get_version_by_number-same,
}

module _ (p : Prisma) (laws : PrismaLaws p) (s₀ : TemplatesDb p) where
  pub create_template-IsSound :
      (code title : String) (description : Option String) (uid : String) (s : TemplatesDb p)
      → IsSound p s₀ s
      → IsSound p s₀ (create_template p code title description uid s).1
  unfolding create_template
  create_template-IsSound code title description uid s (filed, current) =
      elim (Option-cases (p.find_unique (id code) s.templates)) [
        | inr (t, e) ↦ rw e (filed, current)
        | inl free ↦
            let t = template_of p code title description uid in
            let s' : TemplatesDb p = record s { templates = p.create (id code) t s.templates } in
            let filed' : IsFiled p s₀ s' = create_template-IsFiled p laws s₀ s t free filed in
            let current' : HasCurrent p s' = create_template-HasCurrent p laws s t refl current in
            let v = draft_of p code 1 [] in
            let there : is_some (p.find_unique (id code) s'.templates) ≡ true =
              rw
                (
                  laws.find_unique-create (id code) (id code) t s.templates,
                  (same_key_iff (id code) (id code)).1 refl,
                )
                refl in
            let free' : p.find_unique (key_of v) s.versions ≡ none =
              no_version (p.find_unique (key_of v) s.versions) refl free in
            rw free (
              create_version-IsFiled p laws s₀ s' v free' there filed',
              create_version-HasCurrent p laws s' v free' current',
            )
      ]
    where
      no_version :
          (o : Option Version)
          → p.find_unique (numbered code 1) s.versions ≡ o
          → p.find_unique (id code) s.templates ≡ none
          → p.find_unique (numbered code 1) s.versions ≡ none
      no_version none h free = h
      no_version (some u) h free =
          let k = filed.keyed (numbered code 1) u h in
          let own : code ≡ u.template_code = cc in
          let there = filed.owned (numbered code 1) u h in
          let there' = rw (← own, free) at there in absurd cc

  pub publish_version-IsSound :
      (w : Fresh) (code : String) (n : ℕ) (uid : String) (notes : Option String) (s : TemplatesDb p)
      → IsSound p s₀ s
      → IsSound p s₀ (publish_version p w code n uid notes s).1
  unfolding publish_version
  publish_version-IsSound w code n uid notes s (filed, current) =
      elim (find_version_cases p code n s) [
        | inl (e, h) ↦ rw h (filed, current)
        | inr (t, v, h, _, at_k) ↦ elim (Bool-cases (is_draft v.status)) [
          | inr e ↦ rw (h, e) (filed, current)
          | inl e ↦
              elim (Bool-cases
                (not (is_empty v.sections) && not (is_empty (all_items v.sections)))) [
                  | inr e' ↦ rw (h, e, e') (filed, current)
                  | inl e' ↦
                      rw (h, e, e', get_version_by_number-same p code n can_view_drafts)
                        (written t v at_k e)
                ]
        ]
      ]
    where
      written :
          (t : Template) (v : Version)
          → p.find_unique (numbered t.code n) s.versions ≡ some v
          → is_draft v.status ≡ true
          → IsSound p s₀ (record s {
            versions = p.update (numbered t.code n) (publish_change p w uid notes) s.versions;
            templates =
                p.update
                  (id t.code)
                  (λ x. record x { current_version = some (numbered t.code n) })
                  s.templates;
          })
      written t v at_k open_ =
          let k = numbered t.code n in
          let s' : TemplatesDb p = record s {
            versions = p.update k (publish_change p w uid notes) s.versions;
          } in
          let filed' : IsFiled p s₀ s' =
            change_version-IsFiled p laws s₀ s k (publish_change p w uid notes)
              (record {
                same_key = λ u. refl;
                same_template = λ u. refl;
                kept = λ u found closed.
                    let both : some u ≡ some v = sym found ∙ at_k in
                    let one : u ≡ v = cc in
                    let status = ap (λ (x : Version). is_draft x.status) one in absurd cc;
              })
              filed in
          let own : k ≡ key_of v = filed.keyed k v at_k in
          let own' : v.template_code ≡ t.code = cc in
          (
            change_template-IsFiled p laws s₀ s' (id t.code) _ (λ x. refl) filed',
            set_current-HasCurrent p laws s₀ s' t.code k (publish_change p w uid notes v) filed'
                (find-update_here p laws k (publish_change p w uid notes) s.versions v at_k) refl
                own'
                (change_version-HasCurrent p laws s k (publish_change p w uid notes) (λ u. refl)
                  (λ u found live. refl) current),
          )

  abbrev archive : Version → Version
  archive x = record x { status = archived }

  pub archive_version-IsSound :
      (code : String) (n : ℕ) (s : TemplatesDb p)
      → IsSound p s₀ s
      → IsSound p s₀ (archive_version p code n s).1
  unfolding archive_version
  archive_version-IsSound code n s (filed, current) = elim (find_version_cases p code n s) [
    | inl (e, h) ↦ rw h (filed, current)
    | inr (t, v, h, _, at_k) ↦ elim (Bool-cases (not (is_archived v.status))) [
      | inr e ↦ rw (h, e) (filed, current)
      | inl e ↦ elim (Option-cases (p.find_unique (id v.template_code) s.templates)) [
        | inl e' ↦ rw (h, e, e') (filed, current)
        | inr (t₀, owner) ↦
            let own : numbered t.code n ≡ key_of v = filed.keyed (numbered t.code n) v at_k in
            let own' : v.template_code ≡ t.code = cc in
            elim (Bool-cases (is_current (numbered t.code n) t₀.current_version)) [
              | inl c ↦
                  rw (h, e, owner, c, get_version_by_number-same p code n can_view_drafts)
                    (cleared t v t₀ at_k e owner own')
              | inr c ↦
                  rw (h, e, owner, c, get_version_by_number-same p code n can_view_drafts)
                    (kept_current t v t₀ at_k e owner c)
            ]
      ]
    ]
  ]
    where
      no_draft : (t : Template) (v : Version) → Rewrites p (numbered t.code n) archive s
      no_draft t v = record {
        same_key = λ u. refl;
        same_template = λ u. refl;
        kept = λ u found closed. (refl, refl);
      }

      cleared :
          (t : Template) (v : Version) (t₀ : Template)
          → p.find_unique (numbered t.code n) s.versions ≡ some v
          → not (is_archived v.status) ≡ true
          → p.find_unique (id v.template_code) s.templates ≡ some t₀
          → v.template_code ≡ t.code
          → IsSound p s₀ (record s {
            versions = p.update (numbered t.code n) archive s.versions;
            templates =
                p.update (id t₀.code) (λ x. record x { current_version = none }) s.templates;
          })
      cleared t v t₀ at_k e owner own =
          let named = filed.named (id v.template_code) t₀ owner in
          let code' : v.template_code ≡ t₀.code = cc in
          let filed' =
            change_version-IsFiled p laws s₀ s (numbered t.code n) archive (no_draft t v) filed in
          (
            change_template-IsFiled p laws s₀ _ (id t₀.code) _ (λ x. refl) filed',
            subst
                (λ c. HasCurrent p (record s {
                  versions = p.update (numbered t.code n) archive s.versions;
                  templates =
                      p.update (id c) (λ x. record x { current_version = none }) s.templates;
                }))
                code'
                (archive-HasCurrent p laws s₀ s (numbered t.code n) v archive filed at_k current),
          )

      other_key :
          (c : Key) (o : Option Key) (d : Key)
          → is_current c o ≡ false
          → o ≡ some d
          → same_key d c ≡ false
      other_key c none d f e = cc
      other_key c (some j) d f e = let same : j ≡ d = cc in rw (← same) f

      kept_current :
          (t : Template) (v : Version) (t₀ : Template)
          → p.find_unique (numbered t.code n) s.versions ≡ some v
          → not (is_archived v.status) ≡ true
          → p.find_unique (id v.template_code) s.templates ≡ some t₀
          → is_current (numbered t.code n) t₀.current_version ≡ false
          → IsSound p s₀ (record s { versions = p.update (numbered t.code n) archive s.versions })
      kept_current t v t₀ at_k e owner c = (
        change_version-IsFiled p laws s₀ s (numbered t.code n) archive (no_draft t v) filed,
        archive_other-HasCurrent p laws s₀ s (numbered t.code n) v t₀ archive filed at_k owner
            (λ d is. other_key (numbered t.code n) t₀.current_version d c is) current,
      )
