-- ===== src/Templates/Numbering.antt =====
-- createDraftVersion keeps the invariant: the number that it gives is free.
use fg_details_to_be_added_f.Prelude.{
  ℕ, suc, String, ◌≡◌, inl, inr, refl, sym, ap, subst, true, Option, none, some, is_some, List, [],
  ◌∷◌, In, Bool-cases, Option-cases, arith, ltb, ◌≤◌, eq_iff,
}
use fg_details_to_be_added_f.Checklist.Items.{Section}
use fg_details_to_be_added_f.Exec.{Outcome, ok, err, continue}
use fg_details_to_be_added_f.Prisma.{Prisma, PrismaLaws, Key, id, numbered}
use fg_details_to_be_added_f.Templates.{
  Template, Version, key_of, Fresh, TemplatesException, TemplatesDb,
}
use fg_details_to_be_added_f.Templates.Content.{cloned_sections, definition_of, max_number}
use fg_details_to_be_added_f.Templates.Service.{
  find_template_or_throw, resolve_clone_source, create_draft_version, is_of, draft_of,
}
use fg_details_to_be_added_f.Templates.Sound.{
  IsFiled, create_version-IsFiled, create_version-HasCurrent,
}
use fg_details_to_be_added_f.Templates.History.{IsSound, find_version_cases}

module _ (p : Prisma) (laws : PrismaLaws p) (s₀ : TemplatesDb p) where
  In-max_number : (v : Version) (vs : List Version) → In v vs → v.version_number ≤ max_number vs
  In-max_number v [] m = absurd m
  In-max_number v (u ∷ us) (inl same) =
      let number = ap (λ (x : Version). x.version_number) same in
      elim (Bool-cases (ltb (max_number us) u.version_number)) [
        | inl e ↦ rw e (omega arith)
        | inr e ↦ ground arith
      ]
  In-max_number v (u ∷ us) (inr m) =
      let h = In-max_number v us m in
      elim (Bool-cases (ltb (max_number us) u.version_number)) [
        | inl e ↦ ground arith
        | inr e ↦ rw e h
      ]

  abbrev next_key : String → TemplatesDb p → Key
  next_key code s = numbered code (suc (max_number (p.find_many (is_of p code) s.versions)))

  -- The number of a new version is free.
  next_number_free :
      (code : String) (s : TemplatesDb p)
      → IsFiled p s₀ s
      → p.find_unique
          (numbered code (suc (max_number (p.find_many (is_of p code) s.versions))))
          s.versions
        ≡ none
  next_number_free code s filed = of_found (p.find_unique (next_key code s) s.versions) refl
    where
      of_found :
          (o : Option Version)
          → p.find_unique (next_key code s) s.versions ≡ o
          → p.find_unique (next_key code s) s.versions ≡ none
      of_found none h = h
      of_found (some u) h =
          let key = filed.keyed (next_key code s) u h in
          let own : code ≡ u.template_code = cc in
          let number : suc (max_number (p.find_many (is_of p code) s.versions)) ≡ u.version_number =
            cc in
          let below = In-max_number u (p.find_many (is_of p code) s.versions) (
            laws.In-find_many (is_of p code) (next_key code s) u s.versions h
              ((eq_iff u.template_code code).1 (sym own))) in
          absurd (omega arith)

  resolve_clone_source-same :
      (t : Template) (from : Option ℕ) (s : TemplatesDb p) → (resolve_clone_source p t from s).1 ≡ s
  unfolding resolve_clone_source
  resolve_clone_source-same t none s = refl
  resolve_clone_source-same t (some n) s = elim (find_version_cases p t.code n s) [
    | inl (e, h) ↦ rw h refl
    | inr (t', v, h, _, _) ↦ rw h refl
  ]

  pub create_draft_version-IsSound :
      (w : Fresh) (code : String) (from : Option ℕ) (s : TemplatesDb p)
      → IsSound p s₀ s
      → IsSound p s₀ (create_draft_version p w code from s).1
  unfolding create_draft_version find_template_or_throw
  create_draft_version-IsSound w code from s (filed, current) =
      elim (Option-cases (p.find_unique (id code) s.templates)) [
        | inl e ↦ rw e (filed, current)
        | inr (t, e) ↦
            rw e
              (of_source t e (resolve_clone_source p t from s) (resolve_clone_source-same t from s))
      ]
    where
      of_source :
          (t : Template)
          → p.find_unique (id code) s.templates ≡ some t
          → (r : Outcome TemplatesException (List Section) × TemplatesDb p) → r.1 ≡ s
          → IsSound p s₀
              (continue r (λ source x. (
                ok (
                    definition_of t (
                      draft_of p t.code
                        (suc (max_number (p.find_many (is_of p t.code) s.versions)))
                        (cloned_sections w source))),
                record x {
                  versions =
                      p.create
                        (numbered t.code
                          (suc (max_number (p.find_many (is_of p t.code) s.versions))))
                        (draft_of p t.code
                          (suc (max_number (p.find_many (is_of p t.code) s.versions)))
                          (cloned_sections w source))
                        x.versions;
                },
              ))).1
      of_source t e (err _, x) same = subst (IsSound p s₀) (sym same) (filed, current)
      of_source t e (ok source, x) same =
          let named = filed.named (id code) t e in
          let code' : code ≡ t.code = cc in
          let there : is_some (p.find_unique (id t.code) s.templates) ≡ true =
            rw (← code', e) refl in
          let v =
            draft_of p t.code (suc (max_number (p.find_many (is_of p t.code) s.versions)))
              (cloned_sections w source) in
          let free = next_number_free t.code s filed in
          subst (λ z. IsSound p s₀ (record z { versions = p.create (key_of v) v z.versions }))
            (sym same)
            (
              create_version-IsFiled p laws s₀ s v free there filed,
              create_version-HasCurrent p laws s v free current,
            )
