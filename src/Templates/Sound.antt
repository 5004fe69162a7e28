-- ===== src/Templates/Sound.antt =====
-- The single writes of the service keep the versions under their keys, the current versions published,
-- and the content of what is no longer a draft.
use fg_details_to_be_added_f.Prelude.{
  ◌≡◌, ◌⊎◌, inl, inr, sym, ap, subst, ◌∙◌, true, false, none, some, is_some, Bool-cases,
}
use fg_details_to_be_added_f.Prisma.{Prisma, PrismaLaws, Key, id, same_key, same_key_iff}
use fg_details_to_be_added_f.Prisma.Rows.{
  update_cases, find-update_here, find-update_there, create_cases, find-create_free,
}
use fg_details_to_be_added_f.Templates.{
  Template, Version, key_of, is_draft, is_published, TemplatesDb,
}

module _ (p : Prisma) where
  -- The version is there and keeps its content, and it is not a draft.
  abbrev pub IsKept : TemplatesDb p → Key → Version → Type 0
  IsKept s k v =
      (v' : Version) × (p.find_unique k s.versions ≡ some v')
      × (v'.sections ≡ v.sections)
      × (is_draft v'.status ≡ false)

  -- Versions and templates stand under their keys, each version has its template, and the versions of
  -- an earlier state that were not drafts are kept.
  pub record IsFiled (s₀ s : TemplatesDb p) : Type 0 where
    pub keyed : (k : Key) (v : Version) → p.find_unique k s.versions ≡ some v → k ≡ key_of v
    pub named : (k : Key) (t : Template) → p.find_unique k s.templates ≡ some t → k ≡ id t.code
    pub owned :
        (k : Key) (v : Version)
        → p.find_unique k s.versions ≡ some v
        → is_some (p.find_unique (id v.template_code) s.templates) ≡ true
    pub frozen :
        (k : Key) (v : Version)
        → p.find_unique k s₀.versions ≡ some v
        → is_draft v.status ≡ false
        → IsKept s k v

  -- The current version of each template is a published version of that template.
  abbrev pub HasCurrent : TemplatesDb p → Type 0
  HasCurrent s =
      (k : Key) (t : Template) (c : Key)
      → p.find_unique k s.templates ≡ some t
      → t.current_version ≡ some c
      → (v : Version) × (p.find_unique c s.versions ≡ some v)
        × (is_published v.status ≡ true)
        × (v.template_code ≡ t.code)

  -- What a write may do to a version.
  pub record Rewrites (k : Key) (f : Version → Version) (s : TemplatesDb p) : Type 0 where
    pub same_key : (v : Version) → key_of (f v) ≡ key_of v
    pub same_template : (v : Version) → (f v).template_code ≡ v.template_code
    pub kept :
        (v : Version)
        → p.find_unique k s.versions ≡ some v
        → is_draft v.status ≡ false
        → ((f v).sections ≡ v.sections) × (is_draft (f v).status ≡ false)

  module _ (laws : PrismaLaws p) where
    pub change_version-IsFiled :
        (s₀ s : TemplatesDb p) (k : Key) (f : Version → Version)
        → Rewrites k f s
        → IsFiled s₀ s
        → IsFiled s₀ (record s { versions = p.update k f s.versions })
    change_version-IsFiled s₀ s k f may filed = record {
      keyed = λ j v e. elim (update_cases p laws k j f s.versions v e) [
        | inl (b, same, was, now) ↦ filed.keyed j b was ∙ sym (may.same_key b) ∙ ap key_of now
        | inr (_, was) ↦ filed.keyed j v was
      ];
      named = filed.named;
      owned = λ j v e. elim (update_cases p laws k j f s.versions v e) [
        | inl (b, same, was, now) ↦
            subst (λ c. is_some (p.find_unique (id c) s.templates) ≡ true)
              (sym (may.same_template b) ∙ ap (λ (x : Version). x.template_code) now)
              (filed.owned j b was)
        | inr (_, was) ↦ filed.owned j v was
      ];
      frozen = λ j v e h. of_kept j v (filed.frozen j v e h) (Bool-cases (same_key k j));
    }
      where
        of_kept :
            (j : Key) (v : Version)
            → IsKept s j v
            → (same_key k j ≡ true) ⊎ (same_key k j ≡ false)
            → IsKept (record s { versions = p.update k f s.versions }) j v
        of_kept j v (v', found, same, no_draft) (inl here) =
            let eq = (same_key_iff k j).0 here in
            let found_k = ap (λ i. p.find_unique i s.versions) eq ∙ found in
            let (sections, status) = may.kept v' found_k no_draft in
            (
              f v',
              ap (λ i. p.find_unique i (p.update k f s.versions)) (sym eq)
                  ∙ find-update_here p laws k f s.versions v' found_k,
              sections ∙ same,
              status,
            )
        of_kept j v (v', found, same, no_draft) (inr other) =
            (v', find-update_there p laws k j f s.versions other ∙ found, same, no_draft)

    pub change_version-HasCurrent :
        (s : TemplatesDb p) (k : Key) (f : Version → Version)
        → ((v : Version) → (f v).template_code ≡ v.template_code)
        → ((v : Version)
            → p.find_unique k s.versions ≡ some v
            → is_published v.status ≡ true
            → is_published (f v).status ≡ true)
        → HasCurrent s
        → HasCurrent (record s { versions = p.update k f s.versions })
    change_version-HasCurrent s k f same_template stays current j t c found is =
        of_current c t (current j t c found is) (Bool-cases (same_key k c))
      where
        of_current :
            (c : Key) (t : Template)
            → (v : Version) × (p.find_unique c s.versions ≡ some v)
              × (is_published v.status ≡ true)
              × (v.template_code ≡ t.code)
            → (same_key k c ≡ true) ⊎ (same_key k c ≡ false)
            → (v : Version) × (p.find_unique c (p.update k f s.versions) ≡ some v)
              × (is_published v.status ≡ true)
              × (v.template_code ≡ t.code)
        of_current c t (v, found, live, own) (inl here) =
            let eq = (same_key_iff k c).0 here in
            let found_k = ap (λ i. p.find_unique i s.versions) eq ∙ found in
            (
              f v,
              ap (λ i. p.find_unique i (p.update k f s.versions)) (sym eq)
                  ∙ find-update_here p laws k f s.versions v found_k,
              stays v found_k live,
              same_template v ∙ own,
            )
        of_current c t (v, found, live, own) (inr other) =
            (v, find-update_there p laws k c f s.versions other ∙ found, live, own)

    pub create_version-IsFiled :
        (s₀ s : TemplatesDb p) (v : Version)
        → p.find_unique (key_of v) s.versions ≡ none
        → is_some (p.find_unique (id v.template_code) s.templates) ≡ true
        → IsFiled s₀ s
        → IsFiled s₀ (record s { versions = p.create (key_of v) v s.versions })
    create_version-IsFiled s₀ s v free own filed = record {
      keyed = λ j u e. elim (create_cases p laws (key_of v) j v s.versions u e) [
        | inl (same, now) ↦ sym same ∙ ap key_of now
        | inr was ↦ filed.keyed j u was
      ];
      named = filed.named;
      owned = λ j u e. elim (create_cases p laws (key_of v) j v s.versions u e) [
        | inl (same, now) ↦
            subst (λ (x : Version). is_some (p.find_unique (id x.template_code) s.templates) ≡ true)
              now own
        | inr was ↦ filed.owned j u was
      ];
      frozen = λ j u e h.
          let (u', found, same, no_draft) = filed.frozen j u e h in
          (u', find-create_free p laws (key_of v) j v s.versions u' free found, same, no_draft);
    }

    pub create_version-HasCurrent :
        (s : TemplatesDb p) (v : Version)
        → p.find_unique (key_of v) s.versions ≡ none
        → HasCurrent s
        → HasCurrent (record s { versions = p.create (key_of v) v s.versions })
    create_version-HasCurrent s v free current j t c found is =
        let (u, at_c, live, own) = current j t c found is in
        (u, find-create_free p laws (key_of v) c v s.versions u free at_c, live, own)
