-- ===== src/Templates/Current.antt =====
-- The writes of templates: creating one, and setting and clearing its current version.
use fg_details_to_be_added_f.Prelude.{
  String, ◌≡◌, ◌⊎◌, inl, inr, refl, sym, ap, ◌∙◌, true, false, none, some, is_some, Bool-cases,
  Option-cases,
}
use fg_details_to_be_added_f.Prisma.{Prisma, PrismaLaws, Key, id, same_key, same_key_iff}
use fg_details_to_be_added_f.Prisma.Rows.{update_cases, find-update_there, create_cases}
use fg_details_to_be_added_f.Templates.{Template, Version, is_published, TemplatesDb}
use fg_details_to_be_added_f.Templates.Sound.{IsFiled, HasCurrent}

id_inj : (a b : String) → id a ≡ id b → a ≡ b
id_inj a b e = cc

module _ (p : Prisma) (laws : PrismaLaws p) where
  is_some-update :
      (k j : Key) (f : Template → Template) (t : p.Table Template)
      → is_some (p.find_unique j t) ≡ true
      → is_some (p.find_unique j (p.update k f t)) ≡ true
  is_some-update k j f t h = elim (Option-cases (p.find_unique j t)) [
    | inl n ↦ let h' = rw n at h in absurd cc
    | inr (a, e) ↦ elim (Bool-cases (same_key k j)) [
      | inl here ↦ rw (laws.find_unique-update k j f t, here, e) refl
      | inr other ↦ rw (laws.find_unique-update k j f t, other, e) refl
    ]
  ]

  pub change_template-IsFiled :
      (s₀ s : TemplatesDb p) (k : Key) (f : Template → Template)
      → ((t : Template) → (f t).code ≡ t.code)
      → IsFiled p s₀ s
      → IsFiled p s₀ (record s { templates = p.update k f s.templates })
  change_template-IsFiled s₀ s k f same filed = record {
    keyed = filed.keyed;
    named = λ j t e. elim (update_cases p laws k j f s.templates t e) [
      | inl (b, _, was, now) ↦
          filed.named j b was ∙ ap id (sym (same b)) ∙ ap (λ (x : Template). id x.code) now
      | inr (_, was) ↦ filed.named j t was
    ];
    owned = λ j v e. is_some-update k (id v.template_code) f s.templates (filed.owned j v e);
    frozen = filed.frozen;
  }

  -- A published version becomes the current one of its template.
  pub set_current-HasCurrent :
      (s₀ s : TemplatesDb p) (code : String) (c : Key) (v : Version)
      → IsFiled p s₀ s
      → p.find_unique c s.versions ≡ some v
      → is_published v.status ≡ true
      → v.template_code ≡ code
      → HasCurrent p s
      → HasCurrent p (record s {
        templates = p.update (id code) (λ x. record x { current_version = some c }) s.templates;
      })
  set_current-HasCurrent s₀ s code c v filed at_c live own current j t d found is =
      elim (update_cases p laws (id code) j
        (λ (x : Template). record x { current_version = some c }) s.templates t found) [
          | inl (b, here, was, now) ↦
              let said : some c ≡ some d = ap (λ (x : Template). x.current_version) now ∙ is in
              let same : c ≡ d = cc in
              (
                v,
                ap (λ i. p.find_unique i s.versions) (sym same) ∙ at_c,
                live,
                own
                    ∙ id_inj code b.code (here ∙ filed.named j b was)
                    ∙ ap (λ (x : Template). x.code) now,
              )
          | inr (_, was) ↦ current j t d was is
        ]

  -- A template whose current version is cleared, when a version of it is archived.
  pub archive-HasCurrent :
      (s₀ s : TemplatesDb p) (c : Key) (v : Version) (f : Version → Version)
      → IsFiled p s₀ s
      → p.find_unique c s.versions ≡ some v
      → HasCurrent p s
      → HasCurrent p (record s {
        versions = p.update c f s.versions;
        templates =
            p.update (id v.template_code) (λ x. record x { current_version = none }) s.templates;
      })
  archive-HasCurrent s₀ s c v f filed at_c current j t d found is =
      elim (update_cases p laws (id v.template_code) j
        (λ (x : Template). record x { current_version = none }) s.templates t found) [
          | inl (b, here, was, now) ↦
              let said : none ≡ some d = ap (λ (x : Template). x.current_version) now ∙ is in
              absurd cc
          | inr (apart, was) ↦
              elsewhere apart was (current j t d was is) (Bool-cases (same_key c d))
        ]
    where
      elsewhere :
          same_key (id v.template_code) j ≡ false
          → p.find_unique j s.templates ≡ some t
          → (u : Version) × (p.find_unique d s.versions ≡ some u)
            × (is_published u.status ≡ true)
            × (u.template_code ≡ t.code)
          → (same_key c d ≡ true) ⊎ (same_key c d ≡ false)
          → (u : Version) × (p.find_unique d (p.update c f s.versions) ≡ some u)
            × (is_published u.status ≡ true)
            × (u.template_code ≡ t.code)
      elsewhere apart was (u, at_d, live, own) (inl here) =
          let eq = (same_key_iff c d).0 here in
          let both : some v ≡ some u = sym at_c ∙ ap (λ i. p.find_unique i s.versions) eq ∙ at_d in
          let same : v ≡ u = cc in
          let code = ap (λ (x : Version). x.template_code) same ∙ own in
          let met =
            (same_key_iff (id v.template_code) j).1 (ap id code ∙ sym (filed.named j t was)) in
          absurd cc
      elsewhere apart was (u, at_d, live, own) (inr other) =
          (u, find-update_there p laws c d f s.versions other ∙ at_d, live, own)

  -- A version is archived that is not the current one of its template.
  pub archive_other-HasCurrent :
      (s₀ s : TemplatesDb p) (c : Key) (v : Version) (t₀ : Template) (f : Version → Version)
      → IsFiled p s₀ s
      → p.find_unique c s.versions ≡ some v
      → p.find_unique (id v.template_code) s.templates ≡ some t₀
      → ((d : Key) → t₀.current_version ≡ some d → same_key d c ≡ false)
      → HasCurrent p s
      → HasCurrent p (record s { versions = p.update c f s.versions })
  archive_other-HasCurrent s₀ s c v t₀ f filed at_c owner apart current j t d found is =
      elsewhere (current j t d found is) (Bool-cases (same_key c d))
    where
      elsewhere :
          (u : Version) × (p.find_unique d s.versions ≡ some u)
            × (is_published u.status ≡ true)
            × (u.template_code ≡ t.code)
          → (same_key c d ≡ true) ⊎ (same_key c d ≡ false)
          → (u : Version) × (p.find_unique d (p.update c f s.versions) ≡ some u)
            × (is_published u.status ≡ true)
            × (u.template_code ≡ t.code)
      elsewhere (u, at_d, live, own) (inl here) =
          let eq = (same_key_iff c d).0 here in
          let both : some v ≡ some u = sym at_c ∙ ap (λ i. p.find_unique i s.versions) eq ∙ at_d in
          let same : v ≡ u = cc in
          let code = ap (λ (x : Version). x.template_code) same ∙ own in
          let one : some t₀ ≡ some t =
            sym owner
            ∙ ap (λ i. p.find_unique i s.templates) (ap id code ∙ sym (filed.named j t found))
            ∙ found in
          let same_t : t₀ ≡ t = cc in
          let barred = apart d (ap (λ (x : Template). x.current_version) same_t ∙ is) in
          let met = (same_key_iff d c).1 (sym eq) in absurd cc
      elsewhere (u, at_d, live, own) (inr other) =
          (u, find-update_there p laws c d f s.versions other ∙ at_d, live, own)

  pub create_template-IsFiled :
      (s₀ s : TemplatesDb p) (t : Template)
      → p.find_unique (id t.code) s.templates ≡ none
      → IsFiled p s₀ s
      → IsFiled p s₀ (record s { templates = p.create (id t.code) t s.templates })
  create_template-IsFiled s₀ s t free filed = record {
    keyed = filed.keyed;
    named = λ j u e. elim (create_cases p laws (id t.code) j t s.templates u e) [
      | inl (same, now) ↦ sym same ∙ ap (λ (x : Template). id x.code) now
      | inr was ↦ filed.named j u was
    ];
    owned = λ j v e. elim (Bool-cases (same_key (id t.code) (id v.template_code))) [
      | inl here ↦
          rw (laws.find_unique-create (id t.code) (id v.template_code) t s.templates, here) refl
      | inr other ↦
          rw (laws.find_unique-create (id t.code) (id v.template_code) t s.templates, other)
            (filed.owned j v e)
    ];
    frozen = filed.frozen;
  }

  pub create_template-HasCurrent :
      (s : TemplatesDb p) (t : Template)
      → t.current_version ≡ none
      → HasCurrent p s
      → HasCurrent p (record s { templates = p.create (id t.code) t s.templates })
  create_template-HasCurrent s t empty current j u d found is =
      elim (create_cases p laws (id t.code) j t s.templates u found) [
        | inl (same, now) ↦
            let said : none ≡ some d =
              sym empty ∙ ap (λ (x : Template). x.current_version) now ∙ is in
            absurd cc
        | inr was ↦ current j u d was is
      ]
