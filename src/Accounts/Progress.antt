-- ===== src/Accounts/Progress.antt =====
-- What no operation of the auth and users services takes back: a revoked session stays revoked, and the
-- auth version of a user never falls.
use fg_details_to_be_added_f.Prelude.{
  ◌≤◌, ◌≡◌, inl, inr, refl, sym, ap, ◌∙◌, Bool, true, none, some, is_some, Bool-cases,
}
use fg_details_to_be_added_f.Prisma.{Prisma, PrismaLaws, Key, same_key, same_key_iff, change_if}
use fg_details_to_be_added_f.Accounts.State.{User, RefreshToken}

-- A later version of a row.
abbrev pub TokenGoesOn : RefreshToken → RefreshToken → Type 0
TokenGoesOn a b =
    (b.user_id ≡ a.user_id) × (is_some a.revoked_at ≡ true → is_some b.revoked_at ≡ true)

abbrev pub UserGoesOn : User → User → Type 0
UserGoesOn a b = (b.id ≡ a.id) × (a.auth_version ≤ b.auth_version)

module _ (p : Prisma) {A : Type 0} (R : A → A → Type 0) where
  -- Each row of the first table is still in the second, in a later version.
  abbrev pub GoOn : p.Table A → p.Table A → Type 0
  GoOn t u =
      (k : Key) (a : A)
      → p.find_unique k t ≡ some a
      → (b : A) × (p.find_unique k u ≡ some b) × R a b

  module _ (reflexive : (a : A) → R a a) where
    pub GoOn-refl : (t : p.Table A) → GoOn t t
    GoOn-refl t k a found = (a, found, reflexive a)

    module _ (laws : PrismaLaws p) where
      pub update-GoOn :
          (k : Key) (f : A → A) (t : p.Table A) → ((a : A) → R a (f a)) → GoOn t (p.update k f t)
      update-GoOn k f t h j a found = elim (Bool-cases (same_key k j)) [
        | inl here ↦ (f a, laws.find_unique-update k j f t ∙ rw (here, found) refl, h a)
        | inr other ↦ (a, laws.find_unique-update k j f t ∙ rw (other, found) refl, reflexive a)
      ]

      change_if-R :
          (q : A → Bool) (f : A → A) → ((a : A) → R a (f a)) → (a : A) → R a (change_if q f a)
      change_if-R q f h a = elim (Bool-cases (q a)) [
        | inl e ↦ rw e (h a)
        | inr e ↦ rw e (reflexive a)
      ]

      pub update_many-GoOn :
          (q : A → Bool) (f : A → A) (t : p.Table A)
          → ((a : A) → R a (f a))
          → GoOn t (p.update_many q f t)
      update_many-GoOn q f t h j a found = (
        change_if q f a,
        laws.find_unique-update_many j q f t ∙ rw found refl,
        change_if-R q f h a,
      )

      pub update_where-GoOn :
          (k : Key) (q : A → Bool) (f : A → A) (t : p.Table A)
          → ((a : A) → R a (f a))
          → GoOn t (p.update_where k q f t).0
      update_where-GoOn k q f t h j a found = elim (Bool-cases (same_key k j)) [
        | inl here ↦ (
          change_if q f a,
          laws.find_unique-update_where k j q f t ∙ rw (here, found) refl,
          change_if-R q f h a,
        )
        | inr other ↦
            (a, laws.find_unique-update_where k j q f t ∙ rw (other, found) refl, reflexive a)
      ]

      -- A document is created under a key that is free.
      pub create-GoOn :
          (k : Key) (b : A) (t : p.Table A) → p.find_unique k t ≡ none → GoOn t (p.create k b t)
      create-GoOn k b t free j a found = elim (Bool-cases (same_key k j)) [
        | inl here ↦ cc (sym free ∙ ap (λ i. p.find_unique i t) ((same_key_iff k j).0 here) ∙ found)
        | inr other ↦ (a, laws.find_unique-create k j b t ∙ rw (other, found) refl, reflexive a)
      ]
