-- ===== src/Prisma/Rows.antt =====
-- A property of every document of a collection, and the calls that keep it.
use mathlib.Core.Option
use fg_details_to_be_added_f.Prelude.{
  ◌≡◌, ◌⊎◌, inl, inr, refl, sym, ap, subst, ◌∙◌, Bool, true, false, Option, none, some, Bool-cases,
}
use fg_details_to_be_added_f.Prisma.{Key, same_key, same_key_iff, change_if, Prisma, PrismaLaws}

module _ (p : Prisma) {A : Type 0} (P : A → Type 0) where
  abbrev pub AllRows : p.Table A → Type 0
  AllRows t = (k : Key) (a : A) → p.find_unique k t ≡ some a → P a

  module _ (laws : PrismaLaws p) where
    some-mapped :
        (f : A → A) (o : Option A) (a : A)
        → ((b : A) → o ≡ some b → P (f b))
        → Option.map f o ≡ some a
        → P a
    some-mapped f none a h e = cc
    some-mapped f (some b) a h e = subst P (cc e) (h b refl)

    -- `update` of one document.
    pub update-AllRows :
        (k : Key) (f : A → A) (t : p.Table A)
        → AllRows t
        → ((b : A) → p.find_unique k t ≡ some b → P (f b))
        → AllRows (p.update k f t)
    update-AllRows k f t all sound j a e =
        let found = sym (laws.find_unique-update k j f t) ∙ e in
        elim (Bool-cases (same_key k j)) [
          | inl here ↦
              some-mapped f (p.find_unique j t) a
                (λ b was. sound b (ap (λ i. p.find_unique i t) ((same_key_iff k j).0 here) ∙ was))
                (rw here at found)
          | inr other ↦ all j a (rw other at found)
        ]

    -- `create` of one document.
    pub create-AllRows :
        (k : Key) (b : A) (t : p.Table A) → AllRows t → P b → AllRows (p.create k b t)
    create-AllRows k b t all sound j a e =
        let found = sym (laws.find_unique-create k j b t) ∙ e in
        elim (Bool-cases (same_key k j)) [
          | inl here ↦ subst P (some_same (rw here at found)) sound
          | inr other ↦ all j a (rw other at found)
        ]
      where
        some_same : {a b : A} → some a ≡ some b → a ≡ b
        some_same e = cc e

    -- `updateMany` by a condition.
    pub update_many-AllRows :
        (q : A → Bool) (f : A → A) (t : p.Table A)
        → AllRows t
        → ((b : A) → q b ≡ true → P b → P (f b))
        → AllRows (p.update_many q f t)
    update_many-AllRows q f t all sound j a e =
        some-mapped (change_if q f) (p.find_unique j t) a
          (λ b was. changed b (all j b was) (Bool-cases (q b)))
          (sym (laws.find_unique-update_many j q f t) ∙ e)
      where
        changed : (b : A) → P b → (q b ≡ true) ⊎ (q b ≡ false) → P (change_if q f b)
        changed b old (inl holds) = rw holds (sound b holds old)
        changed b old (inr fails) = rw fails old

module _ (p : Prisma) (laws : PrismaLaws p) {A : Type 0} where
  -- A document after an update: the changed one or another.
  pub update_cases :
      (k j : Key) (f : A → A) (t : p.Table A) (a : A)
      → p.find_unique j (p.update k f t) ≡ some a
      → ((b : A) × (k ≡ j) × (p.find_unique j t ≡ some b) × (f b ≡ a))
        ⊎ ((same_key k j ≡ false) × (p.find_unique j t ≡ some a))
  update_cases k j f t a e =
      let found = sym (laws.find_unique-update k j f t) ∙ e in
      elim (Bool-cases (same_key k j)) [
        | inl here ↦
            inl (of_mapped (p.find_unique j t) refl ((same_key_iff k j).0 here) (rw here at found))
        | inr other ↦ inr (other, rw other at found)
      ]
    where
      of_mapped :
          (o : Option A)
          → p.find_unique j t ≡ o
          → k ≡ j
          → Option.map f o ≡ some a
          → (b : A) × (k ≡ j) × (p.find_unique j t ≡ some b) × (f b ≡ a)
      of_mapped none was same h = cc
      of_mapped (some b) was same h = (b, same, was, cc)

  pub find-update_here :
      (k : Key) (f : A → A) (t : p.Table A) (b : A)
      → p.find_unique k t ≡ some b
      → p.find_unique k (p.update k f t) ≡ some (f b)
  find-update_here k f t b e =
      laws.find_unique-update k k f t ∙ rw ((same_key_iff k k).1 refl, e) refl

  pub find-update_there :
      (k j : Key) (f : A → A) (t : p.Table A)
      → same_key k j ≡ false
      → p.find_unique j (p.update k f t) ≡ p.find_unique j t
  find-update_there k j f t e = laws.find_unique-update k j f t ∙ rw e refl

  -- A document after the creation of another under a key that was free.
  pub create_cases :
      (k j : Key) (b : A) (t : p.Table A) (a : A)
      → p.find_unique j (p.create k b t) ≡ some a
      → ((k ≡ j) × (b ≡ a)) ⊎ (p.find_unique j t ≡ some a)
  create_cases k j b t a e =
      let found = sym (laws.find_unique-create k j b t) ∙ e in
      elim (Bool-cases (same_key k j)) [
        | inl here ↦ let found' = rw here at found in inl ((same_key_iff k j).0 here, cc)
        | inr other ↦ inr (rw other at found)
      ]

  pub find-create_free :
      (k j : Key) (b : A) (t : p.Table A) (a : A)
      → p.find_unique k t ≡ none
      → p.find_unique j t ≡ some a
      → p.find_unique j (p.create k b t) ≡ some a
  find-create_free k j b t a free e =
      laws.find_unique-create k j b t ∙ elim (Bool-cases (same_key k j)) [
        | inl here ↦ let at_k = ap (λ i. p.find_unique i t) ((same_key_iff k j).0 here) in absurd cc
        | inr other ↦ rw other e
      ]
