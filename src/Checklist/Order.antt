-- ===== src/Checklist/Order.antt =====
-- `flattenItems` of checklist-engine.ts. `Array.prototype.sort` is stable: an insertion sort that
-- puts an element before those with the same key that follow it.
use fg_details_to_be_added_f.Prelude.{
  ℕ, ◌≤◌, ◌≡◌, refl, sym, inl, inr, List, [], ◌∷◌, ◌++◌, leb, In, In-append_left, In-append_right,
  In-append_cases, All, arith, if◌then◌else◌, subst, ◌↔◌,
}
use fg_details_to_be_added_f.Checklist.Items.{Item, Section}

module _ {A : Type 0} (key : A → ℕ) where
  unfoldable pub insert_by : A → List A → List A
  insert_by a [] = a ∷ []
  insert_by a (b ∷ bs) =
      let rest = insert_by a bs in if leb (key a) (key b) then a ∷ b ∷ bs else b ∷ rest

  unfoldable pub sort_by : List A → List A
  sort_by [] = []
  sort_by (a ∷ xs) = insert_by a (sort_by xs)

  abbrev pub IsSorted : List A → Type 0
  IsSorted [] = Unit
  IsSorted (a ∷ []) = Unit
  IsSorted (a ∷ b ∷ bs) = (key a ≤ key b) × IsSorted (b ∷ bs)

  insert_by-IsSorted : (a : A) (bs : List A) → IsSorted bs → IsSorted (insert_by a bs)
  unfolding insert_by
  insert_by-IsSorted a [] h = tt
  insert_by-IsSorted a (b ∷ []) h = ground arith
  insert_by-IsSorted a (b ∷ c ∷ cs) h = ground (arith, insert_by-IsSorted a (c ∷ cs))

  sort_by-IsSorted : (xs : List A) → IsSorted (sort_by xs)
  unfolding sort_by
  sort_by-IsSorted [] = tt
  sort_by-IsSorted (a ∷ xs) = insert_by-IsSorted a (sort_by xs) (sort_by-IsSorted xs)

  insert_by-first : (a : A) (bs : List A) → IsSorted (a ∷ bs) → insert_by a bs ≡ a ∷ bs
  unfolding insert_by
  insert_by-first a [] h = refl
  insert_by-first a (b ∷ bs) h = ground arith

  -- A sorted list stays xs it is.
  sort_by-eq_self : (xs : List A) → IsSorted xs → sort_by xs ≡ xs
  unfolding sort_by
  sort_by-eq_self [] h = refl
  sort_by-eq_self (a ∷ []) h = insert_by-first a [] h
  sort_by-eq_self (a ∷ b ∷ bs) h = rw (sort_by-eq_self (b ∷ bs) h.1) (insert_by-first a (b ∷ bs) h)

  In-insert_by : (a x : A) (bs : List A) → In x (a ∷ bs) → In x (insert_by a bs)
  unfolding insert_by
  In-insert_by a x [] m = m
  In-insert_by a x (b ∷ bs) m = ground (arith, In-insert_by a x bs)

  In-insert_by_inv : (a x : A) (bs : List A) → In x (insert_by a bs) → In x (a ∷ bs)
  unfolding insert_by
  In-insert_by_inv a x [] m = m
  In-insert_by_inv a x (b ∷ bs) m = ground (arith, In-insert_by_inv a x bs)

  In-sort_by : (x : A) (xs : List A) → In x xs → In x (sort_by xs)
  unfolding sort_by
  In-sort_by x [] m = m
  In-sort_by x (a ∷ xs) m = ground (arith, In-insert_by a x (sort_by xs), In-sort_by x xs)

  In-sort_by_inv : (x : A) (xs : List A) → In x (sort_by xs) → In x xs
  unfolding sort_by
  In-sort_by_inv x [] m = m
  In-sort_by_inv x (a ∷ xs) m =
      ground (arith, In-insert_by_inv a x (sort_by xs), In-sort_by_inv x xs)

abbrev sorted_items : Section → List Item
sorted_items s = sort_by (λ i. i.sort_order) s.items

concat_items : List Section → List Item
concat_items [] = []
concat_items (s ∷ ss) = sorted_items s ++ concat_items ss

-- flattenItems
unfoldable pub flatten_items : List Section → List Item
unfolding concat_items sort_by insert_by
flatten_items sections = concat_items (sort_by (λ s. s.sort_order) sections)

In-concat_items :
    (i : Item) (s : Section) (ss : List Section) → In s ss → In i s.items → In i (concat_items ss)
unfolding concat_items
In-concat_items i s [] n m = absurd n
In-concat_items i s (t ∷ ss) (inl e) m =
    In-append_left i (sorted_items t) (concat_items ss)
      (In-sort_by (λ i. i.sort_order) i t.items (subst (λ u. In i u.items) (sym e) m))
In-concat_items i s (t ∷ ss) (inr n) m =
    In-append_right i (sorted_items t) (concat_items ss) (In-concat_items i s ss n m)

In-concat_items_inv :
    (i : Item) (ss : List Section) → In i (concat_items ss) → (s : Section) × In s ss × In i s.items
unfolding concat_items
In-concat_items_inv i [] m = absurd m
In-concat_items_inv i (t ∷ ss) m = elim (In-append_cases i (sorted_items t) (concat_items ss) m) [
  | inl here ↦ (t, inl refl, In-sort_by_inv (λ i. i.sort_order) i t.items here)
  | inr there ↦ let (s, n, k) = In-concat_items_inv i ss there in (s, inr n, k)
]

-- The flattened checklist holds exactly the items of the sections.
pub In-flatten_items_iff :
    (i : Item) (sections : List Section)
    → In i (flatten_items sections) ↔ ((s : Section) × In s sections × In i s.items)
unfolding flatten_items
In-flatten_items_iff i sections = (
  λ m.
      let (s, n, k) = In-concat_items_inv i (sort_by (λ s. s.sort_order) sections) m in
      (s, In-sort_by_inv (λ s. s.sort_order) s sections n, k),
  λ (s, n, k).
      In-concat_items i s (sort_by (λ s. s.sort_order) sections)
        (In-sort_by (λ s. s.sort_order) s sections n) k,
)

-- The items of all sections, in the order in which they stand.
abbrev pub all_items : List Section → List Item
all_items [] = []
all_items (s ∷ ss) = s.items ++ all_items ss

abbrev pub HasSortedItems : Section → Type 0
HasSortedItems s = IsSorted (λ i. i.sort_order) s.items

concat_items-eq_all_items :
    (ss : List Section) → All HasSortedItems ss → concat_items ss ≡ all_items ss
unfolding concat_items
concat_items-eq_all_items [] h = refl
concat_items-eq_all_items (s ∷ ss) h =
    rw (sort_by-eq_self (λ i. i.sort_order) s.items h.0, concat_items-eq_all_items ss h.1) refl

-- Sections and items that are already in order, as the API's queries deliver them, stay in that
-- order.
pub flatten_items-eq_all_items :
    (sections : List Section)
    → IsSorted (λ s. s.sort_order) sections
    → All HasSortedItems sections
    → flatten_items sections ≡ all_items sections
unfolding flatten_items
flatten_items-eq_all_items sections h k =
    rw (sort_by-eq_self (λ s. s.sort_order) sections h) (concat_items-eq_all_items sections k)
