-- ===== src/Prisma/Memory.antt =====
-- A database in memory that has the documented behaviour: a list of documents, the newest first.
use Prim.Native.String
use mathlib.Core.Option
use text.Mathlib.TextLemmas.{nil-append, cons-append}
use fg_details_to_be_added_f.Prelude.{
  ℕ, zero, suc, every, ◌+◌, ◌≤◌, ◌==◌, eq_iff, ◌≡◌, refl, sym, ap, ◌∙◌, Bool, true, false, not, eqb,
  ◌||◌, Option, none, some, List, [], ◌∷◌, ◌++◌, Bool-cases, inl, inr, is_some, In, In-append_left,
  In-append_right, arith, if◌then◌else◌,
}
use fg_details_to_be_added_f.Exec.{settle}
use fg_details_to_be_added_f.Prisma.{
  Key, id, pair, numbered, same_key, same_key_iff, count_match, change_if, upserted, Prisma,
  PrismaLaws,
}

abbrev Documents : Type 0 → Type 0
Documents A = List (Key × A)

abbrev text_length : String.String → ℕ
text_length String.[] = 0
text_length (String.◌∷◌ c s) = suc (text_length s)

text_length-append :
    (s t : String.String) → text_length (String.◌++◌ s t) ≡ text_length s + text_length t
text_length-append String.[] t = rw nil-append (omega arith)
text_length-append (String.◌∷◌ c s) t = rw cons-append (omega (arith, text_length-append s t))

abbrev id_of : Key → String.String
id_of (id s) = s
id_of (pair a b) = ""
id_of (numbered a n) = ""

same_key_comm : (k j : Key) → same_key k j ≡ same_key j k
same_key_comm k j = elim (Bool-cases (same_key k j)) [
  | inl e ↦ rw ((same_key_iff k j).0 e)
  | inr e ↦ ground (arith, reverse)
]
  where
    reverse : same_key j k ≡ true → same_key k j ≡ true
    reverse h = (same_key_iff k j).1 (sym ((same_key_iff j k).0 h))

module _ {A : Type 0} where
  abbrev find_unique : Key → Documents A → Option A
  find_unique k [] = none
  find_unique k ((j, a) ∷ t) = let rest = find_unique k t in if same_key j k then some a else rest

  abbrev find_newest : (A → Bool) → Documents A → Option A
  find_newest p [] = none
  find_newest p ((j, a) ∷ t) = let rest = find_newest p t in if p a then some a else rest

  abbrev find_many : (A → Bool) → Documents A → List A
  find_many p [] = []
  find_many p ((j, a) ∷ t) = find_many p t ++ (if p a then a ∷ [] else [])

  -- The first `n` matching documents, the newest first.
  abbrev find_page : (A → Bool) → ℕ → Documents A → List A
  find_page p n [] = []
  find_page p zero ((j, a) ∷ t) = []
  find_page p (suc n) ((j, a) ∷ t) = if p a then a ∷ find_page p n t else find_page p (suc n) t

  find_page_sound : (p : A → Bool) (n : ℕ) (t : Documents A) → every p (find_page p n t) ≡ true
  find_page_sound p n [] = refl
  find_page_sound p zero ((j, a) ∷ t) = refl
  find_page_sound p (suc n) ((j, a) ∷ t) =
      ground (arith, find_page_sound p n t, find_page_sound p (suc n) t)

  -- An id that is longer than each id in use.
  abbrev next_id : Documents A → String.String
  next_id [] = "n"
  next_id ((k, a) ∷ t) = String.◌++◌ (id_of k) (next_id t)

  abbrev count : (A → Bool) → Documents A → ℕ
  count p [] = 0
  count p ((j, a) ∷ t) = if p a then suc (count p t) else count p t

  -- The document with the key is the first one.
  abbrev update_where : Key → (A → Bool) → (A → A) → Documents A → Documents A
  update_where k p f [] = []
  update_where k p f ((j, a) ∷ t) =
      let rest = update_where k p f t in
      if same_key j k then (j, change_if p f a) ∷ t else (j, a) ∷ rest

  abbrev update_many : (A → Bool) → (A → A) → Documents A → Documents A
  update_many p f [] = []
  update_many p f ((j, a) ∷ t) = (j, change_if p f a) ∷ update_many p f t

  abbrev upsert : Key → A → (A → A) → Documents A → Documents A
  upsert k a f t = (k, upserted a f (find_unique k t)) ∷ t

  abbrev delete_many : (A → Bool) → Documents A → Documents A
  delete_many p [] = []
  delete_many p ((j, a) ∷ t) = let rest = delete_many p t in if p a then rest else (j, a) ∷ rest

  next_id_nonempty : (t : Documents A) → 1 ≤ text_length (next_id t)
  next_id_nonempty [] = omega arith
  next_id_nonempty ((k, a) ∷ t) =
      omega (arith, text_length-append (id_of k) (next_id t), next_id_nonempty t)

  In-find_many :
      (p : A → Bool) (k : Key) (a : A) (t : Documents A)
      → find_unique k t ≡ some a
      → p a ≡ true
      → In a (find_many p t)
  In-find_many p k a [] e h = cc
  In-find_many p k a ((j, b) ∷ t) e h = elim (Bool-cases (same_key j k)) [
    | inl s ↦
        let same : some b ≡ some a = rw s at e in
        let same' : b ≡ a = cc in In-append_right a (find_many p t) _ (rw (same', h) (inl refl))
    | inr s ↦ In-append_left a (find_many p t) _ (In-find_many p k a t (rw s at e) h)
  ]

  find_longer :
      (t : Documents A) (s : String.String)
      → text_length (next_id t) ≤ text_length s
      → find_unique (id s) t ≡ none
  find_longer [] s h = refl
  find_longer ((pair b c, a) ∷ t) s h =
      find_longer t s (omega (arith, text_length-append "" (next_id t), h))
  find_longer ((numbered b n, a) ∷ t) s h =
      find_longer t s (omega (arith, text_length-append "" (next_id t), h))
  find_longer ((id r, a) ∷ t) s h = elim (Bool-cases (r == s)) [
    | inl e ↦ absurd (
        omega (
          arith,
          ap text_length ((eq_iff r s).0 e),
          text_length-append r (next_id t),
          next_id_nonempty t,
          h,
        ))
    | inr e ↦ rw e (find_longer t s (omega (arith, text_length-append r (next_id t), h)))
  ]

  find-update_where :
      (k j : Key) (p : A → Bool) (f : A → A) (t : Documents A)
      → find_unique j (update_where k p f t)
        ≡ (if same_key k j then Option.map (change_if p f) (find_unique j t) else find_unique j t)
  find-update_where k j p f [] = ground arith
  find-update_where k j p f ((i, a) ∷ t) = elim (Bool-cases (same_key i k)) [
    | inl e ↦
        let turned : same_key i j ≡ same_key k j =
          ap (λ x. same_key x j) ((same_key_iff i k).0 e) in
        rw (e, turned) (ground arith)
    | inr e ↦ elim (Bool-cases (same_key i j)) [
      | inl h ↦
          let turned : same_key k j ≡ same_key i k =
            same_key_comm k j ∙ ap (λ x. same_key x k) (sym ((same_key_iff i j).0 h)) in
          rw (e, turned, e) (ground arith)
      | inr h ↦ rw e (rw h (find-update_where k j p f t))
    ]
  ]

  find-update_many :
      (j : Key) (p : A → Bool) (f : A → A) (t : Documents A)
      → find_unique j (update_many p f t) ≡ Option.map (change_if p f) (find_unique j t)
  find-update_many j p f [] = refl
  find-update_many j p f ((i, a) ∷ t) = ground (arith, find-update_many j p f t)

  find-upsert :
      (k j : Key) (a : A) (f : A → A) (t : Documents A)
      → find_unique j (upsert k a f t)
        ≡ (if same_key k j then some (upserted a f (find_unique j t)) else find_unique j t)
  find-upsert k j a f t = elim (Bool-cases (same_key k j)) [
    | inl e ↦ rw e (ap (λ i. some (upserted a f (find_unique i t))) ((same_key_iff k j).0 e))
    | inr e ↦ rw e
  ]

  find_newest_sound :
      (p : A → Bool) (t : Documents A) (a : A) → find_newest p t ≡ some a → p a ≡ true
  find_newest_sound p [] a h = cc
  find_newest_sound p ((j, b) ∷ t) a h = elim (Bool-cases (p b)) [
    | inl e ↦ ground arith
    | inr e ↦ find_newest_sound p t a (rw e at h)
  ]

  find_newest_mono :
      (q r : A → Bool) (t : Documents A)
      → ((a : A) → r a ≡ true → q a ≡ true)
      → is_some (find_newest r t) ≡ true
      → is_some (find_newest q t) ≡ true
  find_newest_mono q r [] i e = cc
  find_newest_mono q r ((j, a) ∷ t) i e = ground (arith, i a, find_newest_mono q r t i)

  find_newest-update_other :
      (q r : A → Bool) (k : Key) (f : A → A) (t : Documents A)
      → ((a : A) → find_unique k t ≡ some a → r a ≡ false)
      → ((a : A) → r a ≡ true → q a ≡ true)
      → is_some (find_newest r t) ≡ true
      → is_some (find_newest q (update_where k (λ _. true) f t)) ≡ true
  find_newest-update_other q r k f [] h i e = cc
  find_newest-update_other q r k f ((j, a) ∷ t) h i e = elim (Bool-cases (same_key j k)) [
    | inl s ↦
        let barred : r a ≡ false = h a (rw s refl) in
        rw s (ground (arith, find_newest_mono q r t i (rw barred at e)))
    | inr s ↦
        rw s
          (ground (arith, i a, find_newest-update_other q r k f t (λ b found. h b (rw s found)) i))
  ]

  find_newest-update_same :
      (q : A → Bool) (k : Key) (f : A → A) (t : Documents A)
      → ((a : A) → q a ≡ true → q (f a) ≡ true)
      → is_some (find_newest q t) ≡ true
      → is_some (find_newest q (update_where k (λ _. true) f t)) ≡ true
  find_newest-update_same q k f [] h e = cc
  find_newest-update_same q k f ((j, a) ∷ t) h e =
      ground (arith, h a, find_newest-update_same q k f t h)

  count-find_newest :
      (p : A → Bool) (t : Documents A) → eqb (count p t) 0 ≡ not (is_some (find_newest p t))
  count-find_newest p [] = refl
  count-find_newest p ((j, a) ∷ t) = ground (arith, count-find_newest p t)

  find_newest-create :
      (p : A → Bool) (k : Key) (a : A) (t : Documents A)
      → is_some (find_newest p ((k, a) ∷ t)) ≡ (p a || is_some (find_newest p t))
  find_newest-create p k a t = ground arith

abbrev pub memory : Prisma
memory = record {
  Table = Documents;
  find_unique = find_unique;
  find_first = find_newest;
  count = count;
  find_newest = find_newest;
  find_many = find_many;
  find_page = λ q column n t. find_page q n t;
  next_id = next_id;
  create = λ k a t. (k, a) ∷ t;
  update = λ k f t. update_where k (λ _. true) f t;
  update_where = λ k p f t. (update_where k p f t, count_match p (find_unique k t));
  update_many = update_many;
  upsert = upsert;
  delete_many = delete_many;
  transaction = λ m s. settle s (m s);
}

find-update :
    {A : Type 0} (k j : Key) (f : A → A) (t : Documents A)
    → find_unique j (update_where k (λ _. true) f t)
      ≡ (if same_key k j then Option.map f (find_unique j t) else find_unique j t)
find-update {A} k j f t =
    find-update_where k j (λ _. true) f t ∙ same_case (same_key k j) (find_unique j t)
  where
    same_case :
        (b : Bool) (o : Option A)
        → (if b then Option.map (change_if (λ _. true) f) o else o)
          ≡ (if b then Option.map f o else o)
    same_case b none = ground arith
    same_case b (some a) = ground arith

pub memory_laws : PrismaLaws memory
memory_laws = record {
  find_unique-next_id = λ t. find_longer t (next_id t) (omega arith);
  find_unique-create = λ k j a t. refl;
  find_unique-update = find-update;
  find_unique-update_where = find-update_where;
  update_where_count = λ k p f t. refl;
  find_unique-update_many = find-update_many;
  find_unique-upsert = find-upsert;
  find_first-create = find_newest-create;
  find_first_sound = find_newest_sound;
  find_first-update_other = find_newest-update_other;
  find_first-update_same = find_newest-update_same;
  count-find_first = count-find_newest;
  find_newest-create = λ p k a t. refl;
  find_many-create = λ p k a t. refl;
  In-find_many = λ p k a t. In-find_many p k a t;
  find_page_sound = λ q column n t. find_page_sound q n t;
  transaction_lem = λ m s. refl;
}
