-- ===== src/Prisma.antt =====
-- The database client, generated by Prisma from apps/api/prisma/schema.prisma: its delegates are
-- parameters of the model, with the laws of their documentation that the services rely on.
pub mod Memory
pub mod Rows
use fg_details_to_be_added_f.Prelude.{
  ℕ, String, ◌==◌, eq_iff, ◌≡◌, ◌↔◌, Bool, true, false, ◌&&◌, ◌||◌, Option, none, some, List, In,
  [], ◌∷◌, ◌++◌, every, is_some, eqb, not, arith, if◌then◌else◌,
}
use fg_details_to_be_added_f.Exec.{Outcome, settle}
use mathlib.Core.Option

-- A unique key: an id or a unique column, or the pair of a compound unique index, of two ids or of an
-- id and a number.
pub data Key : Type 0 where
  id : String → Key
  pair : String → String → Key
  numbered : String → ℕ → Key

abbrev pub same_key : Key → Key → Bool
same_key (id a) (id b) = a == b
same_key (pair a b) (pair c d) = a == c && b == d
same_key (numbered a m) (numbered b n) = a == b && eqb m n
same_key _ _ = false

pub same_key_iff : (k j : Key) → (same_key k j ≡ true) ↔ (k ≡ j)
same_key_iff (id a) (id b) = (λ h. ground (arith, eq_iff a b), λ e. ground (arith, eq_iff a b))
same_key_iff (pair a b) (pair c d) =
    (λ h. ground (arith, eq_iff a c, eq_iff b d), λ e. ground (arith, eq_iff a c, eq_iff b d))
same_key_iff (numbered a m) (numbered b n) =
    (λ h. ground (arith, eq_iff a b), λ e. ground (arith, eq_iff a b))
same_key_iff (id a) (numbered b n) = (λ h. cc, λ e. cc)
same_key_iff (pair a b) (numbered c n) = (λ h. cc, λ e. cc)
same_key_iff (numbered a m) (id b) = (λ h. cc, λ e. cc)
same_key_iff (numbered a m) (pair b c) = (λ h. cc, λ e. cc)
same_key_iff (id a) (pair b c) = (λ h. cc, λ e. cc)
same_key_iff (pair a b) (id c) = (λ h. cc, λ e. cc)

-- The rows that `updateMany` with a unique key and a condition matches: one or none.
abbrev pub count_match {ℓ} : {A : Type ℓ} → (A → Bool) → Option A → ℕ
count_match p none = 0
count_match p (some a) = if p a then 1 else 0

abbrev pub change_if {ℓ} : {A : Type ℓ} → (A → Bool) → (A → A) → A → A
change_if p f a = if p a then f a else a

abbrev pub upserted {ℓ} : {A : Type ℓ} → A → (A → A) → Option A → A
upserted a f none = a
upserted a f (some b) = f b

pub record Prisma : Type 1 where
  -- A collection of documents.
  pub Table : Type 0 → Type 0
  -- `findUnique({ where: { key } })`
  pub find_unique : {A : Type 0} → Key → Table A → Option A
  -- `findFirst({ where })`
  pub find_first : {A : Type 0} → (A → Bool) → Table A → Option A
  -- `findFirst({ where, orderBy: { createdAt: "desc" } })`
  pub find_newest : {A : Type 0} → (A → Bool) → Table A → Option A
  -- `count({ where })`
  pub count : {A : Type 0} → (A → Bool) → Table A → ℕ
  -- `findMany({ where })`
  pub find_many : {A : Type 0} → (A → Bool) → Table A → List A
  -- `findMany({ where, orderBy: { column: "desc" }, take })`
  pub find_page : {A : Type 0} → (A → Bool) → (A → Option ℕ) → ℕ → Table A → List A
  -- The id that the database gives to the next document.
  pub next_id : {A : Type 0} → Table A → String
  -- `create({ data })`, under the document's key
  pub create : {A : Type 0} → Key → A → Table A → Table A
  -- `update({ where: { key }, data })` of a document that is there
  pub update : {A : Type 0} → Key → (A → A) → Table A → Table A
  -- `updateMany({ where: { key, ... }, data })`: the new table, and the count
  pub update_where : {A : Type 0} → Key → (A → Bool) → (A → A) → Table A → Table A × ℕ
  -- `updateMany({ where, data })`
  pub update_many : {A : Type 0} → (A → Bool) → (A → A) → Table A → Table A
  -- `upsert({ where: { key }, create, update })`
  pub upsert : {A : Type 0} → Key → A → (A → A) → Table A → Table A
  -- `deleteMany({ where })`
  pub delete_many : {A : Type 0} → (A → Bool) → Table A → Table A
  -- `$transaction(async (tx) => ...)`
  pub transaction : {E S A : Type 0} → (S → Outcome E A × S) → S → Outcome E A × S

module _ (db : Prisma) where
  open db use {
    Table, find_unique, find_first, count, find_newest, find_many, find_page, next_id, create,
    update, update_where, update_many, upsert, transaction,
  }

  -- The documented behaviour.
  pub record PrismaLaws : Type 1 where
    pub find_unique-next_id : {A : Type 0} (t : Table A) → find_unique (id (next_id t)) t ≡ none
    pub find_unique-create :
        {A : Type 0} (k j : Key) (a : A) (t : Table A)
        → find_unique j (create k a t) ≡ (if same_key k j then some a else find_unique j t)
    pub find_unique-update :
        {A : Type 0} (k j : Key) (f : A → A) (t : Table A)
        → find_unique j (update k f t)
          ≡ (if same_key k j then Option.map f (find_unique j t) else find_unique j t)
    pub find_unique-update_where :
        {A : Type 0} (k j : Key) (p : A → Bool) (f : A → A) (t : Table A)
        → find_unique j (update_where k p f t).0
          ≡ (if same_key k j then Option.map (change_if p f) (find_unique j t) else find_unique j t)
    pub update_where_count :
        {A : Type 0} (k : Key) (p : A → Bool) (f : A → A) (t : Table A)
        → (update_where k p f t).1 ≡ count_match p (find_unique k t)
    pub find_unique-update_many :
        {A : Type 0} (j : Key) (p : A → Bool) (f : A → A) (t : Table A)
        → find_unique j (update_many p f t) ≡ Option.map (change_if p f) (find_unique j t)
    pub find_unique-upsert :
        {A : Type 0} (k j : Key) (a : A) (f : A → A) (t : Table A)
        → find_unique j (upsert k a f t)
          ≡ (if same_key k j then some (upserted a f (find_unique j t)) else find_unique j t)
    pub find_first-create :
        {A : Type 0} (p : A → Bool) (k : Key) (a : A) (t : Table A)
        → is_some (find_first p (create k a t)) ≡ (p a || is_some (find_first p t))
    pub find_first_sound :
        {A : Type 0} (p : A → Bool) (t : Table A) (a : A) → find_first p t ≡ some a → p a ≡ true
    -- An update writes the document with the key and no other.
    pub find_first-update_other :
        {A : Type 0} (q r : A → Bool) (k : Key) (f : A → A) (t : Table A)
        → ((a : A) → find_unique k t ≡ some a → r a ≡ false)
        → ((a : A) → r a ≡ true → q a ≡ true)
        → is_some (find_first r t) ≡ true
        → is_some (find_first q (update k f t)) ≡ true
    pub find_first-update_same :
        {A : Type 0} (q : A → Bool) (k : Key) (f : A → A) (t : Table A)
        → ((a : A) → q a ≡ true → q (f a) ≡ true)
        → is_some (find_first q t) ≡ true
        → is_some (find_first q (update k f t)) ≡ true
    pub count-find_first :
        {A : Type 0} (p : A → Bool) (t : Table A)
        → eqb (count p t) 0 ≡ not (is_some (find_first p t))
    -- A created document is the newest.
    pub find_newest-create :
        {A : Type 0} (p : A → Bool) (k : Key) (a : A) (t : Table A)
        → find_newest p (create k a t) ≡ (if p a then some a else find_newest p t)
    pub find_many-create :
        {A : Type 0} (p : A → Bool) (k : Key) (a : A) (t : Table A)
        → find_many p (create k a t) ≡ find_many p t ++ (if p a then a ∷ [] else [])
    pub In-find_many :
        {A : Type 0} (p : A → Bool) (k : Key) (a : A) (t : Table A)
        → find_unique k t ≡ some a
        → p a ≡ true
        → In a (find_many p t)
    -- A page holds matching documents only.
    pub find_page_sound :
        {A : Type 0} (p : A → Bool) (column : A → Option ℕ) (n : ℕ) (t : Table A)
        → every p (find_page p column n t) ≡ true
    pub transaction_lem :
        {E S A : Type 0} (m : S → Outcome E A × S) (s : S) → transaction m s ≡ settle s (m s)
