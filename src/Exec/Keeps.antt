-- ===== src/Exec/Keeps.antt =====
-- Properties of the state that a handler keeps, whether it returns or throws: one rule for each way to
-- build a handler.
use fg_details_to_be_added_f.Prelude.{
  ◌≡◌, refl, Bool, true, false, Option, none, some, if◌then◌else◌,
}
use fg_details_to_be_added_f.Exec.{
  Outcome, ok, err, Exec, pure, throw, gets, or_throw, continue, ◌>>=◌, ◌>>◌, modify, skip, require,
  settle,
}

pub record Keeps {E S A : Type 0} (P : S → Type 0) (m : Exec E S A) : Type 0 where
  pub at : (s : S) → P s → P (m s).1

module _ {E S A : Type 0} where
  settle-keeps : (P : S → Type 0) (s : S) (r : Outcome E A × S) → P s → P r.1 → P (settle s r).1
  settle-keeps P s (ok a, t) before after = after
  settle-keeps P s (err e, t) before after = before

module _ {E S A : Type 0} {P : S → Type 0} where
  pub Keeps-pure : (a : A) → Keeps P (pure {E = E} a)
  Keeps-pure a = record { at = λ s h. h }

  pub Keeps-throw : (e : E) → Keeps P (throw {A = A} e)
  Keeps-throw e = record { at = λ s h. h }

  pub Keeps-gets : (f : S → A) → Keeps P (gets {E = E} f)
  Keeps-gets f = record { at = λ s h. h }

  pub Keeps-or_throw : (e : E) (o : Option A) → Keeps P (or_throw {S = S} e o)
  Keeps-or_throw e none = Keeps-throw e
  Keeps-or_throw e (some a) = Keeps-pure a

  -- Each branch may use the outcome of the test.
  pub Keeps-if :
      (test : Bool) (done skipped : Exec E S A)
      → (test ≡ true → Keeps P done)
      → (test ≡ false → Keeps P skipped)
      → Keeps P (if test then done else skipped)
  Keeps-if true done skipped kept_done kept_skipped = kept_done refl
  Keeps-if false done skipped kept_done kept_skipped = kept_skipped refl

  -- A transaction whose result is settled.
  pub Keeps-settle :
      (run : Exec E S A) (m : Exec E S A)
      → ((s : S) → run s ≡ settle s (m s))
      → Keeps P m
      → Keeps P run
  Keeps-settle run m settled km = record {
    at = λ s h. rw (settled s) (settle-keeps P s (m s) h (km.at s h));
  }

module _ {E S : Type 0} {P : S → Type 0} where
  pub Keeps-skip : Keeps P (skip {E = E} {S = S})
  Keeps-skip = record { at = λ s h. h }

  pub Keeps-modify : (f : S → S) → ((s : S) → P s → P (f s)) → Keeps P (modify {E = E} f)
  Keeps-modify f kf = record { at = kf }

  pub Keeps-require : (b : Bool) (e : E) → Keeps P (require {S = S} b e)
  Keeps-require true e = record { at = λ s h. h }
  Keeps-require false e = record { at = λ s h. h }

module _ {E S A B : Type 0} {P : S → Type 0} where
  continue-keeps :
      (r : Outcome E A × S) (f : A → Exec E S B)
      → P r.1
      → ((a : A) → Keeps P (f a))
      → P (continue r f).1
  continue-keeps (ok a, s) f h kf = (kf a).at s h
  continue-keeps (err e, s) f h kf = h

  pub Keeps-bind :
      (first : Exec E S A) (rest : A → Exec E S B)
      → Keeps P first
      → ((a : A) → Keeps P (rest a))
      → Keeps P (first >>= rest)
  Keeps-bind first rest kept_by_first kept_by_rest = record {
    at = λ s h. continue-keeps (first s) rest (kept_by_first.at s h) kept_by_rest;
  }

module _ {E S B : Type 0} {P : S → Type 0} where
  pub Keeps-then :
      {A : Type 0} (m : Exec E S A) (n : Exec E S B) → Keeps P m → Keeps P n → Keeps P (m >> n)
  Keeps-then m n km kn = Keeps-bind m (λ _. n) km (λ _. kn)

pub ruleset keeps_rules = (
  Keeps-pure, Keeps-throw, Keeps-gets, Keeps-or_throw, Keeps-if, Keeps-skip, Keeps-require,
  Keeps-bind, Keeps-then,
)
