-- ===== src/Exec/Inversion.antt =====
-- What a successful run says of its parts.
use fg_details_to_be_added_f.Prelude.{
  ◌≡◌, ◌⊎◌, inl, inr, arith, refl, sym, ap, Bool, true, false, Option, none, some,
}
use fg_details_to_be_added_f.Exec.{
  Outcome, ok, err, Exec, gets, or_throw, continue, ◌>>=◌, ◌>>◌, require, settle,
}

module _ {ℓ} {E S A B : Type ℓ} where
  continue-eq-ok :
      (r : Outcome E A × S) (f : A → Exec E S B) {b : B} {s' : S}
      → continue r f ≡ (ok b, s')
      → (a : A) × (s : S) × (r ≡ (ok a, s)) × (f a s ≡ (ok b, s'))
  continue-eq-ok (ok a, s) f h = (a, s, refl, h)
  continue-eq-ok (err e, s) f h = cc (ap (λ (r : Outcome E B × S). r.0) h)

  -- A chain returns only if its first part does.
  pub bind-eq-ok :
      (m : Exec E S A) (f : A → Exec E S B) {s s' : S} {b : B}
      → (m >>= f) s ≡ (ok b, s')
      → (a : A) × (t : S) × (m s ≡ (ok a, t)) × (f a t ≡ (ok b, s'))
  bind-eq-ok m f {s} h = continue-eq-ok (m s) f h

module _ {ℓ} {E S A : Type ℓ} where
  pub settle-eq-ok :
      (s : S) (r : Outcome E A × S) {a : A} {s' : S} → settle s r ≡ (ok a, s') → r ≡ (ok a, s')
  settle-eq-ok s (ok a, t) h = h
  settle-eq-ok s (err e, t) h = cc (ap (λ (r : Outcome E A × S). r.0) h)

  pub settle-eq-err :
      (s : S) (r : Outcome E A × S) {e : E} {s' : S} → settle s r ≡ (err e, s') → s' ≡ s
  settle-eq-err s (ok a, t) h = cc (ap (λ (r : Outcome E A × S). r.0) h)
  settle-eq-err s (err e, t) h = ap (λ (r : Outcome E A × S). r.1) (sym h)

  pub or_throw-eq-ok :
      (e : E) (o : Option A) {a : A} {s s' : S}
      → or_throw e o s ≡ (ok a, s')
      → (o ≡ some a) × (s ≡ s')
  or_throw-eq-ok e none h = cc (ap (λ (r : Outcome E A × S). r.0) h)
  or_throw-eq-ok e (some b) h =
      (cc (ap (λ (r : Outcome E A × S). r.0) h), ap (λ (r : Outcome E A × S). r.1) h)

module _ {ℓ} {E S A B : Type ℓ} where
  continue-eq-err :
      (r : Outcome E A × S) (f : A → Exec E S B) {e : E} {s' : S}
      → continue r f ≡ (err e, s')
      → (r ≡ (err e, s')) ⊎ ((a : A) × (s : S) × (r ≡ (ok a, s)) × (f a s ≡ (err e, s')))
  continue-eq-err (ok a, s) f h = inr (a, s, refl, h)
  continue-eq-err (err e, s) f h = inl (ground arith)

  -- A chain throws where its first part does, or where the rest does.
  pub bind-eq-err :
      (m : Exec E S A) (f : A → Exec E S B) {s s' : S} {e : E}
      → (m >>= f) s ≡ (err e, s')
      → (m s ≡ (err e, s')) ⊎ ((a : A) × (t : S) × (m s ≡ (ok a, t)) × (f a t ≡ (err e, s')))
  bind-eq-err m f {s} h = continue-eq-err (m s) f h

module _ {E S A : Type 0} where
  -- A run that returns passed the test before it.
  pub require-eq-ok :
      (test : Bool) (e : E) (k : Exec E S A) {s s' : S} {a : A}
      → (require test e >> k) s ≡ (ok a, s')
      → (test ≡ true) × (k s ≡ (ok a, s'))
  require-eq-ok true e k h = (refl, h)
  require-eq-ok false e k h = cc (ap (λ (r : Outcome E A × S). r.0) h)

  pub gets-eq-ok :
      (f : S → A) {s s' : S} {a : A} → gets {E = E} f s ≡ (ok a, s') → (f s ≡ a) × (s ≡ s')
  gets-eq-ok f h = (cc (ap (λ (r : Outcome E A × S). r.0) h), ap (λ (r : Outcome E A × S). r.1) h)
