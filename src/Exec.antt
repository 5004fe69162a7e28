-- ===== src/Exec.antt =====
-- Request handlers that read and write a state and may throw. What was written before a throw stays
-- written, so the state comes back beside the exception too; only a transaction takes it back.
pub mod Inversion
pub mod Keeps
use fg_details_to_be_added_f.Prelude.{Bool, true, false, Option, none, some}

pub data Outcome {ℓ} (E A : Type ℓ) : Type ℓ where
  ok : A → Outcome E A
  err : E → Outcome E A

abbrev pub Exec {ℓ} : Type ℓ → Type ℓ → Type ℓ → Type ℓ
Exec E S A = S → Outcome E A × S

module _ {ℓ} {E S A : Type ℓ} where
  abbrev pub pure : A → Exec E S A
  pure a s = (ok a, s)

  abbrev pub throw : E → Exec E S A
  throw e s = (err e, s)

  -- A query: it reads the state.
  abbrev pub gets : (S → A) → Exec E S A
  gets f s = (ok (f s), s)

  -- `if (!found) throw e`
  abbrev pub or_throw : E → Option A → Exec E S A
  or_throw e none = throw e
  or_throw e (some a) = pure a

module _ {ℓ} {E S A B : Type ℓ} where
  abbrev pub continue : Outcome E A × S → (A → Exec E S B) → Outcome E B × S
  continue (ok a, s) f = f a s
  continue (err e, s) f = (err e, s)

  infixl 5 ◌>>=◌ ◌>>◌
  abbrev pub ◌>>=◌ : Exec E S A → (A → Exec E S B) → Exec E S B
  ◌>>=◌ m f s = continue (m s) f

  abbrev pub ◌>>◌ : Exec E S A → Exec E S B → Exec E S B
  m >> n = m >>= λ _. n

module _ {E S : Type 0} where
  -- A statement that writes.
  abbrev pub modify : (S → S) → Exec E S (Unit {0})
  modify f s = (ok tt, f s)

  abbrev pub skip : Exec E S (Unit {0})
  skip s = (ok tt, s)

  -- `if (!test) throw e`
  abbrev pub require : Bool → E → Exec E S (Unit {0})
  require true e s = (ok tt, s)
  require false e s = (err e, s)

  -- `if (test) { m }`
  abbrev pub when : Bool → Exec E S (Unit {0}) → Exec E S (Unit {0})
  when true m s = m s
  when false m s = (ok tt, s)

  -- `if (reason) throw e(reason)`
  abbrev pub throw_some : {R : Type 0} → (R → E) → Option R → Exec E S (Unit {0})
  throw_some e none s = (ok tt, s)
  throw_some e (some r) s = (err (e r), s)

-- What a transaction makes of the result of its body: an exception takes the writes back.
abbrev pub settle {ℓ} : {E S A : Type ℓ} → S → Outcome E A × S → Outcome E A × S
settle s (ok a, s') = (ok a, s')
settle s (err e, s') = (err e, s)
