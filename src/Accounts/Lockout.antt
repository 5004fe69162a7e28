-- ===== src/Accounts/Lockout.antt =====
-- Guessing a password: the lockout of login in apps/api/src/auth/auth.service.ts.
use fg_details_to_be_added_f.Prelude.{
  ℕ, suc, String, ◌+◌, ◌*◌, ◌<◌, ◌≡◌, refl, ap, ◌∙◌, false, none, some, List, [], ◌∷◌, All, length,
  eq_refl, arith,
}
use fg_details_to_be_added_f.Exec.{Exec, err, ◌>>=◌}
use fg_details_to_be_added_f.Prisma.{Prisma, PrismaLaws, id}
use fg_details_to_be_added_f.Accounts.State.{
  User, Config, RequestMeta, Moment, Crypto, AccountException, invalid_credentials, account_locked,
  AccountDb,
}
use fg_details_to_be_added_f.Accounts.{stored_user}
use fg_details_to_be_added_f.Accounts.Login.{
  AuthResult, is_locked, minutes_until, failed_attempt, try_password, refuse_attempt,
}

module _ (p : Prisma) (c : Crypto) (cfg : Config) (uid : String) (meta : RequestMeta) where
  -- login, once the username has led to the user: the user is read anew at each attempt.
  abbrev pub attempt : Moment → String → Exec AccountException (AccountDb p) AuthResult
  attempt m password = do
    user ← stored_user p invalid_credentials uid
    try_password p c cfg m password meta user

  -- The attempts of a list, each at its time and with its password.
  abbrev pub attempt_all : List (Moment × String) → AccountDb p → AccountDb p
  attempt_all [] s = s
  attempt_all ((m, password) ∷ rest) s = attempt_all rest (attempt m password s).1

  -- The time of the last attempt.
  abbrev pub last_time : Moment × String → List (Moment × String) → ℕ
  last_time (m, password) [] = m.now
  last_time x (y ∷ rest) = last_time y rest

  abbrev pub IsWrongFor : User → Moment × String → Type 0
  IsWrongFor u (m, password) = c.compare password u.password_hash ≡ false

  module _ (laws : PrismaLaws p) where
    failed-stored :
        (m : Moment) (password : String) (s : AccountDb p) (u : User)
        → p.find_unique (id uid) s.users ≡ some u
        → u.id ≡ uid
        → is_locked m.now u.locked_until ≡ false
        → c.compare password u.password_hash ≡ false
        → p.find_unique (id uid) (attempt m password s).1.users
          ≡ some (failed_attempt cfg m.now u u)
    unfolding try_password refuse_attempt
    failed-stored m password s u found own open_ wrong =
        rw (found, open_, wrong)
          (ap (λ k. p.find_unique (id uid) (p.update (id k) (failed_attempt cfg m.now u) s.users))
              own
            ∙ laws.find_unique-update (id uid) (id uid) (failed_attempt cfg m.now u) s.users
            ∙ rw (eq_refl uid, found) refl)

    -- The user is locked for the given time.
    abbrev Locked : AccountDb p → ℕ → Type 0
    Locked s until =
        (u : User) × (p.find_unique (id uid) s.users ≡ some u) × (u.locked_until ≡ some until)

    attempts-Locked :
        (x : Moment × String) (rest : List (Moment × String)) (s : AccountDb p) (u : User)
        → p.find_unique (id uid) s.users ≡ some u
        → u.id ≡ uid
        → u.locked_until ≡ none
        → u.failed_login_attempts + suc (length rest) ≡ cfg.login_max_attempts
        → IsWrongFor u x
        → All (IsWrongFor u) rest
        → Locked (attempt_all (x ∷ rest) s) (last_time x rest + cfg.login_lockout_minutes * 60_000)
    attempts-Locked (m, password) [] s u found own free count wrong _ = (
      failed_attempt cfg m.now u u,
      failed-stored m password s u found own (rw free refl) wrong,
      ground arith,
    )
    attempts-Locked (m, password) (y ∷ rest) s u found own free count wrong (next, others) =
        attempts-Locked y rest (attempt m password s).1 (failed_attempt cfg m.now u u)
          (failed-stored m password s u found own (rw free refl) wrong) own (ground arith)
          (omega (arith, count)) next others

    Locked-attempt :
        (m : Moment) (password : String) (s : AccountDb p) (until : ℕ)
        → Locked s until
        → m.now < until
        → (minutes : ℕ) × (attempt m password s ≡ (err (account_locked minutes), s))
    unfolding try_password
    Locked-attempt m password s until (u, found, locked) early =
        (minutes_until m.now u.locked_until, rw (found, locked) (ground arith))

    -- Given the laws of the database client: as many wrong passwords in a row as the settings allow lock
    -- the account of a user who had none before, and from the last of them on, until the lockout has
    -- passed, every further attempt throws that the account is locked and changes nothing, whatever
    -- its password is, the right one included.
    pub attempts-locked :
        (x : Moment × String) (rest : List (Moment × String)) (s : AccountDb p) (u : User)
        (m : Moment) (password : String)
        → p.find_unique (id uid) s.users ≡ some u
        → u.id ≡ uid
        → u.failed_login_attempts ≡ 0
        → u.locked_until ≡ none
        → suc (length rest) ≡ cfg.login_max_attempts
        → IsWrongFor u x
        → All (IsWrongFor u) rest
        → m.now < last_time x rest + cfg.login_lockout_minutes * 60_000
        → let s' = attempt_all (x ∷ rest) s in
          (minutes : ℕ) × (attempt m password s' ≡ (err (account_locked minutes), s'))
    attempts-locked x rest s u m password found own fresh free count wrong others early =
        Locked-attempt m password (attempt_all (x ∷ rest) s)
          (last_time x rest + cfg.login_lockout_minutes * 60_000)
          (attempts-Locked x rest s u found own free (omega (arith, fresh, count)) wrong others)
          early
