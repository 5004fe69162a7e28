-- ===== src/Accounts/Login.antt =====
-- Signing in: login and recordFailedAttempt of apps/api/src/auth/auth.service.ts.
use fg_details_to_be_added_f.Prelude.{
  ℕ, String, ◌==◌, ◌+◌, ◌-◌, ◌*◌, ◌/◌, Bool, false, not, Option, none, some, leb, ltb,
  if◌then◌else◌,
}
use fg_details_to_be_added_f.Exec.{Exec, ◌>>=◌, ◌>>◌, pure, throw, gets, or_throw, require}
use fg_details_to_be_added_f.Prisma.{Prisma}
use fg_details_to_be_added_f.Accounts.State.{
  is_active, User, Config, RequestMeta, Moment, Crypto, AccountException, invalid_credentials,
  account_inactive, account_locked, AccountDb,
}
use fg_details_to_be_added_f.Accounts.{
  CurrentUser, to_current_user, roles_of, permissions_of, change_user,
}
use fg_details_to_be_added_f.Accounts.Username.{normalize_username}
use fg_details_to_be_added_f.Accounts.Tokens.{AuthTokens, issue_tokens}

-- AuthResult
pub record AuthResult : Type 0 where
  pub user : CurrentUser
  pub tokens : AuthTokens

abbrev pub has_username : String → User → Bool
has_username username user = elim user.username [ none ↦ false | some name ↦ name == username ]

-- `user.lockedUntil && user.lockedUntil.getTime() > Date.now()`
abbrev pub is_locked : ℕ → Option ℕ → Bool
is_locked now none = false
is_locked now (some until) = ltb now until

-- minutesUntil
abbrev pub minutes_until : ℕ → Option ℕ → ℕ
minutes_until now none = 1
minutes_until now (some until) =
    let minutes = (until - now + 59_999) / 60_000 in if leb 1 minutes then minutes else 1

abbrev pub cleared : User → User
cleared user = record user { failed_login_attempts = 0; locked_until = none }

module _ (cfg : Config) (now : ℕ) where
  abbrev locked_after : ℕ → Option ℕ → Option ℕ
  locked_after attempts before =
      if leb cfg.login_max_attempts attempts
      then some (now + cfg.login_lockout_minutes * 60_000)
      else before

  -- What a failed attempt makes of the user that was read.
  abbrev pub failed_attempt : User → User → User
  failed_attempt was user = record user {
    failed_login_attempts = was.failed_login_attempts + 1;
    locked_until = locked_after (was.failed_login_attempts + 1) was.locked_until;
  }

module _ (p : Prisma) (c : Crypto) (cfg : Config) (m : Moment) where
  -- login from the confirmed password on.
  unfoldable pub sign_in : RequestMeta → User → Exec AccountException (AccountDb p) AuthResult
  unfolding issue_tokens
  sign_in meta user = do
    change_user p user.id cleared
    require (is_active user.status) account_inactive
    roles ← gets (roles_of p user)
    permissions ← gets (permissions_of p user)
    tokens ← issue_tokens c cfg m p meta user roles permissions
    change_user p user.id (λ u. record u { last_login_at = some m.now })
    pure (record { user = to_current_user user roles permissions (some m.now); tokens = tokens })

  -- recordFailedAttempt and the exception that follows it
  unfoldable pub refuse_attempt : User → Exec AccountException (AccountDb p) AuthResult
  refuse_attempt user = do
    change_user p user.id (failed_attempt cfg m.now user)
    throw invalid_credentials

  -- login of a user who is there
  unfoldable pub try_password :
      String → RequestMeta → User → Exec AccountException (AccountDb p) AuthResult
  unfolding sign_in refuse_attempt
  try_password password meta user = do
    require (not (is_locked m.now user.locked_until))
        (account_locked (minutes_until m.now user.locked_until))
    if c.compare password user.password_hash then sign_in meta user else refuse_attempt user

  -- login
  unfoldable pub login :
      String → String → RequestMeta → Exec AccountException (AccountDb p) AuthResult
  unfolding try_password normalize_username
  login raw_username password meta = do
    found ← gets (λ s. p.find_first (has_username (normalize_username raw_username)) s.users)
    user ← or_throw invalid_credentials found
    try_password password meta user
