-- ===== src/Accounts/Sessions.antt =====
-- Sessions: refresh, logout, changePassword and getCurrentUser of apps/api/src/auth/auth.service.ts.
use fg_details_to_be_added_f.Prelude.{
  ℕ, String, ◌==◌, ◌+◌, Bool, true, false, ◌&&◌, not, Option, none, some, eqb, ltb, is_some,
  is_truthy, if◌then◌else◌,
}
use fg_details_to_be_added_f.Exec.{Exec, ◌>>=◌, ◌>>◌, pure, throw, gets, modify, or_throw, require}
use fg_details_to_be_added_f.Prisma.{Prisma, id}
use fg_details_to_be_added_f.Accounts.State.{
  is_active, User, RefreshToken, RefreshClaims, Verified, claims, token_expired, token_invalid,
  Config, RequestMeta, Moment, Crypto, AccountException, account_inactive, session_expired,
  not_authenticated, invalid_current_password, password_reuse, AccountDb,
}
use fg_details_to_be_added_f.Accounts.{
  CurrentUser, to_current_user, roles_of, permissions_of, stored_user, change_user, revoke,
  revoke_all_sessions,
}
use fg_details_to_be_added_f.Accounts.Tokens.{issue_tokens}
use fg_details_to_be_added_f.Accounts.Login.{AuthResult}

abbrev hash_of : RefreshToken → String
hash_of t = t.token_hash

-- `newRow?.id`
abbrev pub replaced_by : Option RefreshToken → Option String
replaced_by none = none
replaced_by (some t) = some (hash_of t)

-- The test of a stored token: it is the user's, open, and not past its end.
abbrev pub is_usable : ℕ → RefreshClaims → RefreshToken → Bool
is_usable now payload stored =
    stored.user_id == payload.sub
    && not (is_some stored.revoked_at)
    && not (ltb stored.expires_at now)

module _ (p : Prisma) (c : Crypto) (cfg : Config) (m : Moment) where
  -- `update` of the token that was found under a hash
  abbrev pub change_token :
      String → (RefreshToken → RefreshToken) → Exec AccountException (AccountDb p) (Unit {0})
  change_token hash f =
      modify (λ s. record s { refresh_tokens = p.update (id hash) f s.refresh_tokens })

  -- `if (!test) { revoke the token; throw }`
  unfoldable pub or_revoke :
      Bool → String → AccountException → Exec AccountException (AccountDb p) (Unit {0})
  or_revoke true hash e = pure tt
  or_revoke false hash e = do change_token hash (revoke m.now); throw e

  -- The end of a token that a new one replaces.
  unfoldable pub retire :
      String → Option RefreshToken → Exec AccountException (AccountDb p) (Unit {0})
  retire hash new_row =
      change_token hash
        (λ t. record t { revoked_at = some m.now; replaced_by_token_hash = replaced_by new_row })

  -- refresh from the user on: the new tokens, then the end of the old one.
  unfoldable pub rotate :
      String → RequestMeta → User → Exec AccountException (AccountDb p) AuthResult
  unfolding issue_tokens retire
  rotate hash meta user = do
    roles ← gets (roles_of p user)
    permissions ← gets (permissions_of p user)
    tokens ← issue_tokens c cfg m p meta user roles permissions
    new_row ← gets (λ s. p.find_unique (id (c.hash_token tokens.refresh_token)) s.refresh_tokens)
    retire hash new_row
    pure (record {
      user = to_current_user user roles permissions user.last_login_at;
      tokens = tokens;
    })

  -- refresh of a token whose signature holds
  unfoldable pub refresh_verified :
      String → RequestMeta → RefreshClaims → Exec AccountException (AccountDb p) AuthResult
  unfolding or_revoke rotate
  refresh_verified hash meta payload = do
    found ← gets (λ s. p.find_unique (id hash) s.refresh_tokens)
    stored ← or_throw session_expired found
    require (is_usable m.now payload stored) session_expired
    user ← stored_user p session_expired payload.sub
    or_revoke (is_active user.status) hash account_inactive
    or_revoke (eqb payload.auth_version user.auth_version) hash session_expired
    rotate hash meta user

  unfoldable pub verified_or_throw :
      String → RequestMeta → Verified RefreshClaims → Exec AccountException (AccountDb p) AuthResult
  unfolding refresh_verified
  verified_or_throw hash meta (claims payload) = refresh_verified hash meta payload
  verified_or_throw hash meta token_expired = throw session_expired
  verified_or_throw hash meta token_invalid = throw session_expired

  -- refresh
  unfoldable pub refresh :
      Option String → RequestMeta → Exec AccountException (AccountDb p) AuthResult
  unfolding verified_or_throw
  refresh none meta = throw session_expired
  refresh (some raw) meta =
      if is_truthy raw
      then verified_or_throw (c.hash_token raw) meta
          (c.verify_refresh cfg.refresh_token_secret m.now raw)
      else throw session_expired

  -- `updateMany` of the open session with a token hash
  abbrev pub end_session : String → Exec AccountException (AccountDb p) (Unit {0})
  end_session hash = modify (λ s. record s {
    refresh_tokens =
        (p.update_where (id hash) (λ t. not (is_some t.revoked_at)) (revoke m.now)
          s.refresh_tokens).0;
  })

  -- logout
  unfoldable pub logout : Option String → Exec AccountException (AccountDb p) (Unit {0})
  logout none = pure tt
  logout (some raw) = if is_truthy raw then end_session (c.hash_token raw) else pure tt

  abbrev pub with_password : String → User → User
  with_password password u = record u {
    password_hash = c.hash m.salt password;
    must_change_password = false;
    password_changed_at = some m.now;
    failed_login_attempts = 0;
    locked_until = none;
    auth_version = u.auth_version + 1;
  }

  -- changePassword from the confirmed current password on
  unfoldable pub replace_password :
      String → String → RequestMeta → Exec AccountException (AccountDb p) AuthResult
  unfolding issue_tokens
  replace_password uid password meta = do
    change_user p uid (with_password password)
    revoke_all_sessions p m.now uid
    reloaded ← stored_user p not_authenticated uid
    roles ← gets (roles_of p reloaded)
    permissions ← gets (permissions_of p reloaded)
    tokens ← issue_tokens c cfg m p meta reloaded roles permissions
    pure (record {
      user = to_current_user reloaded roles permissions reloaded.last_login_at;
      tokens = tokens;
    })

  -- changePassword
  unfoldable pub change_password :
      String → String → String → RequestMeta → Exec AccountException (AccountDb p) AuthResult
  unfolding replace_password
  change_password uid current_password new_password meta = do
    user ← stored_user p not_authenticated uid
    require (is_active user.status) account_inactive
    require (c.compare current_password user.password_hash) invalid_current_password
    require (not (c.compare new_password user.password_hash)) password_reuse
    replace_password uid new_password meta

  -- getCurrentUser
  unfoldable pub get_current_user : String → Exec AccountException (AccountDb p) CurrentUser
  get_current_user uid = do
    user ← stored_user p not_authenticated uid
    require (is_active user.status) account_inactive
    gets
        (λ s. to_current_user user (roles_of p user s) (permissions_of p user s) user.last_login_at)
