-- ===== src/Accounts/Writes/Auth.antt =====
-- The handlers of apps/api/src/auth/auth.service.ts keep what their writes keep.
use fg_details_to_be_added_f.Prelude.{ℕ, String, Bool, true, false, Option, none, some, arith}
use fg_details_to_be_added_f.Exec.Keeps.{Keeps, keeps_rules}
use fg_details_to_be_added_f.Prisma.{Prisma}
use fg_details_to_be_added_f.Accounts.State.{
  User, RefreshClaims, Verified, claims, token_expired, token_invalid, Config, RequestMeta, Moment,
  Crypto, AccountException, AccountDb,
}
use fg_details_to_be_added_f.Accounts.{change_user}
use fg_details_to_be_added_f.Accounts.Login.{
  cleared, failed_attempt, sign_in, refuse_attempt, try_password, login,
}
use fg_details_to_be_added_f.Accounts.Sessions.{
  with_password, or_revoke, rotate, refresh_verified, verified_or_throw, refresh, logout,
  replace_password, change_password,
}
use fg_details_to_be_added_f.Accounts.Writes.{
  IsHarmless, KeepsWrites, issue_tokens-Keeps, ending_all-Keeps,
}

cleared-IsHarmless : IsHarmless cleared
cleared-IsHarmless = ground arith

logged_in-IsHarmless : (now : ℕ) → IsHarmless (λ u. record u { last_login_at = some now })
logged_in-IsHarmless now = ground arith

failed-IsHarmless : (cfg : Config) (now : ℕ) (was : User) → IsHarmless (failed_attempt cfg now was)
failed-IsHarmless cfg now was = ground arith

new_password-IsHarmless :
    (p : Prisma) (c : Crypto) (cfg : Config) (m : Moment) (password : String)
    → IsHarmless (with_password p c cfg m password)
new_password-IsHarmless p c cfg m password = ground arith

module _ (p : Prisma) (P : AccountDb p → Type 0) (writes : KeepsWrites p P) where
  module _ (c : Crypto) (cfg : Config) (m : Moment) where
    cleared-Keeps : (uid : String) → Keeps P (change_user p uid cleared)
    cleared-Keeps uid = writes.changing uid cleared cleared-IsHarmless

    logged_in-Keeps :
        (uid : String) → Keeps P (change_user p uid (λ u. record u { last_login_at = some m.now }))
    logged_in-Keeps uid = writes.changing uid _ (logged_in-IsHarmless m.now)

    sign_in-Keeps : (meta : RequestMeta) (user : User) → Keeps P (sign_in p c cfg m meta user)
    unfolding sign_in
    sign_in-Keeps meta user =
        search (keeps_rules, issue_tokens-Keeps, cleared-Keeps, logged_in-Keeps) depth 12

    refuse-Keeps : (user : User) → Keeps P (refuse_attempt p c cfg m user)
    unfolding refuse_attempt
    refuse-Keeps user =
        search (keeps_rules, writes.changing user.id _ (failed-IsHarmless cfg m.now user))

    pub login-Keeps :
        (username password : String) (meta : RequestMeta)
        → Keeps P (login p c cfg m username password meta)
    unfolding login try_password
    login-Keeps username password meta = search (keeps_rules, sign_in-Keeps, refuse-Keeps) depth 12

    or_revoke-Keeps :
        (test : Bool) (hash : String) (e : AccountException)
        → Keeps P (or_revoke p c cfg m test hash e)
    unfolding or_revoke
    or_revoke-Keeps true hash e = search keeps_rules
    or_revoke-Keeps false hash e = search (keeps_rules, writes.revoking)

    rotate-Keeps :
        (hash : String) (meta : RequestMeta) (user : User)
        → Keeps P (rotate p c cfg m hash meta user)
    unfolding rotate
    rotate-Keeps hash meta user =
        search (keeps_rules, issue_tokens-Keeps p P writes, writes.retiring) depth 14

    refresh_verified-Keeps :
        (hash : String) (meta : RequestMeta) (payload : RefreshClaims)
        → Keeps P (refresh_verified p c cfg m hash meta payload)
    unfolding refresh_verified
    refresh_verified-Keeps hash meta payload =
        search (keeps_rules, or_revoke-Keeps, rotate-Keeps) depth 16

    verified-Keeps :
        (hash : String) (meta : RequestMeta) (v : Verified RefreshClaims)
        → Keeps P (verified_or_throw p c cfg m hash meta v)
    unfolding verified_or_throw refresh_verified
    verified-Keeps hash meta (claims payload) = refresh_verified-Keeps hash meta payload
    verified-Keeps hash meta token_expired = search keeps_rules
    verified-Keeps hash meta token_invalid = search keeps_rules

    pub refresh-Keeps :
        (raw : Option String) (meta : RequestMeta) → Keeps P (refresh p c cfg m raw meta)
    unfolding refresh
    refresh-Keeps none meta = search keeps_rules
    refresh-Keeps (some raw) meta = search (keeps_rules, verified-Keeps)

    pub logout-Keeps : (raw : Option String) → Keeps P (logout p c cfg m raw)
    unfolding logout
    logout-Keeps none = search keeps_rules
    logout-Keeps (some raw) = search (keeps_rules, writes.ending)

    new_password-Keeps :
        (uid password : String) → Keeps P (change_user p uid (with_password p c cfg m password))
    new_password-Keeps uid password =
        writes.changing uid _ (new_password-IsHarmless p c cfg m password)

    replace_password-Keeps :
        (uid password : String) (meta : RequestMeta)
        → Keeps P (replace_password p c cfg m uid password meta)
    unfolding replace_password
    replace_password-Keeps uid password meta =
        search (keeps_rules, issue_tokens-Keeps, ending_all-Keeps, new_password-Keeps) depth 16

    pub change_password-Keeps :
        (uid current_password new_password : String) (meta : RequestMeta)
        → Keeps P (change_password p c cfg m uid current_password new_password meta)
    unfolding change_password
    change_password-Keeps uid current_password new_password meta =
        search (keeps_rules, replace_password-Keeps) depth 16
