-- ===== src/Accounts/Writes.antt =====
-- The writes of the auth and users services, as an interface: what keeps a property of the database
-- under each single write keeps it under every handler.
pub mod Auth
pub mod Admin
use fg_details_to_be_added_f.Prelude.{
  ℕ, String, ◌+◌, ◌≤◌, ◌≡◌, refl, sym, ap, ◌∙◌, Bool, true, false, not, Option, none, some, List,
  [], ◌∷◌, is_some, arith,
}
use fg_details_to_be_added_f.Records.{UserRole}
use fg_details_to_be_added_f.Exec.{Exec, ◌>>=◌, ◌>>◌, require, settle}
use fg_details_to_be_added_f.Exec.Keeps.{
  Keeps, Keeps-modify, Keeps-settle, keeps_rules, Keeps-then, Keeps-bind, Keeps-gets, Keeps-if,
  Keeps-pure,
}
use fg_details_to_be_added_f.Prisma.{Prisma, PrismaLaws, id}
use fg_details_to_be_added_f.Inspections.State.{Permission}
use fg_details_to_be_added_f.Accounts.State.{
  is_active, User, Role, RefreshToken, RefreshClaims, Verified, claims, token_expired,
  token_invalid, Config, RequestMeta, Moment, Crypto, AccountException, Changes, AccountDb,
}
use fg_details_to_be_added_f.Accounts.{change_user, revoke, is_open_session, revoke_all_sessions}
use fg_details_to_be_added_f.Accounts.Tokens.{token_row, create_token, issue_tokens}
use fg_details_to_be_added_f.Accounts.Login.{
  cleared, failed_attempt, sign_in, refuse_attempt, try_password, login,
}
use fg_details_to_be_added_f.Accounts.Sessions.{
  retire, end_session, with_password, change_token, or_revoke, rotate, refresh_verified,
  verified_or_throw, refresh, logout, replace_password, change_password,
}
use fg_details_to_be_added_f.Accounts.Admin.{
  known_or_throw, role_writes, if_given, activated, deactivated, with_roles, with_reset_password,
  updated, moved, CreateUser, UpdateUser, Sent, record_audit, change_security, store_user,
  create_user, update_user, activate, deactivate, unless_last_admin, assert_not_last_active_admin,
  assign_department, replace_roles, assign_found, assign_roles, reset_password, get_user,
  resolve_role_ids,
}

-- A change of a user that keeps its id and its roles, deactivates nobody, and does not lower the auth
-- version.
pub record IsHarmless (f : User → User) : Type 0 where
  pub same_id : (u : User) → (f u).id ≡ u.id
  pub same_roles : (u : User) → (f u).role_ids ≡ u.role_ids
  pub stays_active : (u : User) → is_active u.status ≡ true → is_active (f u).status ≡ true
  pub raises : (u : User) → u.auth_version ≤ (f u).auth_version

pub record KeepsWrites (p : Prisma) (P : AccountDb p → Type 0) : Type 0 where
  pub changing : (uid : String) (f : User → User) → IsHarmless f → Keeps P (change_user p uid f)
  pub ending_all : (now : ℕ) (uid : String) → Keeps P (revoke_all_sessions p now uid)
  pub creating_token :
      (c : Crypto) (cfg : Config) (m : Moment) (row : RefreshToken)
      → Keeps P (create_token c cfg m p row)
  pub revoking :
      (c : Crypto) (cfg : Config) (m : Moment) (hash : String) (now : ℕ)
      → Keeps P (change_token p c cfg m hash (revoke now))
  pub retiring :
      (c : Crypto) (cfg : Config) (m : Moment) (hash : String) (new_row : Option RefreshToken)
      → Keeps P (retire p c cfg m hash new_row)
  pub ending :
      (c : Crypto) (cfg : Config) (m : Moment) (hash : String)
      → Keeps P (end_session p c cfg m hash)
  pub auditing :
      (actor_id action entity_id : String) (metadata : Changes)
      → Keeps P (record_audit p actor_id action entity_id metadata)
  pub storing :
      (c : Crypto) (m : Moment) (dto : CreateUser) (role_ids : List String)
      → Keeps P (store_user p c m dto role_ids)

module _ (p : Prisma) (P : AccountDb p → Type 0) (writes : KeepsWrites p P) where
  pub issue_tokens-Keeps :
      (c : Crypto) (cfg : Config) (m : Moment) (meta : RequestMeta) (user : User)
      (roles : List UserRole) (permissions : List Permission)
      → Keeps P (issue_tokens c cfg m p meta user roles permissions)
  unfolding issue_tokens
  issue_tokens-Keeps c cfg m meta user roles permissions =
      search (keeps_rules, writes.creating_token)

  pub if_given-Keeps :
      (o : Option String) (check : String → Exec AccountException (AccountDb p) (Unit {0}))
      → ((x : String) → Keeps P (check x))
      → Keeps P (if_given p o check)
  unfolding if_given
  if_given-Keeps none check h = search keeps_rules
  if_given-Keeps (some x) check h = search (keeps_rules, h)

  pub audit-Keeps :
      (actor_id action entity_id : String) (metadata : Changes)
      → Keeps P (record_audit p actor_id action entity_id metadata)
  audit-Keeps = writes.auditing

  pub ending_all-Keeps : (now : ℕ) (uid : String) → Keeps P (revoke_all_sessions p now uid)
  ending_all-Keeps = writes.ending_all
