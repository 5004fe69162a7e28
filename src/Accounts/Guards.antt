-- ===== src/Accounts/Guards.antt =====
-- The guards of apps/api/src/auth/guards, in the order in which auth.module.ts declares them.
use Prim.Native.String
use Prim.Native.Char.{Char, code}
use fg_details_to_be_added_f.Prelude.{
  ℕ, String, Bool, ◌&&◌, ◌||◌, not, Option, none, some, List, [], ◌∷◌, any, every, eqb, is_empty,
  is_truthy, includes, if◌then◌else◌,
}
use fg_details_to_be_added_f.Records.{UserRole}
use fg_details_to_be_added_f.Exec.{Exec, ◌>>=◌, ◌>>◌, pure, throw, gets, require}
use fg_details_to_be_added_f.Prisma.{Prisma}
use fg_details_to_be_added_f.Inspections.State.{Permission, RequestUser}
use fg_details_to_be_added_f.Inspections.Access.{same_permission, same_role}
use fg_details_to_be_added_f.Accounts.State.{
  is_active, User, AccessClaims, Verified, claims, token_expired, token_invalid, Config, Moment,
  Crypto, AccountException, not_authenticated, session_expired, account_inactive, forbidden,
  password_change_required, AccountDb,
}
use fg_details_to_be_added_f.Accounts.{roles_of, permissions_of, stored_user}

-- RequestUser of auth.types.ts with the columns beyond its id, roles and permissions
pub record SignedIn : Type 0 where
  pub request_user : RequestUser
  pub employee_code : String
  pub full_name : String
  pub must_change_password : Bool
  pub auth_version : ℕ

-- PermissionsMode
pub data Mode : Type 0 where
  any_of all_of : Mode

-- What the decorators say of a route.
pub record Route : Type 0 where
  pub is_public : Bool
  pub roles : List UserRole
  pub permissions : List Permission
  pub mode : Mode

abbrev pub includes_permission : List Permission → Permission → Bool
includes_permission held key = any (λ k. same_permission k key) held

-- ALLOWED_WHEN_MUST_CHANGE
abbrev pub allowed_when_must_change : List String
allowed_when_must_change =
    "POST /auth/change-password" ∷ "GET /auth/me" ∷ "POST /auth/logout" ∷ "POST /auth/refresh" ∷ []

abbrev pub grants : Mode → List Permission → List Permission → Bool
grants any_of required held = any (includes_permission held) required
grants all_of required held = every (includes_permission held) required

-- `path.split("?")[0]`
before_query : String → String
before_query String.[] = ""
before_query (String.◌∷◌ c s) =
    let rest = before_query s in if eqb (code c) 63 then "" else String.◌∷◌ c rest

-- A slash goes if all behind it went.
cut_slash : Char → String → String
cut_slash c String.[] = if eqb (code c) 47 then "" else String.◌∷◌ c ""
cut_slash c (String.◌∷◌ d s) = String.◌∷◌ c (String.◌∷◌ d s)

-- `path.replace(/\/+$/, "")`
strip_slashes : String → String
unfolding cut_slash
strip_slashes String.[] = ""
strip_slashes (String.◌∷◌ c s) = cut_slash c (strip_slashes s)

-- `METHOD path`, of a method in capitals
unfoldable pub request_key : String → String → String
unfolding before_query strip_slashes
request_key method path =
    let normalized = strip_slashes (before_query path) in
    String.◌++◌ method (String.◌++◌ " " (if is_truthy normalized then normalized else "/"))

module _ (p : Prisma) (c : Crypto) (cfg : Config) (m : Moment) where
  abbrev pub signed_in : User → AccountDb p → SignedIn
  signed_in user s = record {
    request_user = record {
      id = user.id;
      roles = roles_of p user s;
      permissions = permissions_of p user s;
    };
    employee_code = user.employee_code;
    full_name = user.full_name;
    must_change_password = user.must_change_password;
    auth_version = user.auth_version;
  }

  -- JwtAuthGuard of a token whose signature holds
  unfoldable pub reload_user : AccessClaims → Exec AccountException (AccountDb p) SignedIn
  reload_user payload = do
    user ← stored_user p not_authenticated payload.sub
    require (is_active user.status) account_inactive
    require (eqb payload.auth_version user.auth_version) session_expired
    gets (signed_in user)

  unfoldable pub verified_user :
      Verified AccessClaims → Exec AccountException (AccountDb p) SignedIn
  unfolding reload_user
  verified_user (claims payload) = reload_user payload
  verified_user token_expired = throw session_expired
  verified_user token_invalid = throw not_authenticated

  -- JwtAuthGuard
  unfoldable pub jwt_auth_guard : Option String → Exec AccountException (AccountDb p) SignedIn
  unfolding verified_user
  jwt_auth_guard none = throw not_authenticated
  jwt_auth_guard (some token) =
      if is_truthy token
      then verified_user (c.verify_access cfg.access_token_secret m.now token)
      else throw not_authenticated

  -- PasswordChangeRequiredGuard
  unfoldable pub password_change_guard :
      String → SignedIn → Exec AccountException (AccountDb p) (Unit {0})
  password_change_guard key user =
      require (not user.must_change_password || includes allowed_when_must_change key)
        password_change_required

  -- RolesGuard
  unfoldable pub roles_guard :
      List UserRole → SignedIn → Exec AccountException (AccountDb p) (Unit {0})
  roles_guard required user =
      require
        (is_empty required
          || any (λ role. any (λ r. same_role r role) user.request_user.roles) required)
        forbidden

  -- PermissionsGuard
  unfoldable pub permissions_guard :
      Mode → List Permission → SignedIn → Exec AccountException (AccountDb p) (Unit {0})
  permissions_guard mode required user =
      require (is_empty required || grants mode required user.request_user.permissions) forbidden

  -- The four guards of a request with its key and its access token.
  unfoldable pub admit_request :
      Route → String → Option String → Exec AccountException (AccountDb p) (Option SignedIn)
  unfolding jwt_auth_guard password_change_guard roles_guard permissions_guard
  admit_request route key token =
      if route.is_public
      then require (is_empty route.roles && is_empty route.permissions) not_authenticated
        >> pure none
      else do
        user ← jwt_auth_guard token
        password_change_guard key user
        roles_guard route.roles user
        permissions_guard route.mode route.permissions user
        pure (some user)
