-- ===== src/Accounts/State.antt =====
-- The rows that apps/api/src/auth and apps/api/src/users read and write, the claims of their tokens,
-- and their exceptions. A DateTime is a number of milliseconds. The join rows UserRole and
-- RolePermission stand as lists in the user and the role that they belong to.
use fg_details_to_be_added_f.Prelude.{ℕ, String, Option, Bool, true, false, List}
use fg_details_to_be_added_f.Records.{UserRole}
use fg_details_to_be_added_f.Prisma.{Prisma}
use fg_details_to_be_added_f.Inspections.State.{Permission}

-- UserStatus of schema.prisma
pub data UserStatus : Type 0 where
  active inactive suspended pending_activation : UserStatus

abbrev pub is_active : UserStatus → Bool
is_active active = true
is_active _ = false

pub record Role : Type 0 where
  pub id : String
  pub name : UserRole
  pub permissions : List Permission

-- A Department or a Section.
pub record OrgUnit : Type 0 where
  pub id : String
  pub name : String
  pub code : String

pub record User : Type 0 where
  pub id : String
  pub employee_code : String
  pub username : Option String
  pub full_name : String
  pub email : Option String
  pub password_hash : String
  pub status : UserStatus
  pub must_change_password : Bool
  pub password_changed_at : Option ℕ
  pub deactivated_at : Option ℕ
  pub auth_version : ℕ
  pub failed_login_attempts : ℕ
  pub locked_until : Option ℕ
  pub last_login_at : Option ℕ
  pub department_id : Option String
  pub section_id : Option String
  pub role_ids : List String
  pub created_at : ℕ

-- RefreshToken, under its token hash
pub record RefreshToken : Type 0 where
  pub user_id : String
  pub token_hash : String
  pub issued_at : ℕ
  pub expires_at : ℕ
  pub revoked_at : Option ℕ
  pub replaced_by_token_hash : Option String
  pub user_agent : Option String
  pub ip_address : Option String

-- AccessTokenPayload
pub record AccessClaims : Type 0 where
  pub sub : String
  pub employee_code : String
  pub full_name : String
  pub roles : List UserRole
  pub permissions : List Permission
  pub auth_version : ℕ

-- RefreshTokenPayload
pub record RefreshClaims : Type 0 where
  pub sub : String
  pub jti : String
  pub auth_version : ℕ

-- AuthConfig
pub record Config : Type 0 where
  pub access_token_secret : String
  pub refresh_token_secret : String
  pub access_token_ttl_ms : ℕ
  pub refresh_token_ttl_ms : ℕ
  pub login_max_attempts : ℕ
  pub login_lockout_minutes : ℕ

-- RequestMeta
pub record RequestMeta : Type 0 where
  pub ip : Option String
  pub user_agent : Option String

-- What a request takes from outside: the time, `randomUUID()`, the salt of `bcrypt.hash`, and the
-- password that generateTemporaryPassword draws.
pub record Moment : Type 0 where
  pub now : ℕ
  pub uuid : String
  pub salt : String
  pub temporary_password : String

-- `verifyAsync` of a token.
pub data Verified (A : Type 0) : Type 0 where
  claims : A → Verified A
  token_expired token_invalid : Verified A

-- bcrypt, @nestjs/jwt and the SHA-256 hash. A signature takes the secret, the time and the lifetime in
-- seconds.
pub record Crypto : Type 0 where
  pub compare : String → String → Bool
  pub hash : String → String → String
  pub sign_access : String → ℕ → ℕ → AccessClaims → String
  pub verify_access : String → ℕ → String → Verified AccessClaims
  pub sign_refresh : String → ℕ → ℕ → RefreshClaims → String
  pub verify_refresh : String → ℕ → String → Verified RefreshClaims
  pub hash_token : String → String

-- The exceptions of auth.errors.ts and users.errors.ts, and the client's own for a unique key that is
-- taken (P2002).
pub data AccountException : Type 0 where
  invalid_credentials invalid_current_password password_reuse account_inactive : AccountException
  account_locked : ℕ → AccountException
  session_expired not_authenticated forbidden password_change_required : AccountException
  user_not_found employee_code_conflict username_conflict email_conflict : String → AccountException
  unknown_role : UserRole → AccountException
  last_active_admin unique_violation : AccountException

-- The metadata of the audit entries.
pub data Changes : Type 0 where
  no_changes : Changes
  role_names : List UserRole → Changes
  from_to : List UserRole → List UserRole → Changes

pub record UserAudit : Type 0 where
  pub actor_id : String
  pub action : String
  pub entity_id : String
  pub metadata : Changes

module _ (p : Prisma) where
  open p use {Table}

  pub record AccountDb : Type 0 where
    pub users : Table User
    pub roles : Table Role
    pub departments : Table OrgUnit
    pub sections : Table OrgUnit
    pub refresh_tokens : Table RefreshToken
    pub audits : Table UserAudit
