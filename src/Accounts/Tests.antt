-- ===== src/Accounts/Tests.antt =====
-- Tests of apps/api/src/auth and apps/api/src/users on a small database: an administrator with one
-- session. The cryptography is a stand-in: hashes are the texts themselves, and a token is its jti.
use fg_details_to_be_added_f.Prelude.{
  ℕ, String, ◌==◌, ◌≡◌, ◌≢◌, refl, sym, ap, subst, ◌∙◌, true, false, none, some, [], ◌∷◌, arith,
  inl, inr, In, ◌⊎◌, not, ◌||◌, any, includes, is_empty, Bool-cases,
}
use fg_details_to_be_added_f.Records
use fg_details_to_be_added_f.Exec.{ok, err}
use fg_details_to_be_added_f.Prisma.{Key, id, same_key_iff}
use fg_details_to_be_added_f.Prisma.Memory.{memory, memory_laws}
use fg_details_to_be_added_f.Inspections.State
use fg_details_to_be_added_f.Accounts.State.{
  active, Role, User, RefreshToken, AccessClaims, claims, Config, RequestMeta, Moment, Crypto,
  invalid_credentials, session_expired, account_locked, last_active_admin, AccountDb,
}
use fg_details_to_be_added_f.Accounts.Tokens.{access_claims}
use fg_details_to_be_added_f.Accounts.Username.{normalize_username, is_valid_username}
use fg_details_to_be_added_f.Accounts.Login.{login}
use fg_details_to_be_added_f.Accounts.Sessions.{refresh, logout, change_password}
use fg_details_to_be_added_f.Accounts.Admin.{deactivate}
use fg_details_to_be_added_f.Accounts.{collect, roles_of, permissions_of}
use fg_details_to_be_added_f.Accounts.Guards.{
  request_key, admit_request, SignedIn, Route, any_of, reload_user, signed_in, grants,
  allowed_when_must_change,
}
use fg_details_to_be_added_f.Accounts.LastAdmin.{HasAdmin, AreRolesKeyed}
use fg_details_to_be_added_f.Accounts.History.Endings.{new_password, changed-shuts_out}
use fg_details_to_be_added_f.Accounts.History.Administrators.{Reach-HasAdmin}
use fg_details_to_be_added_f.Accounts.Lockout.{attempt, attempt_all, attempts-locked}
use fg_details_to_be_added_f.Accounts.Admission.{IsLetIn, admit_request-ok}
use fg_details_to_be_added_f.Inspections.Access.{same_role}
use fg_details_to_be_added_f.Accounts.History.{here, after, signs_out, deactivates}
use fg_details_to_be_added_f.Accounts.History.Rotation.{refresh-once}

abbrev crypto : Crypto
crypto = record {
  compare = λ password hash. password == hash;
  hash = λ salt password. password;
  sign_access = λ secret now ttl payload. payload.sub;
  verify_access = λ secret now token. claims (record {
    sub = token;
    employee_code = "E1";
    full_name = "Amara";
    roles = [];
    permissions = [];
    auth_version = 0;
  });
  sign_refresh = λ secret now ttl payload. payload.jti;
  verify_refresh =
      λ secret now token. claims (record { sub = "u1"; jti = token; auth_version = 0 });
  hash_token = λ token. token;
}

abbrev config : Config
config = record {
  access_token_secret = "a";
  refresh_token_secret = "r";
  access_token_ttl_ms = 900_000;
  refresh_token_ttl_ms = 604_800_000;
  login_max_attempts = 2;
  login_lockout_minutes = 15;
}

abbrev meta : RequestMeta
meta = record { ip = none; user_agent = none }

abbrev moment : ℕ → String → Moment
moment now uuid = record { now = now; uuid = uuid; salt = "s"; temporary_password = "xxxxxxxxxxxx" }

abbrev amara : User
amara = record {
  id = "u1";
  employee_code = "E1";
  username = some "amara";
  full_name = "Amara";
  email = none;
  password_hash = "right password";
  status = active;
  must_change_password = false;
  password_changed_at = none;
  deactivated_at = none;
  auth_version = 0;
  failed_login_attempts = 0;
  locked_until = none;
  last_login_at = none;
  department_id = none;
  section_id = none;
  role_ids = "admin" ∷ [];
  created_at = 1;
}

abbrev administrator : Role
administrator = record {
  id = "admin";
  name = Records.system_administrator;
  permissions = State.users_manage ∷ [];
}

abbrev session : RefreshToken
session = record {
  user_id = "u1";
  token_hash = "t0";
  issued_at = 5;
  expires_at = 1000;
  revoked_at = none;
  replaced_by_token_hash = none;
  user_agent = none;
  ip_address = none;
}

abbrev db : AccountDb memory
db = record {
  users = (id "u1", amara) ∷ [];
  roles = (id "admin", administrator) ∷ [];
  departments = [];
  sections = [];
  refresh_tokens = (id "t0", session) ∷ [];
  audits = [];
}

lowercase : normalize_username " Fg.Operator01 " ≡ "fg.operator01"
unfolding normalize_username
lowercase = refl

valid : is_valid_username "fg.operator01" ≡ true
unfolding is_valid_username
valid = refl

wrong_password :
    (login memory crypto config (moment 10 "t1") "AMARA" "guess" meta db).0
    ≡ err invalid_credentials
unfolding login
wrong_password = refl

last_admin_stays :
    deactivate memory crypto (moment 10 "t1") "u1" "u1" db ≡ (err last_active_admin, db)
unfolding deactivate
last_admin_stays = refl

key : request_key "POST" "/auth/logout/?x=1" ≡ "POST /auth/logout"
unfolding request_key
key = refl

abbrev rotated : AccountDb memory
rotated = (refresh memory crypto config (moment 10 "t1") (some "t0") meta db).1

refresh-once_example :
    refresh memory crypto config
      (moment 12 "t2")
      (some "t0")
      meta
      (logout memory crypto config (moment 11 "") (some "t1") rotated).1
    ≡ (err session_expired, (logout memory crypto config (moment 11 "") (some "t1") rotated).1)
unfolding refresh
refresh-once_example =
    refresh-once memory crypto memory_laws config config (moment 10 "t1") (moment 12 "t2") "t0" meta
      meta db rotated (logout memory crypto config (moment 11 "") (some "t1") rotated).1 _ refl
      (after here (signs_out config (moment 11 "") (some "t1")))

abbrev changed : AccountDb memory
changed =
    (change_password memory crypto config (moment 10 "t1") "u1" "right password" "better password"
      meta db).1

abbrev old_claims : AccessClaims
old_claims = access_claims crypto config (moment 10 "") amara [] []

changed-shuts_out_example :
    (refresh memory crypto config (moment 12 "t2") (some "t0") meta changed
      ≡ (err session_expired, changed))
    × ((reload_user memory crypto config (moment 12 "t2") old_claims changed).0
        ≢ ok (signed_in memory crypto config (moment 12 "t2") amara changed))
unfolding change_password
changed-shuts_out_example =
    changed-shuts_out memory "u1" crypto memory_laws config config (moment 10 "t1") (moment 12 "t2")
      (new_password "right password" "better password" meta) db changed changed amara "t0" meta
      session old_claims (signed_in memory crypto config (moment 12 "t2") amara changed) (_, refl)
      here refl refl refl refl (omega arith)

only_user :
    (k : Key) (u : User) → memory.find_unique k db.users ≡ some u → (k ≡ id "u1") × (amara ≡ u)
only_user k u e = (only_key, ground arith)
  where
    only_key : k ≡ id "u1"
    only_key = sym ((same_key_iff (id "u1") k).0 (ground arith))

roles_keyed : AreRolesKeyed memory db.roles
roles_keyed q role m = by (Bool-cases (q administrator))
  where
    head : In role (administrator ∷ []) → administrator ≡ role
    head (inl e) = e
    head (inr n) = absurd n

    by :
        (q administrator ≡ true) ⊎ (q administrator ≡ false)
        → memory.find_unique (id role.id) db.roles ≡ some role
    by (inl e) = subst (λ r. memory.find_unique (id r.id) db.roles ≡ some r) (head (rw e at m)) refl
    by (inr e) = absurd (rw e at m)

db-HasAdmin : HasAdmin memory db.roles db
db-HasAdmin = record {
  same_roles = refl;
  keyed = λ k u e. (only_user k u e).0 ∙ ap (λ (x : User). id x.id) (only_user k u e).1;
  admin = refl;
}

Reach-HasAdmin_example :
    HasAdmin memory db.roles (deactivate memory crypto (moment 10 "t1") "u1" "u1" db).1
Reach-HasAdmin_example =
    Reach-HasAdmin memory crypto memory_laws db.roles roles_keyed db
      (deactivate memory crypto (moment 10 "t1") "u1" "u1" db).1
      (after here (deactivates (moment 10 "t1") "u1" "u1")) db-HasAdmin

attempts-locked_example :
    (minutes : ℕ) × (attempt memory crypto config "u1" meta (moment 20 "t1") "right password" (
        attempt_all memory crypto config "u1" meta
          ((moment 10 "", "guess") ∷ (moment 11 "", "another guess") ∷ [])
          db)
      ≡ (
        err (account_locked minutes),
        attempt_all memory crypto config "u1" meta
            ((moment 10 "", "guess") ∷ (moment 11 "", "another guess") ∷ [])
            db,
      ))
attempts-locked_example =
    attempts-locked memory crypto config "u1" meta memory_laws (moment 10 "", "guess")
      ((moment 11 "", "another guess") ∷ []) db amara (moment 20 "t1") "right password" refl refl
      refl refl refl refl (refl, tt) (omega arith)

abbrev users_route : Route
users_route = record {
  is_public = false;
  roles = [];
  permissions = State.users_manage ∷ [];
  mode = any_of;
}

admit_request-ok_example :
    (db ≡ db)
    × (given : String) × (some "u1" ≡ some given)
    × (u : User) × (user : SignedIn) × (some
          (signed_in memory crypto config (moment 10 "") amara db)
        ≡ some user)
    × IsLetIn memory crypto config (moment 10 "") given db user u
    × (user.request_user.roles ≡ roles_of memory u db)
    × (user.request_user.permissions ≡ permissions_of memory u db)
    × ((not u.must_change_password || includes allowed_when_must_change "GET /users") ≡ true)
    × ((is_empty users_route.roles
          || any (λ role. any (λ q. same_role q role) (roles_of memory u db)) users_route.roles)
        ≡ true)
    × ((is_empty users_route.permissions
          || grants users_route.mode users_route.permissions (permissions_of memory u db))
        ≡ true)
unfolding admit_request collect
admit_request-ok_example =
    admit_request-ok memory crypto config (moment 10 "") users_route "GET /users" (some "u1") db db
      (some (signed_in memory crypto config (moment 10 "") amara db)) refl refl
