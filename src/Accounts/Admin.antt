-- ===== src/Accounts/Admin.antt =====
-- apps/api/src/users/users.service.ts. The list with its filters and pages, and the access history,
-- are not modelled.
use fg_details_to_be_added_f.Prelude.{
  ℕ, String, ◌==◌, ◌+◌, Bool, true, false, ◌&&◌, not, Option, none, some, List, [], ◌∷◌, map, any,
  eqb, is_present, if◌then◌else◌,
}
use fg_details_to_be_added_f.Records.{UserRole, system_administrator}
use fg_details_to_be_added_f.Exec.{Exec, ◌>>=◌, ◌>>◌, pure, throw, gets, modify, require, skip}
use fg_details_to_be_added_f.Prisma.{Prisma, id}
use fg_details_to_be_added_f.Inspections.Access.{same_role}
use fg_details_to_be_added_f.Accounts.State.{
  UserStatus, active, inactive, is_active, Role, User, OrgUnit, Moment, Crypto, AccountException,
  user_not_found, employee_code_conflict, username_conflict, email_conflict, unknown_role,
  last_active_admin, Changes, no_changes, role_names, from_to, AccountDb,
}
use fg_details_to_be_added_f.Accounts.{
  roles_in, roles_of, stored_user, change_user, revoke_all_sessions,
}
use fg_details_to_be_added_f.Accounts.Username.{normalize_username}
use fg_details_to_be_added_f.Accounts.Login.{has_username}

-- CreateUserDto
pub record CreateUser : Type 0 where
  pub employee_code : String
  pub username : String
  pub full_name : String
  pub email : Option String
  pub temporary_password : String
  pub department_id : Option String
  pub section_id : Option String
  pub role_names : Option (List UserRole)

-- UpdateUserDto
pub record UpdateUser : Type 0 where
  pub employee_code : Option String
  pub full_name : Option String
  pub username : Option String
  pub email : Option String

-- A value that was sent, or `undefined`.
pub data Sent (A : Type 0) : Type 0 where
  absent : Sent A
  sent : A → Sent A

-- AdminUserSummary
pub record UserSummary : Type 0 where
  pub id : String
  pub employee_code : String
  pub username : Option String
  pub full_name : String
  pub email : Option String
  pub status : UserStatus
  pub must_change_password : Bool
  pub department : Option OrgUnit
  pub section : Option OrgUnit
  pub roles : List UserRole
  pub last_login_at : Option ℕ
  pub failed_login_attempts : ℕ
  pub locked_until : Option ℕ
  pub deactivated_at : Option ℕ
  pub created_at : ℕ

abbrev has_employee_code : String → User → Bool
has_employee_code code user = user.employee_code == code

abbrev has_email : String → User → Bool
has_email email user = elim user.email [ none ↦ false | some e ↦ e == email ]

abbrev pub given_or : {A : Type 0} → Option A → A → A
given_or none kept = kept
given_or (some a) kept = a

abbrev sent_or : {A : Type 0} → Sent A → A → A
sent_or absent kept = kept
sent_or (sent a) kept = a

-- `x ? f(x) : undefined`
abbrev if_present : Option String → (String → String) → Option String
if_present none f = none
if_present (some s) f = if is_present (some s) then some (f s) else none

-- A column that is written if a value is sent for it.
abbrev column_or : Option String → Option String → Option String
column_or none kept = kept
column_or (some a) kept = some a

-- `names.includes(role)`
abbrev pub includes_role : List UserRole → UserRole → Bool
includes_role names role = any (λ r. same_role r role) names

-- The first name that is not among the found ones.
abbrev pub first_unknown : List UserRole → List UserRole → Option UserRole
first_unknown found [] = none
first_unknown found (name ∷ rest) =
    let others = first_unknown found rest in if includes_role found name then others else some name

-- The changes of the operations.
abbrev pub activated : User → User
activated u = record u { status = active; deactivated_at = none; auth_version = u.auth_version + 1 }

abbrev pub deactivated : ℕ → User → User
deactivated now u = record u {
  status = inactive;
  deactivated_at = some now;
  auth_version = u.auth_version + 1;
}

abbrev pub with_roles : List String → User → User
with_roles role_ids u = record u { role_ids = role_ids; auth_version = u.auth_version + 1 }

abbrev pub with_reset_password : String → User → User
with_reset_password password_hash u = record u {
  password_hash = password_hash;
  must_change_password = true;
  password_changed_at = none;
  failed_login_attempts = 0;
  locked_until = none;
  auth_version = u.auth_version + 1;
}

abbrev pub updated : UpdateUser → User → User
updated dto u = record u {
  employee_code = given_or dto.employee_code u.employee_code;
  full_name = given_or dto.full_name u.full_name;
  email = column_or dto.email u.email;
  username = column_or (if_present dto.username normalize_username) u.username;
}

abbrev pub moved : Sent (Option String) → Sent (Option String) → User → User
moved department_id section_id u = record u {
  department_id = sent_or department_id u.department_id;
  section_id = sent_or section_id u.section_id;
}

module _ (p : Prisma) where
  abbrev org_unit : p.Table OrgUnit → Option String → Option OrgUnit
  org_unit t none = none
  org_unit t (some uid) = p.find_unique (id uid) t

  -- toAdminUserSummary
  abbrev pub summary_of : User → AccountDb p → UserSummary
  summary_of user s = record {
    id = user.id;
    employee_code = user.employee_code;
    username = user.username;
    full_name = user.full_name;
    email = user.email;
    status = user.status;
    must_change_password = user.must_change_password;
    department = org_unit s.departments user.department_id;
    section = org_unit s.sections user.section_id;
    roles = roles_of p user s;
    last_login_at = user.last_login_at;
    failed_login_attempts = user.failed_login_attempts;
    locked_until = user.locked_until;
    deactivated_at = user.deactivated_at;
    created_at = user.created_at;
  }

  -- findUserOrThrow
  abbrev pub find_user_or_throw : String → Exec AccountException (AccountDb p) User
  find_user_or_throw uid = stored_user p (user_not_found uid) uid

  -- getById, and the row that an update returns
  unfoldable pub get_user : String → Exec AccountException (AccountDb p) UserSummary
  get_user uid = do user ← find_user_or_throw uid; gets (summary_of user)

  -- hasRole
  abbrev pub has_role : UserRole → p.Table Role → User → Bool
  has_role role t user = any (λ (r : Role). same_role r.name role) (roles_in p t user.role_ids)

  -- An active system administrator.
  abbrev pub is_active_admin : p.Table Role → User → Bool
  is_active_admin t user = is_active user.status && has_role system_administrator t user

  abbrev pub is_other_admin : String → p.Table Role → User → Bool
  is_other_admin uid t user = not (user.id == uid) && is_active_admin t user

  -- assertNotLastActiveAdmin
  unfoldable pub assert_not_last_active_admin :
      String → Exec AccountException (AccountDb p) (Unit {0})
  assert_not_last_active_admin uid = do
    others ← gets (λ s. p.count (is_other_admin uid s.roles) s.users)
    require (not (eqb others 0)) last_active_admin

  -- `if (existing && existing.id !== excludeUserId) throw`
  abbrev is_taken : Option String → Option User → Bool
  is_taken exclude none = false
  is_taken none (some existing) = true
  is_taken (some uid) (some existing) = not (existing.id == uid)

  -- assertEmployeeCodeAvailable, assertUsernameAvailable and assertEmailAvailable
  abbrev pub assert_available :
      (User → Bool)
      → Option String
      → AccountException
      → Exec AccountException (AccountDb p) (Unit {0})
  assert_available has_value exclude e = do
    existing ← gets (λ s. p.find_first has_value s.users)
    require (not (is_taken exclude existing)) e

  abbrev pub assert_employee_code_available :
      String → Option String → Exec AccountException (AccountDb p) (Unit {0})
  assert_employee_code_available code exclude =
      assert_available (has_employee_code code) exclude (employee_code_conflict code)

  abbrev pub assert_username_available :
      String → Option String → Exec AccountException (AccountDb p) (Unit {0})
  assert_username_available username exclude =
      assert_available (has_username username) exclude (username_conflict username)

  abbrev pub assert_email_available :
      String → Option String → Exec AccountException (AccountDb p) (Unit {0})
  assert_email_available email exclude =
      assert_available (has_email email) exclude (email_conflict email)

  -- `if (value) check(value)`
  unfoldable pub if_given :
      Option String
      → (String → Exec AccountException (AccountDb p) (Unit {0}))
      → Exec AccountException (AccountDb p) (Unit {0})
  if_given none check = skip
  if_given (some s) check = if is_present (some s) then check s else skip

  unfoldable pub known_or_throw :
      List Role → Option UserRole → Exec AccountException (AccountDb p) (List String)
  known_or_throw roles none = pure (map (λ (r : Role). r.id) roles)
  known_or_throw roles (some unknown) = throw (unknown_role unknown)

  -- resolveRoleIds
  unfoldable pub resolve_role_ids :
      List UserRole → Exec AccountException (AccountDb p) (List String)
  unfolding known_or_throw
  resolve_role_ids [] = pure []
  resolve_role_ids (name ∷ rest) = do
    roles ← gets (λ s. p.find_many (λ (r : Role). includes_role (name ∷ rest) r.name) s.roles)
    known_or_throw roles (first_unknown (map (λ (r : Role). r.name) roles) (name ∷ rest))

  -- recordAudit
  abbrev pub record_audit :
      String → String → String → Changes → Exec AccountException (AccountDb p) (Unit {0})
  record_audit actor_id action entity_id metadata = modify (λ s. record s {
    audits =
        p.create (id (p.next_id s.audits))
          (record {
            actor_id = actor_id;
            action = action;
            entity_id = entity_id;
            metadata = metadata;
          })
          s.audits;
  })

  -- The change of a user that ends the user's sessions, and its audit entry.
  abbrev pub change_security :
      ℕ → String → String → (User → User) → String → Exec AccountException (AccountDb p) (Unit {0})
  change_security now actor_id uid f action = do
    change_user p uid f
    revoke_all_sessions p now uid
    record_audit actor_id action uid no_changes

module _ (p : Prisma) (c : Crypto) (m : Moment) where
  abbrev pub user_of : CreateUser → String → List String → User
  user_of dto uid role_ids = record {
    id = uid;
    employee_code = dto.employee_code;
    username = some (normalize_username dto.username);
    full_name = dto.full_name;
    email = dto.email;
    password_hash = c.hash m.salt dto.temporary_password;
    status = active;
    must_change_password = true;
    password_changed_at = none;
    deactivated_at = none;
    auth_version = 0;
    failed_login_attempts = 0;
    locked_until = none;
    last_login_at = none;
    department_id = dto.department_id;
    section_id = dto.section_id;
    role_ids = role_ids;
    created_at = m.now;
  }

  -- `user.create({ data })`
  unfoldable pub store_user : CreateUser → List String → Exec AccountException (AccountDb p) String
  store_user dto role_ids = do
    uid ← gets (λ s. p.next_id s.users)
    modify (λ s. record s { users = p.create (id uid) (user_of dto uid role_ids) s.users })
    pure uid

  -- create
  unfoldable pub create_user : CreateUser → String → Exec AccountException (AccountDb p) UserSummary
  unfolding if_given resolve_role_ids store_user get_user normalize_username
  create_user dto actor_id = do
    assert_employee_code_available p dto.employee_code none
    assert_username_available p (normalize_username dto.username) none
    if_given p dto.email (λ email. assert_email_available p email none)
    role_ids ← resolve_role_ids p (given_or dto.role_names [])
    uid ← store_user dto role_ids
    record_audit p actor_id "USER_CREATED" uid (role_names (given_or dto.role_names []))
    get_user p uid

  -- update
  unfoldable pub update_user : String → UpdateUser → Exec AccountException (AccountDb p) UserSummary
  unfolding if_given get_user normalize_username
  update_user uid dto = do
    find_user_or_throw p uid
    if_given p dto.employee_code (λ code. assert_employee_code_available p code (some uid))
    if_given p dto.email (λ email. assert_email_available p email (some uid))
    if_given p dto.username
        (λ username. assert_username_available p (normalize_username username) (some uid))
    change_user p uid (updated dto)
    get_user p uid

  -- activate
  unfoldable pub activate : String → String → Exec AccountException (AccountDb p) UserSummary
  unfolding get_user
  activate uid actor_id = do
    find_user_or_throw p uid
    change_security p m.now actor_id uid activated "USER_ACTIVATED"
    get_user p uid

  -- `if (test) assertNotLastActiveAdmin(id)`
  unfoldable pub unless_last_admin : Bool → String → Exec AccountException (AccountDb p) (Unit {0})
  unfolding assert_not_last_active_admin
  unless_last_admin true uid = assert_not_last_active_admin p uid
  unless_last_admin false uid = skip

  -- deactivate
  unfoldable pub deactivate : String → String → Exec AccountException (AccountDb p) UserSummary
  unfolding unless_last_admin get_user
  deactivate uid actor_id = do
    existing ← find_user_or_throw p uid
    admin ← gets (λ s. is_active_admin p s.roles existing)
    unless_last_admin admin uid
    change_security p m.now actor_id uid (deactivated m.now) "USER_DEACTIVATED"
    get_user p uid

  -- assignDepartment
  unfoldable pub assign_department :
      String
      → Sent (Option String)
      → Sent (Option String)
      → Exec AccountException (AccountDb p) UserSummary
  unfolding get_user
  assign_department uid department_id section_id = do
    find_user_or_throw p uid
    change_user p uid (moved department_id section_id)
    get_user p uid

  -- The writes of assignRoles: the join rows are replaced, and the sessions end.
  abbrev pub role_writes : String → List String → Exec AccountException (AccountDb p) (Unit {0})
  role_writes uid role_ids = do
    change_user p uid (with_roles role_ids)
    revoke_all_sessions p m.now uid

  -- Their transaction.
  abbrev pub replace_roles : String → List String → Exec AccountException (AccountDb p) (Unit {0})
  replace_roles uid role_ids = p.transaction (role_writes uid role_ids)

  -- assignRoles from the existing user on
  unfoldable pub assign_found :
      String
      → List UserRole
      → String
      → User
      → List String
      → Exec AccountException (AccountDb p) UserSummary
  unfolding unless_last_admin get_user
  assign_found uid names actor_id existing role_ids = do
    admin ← gets (λ s. is_active_admin p s.roles existing)
    unless_last_admin (admin && not (includes_role names system_administrator)) uid
    before ← gets (roles_of p existing)
    replace_roles uid role_ids
    record_audit p actor_id "USER_ROLES_CHANGED" uid (from_to before names)
    get_user p uid

  -- assignRoles
  unfoldable pub assign_roles :
      String → List UserRole → String → Exec AccountException (AccountDb p) UserSummary
  unfolding resolve_role_ids assign_found
  assign_roles uid names actor_id = do
    existing ← find_user_or_throw p uid
    role_ids ← resolve_role_ids p names
    assign_found uid names actor_id existing role_ids

  -- resetPassword, with the password that was given or drawn
  unfoldable pub reset_password :
      String → Option String → String → Exec AccountException (AccountDb p) String
  reset_password uid temporary_password actor_id = do
    find_user_or_throw p uid
    change_security p m.now actor_id uid
        (with_reset_password (c.hash m.salt (given_or temporary_password m.temporary_password)))
        "USER_PASSWORD_RESET"
    pure (given_or temporary_password m.temporary_password)
