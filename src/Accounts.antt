-- ===== src/Accounts.antt =====
-- What apps/api/src/auth and apps/api/src/users share: the user with its roles and permissions.
pub mod State
pub mod Username
pub mod Reading
pub mod Tokens
pub mod Login
pub mod Sessions
pub mod Admin
pub mod Guards
pub mod Progress
pub mod Writes
pub mod After
pub mod LastAdmin
pub mod History
pub mod Lockout
pub mod Admission
mod Tests
use fg_details_to_be_added_f.Prelude.{
  ℕ, String, ◌+◌, Bool, true, false, ◌&&◌, not, Option, none, some, List, [], ◌∷◌, ◌++◌, map, any,
  eqb, ◌==◌, is_some, if◌then◌else◌,
}
use fg_details_to_be_added_f.Records.{UserRole}
use fg_details_to_be_added_f.Exec.{Exec, ◌>>=◌, ◌>>◌, gets, modify, or_throw}
use fg_details_to_be_added_f.Prisma.{Prisma, id}
use fg_details_to_be_added_f.Inspections.State.{Permission}
use fg_details_to_be_added_f.Inspections.Access.{same_role, same_permission}
use fg_details_to_be_added_f.Accounts.State.{
  UserStatus, Role, User, RefreshToken, AccountException, AccountDb,
}

-- CurrentUser
pub record CurrentUser : Type 0 where
  pub id : String
  pub employee_code : String
  pub username : Option String
  pub full_name : String
  pub email : Option String
  pub status : UserStatus
  pub must_change_password : Bool
  pub roles : List UserRole
  pub permissions : List Permission
  pub last_login_at : Option ℕ

-- toCurrentUser
abbrev pub to_current_user : User → List UserRole → List Permission → Option ℕ → CurrentUser
to_current_user user roles permissions last_login_at = record {
  id = user.id;
  employee_code = user.employee_code;
  username = user.username;
  full_name = user.full_name;
  email = user.email;
  status = user.status;
  must_change_password = user.must_change_password;
  roles = roles;
  permissions = permissions;
  last_login_at = last_login_at;
}

-- `keys.add(key)` on a Set, which keeps the order of the first insertions.
unfoldable pub add_key : List Permission → Permission → List Permission
add_key keys key = if any (λ k. same_permission k key) keys then keys else keys ++ (key ∷ [])

unfoldable pub add_keys : List Permission → List Permission → List Permission
unfolding add_key
add_keys keys [] = keys
add_keys keys (key ∷ rest) = add_keys (add_key keys key) rest

abbrev pub is_open_session : String → RefreshToken → Bool
is_open_session uid t = t.user_id == uid && not (is_some t.revoked_at)

abbrev pub revoke : ℕ → RefreshToken → RefreshToken
revoke now t = record t { revoked_at = some now }

module _ (p : Prisma) where
  -- The roles of the user's join rows.
  abbrev pub roles_in : p.Table Role → List String → List Role
  roles_in t [] = []
  roles_in t (rid ∷ rest) = elim (p.find_unique (id rid) t) [
    | none ↦ roles_in t rest
    | some role ↦ role ∷ roles_in t rest
  ]

  -- rolesOf
  abbrev pub roles_of : User → AccountDb p → List UserRole
  roles_of user s = map (λ (r : Role). r.name) (roles_in s.roles user.role_ids)

  unfoldable pub collect : List Permission → List Role → List Permission
  unfolding add_keys
  collect keys [] = keys
  collect keys (role ∷ rest) = collect (add_keys keys role.permissions) rest

  -- permissionsOf
  abbrev pub permissions_of : User → AccountDb p → List Permission
  permissions_of user s = collect [] (roles_in s.roles user.role_ids)

  abbrev pub stored_user : AccountException → String → Exec AccountException (AccountDb p) User
  stored_user e uid = do found ← gets (λ s. p.find_unique (id uid) s.users); or_throw e found

  -- `update({ where: { id: uid }, data })` of a user
  abbrev pub change_user : String → (User → User) → Exec AccountException (AccountDb p) (Unit {0})
  change_user uid f = modify (λ s. record s { users = p.update (id uid) f s.users })

  -- revokeAllSessions, and the same call in users.service.ts
  abbrev pub revoke_all_sessions : ℕ → String → Exec AccountException (AccountDb p) (Unit {0})
  revoke_all_sessions now uid = modify (λ s. record s {
    refresh_tokens = p.update_many (is_open_session uid) (revoke now) s.refresh_tokens;
  })
