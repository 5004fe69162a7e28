-- ===== src/Accounts/History.antt =====
-- The auth and users services over time: any requests, of anybody, one after another.
pub mod Rotation
pub mod Endings
pub mod Administrators
use fg_details_to_be_added_f.Prelude.{String, Option, List, refl, arith}
use fg_details_to_be_added_f.Records.{UserRole}
use fg_details_to_be_added_f.Exec.{Exec}
use fg_details_to_be_added_f.Exec.Keeps.{Keeps}
use fg_details_to_be_added_f.Prisma.{Prisma, PrismaLaws}
use fg_details_to_be_added_f.Accounts.State.{
  Config, RequestMeta, Moment, Crypto, AccountDb, AccountException,
}
use fg_details_to_be_added_f.Accounts.Login.{login}
use fg_details_to_be_added_f.Accounts.Sessions.{refresh, logout, change_password}
use fg_details_to_be_added_f.Accounts.Admin.{
  CreateUser, UpdateUser, Sent, create_user, update_user, activate, deactivate, assign_department,
  assign_roles, reset_password,
}
use fg_details_to_be_added_f.Accounts.After.{
  IsAfter, IsAfter-refl, change_user-Keeps, IsAfter-writes,
}
use fg_details_to_be_added_f.Accounts.Writes.Auth.{
  login-Keeps, refresh-Keeps, logout-Keeps, change_password-Keeps,
}
use fg_details_to_be_added_f.Accounts.Writes.Admin.{
  create_user-Keeps, update_user-Keeps, activate-Keeps, deactivate-Keeps, assign_department-Keeps,
  assign_roles-Keeps, reset_password-Keeps,
}

-- One request, and what it leaves, whether it returns or throws.
pub data Step (p : Prisma) (c : Crypto) (s : AccountDb p) : AccountDb p → Type 0 where
  signs_in :
      (cfg : Config) (m : Moment) (username password : String) (meta : RequestMeta)
      → Step p c s (login p c cfg m username password meta s).1
  refreshes :
      (cfg : Config) (m : Moment) (raw : Option String) (meta : RequestMeta)
      → Step p c s (refresh p c cfg m raw meta s).1
  signs_out :
      (cfg : Config) (m : Moment) (raw : Option String) → Step p c s (logout p c cfg m raw s).1
  changes_password :
      (cfg : Config) (m : Moment) (uid current new : String) (meta : RequestMeta)
      → Step p c s (change_password p c cfg m uid current new meta s).1
  creates :
      (m : Moment) (dto : CreateUser) (actor_id : String)
      → Step p c s (create_user p c m dto actor_id s).1
  updates :
      (m : Moment) (uid : String) (dto : UpdateUser) → Step p c s (update_user p c m uid dto s).1
  activates : (m : Moment) (uid actor_id : String) → Step p c s (activate p c m uid actor_id s).1
  deactivates :
      (m : Moment) (uid actor_id : String) → Step p c s (deactivate p c m uid actor_id s).1
  moves :
      (m : Moment) (uid : String) (department_id section_id : Sent (Option String))
      → Step p c s (assign_department p c m uid department_id section_id s).1
  assigns :
      (m : Moment) (uid : String) (names : List UserRole) (actor_id : String)
      → Step p c s (assign_roles p c m uid names actor_id s).1
  resets :
      (m : Moment) (uid : String) (password : Option String) (actor_id : String)
      → Step p c s (reset_password p c m uid password actor_id s).1

pub data Reach (p : Prisma) (c : Crypto) (s : AccountDb p) : AccountDb p → Type 0 where
  here : Reach p c s s
  after : {t u : AccountDb p} → Reach p c s t → Step p c t u → Reach p c s u

module _ (p : Prisma) (c : Crypto) (laws : PrismaLaws p) where
  Step-IsAfter : (s₀ s s' : AccountDb p) → Step p c s s' → IsAfter p s₀ s → IsAfter p s₀ s'
  Step-IsAfter s₀ s _ (signs_in cfg m username password meta) h =
      (login-Keeps p (IsAfter p s₀) (IsAfter-writes p laws s₀) c cfg m username password meta).at s
        h
  Step-IsAfter s₀ s _ (refreshes cfg m raw meta) h =
      (refresh-Keeps p (IsAfter p s₀) (IsAfter-writes p laws s₀) c cfg m raw meta).at s h
  Step-IsAfter s₀ s _ (signs_out cfg m raw) h =
      (logout-Keeps p (IsAfter p s₀) (IsAfter-writes p laws s₀) c cfg m raw).at s h
  Step-IsAfter s₀ s _ (changes_password cfg m uid current new meta) h =
      (change_password-Keeps p (IsAfter p s₀) (IsAfter-writes p laws s₀) c cfg m uid current new
          meta).at
        s h
  Step-IsAfter s₀ s _ (creates m dto actor_id) h =
      (create_user-Keeps p (IsAfter p s₀) (IsAfter-writes p laws s₀) c m dto actor_id).at s h
  Step-IsAfter s₀ s _ (updates m uid dto) h =
      (update_user-Keeps p (IsAfter p s₀) (IsAfter-writes p laws s₀) c m uid dto).at s h
  Step-IsAfter s₀ s _ (activates m uid actor_id) h =
      (activate-Keeps p (IsAfter p s₀) (IsAfter-writes p laws s₀) c m uid actor_id).at s h
  Step-IsAfter s₀ s _ (deactivates m uid actor_id) h =
      (deactivate-Keeps p (IsAfter p s₀) (IsAfter-writes p laws s₀) c m uid actor_id
          (λ v. change_user-Keeps p laws s₀ v _ (λ u. (refl, omega arith)))).at
        s h
  Step-IsAfter s₀ s _ (moves m uid department_id section_id) h =
      (assign_department-Keeps p (IsAfter p s₀) (IsAfter-writes p laws s₀) c m uid department_id
          section_id).at
        s h
  Step-IsAfter s₀ s _ (assigns m uid names actor_id) h =
      (assign_roles-Keeps p (IsAfter p s₀) (IsAfter-writes p laws s₀) c m laws uid names actor_id
          (λ v ids. change_user-Keeps p laws s₀ v _ (λ u. (refl, omega arith)))).at
        s h
  Step-IsAfter s₀ s _ (resets m uid password actor_id) h =
      (reset_password-Keeps p (IsAfter p s₀) (IsAfter-writes p laws s₀) c m uid password
          actor_id).at
        s h

  pub Reach-IsAfter : (s s' : AccountDb p) → Reach p c s s' → IsAfter p s s'
  Reach-IsAfter s _ here = IsAfter-refl p s
  Reach-IsAfter s u (after {t} before step) = Step-IsAfter s t u step (Reach-IsAfter s t before)
