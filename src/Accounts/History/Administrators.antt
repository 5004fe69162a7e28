-- ===== src/Accounts/History/Administrators.antt =====
-- There is always an active system administrator.
use fg_details_to_be_added_f.Prisma.{Prisma, PrismaLaws}
use fg_details_to_be_added_f.Accounts.State.{Crypto, AccountDb}
use fg_details_to_be_added_f.Accounts.Writes.Auth.{
  login-Keeps, refresh-Keeps, logout-Keeps, change_password-Keeps,
}
use fg_details_to_be_added_f.Accounts.Writes.Admin.{
  create_user-Keeps, update_user-Keeps, activate-Keeps, assign_department-Keeps,
  reset_password-Keeps,
}
use fg_details_to_be_added_f.Accounts.State.{Role}
use fg_details_to_be_added_f.Accounts.LastAdmin.{AreRolesKeyed, HasAdmin, admin_writes}
use fg_details_to_be_added_f.Accounts.LastAdmin.Removing.{
  deactivate-HasAdmin, assign_roles-HasAdmin,
}
use fg_details_to_be_added_f.Accounts.History.{
  Step, signs_in, refreshes, signs_out, changes_password, creates, updates, activates, deactivates,
  moves, assigns, resets, Reach, here, after,
}

module _ (p : Prisma) (c : Crypto) (laws : PrismaLaws p) (roles : p.Table Role)
    (keyed : AreRolesKeyed p roles) where
  Step-HasAdmin : (s s' : AccountDb p) → Step p c s s' → HasAdmin p roles s → HasAdmin p roles s'
  Step-HasAdmin s _ (signs_in cfg m username password meta) h =
      (login-Keeps p (HasAdmin p roles) (admin_writes p laws roles) c cfg m username password
          meta).at
        s h
  Step-HasAdmin s _ (refreshes cfg m raw meta) h =
      (refresh-Keeps p (HasAdmin p roles) (admin_writes p laws roles) c cfg m raw meta).at s h
  Step-HasAdmin s _ (signs_out cfg m raw) h =
      (logout-Keeps p (HasAdmin p roles) (admin_writes p laws roles) c cfg m raw).at s h
  Step-HasAdmin s _ (changes_password cfg m uid current new meta) h =
      (change_password-Keeps p (HasAdmin p roles) (admin_writes p laws roles) c cfg m uid current
          new meta).at
        s h
  Step-HasAdmin s _ (creates m dto actor_id) h =
      (create_user-Keeps p (HasAdmin p roles) (admin_writes p laws roles) c m dto actor_id).at s h
  Step-HasAdmin s _ (updates m uid dto) h =
      (update_user-Keeps p (HasAdmin p roles) (admin_writes p laws roles) c m uid dto).at s h
  Step-HasAdmin s _ (activates m uid actor_id) h =
      (activate-Keeps p (HasAdmin p roles) (admin_writes p laws roles) c m uid actor_id).at s h
  Step-HasAdmin s _ (deactivates m uid actor_id) h =
      deactivate-HasAdmin p laws roles c m uid actor_id s h
  Step-HasAdmin s _ (moves m uid department_id section_id) h =
      (assign_department-Keeps p (HasAdmin p roles) (admin_writes p laws roles) c m uid
          department_id section_id).at
        s h
  Step-HasAdmin s _ (assigns m uid names actor_id) h =
      assign_roles-HasAdmin p laws roles c m uid names actor_id s keyed h
  Step-HasAdmin s _ (resets m uid password actor_id) h =
      (reset_password-Keeps p (HasAdmin p roles) (admin_writes p laws roles) c m uid password
          actor_id).at
        s h

  -- Given the laws of the database client, and roles that stand under their ids: if there is an active
  -- system administrator, then there still is one after any requests of the auth and users services,
  -- in whatever order and by whomever, one after another: a deactivation or a change of roles that
  -- would leave none is refused.
  pub Reach-HasAdmin :
      (s s' : AccountDb p) → Reach p c s s' → HasAdmin p roles s → HasAdmin p roles s'
  Reach-HasAdmin s _ here h = h
  Reach-HasAdmin s u (after {t} before step) h =
      Step-HasAdmin t u step (Reach-HasAdmin s t before h)
