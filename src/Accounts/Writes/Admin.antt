-- ===== src/Accounts/Writes/Admin.antt =====
-- The handlers of apps/api/src/users/users.service.ts keep what their writes keep.
use fg_details_to_be_added_f.Prelude.{
  String, refl, Bool, true, false, Option, none, some, List, [], ◌∷◌, arith,
}
use fg_details_to_be_added_f.Records.{UserRole}
use fg_details_to_be_added_f.Exec.Keeps.{Keeps, Keeps-settle, keeps_rules}
use fg_details_to_be_added_f.Prisma.{Prisma, PrismaLaws}
use fg_details_to_be_added_f.Accounts.State.{User, Role, Moment, Crypto, AccountDb}
use fg_details_to_be_added_f.Accounts.{change_user}
use fg_details_to_be_added_f.Accounts.Admin.{
  known_or_throw, role_writes, activated, deactivated, with_roles, with_reset_password, updated,
  moved, CreateUser, UpdateUser, Sent, store_user, create_user, update_user, activate, deactivate,
  unless_last_admin, assert_not_last_active_admin, assign_department, replace_roles, assign_found,
  assign_roles, reset_password, get_user, resolve_role_ids,
}
use fg_details_to_be_added_f.Accounts.Writes.{
  IsHarmless, KeepsWrites, if_given-Keeps, audit-Keeps, ending_all-Keeps,
}

activated-IsHarmless : IsHarmless activated
activated-IsHarmless = ground arith

reset-IsHarmless : (hash : String) → IsHarmless (with_reset_password hash)
reset-IsHarmless hash = ground arith

updated-IsHarmless : (dto : UpdateUser) → IsHarmless (updated dto)
updated-IsHarmless dto = record {
  same_id = λ u. refl;
  same_roles = λ u. refl;
  stays_active = λ u h. h;
  raises = λ u. omega arith;
}

moved-IsHarmless :
    (department_id section_id : Sent (Option String)) → IsHarmless (moved department_id section_id)
moved-IsHarmless department_id section_id = record {
  same_id = λ u. refl;
  same_roles = λ u. refl;
  stays_active = λ u h. h;
  raises = λ u. omega arith;
}

module _ (p : Prisma) (P : AccountDb p → Type 0) (writes : KeepsWrites p P) where
  activated-Keeps : (uid : String) → Keeps P (change_user p uid activated)
  activated-Keeps uid = writes.changing uid _ activated-IsHarmless

  reset-Keeps : (uid hash : String) → Keeps P (change_user p uid (with_reset_password hash))
  reset-Keeps uid hash = writes.changing uid _ (reset-IsHarmless hash)

  updated-Keeps : (uid : String) (dto : UpdateUser) → Keeps P (change_user p uid (updated dto))
  updated-Keeps uid dto = writes.changing uid _ (updated-IsHarmless dto)

  moved-Keeps :
      (uid : String) (department_id section_id : Sent (Option String))
      → Keeps P (change_user p uid (moved department_id section_id))
  moved-Keeps uid department_id section_id =
      writes.changing uid _ (moved-IsHarmless department_id section_id)

  module _ (c : Crypto) (m : Moment) where
    store_user-Keeps :
        (dto : CreateUser) (role_ids : List String) → Keeps P (store_user p c m dto role_ids)
    store_user-Keeps = writes.storing c m

    pub get_user-Keeps : (uid : String) → Keeps P (get_user p uid)
    unfolding get_user
    get_user-Keeps uid = search keeps_rules

    known-Keeps :
        (roles : List Role) (unknown : Option UserRole) → Keeps P (known_or_throw p roles unknown)
    unfolding known_or_throw
    known-Keeps roles none = search keeps_rules
    known-Keeps roles (some name) = search keeps_rules

    pub resolve-Keeps : (names : List UserRole) → Keeps P (resolve_role_ids p names)
    unfolding resolve_role_ids
    resolve-Keeps [] = search keeps_rules
    resolve-Keeps (name ∷ rest) = search (keeps_rules, known-Keeps)

    pub create_user-Keeps :
        (dto : CreateUser) (actor_id : String) → Keeps P (create_user p c m dto actor_id)
    unfolding create_user
    create_user-Keeps dto actor_id =
        search
          (
            keeps_rules, get_user-Keeps, resolve-Keeps, store_user-Keeps, audit-Keeps,
            if_given-Keeps,
          )
          depth 18

    unless-Keeps : (test : Bool) (uid : String) → Keeps P (unless_last_admin p c m test uid)
    unfolding unless_last_admin assert_not_last_active_admin
    unless-Keeps true uid = search keeps_rules
    unless-Keeps false uid = search keeps_rules

    pub activate-Keeps : (uid actor_id : String) → Keeps P (activate p c m uid actor_id)
    unfolding activate
    activate-Keeps uid actor_id =
        search (keeps_rules, get_user-Keeps, audit-Keeps, ending_all-Keeps, activated-Keeps) depth
          14

    -- Where the deactivation itself keeps the property.
    pub deactivate-Keeps :
        (uid actor_id : String)
        → ((v : String) → Keeps P (change_user p v (deactivated m.now)))
        → Keeps P (deactivate p c m uid actor_id)
    unfolding deactivate
    deactivate-Keeps uid actor_id h =
        search (keeps_rules, get_user-Keeps, unless-Keeps, audit-Keeps, ending_all-Keeps, h) depth
          14

    pub reset_password-Keeps :
        (uid : String) (password : Option String) (actor_id : String)
        → Keeps P (reset_password p c m uid password actor_id)
    unfolding reset_password
    reset_password-Keeps uid password actor_id =
        search (keeps_rules, audit-Keeps, ending_all-Keeps, reset-Keeps) depth 14

    pub update_user-Keeps : (uid : String) (dto : UpdateUser) → Keeps P (update_user p c m uid dto)
    unfolding update_user
    update_user-Keeps uid dto =
        search (keeps_rules, get_user-Keeps, if_given-Keeps, updated-Keeps) depth 18

    pub assign_department-Keeps :
        (uid : String) (department_id section_id : Sent (Option String))
        → Keeps P (assign_department p c m uid department_id section_id)
    unfolding assign_department
    assign_department-Keeps uid department_id section_id =
        search (keeps_rules, get_user-Keeps, moved-Keeps) depth 14

    module _ (laws : PrismaLaws p) where
      replace_roles-Keeps :
          (uid : String) (ids : List String)
          → Keeps P (change_user p uid (with_roles ids))
          → Keeps P (replace_roles p c m uid ids)
      replace_roles-Keeps uid ids h =
          Keeps-settle (replace_roles p c m uid ids) (role_writes p c m uid ids)
            (laws.transaction_lem (role_writes p c m uid ids))
            (search (keeps_rules, ending_all-Keeps, h))

      assign_found-Keeps :
          (uid : String) (names : List UserRole) (actor_id : String) (existing : User)
          (ids : List String)
          → ((v : String) → Keeps P (replace_roles p c m v ids))
          → Keeps P (assign_found p c m uid names actor_id existing ids)
      unfolding assign_found
      assign_found-Keeps uid names actor_id existing ids h =
          search (keeps_rules, get_user-Keeps, unless-Keeps, audit-Keeps, h) depth 14

      -- Where the change of the roles itself keeps the property.
      pub assign_roles-Keeps :
          (uid : String) (names : List UserRole) (actor_id : String)
          → ((v : String) (ids : List String) → Keeps P (change_user p v (with_roles ids)))
          → Keeps P (assign_roles p c m uid names actor_id)
      unfolding assign_roles
      assign_roles-Keeps uid names actor_id h = search (keeps_rules, resolve-Keeps, found) depth 14
        where
          found :
              (existing : User) (ids : List String)
              → Keeps P (assign_found p c m uid names actor_id existing ids)
          found existing ids =
              assign_found-Keeps uid names actor_id existing ids
                (λ v. replace_roles-Keeps v ids (h v ids))
