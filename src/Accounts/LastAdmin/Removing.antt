-- ===== src/Accounts/LastAdmin/Removing.antt =====
-- The two requests that could take the last active system administrator away, and every other one.
use fg_details_to_be_added_f.Prelude.{
  String, ◌==◌, eq_refl, ◌≡◌, ◌⊎◌, inl, inr, refl, sym, ap, subst, ◌∙◌, Bool, true, false, ◌&&◌,
  not, none, some, List, [], ◌∷◌, map, is_some, eqb, any, Bool-cases, Option-cases, In, arith,
}
use fg_details_to_be_added_f.Records.{UserRole, system_administrator}
use fg_details_to_be_added_f.Exec.{Exec, ◌>>=◌, ◌>>◌}
use fg_details_to_be_added_f.Exec.Keeps.{Keeps, Keeps-then}
use fg_details_to_be_added_f.Prisma.{Prisma, PrismaLaws, id}
use fg_details_to_be_added_f.Inspections.Access.{same_role}
use fg_details_to_be_added_f.Accounts.State.{
  Role, User, Moment, Crypto, AccountDb, AccountException, Changes, no_changes, from_to,
}
use fg_details_to_be_added_f.Accounts.{roles_in, roles_of, change_user, revoke_all_sessions}
use fg_details_to_be_added_f.Accounts.Admin.{
  is_active_admin, is_other_admin, includes_role, first_unknown, deactivated, with_roles,
  unless_last_admin, assert_not_last_active_admin, record_audit, get_user, deactivate, role_writes,
  known_or_throw, resolve_role_ids, assign_found, assign_roles,
}
use fg_details_to_be_added_f.Accounts.Writes.Admin.{get_user-Keeps}
use fg_details_to_be_added_f.Accounts.LastAdmin.{
  AreRolesKeyed, HasAdmin, change-HasAdmin, keeping-Keeps, admin_writes,
}

module _ (p : Prisma) (laws : PrismaLaws p) (roles : p.Table Role) where
  -- A user who is no administrator, or not the only one, may be changed.
  change_other :
      (uid : String) (f : User → User) (s : AccountDb p) (u : User) (r : User → Bool)
      → ((v : User) → (f v).id ≡ v.id)
      → p.find_unique (id uid) s.users ≡ some u
      → r u ≡ false
      → ((v : User) → r v ≡ true → is_active_admin p roles v ≡ true)
      → is_some (p.find_first r s.users) ≡ true
      → HasAdmin p roles s
      → HasAdmin p roles (change_user p uid f s).1
  change_other uid f s u r same found barred among other h =
      change-HasAdmin p laws roles uid f s same h (
        laws.find_first-update_other (is_active_admin p roles) r (id uid) f s.users
          (λ v e. subst (λ x. r x ≡ false) (cc (sym found ∙ e)) barred) among other)

  counted :
      (uid : String) (s : AccountDb p)
      → eqb (p.count (is_other_admin p uid roles) s.users) 0 ≡ false
      → is_some (p.find_first (is_other_admin p uid roles) s.users) ≡ true
  counted uid s e = ground (arith, laws.count-find_first (is_other_admin p uid roles) s.users)

  -- The guard, and what follows it: if the guard is not asked, the change leaves an administrator, and
  -- what follows keeps the change's administrator.
  guarded-HasAdmin :
      {A : Type 0} (c : Crypto) (m : Moment) (uid : String) (f : User → User) (s : AccountDb p)
      (u : User) (test : Bool) (k : Exec AccountException (AccountDb p) A)
      → ((v : User) → (f v).id ≡ v.id)
      → p.find_unique (id uid) s.users ≡ some u
      → HasAdmin p roles s
      → (test ≡ false → HasAdmin p roles (change_user p uid f s).1)
      → (HasAdmin p roles (change_user p uid f s).1 → HasAdmin p roles (k s).1)
      → HasAdmin p roles ((unless_last_admin p c m test uid >> k) s).1
  unfolding unless_last_admin assert_not_last_active_admin
  guarded-HasAdmin c m uid f s u false k same found h plain goes = goes (plain refl)
  guarded-HasAdmin c m uid f s u true k same found h plain goes =
      asked (Bool-cases (eqb (p.count (is_other_admin p uid s.roles) s.users) 0))
    where
      own : (u.id == uid) ≡ true
      own = let e : uid ≡ u.id = cc (h.keyed (id uid) u found) in rw (← e) (eq_refl uid)

      asked :
          (eqb (p.count (is_other_admin p uid s.roles) s.users) 0 ≡ true)
            ⊎ (eqb (p.count (is_other_admin p uid s.roles) s.users) 0 ≡ false)
          → HasAdmin p roles ((assert_not_last_active_admin p uid >> k) s).1
      asked (inl last) = rw last h
      asked (inr others) = rw others (
          goes (
            change_other uid f s u (is_other_admin p uid roles) same found (rw own (ground arith))
              (λ v a. ground arith) (counted uid s (rw h.same_roles at others)) h))

  module _ (c : Crypto) (m : Moment) where
    after_change-Keeps :
        (uid : String)
        → Keeps (HasAdmin p roles) (revoke_all_sessions p m.now uid)
          × ((actor_id action : String) (changes : Changes)
              → Keeps
                  (HasAdmin p roles)
                  (record_audit p actor_id action uid changes >> get_user p uid))
    after_change-Keeps uid = (
      (admin_writes p laws roles).ending_all m.now uid,
      λ actor_id action changes.
          Keeps-then _ _ ((admin_writes p laws roles).auditing actor_id action uid changes)
            (get_user-Keeps p (HasAdmin p roles) (admin_writes p laws roles) c m uid),
    )

    pub deactivate-HasAdmin :
        (uid actor_id : String) (s : AccountDb p)
        → HasAdmin p roles s
        → HasAdmin p roles (deactivate p c m uid actor_id s).1
    unfolding deactivate
    deactivate-HasAdmin uid actor_id s h = elim (Option-cases (p.find_unique (id uid) s.users)) [
      | inl missing ↦ rw missing h
      | inr (u, found) ↦
          let (ending, auditing) = after_change-Keeps uid in
          rw found (
            guarded-HasAdmin c m uid (deactivated m.now) s u (is_active_admin p s.roles u) _
              (λ v. refl) found h
              (λ plain.
                change_other uid (deactivated m.now) s u (is_active_admin p roles) (λ v. refl) found
                  (rw h.same_roles at plain) (λ v a. a) h.admin h)
              (λ h'.
                (auditing actor_id "USER_DEACTIVATED" no_changes).at _
                  (ending.at (change_user p uid (deactivated m.now) s).1 h')))
    ]

  found_names :
      (found : List Role)
      → ((role : Role) → In role found → p.find_unique (id role.id) roles ≡ some role)
      → roles_in p roles (map (λ (r : Role). r.id) found) ≡ found
  found_names [] keyed = refl
  found_names (role ∷ rest) keyed =
      rw (keyed role (inl refl)) (ap (◌∷◌ role) (found_names rest (λ r m. keyed r (inr m))))

  includes-map :
      (found : List Role) (name : UserRole)
      → includes_role (map (λ (r : Role). r.name) found) name
        ≡ any (λ (r : Role). same_role r.name name) found
  includes-map [] name = refl
  includes-map (role ∷ rest) name = ground (arith, includes-map rest name)

  same_role_includes :
      (found : List UserRole) (a b : UserRole)
      → same_role a b ≡ true
      → includes_role found a ≡ true
      → includes_role found b ≡ true
  same_role_includes [] a b e h = cc
  same_role_includes (r ∷ rest) a b e h = ground (arith, same_role_includes rest a b e)

  known_includes :
      (found names : List UserRole) (b : UserRole)
      → first_unknown found names ≡ none
      → includes_role names b ≡ true
      → includes_role found b ≡ true
  known_includes found [] b e h = cc
  known_includes found (a ∷ rest) b e h =
      ground (arith, same_role_includes found a b, known_includes found rest b)

  -- The new roles hold the administrator's, if the names do.
  resolved-has_role :
      (names : List UserRole) (u : User)
      → AreRolesKeyed p roles
      → let found = p.find_many (λ (r : Role). includes_role names r.name) roles in
        first_unknown (map (λ (r : Role). r.name) found) names ≡ none
        → includes_role names system_administrator ≡ true
        → is_active_admin p roles u ≡ true
        → is_active_admin p roles (with_roles (map (λ (r : Role). r.id) found) u) ≡ true
  resolved-has_role names u keyed known named admin =
      let found = p.find_many (λ (r : Role). includes_role names r.name) roles in
      let held : any (λ (r : Role). same_role r.name system_administrator) found ≡ true =
        sym (includes-map found system_administrator)
        ∙ known_includes (map (λ (r : Role). r.name) found) names system_administrator known
            named in
      rw (found_names found (keyed (λ (r : Role). includes_role names r.name)), held) (ground arith)

  module _ (c : Crypto) (m : Moment) where
    assign_found-HasAdmin :
        (uid : String) (names : List UserRole) (actor_id : String) (u : User) (ids : List String)
        (s : AccountDb p)
        → p.find_unique (id uid) s.users ≡ some u
        → HasAdmin p roles s
        → (includes_role names system_administrator ≡ true
            → (v : User) → is_active_admin p roles v ≡ true
            → is_active_admin p roles (with_roles ids v) ≡ true)
        → HasAdmin p roles (assign_found p c m uid names actor_id u ids s).1
    unfolding assign_found
    assign_found-HasAdmin uid names actor_id u ids s found h stays =
        let (ending, auditing) = after_change-Keeps c m uid in
        guarded-HasAdmin c m uid (with_roles ids) s u
          (is_active_admin p s.roles u && not (includes_role names system_administrator)) _
          (λ v. refl) found h plain
          (λ h'. rw (laws.transaction_lem (role_writes p c m uid ids) s) (
            (auditing actor_id "USER_ROLES_CHANGED" (from_to (roles_of p u s) names)).at _
              (ending.at (change_user p uid (with_roles ids) s).1 h')))
      where
        removing :
            (is_active_admin p roles u && not (includes_role names system_administrator)) ≡ false
            → includes_role names system_administrator ≡ false
            → is_active_admin p roles u ≡ false
        removing e unnamed = ground arith

        plain :
            (is_active_admin p s.roles u && not (includes_role names system_administrator)) ≡ false
            → HasAdmin p roles (change_user p uid (with_roles ids) s).1
        plain e = elim (Bool-cases (includes_role names system_administrator)) [
          | inl named ↦
              (keeping-Keeps p laws roles uid (with_roles ids) (λ v. refl) (stays named)).at s h
          | inr unnamed ↦
              change_other uid (with_roles ids) s u (is_active_admin p roles) (λ v. refl) found
                (removing (rw h.same_roles at e) unnamed) (λ v a. a) h.admin h
        ]

    assign_resolved-HasAdmin :
        (uid actor_id : String) (names : List UserRole) (u : User) (s : AccountDb p)
        → AreRolesKeyed p roles
        → p.find_unique (id uid) s.users ≡ some u
        → HasAdmin p roles s
        → HasAdmin p roles
            ((resolve_role_ids p names >>= assign_found p c m uid names actor_id u) s).1
    unfolding resolve_role_ids known_or_throw
    assign_resolved-HasAdmin uid actor_id [] u s keyed found h =
        assign_found-HasAdmin uid [] actor_id u [] s found h (λ e. cc e)
    assign_resolved-HasAdmin uid actor_id (name ∷ rest) u s keyed found h =
        elim (Option-cases
          (first_unknown (map (λ (r : Role). r.name) (roles_named s.roles)) (name ∷ rest))) [
            | inr (unknown, e) ↦ rw e h
            | inl known ↦ rw known (
                assign_found-HasAdmin uid (name ∷ rest) actor_id u
                  (map (λ (r : Role). r.id) (roles_named s.roles)) s found h
                  (λ named v admin.
                    subst
                      (λ t.
                        is_active_admin p roles
                          (with_roles (map (λ (r : Role). r.id) (roles_named t)) v)
                        ≡ true)
                      (sym h.same_roles)
                      (resolved-has_role (name ∷ rest) v keyed
                        (subst
                          (λ t.
                            first_unknown (map (λ (r : Role). r.name) (roles_named t)) (name ∷ rest)
                            ≡ none)
                          h.same_roles known)
                        named admin)))
          ]
      where
        roles_named : p.Table Role → List Role
        roles_named t = p.find_many (λ (r : Role). includes_role (name ∷ rest) r.name) t

    pub assign_roles-HasAdmin :
        (uid : String) (names : List UserRole) (actor_id : String) (s : AccountDb p)
        → AreRolesKeyed p roles
        → HasAdmin p roles s
        → HasAdmin p roles (assign_roles p c m uid names actor_id s).1
    unfolding assign_roles
    assign_roles-HasAdmin uid names actor_id s keyed h =
        elim (Option-cases (p.find_unique (id uid) s.users)) [
          | inl missing ↦ rw missing h
          | inr (u, found) ↦
              rw found (assign_resolved-HasAdmin uid actor_id names u s keyed found h)
        ]
