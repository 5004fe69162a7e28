-- ===== src/Accounts/LastAdmin.antt =====
-- The last active system administrator: the writes that keep one.
pub mod Removing
use mathlib.Core.Option
use fg_details_to_be_added_f.Prelude.{
  ℕ, String, ◌==◌, eq_iff, eq_refl, ◌≡◌, ◌⊎◌, inl, inr, refl, sym, ap, subst, ◌∙◌, Bool, true,
  false, ◌&&◌, ◌||◌, not, Option, none, some, List, In, is_some, eqb, any, Bool-cases, Option-cases,
  arith, if◌then◌else◌,
}
use fg_details_to_be_added_f.Records.{system_administrator}
use fg_details_to_be_added_f.Exec.Keeps.{Keeps, Keeps-modify}
use fg_details_to_be_added_f.Prisma.{Prisma, PrismaLaws, Key, id, same_key, same_key_iff}
use fg_details_to_be_added_f.Prisma.Rows.{AllRows}
use fg_details_to_be_added_f.Inspections.Access.{same_role}
use fg_details_to_be_added_f.Accounts.State.{
  is_active, Role, User, RefreshToken, Config, Moment, Crypto, Changes, AccountDb,
}
use fg_details_to_be_added_f.Accounts.{roles_in, change_user, revoke, revoke_all_sessions}
use fg_details_to_be_added_f.Accounts.Tokens.{create_token}
use fg_details_to_be_added_f.Accounts.Sessions.{change_token, retire, end_session}
use fg_details_to_be_added_f.Accounts.Admin.{
  CreateUser, user_of, store_user, record_audit, has_role, is_active_admin,
}
use fg_details_to_be_added_f.Accounts.Writes.{IsHarmless, KeepsWrites}

module _ (p : Prisma) where
  abbrev pub AreKeyed : p.Table User → Type 0
  AreKeyed t = (k : Key) (u : User) → p.find_unique k t ≡ some u → k ≡ id u.id

  -- Each role that a query finds stands under its id.
  abbrev pub AreRolesKeyed : p.Table Role → Type 0
  AreRolesKeyed roles =
      (q : Role → Bool) (role : Role)
      → In role (p.find_many q roles)
      → p.find_unique (id role.id) roles ≡ some role

  -- The roles are the given ones, the users stand under their ids, and one of them is an active system
  -- administrator.
  pub record HasAdmin (roles : p.Table Role) (s : AccountDb p) : Type 0 where
    pub same_roles : s.roles ≡ roles
    pub keyed : AreKeyed s.users
    pub admin : is_some (p.find_first (is_active_admin p roles) s.users) ≡ true

  module _ (laws : PrismaLaws p) (roles : p.Table Role) where
    update-AreKeyed :
        (uid : String) (f : User → User) (t : p.Table User)
        → ((u : User) → (f u).id ≡ u.id)
        → AreKeyed t
        → AreKeyed (p.update (id uid) f t)
    update-AreKeyed uid f t same keyed k u e =
        by (Bool-cases (same_key (id uid) k)) (p.find_unique k t) refl
          (sym (laws.find_unique-update (id uid) k f t) ∙ e)
      where
        some_same : {a b : User} → some a ≡ some b → a ≡ b
        some_same e = cc e

        by :
            (same_key (id uid) k ≡ true) ⊎ (same_key (id uid) k ≡ false)
            → (o : Option User) → p.find_unique k t ≡ o
            → (if same_key (id uid) k then Option.map f (p.find_unique k t) else p.find_unique k t)
              ≡ some u
            → k ≡ id u.id
        by (inr other) o found h = keyed k u (rw other at h)
        by (inl hit) none found h = cc (rw (hit, found) at h)
        by (inl hit) (some v) found h =
            keyed k v found
            ∙ ap id (sym (same v))
            ∙ ap (λ (x : User). id x.id) (some_same (rw (hit, found) at h))

    -- A change of a user after which there is still an administrator.
    pub change-HasAdmin :
        (uid : String) (f : User → User) (s : AccountDb p)
        → ((u : User) → (f u).id ≡ u.id)
        → HasAdmin roles s
        → is_some (p.find_first (is_active_admin p roles) (p.update (id uid) f s.users)) ≡ true
        → HasAdmin roles (change_user p uid f s).1
    change-HasAdmin uid f s same h still = record {
      same_roles = h.same_roles;
      keyed = update-AreKeyed uid f s.users same h.keyed;
      admin = still;
    }

    -- A change that leaves every administrator one.
    pub keeping-Keeps :
        (uid : String) (f : User → User)
        → ((u : User) → (f u).id ≡ u.id)
        → ((u : User) → is_active_admin p roles u ≡ true → is_active_admin p roles (f u) ≡ true)
        → Keeps (HasAdmin roles) (change_user p uid f)
    keeping-Keeps uid f same stays = record {
      at = λ s h.
          change-HasAdmin uid f s same h (
            laws.find_first-update_same (is_active_admin p roles) (id uid) f s.users stays h.admin);
    }

    harmless_admin :
        (f : User → User)
        → IsHarmless f
        → (u : User) → is_active_admin p roles u ≡ true
        → is_active_admin p roles (f u) ≡ true
    harmless_admin f h u a = rw (h.same_roles u) (ground (arith, h.stays_active u))

    -- The users and the roles are the same.
    same-HasAdmin :
        (s s' : AccountDb p)
        → s'.roles ≡ s.roles
        → s'.users ≡ s.users
        → HasAdmin roles s
        → HasAdmin roles s'
    same-HasAdmin s s' r u h = record {
      same_roles = r ∙ h.same_roles;
      keyed = rw u h.keyed;
      admin = rw u h.admin;
    }

    create_token-HasAdmin :
        (c : Crypto) (cfg : Config) (m : Moment) (row : RefreshToken)
        → Keeps (HasAdmin roles) (create_token c cfg m p row)
    unfolding create_token
    create_token-HasAdmin c cfg m row = record {
      at = λ s h. elim (Option-cases (p.find_unique (id row.token_hash) s.refresh_tokens)) [
        | inl free ↦ rw free (same-HasAdmin s _ refl refl h)
        | inr (t, taken) ↦ rw taken h
      ];
    }

    store_user-HasAdmin :
        (c : Crypto) (m : Moment) (dto : CreateUser) (role_ids : List String)
        → Keeps (HasAdmin roles) (store_user p c m dto role_ids)
    unfolding store_user
    store_user-HasAdmin c m dto role_ids = record {
      at = λ s h.
          let uid = p.next_id s.users in
          let user = user_of p c m dto uid role_ids in
          record {
            same_roles = h.same_roles;
            keyed = λ k u e. elim (Bool-cases (same_key (id uid) k)) [
              | inl hit ↦
                  sym ((same_key_iff (id uid) k).0 hit)
                  ∙ ap id
                      (cc (rw hit at (sym (laws.find_unique-create (id uid) k user s.users) ∙ e)))
              | inr other ↦
                  h.keyed k u
                    (rw other at (sym (laws.find_unique-create (id uid) k user s.users) ∙ e))
            ];
            admin =
                laws.find_first-create (is_active_admin p roles) (id uid) user s.users
                ∙ rw h.admin (ground arith);
          };
    }

    retire-HasAdmin :
        (c : Crypto) (cfg : Config) (m : Moment) (hash : String) (new_row : Option RefreshToken)
        → Keeps (HasAdmin roles) (retire p c cfg m hash new_row)
    unfolding retire
    retire-HasAdmin c cfg m hash new_row = Keeps-modify _ (λ s h. same-HasAdmin s _ refl refl h)

    -- Every single write keeps an administrator.
    pub admin_writes : KeepsWrites p (HasAdmin roles)
    admin_writes = record {
      changing = λ uid f h. keeping-Keeps uid f h.same_id (harmless_admin f h);
      ending_all = λ now uid. Keeps-modify _ (λ s h. same-HasAdmin s _ refl refl h);
      creating_token = create_token-HasAdmin;
      revoking = λ c cfg m hash now. Keeps-modify _ (λ s h. same-HasAdmin s _ refl refl h);
      retiring = retire-HasAdmin;
      ending = λ c cfg m hash. Keeps-modify _ (λ s h. same-HasAdmin s _ refl refl h);
      auditing = λ actor_id action entity_id metadata.
          Keeps-modify _ (λ s h. same-HasAdmin s _ refl refl h);
      storing = store_user-HasAdmin;
    }
