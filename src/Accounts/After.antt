-- ===== src/Accounts/After.antt =====
-- What the stored users and sessions were at an earlier time is still there, in later versions: the
-- writes of the auth and users services.
use fg_details_to_be_added_f.Prelude.{
  ℕ, String, ◌≡◌, refl, ◌∙◌, not, Option, none, some, List, is_some, arith,
}
use fg_details_to_be_added_f.Exec.{Exec}
use fg_details_to_be_added_f.Exec.Keeps.{Keeps, Keeps-modify}
use fg_details_to_be_added_f.Prisma.{Prisma, PrismaLaws, id}
use fg_details_to_be_added_f.Accounts.State.{
  User, RefreshToken, Config, Moment, Crypto, AccountException, Changes, AccountDb,
}
use fg_details_to_be_added_f.Accounts.{change_user, revoke, is_open_session, revoke_all_sessions}
use fg_details_to_be_added_f.Accounts.Tokens.{create_token}
use fg_details_to_be_added_f.Accounts.Sessions.{retire, end_session, change_token}
use fg_details_to_be_added_f.Accounts.Admin.{CreateUser, record_audit, store_user}
use fg_details_to_be_added_f.Accounts.Writes.{KeepsWrites}
use fg_details_to_be_added_f.Accounts.Progress.{
  TokenGoesOn, UserGoesOn, GoOn, GoOn-refl, update-GoOn, update_many-GoOn, update_where-GoOn,
  create-GoOn,
}

-- The rows of an earlier time are there, in later versions.
pub record IsAfter (p : Prisma) (s t : AccountDb p) : Type 0 where
  pub users : GoOn p UserGoesOn s.users t.users
  pub tokens : GoOn p TokenGoesOn s.refresh_tokens t.refresh_tokens

pub TokenGoesOn-refl : (t : RefreshToken) → TokenGoesOn t t
TokenGoesOn-refl t = (refl, λ h. h)

pub UserGoesOn-refl : (u : User) → UserGoesOn u u
UserGoesOn-refl u = (refl, omega arith)

TokenGoesOn-trans : (a b c : RefreshToken) → TokenGoesOn a b → TokenGoesOn b c → TokenGoesOn a c
TokenGoesOn-trans a b c (e, h) (f, k) = (f ∙ e, λ x. k (h x))

UserGoesOn-trans : (a b c : User) → UserGoesOn a b → UserGoesOn b c → UserGoesOn a c
UserGoesOn-trans a b c (e, h) (f, k) = (f ∙ e, omega (arith, h, k))

module _ (p : Prisma) where
  pub IsAfter-refl : (s : AccountDb p) → IsAfter p s s
  IsAfter-refl s = record {
    users = GoOn-refl p UserGoesOn UserGoesOn-refl s.users;
    tokens = GoOn-refl p TokenGoesOn TokenGoesOn-refl s.refresh_tokens;
  }

  pub IsAfter-trans : {s t u : AccountDb p} → IsAfter p s t → IsAfter p t u → IsAfter p s u
  IsAfter-trans a b = record {
    users = λ k x found.
        let (y, found', h) = a.users k x found in
        let (z, found'', h') = b.users k y found' in (z, found'', UserGoesOn-trans x y z h h');
    tokens = λ k x found.
        let (y, found', h) = a.tokens k x found in
        let (z, found'', h') = b.tokens k y found' in (z, found'', TokenGoesOn-trans x y z h h');
  }

  module _ (laws : PrismaLaws p) (s₀ : AccountDb p) where
    abbrev pub KeepsAfter : {A : Type 0} → Exec AccountException (AccountDb p) A → Type 0
    KeepsAfter m = Keeps (IsAfter p s₀) m

    pub change_user-Keeps :
        (uid : String) (f : User → User)
        → ((u : User) → UserGoesOn u (f u))
        → KeepsAfter (change_user p uid f)
    change_user-Keeps uid f h = Keeps-modify _ (λ s before. IsAfter-trans before (record {
      users = update-GoOn p UserGoesOn UserGoesOn-refl laws (id uid) f s.users h;
      tokens = GoOn-refl p TokenGoesOn TokenGoesOn-refl s.refresh_tokens;
    }))

    revoke_all-Keeps : (now : ℕ) (uid : String) → KeepsAfter (revoke_all_sessions p now uid)
    revoke_all-Keeps now uid = Keeps-modify _ (λ s before. IsAfter-trans before (record {
      users = GoOn-refl p UserGoesOn UserGoesOn-refl s.users;
      tokens =
          update_many-GoOn p TokenGoesOn TokenGoesOn-refl laws (is_open_session uid) (revoke now)
            s.refresh_tokens (λ t. (refl, λ h. refl));
    }))

    create_token-Keeps :
        (c : Crypto) (cfg : Config) (m : Moment) (row : RefreshToken)
        → KeepsAfter (create_token c cfg m p row)
    unfolding create_token
    create_token-Keeps c cfg m row = record {
      at = λ s before. made s before (p.find_unique (id row.token_hash) s.refresh_tokens) refl;
    }
      where
        made :
            (s : AccountDb p)
            → IsAfter p s₀ s
            → (o : Option RefreshToken) → p.find_unique (id row.token_hash) s.refresh_tokens ≡ o
            → IsAfter p s₀ (create_token c cfg m p row s).1
        made s before (some t) e = rw e before
        made s before none e = rw e (
            IsAfter-trans before (record {
              users = GoOn-refl p UserGoesOn UserGoesOn-refl s.users;
              tokens =
                  create-GoOn p TokenGoesOn TokenGoesOn-refl laws (id row.token_hash) row
                    s.refresh_tokens e;
            }))

    change_token-Keeps :
        (c : Crypto) (cfg : Config) (m : Moment) (hash : String) (f : RefreshToken → RefreshToken)
        → ((t : RefreshToken) → TokenGoesOn t (f t))
        → KeepsAfter (change_token p c cfg m hash f)
    change_token-Keeps c cfg m hash f h = Keeps-modify _ (λ s before. IsAfter-trans before (record {
      users = GoOn-refl p UserGoesOn UserGoesOn-refl s.users;
      tokens = update-GoOn p TokenGoesOn TokenGoesOn-refl laws (id hash) f s.refresh_tokens h;
    }))

    audit-Keeps :
        (actor_id action entity_id : String) (metadata : Changes)
        → KeepsAfter (record_audit p actor_id action entity_id metadata)
    audit-Keeps actor_id action entity_id metadata =
        Keeps-modify _ (λ s before. record { users = before.users; tokens = before.tokens })

    revoked-Keeps :
        (c : Crypto) (cfg : Config) (m : Moment) (hash : String) (now : ℕ)
        → KeepsAfter (change_token p c cfg m hash (revoke now))
    revoked-Keeps c cfg m hash now =
        change_token-Keeps c cfg m hash (revoke now) (λ t. (refl, λ h. refl))

    retire-Keeps :
        (c : Crypto) (cfg : Config) (m : Moment) (hash : String) (new_row : Option RefreshToken)
        → KeepsAfter (retire p c cfg m hash new_row)
    unfolding retire
    retire-Keeps c cfg m hash new_row = change_token-Keeps c cfg m hash _ (λ t. (refl, λ h. refl))

    end_session-Keeps :
        (c : Crypto) (cfg : Config) (m : Moment) (hash : String)
        → KeepsAfter (end_session p c cfg m hash)
    end_session-Keeps c cfg m hash = Keeps-modify _ (λ s before. IsAfter-trans before (record {
      users = GoOn-refl p UserGoesOn UserGoesOn-refl s.users;
      tokens =
          update_where-GoOn p TokenGoesOn TokenGoesOn-refl laws (id hash)
            (λ t. not (is_some t.revoked_at)) (revoke m.now) s.refresh_tokens
            (λ t. (refl, λ h. refl));
    }))

    store_user-Keeps :
        (c : Crypto) (m : Moment) (dto : CreateUser) (role_ids : List String)
        → KeepsAfter (store_user p c m dto role_ids)
    unfolding store_user
    store_user-Keeps c m dto role_ids = record {
      at = λ s before. IsAfter-trans before (record {
        users =
            create-GoOn p UserGoesOn UserGoesOn-refl laws (id (p.next_id s.users)) _ s.users
              (laws.find_unique-next_id s.users);
        tokens = GoOn-refl p TokenGoesOn TokenGoesOn-refl s.refresh_tokens;
      });
    }

    pub IsAfter-writes : KeepsWrites p (IsAfter p s₀)
    IsAfter-writes = record {
      changing = λ uid f h. change_user-Keeps uid f (λ u. (h.same_id u, h.raises u));
      ending_all = revoke_all-Keeps;
      creating_token = create_token-Keeps;
      revoking = revoked-Keeps;
      retiring = retire-Keeps;
      ending = end_session-Keeps;
      auditing = audit-Keeps;
      storing = store_user-Keeps;
    }
