-- ===== src/Accounts/History/Endings.antt =====
-- The changes that end the sessions of a user: a new password, an activation, a deactivation, new roles
-- and a reset password.
use fg_details_to_be_added_f.Prelude.{
  ℕ, String, ◌<◌, ◌≤◌, ◌==◌, ◌≡◌, ◌≢◌, refl, sym, ap, subst, ◌∙◌, Bool, true, false, not, ◌&&◌,
  Option, some, List, [], ◌∷◌, is_some, eq_refl, eqb, arith,
}
use fg_details_to_be_added_f.Records.{UserRole, system_administrator}
use fg_details_to_be_added_f.Exec.{Exec, Outcome, ok, err, ◌>>=◌, ◌>>◌, pure, gets}
use fg_details_to_be_added_f.Exec.Keeps.{Keeps, keeps_rules}
use fg_details_to_be_added_f.Exec.Inversion.{bind-eq-ok, require-eq-ok}
use fg_details_to_be_added_f.Prisma.{Prisma, PrismaLaws, id, change_if}
use fg_details_to_be_added_f.Accounts.State.{
  User, RefreshToken, AccessClaims, Config, RequestMeta, Moment, Crypto, AccountDb,
  AccountException, session_expired, from_to, no_changes, is_active, not_authenticated,
  password_reuse, invalid_current_password, account_inactive, user_not_found, last_active_admin,
}
use fg_details_to_be_added_f.Accounts.{
  roles_of, permissions_of, to_current_user, stored_user, change_user, revoke, is_open_session,
  revoke_all_sessions,
}
use fg_details_to_be_added_f.Accounts.Login.{AuthResult}
use fg_details_to_be_added_f.Accounts.Tokens.{issue_tokens}
use fg_details_to_be_added_f.Accounts.Sessions.{
  with_password, replace_password, change_password, refresh,
}
use fg_details_to_be_added_f.Accounts.Admin.{
  assign_found, resolve_role_ids, known_or_throw, role_writes, given_or, UserSummary, activated,
  deactivated, with_roles, with_reset_password, record_audit, get_user, unless_last_admin,
  assert_not_last_active_admin, is_other_admin, is_active_admin, includes_role, activate,
  deactivate, assign_roles, reset_password,
}
use fg_details_to_be_added_f.Accounts.Reading.{stored_user-eq-ok}
use fg_details_to_be_added_f.Accounts.Guards.{SignedIn, reload_user}
use fg_details_to_be_added_f.Accounts.Writes.{audit-Keeps, issue_tokens-Keeps}
use fg_details_to_be_added_f.Accounts.After.{IsAfter-writes, IsAfter, IsAfter-refl}
use fg_details_to_be_added_f.Accounts.Writes.Admin.{get_user-Keeps}
use fg_details_to_be_added_f.Accounts.History.{Reach, Reach-IsAfter}
use fg_details_to_be_added_f.Accounts.History.Rotation.{revoked-refresh}

module _ (p : Prisma) (uid : String) where
  -- Each session that the user had is over, and the user's auth version is another.
  pub record IsEnded (s s' : AccountDb p) : Type 0 where
    pub sessions :
        (hash : String) (t : RefreshToken)
        → p.find_unique (id hash) s.refresh_tokens ≡ some t
        → t.user_id ≡ uid
        → (t' : RefreshToken) × (p.find_unique (id hash) s'.refresh_tokens ≡ some t')
          × (is_some t'.revoked_at ≡ true)
    pub version :
        (u : User)
        → p.find_unique (id uid) s.users ≡ some u
        → (u' : User) × (p.find_unique (id uid) s'.users ≡ some u')
          × (u.auth_version < u'.auth_version)

  module _ (laws : PrismaLaws p) where
    -- Both writes: a change of the user that raises the version, and the end of the sessions.
    raise_and_revoke :
        (now : ℕ) (f : User → User) (s : AccountDb p)
        → ((u : User) → u.auth_version < (f u).auth_version)
        → IsEnded s ((change_user p uid f >> revoke_all_sessions p now uid) s).1
    raise_and_revoke now f s raises = record {
      sessions = λ hash t found mine. (
        change_if (is_open_session uid) (revoke now) t,
        laws.find_unique-update_many (id hash) (is_open_session uid) (revoke now) s.refresh_tokens
            ∙ rw found refl,
        ended t (rw mine (eq_refl uid)),
      );
      version = λ u found. (
        f u,
        laws.find_unique-update (id uid) (id uid) f s.users ∙ rw (eq_refl uid, found) refl,
        raises u,
      );
    }
      where
        ended :
            (t : RefreshToken)
            → (t.user_id == uid) ≡ true
            → is_some (change_if (is_open_session uid) (revoke now) t).revoked_at ≡ true
        ended t mine = ground arith

    -- What was ended stays so.
    IsEnded-after : {s t u : AccountDb p} → IsEnded s t → IsAfter p t u → IsEnded s u
    IsEnded-after {s} {t} {u} e a = record {
      sessions = λ hash x found mine.
          let (y, found', over) = e.sessions hash x found mine in
          let (z, found'', (same, stays)) = a.tokens (id hash) y found' in (z, found'', stays over);
      version = λ x found.
          let (y, found', more) = e.version x found in
          let (z, found'', (same, grows)) = a.users (id uid) y found' in
          (z, found'', omega (arith, more, grows));
    }

    -- The two writes, and what follows them.
    ends :
        {A : Type 0} (now : ℕ) (f : User → User) (k : Exec AccountException (AccountDb p) A)
        (s s' : AccountDb p) (r : A)
        → ((u : User) → u.auth_version < (f u).auth_version)
        → ((t : AccountDb p) → Keeps (IsAfter p t) k)
        → (change_user p uid f >> revoke_all_sessions p now uid >> k) s ≡ (ok r, s')
        → IsEnded s s'
    ends now f k s s' r raises kept h =
        let t = ((change_user p uid f >> revoke_all_sessions p now uid) s).1 in
        subst (IsEnded s) (ap (λ x. x.1) h)
          (IsEnded-after (raise_and_revoke now f s raises) ((kept t).at t (IsAfter-refl p t)))

    unless-ok :
        {A : Type 0} (c : Crypto) (m : Moment) (test : Bool)
        (k : Exec AccountException (AccountDb p) A) (s s' : AccountDb p) (r : A)
        → (unless_last_admin p c m test uid >> k) s ≡ (ok r, s')
        → k s ≡ (ok r, s')
    unfolding unless_last_admin assert_not_last_active_admin
    unless-ok c m true k s s' r h =
        (require-eq-ok (not (eqb (p.count (is_other_admin p uid s.roles) s.users) 0))
          last_active_admin k h).1
    unless-ok c m false k s s' r h = h

    module _ (c : Crypto) (cfg : Config) (m : Moment) where
      activate-IsEnded :
          (actor_id : String) (s s' : AccountDb p) (r : UserSummary)
          → activate p c m uid actor_id s ≡ (ok r, s')
          → IsEnded s s'
      unfolding activate
      activate-IsEnded actor_id s s' r h =
          let (u, found, rest) = stored_user-eq-ok p uid (user_not_found uid) _ h in
          ends m.now activated
            (record_audit p actor_id "USER_ACTIVATED" uid no_changes >> get_user p uid) s s' r
            (λ q. omega arith)
            (λ t. search (
              keeps_rules,
              audit-Keeps p (IsAfter p t) (IsAfter-writes p laws t),
              get_user-Keeps p (IsAfter p t) (IsAfter-writes p laws t) c m,
            ))
            rest

      deactivate-IsEnded :
          (actor_id : String) (s s' : AccountDb p) (r : UserSummary)
          → deactivate p c m uid actor_id s ≡ (ok r, s')
          → IsEnded s s'
      unfolding deactivate
      deactivate-IsEnded actor_id s s' r h =
          let (u, found, rest) = stored_user-eq-ok p uid (user_not_found uid) _ h in
          ends m.now (deactivated m.now)
            (record_audit p actor_id "USER_DEACTIVATED" uid no_changes >> get_user p uid) s s' r
            (λ q. omega arith)
            (λ t. search (
              keeps_rules,
              audit-Keeps p (IsAfter p t) (IsAfter-writes p laws t),
              get_user-Keeps p (IsAfter p t) (IsAfter-writes p laws t) c m,
            ))
            (unless-ok c m (is_active_admin p s.roles u) _ s s' r rest)

      reset_password-IsEnded :
          (password : Option String) (actor_id : String) (s s' : AccountDb p) (r : String)
          → reset_password p c m uid password actor_id s ≡ (ok r, s')
          → IsEnded s s'
      unfolding reset_password
      reset_password-IsEnded password actor_id s s' r h =
          let (u, found, rest) = stored_user-eq-ok p uid (user_not_found uid) _ h in
          ends m.now (with_reset_password (c.hash m.salt (given_or password m.temporary_password)))
            (record_audit p actor_id "USER_PASSWORD_RESET" uid no_changes
              >> pure (given_or password m.temporary_password))
            s s' r (λ q. omega arith)
            (λ t. search (keeps_rules, audit-Keeps p (IsAfter p t) (IsAfter-writes p laws t))) rest

      replace_password-IsEnded :
          (password : String) (meta : RequestMeta) (s s' : AccountDb p) (r : AuthResult)
          → replace_password p c cfg m uid password meta s ≡ (ok r, s')
          → IsEnded s s'
      unfolding replace_password
      replace_password-IsEnded password meta s s' r h =
          ends m.now (with_password p c cfg m password) (fresh_tokens meta) s s' r
            (λ q. omega arith)
            (λ t.
              search (keeps_rules, issue_tokens-Keeps p (IsAfter p t) (IsAfter-writes p laws t))
                depth 14)
            h
        where
          fresh_tokens : RequestMeta → Exec AccountException (AccountDb p) AuthResult
          fresh_tokens meta = do
            reloaded ← stored_user p not_authenticated uid
            roles ← gets (roles_of p reloaded)
            permissions ← gets (permissions_of p reloaded)
            tokens ← issue_tokens c cfg m p meta reloaded roles permissions
            pure (record {
              user = to_current_user reloaded roles permissions reloaded.last_login_at;
              tokens = tokens;
            })

      change_password-IsEnded :
          (current new : String) (meta : RequestMeta) (s s' : AccountDb p) (r : AuthResult)
          → change_password p c cfg m uid current new meta s ≡ (ok r, s')
          → IsEnded s s'
      unfolding change_password
      change_password-IsEnded current new meta s s' r h =
          let (u, found, rest) = stored_user-eq-ok p uid not_authenticated _ h in
          let rest' = (require-eq-ok (is_active u.status) account_inactive _ rest).1 in
          let rest'' =
            (require-eq-ok (c.compare current u.password_hash) invalid_current_password _
              rest').1 in
          replace_password-IsEnded new meta s s' r
            (require-eq-ok (not (c.compare new u.password_hash)) password_reuse _ rest'').1

      resolve-state : (names : List UserRole) (s : AccountDb p) → (resolve_role_ids p names s).1 ≡ s
      unfolding resolve_role_ids known_or_throw
      resolve-state [] s = refl
      resolve-state (name ∷ rest) s = ground arith

      assign_found-IsEnded :
          (names : List UserRole) (actor_id : String) (existing : User) (ids : List String)
          (s s' : AccountDb p) (r : UserSummary)
          → assign_found p c m uid names actor_id existing ids s ≡ (ok r, s')
          → IsEnded s s'
      unfolding assign_found
      assign_found-IsEnded names actor_id existing ids s s' r h =
          let rest =
            unless-ok c m
              (is_active_admin p s.roles existing && not (includes_role names system_administrator))
              _ s s' r h in
          ends m.now (with_roles ids)
            (record_audit p actor_id "USER_ROLES_CHANGED" uid
                (from_to (roles_of p existing s) names)
              >> get_user p uid)
            s s' r (λ q. omega arith)
            (λ t. search (
              keeps_rules,
              audit-Keeps p (IsAfter p t) (IsAfter-writes p laws t),
              get_user-Keeps p (IsAfter p t) (IsAfter-writes p laws t) c m,
            ))
            (rw (laws.transaction_lem (role_writes p c m uid ids) s) at rest)

      assign_roles-IsEnded :
          (names : List UserRole) (actor_id : String) (s s' : AccountDb p) (r : UserSummary)
          → assign_roles p c m uid names actor_id s ≡ (ok r, s')
          → IsEnded s s'
      unfolding assign_roles
      assign_roles-IsEnded names actor_id s s' r h =
          let (existing, found, rest) = stored_user-eq-ok p uid (user_not_found uid) _ h in
          let (ids, t, resolved, ran) = bind-eq-ok (resolve_role_ids p names) _ rest in
          let same : t ≡ s = sym (ap (λ x. x.1) resolved) ∙ resolve-state names s in
          subst (λ x. IsEnded x s') same
            (assign_found-IsEnded names actor_id existing ids t s' r ran)

  -- The requests that end a user's sessions; what they return is left out.
  pub data SecurityChange : Type 0 where
    new_password : String → String → RequestMeta → SecurityChange
    activation deactivation : String → SecurityChange
    new_roles : List UserRole → String → SecurityChange
    reset : Option String → String → SecurityChange

  abbrev pub ReturnsFrom :
      {A : Type 0} → Outcome AccountException A × AccountDb p → AccountDb p → Type 0
  ReturnsFrom {A} r s' = (a : A) × (r ≡ (ok a, s'))

  module _ (c : Crypto) (cfg : Config) (m : Moment) where
    -- The request returns, and leaves the second database.
    abbrev pub Makes : SecurityChange → AccountDb p → AccountDb p → Type 0
    Makes (new_password current new meta) s s' =
        ReturnsFrom (change_password p c cfg m uid current new meta s) s'
    Makes (activation actor_id) s s' = ReturnsFrom (activate p c m uid actor_id s) s'
    Makes (deactivation actor_id) s s' = ReturnsFrom (deactivate p c m uid actor_id s) s'
    Makes (new_roles names actor_id) s s' = ReturnsFrom (assign_roles p c m uid names actor_id s) s'
    Makes (reset password actor_id) s s' =
        ReturnsFrom (reset_password p c m uid password actor_id s) s'

    change-IsEnded :
        (laws : PrismaLaws p) (change : SecurityChange) (s s' : AccountDb p)
        → Makes change s s'
        → IsEnded s s'
    change-IsEnded laws (new_password current new meta) s s' (r, h) =
        change_password-IsEnded laws c cfg m current new meta s s' r h
    change-IsEnded laws (activation actor_id) s s' (r, h) =
        activate-IsEnded laws c cfg m actor_id s s' r h
    change-IsEnded laws (deactivation actor_id) s s' (r, h) =
        deactivate-IsEnded laws c cfg m actor_id s s' r h
    change-IsEnded laws (new_roles names actor_id) s s' (r, h) =
        assign_roles-IsEnded laws c cfg m names actor_id s s' r h
    change-IsEnded laws (reset password actor_id) s s' (r, h) =
        reset_password-IsEnded laws c cfg m password actor_id s s' r h

    outdated-reload_user :
        (payload : AccessClaims) (s : AccountDb p) (u : User) (r : SignedIn)
        → p.find_unique (id payload.sub) s.users ≡ some u
        → payload.auth_version < u.auth_version
        → (reload_user p c cfg m payload s).0 ≢ ok r
    unfolding reload_user
    outdated-reload_user payload s u r found older e = ground arith

  -- Given the laws of the database client: once a user has got a new password, a reset password or new
  -- roles, or was activated or deactivated, every session that the user had before is over, whatever
  -- requests come after. A refresh token of the user that was stored before is not exchanged, and an
  -- access token of the user with an auth version up to the one before is not let in.
  pub changed-shuts_out :
      (c : Crypto) (laws : PrismaLaws p) (cfg cfg' : Config) (m m' : Moment)
      (change : SecurityChange) (s s' s'' : AccountDb p) (u : User) (raw : String)
      (meta : RequestMeta) (t : RefreshToken) (payload : AccessClaims) (r : SignedIn)
      → Makes c cfg m change s s'
      → Reach p c s' s''
      → p.find_unique (id uid) s.users ≡ some u
      → p.find_unique (id (c.hash_token raw)) s.refresh_tokens ≡ some t
      → t.user_id ≡ uid
      → payload.sub ≡ uid
      → payload.auth_version ≤ u.auth_version
      → (refresh p c cfg' m' (some raw) meta s'' ≡ (err session_expired, s''))
        × ((reload_user p c cfg' m' payload s'').0 ≢ ok r)
  changed-shuts_out c laws cfg cfg' m m' change s s' s'' u raw meta t payload r done between found
        stored mine same older =
      let ended =
        IsEnded-after laws (change-IsEnded c cfg m laws change s s' done)
          (Reach-IsAfter p c laws s' s'' between) in
      let (u', found', newer) = ended.version u found in
      (
        revoked-refresh p c cfg' m' raw meta s'' (ended.sessions (c.hash_token raw) t stored mine),
        outdated-reload_user c cfg' m' payload s'' u' r (rw same found')
            (omega (arith, older, newer)),
      )
