-- ===== src/Accounts/Admission.antt =====
-- Who gets past the guards.
use fg_details_to_be_added_f.Prelude.{
  String, ◌≡◌, inl, inr, refl, sym, ap, subst, ◌∙◌, Bool, true, false, ◌||◌, not, Option, none,
  some, is_truthy, is_empty, includes, eqb, any, Bool-cases, arith,
}
use fg_details_to_be_added_f.Exec.{ok, ◌>>◌, require, pure}
use fg_details_to_be_added_f.Exec.Inversion.{bind-eq-ok, require-eq-ok, gets-eq-ok}
use fg_details_to_be_added_f.Prisma.{Prisma, id}
use fg_details_to_be_added_f.Inspections.Access.{same_role}
use fg_details_to_be_added_f.Accounts.State.{
  is_active, User, AccessClaims, Verified, claims, token_expired, token_invalid, Config, Moment,
  Crypto, password_change_required, forbidden, not_authenticated, account_inactive, session_expired,
  AccountDb,
}
use fg_details_to_be_added_f.Accounts.{roles_of, permissions_of}
use fg_details_to_be_added_f.Accounts.Reading.{stored_user-eq-ok}
use fg_details_to_be_added_f.Accounts.Guards.{
  SignedIn, Route, allowed_when_must_change, grants, signed_in, reload_user, verified_user,
  jwt_auth_guard, password_change_guard, roles_guard, permissions_guard, admit_request,
}

module _ (p : Prisma) (c : Crypto) (cfg : Config) (m : Moment) where
  -- The stored user that a token stands for.
  pub record IsLetIn (token : String) (s : AccountDb p) (user : SignedIn) (u : User) : Type 0 where
    pub payload : AccessClaims
    pub signed : c.verify_access cfg.access_token_secret m.now token ≡ claims payload
    pub found : p.find_unique (id payload.sub) s.users ≡ some u
    pub live : is_active u.status ≡ true
    pub current : payload.auth_version ≡ u.auth_version
    pub same : signed_in p c cfg m u s ≡ user

  reload-IsLetIn :
      (token : String) (payload : AccessClaims) (s s' : AccountDb p) (user : SignedIn)
      → c.verify_access cfg.access_token_secret m.now token ≡ claims payload
      → reload_user p c cfg m payload s ≡ (ok user, s')
      → (s ≡ s') × (u : User) × IsLetIn token s user u
  unfolding reload_user
  reload-IsLetIn token payload s s' user signed h =
      let (u, found, rest) = stored_user-eq-ok p payload.sub not_authenticated _ h in
      let (live, rest') = require-eq-ok (is_active u.status) account_inactive _ rest in
      let (current, rest'') =
        require-eq-ok (eqb payload.auth_version u.auth_version) session_expired _ rest' in
      let (same, unchanged) = gets-eq-ok (signed_in p c cfg m u) rest'' in
      (
        unchanged,
        u,
        record {
          payload = payload;
          signed = signed;
          found = found;
          live = live;
          current = ground arith;
          same = same;
        },
      )

  verified-IsLetIn :
      (token : String) (v : Verified AccessClaims) (s s' : AccountDb p) (user : SignedIn)
      → c.verify_access cfg.access_token_secret m.now token ≡ v
      → verified_user p c cfg m v s ≡ (ok user, s')
      → (s ≡ s') × (u : User) × IsLetIn token s user u
  unfolding verified_user
  verified-IsLetIn token (claims payload) s s' user e h = reload-IsLetIn token payload s s' user e h
  verified-IsLetIn token token_expired s s' user e h = cc (ap (λ x. x.0) h)
  verified-IsLetIn token token_invalid s s' user e h = cc (ap (λ x. x.0) h)

  jwt-IsLetIn :
      (token : String) (s s' : AccountDb p) (user : SignedIn)
      → jwt_auth_guard p c cfg m (some token) s ≡ (ok user, s')
      → (s ≡ s') × (u : User) × IsLetIn token s user u
  unfolding jwt_auth_guard
  jwt-IsLetIn token s s' user h = elim (Bool-cases (is_truthy token)) [
    | inr blank ↦ cc (ap (λ x. x.0) (rw blank at h))
    | inl given ↦
        verified-IsLetIn token (c.verify_access cfg.access_token_secret m.now token) s s' user refl
          (rw given at h)
  ]

  jwt-given :
      (token : Option String) (s s' : AccountDb p) (user : SignedIn)
      → jwt_auth_guard p c cfg m token s ≡ (ok user, s')
      → (given : String) × (token ≡ some given) × (s ≡ s') × (u : User) × IsLetIn given s user u
  unfolding jwt_auth_guard
  jwt-given none s s' user h = cc (ap (λ x. x.0) h)
  jwt-given (some given) s s' user h =
      let (same, u, let_in) = jwt-IsLetIn given s s' user h in (given, refl, same, u, let_in)

  -- The later guards of a user who is signed in.
  past_guards :
      (route : Route) (key : String) (user : SignedIn) (r : Option SignedIn) (s s' : AccountDb p)
      → (password_change_guard p c cfg m key user
            >> (roles_guard p c cfg m route.roles user
                >> (permissions_guard p c cfg m route.mode route.permissions user
                    >> pure (some user))))
          s
        ≡ (ok r, s')
      → (r ≡ some user)
        × (s ≡ s')
        × ((not user.must_change_password || includes allowed_when_must_change key) ≡ true)
        × ((is_empty route.roles
              || any (λ role. any (λ q. same_role q role) user.request_user.roles) route.roles)
            ≡ true)
        × ((is_empty route.permissions
              || grants route.mode route.permissions user.request_user.permissions)
            ≡ true)
  unfolding password_change_guard roles_guard permissions_guard
  past_guards route key user r s s' h =
      by (not user.must_change_password || includes allowed_when_must_change key)
        (is_empty route.roles
          || any (λ role. any (λ q. same_role q role) user.request_user.roles) route.roles)
        (is_empty route.permissions
          || grants route.mode route.permissions user.request_user.permissions)
        h
    where
      by :
          (a b d : Bool)
          → (require a password_change_required
                >> (require b forbidden >> (require d forbidden >> pure (some user))))
              s
            ≡ (ok r, s')
          → (r ≡ some user) × (s ≡ s') × (a ≡ true) × (b ≡ true) × (d ≡ true)
      by true true true h = (cc (sym (ap (λ x. x.0) h)), ap (λ x. x.1) h, refl, refl, refl)
      by true true false h = cc (ap (λ x. x.0) h)
      by true false d h = cc (ap (λ x. x.0) h)
      by false b d h = cc (ap (λ x. x.0) h)

  -- A request that the guards of a route that is not public let through carries a valid access token of a
  -- stored user who is active and whose auth version is the token's. The request gets that user's
  -- roles and permissions as they are stored now, whatever the token says; a user who must change
  -- the password gets to the four allowed routes only; and the stored roles and permissions hold what
  -- the route asks for: one of its roles, and one or all of its permissions. The guards change
  -- nothing.
  pub admit_request-ok :
      (route : Route) (key : String) (token : Option String) (s s' : AccountDb p)
      (r : Option SignedIn)
      → route.is_public ≡ false
      → admit_request p c cfg m route key token s ≡ (ok r, s')
      → (s ≡ s')
        × (given : String) × (token ≡ some given)
        × (u : User) × (user : SignedIn) × (r ≡ some user)
        × IsLetIn given s user u
        × (user.request_user.roles ≡ roles_of p u s)
        × (user.request_user.permissions ≡ permissions_of p u s)
        × ((not u.must_change_password || includes allowed_when_must_change key) ≡ true)
        × ((is_empty route.roles
              || any (λ role. any (λ q. same_role q role) (roles_of p u s)) route.roles)
            ≡ true)
        × ((is_empty route.permissions
              || grants route.mode route.permissions (permissions_of p u s))
            ≡ true)
  unfolding admit_request
  admit_request-ok route key token s s' r closed h =
      let (user, t, authenticated, rest) =
        bind-eq-ok (jwt_auth_guard p c cfg m token) _ (rw closed at h) in
      let (given, carried, unchanged, u, let_in) = jwt-given token s t user authenticated in
      let (returned, kept, changed, role, permission) = past_guards route key user r t s' rest in
      (
        unchanged ∙ kept,
        given,
        carried,
        u,
        user,
        returned,
        let_in,
        ap (λ (x : SignedIn). x.request_user.roles) (sym let_in.same),
        ap (λ (x : SignedIn). x.request_user.permissions) (sym let_in.same),
        subst
            (λ (x : SignedIn).
              (not x.must_change_password || includes allowed_when_must_change key) ≡ true)
            (sym let_in.same) changed,
        subst
            (λ (x : SignedIn).
              (is_empty route.roles
                || any (λ role. any (λ q. same_role q role) x.request_user.roles) route.roles)
              ≡ true)
            (sym let_in.same) role,
        subst
            (λ (x : SignedIn).
              (is_empty route.permissions
                || grants route.mode route.permissions x.request_user.permissions)
              ≡ true)
            (sym let_in.same) permission,
      )
