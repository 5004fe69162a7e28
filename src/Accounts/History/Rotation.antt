-- ===== src/Accounts/History/Rotation.antt =====
-- A refresh token can be used once.
use fg_details_to_be_added_f.Prelude.{
  String, ◌≡◌, inl, inr, refl, ap, subst, ◌∙◌, Bool, true, false, not, Option, some, is_some,
  is_truthy, eq_refl, eqb, Bool-cases, Option-cases, arith,
}
use fg_details_to_be_added_f.Exec.{Exec, ok, err, ◌>>◌}
use fg_details_to_be_added_f.Exec.Inversion.{bind-eq-ok}
use fg_details_to_be_added_f.Prisma.{Prisma, PrismaLaws, id, change_if}
use fg_details_to_be_added_f.Accounts.State.{
  User, RefreshToken, RefreshClaims, Verified, claims, token_expired, token_invalid, Config,
  RequestMeta, Moment, Crypto, AccountDb, AccountException, is_active, account_inactive,
  session_expired,
}
use fg_details_to_be_added_f.Accounts.{revoke, roles_of, permissions_of}
use fg_details_to_be_added_f.Accounts.Login.{AuthResult}
use fg_details_to_be_added_f.Accounts.Tokens.{issue_tokens}
use fg_details_to_be_added_f.Accounts.Writes.{issue_tokens-Keeps}
use fg_details_to_be_added_f.Accounts.After.{IsAfter, IsAfter-refl, IsAfter-writes}
use fg_details_to_be_added_f.Accounts.Sessions.{
  is_usable, replaced_by, retire, rotate, refresh_verified, verified_or_throw, refresh, logout,
  end_session, or_revoke,
}
use fg_details_to_be_added_f.Accounts.History.{Reach, Reach-IsAfter}

module _ (p : Prisma) (c : Crypto) where
  -- The session under a token hash is over.
  abbrev pub IsRevoked : String → AccountDb p → Type 0
  IsRevoked hash s =
      (t : RefreshToken) × (p.find_unique (id hash) s.refresh_tokens ≡ some t)
      × (is_some t.revoked_at ≡ true)

  -- A revoked session gives no tokens.
  pub revoked-refresh_verified :
      (cfg : Config) (m : Moment) (hash : String) (meta : RequestMeta) (payload : RefreshClaims)
      (s : AccountDb p)
      → IsRevoked hash s
      → refresh_verified p c cfg m hash meta payload s ≡ (err session_expired, s)
  unfolding refresh_verified
  revoked-refresh_verified cfg m hash meta payload s (t, found, over) = rw found (ground arith)

  pub revoked-refresh :
      (cfg : Config) (m : Moment) (raw : String) (meta : RequestMeta) (s : AccountDb p)
      → IsRevoked (c.hash_token raw) s
      → refresh p c cfg m (some raw) meta s ≡ (err session_expired, s)
  unfolding refresh verified_or_throw refresh_verified
  revoked-refresh cfg m raw meta s over = elim (Bool-cases (is_truthy raw)) [
    | inr blank ↦ rw blank refl
    | inl given ↦ rw given (by (c.verify_refresh cfg.refresh_token_secret m.now raw))
  ]
    where
      by :
          (v : Verified RefreshClaims)
          → verified_or_throw p c cfg m (c.hash_token raw) meta v s ≡ (err session_expired, s)
      by (claims payload) = revoked-refresh_verified cfg m (c.hash_token raw) meta payload s over
      by token_expired = refl
      by token_invalid = refl

  module _ (laws : PrismaLaws p) (cfg : Config) (m : Moment) where
    retire-IsRevoked :
        (hash : String) (new_row : Option RefreshToken) (s : AccountDb p) (t : RefreshToken)
        → p.find_unique (id hash) s.refresh_tokens ≡ some t
        → IsRevoked hash (retire p c cfg m hash new_row s).1
    unfolding retire
    retire-IsRevoked hash new_row s t found = (
      record t { revoked_at = some m.now; replaced_by_token_hash = replaced_by new_row },
      laws.find_unique-update (id hash) (id hash) _ s.refresh_tokens
          ∙ rw (eq_refl hash, found) refl,
      refl,
    )

    rotate-IsRevoked :
        (hash : String) (meta : RequestMeta) (user : User) (s s' : AccountDb p) (t : RefreshToken)
        (r : AuthResult)
        → p.find_unique (id hash) s.refresh_tokens ≡ some t
        → rotate p c cfg m hash meta user s ≡ (ok r, s')
        → IsRevoked hash s'
    unfolding rotate
    rotate-IsRevoked hash meta user s s' t r found h =
        let (tokens, u, issued, rest) =
          bind-eq-ok
            (issue_tokens c cfg m p meta user (roles_of p user s) (permissions_of p user s)) _ h in
        let (t', found', goes_on) =
          (subst (IsAfter p s) (ap (λ x. x.1) issued) (
              (issue_tokens-Keeps p (IsAfter p s) (IsAfter-writes p laws s) c cfg m meta user
                  (roles_of p user s) (permissions_of p user s)).at
                s (IsAfter-refl p s))).tokens
            (id hash) t found in
        subst (IsRevoked hash) (ap (λ x. x.1) rest) (
          retire-IsRevoked hash
            (p.find_unique (id (c.hash_token tokens.refresh_token)) u.refresh_tokens) u t' found')

    -- A run that returns passed both checks.
    past_checks :
        (a b : Bool) (hash : String) (e f : AccountException)
        (k : Exec AccountException (AccountDb p) AuthResult) (s s' : AccountDb p) (r : AuthResult)
        → (or_revoke p c cfg m a hash e >> (or_revoke p c cfg m b hash f >> k)) s ≡ (ok r, s')
        → k s ≡ (ok r, s')
    unfolding or_revoke
    past_checks true true hash e f k s s' r h = h
    past_checks true false hash e f k s s' r h = cc (ap (λ x. x.0) h)
    past_checks false b hash e f k s s' r h = cc (ap (λ x. x.0) h)

    refresh_verified-IsRevoked :
        (hash : String) (meta : RequestMeta) (payload : RefreshClaims) (s s' : AccountDb p)
        (r : AuthResult)
        → refresh_verified p c cfg m hash meta payload s ≡ (ok r, s')
        → IsRevoked hash s'
    unfolding refresh_verified
    refresh_verified-IsRevoked hash meta payload s s' r h =
        elim (Option-cases (p.find_unique (id hash) s.refresh_tokens)) [
          | inl missing ↦ cc (ap (λ x. x.0) (rw missing at h))
          | inr (t, found) ↦ elim (Bool-cases (is_usable m.now payload t)) [
            | inr barred ↦ cc (ap (λ x. x.0) (rw (found, barred) at h))
            | inl usable ↦ elim (Option-cases (p.find_unique (id payload.sub) s.users)) [
              | inl nobody ↦ cc (ap (λ x. x.0) (rw (found, usable, nobody) at h))
              | inr (user, known) ↦ rotate-IsRevoked hash meta user s s' t r found (
                  past_checks (is_active user.status) (eqb payload.auth_version user.auth_version)
                    hash account_inactive session_expired (rotate p c cfg m hash meta user) s s' r
                    (rw (found, usable, known) at h))
            ]
          ]
        ]

    verified-IsRevoked :
        (hash : String) (meta : RequestMeta) (v : Verified RefreshClaims) (s s' : AccountDb p)
        (r : AuthResult)
        → verified_or_throw p c cfg m hash meta v s ≡ (ok r, s')
        → IsRevoked hash s'
    unfolding verified_or_throw refresh_verified
    verified-IsRevoked hash meta (claims payload) s s' r h =
        refresh_verified-IsRevoked hash meta payload s s' r h
    verified-IsRevoked hash meta token_expired s s' r h = cc (ap (λ x. x.0) h)
    verified-IsRevoked hash meta token_invalid s s' r h = cc (ap (λ x. x.0) h)

    refresh-IsRevoked :
        (raw : String) (meta : RequestMeta) (s s' : AccountDb p) (r : AuthResult)
        → refresh p c cfg m (some raw) meta s ≡ (ok r, s')
        → IsRevoked (c.hash_token raw) s'
    unfolding refresh verified_or_throw refresh_verified
    refresh-IsRevoked raw meta s s' r h = elim (Bool-cases (is_truthy raw)) [
      | inr blank ↦ cc (ap (λ x. x.0) (rw blank at h))
      | inl given ↦
          verified-IsRevoked (c.hash_token raw) meta
            (c.verify_refresh cfg.refresh_token_secret m.now raw) s s' r (rw given at h)
    ]

  -- The session stays over, whatever comes after.
  pub Reach-IsRevoked :
      (laws : PrismaLaws p) (hash : String) (s s' : AccountDb p)
      → Reach p c s s'
      → IsRevoked hash s
      → IsRevoked hash s'
  Reach-IsRevoked laws hash s s' between (t, found, over) =
      let (t', found', (same, stays)) =
        (Reach-IsAfter p c laws s s' between).tokens (id hash) t found in
      (t', found', stays over)

  -- Given the laws of the database client: once a refresh token has been exchanged, it is never
  -- exchanged again. Whatever requests of the auth and users services come in between, whatever the
  -- time and the settings are, a second use throws that the session has expired and changes nothing.
  pub refresh-once :
      (laws : PrismaLaws p) (cfg cfg' : Config) (m m' : Moment) (raw : String)
      (meta meta' : RequestMeta) (s s' s'' : AccountDb p) (r : AuthResult)
      → refresh p c cfg m (some raw) meta s ≡ (ok r, s')
      → Reach p c s' s''
      → refresh p c cfg' m' (some raw) meta' s'' ≡ (err session_expired, s'')
  refresh-once laws cfg cfg' m m' raw meta meta' s s' s'' r used between =
      revoked-refresh cfg' m' raw meta' s'' (
        Reach-IsRevoked laws (c.hash_token raw) s' s'' between
          (refresh-IsRevoked laws cfg m raw meta s s' r used))

  ended :
      (laws : PrismaLaws p) (cfg : Config) (m : Moment) (hash : String) (s : AccountDb p)
      (t : RefreshToken)
      → p.find_unique (id hash) s.refresh_tokens ≡ some t
      → IsRevoked hash (end_session p c cfg m hash s).1
  ended laws cfg m hash s t stored = (
    change_if (λ q. not (is_some q.revoked_at)) (revoke m.now) t,
    laws.find_unique-update_where (id hash) (id hash) (λ q. not (is_some q.revoked_at))
          (revoke m.now) s.refresh_tokens
        ∙ rw (eq_refl hash, stored) refl,
    ground arith,
  )

  -- Given the laws of the database client: a logout ends the session of its refresh token for good,
  -- whether or not that token was still in use: whatever comes after, the token is never exchanged.
  pub logout-refresh :
      (laws : PrismaLaws p) (cfg cfg' : Config) (m m' : Moment) (raw : String) (meta : RequestMeta)
      (s s'' : AccountDb p) (t : RefreshToken)
      → p.find_unique (id (c.hash_token raw)) s.refresh_tokens ≡ some t
      → Reach p c (logout p c cfg m (some raw) s).1 s''
      → refresh p c cfg' m' (some raw) meta s'' ≡ (err session_expired, s'')
  unfolding logout refresh
  logout-refresh laws cfg cfg' m m' raw meta s s'' t stored between =
      elim (Bool-cases (is_truthy raw)) [
        | inr blank ↦ rw blank refl
        | inl given ↦ revoked-refresh cfg' m' raw meta s'' (
            Reach-IsRevoked laws (c.hash_token raw) (end_session p c cfg m (c.hash_token raw) s).1
              s'' (rw given at between) (ended laws cfg m (c.hash_token raw) s t stored))
      ]
