-- ===== src/Accounts/Tokens.antt =====
-- Issuing tokens: issueTokens of apps/api/src/auth/auth.service.ts.
use fg_details_to_be_added_f.Prelude.{
  ℕ, String, ◌+◌, ◌/◌, not, none, List, is_some, leb, if◌then◌else◌,
}
use fg_details_to_be_added_f.Records.{UserRole}
use fg_details_to_be_added_f.Exec.{Exec, ◌>>=◌, ◌>>◌, pure, gets, modify, require}
use fg_details_to_be_added_f.Prisma.{Prisma, id}
use fg_details_to_be_added_f.Inspections.State.{Permission}
use fg_details_to_be_added_f.Accounts.State.{
  User, RefreshToken, AccessClaims, RefreshClaims, Config, RequestMeta, Moment, Crypto,
  AccountException, unique_violation, AccountDb,
}

-- AuthTokens
pub record AuthTokens : Type 0 where
  pub access_token : String
  pub refresh_token : String

-- msToSeconds
abbrev pub ms_to_seconds : ℕ → ℕ
ms_to_seconds ms = let seconds = ms / 1000 in if leb 1 seconds then seconds else 1

module _ (c : Crypto) (cfg : Config) (m : Moment) where
  abbrev pub access_claims : User → List UserRole → List Permission → AccessClaims
  access_claims user roles permissions = record {
    sub = user.id;
    employee_code = user.employee_code;
    full_name = user.full_name;
    roles = roles;
    permissions = permissions;
    auth_version = user.auth_version;
  }

  abbrev pub refresh_claims : User → RefreshClaims
  refresh_claims user = record { sub = user.id; jti = m.uuid; auth_version = user.auth_version }

  -- The two signed tokens.
  abbrev pub signed : User → List UserRole → List Permission → AuthTokens
  signed user roles permissions = record {
    access_token =
        c.sign_access cfg.access_token_secret m.now (ms_to_seconds cfg.access_token_ttl_ms)
          (access_claims user roles permissions);
    refresh_token =
        c.sign_refresh cfg.refresh_token_secret m.now (ms_to_seconds cfg.refresh_token_ttl_ms)
          (refresh_claims user);
  }

  -- The stored row of a refresh token.
  abbrev pub token_row : RequestMeta → User → String → RefreshToken
  token_row meta user token = record {
    user_id = user.id;
    token_hash = c.hash_token token;
    issued_at = m.now;
    expires_at = m.now + cfg.refresh_token_ttl_ms;
    revoked_at = none;
    replaced_by_token_hash = none;
    user_agent = meta.user_agent;
    ip_address = meta.ip;
  }

  module _ (p : Prisma) where
    -- `create` of a row whose unique token hash is taken throws.
    unfoldable pub create_token : RefreshToken → Exec AccountException (AccountDb p) (Unit {0})
    create_token row = do
      taken ← gets (λ s. is_some (p.find_unique (id row.token_hash) s.refresh_tokens))
      require (not taken) unique_violation
      modify (λ s. record s { refresh_tokens = p.create (id row.token_hash) row s.refresh_tokens })

    -- issueTokens
    unfoldable pub issue_tokens :
        RequestMeta
        → User
        → List UserRole
        → List Permission
        → Exec AccountException (AccountDb p) AuthTokens
    unfolding create_token
    issue_tokens meta user roles permissions = do
      create_token (token_row meta user (signed user roles permissions).refresh_token)
      pure (signed user roles permissions)
