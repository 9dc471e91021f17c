-- ===== src/Dashboard/Access.antt =====
-- web/src/auth.ts with src/api/auth.ts: what the dashboard offers, and what the server lets through.
use queue_flow.Base.{
  ℕ, ◌≡◌, ◌↔◌, refl, Bool, true, false, ◌||◌, Option, none, some, Text, is_nil, after_prefix, arith,
}
use queue_flow.Api.Auth.{
  Runtime, AuthConfig, Me, has_session, allowed, bearer_token, require_write, auth_me,
}

-- `canWrite`; `none`: GET /auth/me has not answered with 200.
pub can_write : Option Me → Bool
can_write none = false
can_write (some me) = me.authenticated || me.write_open

module _ (js : Runtime) (cfg : AuthConfig) where
  no_bearer : is_nil (bearer_token none) ≡ true
  unfolding bearer_token after_prefix
  no_bearer = refl

  -- For a request whose cookie can be decoded and that carries no bearer token: the dashboard
  -- offers to write after GET /auth/me exactly when requireWrite lets the request through.
  pub can_write_iff :
      (now : ℕ) (cookie : Option Text) (b : Bool)
      → has_session js cfg now cookie ≡ some b
      → (can_write (auth_me js cfg now cookie) ≡ true)
        ↔ (require_write js cfg now none cookie ≡ allowed)
  unfolding can_write auth_me require_write
  can_write_iff now cookie true e = rw (e, no_bearer) (ground arith)
  can_write_iff now cookie false e = rw (e, no_bearer) (ground arith)
