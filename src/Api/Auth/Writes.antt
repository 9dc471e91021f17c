-- ===== src/Api/Auth/Writes.antt =====
-- src/api/auth.ts: who may write.
use queue_flow.Base.{
  ℕ, ◌≡◌, ◌↔◌, ◌⊎◌, ◌∙◌, refl, ap, inl, inr, Bool, true, false, Option, none, some, List, [], ◌∷◌,
  ◌++◌, Text, codes, ◌===◌, ===_iff, ===_refl, is_nil, all, is_solid, trim-solid,
  after_prefix-append, Bool-cases, arith,
}
use queue_flow.Store.Redis.{contains}
use queue_flow.Api.Auth.{
  Runtime, AuthConfig, allowed, auth_disabled, is_known, bearer_of, bearer_token, verdict_of,
  has_session, require_write,
}

bearer_token-key :
    (key : Text) → all is_solid key ≡ true → bearer_token (some (codes "Bearer " ++ key)) ≡ key
unfolding bearer_token
bearer_token-key key s = ap bearer_of (after_prefix-append (codes "Bearer ") key) ∙ trim-solid key s

module _ (js : Runtime) (cfg : AuthConfig) where
  -- No configured key collides with this token.
  abbrev pub Apart : Text → Type 0
  Apart token =
      (k : Text) → contains k cfg.api_keys ≡ true → js.sha256 token ≡ js.sha256 k → token ≡ k

  is_known-contains :
      (keys : List Text) (token : Text)
      → contains token keys ≡ true
      → is_known js cfg keys token ≡ true
  unfolding is_known contains
  is_known-contains [] token h = cc
  is_known-contains (k ∷ ks) token h =
      ground (
        arith,
        ===_iff token k,
        ===_iff (js.sha256 token) (js.sha256 k),
        is_known-contains ks token,
      )

  contains-is_known :
      (keys : List Text) (token : Text)
      → ((k : Text) → contains k keys ≡ true → js.sha256 token ≡ js.sha256 k → token ≡ k)
      → is_known js cfg keys token ≡ true
      → contains token keys ≡ true
  unfolding is_known contains
  contains-is_known [] token apart h = cc
  contains-is_known (k ∷ ks) token apart h = elim (Bool-cases (js.sha256 token === js.sha256 k)) [
    | inl e ↦
        let same : token ≡ k =
          apart k (rw (===_refl k) refl) ((===_iff (js.sha256 token) (js.sha256 k)).0 e) in
        rw ((===_iff token k).1 same) refl
    | inr e ↦
        let found =
          contains-is_known ks token (λ j c. apart j (rw c (ground arith)))
            (ground (arith, h, e)) in
        rw found (ground arith)
  ]

  verdict_of_iff : (o : Option Bool) → (verdict_of o ≡ allowed) ↔ (o ≡ some true)
  verdict_of_iff none = ground arith
  verdict_of_iff (some true) = ground arith
  verdict_of_iff (some false) = ground arith

  -- Where the bearer token collides with no configured key under SHA-256: requireWrite lets a
  -- request through exactly when authentication is off, or its bearer token is not empty and
  -- is one of the configured keys, or its cookie holds a valid session.
  pub require_write_iff :
      (now : ℕ) (authorization cookie : Option Text)
      → Apart (bearer_token authorization)
      → (require_write js cfg now authorization cookie ≡ allowed) ↔ (
          (auth_disabled cfg ≡ true)
          ⊎ (((is_nil (bearer_token authorization) ≡ false)
                × (contains (bearer_token authorization) cfg.api_keys ≡ true))
              ⊎ (has_session js cfg now cookie ≡ some true)))
  unfolding require_write
  require_write_iff now authorization cookie apart = ground (
    arith,
    is_known-contains cfg.api_keys (bearer_token authorization),
    contains-is_known cfg.api_keys (bearer_token authorization) apart,
    verdict_of_iff (has_session js cfg now cookie),
  )

  -- A client that sends a configured key is let in, whatever its cookies.
  pub require_write-bearer :
      (now : ℕ) (key : Text) (cookie : Option Text)
      → contains key cfg.api_keys ≡ true
      → is_nil key ≡ false
      → all is_solid key ≡ true
      → require_write js cfg now (some (codes "Bearer " ++ key)) cookie ≡ allowed
  unfolding require_write
  require_write-bearer now key cookie c n s =
      ground (arith, bearer_token-key key s, is_known-contains cfg.api_keys key)
