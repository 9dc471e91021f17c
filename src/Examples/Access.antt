-- ===== src/Examples/Access.antt =====
-- The results on logins, sessions and write access at concrete requests.
use queue_flow.Base.{
  arith, ℕ, ◌≡◌, ◌↔◌, ◌⊎◌, refl, ap, true, false, none, some, [], ◌∷◌, Text, codes, ◌===◌, ltb,
  is_nil, decimal, value_of, decimal-value,
}
use queue_flow.Json.{str}
use queue_flow.Store.Redis.{contains}
use queue_flow.Api.Auth.{
  auth_me, Runtime, AuthConfig, Attempts, auth_disabled, has_session, bearer_token, require_write,
  allowed, is_accepted, is_correct_password, same_secret,
}
use queue_flow.Api.Auth.Throttle.{Attempt, count_checked, login-five}
use queue_flow.Api.Auth.Session.{cookie, has_session-issued}
use queue_flow.Api.Auth.Writes.{Apart, require_write_iff}
use queue_flow.Dashboard.Access.{can_write, can_write_iff}

abbrev node : Runtime
node = record {
  sha256 = λ t. t;
  hmac = λ key value. codes "7f";
  decode_component = λ t. some t;
  number_gt = λ t n. ltb n (value_of t);
}

abbrev one_key : AuthConfig
one_key = record {
  api_keys = codes "k1" ∷ [];
  admin_password = codes "secret";
  session_secret = codes "pepper";
}

abbrev nobody : Attempts
nobody ip = none

abbrev wrong_at : ℕ → Attempt
wrong_at time = (time, str (codes "guess"))

login-five_example :
    count_checked node one_key
      (codes "10.0.0.1")
      (wrong_at 0
        ∷ wrong_at 1
        ∷ wrong_at 2
        ∷ wrong_at 3
        ∷ wrong_at 4
        ∷ wrong_at 5
        ∷ wrong_at 6
        ∷ [])
      nobody
    ≡ 5
unfolding is_accepted is_correct_password same_secret ◌===◌
login-five_example =
    login-five node one_key (codes "10.0.0.1") (wrong_at 0)
      (wrong_at 1 ∷ wrong_at 2 ∷ wrong_at 3 ∷ wrong_at 4 ∷ wrong_at 5 ∷ wrong_at 6 ∷ []) nobody refl
      (refl, (refl, (refl, (refl, (refl, (refl, (refl, tt)))))))
      (omega arith, (omega arith, (omega arith, (omega arith, (omega arith, (omega arith, tt))))))

number-decimal : (n t : ℕ) → node.number_gt (decimal n) t ≡ ltb t n
number-decimal n t = ap (λ m. ltb t m) (decimal-value n)

has_session-issued_example :
    has_session node one_key 5000 (some (cookie node one_key 1000)) ≡ some true
has_session-issued_example =
    has_session-issued node one_key (λ k v. refl) (λ k v. refl) (λ t h. refl) number-decimal 1000
      5000

node-Apart : (token : Text) → Apart node one_key token
node-Apart token k h e = e

require_write_iff_example :
    (require_write node one_key 1000 (some (codes "Bearer k1")) none ≡ allowed) ↔ (
      (auth_disabled one_key ≡ true)
      ⊎ (((is_nil (bearer_token (some (codes "Bearer k1"))) ≡ false)
            × (contains (bearer_token (some (codes "Bearer k1"))) (codes "k1" ∷ []) ≡ true))
          ⊎ (has_session node one_key 1000 none ≡ some true)))
require_write_iff_example =
    require_write_iff node one_key 1000 (some (codes "Bearer k1")) none
      (node-Apart (bearer_token (some (codes "Bearer k1"))))

can_write_iff_example :
    (can_write (auth_me node one_key 5000 (some (cookie node one_key 1000))) ≡ true)
    ↔ (require_write node one_key 5000 none (some (cookie node one_key 1000)) ≡ allowed)
can_write_iff_example =
    can_write_iff node one_key 5000 (some (cookie node one_key 1000)) true
      has_session-issued_example
