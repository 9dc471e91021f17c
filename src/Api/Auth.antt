-- ===== src/Api/Auth.antt =====
-- src/api/auth.ts, and the login routes of src/api/index.ts. Hashes, percent decoding and the
-- comparison `Number(text) > n` are arguments. timingSafeEqual compares two digests of one length.
-- One request reads one time, since nothing in it waits.
pub mod Throttle
pub mod Session
pub mod Writes
use queue_flow.Base.{
  ℕ, ◌+◌, ◌-◌, ◌*◌, Bool, true, false, not, ◌&&◌, ◌||◌, Option, none, some, List, [], ◌∷◌, ◌++◌,
  Text, codes, ◌===◌, ltb, leb, if◌then◌else◌, is_nil, split_on, cut_at, trim, after_prefix,
  decimal,
}
use queue_flow.Json.{Value, str}

pub record Runtime : Type 0 where
  pub sha256 : Text → Text
  pub hmac : Text → Text → Text  -- the hex digest of a value under a secret
  pub decode_component : Text → Option Text  -- `none`: URIError
  pub number_gt : Text → ℕ → Bool

pub record AuthConfig : Type 0 where
  pub api_keys : List Text
  pub admin_password : Text
  pub session_secret : Text

-- API_KEYS: the environment's value split at commas, trimmed, without the empty parts.
pub keep_keys : List Text → List Text
keep_keys [] = []
keep_keys (k ∷ ks) = let rest = keep_keys ks in if is_nil (trim k) then rest else trim k ∷ rest

pub parse_keys : Text → List Text
unfolding keep_keys
parse_keys text = keep_keys (split_on b',' text)

abbrev pub session_cookie : Text
session_cookie = codes "qf_session"

abbrev pub session_ttl_ms : ℕ
session_ttl_ms = 12 * 60 * 60 * 1000

abbrev pub has_keys : List Text → Bool
has_keys [] = false
has_keys (k ∷ ks) = true

abbrev pub login_enabled : AuthConfig → Bool
login_enabled cfg = not (is_nil cfg.admin_password)

unfoldable pub auth_disabled : AuthConfig → Bool
auth_disabled cfg = not (has_keys cfg.api_keys) && not (login_enabled cfg)

-- The entry of an address in the map of failed logins.
pub record Entry : Type 0 where
  pub count : ℕ
  pub first_at : ℕ

abbrev pub Attempts : Type 0
Attempts = Text → Option Entry

abbrev pub set_entry : Text → Option Entry → Attempts → Attempts
set_entry ip e m j = if ip === j then e else m j

abbrev pub max_attempts : ℕ
max_attempts = 5

abbrev pub attempt_window_ms : ℕ
attempt_window_ms = 15 * 60 * 1000

abbrev pub is_stale : ℕ → Entry → Bool
is_stale now e = ltb attempt_window_ms (now - e.first_at)

unfoldable pub is_throttled : ℕ → Text → Attempts → Attempts × Bool
is_throttled now ip m = elim (m ip) [
  | none ↦ (m, false)
  | some e ↦ if is_stale now e then (set_entry ip none m, false) else (m, leb max_attempts e.count)
]

unfoldable pub next_entry : ℕ → Option Entry → Entry
next_entry now none = record { count = 1; first_at = now }
next_entry now (some e) =
    if is_stale now e
    then record { count = 1; first_at = now }
    else record e { count = e.count + 1 }

unfoldable pub record_failure : ℕ → Text → Attempts → Attempts
unfolding next_entry
record_failure now ip m = set_entry ip (some (next_entry now (m ip))) m

abbrev pub clear_failures : Text → Attempts → Attempts
clear_failures ip m = set_entry ip none m

abbrev pub header_text : Option Text → Text
header_text none = []
header_text (some h) = h

abbrev pub bearer_of : Option Text → Text
bearer_of none = []
bearer_of (some rest) = trim rest

unfoldable pub bearer_token : Option Text → Text
bearer_token authorization = bearer_of (after_prefix (codes "Bearer ") (header_text authorization))

pub data Verdict : Type 0 where
  allowed unauthorized broken : Verdict  -- next(), 401, 500

abbrev pub verdict_of : Option Bool → Verdict
verdict_of none = broken
verdict_of (some true) = allowed
verdict_of (some false) = unauthorized

pub data LoginReply : Type 0 where
  too_many wrong_password : LoginReply  -- 429, 401
  signed_in : Text → LoginReply  -- 200, with the cookie's value

pub record Me : Type 0 where
  pub authenticated : Bool
  pub login_enabled : Bool
  pub write_open : Bool

module _ (js : Runtime) (cfg : AuthConfig) where
  unfoldable pub same_secret : Text → Text → Bool
  same_secret a b = js.sha256 a === js.sha256 b

  pub is_known : List Text → Text → Bool
  is_known [] token = false
  is_known (k ∷ ks) token = (js.sha256 token === js.sha256 k) || is_known ks token

  pub sign : Text → Text
  sign value = js.hmac cfg.session_secret value

  unfoldable pub issue_session : ℕ → Text
  unfolding sign
  issue_session now = let expiry = decimal (now + session_ttl_ms) in expiry ++ (b'.' ∷ sign expiry)

  pub of_pieces : ℕ → List Text → Bool
  unfolding same_secret sign
  of_pieces now (expiry ∷ signature ∷ rest) =
      not (is_nil expiry || is_nil signature)
      && same_secret signature (sign expiry)
      && js.number_gt expiry now
  of_pieces now _ = false

  unfoldable pub is_valid_session : ℕ → Text → Bool
  unfolding of_pieces
  is_valid_session now token = of_pieces now (split_on b'.' token)

  -- One part of the cookie header; `later` is what the parts after it give.
  pub read_part : Text → Option (Text × Text) → Option Text → Option Text
  read_part name none later = later
  read_part name (some (key, value)) later =
      if trim key === name then js.decode_component (trim value) else later

  pub read_parts : Text → List Text → Option Text
  unfolding read_part
  read_parts name [] = some []
  read_parts name (part ∷ parts) = read_part name (cut_at b'=' part) (read_parts name parts)

  -- `none`: decodeURIComponent throws, and the request ends in the error handler.
  unfoldable pub read_cookie : Option Text → Text → Option Text
  unfolding read_parts
  read_cookie header name = read_parts name (split_on b';' (header_text header))

  abbrev pub session_of : ℕ → Option Text → Option Bool
  session_of now none = none
  session_of now (some token) = some (not (is_nil token) && is_valid_session now token)

  unfoldable pub has_session : ℕ → Option Text → Option Bool
  unfolding read_cookie
  has_session now cookie = session_of now (read_cookie cookie session_cookie)

  unfoldable pub is_correct_password : Text → Bool
  unfolding same_secret
  is_correct_password password =
      if not (login_enabled cfg) || is_nil password
      then false
      else same_secret password cfg.admin_password

  unfoldable pub require_write : ℕ → Option Text → Option Text → Verdict
  unfolding is_known bearer_token
  require_write now authorization cookie =
      let token = bearer_token authorization in
      if auth_disabled cfg
      then allowed
      else if not (is_nil token) && is_known cfg.api_keys token
      then allowed
      else verdict_of (has_session now cookie)

  unfoldable pub is_accepted : Value → Bool
  is_accepted (str password) = is_correct_password password
  is_accepted _ = false

  answer_login : ℕ → Text → Attempts → Bool → Attempts × LoginReply
  answer_login now ip m true = (clear_failures ip m, signed_in (issue_session now))
  answer_login now ip m false = (record_failure now ip m, wrong_password)

  checked_login : ℕ → Text → Value → Attempts × Bool → Attempts × LoginReply
  unfolding is_accepted answer_login
  checked_login now ip password (m, true) = (m, too_many)
  checked_login now ip password (m, false) = answer_login now ip m (is_accepted password)

  -- POST /auth/login, with the `password` of the body.
  unfoldable pub login : ℕ → Text → Value → Attempts → Attempts × LoginReply
  unfolding checked_login
  login now ip password m = checked_login now ip password (is_throttled now ip m)

  abbrev pub me_of : Option Bool → Option Me
  me_of none = none
  me_of (some b) = some (record {
    authenticated = b;
    login_enabled = login_enabled cfg;
    write_open = auth_disabled cfg;
  })

  -- GET /auth/me; `none` is 500.
  unfoldable pub auth_me : ℕ → Option Text → Option Me
  auth_me now cookie = me_of (has_session now cookie)
