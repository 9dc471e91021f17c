-- ===== src/Api/Auth/Session.antt =====
-- src/api/auth.ts: the cookie that a login sets, read back later.
use queue_flow.Base.{
  ℕ, ◌+◌, ◌≡◌, ◌∙◌, refl, ap, Bool, true, false, not, ◌&&◌, ◌||◌, some, [], ◌∷◌, ◌++◌, Text,
  ===_refl, ltb, leb, ◌==◌, is_nil, all, all-append, lacks, split_on, split_on-lacks,
  split_on-append, cut_at-append, is_space, is_solid, trim-solid, decimal, all-decimal, decimal-nil,
  arith,
}
use queue_flow.Api.Auth.{
  Runtime, AuthConfig, session_cookie, session_ttl_ms, same_secret, sign, issue_session, of_pieces,
  is_valid_session, read_part, read_parts, read_cookie, session_of, has_session,
}

-- A lower-case hexadecimal digit.
abbrev pub is_hex_digit : ℕ → Bool
is_hex_digit c = (leb b'0' c && leb c b'9') || (leb b'a' c && leb c b'f')

-- What the code relies on: the digest is hexadecimal and not empty, a text without `%` decodes to
-- itself, and a decimal numeral compares as its number.
module _ (js : Runtime) (cfg : AuthConfig) where
  abbrev pub token : ℕ → Text
  token now = issue_session js cfg now

  -- The Cookie header of a browser that holds the session alone.
  abbrev pub cookie : ℕ → Text
  cookie now = session_cookie ++ (b'=' ∷ token now)

module _ (js : Runtime) (cfg : AuthConfig)
    (hex : (k v : Text) → all is_hex_digit (js.hmac k v) ≡ true)
    (nonempty : (k v : Text) → is_nil (js.hmac k v) ≡ false)
    (plain : (t : Text) → lacks b'%' t ≡ true → js.decode_component t ≡ some t)
    (number : (n t : ℕ) → js.number_gt (decimal n) t ≡ ltb t n) where
  all-weaken :
      (p q : ℕ → Bool) (t : Text)
      → ((c : ℕ) → p c ≡ true → q c ≡ true)
      → all p t ≡ true
      → all q t ≡ true
  all-weaken p q [] h a = refl
  all-weaken p q (c ∷ t) h a = ground (arith, h c, all-weaken p q t h)

  -- A character of a token.
  abbrev is_token_char : ℕ → Bool
  is_token_char c = is_hex_digit c || (c == b'.')

  is_token_char-solid : (c : ℕ) → is_token_char c ≡ true → is_solid c ≡ true
  unfolding is_space
  is_token_char-solid c h = ground arith

  abbrev expiry : ℕ → Text
  expiry now = decimal (now + session_ttl_ms)

  expiry-hex : (now : ℕ) → all is_hex_digit (expiry now) ≡ true
  expiry-hex now = all-decimal is_hex_digit (λ d l. ground arith) (now + session_ttl_ms)

  token-chars : (now : ℕ) → all is_token_char (token js cfg now) ≡ true
  unfolding issue_session sign
  token-chars now =
      all-append is_token_char (expiry now) (b'.' ∷ sign js cfg (expiry now))
        (all-weaken is_hex_digit is_token_char (expiry now) (λ c h. ground arith) (expiry-hex now))
        (all-weaken is_hex_digit is_token_char (sign js cfg (expiry now)) (λ c h. ground arith)
          (hex cfg.session_secret (expiry now)))

  token-lacks : (c now : ℕ) → is_token_char c ≡ false → lacks c (token js cfg now) ≡ true
  token-lacks c now h =
      all-weaken is_token_char (λ x. not (x == c)) (token js cfg now) (λ x k. ground arith)
        (token-chars now)

  hex-lacks : (t : Text) → all is_hex_digit t ≡ true → lacks b'.' t ≡ true
  hex-lacks t h = all-weaken is_hex_digit (λ x. not (x == b'.')) t (λ x k. ground arith) h

  token-pieces :
      (now : ℕ) → split_on b'.' (token js cfg now) ≡ expiry now ∷ sign js cfg (expiry now) ∷ []
  unfolding issue_session sign
  token-pieces now =
      split_on-append b'.' (expiry now) (sign js cfg (expiry now))
        (hex-lacks (expiry now) (expiry-hex now))
      ∙ ap (λ l. expiry now ∷ l)
          (split_on-lacks b'.' (sign js cfg (expiry now))
            (hex-lacks (sign js cfg (expiry now)) (hex cfg.session_secret (expiry now))))

  token-valid :
      (now later : ℕ)
      → is_valid_session js cfg later (token js cfg now) ≡ ltb later (now + session_ttl_ms)
  unfolding is_valid_session of_pieces same_secret sign
  token-valid now later =
      ap (of_pieces js cfg later) (token-pieces now)
      ∙ rw
          (
            decimal-nil (now + session_ttl_ms),
            nonempty cfg.session_secret (expiry now),
            ===_refl (js.sha256 (js.hmac cfg.session_secret (expiry now))),
            number (now + session_ttl_ms) later,
          )
          refl

  append-nil_right : (s t : Text) → is_nil t ≡ false → is_nil (s ++ t) ≡ false
  append-nil_right [] t h = h
  append-nil_right (c ∷ s) t h = refl

  token-nil : (now : ℕ) → is_nil (token js cfg now) ≡ false
  unfolding issue_session
  token-nil now = append-nil_right (expiry now) (b'.' ∷ sign js cfg (expiry now)) refl

  cookie-lacks : (now : ℕ) → lacks b';' (cookie js cfg now) ≡ true
  cookie-lacks now = token-lacks b';' now refl

  session_cookie-solid : all is_solid session_cookie ≡ true
  unfolding is_space
  session_cookie-solid = refl

  read_cookie-issued :
      (now : ℕ)
      → read_cookie js cfg (some (cookie js cfg now)) session_cookie ≡ some (token js cfg now)
  unfolding read_cookie read_parts read_part
  read_cookie-issued now =
      ap (read_parts js cfg session_cookie)
        (split_on-lacks b';' (cookie js cfg now) (cookie-lacks now))
      ∙ ap (λ o. read_part js cfg session_cookie o (some []))
          (cut_at-append b'=' session_cookie (token js cfg now) refl)
      ∙ rw
          (
            trim-solid session_cookie session_cookie-solid,
            ===_refl session_cookie,
            trim-solid (token js cfg now) (
                all-weaken is_token_char is_solid (token js cfg now) is_token_char-solid
                  (token-chars now)),
          )
          (plain (token js cfg now) (token-lacks b'%' now refl))

  -- Where the HMAC is hexadecimal and not empty, a text without a percent sign decodes to
  -- itself, and Number() reads decimal digits: a cookie that a login has set is read back as a
  -- valid session exactly until twelve hours have passed since that login.
  pub has_session-issued :
      (now later : ℕ)
      → has_session js cfg later (some (cookie js cfg now))
        ≡ some (ltb later (now + session_ttl_ms))
  unfolding has_session
  has_session-issued now later =
      ap (session_of js cfg later) (read_cookie-issued now)
      ∙ rw (token-nil now, token-valid now later) refl
