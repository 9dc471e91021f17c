-- ===== src/Dashboard/Form.antt =====
-- web/src/components/NewJobForm.tsx: the payload of the form and its check before the request.
-- Number(...) and new URL(...) are parameters. A number that JSON cannot write would reach the server
-- as null; the check lets none through.
use queue_flow.Base.{
  ◌≡◌, refl, inl, inr, Bool, true, false, not, ◌&&◌, ◌||◌, Option, none, some, [], ◌∷◌, Text, codes,
  ◌===◌, leb, ◌==◌, if◌then◌else◌, arith, Bool-cases,
}
use queue_flow.Json.{
  Number, is_finite, is_negative, is_at_most_zero, Value, undefined, num, str, obj, field, end,
  property, get_field,
}
use queue_flow.Types.{JobType, sleep, always_fail, deliver_webhook, is_digit}
use queue_flow.Types.Validate.Accepts.{Callable, validate_payload-webhook_iff}
use queue_flow.Types.Validate.{
  Url, starts_with, ends_with, to_lower_case, is_http, is_object, blocked_target, invalid_ms,
  invalid_timeout, check_type, validate_payload,
}

-- The text fields of the form. A missing one is undefined.
pub record Inputs : Type 0 where
  pub ms : Option Text
  pub message : Option Text
  pub url : Option Text
  pub timeout_ms : Option Text

-- `1[6-9]|2\d|3[01]`, and a dot
unfoldable pub is_16_to_31 : Text → Bool
unfolding is_digit
is_16_to_31 (a ∷ b ∷ c ∷ rest) =
    (((a == b'1') && leb b'6' b && leb b b'9')
      || ((a == b'2') && is_digit b)
      || ((a == b'3') && (b == b'0' || b == b'1')))
    && (c == b'.')
is_16_to_31 _ = false

unfoldable pub is_172_private : Text → Bool
unfolding is_16_to_31
is_172_private (a ∷ b ∷ c ∷ d ∷ rest) = ((a ∷ b ∷ c ∷ d ∷ []) === codes "172.") && is_16_to_31 rest
is_172_private _ = false

unfoldable pub is_refused_host : Text → Bool
unfolding ends_with starts_with is_172_private
is_refused_host host =
    (host === codes "localhost")
    || ends_with (codes ".localhost") host
    || (host === codes "::1")
    || starts_with (codes "127.") host
    || starts_with (codes "10.") host
    || starts_with (codes "192.168.") host
    || starts_with (codes "169.254.") host
    || is_172_private host

unfoldable pub or_empty : Option Text → Text
or_empty none = []
or_empty (some t) = t

unfoldable pub or_undefined : Option Text → Value
or_undefined none = undefined
or_undefined (some t) = str t

unfoldable pub check_sleep : Number → Option Text
check_sleep ms =
    if not (is_finite ms) || is_negative ms
    then some (codes "ms must be a non-negative number")
    else none

unfoldable pub check_wait : Number → Option Text
check_wait timeout =
    if not (is_finite timeout) || is_at_most_zero timeout
    then some (codes "timeoutMs must be a positive number")
    else none

unfoldable pub check_parsed : Number → Option Url → Option Text
unfolding is_http is_refused_host to_lower_case check_wait
check_parsed timeout none = some (codes "url is not a valid URL")
check_parsed timeout (some parsed) =
    if not (is_http parsed.protocol)
    then some (codes "url must be http or https")
    else if is_refused_host (to_lower_case parsed.hostname)
    then some (codes "url must be a public address — private and loopback targets are refused")
    else check_wait timeout

check_sleep-valid : (n : Number) → check_sleep n ≡ none → invalid_ms (num n) ≡ false
unfolding check_sleep invalid_ms
check_sleep-valid n e = ground arith

check_wait-valid : (n : Number) → check_wait n ≡ none → invalid_timeout (num n) ≡ false
unfolding check_wait invalid_timeout
check_wait-valid n e = ground arith

check_parsed-parts :
    (t : Number) (u : Url)
    → check_parsed t (some u) ≡ none
    → (is_http u.protocol ≡ true) × (check_wait t ≡ none)
unfolding check_parsed
check_parsed-parts t u e = elim (Bool-cases (is_http u.protocol)) [
  | inr other ↦ let no = rw other at e in cc
  | inl http ↦ elim (Bool-cases (is_refused_host (to_lower_case u.hostname))) [
    | inl refused ↦ let no = rw (http, refused) at e in cc
    | inr fine ↦ (http, rw (http, fine) at e)
  ]
]

module _ (number : Value → Number) (parse_url : Text → Option Url) where
  pub build_payload : JobType → Inputs → Value
  unfolding or_empty or_undefined
  build_payload sleep f = obj (field (codes "ms") (num (number (or_undefined f.ms))) end)
  build_payload always_fail f = obj (field (codes "message") (str (or_empty f.message)) end)
  build_payload deliver_webhook f = obj (
      field (codes "url") (str (or_empty f.url))
        (field (codes "timeoutMs") (num (number (or_undefined f.timeout_ms))) end))

  -- The check reads the fields of the payload that the form has built.
  unfoldable pub check : JobType → Inputs → Option Text
  unfolding check_sleep check_parsed or_empty or_undefined
  check sleep f = check_sleep (number (or_undefined f.ms))
  check always_fail f = none
  check deliver_webhook f =
      let url = or_empty f.url in
      if url === []
      then some (codes "url is required")
      else check_parsed (number (or_undefined f.timeout_ms)) (parse_url url)

  build_payload-url :
      (f : Inputs) → property (build_payload deliver_webhook f) (codes "url") ≡ str (or_empty f.url)
  unfolding build_payload property get_field ◌===◌
  build_payload-url f = refl

  build_payload-timeout :
      (f : Inputs)
      → property (build_payload deliver_webhook f) (codes "timeoutMs")
        ≡ num (number (or_undefined f.timeout_ms))
  unfolding build_payload property get_field ◌===◌
  build_payload-timeout f = refl

  -- The server, too, lets the host of the webhook be called.
  unfoldable pub IsReachable : Bool → JobType → Inputs → Type 0
  IsReachable allow_private deliver_webhook f =
      (u : Url)
      → parse_url (or_empty f.url) ≡ some u
      → blocked_target allow_private u.hostname ≡ none
  IsReachable allow_private _ f = Unit

  check_parsed-Callable :
      (allow_private : Bool) (f : Inputs) (o : Option Url)
      → parse_url (or_empty f.url) ≡ o
      → IsReachable allow_private deliver_webhook f
      → check_parsed (number (or_undefined f.timeout_ms)) o ≡ none
      → Callable allow_private parse_url (build_payload deliver_webhook f)
  unfolding check_parsed IsReachable
  check_parsed-Callable allow_private f none p r e = cc
  check_parsed-Callable allow_private f (some u) p r e = record {
    url = or_empty f.url;
    parsed = u;
    given = build_payload-url f;
    parses = p;
    http = (check_parsed-parts _ u e).0;
    reachable = r u p;
    timeout =
        rw (build_payload-timeout f)
          (check_wait-valid (number (or_undefined f.timeout_ms)) (check_parsed-parts _ u e).1);
  }

  -- For every job type and every content of the form's fields, where the server lets the host
  -- of a webhook be called: a payload that the form's check lets through is accepted by
  -- validatePayload.
  pub check-accepted :
      (allow_private : Bool) (type : JobType) (f : Inputs)
      → IsReachable allow_private type f
      → check type f ≡ none
      → validate_payload allow_private parse_url type (build_payload type f) ≡ none
  unfolding IsReachable check build_payload validate_payload check_type is_object property get_field
      ◌===◌
  check-accepted allow_private sleep f r e =
      rw (check_sleep-valid (number (or_undefined f.ms)) e) refl
  check-accepted allow_private always_fail f r e = refl
  check-accepted allow_private deliver_webhook f r e =
      let parsed : check_parsed (number (or_undefined f.timeout_ms)) (parse_url (or_empty f.url))
          ≡ none =
        ground arith in
      (validate_payload-webhook_iff allow_private parse_url (build_payload deliver_webhook f)).1
        (check_parsed-Callable allow_private f (parse_url (or_empty f.url)) refl r parsed)
