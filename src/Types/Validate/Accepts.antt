-- ===== src/Types/Validate/Accepts.antt =====
-- src/shared/types.ts: what validatePayload lets through.
use queue_flow.Base.{
  ◌≡◌, ◌↔◌, ◌∙◌, ap, sym, refl, Bool, true, false, Option, none, some, Text, codes, arith,
}
use queue_flow.Json.{Value, undefined, null, bool, num, str, arr, obj, property}
use queue_flow.Types.{deliver_webhook}
use queue_flow.Types.Validate.{
  Url, is_http, blocked_target, invalid_timeout, is_object, check_timeout, check_blocked, check_url,
  check_webhook, check_type, validate_payload,
}

-- A webhook that the code may call.
pub record Callable (allow_private : Bool) (parse_url : Text → Option Url) (payload : Value)
    : Type 0 where
  pub url : Text
  pub parsed : Url
  pub given : property payload (codes "url") ≡ str url
  pub parses : parse_url url ≡ some parsed
  pub http : is_http parsed.protocol ≡ true
  pub reachable : blocked_target allow_private parsed.hostname ≡ none
  pub timeout : invalid_timeout (property payload (codes "timeoutMs")) ≡ false

check_blocked_iff :
    (t : Value) (o : Option Text)
    → (check_blocked t o ≡ none) ↔ ((o ≡ none) × (invalid_timeout t ≡ false))
unfolding check_blocked check_timeout
check_blocked_iff t none = ground arith
check_blocked_iff t (some b) = ground arith

check_url_iff :
    (allow_private : Bool) (t : Value) (u : Url)
    → (check_url allow_private t (some u) ≡ none) ↔ (
        (is_http u.protocol ≡ true)
        × (blocked_target allow_private u.hostname ≡ none)
        × (invalid_timeout t ≡ false))
unfolding check_url
check_url_iff allow_private t u =
    ground (arith, check_blocked_iff t (blocked_target allow_private u.hostname))

is_object-url : (p : Value) (u : Text) → property p (codes "url") ≡ str u → is_object p ≡ true
unfolding property is_object
is_object-url undefined u e = cc
is_object-url null u e = cc
is_object-url (bool b) u e = cc
is_object-url (num n) u e = cc
is_object-url (str s) u e = cc
is_object-url (arr xs) u e = refl
is_object-url (obj fs) u e = refl

module _ (allow_private : Bool) (parse_url : Text → Option Url) where
  url-Callable :
      (payload : Value) (url : Text) (o : Option Url)
      → property payload (codes "url") ≡ str url
      → parse_url url ≡ o
      → check_url allow_private (property payload (codes "timeoutMs")) o ≡ none
      → Callable allow_private parse_url payload
  unfolding check_url
  url-Callable payload url none given p e = cc
  url-Callable payload url (some u) given p e =
      let (h, b, t) = (check_url_iff allow_private (property payload (codes "timeoutMs")) u).0 e in
      record {
        url = url;
        parsed = u;
        given = given;
        parses = p;
        http = h;
        reachable = b;
        timeout = t;
      }

  webhook-Callable :
      (payload url : Value)
      → property payload (codes "url") ≡ url
      → check_webhook allow_private parse_url url (property payload (codes "timeoutMs")) ≡ none
      → Callable allow_private parse_url payload
  unfolding check_webhook
  webhook-Callable payload (str url) given e = url-Callable payload url (parse_url url) given refl e
  webhook-Callable payload undefined given e = cc
  webhook-Callable payload null given e = cc
  webhook-Callable payload (bool b) given e = cc
  webhook-Callable payload (num n) given e = cc
  webhook-Callable payload (arr xs) given e = cc
  webhook-Callable payload (obj fs) given e = cc

  object_checked :
      (payload : Value)
      → is_object payload ≡ true
      → validate_payload allow_private parse_url deliver_webhook payload
        ≡ check_webhook allow_private parse_url
            (property payload (codes "url"))
            (property payload (codes "timeoutMs"))
  unfolding validate_payload check_type
  object_checked payload o = ground (arith, o)

  object_needed :
      (payload : Value)
      → validate_payload allow_private parse_url deliver_webhook payload ≡ none
      → is_object payload ≡ true
  unfolding validate_payload
  object_needed payload e = ground arith

  -- For every payload: validatePayload accepts it for deliver_webhook exactly when its url is
  -- a string that parses as a URL with the protocol http: or https: and with a host that is
  -- not blocked, and its timeoutMs is absent or a number that is not zero or less.
  pub validate_payload-webhook_iff :
      (payload : Value)
      → (validate_payload allow_private parse_url deliver_webhook payload ≡ none)
        ↔ Callable allow_private parse_url payload
  unfolding check_webhook
  validate_payload-webhook_iff payload = (
    λ e.
        webhook-Callable payload (property payload (codes "url")) refl
          (sym (object_checked payload (object_needed payload e)) ∙ e),
    λ c.
        object_checked payload (is_object-url payload c.url c.given)
        ∙ ap (λ u. check_webhook allow_private parse_url u (property payload (codes "timeoutMs")))
            c.given
        ∙ ap (check_url allow_private (property payload (codes "timeoutMs"))) c.parses
        ∙ (check_url_iff allow_private (property payload (codes "timeoutMs")) c.parsed).1
            (c.http, c.reachable, c.timeout),
  )
