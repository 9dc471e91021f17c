-- ===== src/Types/Validate.antt =====
-- src/shared/types.ts: validatePayload and blockedTarget. `new URL(text)` is an argument: `none`
-- where it throws. Its hostname is ASCII, and so is the lower case here.
pub mod Accepts
use queue_flow.Base.{
  split_on, ℕ, ◌+◌, ◌-◌, ◌*◌, ◌≡◌, ◌↔◌, ◌⊎◌, ◌∙◌, refl, inl, inr, Bool, true, false, not, ◌&&◌,
  ◌||◌, Option, none, some, List, [], ◌∷◌, ◌++◌, Text, codes, ◌===◌, ===_iff, leb, ◌==◌,
  if◌then◌else◌, length, last?, drop_last, arith, Bool-cases, Option-cases,
}
use queue_flow.Json.{
  Number, is_finite, is_negative, is_at_most_zero, Value, undefined, null, bool, num, str, arr, obj,
  property,
}
use queue_flow.Types.{JobType, sleep, always_fail, deliver_webhook, is_digit}

pub record Url : Type 0 where
  pub protocol : Text
  pub hostname : Text

unfoldable pub starts_with : Text → Text → Bool
starts_with [] t = true
starts_with (p ∷ ps) [] = false
starts_with (p ∷ ps) (c ∷ cs) = (p == c) && starts_with ps cs

unfoldable pub ends_with : Text → Text → Bool
ends_with suffix [] = suffix === []
ends_with suffix (c ∷ cs) = (suffix === (c ∷ cs)) || ends_with suffix cs

unfoldable pub lower : ℕ → ℕ
lower c = if leb b'A' c && leb c b'Z' then c + 32 else c

unfoldable pub to_lower_case : Text → Text
unfolding lower
to_lower_case [] = []
to_lower_case (c ∷ cs) = lower c ∷ to_lower_case cs

drop_open : Text → Text
drop_open [] = []
drop_open (c ∷ cs) = if c == b'[' then cs else c ∷ cs

is_close : Option ℕ → Bool
is_close none = false
is_close (some c) = c == b']'

-- `.replace(/^\[|]$/g, "")`
strip_brackets : Text → Text
unfolding drop_open is_close
strip_brackets h = let t = drop_open h in if is_close (last? t) then drop_last t else t

all_digits : Text → Bool
unfolding is_digit
all_digits [] = true
all_digits (c ∷ cs) = is_digit c && all_digits cs

-- `\d{1,3}`
is_octet : Text → Bool
unfolding all_digits
is_octet t = all_digits t && leb 1 (length t) && leb (length t) 3

decimal_from : ℕ → Text → ℕ
decimal_from n [] = n
decimal_from n (c ∷ cs) = decimal_from (10 * n + (c - b'0')) cs

-- `/^(\d{1,3})\.(\d{1,3})\.(\d{1,3})\.(\d{1,3})$/`, the first two groups as numbers.
of_parts : List Text → Option (ℕ × ℕ)
unfolding is_octet decimal_from
of_parts (a ∷ b ∷ c ∷ d ∷ []) =
    if is_octet a && is_octet b && is_octet c && is_octet d
    then some (decimal_from 0 a, decimal_from 0 b)
    else none
of_parts _ = none

pub v4_prefix : Text → Option (ℕ × ℕ)
unfolding of_parts
v4_prefix h = of_parts (split_on b'.' h)

pub blocked_v4 : Option (ℕ × ℕ) → Option Text
blocked_v4 none = none
blocked_v4 (some (a, b)) =
    if (a == 127) || (a == 0)
    then some (codes "loopback")
    else if a == 10
    then some (codes "private network")
    else if (a == 192) && (b == 168)
    then some (codes "private network")
    else if (a == 172) && leb 16 b && leb b 31
    then some (codes "private network")
    else if (a == 169) && (b == 254)
    then some (codes "link-local / cloud metadata")
    else none

pub is_loopback_name : Text → Bool
unfolding ends_with
is_loopback_name h =
    (h === codes "localhost") || ends_with (codes ".localhost") h || ends_with (codes ".local") h

pub is_private_v6 : Text → Bool
unfolding starts_with
is_private_v6 h =
    (h === codes "::1")
    || (h === codes "::")
    || starts_with (codes "fe80:") h
    || starts_with (codes "fc") h
    || starts_with (codes "fd") h

pub blocked_host : Text → Option Text
unfolding is_loopback_name is_private_v6 v4_prefix blocked_v4
blocked_host h =
    if is_loopback_name h
    then some (codes "loopback")
    else if is_private_v6 h
    then some (codes "private IPv6")
    else blocked_v4 (v4_prefix h)

pub normal_host : Text → Text
unfolding strip_brackets to_lower_case
normal_host host = strip_brackets (to_lower_case host)

-- `allow_private` is ALLOW_PRIVATE_TARGETS.
unfoldable pub blocked_target : Bool → Text → Option Text
unfolding blocked_host normal_host
blocked_target true host = none
blocked_target false host = blocked_host (normal_host host)

unfoldable pub invalid_ms : Value → Bool
invalid_ms (num n) = not (is_finite n) || is_negative n
invalid_ms _ = true

unfoldable pub invalid_timeout : Value → Bool
invalid_timeout undefined = false
invalid_timeout (num n) = is_at_most_zero n
invalid_timeout _ = true

unfoldable pub is_object : Value → Bool
is_object (arr xs) = true
is_object (obj fs) = true
is_object _ = false

unfoldable pub check_timeout : Value → Option Text
unfolding invalid_timeout
check_timeout timeout =
    if invalid_timeout timeout
    then some (codes "deliver_webhook payload.timeoutMs must be a positive number")
    else none

unfoldable pub check_blocked : Value → Option Text → Option Text
unfolding check_timeout
check_blocked timeout (some blocked) = some (
    codes "deliver_webhook payload.url points at a "
    ++ (blocked ++ codes " address, which this server will not call"))
check_blocked timeout none = check_timeout timeout

unfoldable pub is_http : Text → Bool
is_http protocol = (protocol === codes "http:") || (protocol === codes "https:")

unfoldable pub check_url : Bool → Value → Option Url → Option Text
unfolding is_http blocked_target check_blocked
check_url allow_private timeout none = some (codes "deliver_webhook payload.url is not a valid URL")
check_url allow_private timeout (some parsed) =
    if not (is_http parsed.protocol)
    then some (codes "deliver_webhook payload.url must be http or https")
    else check_blocked timeout (blocked_target allow_private parsed.hostname)

unfoldable pub check_webhook : Bool → (Text → Option Url) → Value → Value → Option Text
unfolding check_url
check_webhook allow_private parse_url (str url) timeout =
    check_url allow_private timeout (parse_url url)
check_webhook allow_private parse_url _ timeout =
    some (codes "deliver_webhook requires payload.url")

unfoldable pub check_type : Bool → (Text → Option Url) → JobType → Value → Option Text
unfolding invalid_ms check_webhook
check_type allow_private parse_url sleep payload =
    if invalid_ms (property payload (codes "ms"))
    then some (codes "sleep requires payload.ms (a non-negative number)")
    else none
check_type allow_private parse_url always_fail payload = none
check_type allow_private parse_url deliver_webhook payload =
    check_webhook allow_private parse_url (property payload (codes "url"))
      (property payload (codes "timeoutMs"))

unfoldable pub validate_payload : Bool → (Text → Option Url) → JobType → Value → Option Text
unfolding check_type is_object
validate_payload allow_private parse_url type payload =
    if not (is_object payload)
    then some (codes "payload must be an object")
    else check_type allow_private parse_url type payload
