-- ===== src/Examples/Queries.antt =====
-- The results on the query of the list of jobs at concrete requests.
use queue_flow.Base.{◌≡◌, refl, ap, true, none, some, Text, codes, arith, value_of, decimal-value}
use queue_flow.Json.{Value, str, property, get_field, Number}
use queue_flow.Types.{queued}
use queue_flow.Api.Params.{ok, parse_status}
use queue_flow.Api.Params.Limits.{parse_limit}
use queue_flow.Api.Params.Cursors.{
  Coding, CursorText, cursor_value, encode_cursor, decode_cursor, decode_cursor-encode,
}
use queue_flow.Dashboard.Client.{list_jobs_params}
use queue_flow.Dashboard.Client.Query.{
  query_of, cursor_query, double_of, list_jobs_params-understood,
}

abbrev number_of : Text → Number
number_of t = double_of (value_of t)

abbrev newest : CursorText
newest = record { t = codes "2026-01-02T03:04:05.678Z"; id = codes "a" }

abbrev text_of : Value → Text
text_of (str t) = t
text_of _ = codes ""

abbrev coding : Coding
coding = record {
  stringify = λ v. text_of (property v (codes "t"));
  parse_json = λ s. some (cursor_value (record { t = s; id = codes "a" }));
  to_base64url = λ s. s;
  from_base64url = λ s. s;
  is_date = λ s. true;
}

decode_cursor-encode_example :
    decode_cursor coding (str (encode_cursor coding newest)) ≡ ok (some newest)
unfolding cursor_value property get_field
decode_cursor-encode_example = decode_cursor-encode coding newest (λ s. refl) refl

list_jobs_params-understood_example :
    (parse_limit number_of 20 100
        (query_of (codes "limit") (list_jobs_params (some queued) none 50))
      ≡ ok 50)
    × (parse_status (query_of (codes "status") (list_jobs_params (some queued) none 50))
        ≡ ok (some queued))
    × (query_of (codes "cursor") (list_jobs_params (some queued) none 50) ≡ cursor_query none)
list_jobs_params-understood_example =
    list_jobs_params-understood number_of (some queued) none 50 (ap double_of (decimal-value 50))
      (omega arith) (omega arith)
