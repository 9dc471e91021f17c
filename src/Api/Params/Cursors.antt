-- ===== src/Api/Params/Cursors.antt =====
-- src/api/params.ts: encodeCursor and decodeCursor. JSON, base64url and Date.parse are parameters.
use queue_flow.Base.{◌≡◌, refl, Bool, Option, none, some, Text, codes, ◌===◌, if◌then◌else◌}
use queue_flow.Json.{Value, undefined, str, obj, field, end, property, get_field}
use queue_flow.Api.Params.{Parsed, ok, bad}

pub record Coding : Type 0 where
  pub stringify : Value → Text
  pub parse_json : Text → Option Value  -- `none`: SyntaxError
  pub to_base64url : Text → Text
  pub from_base64url : Text → Text  -- which skips what is no base64
  pub is_date : Text → Bool  -- Date.parse is not NaN

pub record CursorText : Type 0 where
  pub t : Text
  pub id : Text

unfoldable pub cursor_value : CursorText → Value
cursor_value c = obj (field (codes "t") (str c.t) (field (codes "id") (str c.id) end))

pub invalid_cursor : Parsed (Option CursorText)
invalid_cursor = bad (codes "invalid cursor")

pub shape_of : (Text → Bool) → Value → Value → Parsed (Option CursorText)
unfolding invalid_cursor
shape_of is_date (str t) (str id) =
    if is_date t then ok (some (record { t = t; id = id })) else invalid_cursor
shape_of is_date _ _ = invalid_cursor

pub of_json : (Text → Bool) → Option Value → Parsed (Option CursorText)
unfolding shape_of
of_json is_date none = invalid_cursor
of_json is_date (some v) = shape_of is_date (property v (codes "t")) (property v (codes "id"))

module _ (js : Coding) where
  pub encode_cursor : CursorText → Text
  unfolding cursor_value
  encode_cursor c = js.to_base64url (js.stringify (cursor_value c))

  pub decode_cursor : Value → Parsed (Option CursorText)
  unfolding of_json
  decode_cursor undefined = ok none
  decode_cursor (str raw) = of_json js.is_date (js.parse_json (js.from_base64url raw))
  decode_cursor _ = bad (codes "cursor must be a single value")

  -- Where base64url and the JSON of the cursor are read back as they were written:
  -- decodeCursor gives back the cursor that encodeCursor wrote if its time is a date, and
  -- refuses it otherwise.
  pub decode_cursor-encode :
      (c : CursorText)
      → ((s : Text) → js.from_base64url (js.to_base64url s) ≡ s)
      → js.parse_json (js.stringify (cursor_value c)) ≡ some (cursor_value c)
      → decode_cursor (str (encode_cursor c))
        ≡ (if js.is_date c.t then ok (some c) else bad (codes "invalid cursor"))
  unfolding decode_cursor encode_cursor of_json shape_of invalid_cursor cursor_value property
      get_field ◌===◌
  decode_cursor-encode c base64 json = rw (base64, json) refl
