-- ===== src/Keys.antt =====
-- src/shared/keys.ts: the names of the Redis keys, and the worker ids read back from them.
pub mod Parse
use mathlib.Core.Option
use queue_flow.Base.{
  ℕ, Bool, true, false, not, ◌&&◌, ◌||◌, Option, none, some, List, [], ◌∷◌, ◌++◌, Text, codes,
  ◌===◌, ◌==◌, if◌then◌else◌,
}

abbrev pub pending : Text
pending = codes "queueflow:pending"

abbrev pub delayed : Text
delayed = codes "queueflow:delayed"

abbrev pub processing_prefix : Text
processing_prefix = codes "queueflow:processing:"

abbrev pub processing : Text → Text
processing worker_id = processing_prefix ++ worker_id

abbrev pub processing_pattern : Text
processing_pattern = codes "queueflow:processing:*"

abbrev pub alive_prefix : Text
alive_prefix = codes "worker:"

abbrev pub alive_suffix : Text
alive_suffix = codes ":alive"

abbrev pub alive : Text → Text
alive worker_id = alive_prefix ++ (worker_id ++ alive_suffix)

abbrev pub alive_pattern : Text
alive_pattern = codes "worker:*:alive"

-- `key.startsWith(prefix)` and `key.slice(prefix.length)` in one.
pub strip_prefix : Text → Text → Option Text
strip_prefix [] key = some key
strip_prefix (p ∷ ps) [] = none
strip_prefix (p ∷ ps) (c ∷ cs) = if p == c then strip_prefix ps cs else none

pub strip_suffix : Text → Text → Option Text
strip_suffix suffix [] = if suffix === [] then some [] else none
strip_suffix suffix (c ∷ cs) =
    if suffix === (c ∷ cs) then some [] else Option.map (λ r. c ∷ r) (strip_suffix suffix cs)

unfoldable pub is_empty : Text → Bool
is_empty [] = true
is_empty (c ∷ cs) = false

-- `id.length > 0 ? id : null`
pub keep_nonempty : Option Text → Option Text
unfolding is_empty
keep_nonempty none = none
keep_nonempty (some id) = if is_empty id then none else some id

unfoldable pub worker_id_from_processing_key : Text → Option Text
unfolding strip_prefix keep_nonempty
worker_id_from_processing_key key = keep_nonempty (strip_prefix processing_prefix key)

-- What `.` of a regular expression does not match.
is_line_terminator : ℕ → Bool
is_line_terminator c = c == 10 || c == 13 || c == 0x2028 || c == 0x2029

unfoldable pub is_one_line : Text → Bool
unfolding is_line_terminator
is_one_line [] = true
is_one_line (c ∷ cs) = not (is_line_terminator c) && is_one_line cs

-- The group `(.+)`.
pub keep_one_line : Option Text → Option Text
unfolding is_empty is_one_line
keep_one_line none = none
keep_one_line (some id) = if not (is_empty id) && is_one_line id then some id else none

strip_suffix_of : Text → Option Text → Option Text
strip_suffix_of suffix none = none
strip_suffix_of suffix (some rest) = strip_suffix suffix rest

-- `/^worker:(.+):alive$/`
unfoldable pub worker_id_from_alive_key : Text → Option Text
unfolding strip_prefix strip_suffix strip_suffix_of keep_one_line ◌===◌
worker_id_from_alive_key key =
    keep_one_line (strip_suffix_of alive_suffix (strip_prefix alive_prefix key))
