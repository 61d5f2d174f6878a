-- ===== src/Content.antt =====
-- _utils.py: text out of what the SDK returns (`_decode_payload`, `_extract_content`, `_metadata`,
-- `_record_distance`), and the bounds on settings (`_bounded_int`, `_coerce_bool`).
use hermes_hyperspacedb_prov.Prelude.{
  ℕ, min, max, String, Bool, true, false, not, ◌||◌, Option, none, some, List, [], ◌∷◌, eqb, ◌==◌,
  if◌then◌else◌,
}
use hermes_hyperspacedb_prov.Text
use hermes_hyperspacedb_prov.Value.{
  Value, Fields, null, bool, int, neg, float, str, bytes, bytearray, dict, end, field, get, truthy,
  as_dict,
}
use hermes_hyperspacedb_prov.Value.Numbers.{Float, is_zero}
use hermes_hyperspacedb_prov.Errors.{Result, ok, err, float_overflow}

abbrev pub or_next : Option String → String → String
or_next none rest = rest
or_next (some s) rest = s

-- `_decode_payload`; `decode_key` is the decoded `value[key]`, where `value.get(key)` is truthy.
unfoldable mutual
  unfolding truthy

  pub decode_payload : Value → String
  decode_payload (bytes s) = s
  decode_payload (bytearray s) = s
  decode_payload (str s) = s
  decode_payload (dict fs) = or_next (decode_key "content" fs) (
      or_next (decode_key "text" fs)
        (or_next (decode_key "document" fs) (or_next (decode_key "body" fs) "")))
  decode_payload _ = ""

  pub decode_key : String → Fields → Option String
  decode_key key end = none
  decode_key key (field k v fs) =
      if k == key then (if truthy v then some (decode_payload v) else none) else decode_key key fs

-- `decode(fs.get(k))` for the first of the keys where that is not empty
unfoldable pub first_content : List String → Fields → String
first_content [] fs = ""
first_content (k ∷ ks) fs =
    let found = decode_payload (get k fs) in
    let rest = first_content ks fs in if Text.is_empty found then rest else found

-- `raw.get("metadata") or {}`, and `{}` where that is no dictionary; `_metadata` gives the same
unfoldable pub metadata_of : Fields → Fields
metadata_of fs = elim (as_dict (get "metadata" fs)) [ none ↦ end | some m ↦ m ]

-- `_metadata`
unfoldable pub metadata : Value → Fields
unfolding metadata_of
metadata raw = elim (as_dict raw) [ none ↦ end | some fs ↦ metadata_of fs ]

unfoldable pub content_of : Fields → String
unfolding first_content metadata_of
content_of fs =
    let payload = decode_payload (get "payload" fs) in
    let direct = first_content ("content" ∷ "document" ∷ "text" ∷ "body" ∷ []) fs in
    if not (Text.is_empty payload)
    then payload
    else if not (Text.is_empty direct)
    then direct
    else first_content ("_content" ∷ "content" ∷ "text" ∷ "document" ∷ "body" ∷ []) (metadata_of fs)

-- `_extract_content`
unfoldable pub extract_content : Value → String
unfolding content_of
extract_content raw = elim (as_dict raw) [ none ↦ "" | some fs ↦ content_of fs ]

-- `float(v)`, with what `_record_distance` makes of a `TypeError` or a `ValueError`; for an int it
-- raises an `OverflowError` only, which is not caught.
abbrev pub parse_distance : Value → Option Float → Result (Option Float)
parse_distance (int n) none = err float_overflow
parse_distance (neg n) none = err float_overflow
parse_distance v o = ok o

-- `_record_distance`; `to_float` is Python's `float(v)`, `none` where it raises.
unfoldable pub record_distance : (Value → Option Float) → Value → Result (Option Float)
record_distance to_float raw = elim (as_dict raw) [
  | none ↦ ok none
  | some fs ↦ elim (get "distance" fs) [ null ↦ ok none | v ↦ parse_distance v (to_float v) ]
]

-- `max(low, min(parsed, high))`, where `parsed` is `int(value)` or the default.
unfoldable pub bounded_int : Option ℕ → ℕ → ℕ → ℕ → ℕ
bounded_int none default low high = max low (min default high)
bounded_int (some parsed) default low high = max low (min parsed high)

abbrev nonzero : Float → Bool
nonzero x = not (is_zero x)

-- `_coerce_bool`
unfoldable pub coerce_bool : Value → Bool → Bool
coerce_bool (bool b) default = b
coerce_bool (int n) default = not (eqb n 0)
coerce_bool (neg n) default = true
coerce_bool (float x) default = nonzero x
coerce_bool (str s) default =
    let word = Text.strip s in
    if Text.equals_lower "1" word
      || Text.equals_lower "true" word
      || Text.equals_lower "yes" word
      || Text.equals_lower "on" word
    then true
    else if Text.equals_lower "0" word
        || Text.equals_lower "false" word
        || Text.equals_lower "no" word
        || Text.equals_lower "off" word
    then false
    else default
coerce_bool _ default = default
