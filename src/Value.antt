-- ===== src/Value.antt =====
-- The dynamic Python values that the SDK returns and that tool arguments hold, with the built-in
-- operations that the program applies to them. Dictionary keys are texts, as those of JSON.
pub mod Numbers
pub mod Laws
use hermes_hyperspacedb_prov.Prelude.{
  ℕ, suc, String, Bool, true, false, not, Option, none, some, List, [], ◌∷◌, eqb, ◌==◌,
  if◌then◌else◌,
}
use hermes_hyperspacedb_prov.Text
use Numbers.{Float, is_zero}

-- `int n` is n and `neg n` is -(n + 1). Bytes are given by the text that
-- `decode("utf-8", "replace")` makes of them. `object s` is any other object, whose `str()` is s.
mutual
  pub data Value : Type 0 where
    null : Value
    bool : Bool → Value
    int : ℕ → Value
    neg : ℕ → Value
    float : Float → Value
    str : String → Value
    bytes : String → Value
    bytearray : String → Value
    list : Items → Value
    tuple : Items → Value
    dict : Fields → Value
    object : String → Value

  pub data Items : Type 0 where
    nil : Items
    cons : Value → Items → Items

  pub data Fields : Type 0 where
    end : Fields
    field : String → Value → Fields → Fields

unfoldable pub items_empty : Items → Bool
items_empty nil = true
items_empty (cons v xs) = false

unfoldable pub fields_empty : Fields → Bool
fields_empty end = true
fields_empty (field k v fs) = false

-- `bool(v)`
unfoldable pub truthy : Value → Bool
unfolding items_empty fields_empty
truthy null = false
truthy (bool b) = b
truthy (int n) = not (eqb n 0)
truthy (neg n) = true
truthy (float x) = not (is_zero x)
truthy (str s) = not (Text.is_empty s)
truthy (bytes s) = not (Text.is_empty s)
truthy (bytearray s) = not (Text.is_empty s)
truthy (list xs) = not (items_empty xs)
truthy (tuple xs) = not (items_empty xs)
truthy (dict fs) = not (fields_empty fs)
truthy (object s) = true

-- `v or w`
unfoldable pub or_else : Value → Value → Value
or_else v w = if truthy v then v else w

-- `fs.get(key)`
unfoldable pub get : String → Fields → Value
get key end = null
get key (field k v fs) = if k == key then v else get key fs

-- `key in fs`
unfoldable pub has_key : String → Fields → Bool
has_key key end = false
has_key key (field k v fs) = if k == key then true else has_key key fs

-- `fs[key] = v`
unfoldable pub set : String → Value → Fields → Fields
set key v end = field key v end
set key v (field k w fs) = if k == key then field k v fs else field k w (set key v fs)

unfoldable pub to_list : Items → List Value
to_list nil = []
to_list (cons v xs) = v ∷ to_list xs

unfoldable pub of_list : List Value → Items
of_list [] = nil
of_list (v ∷ xs) = cons v (of_list xs)

-- `isinstance(v, list)`
unfoldable pub as_list : Value → Option (List Value)
unfolding to_list
as_list (list xs) = some (to_list xs)
as_list _ = none

-- `isinstance(v, dict)`
unfoldable pub as_dict : Value → Option Fields
as_dict (dict fs) = some fs
as_dict _ = none

-- `v == "..."`
unfoldable pub is_text : String → Value → Bool
is_text s (str t) = t == s
is_text s _ = false

-- `v in (None, "")`
unfoldable pub is_missing : Value → Bool
is_missing null = true
is_missing (str s) = Text.is_empty s
is_missing _ = false
