-- ===== src/Ownership.antt =====
-- _mutations.py and `_sanitize_user_metadata` of _security.py: digests, signatures, the metadata of
-- a stored point, and the test that a point is the provider's own.
pub mod Reserved
pub mod Sound
pub mod RoundTrip
use Prim.Native.String.{◌++◌ as ◌<>◌}
use hermes_hyperspacedb_prov.Prelude.{
  ℕ, zero, suc, String, Bool, true, false, not, ◌&&◌, ◌||◌, Option, none, some, List, [], ◌∷◌, ◌==◌,
  if◌then◌else◌,
}
use hermes_hyperspacedb_prov.Prelude.Lists.{any}
use hermes_hyperspacedb_prov.Text
use hermes_hyperspacedb_prov.Value.{
  Value, Fields, str, end, field, get, has_key, set, or_else, as_dict, is_text,
}
use hermes_hyperspacedb_prov.Content.{metadata, extract_content}
use hermes_hyperspacedb_prov.Errors.{Exn, Result, ok, err, fail, other, configuration_error}
use hermes_hyperspacedb_prov.World.{Env}

-- `_PLUGIN_ID` and `_SCHEMA_VERSION`
abbrev pub plugin_id : String
plugin_id = "hermes-hyperspacedb"

abbrev pub schema_version : String
schema_version = "2"

-- `_RESERVED_META`
abbrev pub reserved_meta : List String
reserved_meta =
    "_content" ∷ "_hs_owner" ∷ "_hs_digest" ∷ "_hs_profile" ∷ "_hs_schema" ∷ "source" ∷ "trust"
    ∷ "target" ∷ "ts" ∷ "timestamp" ∷ "record_id" ∷ []

module _ (env : Env) where
  -- `str(v)`
  unfoldable pub py_str : Value → String
  py_str (str s) = s
  py_str v = env.str_of v

  -- `str(fs.get(key) or default)`
  unfoldable pub text_or : String → String → Fields → String
  unfolding py_str
  text_or key default fs = py_str (or_else (get key fs) (str default))

  -- `str(fs.get(key, ""))`
  unfoldable pub text_of : String → Fields → String
  unfolding py_str
  text_of key fs = if has_key key fs then py_str (get key fs) else ""

  -- `logical_digest`
  unfoldable pub logical_digest : String → String → String → String → String → String
  logical_digest collection scope target source content = env.sha256 (
      Text.join "\0"
        (plugin_id ∷ schema_version ∷ collection ∷ scope ∷ target ∷ source ∷ content ∷ []))

  -- The text that `ownership_signature` signs.
  unfoldable pub signed_text : Fields → String
  unfolding text_of
  signed_text meta = Text.join "\u{1f}" (
      text_of "_hs_owner" meta
      ∷ text_of "_hs_profile" meta
      ∷ text_of "target" meta
      ∷ text_of "source" meta
      ∷ text_of "_hs_digest" meta
      ∷ [])

  -- `ownership_signature`
  unfoldable pub ownership_signature : Fields → String → Result String
  unfolding signed_text
  ownership_signature meta key =
      if Text.is_empty key
      then err (fail configuration_error "ownership_hmac_key is required for authenticated writes")
      else ok (env.hmac key (signed_text meta))

  -- `hmac.compare_digest` on texts, which raises a `TypeError` unless both are ASCII
  unfoldable pub compare_digest : String → String → Result Bool
  compare_digest a b =
      if Text.is_ascii a && Text.is_ascii b
      then ok (a == b)
      else err (other "TypeError" "" "comparing strings with non-ASCII characters is not supported")

  -- The loop of `point_owner_matches` over the keys.
  unfoldable pub key_matches : String → Fields → List String → Result Bool
  unfolding signed_text compare_digest
  key_matches supplied meta [] = ok false
  key_matches supplied meta (key ∷ keys) =
      let rest = key_matches supplied meta keys in
      if Text.is_empty key || Text.is_empty supplied
      then rest
      else elim (compare_digest supplied (env.hmac key (signed_text meta))) [
        | err e ↦ err e
        | ok true ↦ ok true
        | ok false ↦ rest
      ]

  -- The first tests of `point_owner_matches`, on the metadata and the content of the point.
  unfoldable pub is_claimed : Fields → String → String → String → Bool
  unfolding text_or
  is_claimed meta content digest scope =
      is_text plugin_id (get "_hs_owner" meta)
      && is_text digest (get "_hs_digest" meta)
      && is_text scope (get "_hs_profile" meta)
      && not (
          Text.is_empty (text_or "target" "" meta)
          || Text.is_empty (text_or "source" "" meta)
          || Text.is_empty content)

  -- The digest that the content and the metadata of the point ought to have.
  unfoldable pub expected_digest : Fields → String → String → String → String
  unfolding text_or
  expected_digest meta content collection scope =
      logical_digest collection scope (text_or "target" "" meta) (text_or "source" "" meta) content

  -- `point_owner_matches` on the metadata and the content
  unfoldable pub fields_match :
      Fields → String → String → String → String → List String → Result Bool
  fields_match meta content digest collection scope keys =
      if is_claimed meta content digest scope
      then elim (compare_digest (text_or "_hs_digest" "" meta)
          (expected_digest meta content collection scope)) [
            | err e ↦ err e
            | ok false ↦ ok false
            | ok true ↦ key_matches (text_or "_hs_owner_signature" "" meta) meta keys
          ]
      else ok false

  -- `point_owner_matches`; the keys are the present one and the previous ones.
  unfoldable pub point_owner_matches : Value → String → String → String → List String → Result Bool
  point_owner_matches point digest collection scope keys =
      fields_match (metadata point) (extract_content point) digest collection scope keys

  -- A key of the user's metadata is kept: `_sanitize_user_metadata`'s tests.
  unfoldable pub is_user_key : String → Bool
  is_user_key key =
      not (Text.is_empty key || any (λ r. r == key) reserved_meta || Text.starts_with "_hs_" key)

  -- The loop of `_sanitize_user_metadata` over the first `n` entries.
  unfoldable pub sanitize_entries : ℕ → Fields → Fields → Fields
  unfolding is_user_key
  sanitize_entries zero fs clean = clean
  sanitize_entries (suc n) end clean = clean
  sanitize_entries (suc n) (field k v fs) clean =
      let key = Text.take 80 (Text.strip k) in
      sanitize_entries n fs (
        if is_user_key key
        then elim (env.render v) [
          | none ↦ clean
          | some s ↦ set ("user." <> key) (str (Text.take 1000 s)) clean
        ]
        else clean)

  -- `_sanitize_user_metadata`
  unfoldable pub sanitize_user_metadata : Value → Fields
  unfolding sanitize_entries
  sanitize_user_metadata v = elim (as_dict v) [ none ↦ end | some fs ↦ sanitize_entries 32 fs end ]

  -- `metadata.update({...})` of `internal_metadata`
  unfoldable pub own_fields :
      String → String → String → String → String → String → String → Fields → Fields
  own_fields target source trust content digest scope now fs = set "ts" (str now) (
      set "target" (str target) (
        set "trust" (str trust) (
          set "source" (str source) (
            set "_content" (str content) (
              set "_hs_schema" (str schema_version) (
                set "_hs_profile" (str scope)
                  (set "_hs_digest" (str digest) (set "_hs_owner" (str plugin_id) fs))))))))

  -- `metadata["_hs_owner_signature"] = ownership_signature(metadata, key)`
  unfoldable pub sign : Fields → String → Result Fields
  unfolding ownership_signature
  sign meta key = elim (ownership_signature meta key) [
    | err e ↦ err e
    | ok signature ↦ ok (set "_hs_owner_signature" (str signature) meta)
  ]

  -- `internal_metadata`
  unfoldable pub internal_metadata :
      String → String → String → String → String → String → String → String → Value → Result Fields
  internal_metadata target source trust content digest scope key now user =
      sign (own_fields target source trust content digest scope now (sanitize_user_metadata user))
        key
