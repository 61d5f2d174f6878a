-- ===== src/Ownership/RoundTrip.antt =====
-- `internal_metadata` against `point_owner_matches`: what the provider writes and then reads back.
use hermes_hyperspacedb_prov.Prelude.{
  ℕ, String, ◌≡◌, refl, true, false, List, [], ◌∷◌, arith, ◌==◌, eq_iff, eq_refl,
}
use hermes_hyperspacedb_prov.Prelude.Lists.{any}
use hermes_hyperspacedb_prov.Text
use hermes_hyperspacedb_prov.Value.{
  Value, Fields, str, bytes, dict, end, field, get, truthy, or_else, as_dict, is_text,
}
use hermes_hyperspacedb_prov.Content.{
  metadata, metadata_of, extract_content, content_of, decode_payload,
}
use hermes_hyperspacedb_prov.Errors.{ok}
use hermes_hyperspacedb_prov.World.{Env}
use hermes_hyperspacedb_prov.Ownership.{
  plugin_id, internal_metadata, logical_digest, point_owner_matches, fields_match, is_claimed,
  expected_digest, key_matches, compare_digest, text_or, py_str, signed_text,
}
use hermes_hyperspacedb_prov.Ownership.Reserved.{OwnFields, internal_metadata-OwnFields}

-- The point as the backend returns it: the document bytes and the metadata that were inserted.
abbrev pub stored_point : ℕ → String → Fields → Value
stored_point i content meta =
    dict (
      field "id" (Value.int i) (field "payload" (bytes content) (field "metadata" (dict meta) end)))

text_or-str :
    (env : Env) (key default s : String) (fs : Fields)
    → get key fs ≡ str s
    → Text.is_empty s ≡ false
    → text_or env key default fs ≡ s
unfolding text_or or_else truthy py_str
text_or-str env key default s fs e n = rw (e, n)

extract-stored :
    (i : ℕ) (content : String) (meta : Fields)
    → Text.is_empty content ≡ false
    → extract_content (stored_point i content meta) ≡ content
unfolding extract_content content_of decode_payload as_dict get
extract-stored i content meta e = rw e

metadata-stored :
    (i : ℕ) (content : String) (meta : Fields) → metadata (stored_point i content meta) ≡ meta
unfolding metadata metadata_of as_dict get
metadata-stored i content meta = refl

compare_self : (env : Env) (s : String) → Text.is_ascii s ≡ true → compare_digest env s s ≡ ok true
unfolding compare_digest
compare_self env s e = rw (e, eq_refl s)

-- What is relied on of `hexdigest()`: it gives a non-empty ASCII text.
pub record HexDigests (env : Env) : Type 0 where
  pub sha256_nonempty : (s : String) → Text.is_empty (env.sha256 s) ≡ false
  pub sha256_ascii : (s : String) → Text.is_ascii (env.sha256 s) ≡ true
  pub hmac_ascii : (k s : String) → Text.is_ascii (env.hmac k s) ≡ true
  pub hmac_nonempty : (k s : String) → Text.is_empty (env.hmac k s) ≡ false

-- A signature under one of the keys is found, whatever keys stand before it.
key_matches-any :
    (env : Env) (key : String) (meta : Fields) (keys : List String)
    → HexDigests env
    → Text.is_empty key ≡ false
    → any (λ k. k == key) keys ≡ true
    → key_matches env (env.hmac key (signed_text env meta)) meta keys ≡ ok true
unfolding any key_matches compare_digest
key_matches-any env key meta [] hex e h = cc
key_matches-any env key meta (k ∷ keys) hex e h = ground (
  arith,
  eq_iff k key,
  hex.hmac_ascii key (signed_text env meta),
  hex.hmac_ascii k (signed_text env meta),
  hex.hmac_nonempty key (signed_text env meta),
  eq_refl (env.hmac key (signed_text env meta)),
  key_matches-any env key meta keys hex e,
)

is_text-str : (s : String) (v : Value) → v ≡ str s → is_text s v ≡ true
unfolding is_text
is_text-str s v e = rw (e, is_text, eq_refl s)

fields_match-own :
    (env : Env) (target source trust content digest collection scope key now : String)
    → (meta : Fields) (keys : List String) → HexDigests env
    → OwnFields target source trust content digest scope now meta
    → get "_hs_owner_signature" meta ≡ str (env.hmac key (signed_text env meta))
    → digest ≡ logical_digest env collection scope target source content
    → Text.is_empty target ≡ false
    → Text.is_empty source ≡ false
    → Text.is_empty content ≡ false
    → Text.is_empty key ≡ false
    → any (λ k. k == key) keys ≡ true
    → Text.is_empty digest ≡ false
    → Text.is_ascii digest ≡ true
    → fields_match env meta content digest collection scope keys ≡ ok true
unfolding fields_match is_claimed expected_digest
fields_match-own env target source trust content digest collection scope key now meta keys hex own
      signed made t s c k listed d ascii =
    let target_text = text_or-str env "target" "" target meta own.target_field t in
    let source_text = text_or-str env "source" "" source meta own.source_field s in
    let digest_text = text_or-str env "_hs_digest" "" digest meta own.digest_field d in
    let signature_text =
      text_or-str env "_hs_owner_signature" "" (env.hmac key (signed_text env meta)) meta signed
        (hex.hmac_nonempty key (signed_text env meta)) in
    rw
      (
        target_text,
        source_text,
        digest_text,
        t,
        s,
        c,
        is_text-str plugin_id (get "_hs_owner" meta) own.owner,
        is_text-str digest (get "_hs_digest" meta) own.digest_field,
        is_text-str scope (get "_hs_profile" meta) own.profile,
        ← made,
      )
      (rw (compare_self env digest ascii)
        (rw signature_text (key_matches-any env key meta keys hex k listed)))

-- A point whose metadata `internal_metadata` made under one of the keys, and whose payload is the
-- content, is recognised under its digest by `point_owner_matches`, also after the key has become a
-- previous one, provided that the target, the source and the content are not empty.
pub point_owner_matches-internal_metadata :
    (env : Env) (target source trust content collection scope key now : String) (user : Value)
    → (i : ℕ) (keys : List String) → HexDigests env
    → Text.is_empty target ≡ false
    → Text.is_empty source ≡ false
    → Text.is_empty content ≡ false
    → Text.is_empty key ≡ false
    → any (λ k. k == key) keys ≡ true
    → let digest = logical_digest env collection scope target source content in
      (meta : Fields) × (internal_metadata env target source trust content digest scope key now user
        ≡ ok meta)
      × (point_owner_matches env (stored_point i content meta) digest collection scope keys
          ≡ ok true)
unfolding point_owner_matches
point_owner_matches-internal_metadata env target source trust content collection scope key now user
      i keys hex t s c k listed =
    let digest : String = logical_digest env collection scope target source content in
    let (meta, made, own, signed) =
      internal_metadata-OwnFields env target source trust content digest scope key now user k in
    (
      meta,
      made,
      rw (metadata-stored i content meta, extract-stored i content meta c)
          (fields_match-own env target source trust content digest collection scope key now meta
            keys hex own signed refl t s c k listed (unfold logical_digest in hex.sha256_nonempty _)
            (unfold logical_digest in hex.sha256_ascii _)),
    )
