-- ===== src/Checks/Signatures.antt =====
-- Signing a point and recognising it.
use hermes_hyperspacedb_prov.Prelude.{◌≡◌, refl, true, [], ◌∷◌}
use hermes_hyperspacedb_prov.Text
use hermes_hyperspacedb_prov.Value.{Fields, str, dict, end, field, get, null}
use hermes_hyperspacedb_prov.Errors.{ok}
use hermes_hyperspacedb_prov.Ownership.{
  internal_metadata, point_owner_matches, logical_digest, signed_text,
}
use hermes_hyperspacedb_prov.Ownership.Sound.{IsOwned, point_owner_matches-IsOwned}
use hermes_hyperspacedb_prov.Ownership.RoundTrip.{
  stored_point, HexDigests, point_owner_matches-internal_metadata,
}
use hermes_hyperspacedb_prov.Ownership.Reserved.{OwnFields, internal_metadata-OwnFields}
use hermes_hyperspacedb_prov.Prelude.Lists.{any}
use hermes_hyperspacedb_prov.Samples.{env}

digests : HexDigests env
unfolding Text.is_empty Text.is_ascii
digests = record {
  sha256_nonempty = λ s. refl;
  sha256_ascii = λ s. refl;
  hmac_ascii = λ k s. refl;
  hmac_nonempty = λ k s. refl;
}

point_owner_matches-internal_metadata_example :
    (meta : Fields) × (internal_metadata env "user" "hermes-builtin-memory" "builtin-curated"
        "likes tea"
        (logical_digest env "memory" "home" "user" "hermes-builtin-memory" "likes tea")
        "home"
        "secret"
        "2026-01-01T00:00:00Z"
        null
      ≡ ok meta)
    × (point_owner_matches env
          (stored_point 7 "likes tea" meta)
          (logical_digest env "memory" "home" "user" "hermes-builtin-memory" "likes tea")
          "memory"
          "home"
          ("newer" ∷ "secret" ∷ [])
        ≡ ok true)
unfolding Text.is_empty any
point_owner_matches-internal_metadata_example =
    point_owner_matches-internal_metadata env "user" "hermes-builtin-memory" "builtin-curated"
      "likes tea" "memory" "home" "secret" "2026-01-01T00:00:00Z" null 7 ("newer" ∷ "secret" ∷ [])
      digests refl refl refl refl refl

signed_point :
    (meta : Fields) × (internal_metadata env "user" "hermes-builtin-memory" "builtin-curated"
        "likes tea"
        (logical_digest env "memory" "home" "user" "hermes-builtin-memory" "likes tea")
        "home"
        "secret"
        "2026-01-01T00:00:00Z"
        null
      ≡ ok meta)
    × (point_owner_matches env
          (stored_point 7 "likes tea" meta)
          (logical_digest env "memory" "home" "user" "hermes-builtin-memory" "likes tea")
          "memory"
          "home"
          ("newer" ∷ "secret" ∷ [])
        ≡ ok true)
unfolding Text.is_empty any
signed_point =
    point_owner_matches-internal_metadata env "user" "hermes-builtin-memory" "builtin-curated"
      "likes tea" "memory" "home" "secret" "2026-01-01T00:00:00Z" null 7 ("newer" ∷ "secret" ∷ [])
      digests refl refl refl refl refl

signed_meta : Fields
signed_meta = signed_point.0

point_owner_matches-IsOwned_example :
    IsOwned env
      (stored_point 7 "likes tea" signed_meta)
      (logical_digest env "memory" "home" "user" "hermes-builtin-memory" "likes tea")
      "memory"
      "home"
      ("newer" ∷ "secret" ∷ [])
unfolding signed_meta
point_owner_matches-IsOwned_example =
    point_owner_matches-IsOwned env (stored_point 7 "likes tea" signed_meta)
      (logical_digest env "memory" "home" "user" "hermes-builtin-memory" "likes tea") "memory"
      "home" ("newer" ∷ "secret" ∷ []) signed_point.2

internal_metadata-OwnFields_example :
    (meta : Fields) × (internal_metadata env "user" "hermes-builtin-memory" "builtin-curated"
        "likes tea" "ab12" "home" "secret" "2026-01-01T00:00:00Z"
        (dict (field "_hs_owner" (str "me") end))
      ≡ ok meta)
    × OwnFields "user" "hermes-builtin-memory" "builtin-curated" "likes tea" "ab12" "home"
        "2026-01-01T00:00:00Z" meta
    × (get "_hs_owner_signature" meta ≡ str (env.hmac "secret" (signed_text env meta)))
unfolding Text.is_empty
internal_metadata-OwnFields_example =
    internal_metadata-OwnFields env "user" "hermes-builtin-memory" "builtin-curated" "likes tea"
      "ab12" "home" "secret" "2026-01-01T00:00:00Z" (dict (field "_hs_owner" (str "me") end)) refl
