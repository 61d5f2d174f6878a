-- ===== src/Ownership/Reserved.antt =====
-- The provider's own metadata fields, whatever metadata the user supplies.
use hermes_hyperspacedb_prov.Prelude.{String, ◌≡◌, false}
use hermes_hyperspacedb_prov.Text
use hermes_hyperspacedb_prov.Value.{Value, Fields, str, get, set}
use hermes_hyperspacedb_prov.Value.Laws.{get-set, has_key-set}
use hermes_hyperspacedb_prov.Errors.{ok}
use hermes_hyperspacedb_prov.World.{Env}
use hermes_hyperspacedb_prov.Ownership.{
  plugin_id, schema_version, own_fields, sanitize_user_metadata, ownership_signature, sign,
  signed_text, internal_metadata, text_of,
}

-- The fields that the provider vouches for.
pub record OwnFields (target source trust content digest scope now : String) (fs : Fields)
    : Type 0 where
  pub owner : get "_hs_owner" fs ≡ str plugin_id
  pub digest_field : get "_hs_digest" fs ≡ str digest
  pub profile : get "_hs_profile" fs ≡ str scope
  pub schema : get "_hs_schema" fs ≡ str schema_version
  pub content_field : get "_content" fs ≡ str content
  pub source_field : get "source" fs ≡ str source
  pub trust_field : get "trust" fs ≡ str trust
  pub target_field : get "target" fs ≡ str target
  pub stamp : get "ts" fs ≡ str now

own-OwnFields :
    (env : Env) (target source trust content digest scope now : String) (fs : Fields)
    → OwnFields target source trust content digest scope now
        (own_fields env target source trust content digest scope now fs)
unfolding own_fields
own-OwnFields env target source trust content digest scope now fs = record {
  owner = simp get-set;
  digest_field = simp get-set;
  profile = simp get-set;
  schema = simp get-set;
  content_field = simp get-set;
  source_field = simp get-set;
  trust_field = simp get-set;
  target_field = simp get-set;
  stamp = simp get-set;
}

signature-OwnFields :
    (target source trust content digest scope now signature : String) (fs : Fields)
    → OwnFields target source trust content digest scope now fs
    → OwnFields target source trust content digest scope now
        (set "_hs_owner_signature" (str signature) fs)
signature-OwnFields target source trust content digest scope now signature fs o = record {
  owner = simp get-set o.owner;
  digest_field = simp get-set o.digest_field;
  profile = simp get-set o.profile;
  schema = simp get-set o.schema;
  content_field = simp get-set o.content_field;
  source_field = simp get-set o.source_field;
  trust_field = simp get-set o.trust_field;
  target_field = simp get-set o.target_field;
  stamp = simp get-set o.stamp;
}

-- The signature is no part of what is signed.
signed_text-set :
    (env : Env) (signature : String) (fs : Fields)
    → signed_text env (set "_hs_owner_signature" (str signature) fs) ≡ signed_text env fs
unfolding signed_text text_of
signed_text-set env signature fs = simp (get-set, has_key-set)

sign_lem :
    (env : Env) (fs : Fields) (key : String)
    → Text.is_empty key ≡ false
    → sign env fs key ≡ ok (set "_hs_owner_signature" (str (env.hmac key (signed_text env fs))) fs)
unfolding sign ownership_signature
sign_lem env fs key e = rw (e, sign, ownership_signature)

signature-get :
    (env : Env) (key : String) (fs : Fields)
    → get "_hs_owner_signature"
        (set "_hs_owner_signature" (str (env.hmac key (signed_text env fs))) fs)
      ≡ str (
          env.hmac key (
            signed_text env
              (set "_hs_owner_signature" (str (env.hmac key (signed_text env fs))) fs)))
signature-get env key fs =
    rw (signed_text-set env (env.hmac key (signed_text env fs)) fs)
      (rw (get-set "_hs_owner_signature" "_hs_owner_signature" _ fs))

-- With a signing key, `internal_metadata` succeeds, and whatever the user's metadata is, the result
-- holds the provider's values in its own fields and the HMAC under the key of the signed fields.
pub internal_metadata-OwnFields :
    (env : Env) (target source trust content digest scope key now : String) (user : Value)
    → Text.is_empty key ≡ false
    → (meta : Fields) × (internal_metadata env target source trust content digest scope key now user
        ≡ ok meta)
      × OwnFields target source trust content digest scope now meta
      × (get "_hs_owner_signature" meta ≡ str (env.hmac key (signed_text env meta)))
unfolding internal_metadata
internal_metadata-OwnFields env target source trust content digest scope key now user e =
    let fs : Fields =
      own_fields env target source trust content digest scope now
        (sanitize_user_metadata env user) in
    let signature : String = env.hmac key (signed_text env fs) in
    (
      set "_hs_owner_signature" (str signature) fs,
      sign_lem env fs key e,
      signature-OwnFields target source trust content digest scope now signature fs (
          own-OwnFields env target source trust content digest scope now
            (sanitize_user_metadata env user)),
      signature-get env key fs,
    )
