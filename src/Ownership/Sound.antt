-- ===== src/Ownership/Sound.antt =====
-- `point_owner_matches`: what is known of a point that it accepts.
use hermes_hyperspacedb_prov.Prelude.{
  String, ◌≡◌, refl, Bool, true, false, ◌||◌, ◌⊎◌, List, [], ◌∷◌, arith, ◌==◌, eq_iff, eq_refl,
  Bool-cases, inl, inr,
}
use hermes_hyperspacedb_prov.Prelude.Lists.{any}
use hermes_hyperspacedb_prov.Text
use hermes_hyperspacedb_prov.Value.{Value, Fields, get, is_text}
use hermes_hyperspacedb_prov.Content.{metadata, extract_content}
use hermes_hyperspacedb_prov.Errors.{Exn, Result, ok, err}
use hermes_hyperspacedb_prov.World.{Env}
use hermes_hyperspacedb_prov.Ownership.{
  plugin_id, point_owner_matches, fields_match, is_claimed, expected_digest, key_matches,
  compare_digest, text_or, signed_text,
}

-- The signature of the point is the HMAC, under one of the keys, of its signed fields.
abbrev pub SignedBy : Env → Fields → List String → Type 0
SignedBy env meta keys =
    (key : String) × (any (λ k. k == key) keys ≡ true)
    × (Text.is_empty key ≡ false)
    × (Text.is_empty (text_or env "_hs_owner_signature" "" meta) ≡ false)
    × (text_or env "_hs_owner_signature" "" meta ≡ env.hmac key (signed_text env meta))

compare_digest-true : (env : Env) (a b : String) → compare_digest env a b ≡ ok true → a ≡ b
unfolding compare_digest
compare_digest-true env a b h = ground (arith, eq_iff a b)

SignedBy-cons :
    (env : Env) (meta : Fields) (key : String) (keys : List String)
    → SignedBy env meta keys
    → SignedBy env meta (key ∷ keys)
unfolding any
SignedBy-cons env meta key keys (k, listed, e, f, g) = (k, ground arith, e, f, g)

Verdict-cases : (r : Result Bool) → (r ≡ ok true) ⊎ ((r ≡ ok false) ⊎ ((e : Exn) × (r ≡ err e)))
Verdict-cases (ok true) = inl refl
Verdict-cases (ok false) = inr (inl refl)
Verdict-cases (err e) = inr (inr (e, refl))

key_matches-SignedBy :
    (env : Env) (meta : Fields) (keys : List String)
    → key_matches env (text_or env "_hs_owner_signature" "" meta) meta keys ≡ ok true
    → SignedBy env meta keys
unfolding key_matches
key_matches-SignedBy env meta [] h = cc
key_matches-SignedBy env meta (key ∷ keys) h =
    let supplied = text_or env "_hs_owner_signature" "" meta in
    let later = λ (k : key_matches env supplied meta keys ≡ ok true).
      SignedBy-cons env meta key keys (key_matches-SignedBy env meta keys k) in
    elim (Bool-cases (Text.is_empty key || Text.is_empty supplied)) [
      | inl skipped ↦ later (rw (skipped, key_matches) at h)
      | inr present ↦
          elim (Verdict-cases (compare_digest env supplied (env.hmac key (signed_text env meta)))) [
            | inl same ↦ (
              key,
              unfold any in rw (eq_refl key),
              ground arith,
              ground arith,
              compare_digest-true env supplied (env.hmac key (signed_text env meta)) same,
            )
            | inr (inl different) ↦ later (rw (present, different, key_matches) at h)
            | inr (inr (e, bad)) ↦ absurd (cc (rw (present, bad, key_matches) at h))
          ]
    ]

-- Where `point_owner_matches` accepts a point, its metadata names the plugin, the digest and the
-- profile, its target, source and content are not empty, the digest is the digest of these, and its
-- signature is the HMAC of the signed fields under one of the keys, which is not empty.
pub record IsOwned (env : Env) (point : Value) (digest collection scope : String)
    (keys : List String) : Type 0 where
  pub owner : is_text plugin_id (get "_hs_owner" (metadata point)) ≡ true
  pub names_digest : is_text digest (get "_hs_digest" (metadata point)) ≡ true
  pub names_profile : is_text scope (get "_hs_profile" (metadata point)) ≡ true
  pub target : Text.is_empty (text_or env "target" "" (metadata point)) ≡ false
  pub source : Text.is_empty (text_or env "source" "" (metadata point)) ≡ false
  pub content : Text.is_empty (extract_content point) ≡ false
  pub digest_of_content :
      text_or env "_hs_digest" "" (metadata point)
      ≡ expected_digest env (metadata point) (extract_content point) collection scope
  pub signed : SignedBy env (metadata point) keys

-- `point_owner_matches` accepts a point only if its metadata names the plugin, the digest and the
-- profile, its target, source and content are not empty, its digest is the digest of these, and its
-- signature is the HMAC of the signed fields under one of the keys, which is not empty.
pub point_owner_matches-IsOwned :
    (env : Env) (point : Value) (digest collection scope : String) (keys : List String)
    → point_owner_matches env point digest collection scope keys ≡ ok true
    → IsOwned env point digest collection scope keys
unfolding point_owner_matches fields_match
point_owner_matches-IsOwned env point digest collection scope keys h =
    let meta = metadata point in
    let content = extract_content point in
    let found = text_or env "_hs_digest" "" meta in
    let expected = expected_digest env meta content collection scope in
    elim (Bool-cases (is_claimed env meta content digest scope)) [
      | inr unclaimed ↦ absurd (cc (rw (unclaimed, fields_match) at h))
      | inl claimed ↦ elim (Verdict-cases (compare_digest env found expected)) [
        | inr (inl different) ↦ absurd (cc (rw (claimed, different, fields_match) at h))
        | inr (inr (e, bad)) ↦ absurd (cc (rw (claimed, bad, fields_match) at h))
        | inl same ↦ record {
          owner = unfold is_claimed in ground arith;
          names_digest = unfold is_claimed in ground arith;
          names_profile = unfold is_claimed in ground arith;
          target = unfold is_claimed in ground arith;
          source = unfold is_claimed in ground arith;
          content = unfold is_claimed in ground arith;
          digest_of_content = compare_digest-true env found expected same;
          signed = key_matches-SignedBy env meta keys (rw (claimed, same, fields_match) at h);
        }
      ]
    ]
