-- ===== src/Capability/Resolve.antt =====
-- `resolve_one`, on any handle and on one that `mint` has handed out.
use Prim.Native.String.{◌++◌ as ◌<>◌}
use hermes_hyperspacedb_prov.Prelude.{
  ℕ, String, ◌≡◌, refl, false, Option, none, some, [], ◌∷◌, arith, eq_iff, eq_refl, Bool-cases,
  Option-cases, inl, inr, if◌then◌else◌,
}
use hermes_hyperspacedb_prov.Prelude.Lists.{length, any}
use hermes_hyperspacedb_prov.Text
use hermes_hyperspacedb_prov.Value.{Value, str, list, cons, nil, as_list, to_list}
use hermes_hyperspacedb_prov.Capability.{
  Capability, Store, new_capability, find, pop, put, is_stale, Resolved, granted, not_issued,
  out_of_scope, check_handles, handle_texts, has_duplicates, resolve_loop, resolve_many,
  resolve_one, grants, existing, drop_expired, evict, issue, mint, point_slot,
}
use hermes_hyperspacedb_prov.Capability.Bounds.{IsValid, find-put, drop-IsValid, mint-IsValid}
use hermes_hyperspacedb_prov.Capability.Scope.{Grants}

-- What resolving a handle comes to, by what the store holds under it.
abbrev pub outcome :
    String → String → String → String → ℕ → Store → Option Capability → Resolved ℕ × Store
outcome h collection scope session now s none = (not_issued, s)
outcome h collection scope session now s (some c) =
    if is_stale collection scope session now c
    then (out_of_scope, pop h s)
    else (granted c.point_id, s)

check_one :
    (h : String) → Text.is_empty h ≡ false → check_handles (list (cons (str h) nil)) ≡ some (h ∷ [])
unfolding check_handles as_list to_list handle_texts has_duplicates any
check_one h e = ground arith

-- A non-empty handle resolves by the store's entry alone: unknown handles and stale ones are
-- refused, a stale one is dropped, and any other gives its point and changes nothing.
pub resolve_one-outcome :
    (h collection scope session : String) (now : ℕ) (s : Store)
    → Text.is_empty h ≡ false
    → resolve_one (str h) collection scope session now s
      ≡ outcome h collection scope session now s (find h s)
unfolding resolve_one resolve_many resolve_loop
resolve_one-outcome h collection scope session now s e =
    rw (e, check_one h e, resolve_one, resolve_many) (ground arith)

pub resolve_one-granted :
    (h collection scope session : String) (now : ℕ) (s : Store) (i : ℕ)
    → Text.is_empty h ≡ false
    → Grants s collection scope session now h i
    → resolve_one (str h) collection scope session now s ≡ (granted i, s)
resolve_one-granted h collection scope session now s i e (c, found, id, sc, se, co, live) =
    rw (resolve_one-outcome h collection scope session now s e, found)
      (unfold is_stale in
        ground
          (arith, eq_iff c.scope scope, eq_iff c.session session, eq_iff c.collection collection))

find-nonempty :
    (h : String) (c : Capability) (s : Store)
    → IsValid s
    → find h s ≡ some c
    → Text.is_empty h ≡ false
unfolding find
find-nonempty h c [] v e = cc
find-nonempty h c ((k, d) ∷ s) v e = ground (arith, eq_iff k h, find-nonempty h c s v.2)

Grants-cons :
    (k : String) (d : Capability) (s : Store) (collection scope session : String) (now : ℕ)
    → (h : String) (i : ℕ) → find k s ≡ none
    → Grants s collection scope session now h i
    → Grants ((k, d) ∷ s) collection scope session now h i
unfolding find
Grants-cons k d s collection scope session now h i e (c, found, id, sc, se, co, live) =
    (c, ground (arith, eq_iff k h), id, sc, se, co, live)

existing-Grants :
    (point : ℕ) (scope session collection : String) (now : ℕ) (h : String) (s : Store)
    → IsValid s
    → existing point scope session collection now s ≡ some h
    → Grants s collection scope session now h point
unfolding existing
existing-Grants point scope session collection now h [] v e = cc
existing-Grants point scope session collection now h ((k, c) ∷ s) v e =
    elim (Bool-cases (grants point scope session collection now c)) [
      | inl g ↦ (
        c,
        unfold find in ground (arith, eq_iff k h),
        unfold grants in ground arith,
        unfold grants in ground (arith, eq_iff c.scope scope),
        unfold grants in ground (arith, eq_iff c.session session),
        unfold grants in ground (arith, eq_iff c.collection collection),
        unfold grants in ground arith,
      )
      | inr g ↦
          Grants-cons k c s collection scope session now h point v.0
            (existing-Grants point scope session collection now h s v.2 (ground arith))
    ]

put-Grants :
    (point : ℕ) (collection scope session : String) (now : ℕ) (h : String) (s : Store)
    → Grants
        (put h (new_capability point collection scope session now) s)
        collection
        scope
        session
        now
        h
        point
put-Grants point collection scope session now h s = (
  new_capability point collection scope session now,
  rw (find-put h h (new_capability point collection scope session now) s, eq_refl h),
  refl,
  refl,
  refl,
  refl,
  omega arith,
)

issue-Grants :
    (point : ℕ) (collection scope session : String) (now : ℕ) (token : String) (s : Store)
    → IsValid s
    → let (h, s') = issue point collection scope session now token s in
      Grants s' collection scope session now h point
unfolding issue
issue-Grants point collection scope session now token s v =
    elim (Option-cases (existing point scope session collection now (drop_expired now s))) [
      | inl e ↦
          rw (e, issue)
            (put-Grants point collection scope session now ("hsdbh_" <> token)
              (evict (length (drop_expired now s)) (drop_expired now s)))
      | inr (h, e) ↦
          rw (e, issue)
            (existing-Grants point scope session collection now h (drop_expired now s)
              (drop-IsValid now s v) e)
    ]

issue-of-mint :
    (v : Value) (i : ℕ) (collection scope session : String) (now : ℕ) (token : String)
    → (s s' : Store) (h : String) → point_slot v ≡ some i
    → mint v collection scope session now token s ≡ (some h, s')
    → issue i (Text.strip collection) scope session now token s ≡ (h, s')
unfolding mint
issue-of-mint v i collection scope session now token s s' h slot minted = ground arith

-- A handle that `mint` hands out for a point resolves at once to that point, in the same profile
-- and session and in the collection with its blanks stripped, and resolving changes nothing.
pub resolve_one-mint :
    (v : Value) (i : ℕ) (collection scope session : String) (now : ℕ) (token : String)
    → (s s' : Store) (h : String) → IsValid s
    → point_slot v ≡ some i
    → mint v collection scope session now token s ≡ (some h, s')
    → resolve_one (str h) (Text.strip collection) scope session now s' ≡ (granted i, s')
resolve_one-mint v i collection scope session now token s s' h valid slot minted =
    let issued = issue-of-mint v i collection scope session now token s s' h slot minted in
    let granted_now : Grants s' (Text.strip collection) scope session now h i =
      rw issued at (issue-Grants i (Text.strip collection) scope session now token s valid) in
    let valid' : IsValid s' =
      rw minted at (mint-IsValid v collection scope session now token s valid) in
    resolve_one-granted h (Text.strip collection) scope session now s' i
      (find-nonempty h granted_now.0 s' valid' granted_now.1) granted_now
