-- ===== src/Capability.antt =====
-- _capabilities.py: `CapabilityStore`, the handles by which a session names backend points. The
-- clock `time.monotonic()` and the fresh token `secrets.token_urlsafe(24)` are arguments.
pub mod Bounds
pub mod Scope
pub mod Resolve
use Prim.Native.String.{◌++◌ as ◌<>◌}
use hermes_hyperspacedb_prov.Prelude.{
  ℕ, zero, suc, ◌+◌, ◌^◌, String, Bool, true, false, not, ◌&&◌, ◌||◌, Option, none, some, List, [],
  ◌∷◌, ◌++◌, ltb, leb, eqb, ◌==◌, if◌then◌else◌,
}
use hermes_hyperspacedb_prov.Prelude.Lists.{length, select, any}
use hermes_hyperspacedb_prov.Text
use hermes_hyperspacedb_prov.Value.{Value, int, str, list, nil, cons, as_list}

-- The tuple `(point_id, scope, session, collection, expires_at)`; times are whole microseconds.
pub record Capability : Type 0 where
  pub point_id : ℕ
  pub scope : String
  pub session : String
  pub collection : String
  pub expires_at : ℕ

-- `self._capabilities`, in insertion order
abbrev pub Store : Type 0
Store = List (String × Capability)

-- `_CAPABILITY_MAX_ENTRIES` and `_CAPABILITY_TTL_SECONDS`
abbrev pub max_entries : ℕ
max_entries = 512

abbrev pub ttl : ℕ
ttl = 300000000

-- `clear`
abbrev pub clear : Store → Store
clear s = []

-- `self._capabilities.get(h)`
unfoldable pub find : String → Store → Option Capability
find h [] = none
find h ((k, c) ∷ s) = if k == h then some c else find h s

-- `self._capabilities.pop(h, None)`
unfoldable pub pop : String → Store → Store
pop h [] = []
pop h ((k, c) ∷ s) = let rest = pop h s in if k == h then s else (k, c) ∷ rest

-- `self._capabilities[h] = c`
unfoldable pub put : String → Capability → Store → Store
put h c [] = (h, c) ∷ []
put h c ((k, d) ∷ s) = if k == h then (k, c) ∷ s else (k, d) ∷ put h c s

-- A point slot: an int from 1 to 0xFFFFFFFF that is no bool.
unfoldable pub point_slot : Value → Option ℕ
point_slot (int n) = if leb 1 n && ltb n (2 ^ 32) then some n else none
point_slot _ = none

-- Drops what has expired.
unfoldable pub drop_expired : ℕ → Store → Store
drop_expired now [] = []
drop_expired now ((k, c) ∷ s) =
    let rest = drop_expired now s in if leb c.expires_at now then rest else (k, c) ∷ rest

-- The test of the search for a handle that can be used again.
unfoldable pub grants : ℕ → String → String → String → ℕ → Capability → Bool
grants point scope session collection now c =
    eqb c.point_id point
    && c.scope == scope
    && c.session == session
    && c.collection == collection
    && ltb now c.expires_at

unfoldable pub existing : ℕ → String → String → String → ℕ → Store → Option String
unfolding grants
existing point scope session collection now [] = none
existing point scope session collection now ((k, c) ∷ s) =
    if grants point scope session collection now c
    then some k
    else existing point scope session collection now s

-- `min(..., key=expires_at)`: the first of those that expire soonest
unfoldable pub soonest : String × Capability → Store → String × Capability
soonest best [] = best
soonest best (e ∷ s) = soonest (if ltb e.1.expires_at best.1.expires_at then e else best) s

-- One round of the eviction loop.
unfoldable pub evict_oldest : Store → Store
unfolding soonest
evict_oldest [] = []
evict_oldest (e ∷ s) = pop (soonest e s).0 (e ∷ s)

-- `while len(...) >= max_entries`, on fuel; each round drops one entry, so as many rounds as there
-- are entries are enough.
unfoldable pub evict : ℕ → Store → Store
unfolding evict_oldest
evict zero s = s
evict (suc fuel) s = elim (ltb (length s) max_entries) [
  | true ↦ s
  | false ↦ evict fuel (evict_oldest s)
]

abbrev pub new_capability : ℕ → String → String → String → ℕ → Capability
new_capability point collection scope session now = record {
  point_id = point;
  scope = scope;
  session = session;
  collection = collection;
  expires_at = now + ttl;
}

-- `mint` past its checks
unfoldable pub issue : ℕ → String → String → String → ℕ → String → Store → String × Store
unfolding drop_expired existing evict
issue point collection scope session now token s =
    let live = drop_expired now s in
    let handle = "hsdbh_" <> token in
    elim (existing point scope session collection now live) [
      | some h ↦ (h, live)
      | none ↦ (
        handle,
        put handle (new_capability point collection scope session now) (evict (length live) live),
      )
    ]

unfoldable pub mint : Value → String → String → String → ℕ → String → Store → Option String × Store
mint raw_id collection scope session now token s =
    let selected = Text.strip collection in
    elim (point_slot raw_id) [
      | none ↦ (none, s)
      | some point ↦
          if Text.is_empty selected
          then (none, s)
          else let (h, s') = issue point selected scope session now token s in (some h, s')
    ]

-- What `resolve_many` returns or raises.
pub data Resolved (A : Type 0) : Type 0 where
  granted : A → Resolved A
  bad_handles : Resolved A
  not_issued out_of_scope : Resolved A

-- `isinstance(h, str) and h`
unfoldable pub handle_texts : List Value → Option (List String)
handle_texts [] = some []
handle_texts (str h ∷ vs) =
    let rest = handle_texts vs in
    if Text.is_empty h then none else elim rest [ none ↦ none | some hs ↦ some (h ∷ hs) ]
handle_texts (_ ∷ vs) = none

unfoldable pub has_duplicates : List String → Bool
has_duplicates [] = false
has_duplicates (h ∷ hs) = any (λ k. k == h) hs || has_duplicates hs

-- A list of 1 to 16 unique texts.
unfoldable pub check_handles : Value → Option (List String)
unfolding handle_texts has_duplicates
check_handles v = elim (as_list v) [
  | none ↦ none
  | some vs ↦
      if leb 1 (length vs) && leb (length vs) 16
      then elim (handle_texts vs) [
        | none ↦ none
        | some hs ↦ if has_duplicates hs then none else some hs
      ]
      else none
]

-- The test for which `resolve_many` drops a capability.
unfoldable pub is_stale : String → String → String → ℕ → Capability → Bool
is_stale collection scope session now c =
    leb c.expires_at now
    || not (c.scope == scope)
    || not (c.session == session)
    || not (c.collection == collection)

abbrev pub prepend : ℕ → Resolved (List ℕ) × Store → Resolved (List ℕ) × Store
prepend i (granted ids, s) = (granted (i ∷ ids), s)
prepend i (bad_handles, s) = (bad_handles, s)
prepend i (not_issued, s) = (not_issued, s)
prepend i (out_of_scope, s) = (out_of_scope, s)

unfoldable pub resolve_loop :
    List String → String → String → String → ℕ → Store → Resolved (List ℕ) × Store
unfolding is_stale
resolve_loop [] collection scope session now s = (granted [], s)
resolve_loop (h ∷ hs) collection scope session now s = elim (find h s) [
  | none ↦ (not_issued, s)
  | some c ↦
      if is_stale collection scope session now c
      then (out_of_scope, pop h s)
      else prepend c.point_id (resolve_loop hs collection scope session now s)
]

unfoldable pub resolve_many :
    Value → String → String → String → ℕ → Store → Resolved (List ℕ) × Store
resolve_many handles collection scope session now s = elim (check_handles handles) [
  | none ↦ (bad_handles, s)
  | some hs ↦ resolve_loop hs collection scope session now s
]

-- `[...][0]`
abbrev pub first_id : Resolved (List ℕ) → Resolved ℕ
first_id (granted []) = bad_handles
first_id (granted (i ∷ ids)) = granted i
first_id bad_handles = bad_handles
first_id not_issued = not_issued
first_id out_of_scope = out_of_scope

unfoldable pub resolve_one : Value → String → String → String → ℕ → Store → Resolved ℕ × Store
unfolding resolve_many
resolve_one (str h) collection scope session now s =
    if Text.is_empty h
    then (bad_handles, s)
    else let (r, s') = resolve_many (list (cons (str h) nil)) collection scope session now s in
      (first_id r, s')
resolve_one _ collection scope session now s = (bad_handles, s)
