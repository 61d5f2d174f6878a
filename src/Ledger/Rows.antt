-- ===== src/Ledger/Rows.antt =====
-- The table `records`: lemmas on its lookups, its upsert and its update.
use mathlib.Core.Option
use hermes_hyperspacedb_prov.Prelude.{
  ℕ, String, ◌≡◌, ◌≢◌, refl, true, false, none, some, List, [], ◌∷◌, arith, ◌==◌, eq_iff, eq_refl,
  eqb, Bool-cases, inl, inr, if◌then◌else◌,
}
use hermes_hyperspacedb_prov.Ledger.Tables.{
  LedgerRecord, find, holder, is_taken, put, Status, update_status,
}

-- No two rows share a digest, and no two share an external id.
abbrev pub IsUnique : List LedgerRecord → Type 0
IsUnique [] = Unit
IsUnique (q ∷ l) = (find q.digest l ≡ none) × (holder q.external_id l ≡ none) × IsUnique l

pub find-put :
    (d : String) (r : LedgerRecord) (l : List LedgerRecord)
    → find d (put r l) ≡ (if r.digest == d then some r else find d l)
unfolding find put
find-put d r [] = refl
find-put d r (q ∷ l) =
    ground (arith, eq_iff q.digest r.digest, eq_iff r.digest d, eq_iff q.digest d, find-put d r l)

holder-put_ne :
    (i : ℕ) (r : LedgerRecord) (l : List LedgerRecord)
    → eqb r.external_id i ≡ false
    → holder i l ≡ none
    → holder i (put r l) ≡ none
unfolding holder put
holder-put_ne i r [] h k = ground arith
holder-put_ne i r (q ∷ l) h k = ground (arith, holder-put_ne i r l)

-- Where the digest is new and the id is not another's, nobody holds the id.
free-of-not-taken :
    (r : LedgerRecord) (l : List LedgerRecord)
    → find r.digest l ≡ none
    → is_taken r l ≡ false
    → holder r.external_id l ≡ none
unfolding find is_taken holder
free-of-not-taken r [] h k = refl
free-of-not-taken r (q ∷ l) h k = ground (arith, free-of-not-taken r l)

pub put-IsUnique :
    (r : LedgerRecord) (l : List LedgerRecord)
    → IsUnique l
    → is_taken r l ≡ false
    → IsUnique (put r l)
unfolding put is_taken
put-IsUnique r [] u k = unfold find holder in (refl, refl, tt)
put-IsUnique r (q ∷ l) u k = ground (
  arith,
  eq_iff q.digest r.digest,
  eq_iff r.digest q.digest,
  free-of-not-taken r l,
  find-put q.digest r l,
  holder-put_ne q.external_id r l,
  put-IsUnique r l u.2,
)

update-digests :
    (d e : String) (s : Status) (m now : String) (l : List LedgerRecord)
    → find e l ≡ none
    → find e (update_status d s m now l) ≡ none
unfolding find update_status
update-digests d e s m now [] h = refl
update-digests d e s m now (q ∷ l) h = ground (arith, update-digests d e s m now l)

update-holders :
    (i : ℕ) (d : String) (s : Status) (m now : String) (l : List LedgerRecord)
    → holder i l ≡ none
    → holder i (update_status d s m now l) ≡ none
unfolding holder update_status
update-holders i d s m now [] h = refl
update-holders i d s m now (q ∷ l) h = ground (arith, update-holders i d s m now l)

pub update-IsUnique :
    (d : String) (s : Status) (m now : String) (l : List LedgerRecord)
    → IsUnique l
    → IsUnique (update_status d s m now l)
unfolding update_status
update-IsUnique d s m now [] u = tt
update-IsUnique d s m now (q ∷ l) u = ground (
  arith,
  update-digests d q.digest s m now l,
  update-holders q.external_id d s m now l,
  update-IsUnique d s m now l u.2,
)

abbrev pub with_status : String → Status → String → String → String → LedgerRecord → LedgerRecord
with_status d s m now e q =
    if d == e then record q { status = s; error = m; updated_at = now } else q

pub find-update :
    (d e : String) (s : Status) (m now : String) (l : List LedgerRecord)
    → find e (update_status d s m now l) ≡ Option.map (with_status d s m now e) (find e l)
unfolding find update_status
find-update d e s m now [] = refl
find-update d e s m now (q ∷ l) =
    ground (arith, eq_iff q.digest d, eq_iff q.digest e, eq_iff d e, find-update d e s m now l)

-- A refusal shows the row that stands in the way.
abbrev pub Blocks : LedgerRecord → LedgerRecord → List LedgerRecord → Type 0
Blocks r q l = (q.digest ≢ r.digest) × (q.external_id ≡ r.external_id) × (find q.digest l ≢ none)

Blocks-cons :
    (r p : LedgerRecord) (l : List LedgerRecord)
    → (q : LedgerRecord) × Blocks r q l
    → (q : LedgerRecord) × Blocks r q (p ∷ l)
unfolding find
Blocks-cons r p l (q, b) = (q, ground arith)

pub is_taken-Blocks :
    (r : LedgerRecord) (l : List LedgerRecord)
    → is_taken r l ≡ true
    → (q : LedgerRecord) × Blocks r q l
unfolding is_taken
is_taken-Blocks r [] h = cc
is_taken-Blocks r (q ∷ l) h = elim (Bool-cases (is_taken r l)) [
  | inl later ↦ Blocks-cons r q l (is_taken-Blocks r l later)
  | inr here ↦ (q, unfold find in ground (arith, eq_iff q.digest r.digest, eq_refl q.digest))
]
