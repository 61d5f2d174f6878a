-- ===== src/Ledger/Updates.antt =====
-- `upsert`, `set_status`, `resolve` and `records_with_status` against what `get` returns.
use mathlib.Core.Option
use hermes_hyperspacedb_prov.Prelude.{
  ℕ, String, ◌≡◌, refl, Bool, Option, none, some, List, [], ◌∷◌, arith, ◌==◌, eq_iff, eq_refl,
  if◌then◌else◌,
}
use hermes_hyperspacedb_prov.Prelude.Lists.{
  length, length-take-le, take, select, All, All-select, All-take,
}
use hermes_hyperspacedb_prov.Prelude.{◌≤◌, ◌⊎◌, inl, inr, true, sym, ap, ◌∙◌, Bool-cases, eqb}
use hermes_hyperspacedb_prov.Text
use hermes_hyperspacedb_prov.Ledger.Tables.{
  LedgerRecord, Status, inserting, active, retry_pending, delete_pending, removed, replacing,
  replaced, conflict, status_code, is_status, find, place, order_rows,
}
use hermes_hyperspacedb_prov.Ledger.Rows.{
  IsUnique, find-put, put-IsUnique, update-IsUnique, find-update, with_status,
}
use hermes_hyperspacedb_prov.Ledger.{
  Ledger, upsert, get, resolve, resolves, set_status, records_with_status, has_status,
  bounded_limit,
}

-- The rows of the ledger have distinct digests and distinct external ids.
abbrev pub IsConsistent : Ledger → Type 0
IsConsistent l = IsUnique l.records

-- An upsert that goes through keeps digests and external ids distinct.
pub upsert-IsConsistent :
    (r : LedgerRecord) (l l' : Ledger) → IsConsistent l → upsert r l ≡ some l' → IsConsistent l'
unfolding upsert
upsert-IsConsistent r l l' u h = ground (arith, put-IsUnique r l.records u)

-- A status update keeps digests and external ids distinct.
pub set_status-IsConsistent :
    (d : String) (s : Status) (m now : String) (l : Ledger)
    → IsConsistent l
    → IsConsistent (set_status d s m now l)
unfolding set_status
set_status-IsConsistent d s m now l u = update-IsUnique d s (Text.take 1000 m) now l.records u

-- After an upsert its own digest has the new record, and every other digest what it had.
pub get-upsert :
    (d : String) (r : LedgerRecord) (l l' : Ledger)
    → upsert r l ≡ some l'
    → get d l' ≡ (if r.digest == d then some r else get d l)
unfolding upsert get
get-upsert d r l l' h = ground (arith, find-put d r l.records)

-- A status update changes the status, the error (cut to 1000 characters) and the time of its own
-- digest, and nothing of the others; it adds no row.
pub get-set_status :
    (d e : String) (s : Status) (m now : String) (l : Ledger)
    → get e (set_status d s m now l)
      ≡ Option.map (with_status d s (Text.take 1000 m) now e) (get e l)
unfolding get set_status
get-set_status d e s m now l = find-update d e s (Text.take 1000 m) now l.records

find-select-none :
    (d : String) (p : LedgerRecord → Bool) (l : List LedgerRecord)
    → find d l ≡ none
    → find d (select p l) ≡ none
unfolding find select
find-select-none d p [] h = refl
find-select-none d p (q ∷ l) h = ground (arith, find-select-none d p l)

abbrev pub keep_if : (LedgerRecord → Bool) → Option LedgerRecord → Option LedgerRecord
keep_if p none = none
keep_if p (some q) = if p q then some q else none

find-select :
    (d : String) (p : LedgerRecord → Bool) (l : List LedgerRecord)
    → IsUnique l
    → find d (select p l) ≡ keep_if p (find d l)
unfolding find select
find-select d p [] u = refl
find-select d p (q ∷ l) u =
    ground (arith, eq_iff q.digest d, find-select d p l u.2, find-select-none d p l)

-- The records that `resolve` finds, under their digests.
find-resolve :
    (d scope target old : String) (l : Ledger)
    → IsConsistent l
    → find d (resolve scope target old l) ≡ keep_if (resolves scope target old) (get d l)
unfolding resolve get
find-resolve d scope target old l u = find-select d (resolves scope target old) l.records u

-- A status by its code.
abbrev status_of : ℕ → Status
status_of n =
    if eqb n 0
    then inserting
    else if eqb n 1
    then active
    else if eqb n 2
    then retry_pending
    else if eqb n 3
    then delete_pending
    else if eqb n 4
    then removed
    else if eqb n 5
    then replacing
    else if eqb n 6
    then replaced
    else conflict

status_of-status_code : (s : Status) → status_of (status_code s) ≡ s
status_of-status_code inserting = refl
status_of-status_code active = refl
status_of-status_code retry_pending = refl
status_of-status_code delete_pending = refl
status_of-status_code removed = refl
status_of-status_code replacing = refl
status_of-status_code replaced = refl
status_of-status_code conflict = refl

is_status-eq : (a b : Status) → is_status a b ≡ true → a ≡ b
is_status-eq a b e =
    let same : status_code a ≡ status_code b = ground arith in
    sym (status_of-status_code a) ∙ ap status_of same ∙ status_of-status_code b

-- The record is of the profile and the target, is active or waits to be deleted, and has the text in
-- its content.
abbrev pub IsMatch : String → String → String → LedgerRecord → Type 0
IsMatch scope target old q =
    (q.profile_scope ≡ scope)
    × (q.target ≡ target)
    × ((q.status ≡ active) ⊎ (q.status ≡ delete_pending))
    × (Text.contains old q.content ≡ true)

resolves-IsMatch :
    (scope target old : String) (q : LedgerRecord)
    → resolves scope target old q ≡ true
    → IsMatch scope target old q
unfolding resolves
resolves-IsMatch scope target old q h = (
  ground (arith, eq_iff q.profile_scope scope),
  ground (arith, eq_iff q.target target),
  elim (Bool-cases (is_status q.status active)) [
    | inl t ↦ inl (is_status-eq q.status active t)
    | inr f ↦ inr (is_status-eq q.status delete_pending (ground arith))
  ],
  ground arith,
)

kept-IsMatch :
    (scope target old : String) (o : Option LedgerRecord) (q : LedgerRecord)
    → keep_if (resolves scope target old) o ≡ some q
    → (o ≡ some q) × IsMatch scope target old q
kept-IsMatch scope target old none q h = absurd (cc h)
kept-IsMatch scope target old (some r) q h = elim (Bool-cases (resolves scope target old r)) [
  | inl t ↦
      let same : r ≡ q = cc (rw t at h) in
      (ap some same, rw same at (resolves-IsMatch scope target old r t))
  | inr f ↦ absurd (cc (rw f at h))
]

-- Of a ledger with distinct digests, the record that `resolve` has under a digest is the one that the
-- ledger has under it; it is of the profile and the target, is active or waits to be deleted, and has
-- the old text in its content.
pub resolve-IsMatch :
    (d scope target old : String) (l : Ledger) (q : LedgerRecord)
    → IsConsistent l
    → find d (resolve scope target old l) ≡ some q
    → (get d l ≡ some q) × IsMatch scope target old q
resolve-IsMatch d scope target old l q u h =
    kept-IsMatch scope target old (get d l) q (sym (find-resolve d scope target old l u) ∙ h)

-- The record is what `get` returns for its digest.
abbrev Stored : List LedgerRecord → LedgerRecord → Type 0
Stored l q = find q.digest l ≡ some q

Stored-cons :
    (r : LedgerRecord) (l qs : List LedgerRecord)
    → find r.digest l ≡ none
    → All (Stored l) qs
    → All (Stored (r ∷ l)) qs
unfolding find
Stored-cons r l [] h a = tt
Stored-cons r l (q ∷ qs) h a = (ground (arith, eq_iff r.digest q.digest), Stored-cons r l qs h a.1)

All-Stored : (l : List LedgerRecord) → IsUnique l → All (Stored l) l
All-Stored [] u = tt
All-Stored (q ∷ l) u =
    (unfold find in rw (eq_refl q.digest), Stored-cons q l l u.0 (All-Stored l u.2))

All-place {ℓ} :
    (P : LedgerRecord → Type ℓ) (q : LedgerRecord) (l : List LedgerRecord)
    → P q
    → All P l
    → All P (place q l)
unfolding place
All-place P q [] h a = (h, a)
All-place P q (r ∷ l) h a = ground (arith, All-place P q l h a.1)

All-order_rows {ℓ} :
    (P : LedgerRecord → Type ℓ) (l : List LedgerRecord) → All P l → All P (order_rows l)
unfolding order_rows
All-order_rows P [] a = a
All-order_rows P (q ∷ l) a = All-place P q (order_rows l) a.0 (All-order_rows P l a.1)

-- The record has the status, and is of the profile where one is given.
abbrev pub IsOf : Status → Option String → LedgerRecord → Type 0
IsOf s none q = q.status ≡ s
IsOf s (some scope) q = (q.status ≡ s) × (q.profile_scope ≡ scope)

has_status-IsOf :
    (s : Status) (scope : Option String) (q : LedgerRecord)
    → has_status s scope q ≡ true
    → IsOf s scope q
unfolding has_status
has_status-IsOf s none q h = is_status-eq q.status s h
has_status-IsOf s (some scope) q h =
    (is_status-eq q.status s (ground arith), ground (arith, eq_iff q.profile_scope scope))

select-IsOf :
    (s : Status) (scope : Option String) (qs : List LedgerRecord)
    → All (IsOf s scope) (select (has_status s scope) qs)
unfolding select
select-IsOf s scope [] = tt
select-IsOf s scope (q ∷ qs) = elim (Bool-cases (has_status s scope q)) [
  | inl t ↦ rw (t, select) (has_status-IsOf s scope q t, select-IsOf s scope qs)
  | inr f ↦ rw (f, select) (select-IsOf s scope qs)
]

All-both {ℓ κ} :
    {A : Type 0} (P : A → Type ℓ) (Q : A → Type κ) (xs : List A)
    → All P xs
    → All Q xs
    → All (λ x. P x × Q x) xs
All-both P Q [] p q = tt
All-both P Q (x ∷ xs) p q = ((p.0, q.0), All-both P Q xs p.1 q.1)

All-page {ℓ} :
    (P : LedgerRecord → Type ℓ) (n : ℕ) (qs : List LedgerRecord)
    → All P qs
    → All P (take n (order_rows qs))
All-page P n qs a = All-take P n (order_rows qs) (All-order_rows P qs a)

-- Of a ledger with distinct digests, every record of a page is what the ledger has under its digest,
-- has the status, and is of the profile where one is given; and a page has at most 128 records.
pub records_with_status-IsPage :
    (s : Status) (limit : ℕ) (scope : Option String) (l : Ledger)
    → IsConsistent l
    → All (λ q. (get q.digest l ≡ some q) × IsOf s scope q) (records_with_status s limit scope l)
      × (length (records_with_status s limit scope l) ≤ 128)
unfolding records_with_status get
records_with_status-IsPage s limit scope l u =
    let rows = select (has_status s scope) l.records in
    (
      All-both (Stored l.records) (IsOf s scope) _
          (All-page (Stored l.records) (bounded_limit limit) rows
            (All-select (Stored l.records) (has_status s scope) l.records (All-Stored l.records u)))
          (All-page (IsOf s scope) (bounded_limit limit) rows (select-IsOf s scope l.records)),
      omega (arith, length-take-le (bounded_limit limit) (order_rows rows)),
    )
