-- ===== src/Ledger/Retries.antt =====
-- The retry schedule of a pending delete: `note_reconciliation_retry` and `reconciliation_due`.
use hermes_hyperspacedb_prov.Prelude.{
  ℕ, zero, suc, ◌+◌, ◌≤◌, min, max, String, ◌≡◌, refl, false, ◌&&◌, none, some, List, [], ◌∷◌,
  arith, ltb, leb, ◌==◌, eq_iff, eq_refl, if◌then◌else◌,
}
use hermes_hyperspacedb_prov.Ledger.Tables.{Retry, find_retry, put_retry, delete_retry}
use hermes_hyperspacedb_prov.Ledger.{
  Ledger, reconciliation_due, next_attempts, retry_delay, retry_row, note_reconciliation_retry,
  hour,
}

find-put_retry :
    (d : String) (r : Retry) (l : List Retry)
    → find_retry d (put_retry r l) ≡ (if r.digest == d then some r else find_retry d l)
unfolding find_retry put_retry
find-put_retry d r [] = refl
find-put_retry d r (q ∷ l) =
    ground
      (arith, eq_iff q.digest r.digest, eq_iff r.digest d, eq_iff q.digest d, find-put_retry d r l)

find-delete_retry :
    (d e : String) (l : List Retry)
    → find_retry e (delete_retry d l) ≡ (if d == e then none else find_retry e l)
unfolding find_retry delete_retry
find-delete_retry d e [] = ground arith
find-delete_retry d e (q ∷ l) =
    ground (arith, eq_iff q.digest d, eq_iff d e, eq_iff q.digest e, find-delete_retry d e l)

find-note :
    (d e : String) (base most moment : ℕ) (now : String) (l : Ledger)
    → find_retry e (note_reconciliation_retry d base most moment now l).0.retries
      ≡ (if d == e then some (retry_row d base most moment now l) else find_retry e l.retries)
unfolding note_reconciliation_retry
find-note d e base most moment now l =
    find-put_retry e (retry_row d base most moment now l) l.retries

-- After a failed attempt the digest is due again at exactly the moments past the delay, provided
-- that the attempts are not used up.
pub due-note :
    (d : String) (base most moment t : ℕ) (now : String) (l : Ledger)
    → let (l', attempts) = note_reconciliation_retry d base most moment now l in
      reconciliation_due d most t l'
      ≡ (ltb attempts (max 1 most) && leb (moment + retry_delay base attempts) t)
unfolding reconciliation_due
due-note d base most moment t now l =
    rw (find-note d d base most moment now l, reconciliation_due, eq_refl d)
      (unfold note_reconciliation_retry in refl)

-- The attempts that are recorded lie between 1 and the most, and the delay is at most an hour.
pub note_bounds :
    (d : String) (base most moment : ℕ) (now : String) (l : Ledger)
    → let (l', attempts) = note_reconciliation_retry d base most moment now l in
      (1 ≤ attempts) × (attempts ≤ max 1 most) × (retry_delay base attempts ≤ hour)
unfolding note_reconciliation_retry next_attempts retry_delay
note_bounds d base most moment now l = ground arith

-- A failed attempt on one digest leaves the schedule of the others as it was.
pub due-note_ne :
    (d e : String) (base most moment t : ℕ) (now : String) (l : Ledger)
    → (d == e) ≡ false
    → reconciliation_due e most t (note_reconciliation_retry d base most moment now l).0
      ≡ reconciliation_due e most t l
unfolding reconciliation_due
due-note_ne d e base most moment t now l h =
    rw (find-note d e base most moment now l, reconciliation_due, h)

-- n failed attempts, one after another, each at its own moment.
unfoldable pub note_times : ℕ → String → ℕ → ℕ → (ℕ → ℕ) → (ℕ → String) → Ledger → Ledger
note_times zero d base most moments stamps l = l
note_times (suc n) d base most moments stamps l =
    (note_reconciliation_retry d base most (moments n) (stamps n)
      (note_times n d base most moments stamps l)).0

attempts_of : String → Ledger → ℕ
attempts_of d l = elim (find_retry d l.retries) [ none ↦ 0 | some row ↦ row.attempts ]

attempts-note :
    (d : String) (base most moment : ℕ) (now : String) (l : Ledger)
    → attempts_of d (note_reconciliation_retry d base most moment now l).0
      ≡ min (attempts_of d l + 1) (max 1 most)
unfolding attempts_of
attempts-note d base most moment now l =
    rw (find-note d d base most moment now l, attempts_of, eq_refl d)
      (unfold retry_row next_attempts in ground arith)

attempts-note_times :
    (n : ℕ) (d : String) (base most : ℕ) (moments : ℕ → ℕ) (stamps : ℕ → String) (l : Ledger)
    → min n (max 1 most) ≤ attempts_of d (note_times n d base most moments stamps l)
unfolding note_times
attempts-note_times zero d base most moments stamps l = omega arith
attempts-note_times (suc n) d base most moments stamps l = omega (
  arith,
  attempts-note d base most (moments n) (stamps n) (note_times n d base most moments stamps l),
  attempts-note_times n d base most moments stamps l,
)

due_below :
    (d : String) (most t : ℕ) (l : Ledger)
    → max 1 most ≤ attempts_of d l
    → reconciliation_due d most t l ≡ false
unfolding attempts_of reconciliation_due
due_below d most t l h = ground arith

-- After as many failed attempts as the most allows, the digest is never due again, at any moment:
-- the automatic retries end.
pub due-note_times :
    (n : ℕ) (d : String) (base most t : ℕ) (moments : ℕ → ℕ) (stamps : ℕ → String) (l : Ledger)
    → max 1 most ≤ n
    → reconciliation_due d most t (note_times n d base most moments stamps l) ≡ false
due-note_times n d base most t moments stamps l h =
    due_below d most t (note_times n d base most moments stamps l)
      (omega (arith, attempts-note_times n d base most moments stamps l))
