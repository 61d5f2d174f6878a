-- ===== src/Ledger/Tables.antt =====
-- The rows of the SQLite tables of _ledger.py, and what SQL does to a table: a lookup by the
-- primary key, an upsert under two uniqueness constraints, a filter, an ORDER BY.
use Prim.Native.Nat.{Ordering}
use Prim.Native.String.{compare}
use hermes_hyperspacedb_prov.Prelude.{
  ℕ, String, Bool, true, false, not, ◌&&◌, ◌||◌, Option, none, some, List, [], ◌∷◌, leb, eqb, ◌==◌,
  if◌then◌else◌,
}

-- The texts that the program stores in the `status` column.
pub data Status : Type 0 where
  inserting active retry_pending delete_pending removed replacing replaced conflict : Status

abbrev pub status_code : Status → ℕ
status_code inserting = 0
status_code active = 1
status_code retry_pending = 2
status_code delete_pending = 3
status_code removed = 4
status_code replacing = 5
status_code replaced = 6
status_code conflict = 7

-- `status=?`
abbrev pub is_status : Status → Status → Bool
is_status s t = eqb (status_code s) (status_code t)

-- `class LedgerRecord`; point ids are uint32, so they are natural numbers.
pub record LedgerRecord : Type 0 where
  pub digest : String
  pub external_id : ℕ
  pub profile_scope : String
  pub target : String
  pub source : String
  pub content : String
  pub status : Status
  pub error : String
  pub updated_at : String

-- A row of `mutation_failures`.
pub record Failure : Type 0 where
  pub profile_scope : String
  pub action : String
  pub target : String
  pub content : String
  pub old_text : String
  pub error_code : String
  pub error : String
  pub created_at : String

-- A row of `reconciliation_retries`; times are whole microseconds.
pub record Retry : Type 0 where
  pub digest : String
  pub attempts : ℕ
  pub next_retry_epoch : ℕ
  pub updated_at : String

-- A row of `operator_receipts`.
pub record Receipt : Type 0 where
  pub token : String
  pub operation : String
  pub payload : String
  pub created_at : String

-- `WHERE digest=?`
unfoldable pub find : String → List LedgerRecord → Option LedgerRecord
find d [] = none
find d (q ∷ l) = if q.digest == d then some q else find d l

-- The row that holds an external id.
unfoldable pub holder : ℕ → List LedgerRecord → Option LedgerRecord
holder i [] = none
holder i (q ∷ l) = if eqb q.external_id i then some q else holder i l

-- Another digest's row holds the id: the UNIQUE constraint on `external_id` fails.
unfoldable pub is_taken : LedgerRecord → List LedgerRecord → Bool
is_taken r [] = false
is_taken r (q ∷ l) = (not (q.digest == r.digest) && eqb q.external_id r.external_id) || is_taken r l

-- `INSERT ... ON CONFLICT(digest) DO UPDATE SET ...`
unfoldable pub put : LedgerRecord → List LedgerRecord → List LedgerRecord
put r [] = r ∷ []
put r (q ∷ l) = if q.digest == r.digest then r ∷ l else q ∷ put r l

-- `UPDATE records SET status=?, error=?, updated_at=? WHERE digest=?`
unfoldable pub update_status :
    String → Status → String → String → List LedgerRecord → List LedgerRecord
update_status d s e now [] = []
update_status d s e now (q ∷ l) =
    (if q.digest == d then record q { status = s; error = e; updated_at = now } else q)
    ∷ update_status d s e now l

-- `updated_at, external_id` in ascending order
unfoldable pub is_before : LedgerRecord → LedgerRecord → Bool
is_before a b = elim (compare a.updated_at b.updated_at) [
  | Ordering.lt ↦ true
  | Ordering.gt ↦ false
  | Ordering.eq ↦ leb a.external_id b.external_id
]

unfoldable pub place : LedgerRecord → List LedgerRecord → List LedgerRecord
unfolding is_before
place r [] = r ∷ []
place r (q ∷ l) = let rest = place r l in if is_before r q then r ∷ q ∷ l else q ∷ rest

-- `ORDER BY updated_at, external_id`
unfoldable pub order_rows : List LedgerRecord → List LedgerRecord
unfolding place
order_rows [] = []
order_rows (q ∷ l) = place q (order_rows l)

-- `target, content` in ascending order
unfoldable pub is_listed_before : LedgerRecord → LedgerRecord → Bool
is_listed_before a b = elim (compare a.target b.target) [
  | Ordering.lt ↦ true
  | Ordering.gt ↦ false
  | Ordering.eq ↦ elim (compare a.content b.content) [
    | Ordering.lt ↦ true
    | Ordering.gt ↦ false
    | Ordering.eq ↦ true
  ]
]

unfoldable pub place_listed : LedgerRecord → List LedgerRecord → List LedgerRecord
unfolding is_listed_before
place_listed r [] = r ∷ []
place_listed r (q ∷ l) =
    let rest = place_listed r l in if is_listed_before r q then r ∷ q ∷ l else q ∷ rest

-- `ORDER BY target, content`
unfoldable pub list_rows : List LedgerRecord → List LedgerRecord
unfolding place_listed
list_rows [] = []
list_rows (q ∷ l) = place_listed q (list_rows l)

unfoldable pub find_retry : String → List Retry → Option Retry
find_retry d [] = none
find_retry d (q ∷ l) = if q.digest == d then some q else find_retry d l

unfoldable pub put_retry : Retry → List Retry → List Retry
put_retry r [] = r ∷ []
put_retry r (q ∷ l) = if q.digest == r.digest then r ∷ l else q ∷ put_retry r l

unfoldable pub delete_retry : String → List Retry → List Retry
delete_retry d [] = []
delete_retry d (q ∷ l) = let rest = delete_retry d l in if q.digest == d then rest else q ∷ rest

unfoldable pub find_receipt : String → List Receipt → Option Receipt
find_receipt t [] = none
find_receipt t (q ∷ l) = if q.token == t then some q else find_receipt t l
