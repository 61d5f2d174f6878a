-- ===== src/Ledger.antt =====
-- _ledger.py: `IdentityLedger`, each method as a function on the five tables. The clock is an
-- argument: `now` is `_utc_now()`, `moment` is `time.time()` in microseconds.
pub mod Tables
pub mod Rows
pub mod Ids
pub mod Retries
pub mod Updates
use hermes_hyperspacedb_prov.Prelude.{
  ℕ, ◌+◌, ◌-◌, ◌*◌, ◌^◌, min, max, String, Bool, true, ◌&&◌, ◌||◌, Option, none, some, List, [],
  ◌∷◌, ◌++◌, ltb, leb, ◌==◌, if◌then◌else◌,
}
use hermes_hyperspacedb_prov.Prelude.Lists.{take, select, length}
use hermes_hyperspacedb_prov.Text
use Tables.{
  Status, active, delete_pending, is_status, LedgerRecord, Failure, Retry, Receipt, find, is_taken,
  put, update_status, order_rows, list_rows, find_retry, put_retry, delete_retry, find_receipt,
}

-- The tables `records`, `mutation_failures`, `reconciliation_retries`, `operator_receipts`, and the
-- `next_external_id` row of `meta`.
pub record Ledger : Type 0 where
  pub records : List LedgerRecord
  pub failures : List Failure
  pub retries : List Retry
  pub receipts : List Receipt
  pub next_id : Option ℕ

-- A new database file.
abbrev pub empty : Ledger
empty = record { records = []; failures = []; retries = []; receipts = []; next_id = none }

-- `none` is `sqlite3.IntegrityError`: the id is another digest's.
unfoldable pub upsert : LedgerRecord → Ledger → Option Ledger
upsert r l = if is_taken r l.records then none else some (record l { records = put r l.records })

unfoldable pub get : String → Ledger → Option LedgerRecord
get digest l = find digest l.records

-- The rows that `resolve` selects, and its test for the old text.
unfoldable pub resolves : String → String → String → LedgerRecord → Bool
resolves scope target old_text q =
    q.profile_scope == scope
    && q.target == target
    && (is_status q.status active || is_status q.status delete_pending)
    && Text.contains old_text q.content

unfoldable pub resolve : String → String → String → Ledger → List LedgerRecord
unfolding resolves
resolve scope target old_text l = select (resolves scope target old_text) l.records

unfoldable pub set_status : String → Status → String → String → Ledger → Ledger
set_status digest status error now l = record l {
  records = update_status digest status (Text.take 1000 error) now l.records;
}

-- The row ids are the positions in the list.
unfoldable pub record_failure :
    String → String → String → String → String → String → String → String → Ledger → Ledger
record_failure scope action target content old_text code error now l = record l {
  failures =
      l.failures
      ++ (record {
        profile_scope = scope;
        action = action;
        target = target;
        content = content;
        old_text = old_text;
        error_code = code;
        error = Text.take 1000 error;
        created_at = now;
      })
        ∷ [];
}

abbrev is_or_any : Option String → String → Bool
is_or_any none s = true
is_or_any (some t) s = s == t

-- The rows that `active_records` selects; `None` selects every target or profile.
unfoldable pub is_active : Option String → Option String → LedgerRecord → Bool
is_active target scope q =
    is_status q.status active && is_or_any target q.target && is_or_any scope q.profile_scope

unfoldable pub active_records : Option String → Option String → Ledger → List LedgerRecord
unfolding is_active
active_records target scope l = list_rows (select (is_active target scope) l.records)

-- `limit` of `records_with_status`
abbrev pub bounded_limit : ℕ → ℕ
bounded_limit limit = max 1 (min limit 128)

-- `None` selects every profile.
unfoldable pub has_status : Status → Option String → LedgerRecord → Bool
has_status status none q = is_status q.status status
has_status status (some scope) q = is_status q.status status && q.profile_scope == scope

unfoldable pub records_with_status : Status → ℕ → Option String → Ledger → List LedgerRecord
unfolding has_status
records_with_status status limit scope l =
    take (bounded_limit limit) (order_rows (select (has_status status scope) l.records))

unfoldable pub reconciliation_due : String → ℕ → ℕ → Ledger → Bool
reconciliation_due digest max_attempts moment l = elim (find_retry digest l.retries) [
  | none ↦ true
  | some row ↦ ltb row.attempts (max 1 max_attempts) && leb row.next_retry_epoch moment
]

abbrev pub hour : ℕ
hour = 3600000000

-- `attempts` of `note_reconciliation_retry`
unfoldable pub next_attempts : String → ℕ → Ledger → ℕ
next_attempts digest max_attempts l = elim (find_retry digest l.retries) [
  | none ↦ min 1 (max 1 max_attempts)
  | some row ↦ min (row.attempts + 1) (max 1 max_attempts)
]

-- `delay` of `note_reconciliation_retry`
unfoldable pub retry_delay : ℕ → ℕ → ℕ
retry_delay base_delay attempts = min (base_delay * 2 ^ (min (attempts - 1) 10)) hour

-- The row that `note_reconciliation_retry` writes.
unfoldable pub retry_row : String → ℕ → ℕ → ℕ → String → Ledger → Retry
retry_row digest base_delay max_attempts moment now l =
    let attempts = next_attempts digest max_attempts l in
    record {
      digest = digest;
      attempts = attempts;
      next_retry_epoch = moment + retry_delay base_delay attempts;
      updated_at = now;
    }

unfoldable pub note_reconciliation_retry : String → ℕ → ℕ → ℕ → String → Ledger → Ledger × ℕ
unfolding retry_row
note_reconciliation_retry digest base_delay max_attempts moment now l = (
  record l {
    retries = put_retry (retry_row digest base_delay max_attempts moment now l) l.retries;
  },
  next_attempts digest max_attempts l,
)

unfoldable pub clear_reconciliation_retry : String → Ledger → Ledger
clear_reconciliation_retry digest l = record l { retries = delete_retry digest l.retries }

unfoldable pub get_operator_receipt : String → Ledger → Option Receipt
get_operator_receipt token l = find_receipt token l.receipts

-- `INSERT OR IGNORE`: a token that is known keeps its receipt.
unfoldable pub put_operator_receipt : String → String → String → String → Ledger → Ledger
put_operator_receipt token operation payload now l = elim (find_receipt token l.receipts) [
  | some row ↦ l
  | none ↦ record l {
    receipts =
        l.receipts
        ++ (record { token = token; operation = operation; payload = payload; created_at = now })
          ∷ [];
  }
]

unfoldable pub failure_count : Ledger → ℕ
failure_count l = length l.failures

-- `current` of `next_external_id`
unfoldable pub current_id : Ledger → ℕ
current_id l = elim l.next_id [ none ↦ 1 | some n ↦ n ]

unfoldable pub next_external_id : Ledger → Ledger × ℕ
unfolding current_id
next_external_id l = (record l { next_id = some (current_id l + 1) }, current_id l)

unfoldable pub observe_external_id : ℕ → Ledger → Ledger
observe_external_id i l = elim l.next_id [
  | none ↦ l
  | some n ↦ if leb n i then record l { next_id = some (i + 1) } else l
]
