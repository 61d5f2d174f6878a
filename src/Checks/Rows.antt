-- ===== src/Checks/Rows.antt =====
-- The operations of a ledger of two records.
use hermes_hyperspacedb_prov.Prelude.{
  ◌≡◌, refl, false, some, [], ◌∷◌, arith, ◌==◌, ◌&&◌, ◌≤◌, ◌+◌, ltb, leb, max, if◌then◌else◌,
}
use hermes_hyperspacedb_prov.Text
use hermes_hyperspacedb_prov.Ledger.Tables.{
  LedgerRecord, active, delete_pending, find, holder, put, is_taken,
}
use hermes_hyperspacedb_prov.Ledger.Rows.{with_status}
use mathlib.Core.Option
use hermes_hyperspacedb_prov.Ledger.Updates.{
  IsConsistent, upsert-IsConsistent, get-upsert, get-set_status, IsMatch, IsOf, resolve-IsMatch,
  records_with_status-IsPage,
}
use hermes_hyperspacedb_prov.Ledger
use hermes_hyperspacedb_prov.Ledger.{Ledger}
use hermes_hyperspacedb_prov.Ledger.Ids.{
  allocate, observe, handed_out, IsAscending, handed_out-IsAscending,
}
use hermes_hyperspacedb_prov.Ledger.Retries.{due-note, note_bounds, due-note_times, note_times}
use hermes_hyperspacedb_prov.Prelude.Lists.{length, All, select}
use hermes_hyperspacedb_prov.Samples.{tea, coffee, ledger}
use hermes_hyperspacedb_prov.Checks.{ledger-IsConsistent}

abbrev fresh : LedgerRecord
fresh = record tea { digest = "7788"; external_id = 9 }

abbrev grown : Ledger
grown = record ledger { records = tea ∷ coffee ∷ fresh ∷ [] }

grows : Ledger.upsert fresh ledger ≡ some grown
unfolding Ledger.upsert is_taken holder find put
grows = refl

upsert-IsConsistent_example : IsConsistent grown
upsert-IsConsistent_example = upsert-IsConsistent fresh ledger grown ledger-IsConsistent grows

get-upsert_example :
    Ledger.get "ab12" grown
    ≡ (if fresh.digest == "ab12" then some fresh else Ledger.get "ab12" ledger)
get-upsert_example = get-upsert "ab12" fresh ledger grown grows

note_bounds_example :
    let (l', attempts) = Ledger.note_reconciliation_retry "ab12" 1000000 3 50 "now" ledger in
    (1 ≤ attempts) × (attempts ≤ max 1 3) × (Ledger.retry_delay 1000000 attempts ≤ Ledger.hour)
note_bounds_example = note_bounds "ab12" 1000000 3 50 "now" ledger

get-set_status_example :
    Ledger.get "ab12" (Ledger.set_status "ab12" delete_pending "gone" "now" ledger)
    ≡ Option.map
        (with_status "ab12" delete_pending (Text.take 1000 "gone") "now" "ab12")
        (Ledger.get "ab12" ledger)
get-set_status_example = get-set_status "ab12" "ab12" delete_pending "gone" "now" ledger

resolve-IsMatch_example : (Ledger.get "ab12" ledger ≡ some tea) × IsMatch "home" "user" "tea" tea
unfolding Ledger.resolve Ledger.resolves find select Text.contains Ledger.get
resolve-IsMatch_example =
    resolve-IsMatch "ab12" "home" "user" "tea" ledger tea ledger-IsConsistent refl

records_with_status-IsPage_example :
    All
      (λ q. (Ledger.get q.digest ledger ≡ some q) × IsOf active (some "home") q)
      (Ledger.records_with_status active 16 (some "home") ledger)
    × (length (Ledger.records_with_status active 16 (some "home") ledger) ≤ 128)
records_with_status-IsPage_example =
    records_with_status-IsPage active 16 (some "home") ledger ledger-IsConsistent

handed_out-IsAscending_example :
    IsAscending
      (Ledger.current_id ledger)
      (handed_out (allocate ∷ observe 25 ∷ allocate ∷ []) ledger)
handed_out-IsAscending_example =
    handed_out-IsAscending (allocate ∷ observe 25 ∷ allocate ∷ []) ledger

due-note_example :
    let (l', attempts) = Ledger.note_reconciliation_retry "ab12" 1000000 3 50 "now" ledger in
    Ledger.reconciliation_due "ab12" 3 60 l'
    ≡ (ltb attempts (max 1 3) && leb (50 + Ledger.retry_delay 1000000 attempts) 60)
due-note_example = due-note "ab12" 1000000 3 50 60 "now" ledger

due-note_times_example :
    Ledger.reconciliation_due "ab12" 3 9000
      (note_times 3 "ab12" 1000000 3 (λ n. n) (λ n. "now") ledger)
    ≡ false
due-note_times_example =
    due-note_times 3 "ab12" 1000000 3 9000 (λ n. n) (λ n. "now") ledger (omega arith)
