-- ===== src/Reconcile.antt =====
-- _provider.py: `reconcile_pending_inserts` and `reconcile_delete_pending`, which settle what earlier
-- mutations have left open.
pub mod Guarded
pub mod Settled
use Prim.Native.String.{◌++◌ as ◌<>◌}
use hermes_hyperspacedb_prov.Prelude.{
  ℕ, suc, ◌+◌, max, min, String, Bool, true, false, not, Option, none, some, List, [], ◌∷◌, ◌++◌,
  leb, is_some, if◌then◌else◌,
}
use hermes_hyperspacedb_prov.Prelude.Lists.{take}
use hermes_hyperspacedb_prov.Text
use hermes_hyperspacedb_prov.Value.{Value, int}
use hermes_hyperspacedb_prov.Errors.{ProviderError, fail, configuration_error}
use hermes_hyperspacedb_prov.World.{Env}
use hermes_hyperspacedb_prov.Exec.{Exec, pure, raise, gets, ◌>>=◌, ◌>>◌, catch, raise_if}
use hermes_hyperspacedb_prov.Config.{Config}
use hermes_hyperspacedb_prov.Ledger
use hermes_hyperspacedb_prov.Ledger.{Ledger}
use hermes_hyperspacedb_prov.Ledger.Tables.{
  LedgerRecord, Status, inserting, retry_pending, active, conflict, delete_pending, removed,
}
use hermes_hyperspacedb_prov.Provider.{
  Provider, utc_now, time_now, monotonic_now, backend_proven_alive, the_ledger, put_ledger,
}
use hermes_hyperspacedb_prov.Provider.Contract.{require_collection_contract}
use hermes_hyperspacedb_prov.Mutation.{
  set_status, owner_matches, fetch, list_reply, delete_verified,
}

-- `result`; `done` counts under "active" or "removed".
pub record Counts : Type 0 where
  pub attempted : ℕ
  pub done : ℕ
  pub conflicts : ℕ
  pub deferred : ℕ

abbrev pub no_counts : Counts
no_counts = record { attempted = 0; done = 0; conflicts = 0; deferred = 0 }

-- How an attempt for a record ends.
pub data Outcome : Type 0 where
  settled : Outcome
  conflicting : Outcome
  put_off : Outcome

unfoldable pub tally : Outcome → Counts → Counts
tally settled k = record k { attempted = k.attempted + 1; done = k.done + 1 }
tally conflicting k = record k { attempted = k.attempted + 1; conflicts = k.conflicts + 1 }
tally put_off k = record k { attempted = k.attempted + 1; deferred = k.deferred + 1 }

module _ (env : Env) where
  -- `self._ledger.clear_reconciliation_retry(digest)`
  unfoldable pub clear_retry : String → Exec Provider (Unit {0})
  clear_retry digest = do l ← the_ledger; put_ledger (Ledger.clear_reconciliation_retry digest l)

  -- `self._ledger.note_reconciliation_retry(...)`
  unfoldable pub note_retry : String → Exec Provider ℕ
  note_retry digest = do
    c ← gets (λ p. p.config)
    l ← the_ledger
    moment ← time_now env
    now ← utc_now env
    let (l', attempts) =
        Ledger.note_reconciliation_retry digest c.reconcile_base_delay c.reconcile_max_attempts
          moment now l
    put_ledger l'
    pure attempts

  -- The branches of `reconcile_pending_inserts` on the points that were read.
  unfoldable pub judge_insert : LedgerRecord → List Value → Exec Provider Outcome
  judge_insert r [] = do
    backend_proven_alive env
    set_status env r.digest retry_pending "Remote insert absence confirmed; explicit retry required"
    pure put_off
  judge_insert r (point ∷ rest) = do
    matches ← owner_matches env point r.digest
    if matches then (do set_status env r.digest active ""; pure settled) else do
      set_status env r.digest conflict "Pending insert ID is not authenticated ownership"
      pure conflicting

  -- One round of the loop of `reconcile_pending_inserts`.
  unfoldable pub check_insert : LedgerRecord → Exec Provider Outcome
  unfolding judge_insert
  check_insert r =
      catch (do reply ← fetch env r.external_id; points ← list_reply reply; judge_insert r points)
        (λ e. do set_status env r.digest retry_pending e.message; pure put_off)

  unfoldable pub check_inserts : List LedgerRecord → Counts → Exec Provider Counts
  unfolding check_insert
  check_inserts [] k = pure k
  check_inserts (r ∷ rs) k = do outcome ← check_insert r; check_inserts rs (tally outcome k)

  -- `reconcile_pending_inserts`
  unfoldable pub reconcile_pending_inserts : ℕ → Exec Provider Counts
  unfolding check_inserts
  reconcile_pending_inserts limit = do
    initialized ← gets (λ p. is_some p.ledger)
    raise_if (not initialized) (fail configuration_error "Provider is not initialized")
    c ← gets (λ p. p.config)
    l ← the_ledger
    if Text.is_empty c.ownership_hmac_key
        then pure no_counts
        else check_inserts
            (take (max 1 (min limit 128)) (
              Ledger.records_with_status inserting limit (some c.profile_scope) l
              ++ Ledger.records_with_status retry_pending limit (some c.profile_scope) l))
            no_counts

  -- The branches of `reconcile_delete_pending` on the points that were read.
  unfoldable pub judge_delete : LedgerRecord → List Value → Exec Provider Outcome
  unfolding clear_retry
  judge_delete r [] = do
    backend_proven_alive env
    set_status env r.digest removed ""
    clear_retry r.digest
    pure settled
  judge_delete r (point ∷ rest) = do
    matches ← owner_matches env point r.digest
    if not matches
        then (do
          set_status env r.digest conflict "Pending delete no longer has authenticated ownership"
          clear_retry r.digest
          pure conflicting)
        else do
          delete_verified env r
          set_status env r.digest removed ""
          clear_retry r.digest
          pure settled

  -- One round of the loop of `reconcile_delete_pending`, once the record is due.
  unfoldable pub check_deletion : LedgerRecord → Exec Provider Outcome
  unfolding judge_delete note_retry
  check_deletion r =
      catch (do reply ← fetch env r.external_id; points ← list_reply reply; judge_delete r points)
        (λ e. do
          attempts ← note_retry r.digest
          set_status env r.digest delete_pending
              (e.message <> ("; retry " <> env.str_of (int attempts)))
          pure put_off)

  -- `deadline is not None and time.monotonic() >= deadline`
  unfoldable pub is_over : Option ℕ → Exec Provider Bool
  is_over none = pure false
  is_over (some deadline) = do now ← monotonic_now env; pure (leb deadline now)

  unfoldable pub is_due : String → Exec Provider Bool
  is_due digest = do
    c ← gets (λ p. p.config)
    l ← the_ledger
    moment ← time_now env
    pure (Ledger.reconciliation_due digest c.reconcile_max_attempts moment l)

  unfoldable pub check_deletions : Option ℕ → List LedgerRecord → Counts → Exec Provider Counts
  unfolding check_deletion is_over is_due
  check_deletions deadline [] k = pure k
  check_deletions deadline (r ∷ rs) k = do
    over ← is_over deadline
    if over then pure (record k { deferred = k.deferred + 1 }) else do
      due ← is_due r.digest
      if not due
          then check_deletions deadline rs (record k { deferred = k.deferred + 1 })
          else do outcome ← check_deletion r; check_deletions deadline rs (tally outcome k)

  -- `deadline`; the budget is in microseconds, and at least a tenth of a second.
  unfoldable pub deadline_of : Option ℕ → Exec Provider (Option ℕ)
  deadline_of none = pure none
  deadline_of (some budget) = do now ← monotonic_now env; pure (some (now + max 100000 budget))

  -- `reconcile_delete_pending`
  unfoldable pub reconcile_delete_pending : ℕ → Option ℕ → Exec Provider Counts
  unfolding deadline_of check_deletions
  reconcile_delete_pending limit budget = do
    require_collection_contract env
    initialized ← gets (λ p. is_some p.ledger)
    raise_if (not initialized) (fail configuration_error "Provider is not initialized")
    c ← gets (λ p. p.config)
    if Text.is_empty c.ownership_hmac_key then pure no_counts else do
      deadline ← deadline_of budget
      l ← the_ledger
      check_deletions deadline
          (Ledger.records_with_status delete_pending limit (some c.profile_scope) l) no_counts
