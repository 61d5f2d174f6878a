-- ===== src/Mutation/Event.antt =====
-- _provider.py: `_apply_memory_event`, one curated memory event.
use hermes_hyperspacedb_prov.Prelude.{String, not, ◌==◌, if◌then◌else◌}
use hermes_hyperspacedb_prov.Value.{Fields, dict}
use hermes_hyperspacedb_prov.Errors.{ProviderError, fail, configuration_error}
use hermes_hyperspacedb_prov.World.{Env}
use hermes_hyperspacedb_prov.Exec.{Exec, pure, raise, gets, ◌>>=◌, ◌>>◌, catch, raise_if}
use hermes_hyperspacedb_prov.Ledger.Tables.{
  LedgerRecord, Status, active, delete_pending, removed, replacing, replaced,
}
use hermes_hyperspacedb_prov.Ownership.{text_or}
use hermes_hyperspacedb_prov.Provider.{Provider}
use hermes_hyperspacedb_prov.Mutation.{set_status, store_content, delete_verified}
use hermes_hyperspacedb_prov.Mutation.Resolve.{resolve_old}

module _ (env : Env) where
  -- `_store_content_sync` as the events call it
  unfoldable pub store_event : String → String → Fields → Exec Provider LedgerRecord
  store_event target content meta = do
    stored ← store_content env target "hermes-builtin-memory" "builtin-curated" content (dict meta)
    pure stored.0

  -- `action == "remove"`
  unfoldable pub remove_event : LedgerRecord → Exec Provider (Unit {0})
  remove_event old = do
    set_status env old.digest delete_pending ""
    delete_verified env old
    set_status env old.digest removed ""

  -- Sets the status to what is given, with the error, and raises the error again.
  unfoldable pub give_up : {A : Type 0} → String → Status → ProviderError → Exec Provider A
  give_up digest status e = do set_status env digest status e.message; raise (fail e.code e.message)

  -- `action == "replace"`
  unfoldable pub replace_event : String → String → Fields → LedgerRecord → Exec Provider (Unit {0})
  unfolding store_event give_up
  replace_event target content meta old = do
    set_status env old.digest replacing ""
    new ← catch (store_event target content meta) (give_up old.digest active)
    if new.digest == old.digest then set_status env old.digest active "" else do
      set_status env old.digest delete_pending ""
      catch (delete_verified env old) (give_up old.digest delete_pending)
      set_status env old.digest replaced ""

  -- `_apply_memory_event`; `None` metadata is the empty dictionary.
  unfoldable pub apply_memory_event : String → String → String → Fields → Exec Provider (Unit {0})
  unfolding store_event remove_event replace_event
  apply_memory_event action target content meta = do
    enabled ← gets (λ p. p.writes_enabled)
    raise_if (not enabled)
        (fail configuration_error "Writes are disabled outside agent_context=primary")
    if action == "add" then (do store_event target content meta; pure tt) else do
      old ← resolve_old env target (text_or env "old_text" "" meta)
      if action == "remove"
          then remove_event old
          else if action == "replace"
          then replace_event target content meta old
          else raise (fail configuration_error "action must be add, replace, or remove")
