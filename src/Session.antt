-- ===== src/Session.antt =====
-- _provider.py: the life of a provider: `initialize`, `on_session_switch` and `shutdown`. Starting and
-- stopping the event observer's thread is left out, and where `shutdown` waits, others take their turns.
pub mod Guarded
pub mod Forgotten
use hermes_hyperspacedb_prov.Prelude.{
  ℕ, suc, String, Bool, true, false, not, ◌&&◌, ◌||◌, Option, none, some, List, [], ◌∷◌, ◌==◌,
  if◌then◌else◌,
}
use hermes_hyperspacedb_prov.Text
use hermes_hyperspacedb_prov.Value.{Value, str, or_else}
use hermes_hyperspacedb_prov.Errors.{Result, ok, err}
use hermes_hyperspacedb_prov.World.{Env}
use hermes_hyperspacedb_prov.Exec.{
  Exec, pure, lift, gets, modify, when, ◌>>=◌, ◌>>◌, attempt, catch,
}
use hermes_hyperspacedb_prov.Config.{Config, validate_config}
use hermes_hyperspacedb_prov.Client
use hermes_hyperspacedb_prov.Client.{Pool}
use hermes_hyperspacedb_prov.Ownership.{py_str}
use hermes_hyperspacedb_prov.Provider.{Provider, Context, mark_error}
use hermes_hyperspacedb_prov.Provider.Contract.{require_collection_contract}
use hermes_hyperspacedb_prov.Reconcile.{reconcile_delete_pending, reconcile_pending_inserts}
use hermes_hyperspacedb_prov.Tools.{probe_health}
use hermes_hyperspacedb_prov.Writes.{put_item, is_full}

-- `Path(hermes_home).expanduser() if hermes_home else _hermes_home()`, before `expanduser`
abbrev pub home_or : String → Option String → String
home_or default none = default
home_or default (some home) = if Text.is_empty home then default else home

-- Starts the write worker, if events are stored and it does not run.
unfoldable pub start_worker : Context → Context
start_worker c =
    if c.auto_store && not c.worker_alive then record c { stop = false; worker_alive = true } else c

module _ (env : Env) where
  -- `_profile_scope_for_home`
  unfoldable pub profile_scope_for_home : String → String
  profile_scope_for_home home = Text.take 16 (env.sha256 (env.resolve_path home))

  -- The settings that depend on the home directory.
  unfoldable pub config_for_home : String → Config → Config
  unfolding profile_scope_for_home
  config_for_home home c = record c {
    profile_scope =
        if c.profile_scope_explicit then c.profile_scope else profile_scope_for_home home;
    state_path = if c.state_path_explicit then c.state_path else env.ledger_path home;
  }

  -- What `initialize` and `on_session_switch` begin with. The agent context is the argument, or the
  -- default where that is falsy.
  unfoldable pub context_for : ℕ → String → Option String → Value → String → Context → Context
  unfolding config_for_home
  context_for n session_id hermes_home agent default c =
      let agent_context = Text.strip (py_str env (or_else agent (str default))) in
      record c {
        session_id = if Text.is_empty session_id then env.token n else session_id;
        agent_context = agent_context;
        writes_enabled = agent_context == "primary";
        config = config_for_home (home_or env.default_home hermes_home) c.config;
      }

  unfoldable pub begin_session : String → Option String → Value → String → Provider → Provider
  unfolding context_for
  begin_session session_id hermes_home agent default p = record p {
    context = context_for p.ticks session_id hermes_home agent default p.context;
    ticks = suc p.ticks;
  }

  -- `self._ledger = IdentityLedger(self._state_path)`
  unfoldable pub open_ledger : Exec Provider (Unit {0})
  open_ledger p = elim (env.open_ledger p.ticks p.state_path) [
    | err e ↦ (err e, record p { ticks = suc p.ticks })
    | ok l ↦ (ok tt, record p { ledger = some l; ticks = suc p.ticks })
  ]

  -- The part of `initialize` once the collection's contract is verified.
  unfoldable pub settle_earlier : Exec Provider (Unit {0})
  unfolding start_worker
  settle_earlier = do
    p ← gets (λ p. p)
    when (p.writes_enabled && not (Text.is_empty p.ownership_hmac_key)) (do
      attempt (reconcile_delete_pending env p.reconcile_limit (some p.reconcile_startup_budget))
      attempt (reconcile_pending_inserts env p.reconcile_limit)
      pure tt)
    modify (λ q. record q { context = start_worker q.context })

  -- The part of `initialize` once the ledger is open.
  unfoldable pub connect : Exec Provider (Unit {0})
  unfolding settle_earlier start_worker
  connect = do
    modify (λ p. record p { contract_verified = false; context = start_worker p.context })
    catch (do probe_health env; require_collection_contract env) (λ e. modify (mark_error env e))
    verified ← gets (λ p. p.contract_verified)
    when verified settle_earlier

  -- `initialize`
  unfoldable pub initialize : String → Option String → Value → Exec Provider (Unit {0})
  unfolding begin_session open_ledger connect
  initialize session_id hermes_home agent = do
    modify (begin_session session_id hermes_home agent "primary")
    c ← gets (λ p. p.config)
    lift (validate_config env c)
    open_ledger
    connect

  -- `on_session_switch`; without an agent context the provider keeps its own. The ledger is closed
  -- before its file is opened: where opening fails the source keeps a closed connection, every use of
  -- which raises, and the model keeps no ledger.
  unfoldable pub on_session_switch : String → Option String → Value → Exec Provider (Unit {0})
  unfolding begin_session open_ledger
  on_session_switch session_id hermes_home agent = do
    kept ← gets (λ p. p.agent_context)
    modify (begin_session session_id hermes_home agent kept)
    modify (λ p. record p { capabilities = [] })
    stored ← gets (λ p. p.ledger)
    elim stored [
      | none ↦ pure tt
      | some l ↦ do modify (λ p. record p { ledger = none }); open_ledger
    ]

-- The loop of `shutdown` over the retired clients.
unfoldable pub retire_all : List ℕ → Pool → Pool
retire_all [] p = p
retire_all (c ∷ cs) p = retire_all cs (Client.retire c p)

-- What `shutdown` does with the clients.
unfoldable pub close_clients : Pool → Pool
unfolding retire_all
close_clients p =
    let bare : Pool = record p { current = none; fingerprint = "" } in
    let first : Pool = elim p.current [ none ↦ bare | some c ↦ Client.retire c bare ] in
    retire_all first.retired first

-- `shutdown` up to its first wait
unfoldable pub begin_shutdown : Provider → Provider
begin_shutdown p = record p { context = record p.context { shutdown = true } }

-- Then `_stop_event` is set, and `None` is put where there is room, if the worker runs.
unfoldable pub stop_worker : Provider → Provider
unfolding put_item
stop_worker p =
    let c : Context = record p.context { stop = true } in
    record p { context = if c.worker_alive && not (is_full c) then put_item none c else c }

-- The end of `shutdown`: after two seconds of waiting the worker may run still.
unfoldable pub finish_shutdown : Provider → Provider
unfolding close_clients
finish_shutdown p =
    let pool = close_clients p.pool in
    if p.worker_alive
    then record p {
      last_error_code = "SHUTDOWN_TIMEOUT";
      last_error = "worker remained alive; client and ledger retained to avoid use-after-close";
    }
    else elim pool.inflight [
      | [] ↦ record p { pool = pool; ledger = none }
      | _ ∷ _ ↦ record p {
        pool = pool;
        ledger = none;
        last_error_code = "SHUTDOWN_INFLIGHT";
        last_error = "client close deferred until in-flight RPCs release";
      }
    ]
