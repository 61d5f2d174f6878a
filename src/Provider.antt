-- ===== src/Provider.antt =====
-- _provider.py: the state of `HyperspaceDBMemoryProvider`, and `_call`, through which every RPC goes.
pub mod Contract
pub mod Frame
use hermes_hyperspacedb_prov.Prelude.{
  ℕ, suc, String, Bool, true, false, not, ◌&&◌, ◌||◌, Option, none, some, List, [], ◌∷◌, ◌==◌,
  if◌then◌else◌,
}
use hermes_hyperspacedb_prov.Text
use hermes_hyperspacedb_prov.Events.{EventBuffer}
use hermes_hyperspacedb_prov.Value.{Value, Fields, is_missing}
use hermes_hyperspacedb_prov.Value.Numbers.{ℤ}
use hermes_hyperspacedb_prov.Errors.{
  Code, ProviderError, Exn, Result, ok, err, fail, safe_error_message, provider, other, classify,
  code_text, configuration_error, backend_timeout, backend_unavailable, auth_error,
  malformed_result,
}
use hermes_hyperspacedb_prov.World.{Env, Request, health_check, Reply, returned, raised, swallowed}
use hermes_hyperspacedb_prov.Exec.{Exec, pure, raise, lift, gets, modify, ◌>>=◌, ◌>>◌, raise_if}
use hermes_hyperspacedb_prov.Config.{Config, validate_config}
use hermes_hyperspacedb_prov.Client
use hermes_hyperspacedb_prov.Client.{Pool}
use hermes_hyperspacedb_prov.Ledger
use hermes_hyperspacedb_prov.Ledger.{Ledger}
use hermes_hyperspacedb_prov.Capability

-- What `on_memory_write` puts into the write queue.
pub record MemoryEvent : Type 0 where
  pub action : String
  pub target : String
  pub content : String
  pub metadata : Fields

-- The settings, the session, the write queue and the event observer: what neither an RPC nor a
-- mutation changes. In the queue `none` is the `None` that ends the worker; `unfinished` is
-- `unfinished_tasks`.
pub record Context : Type 0 where
  pub config : Config
  pub open config use *
  pub session_id : String
  pub agent_context : String
  pub writes_enabled : Bool
  pub shutdown : Bool
  pub events : EventBuffer
  pub queue : List (Option MemoryEvent)
  pub unfinished : ℕ
  pub stop : Bool
  pub worker_alive : Bool

-- The fields of the provider; then the calls that the SDK has received, the latest first, and the
-- number of clock readings.
pub record Provider : Type 0 where
  pub context : Context
  pub open context use *
  pub ledger : Option Ledger
  pub pool : Pool
  pub capabilities : Capability.Store
  pub health : String
  pub last_error_code : String
  pub last_error : String
  pub contract_verified : Bool
  pub observed_dimension : Option ℤ
  pub failed_writes : ℕ
  pub history : List Request
  pub ticks : ℕ

-- `_mark_error`
unfoldable pub mark_error : Env → ProviderError → Provider → Provider
mark_error env e p =
    let p' : Provider = record p {
      last_error_code = code_text e.code;
      last_error = safe_error_message env.redact (Text.take 500 e.message);
    } in
    elim e.code [
      | configuration_error ↦ record p' {
        health = "CONFIGURATION_ERROR";
        contract_verified = false;
      }
      | backend_timeout ↦ record p' { health = "DEGRADED" }
      | backend_unavailable ↦ record p' { health = "DEGRADED" }
      | auth_error ↦ record p' { health = "DEGRADED" }
      | _ ↦ p'
    ]

-- The errors after which `_call` drops its client.
abbrev pub is_transport : Code → Bool
is_transport backend_timeout = true
is_transport backend_unavailable = true
is_transport auth_error = true
is_transport _ = false

-- `_release_client` in a provider: the last call after a shutdown closes the ledger.
unfoldable pub release_client : ℕ → Provider → Provider
release_client c p =
    let pool' = Client.release c p.pool in
    let last : Bool = elim pool'.inflight [ [] ↦ true | _ ∷ _ ↦ false ] in
    if p.shutdown && last
    then record p { pool = pool'; ledger = none }
    else record p { pool = pool' }

-- `value`, or the exception that the reply stands for, classified
unfoldable pub reply_result : Reply → Result Value
reply_result (returned v) = ok v
reply_result (raised e) = err (provider (classify e))
reply_result (swallowed e v) = err (provider (classify e))

-- The `except` and `finally` branches of `_call`, with a client.
unfoldable pub settle : Env → ℕ → Result Value → Provider → Result Value × Provider
unfolding mark_error release_client
settle env c (ok v) p = (ok v, release_client c p)
settle env c (err e) p =
    let error = classify e in
    let marked = mark_error env error p in
    let dropped =
      if is_transport error.code
      then record marked { pool = Client.discard c marked.pool }
      else marked in
    (err (provider error), release_client c dropped)

-- A failure before there is a client.
unfoldable pub fail_early : Env → Exn → Provider → Result Value × Provider
unfolding mark_error
fail_early env e p = let error = classify e in (err (provider error), mark_error env error p)

module _ (env : Env) where
  -- The SDK receives the call.
  unfoldable pub send : Request → Provider → Result Value × Provider
  unfolding reply_result
  send request p =
      (reply_result (env.backend p.history request), record p { history = request ∷ p.history })

  -- `_call` once `_get_client` has answered
  unfoldable pub call_with : Request → Result ℕ → Provider → Result Value × Provider
  unfolding send settle fail_early
  call_with request (err e) p = fail_early env e p
  call_with request (ok c) p = let (r, p') = send request p in settle env c r p'

  -- `_call`
  unfoldable pub call : Request → Exec Provider Value
  unfolding call_with
  call request p = elim (validate_config env p.config) [
    | err e ↦ fail_early env e p
    | ok _ ↦
        let (client, pool') =
          Client.get_client (env.fingerprint p.ticks) (env.build_failure p.ticks) p.pool in
        call_with request client (record p { pool = pool'; ticks = suc p.ticks })
  ]

  -- `_utc_now()`, `time.time()` and `time.monotonic()`
  unfoldable pub utc_now : Exec Provider String
  utc_now p = (ok (env.utc_now p.ticks), record p { ticks = suc p.ticks })

  unfoldable pub time_now : Exec Provider ℕ
  time_now p = (ok (env.time p.ticks), record p { ticks = suc p.ticks })

  unfoldable pub monotonic_now : Exec Provider ℕ
  monotonic_now p = (ok (env.monotonic p.ticks), record p { ticks = suc p.ticks })

  -- `_backend_proven_alive`
  unfoldable pub backend_proven_alive : Exec Provider (Unit {0})
  backend_proven_alive = do
    value ← call health_check
    raise_if (is_missing value) (fail malformed_result "Health RPC returned no state")

-- `self._ledger`, on which a method is called: an `AttributeError` where that is `None`
abbrev pub ledger_or_raise : Option Ledger → Exec Provider Ledger
ledger_or_raise none p = (err (other "AttributeError" "" "'NoneType' object has no attribute"), p)
ledger_or_raise (some l) p = (ok l, p)

unfoldable pub the_ledger : Exec Provider Ledger
the_ledger p = ledger_or_raise p.ledger p

unfoldable pub put_ledger : Ledger → Exec Provider (Unit {0})
put_ledger l p = (ok tt, record p { ledger = some l })
