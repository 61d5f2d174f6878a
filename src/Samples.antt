-- ===== src/Samples.antt =====
-- Values for the examples: settings, a backend with one legacy point, a ledger, capabilities.
use hermes_hyperspacedb_prov.Prelude.{true, false, none, some, List, [], ◌∷◌}
use hermes_hyperspacedb_prov.Value.{Value, null, bool, int, str, list, dict, nil, cons, end, field}
use hermes_hyperspacedb_prov.Value.Numbers.{finite, pos}
use hermes_hyperspacedb_prov.World.{
  Env, Request, Reply, returned, health_check, vectorize, insert, get_points, delete,
}
use hermes_hyperspacedb_prov.Events.{empty_buffer}
use hermes_hyperspacedb_prov.Config.{Config}
use hermes_hyperspacedb_prov.Client.Safety.{initial}
use hermes_hyperspacedb_prov.Errors.{ok}
use hermes_hyperspacedb_prov.Ledger
use hermes_hyperspacedb_prov.Ledger.{Ledger}
use hermes_hyperspacedb_prov.Ledger.Tables.{LedgerRecord, active}
use hermes_hyperspacedb_prov.Capability
use hermes_hyperspacedb_prov.Capability.{Capability}
use hermes_hyperspacedb_prov.Provider.{Provider, Context}

-- A point that no plugin signed.
abbrev pub legacy_point : Value
legacy_point = dict (
    field "id" (int 7) (
      field "payload" (str "likes tea")
        (field "metadata" (dict (field "source" (str "hermes-builtin-memory") end)) end)))

-- Until a point is deleted, it is there.
abbrev pub reply : List Request → Request → Reply
reply (delete i c ∷ h) (get_points is d) = returned (list nil)
reply h (get_points is c) = returned (list (cons legacy_point nil))
reply h (delete i c) = returned (bool true)
reply h health_check = returned (dict (field "status" (str "ok") end))
reply h (insert i v x m c) = returned (bool true)
reply h (vectorize x m) = returned (list (cons (int 1) nil))
reply h q = returned null

abbrev pub env : Env
env = record {
  backend = reply;
  utc_now = λ n. "2026-01-01T00:00:00Z";
  time = λ n. n;
  monotonic = λ n. n;
  sha256 = λ s. "ab12";
  hmac = λ k s. "cd34";
  str_of = λ v. "value";
  render = λ v. some "value";
  to_float = λ v. none;
  to_int = λ v. none;
  times = λ a b. a;
  minus = λ a b. a;
  magnitude = λ a. a;
  fsum = λ l. finite (pos 0);
  sum = λ l. finite (pos 0);
  lower = λ s. s;
  casefold = λ s. s;
  ip_is_loopback = λ s. some true;
  fingerprint = λ n. "key";
  build_failure = λ n. none;
  injection = λ s. false;
  token = λ n. "tok";
  json = λ v. "{}";
  load_json = λ s. dict end;
  redact = λ s. s;
  resolve_path = λ s. s;
  default_home = "/home/hermes";
  ledger_path = λ s. s;
  open_ledger = λ n s. ok Ledger.empty;
  equal = λ v w. true;
  hashable = λ v. true;
  divide = λ a b. a;
  sqrt = λ a. a;
  lorentz_to_poincare = λ v. none;
  log_map = λ v w. none;
  koopman_extrapolate = λ v w x. none;
}

abbrev pub config : Config
config = record {
  collection = "memory";
  host = "127.0.0.1:50051";
  allow_insecure_remote = false;
  trust_mode = "owned_only";
  profile_scope = "home";
  metric = "cosine";
  expected_dimension = 0;
  max_distance = none;
  hybrid_search = false;
  hybrid_alpha = finite (pos 0);
  top_k = 5;
  max_search_results = 20;
  max_content_chars = 1000;
  max_query_chars = 1000;
  max_result_chars = 500;
  collision_probes = 4;
  legacy_scan_limit = 400;
  queue_size = 8;
  auto_store = true;
  reconcile_limit = 16;
  reconcile_max_attempts = 3;
  reconcile_base_delay = 1000000;
  ownership_hmac_key = "secret";
  previous_keys = [];
  event_buffer_size = 4;
  reconcile_startup_budget = 2000000;
  max_tool_output_chars = 60000;
  max_prefetch_chars = 6000;
  allow_collection_override = false;
  allowed_collections = [];
  event_observation_enabled = false;
  operator_reconcile_enabled = false;
  batch_mutation_enabled = true;
  profile_scope_explicit = true;
  state_path = "/state/ledger.sqlite3";
  state_path_explicit = true;
}

abbrev pub tea : LedgerRecord
tea = record {
  digest = "ab12";
  external_id = 7;
  profile_scope = "home";
  target = "user";
  source = "hermes-builtin-memory";
  content = "likes tea";
  status = active;
  error = "";
  updated_at = "2026-01-01T00:00:00Z";
}

abbrev pub coffee : LedgerRecord
coffee = record tea { digest = "ef56"; external_id = 8; content = "likes coffee" }

-- Another digest with the id of `tea`.
abbrev pub clash : LedgerRecord
clash = record tea { digest = "0099" }

abbrev pub ledger : Ledger
ledger = record {
  records = tea ∷ coffee ∷ [];
  failures = [];
  retries = [];
  receipts = [];
  next_id = some 9;
}

abbrev pub context : Context
context = record {
  config = config;
  session_id = "s1";
  agent_context = "primary";
  writes_enabled = true;
  shutdown = false;
  events = empty_buffer;
  queue = [];
  unfinished = 0;
  stop = false;
  worker_alive = true;
}

abbrev pub provider : Provider
provider = record {
  context = context;
  ledger = some ledger;
  pool = initial;
  capabilities = [];
  health = "HEALTHY";
  last_error_code = "";
  last_error = "";
  contract_verified = true;
  observed_dimension = none;
  failed_writes = 0;
  history = [];
  ticks = 0;
}

abbrev pub capability : Capability
capability = record {
  point_id = 7;
  scope = "home";
  session = "s1";
  collection = "memory";
  expires_at = 1000;
}

abbrev pub store : Capability.Store
store = ("pt_1", capability) ∷ []
