-- ===== src/World.antt =====
-- What the program does not implement. The HyperspaceDB SDK is a function from the calls made so far
-- and the present call to its reply, so it may answer in any way, also differently each time; clocks
-- are functions of the number of readings so far; hashes and the regular-expression engine are
-- functions on texts.
use hermes_hyperspacedb_prov.Prelude.{ℕ, String, Bool, Option, List}
use hermes_hyperspacedb_prov.Value.{Value, Fields}
use hermes_hyperspacedb_prov.Value.Numbers.{Float, ℤ}
use hermes_hyperspacedb_prov.Errors.{Exn, Result}
use hermes_hyperspacedb_prov.Ledger.{Ledger}

-- The search options: `use_wasserstein`, `use_wave`, `hybrid_query` with `hybrid_alpha`, or none.
pub data SearchMode : Type 0 where
  wasserstein wave plain : SearchMode
  hybrid : String → Float → SearchMode

-- The RPCs, with the arguments that the program passes; the last text is the collection.
pub data Request : Type 0 where
  health_check : Request
  get_collection_stats : String → Request
  list_collections : Request
  vectorize : String → String → Request
  insert : ℕ → List Value → String → Fields → String → Request
  get_points : List ℕ → String → Request
  delete : ℕ → String → Request
  scroll : ℕ → ℕ → String → Request
  search : List Value → ℕ → String → SearchMode → Request
  get_node : ℕ → String → Request
  get_neighbors : ℕ → ℕ → String → Request
  traverse : ℕ → ℕ → ℕ → String → Request
  get_subsumption_tree : ℕ → ℕ → String → Request
  get_concept_parents : ℕ → ℕ → String → Request
  find_semantic_clusters : ℕ → ℕ → ℕ → String → Request
  count : String → Request
  get_digest : String → Request
  get_cache_stats : String → Request

-- How a call of the SDK ends: it returns a value, raises an exception, or returns a value although
-- an RPC under it failed, which the telemetry of the stubs has recorded.
pub data Reply : Type 0 where
  returned : Value → Reply
  raised : Exn → Reply
  swallowed : Exn → Value → Reply

pub record Env : Type 0 where
  -- the reply to a call, by the calls before it, the latest first
  pub backend : List Request → Request → Reply
  -- `_utc_now()`, `time.time()` and `time.monotonic()` (in microseconds) at the n-th reading
  pub utc_now : ℕ → String
  pub time : ℕ → ℕ
  pub monotonic : ℕ → ℕ
  -- `hashlib.sha256(text).hexdigest()` and `hmac.new(key, text, sha256).hexdigest()`
  pub sha256 : String → String
  pub hmac : String → String → String
  -- `str(v)` of a value that is no text
  pub str_of : Value → String
  -- `json.dumps` of a container, `str` of any other value; `none` where that raises
  pub render : Value → Option String
  -- `float(v)` and `int(v)`; `none` where that raises (for `float`, of an int: an `OverflowError`)
  pub to_float : Value → Option Float
  pub to_int : Value → Option ℤ
  -- `a * b`, `a - b` and `abs(a)` on floats, and `math.fsum`
  pub times : Float → Float → Float
  pub minus : Float → Float → Float
  pub magnitude : Float → Float
  pub fsum : List Float → Float
  -- the built-in `sum` on floats
  pub sum : List Float → Float
  -- `s.lower()` and `s.casefold()`
  pub lower : String → String
  pub casefold : String → String
  -- `ipaddress.ip_address(s).is_loopback`; `none` where that raises
  pub ip_is_loopback : String → Option Bool
  -- the fingerprint of the credentials, and what building a client raises, at the n-th call
  pub fingerprint : ℕ → String
  pub build_failure : ℕ → Option Exn
  -- whether one of `_INJECTION_PATTERNS` is found in a text
  pub injection : String → Bool
  -- `secrets.token_urlsafe(24)` or `secrets.token_hex(16)` at the n-th call
  pub token : ℕ → String
  -- `json.dumps(data, ensure_ascii=True, sort_keys=True, default=str)`
  pub json : Value → String
  -- `json.loads`, and `{}` where that raises
  pub load_json : String → Value
  -- a text with what the two patterns of `_safe_error_message` match replaced
  pub redact : String → String
  -- `str(path.expanduser().resolve())`, and the result of `_hermes_home()`
  pub resolve_path : String → String
  pub default_home : String
  -- `str(Path(home).expanduser() / "state" / "hyperspacedb" / "ledger.sqlite3")`
  pub ledger_path : String → String
  -- what the database file at the path holds once it is opened, at the n-th call
  pub open_ledger : ℕ → String → Result Ledger
  -- `a == b` on values, and whether `hash(v)` does not raise
  pub equal : Value → Value → Bool
  pub hashable : Value → Bool
  -- `a / b` and `math.sqrt`; `lorentz_to_poincare`, `log_map` and `koopman_extrapolate` of the SDK's
  -- `hyperspace.math`, `none` where that raises
  pub divide : Float → Float → Float
  pub sqrt : Float → Float
  pub lorentz_to_poincare : List Float → Option Value
  pub log_map : List Float → List Float → Option Value
  pub koopman_extrapolate : List Float → List Float → Float → Option Value
