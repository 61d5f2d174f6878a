-- ===== src/Config.antt =====
-- _config.py and `_validate_config` of _provider.py: the settings, and which endpoints are local.
use hermes_hyperspacedb_prov.Prelude.{
  ℕ, String, Bool, true, false, not, ◌&&◌, ◌||◌, Option, none, some, List, ◌==◌, if◌then◌else◌,
}
use hermes_hyperspacedb_prov.Text
use hermes_hyperspacedb_prov.Value.Numbers.{Float}
use hermes_hyperspacedb_prov.Errors.{Result, ok, err, fail, configuration_error}
use hermes_hyperspacedb_prov.World.{Env}

-- The settings that `__init__` reads, as it bounds them; times are whole microseconds.
-- `previous_keys` are the keys that older signatures may have.
pub record Config : Type 0 where
  pub collection : String
  pub host : String
  pub allow_insecure_remote : Bool
  pub trust_mode : String
  pub profile_scope : String
  pub metric : String
  pub expected_dimension : ℕ
  pub max_distance : Option Float
  pub hybrid_search : Bool
  pub hybrid_alpha : Float
  pub top_k : ℕ
  pub max_search_results : ℕ
  pub max_content_chars : ℕ
  pub max_query_chars : ℕ
  pub max_result_chars : ℕ
  pub collision_probes : ℕ
  pub legacy_scan_limit : ℕ
  pub queue_size : ℕ
  pub auto_store : Bool
  pub reconcile_limit : ℕ
  pub reconcile_max_attempts : ℕ
  pub reconcile_base_delay : ℕ
  pub ownership_hmac_key : String
  pub previous_keys : List String
  pub event_buffer_size : ℕ
  pub reconcile_startup_budget : ℕ
  pub max_tool_output_chars : ℕ
  pub max_prefetch_chars : ℕ
  pub allow_collection_override : Bool
  pub allowed_collections : List String
  pub event_observation_enabled : Bool
  pub operator_reconcile_enabled : Bool
  pub batch_mutation_enabled : Bool
  pub profile_scope_explicit : Bool
  pub state_path : String
  pub state_path_explicit : Bool

-- `raw.split("://", 1)[1] if "://" in raw else raw`
abbrev pub without_scheme : String → String
without_scheme raw = if Text.contains "://" raw then Text.after_first "://" raw else raw

-- The host without its port: a bracketed address, or what stands before the last colon.
abbrev pub address_of : String → String
address_of raw =
    if Text.starts_with "[" raw
    then Text.before_first b']' (Text.drop 1 raw)
    else if Text.has_code b':' raw
    then Text.before_last b':' raw
    else raw

-- `_is_loopback_endpoint`
unfoldable pub is_loopback_endpoint : Env → String → Bool
is_loopback_endpoint env host =
    let raw = Text.strip host in
    let address = address_of (without_scheme raw) in
    if Text.starts_with "unix:" raw
    then true
    else if Text.equals_lower "localhost" address
    then true
    else elim (env.ip_is_loopback address) [ none ↦ false | some b ↦ b ]

-- `_validate_config`
unfoldable pub validate_config : Env → Config → Result (Unit {0})
validate_config env c =
    if Text.is_empty c.collection
    then err (fail configuration_error "memory.hyperspacedb.collection is required")
    else if Text.is_empty c.host
    then err (fail configuration_error "memory.hyperspacedb.host is required")
    else if not c.allow_insecure_remote && not (is_loopback_endpoint env c.host)
    then err (
        fail configuration_error
          "Plaintext gRPC is restricted to loopback. Set allow_insecure_remote only behind a trusted encrypted transport.")
    else if not (c.trust_mode == "owned_only" || c.trust_mode == "annotate_all")
    then err (fail configuration_error "trust_mode must be owned_only or annotate_all")
    else ok tt

-- `_resolve_env_reference`; `variable` is `os.environ.get(expected, "")`.
unfoldable pub resolve_env_reference : String → String → String → String
resolve_env_reference variable value expected_env_name =
    let raw = Text.strip value in
    let expected = Text.strip expected_env_name in
    if not (Text.is_empty raw) && raw == expected then variable else raw
