-- ===== src/Tools/Admin.antt =====
-- _provider.py: `_tool_admin`, `_tool_events`, `_tool_reconcile`.
use Prim.Native.String.{◌++◌ as ◌<>◌}
use hermes_hyperspacedb_prov.Prelude.{
  ℕ, String, Bool, true, not, ◌&&◌, ◌||◌, none, some, List, [], ◌∷◌, eqb, map, ◌==◌, if◌then◌else◌,
}
use hermes_hyperspacedb_prov.Prelude.Lists.{length, last}
use hermes_hyperspacedb_prov.Text
use hermes_hyperspacedb_prov.Value.{
  Value, Fields, bool, int, neg, float, str, list, dict, end, field, get, as_dict, of_list,
}
use hermes_hyperspacedb_prov.Value.Numbers.{Float, finite, pos, leb_Float, is_finite}
use hermes_hyperspacedb_prov.Errors.{
  Exn, Result, ok, err, fail, other, malformed_result, configuration_error,
}
use hermes_hyperspacedb_prov.World.{Env, get_collection_stats, count, get_digest, get_cache_stats}
use hermes_hyperspacedb_prov.Exec.{Exec, pure, raise, lift, gets, ◌>>=◌, ◌>>◌}
use hermes_hyperspacedb_prov.Events.{Notice}
use hermes_hyperspacedb_prov.Ledger
use hermes_hyperspacedb_prov.Ledger.{Ledger}
use hermes_hyperspacedb_prov.Ledger.Tables.{Receipt, delete_pending}
use hermes_hyperspacedb_prov.Ownership.{text_or}
use hermes_hyperspacedb_prov.Provider.{Provider, call, utc_now, the_ledger, put_ledger}
use hermes_hyperspacedb_prov.Provider.Contract.{one}
use hermes_hyperspacedb_prov.Reconcile.{Counts, reconcile_delete_pending}
use hermes_hyperspacedb_prov.Tools.{
  json_error, tool_json, bounded_arg, or_json_error, resolve_collection, answer, probe_health,
}
use hermes_hyperspacedb_prov.Tools.Memory.{stats_fields, sanitize_admin_int_map}

-- `_ADMIN_DIGEST_FIELDS`, `_ADMIN_CACHE_INT_FIELDS` and `_ADMIN_CACHE_RATE_FIELDS`
abbrev pub digest_fields : List String
digest_fields = "logical_clock" ∷ "state_hash" ∷ "count" ∷ []

abbrev pub cache_fields : List String
cache_fields =
    "l1_size" ∷ "l2_index_size" ∷ "tombstone_count" ∷ "pending_rebuild" ∷ "estimated_memory_bytes"
    ∷ []

abbrev pub rate_fields : List String
rate_fields = "l1_hit_rate" ∷ "l2_hit_rate" ∷ []

abbrev pub is_rate : Float → Bool
is_rate x = is_finite x && leb_Float (finite (pos 0)) x && leb_Float x one

abbrev invalid_field : String → Exn
invalid_field key = fail malformed_result ("Admin RPC returned invalid " <> key)

-- `count` of `_tool_admin`
abbrev pub count_result : Value → Result Value
count_result (int n) = ok (dict (field "count" (int n) end))
count_result _ = err (fail malformed_result "count returned an invalid response")

-- What `_tool_events` shows of an event.
abbrev pub notice_value : Notice → Value
notice_value n = dict (
    field "event_type" (str n.event_type) (
      field "source" (str n.source)
        (field "target" (str n.target) (field "trust" (str n.trust) end))))

abbrev pub counts_value : Counts → Value
counts_value k = dict (
    field "attempted" (int k.attempted) (
      field "removed" (int k.done)
        (field "conflicts" (int k.conflicts) (field "deferred" (int k.deferred) end))))

-- `receipt` of `_tool_reconcile`
abbrev pub receipt_value : String → Counts → ℕ → Value
receipt_value token k would = dict (
    field "token" (str token)
      (field "result" (counts_value k) (field "would_apply" (int would) end)))

module _ (env : Env) where
  -- `float(val)`, where that is a number; `float` raises for an int that is too large.
  abbrev rate_number : String → Value → Result Float
  rate_number key (float x) = ok x
  rate_number key (int n) = elim (env.to_float (int n)) [
    | none ↦ err (other "OverflowError" "" "int too large to convert to float")
    | some x ↦ ok x
  ]
  rate_number key (neg n) = elim (env.to_float (neg n)) [
    | none ↦ err (other "OverflowError" "" "int too large to convert to float")
    | some x ↦ ok x
  ]
  rate_number key _ = err (invalid_field key)

  -- The loop of `sanitize_admin_cache_stats`.
  unfoldable pub admin_rates : List String → Fields → Result Fields
  admin_rates [] fs = ok end
  admin_rates (key ∷ keys) fs = elim (rate_number key (get key fs)) [
    | err e ↦ err e
    | ok x ↦
        let rest = admin_rates keys fs in
        if is_rate x
        then elim rest [ err e ↦ err e | ok others ↦ ok (field key (float x) others) ]
        else err (invalid_field key)
  ]

  unfoldable pub join_fields : Fields → Fields → Fields
  join_fields end gs = gs
  join_fields (field k v fs) gs = field k v (join_fields fs gs)

  -- `sanitize_admin_cache_stats`
  unfoldable pub sanitize_admin_cache_stats : Value → Result Fields
  unfolding admin_rates join_fields
  sanitize_admin_cache_stats raw = elim (sanitize_admin_int_map raw cache_fields) [
    | err e ↦ err e
    | ok numbers ↦ elim (as_dict raw) [
      | none ↦ ok numbers
      | some fs ↦ elim (admin_rates rate_fields fs) [
        | err e ↦ err e
        | ok rates ↦ ok (join_fields numbers rates)
      ]
    ]
  ]

  -- `result` of `_tool_admin`
  unfoldable pub admin_result : String → String → Exec Provider Value
  unfolding sanitize_admin_cache_stats
  admin_result operation collection =
      if operation == "health"
      then (do health ← probe_health env; pure (dict (field "health" (str health) end)))
      else if operation == "stats"
      then (do
        raw ← call env (get_collection_stats collection)
        numbers ← lift (sanitize_admin_int_map raw stats_fields)
        pure (dict numbers))
      else if operation == "count"
      then (do raw ← call env (count collection); lift (count_result raw))
      else if operation == "digest"
      then (do
        raw ← call env (get_digest collection)
        numbers ← lift (sanitize_admin_int_map raw digest_fields)
        pure (dict numbers))
      else if operation == "cache_stats"
      then (do
        raw ← call env (get_cache_stats collection)
        numbers ← lift (sanitize_admin_cache_stats raw)
        pure (dict numbers))
      else raise (
          fail configuration_error "operation must be health, stats, count, digest, or cache_stats")

  -- `_tool_admin`
  unfoldable pub tool_admin : Fields → Exec Provider String
  unfolding admin_result
  tool_admin args = or_json_error env do
    collection ← resolve_collection env args
    result ← admin_result (text_or env "operation" "" args) collection
    answer env result

  -- `_tool_events`
  unfoldable pub tool_events : Fields → Exec Provider String
  tool_events args =
      if not (text_or env "operation" "" args == "recent")
      then pure (json_error env "INVALID_ARGUMENT" "operation must be recent")
      else do
        limit ← bounded_arg env "limit" args 20 1 50
        b ← gets (λ p. p.events)
        tool_json env (
            field "ok" (bool true) (
              field "events" (list (of_list (map notice_value (last limit b.recent))))
                (field "dropped" (int b.dropped) (field "filtered" (int b.filtered) end))))

  -- `operation == "dry_run"`; `signed` is whether there is a key.
  unfoldable pub dry_run : Bool → ℕ → Exec Provider String
  dry_run signed pending = tool_json env (
      field "ok" (bool true) (
        field "state" (str "DRY_RUN") (
          field "would_apply" (int (if signed then pending else 0))
            (field "skipped_unsigned" (int (if signed then 0 else pending)) end))))

  -- What `get_operator_receipt` returns for the row.
  abbrev pub stored_receipt : Receipt → Value
  stored_receipt row = dict (
      field "token" (str row.token) (
        field "operation" (str row.operation) (
          field "payload" (env.load_json row.payload)
            (field "created_at" (str row.created_at) end))))

  -- An apply whose token has a receipt.
  unfoldable pub replay : Receipt → Exec Provider String
  replay row = tool_json env (
      field "ok" (bool true)
        (field "state" (str "IDEMPOTENT_REPLAY") (field "receipt" (stored_receipt row) end)))

  -- `self._ledger.put_operator_receipt(token, "reconcile_apply", payload)`
  unfoldable pub put_receipt : String → Value → Exec Provider (Unit {0})
  put_receipt token payload = do
    l ← the_ledger
    now ← utc_now env
    put_ledger (Ledger.put_operator_receipt token "reconcile_apply" (env.json payload) now l)

  -- An apply whose token has none.
  unfoldable pub apply_once : String → ℕ → ℕ → Exec Provider String
  unfolding put_receipt
  apply_once token limit would = do
    k ← reconcile_delete_pending env limit none
    put_receipt token (receipt_value token k would)
    tool_json env (
        field "ok" (bool true) (
          field "state" (str (if eqb k.done k.attempted then "APPLIED" else "PARTIAL"))
            (field "receipt" (receipt_value token k would) (field "result" (counts_value k) end))))

  -- `operation == "apply"`
  unfoldable pub apply_reconcile : Ledger → String → ℕ → ℕ → Exec Provider String
  unfolding replay apply_once
  apply_reconcile l token limit would =
      if Text.is_empty token
      then pure (json_error env "INVALID_ARGUMENT" "idempotency_token is required for apply")
      else elim (Ledger.get_operator_receipt token l) [
        | some row ↦ replay row
        | none ↦ apply_once token limit would
      ]

  -- `_tool_reconcile` with a ledger
  unfoldable pub reconcile_with : Ledger → Fields → Exec Provider String
  unfolding dry_run apply_reconcile
  reconcile_with l args =
      let operation = text_or env "operation" "dry_run" args in
      if not (operation == "dry_run" || operation == "apply")
      then pure (json_error env "INVALID_ARGUMENT" "operation must be dry_run or apply")
      else do
        c ← gets (λ p. p.config)
        limit ← bounded_arg env "limit" args c.reconcile_limit 1 32
        let signed = not (Text.is_empty c.ownership_hmac_key)
        let pending =
            length (Ledger.records_with_status delete_pending limit (some c.profile_scope) l)
        if operation == "dry_run"
            then dry_run signed pending
            else apply_reconcile l (Text.strip (text_or env "idempotency_token" "" args)) limit
                (if signed then pending else 0)

  -- `_tool_reconcile`
  unfoldable pub tool_reconcile : Fields → Exec Provider String
  unfolding reconcile_with
  tool_reconcile args = do
    stored ← gets (λ p. p.ledger)
    elim stored [
      | none ↦ pure (json_error env "CONFIGURATION_ERROR" "ledger is unavailable")
      | some l ↦ reconcile_with l args
    ]
