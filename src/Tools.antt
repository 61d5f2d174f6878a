-- ===== src/Tools.antt =====
-- _provider.py, _tools.py, _errors.py and _utils.py: what the handlers of the tools share. A handler
-- gives the JSON text that the tool returns.
pub mod Memory
pub mod Points
pub mod Admin
pub mod Batch
pub mod Geometry
pub mod Dispatch
pub mod Bounds
pub mod Guarded
pub mod Listed
pub mod Replayed
use Prim.Native.String.{◌++◌ as ◌<>◌}
use hermes_hyperspacedb_prov.Prelude.{
  ℕ, suc, max, String, Bool, true, false, not, ◌&&◌, ◌||◌, Option, none, some, List, [], ◌∷◌, ◌++◌,
  leb, ◌==◌, if◌then◌else◌,
}
use hermes_hyperspacedb_prov.Prelude.Lists.{any, length}
use hermes_hyperspacedb_prov.Text
use hermes_hyperspacedb_prov.Value.{
  Value, Items, Fields, bool, int, float, str, list, tuple, dict, nil, cons, end, field, get,
  truthy, is_missing,
}
use hermes_hyperspacedb_prov.Value.Numbers.{ℤ, pos, negsuc, inf, neg_inf}
use hermes_hyperspacedb_prov.Content.{bounded_int}
use hermes_hyperspacedb_prov.Errors.{
  int_overflow, Code, ProviderError, Exn, ok, fail, other, code_text, safe_error_message,
  configuration_error, collection_forbidden, capability_forbidden, malformed_result,
}
use hermes_hyperspacedb_prov.World.{Env, health_check}
use hermes_hyperspacedb_prov.Exec.{Exec, pure, raise, gets, ◌>>=◌, ◌>>◌, catch, raise_if, modify}
use hermes_hyperspacedb_prov.Capability
use hermes_hyperspacedb_prov.Capability.{Resolved, granted, bad_handles, not_issued, out_of_scope}
use hermes_hyperspacedb_prov.Graph.{sanitize}
use hermes_hyperspacedb_prov.Ownership.{py_str, text_or}
use hermes_hyperspacedb_prov.Provider.{Provider, call}
use hermes_hyperspacedb_prov.Retrieval.Shown.{mint_handle}

-- The exceptions that `resolve_many` raises, with the message for what are no handles.
abbrev pub resolved : {A : Type 0} → String → Resolved A → Exec Provider A
resolved message (granted a) = pure a
resolved message bad_handles = raise (fail configuration_error message)
resolved message not_issued =
    raise (fail capability_forbidden "Capability was not issued by this provider session")
resolved message out_of_scope =
    raise (fail capability_forbidden "Capability is expired or out of scope")

-- `int(value)` where that is no negative number; the bounds here are positive, so 0 stands for one.
abbrev pub argument_number : Option ℤ → Option ℕ
argument_number none = none
argument_number (some (pos n)) = some n
argument_number (some (negsuc n)) = some 0

unfoldable pub items_count : Items → ℕ
items_count nil = 0
items_count (cons v vs) = suc (items_count vs)

unfoldable pub fields_count : Fields → ℕ
fields_count end = 0
fields_count (field k v fs) = suc (fields_count fs)

-- `summary["result_count"] = len(result)`, for a list, a tuple or a dictionary
unfoldable pub count_fields : Value → Fields
unfolding items_count fields_count
count_fields (list vs) = field "result_count" (int (items_count vs)) end
count_fields (tuple vs) = field "result_count" (int (items_count vs)) end
count_fields (dict fs) = field "result_count" (int (fields_count fs)) end
count_fields _ = end

-- The first of the texts that is not longer, else "{}".
unfoldable pub first_fitting : ℕ → List String → String
first_fitting budget [] = "{}"
first_fitting budget (s ∷ rest) =
    if leb (Text.length s) budget then s else first_fitting budget rest

module _ (env : Env) where
  -- `_json_error`
  unfoldable pub json_error : String → String → String
  json_error code message = env.json (
      dict (
        field "ok" (bool false) (
          field "error"
            (dict (
              field "code" (str code)
                (field "message" (str (safe_error_message env.redact message)) end)))
            end)))

  -- The texts that `_bounded_tool_json` tries, in their order.
  unfoldable pub renderings : Fields → List String
  unfolding count_fields
  renderings payload =
      env.json (dict payload)
      ∷ env.json (
          dict (
            field "ok" (bool (truthy (get "ok" payload)))
              (field "output_truncated" (bool true) (count_fields (get "result" payload)))))
      ∷ env.json (dict (field "output_truncated" (bool true) end))
      ∷ env.json (dict end)
      ∷ []

  -- `_bounded_tool_json`
  unfoldable pub bounded_tool_json : Fields → ℕ → String
  unfolding first_fitting renderings
  bounded_tool_json payload max_chars = first_fitting (max 2 max_chars) (renderings payload)

  -- `_tool_json`
  unfoldable pub tool_json : Fields → Exec Provider String
  tool_json payload = do
    limit ← gets (λ p. p.max_tool_output_chars)
    pure (bounded_tool_json payload limit)

  -- `_bounded_int(args.get(key), default, low, high)`; an infinite float is an `OverflowError`.
  unfoldable pub bounded_value : Value → ℕ → ℕ → ℕ → Exec Provider ℕ
  bounded_value (float inf) default low high = raise int_overflow
  bounded_value (float neg_inf) default low high = raise int_overflow
  bounded_value v default low high =
      pure (bounded_int (argument_number (env.to_int v)) default low high)

  unfoldable pub bounded_arg : String → Fields → ℕ → ℕ → ℕ → Exec Provider ℕ
  bounded_arg key args default low high = bounded_value (get key args) default low high

  -- `try: ... except ProviderError as error: return _json_error(error.code, str(error))`
  unfoldable pub or_json_error : Exec Provider String → Exec Provider String
  or_json_error m = catch m (λ e. pure (json_error (code_text e.code) e.message))

  -- `_resolve_collection`
  unfoldable pub resolve_collection : Fields → Exec Provider String
  resolve_collection args = do
    c ← gets (λ p. p.config)
    let requested = Text.strip (text_or env "collection" "" args)
    if Text.is_empty requested || requested == c.collection then pure c.collection else do
      raise_if
          (not c.allow_collection_override || not (any (λ k. k == requested) c.allowed_collections))
          (fail collection_forbidden "Collection override is not allowed")
      pure requested

  -- `_resolve_point_capabilities`
  unfoldable pub resolve_points : Value → String → Exec Provider (List ℕ)
  resolve_points handles collection p =
      let (r, s) =
        Capability.resolve_many handles collection p.profile_scope p.session_id
          (env.monotonic p.ticks) p.capabilities in
      resolved "handles must contain 1 to 16 unique capability handles" r
        (record p { capabilities = s; ticks = suc p.ticks })

  -- `_resolve_point_capability`
  unfoldable pub resolve_point : Value → String → Exec Provider ℕ
  resolve_point handle collection p =
      let (r, s) =
        Capability.resolve_one handle collection p.profile_scope p.session_id
          (env.monotonic p.ticks) p.capabilities in
      resolved "handle must be a capability handle issued by this provider session" r
        (record p { capabilities = s; ticks = suc p.ticks })

  -- `_sanitize_graph_result`
  unfoldable pub sanitize_result : Value → String → Exec Provider Value
  unfolding mint_handle
  sanitize_result v collection p =
      let (w, p') = sanitize (mint_handle env collection) v p in (ok w, p')

  -- The answer with the result.
  unfoldable pub answer : Value → Exec Provider String
  answer result = tool_json (field "ok" (bool true) (field "result" result end))

  -- `_probe_health`
  unfoldable pub probe_health : Exec Provider String
  probe_health = do
    value ← call env health_check
    raise_if (is_missing value) (fail malformed_result "Health RPC returned an empty response")
    modify (λ p. record p { health = py_str env value; last_error_code = ""; last_error = "" })
    pure (py_str env value)
