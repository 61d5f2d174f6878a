-- ===== src/Tools/Dispatch.antt =====
-- _provider.py, _tools.py and _constants.py: `handle_tool_call`, which tools there are, and which
-- arguments they take.
use Prim.Native.Nat.{Ordering}
use Prim.Native.String.{compare, ◌++◌ as ◌<>◌}
use hermes_hyperspacedb_prov.Prelude.{
  String, Bool, true, false, not, ◌&&◌, Option, none, some, List, [], ◌∷◌, ◌++◌, ◌==◌,
  if◌then◌else◌,
}
use hermes_hyperspacedb_prov.Prelude.Lists.{any}
use hermes_hyperspacedb_prov.Text
use hermes_hyperspacedb_prov.Value.{Fields, end, field}
use hermes_hyperspacedb_prov.World.{Env}
use hermes_hyperspacedb_prov.Exec.{Exec, pure, gets, ◌>>=◌}
use hermes_hyperspacedb_prov.Config.{Config}
use hermes_hyperspacedb_prov.Provider.{Provider}
use hermes_hyperspacedb_prov.Tools.{json_error}
use hermes_hyperspacedb_prov.Tools.Memory.{
  tool_search, tool_search_advanced, tool_store, tool_status, tool_audit,
}
use hermes_hyperspacedb_prov.Tools.Points.{tool_graph, tool_hierarchy, tool_clusters}
use hermes_hyperspacedb_prov.Tools.Admin.{tool_admin, tool_events, tool_reconcile}
use hermes_hyperspacedb_prov.Tools.Batch.{tool_batch}
use hermes_hyperspacedb_prov.Tools.Geometry.{tool_geometry}

abbrev pub Handler : Type 0
Handler = Fields → Exec Provider String

-- `get_all_tool_schemas`, by the names of the schemas
unfoldable pub tool_schemas : Bool → Bool → Bool → List String
tool_schemas events reconcile batch =
    ("hyperspace_search" ∷ "hyperspace_store" ∷ "hyperspace_status" ∷ "hyperspace_audit"
      ∷ "hyperspace_graph" ∷ "hyperspace_hierarchy" ∷ "hyperspace_clusters"
      ∷ "hyperspace_search_advanced" ∷ "hyperspace_admin" ∷ "hyperspace_geometry" ∷ [])
    ++ ((if events then "hyperspace_events" ∷ [] else [])
        ++ ((if reconcile then "hyperspace_reconcile" ∷ [] else [])
            ++ (if batch then "hyperspace_batch" ∷ [] else [])))

-- `get_tool_schemas`
unfoldable pub get_tool_schemas : Config → List String
unfolding tool_schemas
get_tool_schemas c =
    tool_schemas c.event_observation_enabled c.operator_reconcile_enabled c.batch_mutation_enabled

-- `handlers.get(tool_name)`
unfoldable pub handler_named : String → List (String × Handler) → Option Handler
handler_named name [] = none
handler_named name ((k, h) ∷ rest) = if k == name then some h else handler_named name rest

-- `_TOOL_ALLOWED_ARGS`
abbrev pub allowed_table : List (String × List String)
allowed_table =
    ("hyperspace_search", "query" ∷ "limit" ∷ [])
    ∷ ("hyperspace_store", "content" ∷ "metadata" ∷ [])
    ∷ ("hyperspace_status", [])
    ∷ ("hyperspace_audit", "operation" ∷ [])
    ∷ (
      "hyperspace_graph",
      "operation" ∷ "handle" ∷ "handles" ∷ "limit" ∷ "max_depth" ∷ "max_nodes" ∷ "collection" ∷ [],
    )
    ∷ ("hyperspace_hierarchy", "operation" ∷ "handle" ∷ "limit" ∷ "max_depth" ∷ "collection" ∷ [])
    ∷ ("hyperspace_clusters", "max_clusters" ∷ "min_cluster_size" ∷ "max_nodes" ∷ "collection" ∷ [])
    ∷ ("hyperspace_search_advanced", "query" ∷ "mode" ∷ "top_k" ∷ "collection" ∷ [])
    ∷ ("hyperspace_admin", "operation" ∷ "collection" ∷ [])
    ∷ ("hyperspace_geometry", "operation" ∷ "handles" ∷ "steps" ∷ [])
    ∷ ("hyperspace_events", "operation" ∷ "limit" ∷ [])
    ∷ ("hyperspace_reconcile", "operation" ∷ "limit" ∷ "idempotency_token" ∷ [])
    ∷ ("hyperspace_batch", "operations" ∷ [])
    ∷ []

unfoldable pub arguments_in : String → List (String × List String) → List String
arguments_in name [] = []
arguments_in name ((k, names) ∷ table) = if k == name then names else arguments_in name table

-- `_TOOL_ALLOWED_ARGS[tool_name]`; every tool has an entry.
unfoldable pub allowed_args : String → List String
unfolding arguments_in
allowed_args name = arguments_in name allowed_table

-- `supplied.pop("reason", None)`
unfoldable pub without_reason : Fields → Fields
without_reason end = end
without_reason (field k v fs) =
    let rest = without_reason fs in if k == "reason" then rest else field k v rest

-- The argument names that the tool does not take; `sorted` puts them in order.
unfoldable pub unexpected_args : List String → Fields → List String
unexpected_args allowed end = []
unexpected_args allowed (field k v fs) =
    let rest = unexpected_args allowed fs in if any (λ a. a == k) allowed then rest else k ∷ rest

abbrev pub text_before : String → String → Bool
text_before a b = elim (compare a b) [
  | Ordering.lt ↦ true
  | Ordering.gt ↦ false
  | Ordering.eq ↦ true
]

unfoldable pub place_text : String → List String → List String
place_text s [] = s ∷ []
place_text s (t ∷ ts) =
    let rest = place_text s ts in if text_before s t then s ∷ t ∷ ts else t ∷ rest

-- `sorted(...)` of texts
unfoldable pub sort_texts : List String → List String
unfolding place_text
sort_texts [] = []
sort_texts (s ∷ ss) = place_text s (sort_texts ss)

module _ (env : Env) where
  -- `handlers` as it is first
  unfoldable pub basic_handlers : List (String × Handler)
  basic_handlers =
      ("hyperspace_search", tool_search env)
      ∷ ("hyperspace_store", tool_store env)
      ∷ ("hyperspace_status", λ unused. tool_status env)
      ∷ ("hyperspace_audit", tool_audit env)
      ∷ ("hyperspace_graph", tool_graph env)
      ∷ ("hyperspace_hierarchy", tool_hierarchy env)
      ∷ ("hyperspace_clusters", tool_clusters env)
      ∷ ("hyperspace_search_advanced", tool_search_advanced env)
      ∷ ("hyperspace_admin", tool_admin env)
      ∷ ("hyperspace_geometry", tool_geometry env)
      ∷ []

  -- `handlers`
  unfoldable pub handlers : Config → List (String × Handler)
  unfolding basic_handlers
  handlers c =
      basic_handlers
      ++ ((if c.event_observation_enabled then ("hyperspace_events", tool_events env) ∷ [] else [])
          ++ ((if c.operator_reconcile_enabled
                then ("hyperspace_reconcile", tool_reconcile env) ∷ []
                else [])
              ++ (if c.batch_mutation_enabled
                  then ("hyperspace_batch", tool_batch env) ∷ []
                  else [])))

  abbrev pub unexpected_message : List String → String
  unexpected_message names = "Unexpected tool argument(s): " <> Text.join ", " names

  -- `handle_tool_call` with a handler
  unfoldable pub run_tool : String → Fields → Handler → Exec Provider String
  unfolding without_reason unexpected_args sort_texts allowed_args
  run_tool name args handler =
      elim (sort_texts (unexpected_args (allowed_args name) (without_reason args))) [
        | [] ↦ handler (without_reason args)
        | k ∷ ks ↦ pure (json_error env "INVALID_ARGUMENT" (unexpected_message (k ∷ ks)))
      ]

  -- `handle_tool_call`; the tools that use handles run under `_handle_op_lock`.
  unfoldable pub handle_tool_call : String → Fields → Exec Provider String
  unfolding handler_named handlers run_tool
  handle_tool_call name args = do
    p ← gets (λ p. p)
    if name == "hyperspace_store" && not p.writes_enabled
        then pure (
            json_error env "CONFIGURATION_ERROR"
              "Writes are disabled outside agent_context=primary")
        else elim (handler_named name (handlers p.config)) [
          | none ↦ pure (json_error env "UNKNOWN_TOOL" ("Unknown tool: " <> name))
          | some handler ↦ run_tool name args handler
        ]
