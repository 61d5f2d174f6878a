-- ===== src/Tools/Points.antt =====
-- _provider.py: `_tool_graph`, `_tool_hierarchy`, `_tool_clusters`.
use hermes_hyperspacedb_prov.Prelude.{
  ℕ, String, Bool, true, false, Option, none, some, List, [], ◌∷◌, ltb, eqb, ◌==◌, if◌then◌else◌,
}
use hermes_hyperspacedb_prov.Prelude.Lists.{length}
use hermes_hyperspacedb_prov.Text
use hermes_hyperspacedb_prov.Value.{
  Value, Fields, bool, int, str, list, dict, end, field, get, as_dict, as_list, of_list,
}
use hermes_hyperspacedb_prov.Content.{metadata, extract_content}
use hermes_hyperspacedb_prov.Errors.{
  Code, ProviderError, Exn, ok, err, provider, fail, code_text, malformed_result,
  configuration_error, capability_forbidden, collection_forbidden,
}
use hermes_hyperspacedb_prov.World.{
  Env, get_points, get_node, get_neighbors, traverse, get_subsumption_tree, get_concept_parents,
  find_semantic_clusters,
}
use hermes_hyperspacedb_prov.Exec.{Exec, pure, raise, gets, ◌>>=◌, attempt}
use hermes_hyperspacedb_prov.Ownership.{text_or}
use hermes_hyperspacedb_prov.Provider.{Provider, call}
use hermes_hyperspacedb_prov.Retrieval.Shown.{quarantine_notice}
use hermes_hyperspacedb_prov.Tools.{
  json_error, tool_json, bounded_arg, or_json_error, resolve_collection, resolve_points,
  resolve_point, sanitize_result, answer,
}
use hermes_hyperspacedb_prov.Tools.Memory.{boundary}

unfoldable pub listed : String → Value → Exec Provider (List Value)
listed message v = elim (as_list v) [
  | none ↦ raise (fail malformed_result message)
  | some vs ↦ pure vs
]

abbrev is_id : ℕ → Value → Bool
is_id i (int n) = eqb n i
is_id i _ = false

-- `by_id.get(i)`, for an id that was asked for: the last point of the reply that has it
unfoldable pub point_with : ℕ → List Value → Option Value
point_with i [] = none
point_with i (raw ∷ rest) =
    let later = point_with i rest in
    elim later [
      | some v ↦ some v
      | none ↦ elim (as_dict raw) [
        | none ↦ none
        | some fs ↦ if is_id i (get "id" fs) then some raw else none
      ]
    ]

module _ (env : Env) where
  -- `item["truncated"]` and `item["content"]`, where there is a content
  unfoldable pub content_fields : ℕ → String → Bool → Fields
  content_fields limit content quarantined =
      if Text.is_empty content
      then end
      else field "truncated" (bool (ltb limit (Text.length content))) (
          field "content" (str (if quarantined then quarantine_notice else Text.take limit content))
            end)

  -- `item`
  unfoldable pub point_fields : ℕ → Value → Value → Fields
  unfolding content_fields
  point_fields limit handle raw =
      let content = Text.strip (extract_content raw) in
      let meta = metadata raw in
      field "handle" handle (
        field "status" (str "FOUND") (
          field "source" (str (Text.take 200 (text_or env "source" "unknown" meta))) (
            field "trust" (str (Text.take 100 (text_or env "trust" "unknown" meta))) (
              field "target" (str (Text.take 100 (text_or env "target" "unknown" meta))) (
                field "quarantined" (bool (env.injection content))
                  (content_fields limit content (env.injection content)))))))

  -- What the loop over `zip(point_handles, point_ids)` appends.
  unfoldable pub point_item : ℕ → Value → Option Value → Value
  unfolding point_fields
  point_item limit handle none = dict (field "handle" handle (field "status" (str "MISSING") end))
  point_item limit handle (some raw) = dict (point_fields limit handle raw)

  unfoldable pub point_items : ℕ → List Value → List ℕ → List Value → List Value
  unfolding point_item point_with
  point_items limit [] ids fetched = []
  point_items limit (h ∷ hs) [] fetched = []
  point_items limit (h ∷ hs) (i ∷ ids) fetched =
      point_item limit h (point_with i fetched) ∷ point_items limit hs ids fetched

  -- The three `except` branches around the handles of "points".
  abbrev pub refused_code : Code → ProviderError → Exec Provider String
  refused_code capability_forbidden e = pure (json_error env (code_text e.code) e.message)
  refused_code collection_forbidden e = pure (json_error env (code_text e.code) e.message)
  refused_code configuration_error e = pure (json_error env "INVALID_ARGUMENT" e.message)
  refused_code _ e = raise (provider e)

  abbrev pub refused_handles : Exn → Exec Provider String
  refused_handles (provider e) = refused_code e.code e
  refused_handles e = raise e

  -- `operation == "points"`, with the ids
  unfoldable pub show_points : Value → List ℕ → String → Exec Provider String
  unfolding point_items listed
  show_points handles ids collection = do
    reply ← call env (get_points ids collection)
    fetched ← listed "get_points returned a non-list response" reply
    limit ← gets (λ p. p.max_result_chars)
    named ← listed "" handles
    tool_json env (
        field "ok" (bool true) (
          field "data_boundary" boundary
            (field "result" (list (of_list (point_items limit named ids fetched))) end)))

  -- `operation == "points"`
  unfoldable pub graph_points : Value → String → Exec Provider String
  unfolding show_points
  graph_points handles collection = do
    ids ← attempt (resolve_points env handles collection)
    elim ids [ err e ↦ refused_handles e | ok is ↦ show_points handles is collection ]

  -- The RPC of the other operations of `_tool_graph`.
  unfoldable pub graph_request : Fields → String → ℕ → String → Exec Provider Value
  graph_request args operation point collection =
      if operation == "node"
      then call env (get_node point collection)
      else if operation == "neighbors"
      then (do
        limit ← bounded_arg env "limit" args 16 1 64
        call env (get_neighbors point limit collection))
      else if operation == "traverse"
      then (do
        depth ← bounded_arg env "max_depth" args 2 1 5
        nodes ← bounded_arg env "max_nodes" args 64 1 256
        call env (traverse point depth nodes collection))
      else raise (fail configuration_error "operation must be node, neighbors, traverse, or points")

  -- `_tool_graph`
  unfoldable pub tool_graph : Fields → Exec Provider String
  unfolding graph_points graph_request
  tool_graph args = or_json_error env do
    collection ← resolve_collection env args
    let operation = text_or env "operation" "" args
    if operation == "points" then graph_points (get "handles" args) collection else do
      point ← resolve_point env (get "handle" args) collection
      reply ← graph_request args operation point collection
      result ← sanitize_result env reply collection
      answer env result

  -- The RPC of `_tool_hierarchy`.
  unfoldable pub hierarchy_request : Fields → String → ℕ → String → Exec Provider Value
  hierarchy_request args operation point collection =
      if operation == "subsumption"
      then (do
        depth ← bounded_arg env "max_depth" args 2 1 5
        call env (get_subsumption_tree point depth collection))
      else if operation == "parents"
      then (do
        limit ← bounded_arg env "limit" args 16 1 64
        call env (get_concept_parents point limit collection))
      else raise (fail configuration_error "operation must be subsumption or parents")

  -- `_tool_hierarchy`
  unfoldable pub tool_hierarchy : Fields → Exec Provider String
  unfolding hierarchy_request
  tool_hierarchy args = or_json_error env do
    collection ← resolve_collection env args
    point ← resolve_point env (get "handle" args) collection
    reply ← hierarchy_request args (text_or env "operation" "" args) point collection
    result ← sanitize_result env reply collection
    answer env result

  -- `cluster_sizes`
  unfoldable pub cluster_sizes : List Value → List Value
  cluster_sizes [] = []
  cluster_sizes (v ∷ vs) =
      let rest = cluster_sizes vs in
      elim (as_list v) [ none ↦ rest | some members ↦ int (length members) ∷ rest ]

  -- `_tool_clusters`
  unfoldable pub tool_clusters : Fields → Exec Provider String
  unfolding cluster_sizes listed
  tool_clusters args = or_json_error env do
    collection ← resolve_collection env args
    max_clusters ← bounded_arg env "max_clusters" args 8 1 32
    min_size ← bounded_arg env "min_cluster_size" args 3 2 1000
    max_nodes ← bounded_arg env "max_nodes" args 2000 10 10000
    reply ← call env (find_semantic_clusters min_size max_clusters max_nodes collection)
    clusters ← listed "find_semantic_clusters returned a non-list response" reply
    answer env (
        dict (
          field "cluster_count" (int (length (cluster_sizes clusters)))
            (field "cluster_sizes" (list (of_list (cluster_sizes clusters))) end)))
