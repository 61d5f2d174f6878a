-- ===== src/Tools/Guarded.antt =====
-- _provider.py: the handlers of the memory and of the graph, and every call of a tool, under the
-- invariant of `Mutation/Safety`.
pub mod Helpers
pub mod Admin
pub mod Geometry
pub mod Calls
use hermes_hyperspacedb_prov.Prelude.{ℕ, String, Bool, Option, none, some, List, [], ◌∷◌}
use hermes_hyperspacedb_prov.Value.{Value, Fields, as_list}
use hermes_hyperspacedb_prov.Errors.{
  Exn, ProviderError, Code, provider, capability_forbidden, collection_forbidden,
  configuration_error,
}
use hermes_hyperspacedb_prov.World.{Env}
use hermes_hyperspacedb_prov.Exec.{Exec}
use hermes_hyperspacedb_prov.Exec.Rules.{
  Preserves, Preserves-bind, Preserves-if, Preserves-pure, Preserves-option, Preserves-raise,
  Preserves-result,
}
use hermes_hyperspacedb_prov.Provider.{Provider, Context}
use hermes_hyperspacedb_prov.Ledger.Tables.{LedgerRecord}
use hermes_hyperspacedb_prov.Mutation.Safety.{IsSafe, safe_rules}
use hermes_hyperspacedb_prov.Mutation.Guarded.{store_content-IsSafe}
use hermes_hyperspacedb_prov.Mutation.ResolveGuarded.{search_records-IsSafe}
use hermes_hyperspacedb_prov.Tools.Memory.{
  tool_search, tool_search_advanced, stored_answer, tool_store, tool_status, tool_audit,
}
use hermes_hyperspacedb_prov.Tools.Points.{
  refused_code, refused_handles, show_points, graph_points, graph_request, tool_graph,
  hierarchy_request, tool_hierarchy, tool_clusters,
}
use Helpers.{
  mint_point-IsSafe, resolve_points-IsSafe, resolve_point-IsSafe, bounded_arg-IsSafe,
  tool_json-IsSafe, answer-IsSafe, or_json_error-IsSafe, resolve_collection-IsSafe,
  probe_health-IsSafe, bounded_records-IsSafe, sanitize_result-IsSafe, listed-IsSafe,
}

ruleset tool_rules = (
  safe_rules, mint_point-IsSafe, resolve_points-IsSafe, resolve_point-IsSafe, bounded_arg-IsSafe,
  tool_json-IsSafe, answer-IsSafe, or_json_error-IsSafe, resolve_collection-IsSafe,
  probe_health-IsSafe, bounded_records-IsSafe, sanitize_result-IsSafe, search_records-IsSafe,
  store_content-IsSafe,
)

module _ {env : Env} {c : Context} where
  pub tool_search-IsSafe : (args : Fields) → Preserves (IsSafe env c) (tool_search env args)
  unfolding tool_search
  tool_search-IsSafe args = search tool_rules depth 16

  pub tool_search_advanced-IsSafe :
      (args : Fields) → Preserves (IsSafe env c) (tool_search_advanced env args)
  unfolding tool_search_advanced
  tool_search_advanced-IsSafe args = search tool_rules depth 16

  stored_answer-IsSafe :
      (r : LedgerRecord) (known : Bool) (o : Option String)
      → Preserves (IsSafe env c) (stored_answer env r known o)
  unfolding stored_answer
  stored_answer-IsSafe r known none = Preserves-raise _
  stored_answer-IsSafe r known (some h) = tool_json-IsSafe _

  pub tool_store-IsSafe : (args : Fields) → Preserves (IsSafe env c) (tool_store env args)
  unfolding tool_store
  tool_store-IsSafe args = search (tool_rules, stored_answer-IsSafe) depth 16

  pub tool_status-IsSafe : Preserves (IsSafe env c) (tool_status env)
  unfolding tool_status
  tool_status-IsSafe = search tool_rules depth 16

  pub tool_audit-IsSafe : (args : Fields) → Preserves (IsSafe env c) (tool_audit env args)
  unfolding tool_audit
  tool_audit-IsSafe args = Preserves-bind _ _ (search safe_rules) (λ p.
      Preserves-if _ _ _ (Preserves-pure _)
        (Preserves-option p.ledger _ _ (Preserves-pure _) (λ l. answer-IsSafe _)))

  refused_code-IsSafe :
      (k : Code) (e : ProviderError) → Preserves (IsSafe env c) (refused_code env k e)
  refused_code-IsSafe capability_forbidden e = Preserves-pure _
  refused_code-IsSafe collection_forbidden e = Preserves-pure _
  refused_code-IsSafe configuration_error e = Preserves-pure _
  refused_code-IsSafe _ e = Preserves-raise _

  refused_handles-IsSafe : (e : Exn) → Preserves (IsSafe env c) (refused_handles env e)
  refused_handles-IsSafe (provider e) = refused_code-IsSafe e.code e
  refused_handles-IsSafe _ = Preserves-raise _

  show_points-IsSafe :
      (v : Value) (ids : List ℕ) (collection : String)
      → Preserves (IsSafe env c) (show_points env v ids collection)
  unfolding show_points
  show_points-IsSafe v ids collection = search (tool_rules, listed-IsSafe) depth 16

  graph_points-IsSafe :
      (v : Value) (collection : String) → Preserves (IsSafe env c) (graph_points env v collection)
  unfolding graph_points
  graph_points-IsSafe v collection = Preserves-bind _ _ (search tool_rules) (λ ids.
      Preserves-result ids _ _ (λ is. show_points-IsSafe v is collection)
        (λ e. refused_handles-IsSafe e))

  graph_request-IsSafe :
      (args : Fields) (operation : String) (i : ℕ) (collection : String)
      → Preserves (IsSafe env c) (graph_request env args operation i collection)
  unfolding graph_request
  graph_request-IsSafe args operation i collection = search tool_rules depth 16

  pub tool_graph-IsSafe : (args : Fields) → Preserves (IsSafe env c) (tool_graph env args)
  unfolding tool_graph
  tool_graph-IsSafe args = search (tool_rules, graph_points-IsSafe, graph_request-IsSafe) depth 16

  hierarchy_request-IsSafe :
      (args : Fields) (operation : String) (i : ℕ) (collection : String)
      → Preserves (IsSafe env c) (hierarchy_request env args operation i collection)
  unfolding hierarchy_request
  hierarchy_request-IsSafe args operation i collection = search tool_rules depth 16

  pub tool_hierarchy-IsSafe : (args : Fields) → Preserves (IsSafe env c) (tool_hierarchy env args)
  unfolding tool_hierarchy
  tool_hierarchy-IsSafe args = search (tool_rules, hierarchy_request-IsSafe) depth 16

  pub tool_clusters-IsSafe : (args : Fields) → Preserves (IsSafe env c) (tool_clusters env args)
  unfolding tool_clusters
  tool_clusters-IsSafe args = search (tool_rules, listed-IsSafe) depth 16
