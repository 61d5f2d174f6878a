-- ===== src/Tools/Guarded/Calls.antt =====
-- _provider.py: `handle_tool_call`, under the invariant of `Mutation/Safety`.
use hermes_hyperspacedb_prov.Prelude.{
  String, true, false, Bool, Option, none, some, List, [], ◌∷◌, ◌++◌, inl, inr, Bool-cases, ◌==◌,
  if◌then◌else◌,
}
use hermes_hyperspacedb_prov.Value.{Fields}
use hermes_hyperspacedb_prov.World.{Env}
use hermes_hyperspacedb_prov.Exec.{Exec, pure}
use hermes_hyperspacedb_prov.Exec.Rules.{
  Preserves, Preserves-bind, Preserves-if, Preserves-pure, Preserves-list,
}
use hermes_hyperspacedb_prov.Config.{Config}
use hermes_hyperspacedb_prov.Provider.{Provider, Context}
use hermes_hyperspacedb_prov.Mutation.Safety.{IsSafe, safe_rules}
use hermes_hyperspacedb_prov.Tools.Dispatch.{
  Handler, handler_named, basic_handlers, handlers, without_reason, run_tool, handle_tool_call,
}
use hermes_hyperspacedb_prov.Tools.Guarded.{
  tool_search-IsSafe, tool_search_advanced-IsSafe, tool_store-IsSafe, tool_status-IsSafe,
  tool_audit-IsSafe, tool_graph-IsSafe, tool_hierarchy-IsSafe, tool_clusters-IsSafe,
}
use hermes_hyperspacedb_prov.Tools.Guarded.Admin.{
  tool_admin-IsSafe, tool_events-IsSafe, tool_reconcile-IsSafe, tool_batch-IsSafe,
}
use hermes_hyperspacedb_prov.Tools.Guarded.Geometry.{tool_geometry-IsSafe}

module _ (env : Env) (c : Context) where
  abbrev KeepsSafe : Handler → Type 0
  KeepsSafe h = (args : Fields) → Preserves (IsSafe env c) (h args)

  abbrev AllKeepSafe : List (String × Handler) → Type 0
  AllKeepSafe [] = Unit
  AllKeepSafe ((k, h) ∷ rest) = KeepsSafe h × AllKeepSafe rest

  abbrev FoundKeepsSafe : Option Handler → Type 0
  FoundKeepsSafe none = Unit
  FoundKeepsSafe (some h) = KeepsSafe h

  AllKeepSafe-append :
      (hs ks : List (String × Handler)) → AllKeepSafe hs → AllKeepSafe ks → AllKeepSafe (hs ++ ks)
  AllKeepSafe-append [] ks a b = b
  AllKeepSafe-append ((k, h) ∷ hs) ks (x, a) b = (x, AllKeepSafe-append hs ks a b)

  AllKeepSafe-optional :
      (b : Bool) (k : String) (h : Handler)
      → KeepsSafe h
      → AllKeepSafe (if b then (k, h) ∷ [] else [])
  AllKeepSafe-optional true k h x = (x, tt)
  AllKeepSafe-optional false k h x = tt

  handler_named-KeepsSafe :
      (name : String) (hs : List (String × Handler))
      → AllKeepSafe hs
      → FoundKeepsSafe (handler_named name hs)
  unfolding handler_named
  handler_named-KeepsSafe name [] a = tt
  handler_named-KeepsSafe name ((k, h) ∷ rest) (x, a) = elim (Bool-cases (k == name)) [
    | inl t ↦ rw (t, handler_named) x
    | inr t ↦ rw (t, handler_named) (handler_named-KeepsSafe name rest a)
  ]

  basic_handlers-KeepSafe : AllKeepSafe (basic_handlers env)
  unfolding basic_handlers
  basic_handlers-KeepSafe = (
    tool_search-IsSafe,
    (
      tool_store-IsSafe,
      (
        (λ unused. tool_status-IsSafe),
        (
          tool_audit-IsSafe,
          (
            tool_graph-IsSafe,
            (
              tool_hierarchy-IsSafe,
              (
                tool_clusters-IsSafe,
                (tool_search_advanced-IsSafe, (tool_admin-IsSafe, (tool_geometry-IsSafe, tt))),
              ),
            ),
          ),
        ),
      ),
    ),
  )

  handlers-KeepSafe : (k : Config) → AllKeepSafe (handlers env k)
  unfolding handlers
  handlers-KeepSafe k = AllKeepSafe-append (basic_handlers env) _ basic_handlers-KeepSafe (
      AllKeepSafe-append _ _
        (AllKeepSafe-optional k.event_observation_enabled "hyperspace_events" _ tool_events-IsSafe)
        (AllKeepSafe-append _ _
          (AllKeepSafe-optional k.operator_reconcile_enabled "hyperspace_reconcile" _
            tool_reconcile-IsSafe)
          (AllKeepSafe-optional k.batch_mutation_enabled "hyperspace_batch" _ tool_batch-IsSafe)))

  run_tool-IsSafe :
      (name : String) (args : Fields) (h : Handler)
      → KeepsSafe h
      → Preserves (IsSafe env c) (run_tool env name args h)
  unfolding run_tool
  run_tool-IsSafe name args h x =
      Preserves-list _ _ _ (x (without_reason args)) (λ k ks. Preserves-pure _)

  run_found-IsSafe :
      (name : String) (args : Fields) (text : String) (o : Option Handler)
      → FoundKeepsSafe o
      → Preserves (IsSafe env c) (elim o as (λ _. Exec Provider String) [
        | none ↦ pure text
        | some h ↦ run_tool env name args h
      ])
  run_found-IsSafe name args text none x = Preserves-pure text
  run_found-IsSafe name args text (some h) x = run_tool-IsSafe name args h x

  handle_tool_call-Preserves :
      (name : String) (args : Fields) → Preserves (IsSafe env c) (handle_tool_call env name args)
  unfolding handle_tool_call
  handle_tool_call-Preserves name args = Preserves-bind _ _ (search safe_rules) (λ p.
      Preserves-if _ _ _ (Preserves-pure _) (
        run_found-IsSafe name args _ _
          (handler_named-KeepsSafe name (handlers env p.config) (handlers-KeepSafe p.config))))

-- A call of a tool, whichever it is, whatever its arguments, however it ends and whatever the backend
-- replies, keeps the settings, the session, the event buffer and the write queue, keeps the digests
-- and external ids of the ledger distinct, and sends each `delete` right after a read of the same id
-- of which the first point names the plugin and is authenticated for some digest under the keys, or
-- does not name the plugin and has a content: a point that names the plugin is never deleted where it
-- is not authenticated.
pub handle_tool_call-IsSafe :
    (env : Env) (c : Context) (name : String) (args : Fields) (p : Provider)
    → IsSafe env c p
    → IsSafe env c (handle_tool_call env name args p).1
handle_tool_call-IsSafe env c name args p k = (handle_tool_call-Preserves env c name args).run p k
