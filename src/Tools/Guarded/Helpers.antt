-- ===== src/Tools/Guarded/Helpers.antt =====
-- _provider.py: what the handlers of the tools share, and the handlers of the memory and of the graph,
-- under the invariant of `Mutation/Safety`.
use hermes_hyperspacedb_prov.Prelude.{ℕ, String, List, [], ◌∷◌}
use hermes_hyperspacedb_prov.Value.{Value, Fields, as_list, float}
use hermes_hyperspacedb_prov.Value.Numbers.{inf, neg_inf}
use hermes_hyperspacedb_prov.World.{Env}
use hermes_hyperspacedb_prov.Exec.{Exec, modify}
use hermes_hyperspacedb_prov.Exec.Rules.{
  Preserves, Preserves-bind, Preserves-pure, Preserves-option, Preserves-modify, Preserves-raise,
  Preserves-catch,
}
use hermes_hyperspacedb_prov.Capability
use hermes_hyperspacedb_prov.Capability.{Resolved, granted, bad_handles, not_issued, out_of_scope}
use hermes_hyperspacedb_prov.Graph.Kept.{sanitize-P}
use hermes_hyperspacedb_prov.Provider.{Provider, Context}
use hermes_hyperspacedb_prov.Retrieval.{Hit}
use hermes_hyperspacedb_prov.Retrieval.Shown.{
  mint_handle, mint_point, bounded_record, bounded_records,
}
use hermes_hyperspacedb_prov.Mutation.Safety.{IsSafe, safe_rules}
use hermes_hyperspacedb_prov.Tools.Points.{listed}
use hermes_hyperspacedb_prov.Tools.{
  resolved, bounded_value, bounded_arg, or_json_error, resolve_collection, resolve_points,
  resolve_point, sanitize_result, answer, tool_json, probe_health,
}

module _ {env : Env} {c : Context} where
  -- A change of the capabilities and of the number of readings.
  pub capabilities-IsSafe :
      (p : Provider) (s : Capability.Store) (n : ℕ)
      → IsSafe env c p
      → IsSafe env c (record p { capabilities = s; ticks = n })
  capabilities-IsSafe p s n k = record {
    same_context = k.same_context;
    ledger = k.ledger;
    only_cleared = k.only_cleared;
  }

  mint_handle-IsSafe :
      (collection : String) (v : Value) (p : Provider)
      → IsSafe env c p
      → IsSafe env c (mint_handle env collection v p).1
  unfolding mint_handle
  mint_handle-IsSafe collection v p k = capabilities-IsSafe p _ _ k

  pub mint_point-IsSafe :
      (v : Value) (collection : String) → Preserves (IsSafe env c) (mint_point env v collection)
  unfolding mint_point
  mint_point-IsSafe v collection = record { run = mint_handle-IsSafe collection v }

  pub resolved-IsSafe :
      {A : Type 0} (message : String) (r : Resolved A)
      → Preserves (IsSafe env c) (resolved message r)
  resolved-IsSafe message (granted a) = Preserves-pure a
  resolved-IsSafe message bad_handles = Preserves-raise _
  resolved-IsSafe message not_issued = Preserves-raise _
  resolved-IsSafe message out_of_scope = Preserves-raise _

  pub resolve_points-IsSafe :
      (v : Value) (collection : String) → Preserves (IsSafe env c) (resolve_points env v collection)
  unfolding resolve_points
  resolve_points-IsSafe v collection = record {
    run = λ p k. (resolved-IsSafe _ _).run _ (capabilities-IsSafe p _ _ k);
  }

  pub resolve_point-IsSafe :
      (v : Value) (collection : String) → Preserves (IsSafe env c) (resolve_point env v collection)
  unfolding resolve_point
  resolve_point-IsSafe v collection = record {
    run = λ p k. (resolved-IsSafe _ _).run _ (capabilities-IsSafe p _ _ k);
  }

  bounded_value-IsSafe :
      (v : Value) (default low high : ℕ)
      → Preserves (IsSafe env c) (bounded_value env v default low high)
  unfolding bounded_value
  bounded_value-IsSafe (float inf) default low high = Preserves-raise _
  bounded_value-IsSafe (float neg_inf) default low high = Preserves-raise _
  bounded_value-IsSafe _ default low high = Preserves-pure _

  pub bounded_arg-IsSafe :
      (key : String) (args : Fields) (default low high : ℕ)
      → Preserves (IsSafe env c) (bounded_arg env key args default low high)
  unfolding bounded_arg
  bounded_arg-IsSafe key args default low high = bounded_value-IsSafe _ default low high

  pub tool_json-IsSafe : (fs : Fields) → Preserves (IsSafe env c) (tool_json env fs)
  unfolding tool_json
  tool_json-IsSafe fs = search safe_rules

  pub answer-IsSafe : (v : Value) → Preserves (IsSafe env c) (answer env v)
  unfolding answer
  answer-IsSafe v = tool_json-IsSafe _

  pub listed-IsSafe : (m : String) (v : Value) → Preserves (IsSafe env c) (listed m v)
  unfolding listed
  listed-IsSafe m v = Preserves-option (as_list v) _ _ (Preserves-raise _) (λ vs. Preserves-pure vs)

  pub or_json_error-IsSafe :
      (m : Exec Provider String)
      → Preserves (IsSafe env c) m
      → Preserves (IsSafe env c) (or_json_error env m)
  unfolding or_json_error
  or_json_error-IsSafe m km = Preserves-catch m _ km (λ e. Preserves-pure _)

  pub resolve_collection-IsSafe :
      (args : Fields) → Preserves (IsSafe env c) (resolve_collection env args)
  unfolding resolve_collection
  resolve_collection-IsSafe args = search safe_rules depth 12

  healthy-IsSafe :
      (h : String)
      → Preserves
          (IsSafe env c)
          (modify (λ p. record p { health = h; last_error_code = ""; last_error = "" }))
  healthy-IsSafe h = Preserves-modify _ (λ p k. record {
    same_context = k.same_context;
    ledger = k.ledger;
    only_cleared = k.only_cleared;
  })

  pub probe_health-IsSafe : Preserves (IsSafe env c) (probe_health env)
  unfolding probe_health
  probe_health-IsSafe = search (safe_rules, healthy-IsSafe) depth 12

  bounded_record-IsSafe : (h : Hit) → Preserves (IsSafe env c) (bounded_record env h)
  unfolding bounded_record
  bounded_record-IsSafe h = search (safe_rules, mint_point-IsSafe)

  pub bounded_records-IsSafe : (hs : List Hit) → Preserves (IsSafe env c) (bounded_records env hs)
  unfolding bounded_records
  bounded_records-IsSafe [] = Preserves-pure _
  bounded_records-IsSafe (h ∷ hs) =
      Preserves-bind _ _ (bounded_record-IsSafe h)
        (λ v. Preserves-bind _ _ (bounded_records-IsSafe hs) (λ vs. Preserves-pure _))

pub sanitize_result-IsSafe :
    {env : Env} {c : Context} (v : Value) (collection : String)
    → Preserves (IsSafe env c) (sanitize_result env v collection)
unfolding sanitize_result
sanitize_result-IsSafe {env = env} {c = c} v collection = record {
  run = sanitize-P (IsSafe env c) (mint_handle env collection) (mint_handle-IsSafe collection) v;
}
