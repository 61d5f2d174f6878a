-- ===== src/Tools/Guarded/Geometry.antt =====
-- _provider.py: `_tool_geometry`, under the invariant of `Mutation/Safety`.
use hermes_hyperspacedb_prov.Prelude.{ℕ, String, Option, List, [], ◌∷◌}
use hermes_hyperspacedb_prov.Value.{Value, Fields, as_list}
use hermes_hyperspacedb_prov.Errors.{ProviderError, Code, configuration_error}
use hermes_hyperspacedb_prov.World.{Env}
use hermes_hyperspacedb_prov.Exec.Rules.{
  Preserves, Preserves-bind, Preserves-pure, Preserves-option, Preserves-raise, Preserves-result,
  Preserves-catch, Preserves-attempt,
}
use hermes_hyperspacedb_prov.Provider.{Context}
use hermes_hyperspacedb_prov.Mutation.Safety.{IsSafe, safe_rules}
use hermes_hyperspacedb_prov.Mutation.ContractGuarded.{require_collection_contract-IsSafe}
use hermes_hyperspacedb_prov.Tools.Geometry.Vectors.{
  rebuilt_vector, lorentz_vector_for_geometry, poincare_vectors,
}
use hermes_hyperspacedb_prov.Tools.Geometry.{
  resolve_handles, geometry_points, require_geometry_contract, trust_score, predict,
  geometry_result, geometry_answer, tool_geometry, reraise,
}
use hermes_hyperspacedb_prov.Tools.Guarded.Helpers.{
  resolve_points-IsSafe, tool_json-IsSafe, listed-IsSafe,
}

module _ {env : Env} {c : Context} where
  rebuilt_vector-IsSafe : (o : Option Value) → Preserves (IsSafe env c) (rebuilt_vector env o)
  unfolding rebuilt_vector
  rebuilt_vector-IsSafe o = Preserves-bind _ _ (search safe_rules) (λ _.
      Preserves-bind _ _ (search safe_rules) (λ metric.
        Preserves-bind _ _ (search safe_rules) (λ rebuilt.
          Preserves-bind _ _ (search safe_rules)
            (λ sheet. Preserves-option sheet _ _ (Preserves-raise _) (λ xs. Preserves-pure xs)))))

  lorentz_vector-IsSafe :
      (o : Option Value) → Preserves (IsSafe env c) (lorentz_vector_for_geometry env o)
  unfolding lorentz_vector_for_geometry
  lorentz_vector-IsSafe o =
      Preserves-bind _ _ (search safe_rules)
        (λ stored. Preserves-option stored _ _ (rebuilt_vector-IsSafe o) (λ xs. Preserves-pure xs))

  poincare_vectors-IsSafe :
      (ids : List ℕ) (fetched : List Value)
      → Preserves (IsSafe env c) (poincare_vectors env ids fetched)
  unfolding poincare_vectors
  poincare_vectors-IsSafe [] fetched = Preserves-pure _
  poincare_vectors-IsSafe (i ∷ ids) fetched =
      Preserves-bind _ _ (lorentz_vector-IsSafe _) (λ lorentz.
        Preserves-bind _ _ (search safe_rules) (λ poincare.
          Preserves-bind _ _ (poincare_vectors-IsSafe ids fetched) (λ rest. Preserves-pure _)))

  reraise-IsSafe :
      {A : Type 0} (k : Code) (e : ProviderError)
      → Preserves (IsSafe env c) (reraise env {A = A} k e)
  reraise-IsSafe configuration_error e = Preserves-raise _
  reraise-IsSafe _ e = Preserves-raise _

  resolve_handles-IsSafe : (v : Value) → Preserves (IsSafe env c) (resolve_handles env v)
  unfolding resolve_handles
  resolve_handles-IsSafe v = Preserves-bind _ _ (search safe_rules) (λ collection.
      Preserves-catch _ _ (resolve_points-IsSafe v collection) (λ e. reraise-IsSafe e.code e))

  geometry_points-IsSafe : (v : Value) → Preserves (IsSafe env c) (geometry_points env v)
  unfolding geometry_points
  geometry_points-IsSafe v =
      search (safe_rules, resolve_handles-IsSafe, listed-IsSafe, poincare_vectors-IsSafe) depth 12

  require_geometry_contract-IsSafe : Preserves (IsSafe env c) (require_geometry_contract env)
  unfolding require_geometry_contract
  require_geometry_contract-IsSafe =
      search (safe_rules, require_collection_contract-IsSafe) depth 12

  trust_score-IsSafe : (v : Value) (n : ℕ) → Preserves (IsSafe env c) (trust_score env v n)
  unfolding trust_score
  trust_score-IsSafe v n = search (safe_rules, resolve_handles-IsSafe) depth 12

  predict-IsSafe :
      (operation : String) (v : Value) (args : Fields)
      → Preserves (IsSafe env c) (predict env operation v args)
  unfolding predict
  predict-IsSafe operation v args = search (safe_rules, geometry_points-IsSafe) depth 12

  geometry_result-IsSafe : (args : Fields) → Preserves (IsSafe env c) (geometry_result env args)
  unfolding geometry_result
  geometry_result-IsSafe args = Preserves-bind _ _ require_geometry_contract-IsSafe (λ _.
      Preserves-bind _ _ (search safe_rules) (λ _.
        Preserves-option (as_list _) _ _ (Preserves-raise _)
          (λ hs. search (safe_rules, trust_score-IsSafe, predict-IsSafe) depth 12)))

  geometry_answer-IsSafe : (args : Fields) → Preserves (IsSafe env c) (geometry_answer env args)
  unfolding geometry_answer
  geometry_answer-IsSafe args = search (safe_rules, geometry_result-IsSafe, tool_json-IsSafe)

  pub tool_geometry-IsSafe : (args : Fields) → Preserves (IsSafe env c) (tool_geometry env args)
  unfolding tool_geometry
  tool_geometry-IsSafe args =
      Preserves-bind _ _ (Preserves-attempt _ (geometry_answer-IsSafe args)) (λ answered.
        Preserves-result answered _ _ (λ text. Preserves-pure text) (λ e. Preserves-pure _))
