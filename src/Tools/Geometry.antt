-- ===== src/Tools/Geometry.antt =====
-- _provider.py and _geometry.py: `_tool_geometry` and the vectors under it. Floating-point operations
-- and the functions of the SDK's `hyperspace.math` are parameters.
pub mod Vectors
use Prim.Native.String.{◌++◌ as ◌<>◌}
use hermes_hyperspacedb_prov.Prelude.{
  ℕ, ◌*◌, ◌^◌, String, Bool, true, false, not, ◌&&◌, ◌||◌, Option, none, some, List, [], ◌∷◌, leb,
  eqb, map, ◌==◌, if◌then◌else◌,
}
use hermes_hyperspacedb_prov.Prelude.Lists.{length}
use hermes_hyperspacedb_prov.Text
use hermes_hyperspacedb_prov.Value.{
  Value, Fields, null, bool, int, float, str, dict, end, field, get, has_key, as_dict, as_list,
}
use hermes_hyperspacedb_prov.Value.Numbers.{
  Float, finite, pos, leb_Float, gtb_Float, is_finite, eqb_ℤ,
}
use hermes_hyperspacedb_prov.Content.{extract_content}
use hermes_hyperspacedb_prov.Provider.Contract.{finite_floats}
use hermes_hyperspacedb_prov.Errors.{float_overflow}
use hermes_hyperspacedb_prov.Errors.{
  Code, Exn, Result, ok, err, fail, provider, other, code_text, ProviderError, malformed_result,
  configuration_error, invalid_argument, diagnostic_unavailable,
}
use hermes_hyperspacedb_prov.World.{Env, vectorize, get_points}
use hermes_hyperspacedb_prov.Exec.{
  Exec, pure, raise, gets, ◌>>=◌, ◌>>◌, lift, attempt, catch, raise_if,
}
use hermes_hyperspacedb_prov.Ownership.{text_or}
use hermes_hyperspacedb_prov.Provider.{Provider, call}
use hermes_hyperspacedb_prov.Provider.Contract.{
  one, hundredth, larger, is_number, as_sequence, require_collection_contract,
}
use hermes_hyperspacedb_prov.Tools.{json_error, tool_json, resolve_points}
use hermes_hyperspacedb_prov.Tools.Points.{listed, point_with}
use Vectors.{
  millionth, four, is_bool_or_number, malformed, invalid, squares, geometry_norm, scaled_sheet,
  sheet_of, try_lorentz_sheet, point_content, rebuilt_vector, stored_vector,
  lorentz_vector_for_geometry, check_poincare, poincare_vectors,
}

module _ (env : Env) where
  -- `except ConfigurationError as error: raise InvalidArgument(str(error))`
  abbrev pub reraise : {A : Type 0} → Code → ProviderError → Exec Provider A
  reraise configuration_error e = raise (invalid e.message)
  reraise _ e = raise (provider e)

  unfoldable pub resolve_handles : Value → Exec Provider (List ℕ)
  resolve_handles handles = do
    collection ← gets (λ p. p.collection)
    catch (resolve_points env handles collection) (λ e. reraise e.code e)

  -- `_geometry_points`
  unfoldable pub geometry_points : Value → Exec Provider (List (List Float))
  unfolding resolve_handles poincare_vectors
  geometry_points handles = do
    ids ← resolve_handles handles
    collection ← gets (λ p. p.collection)
    reply ← call env (get_points ids collection)
    fetched ← listed "get_points returned a non-list response" reply
    poincare_vectors env ids fetched

  abbrev is_geometric : Provider → Bool
  is_geometric p =
      p.metric == "lorentz"
      && elim p.observed_dimension [ none ↦ false | some d ↦ eqb_ℤ d (pos 129) ]

  -- `_require_geometry_contract`
  unfoldable pub require_geometry_contract : Exec Provider (Unit {0})
  require_geometry_contract = do
    require_collection_contract env
    geometric ← gets is_geometric
    raise_if (not geometric)
        (fail configuration_error "Geometry diagnostics require a verified Lorentz 129D collection")

  -- The tests on a vector that a diagnostic returns.
  unfoldable pub check_vector : String → Option Value → Result (List Float)
  unfolding finite_floats
  check_vector message none = err (other "Exception" "" "")
  check_vector message (some v) = elim (as_list v) [
    | none ↦ err (malformed message)
    | some vs ↦
        if not (eqb (length vs) 128)
        then err (malformed message)
        else elim (finite_floats env is_number vs) [
          | err e ↦ err e
          | ok none ↦ err (malformed message)
          | ok (some xs) ↦ ok xs
        ]
  ]

  -- `steps`
  unfoldable pub momentum_steps : Fields → Result Float
  momentum_steps args =
      let v = if has_key "steps" args then get "steps" args else float one in
      if not (is_number v)
      then err (invalid "steps must be a finite number")
      else elim (env.to_float v) [
        | none ↦ err float_overflow
        | some x ↦
            if is_finite x && gtb_Float x (finite (pos 0)) && leb_Float x four
            then ok x
            else err (invalid "steps must be finite and in (0, 4]")
      ]

  abbrev pub diagnostic : ℕ → Float → Value
  diagnostic dimension norm =
      dict (field "dimension" (int dimension) (field "l2_norm" (float norm) end))

  -- The diagnostics on the two vectors; `_geometry_points` gives one for each of the two handles.
  unfoldable pub relation_result : List (List Float) → Result Value
  unfolding check_vector geometry_norm
  relation_result (x ∷ y ∷ rest) =
      elim (check_vector "Relation diagnostic returned an invalid Poincare vector"
        (env.log_map x y)) [ err e ↦ err e | ok xs ↦ ok (diagnostic 128 (geometry_norm env xs)) ]
  relation_result _ = err (other "IndexError" "" "list index out of range")

  unfoldable pub momentum_result : Float → List (List Float) → Result Value
  unfolding check_vector geometry_norm
  momentum_result steps (x ∷ y ∷ rest) =
      elim (check_vector "Momentum diagnostic returned an invalid Poincare vector"
        (env.koopman_extrapolate x y steps)) [
          | err e ↦ err e
          | ok xs ↦
              if leb_Float one (geometry_norm env xs)
              then err (malformed "Momentum diagnostic left the Poincare unit ball")
              else ok (diagnostic 128 (geometry_norm env xs))
        ]
  momentum_result steps _ = err (other "IndexError" "" "list index out of range")

  abbrev trust_unavailable : Exn
  trust_unavailable =
      fail diagnostic_unavailable
        "trust_score is unavailable: the current upstream formula is degenerate"

  -- `operation == "trust_score"`
  unfoldable pub trust_score : Value → ℕ → Exec Provider Value
  unfolding resolve_handles
  trust_score handles n = do
    raise_if (not (leb 3 n && leb n 16)) (invalid "trust_score requires 3 to 16 capability handles")
    resolve_handles handles
    raise trust_unavailable

  -- The other operations, with two handles.
  unfoldable pub predict : String → Value → Fields → Exec Provider Value
  unfolding geometry_points momentum_steps relation_result momentum_result
  predict operation handles args =
      if operation == "predict_relation"
      then (do vectors ← geometry_points handles; lift (relation_result vectors))
      else do
        steps ← lift (momentum_steps args)
        vectors ← geometry_points handles
        lift (momentum_result steps vectors)

  -- `result` of `_tool_geometry`
  unfoldable pub geometry_result : Fields → Exec Provider Value
  unfolding require_geometry_contract trust_score predict
  geometry_result args = do
    require_geometry_contract
    let operation = text_or env "operation" "" args
    raise_if
        (not (
          operation == "predict_relation"
          || operation == "predict_momentum"
          || operation == "trust_score"))
        (invalid "operation must be predict_relation, predict_momentum, or trust_score")
    elim (as_list (get "handles" args)) [
      | none ↦ raise (invalid "handles must be a capability-handle list")
      | some handles ↦
          if operation == "trust_score"
          then trust_score (get "handles" args) (length handles)
          else do
            raise_if (not (eqb (length handles) 2))
                (invalid (operation <> " requires exactly 2 capability handles"))
            predict operation (get "handles" args) args
    ]

  unfoldable pub geometry_answer : Fields → Exec Provider String
  unfolding geometry_result
  geometry_answer args = do
    result ← geometry_result args
    tool_json env (
        field "ok" (bool true) (
          field "diagnostic_kind" (str "geometry") (
            field "metric" (str "lorentz") (
              field "input_dimension" (int 129) (
                field "output_representation" (str "scalar_summary_from_poincare_ball_128") (
                  field "interpretation"
                    (str "This geometric diagnostic does not establish factual truth or safety.")
                    (field "result" result end)))))))

  -- The two `except` branches of `_tool_geometry`.
  abbrev pub geometry_error : Exn → String
  geometry_error (provider e) = json_error env (code_text e.code) e.message
  geometry_error _ = json_error env "MALFORMED_RESULT" "Geometry diagnostic failed"

  -- `_tool_geometry`
  unfoldable pub tool_geometry : Fields → Exec Provider String
  unfolding geometry_answer
  tool_geometry args = do
    answered ← attempt (geometry_answer args)
    elim answered [ ok text ↦ pure text | err e ↦ pure (geometry_error e) ]
