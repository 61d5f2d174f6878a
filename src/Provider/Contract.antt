-- ===== src/Provider/Contract.antt =====
-- The collection contract: `extract_collection_contract_fields` and `infer_contract_from_vector` of
-- _lifecycle.py, and the methods of _provider.py that verify the metric and the dimension.
use hermes_hyperspacedb_prov.Prelude.{
  ℕ, suc, ◌*◌, ◌^◌, String, Bool, true, false, not, ◌&&◌, ◌||◌, Option, none, some, List, [], ◌∷◌,
  map, eqb, ◌==◌, if◌then◌else◌,
}
use hermes_hyperspacedb_prov.Prelude.Lists.{length}
use hermes_hyperspacedb_prov.Text
use hermes_hyperspacedb_prov.Value.{
  Value, Fields, null, int, neg, float, list, tuple, get, has_key, as_dict, as_list, to_list,
  is_missing,
}
use hermes_hyperspacedb_prov.Value.Numbers.{
  Float, ℤ, pos, negsuc, finite, inf, neg_inf, leb_Float, gtb_Float, is_finite,
}
use hermes_hyperspacedb_prov.Errors.{
  Result, ok, err, fail, configuration_error, malformed_result, float_overflow, int_overflow,
}
use hermes_hyperspacedb_prov.World.{Env, get_collection_stats, list_collections, scroll, get_points}
use hermes_hyperspacedb_prov.Ownership.{text_or}
use hermes_hyperspacedb_prov.Exec.{Exec, lift, pure, raise, gets, modify, ◌>>=◌, ◌>>◌, catch, when}
use hermes_hyperspacedb_prov.Provider.{Provider, call}

-- A metric, empty where it is unknown, and a dimension, `None` or empty where that is unknown.
abbrev pub Contract : Type 0
Contract = String × Value

-- `fs.get(key, default)`
abbrev pub get_or : String → Value → Fields → Value
get_or key default fs = if has_key key fs then get key fs else default

-- The vector, where it is a list or a tuple.
unfoldable pub as_sequence : Value → Option (List Value)
as_sequence (list xs) = some (to_list xs)
as_sequence (tuple xs) = some (to_list xs)
as_sequence _ = none

abbrev pub is_number : Value → Bool
is_number (int n) = true
is_number (neg n) = true
is_number (float x) = true
is_number _ = false

-- 1.0 and 1e-2, in units of 2^-1074
unfoldable pub one : Float
one = finite (pos (2 ^ 1074))

unfoldable pub hundredth : Float
hundredth = finite (pos (5764607523034235 * 2 ^ 1015))

-- `max(a, b)`
abbrev pub larger : Float → Float → Float
larger a b = if gtb_Float b a then b else a

-- `v in (None, "")` where that holds, else the dimension that is there
abbrev pub if_missing : Value → Value → Value
if_missing v w = if is_missing v then w else v

module _ (env : Env) where
  -- `str(details.get("metric") or "").strip().lower()`
  unfoldable pub metric_of : Fields → String
  metric_of fs = env.lower (Text.strip (text_or env "metric" "" fs))

  -- What a schema with components says; `none` where it says nothing and the details decide.
  unfoldable pub components_contract : Value → Option Contract
  unfolding metric_of
  components_contract components = elim (as_list components) [
    | none ↦ none
    | some [] ↦ none
    | some (c ∷ []) ↦ elim (as_dict c) [
      | none ↦ none
      | some comp ↦ some (metric_of comp, get_or "full_dimension" (get "dimension" comp) comp)
    ]
    | some (c ∷ d ∷ rest) ↦ some ("", null)
  ]

  unfoldable pub details_contract : Fields → Contract
  unfolding metric_of
  details_contract details =
      (metric_of details, get_or "dimension" (get "dimensions" details) details)

  -- `extract_collection_contract_fields`
  unfoldable pub extract_contract : Value → Contract
  unfolding components_contract details_contract
  extract_contract v = elim (as_dict v) [
    | none ↦ ("", null)
    | some details ↦ elim (as_dict (get "schema" details)) [
      | none ↦ details_contract details
      | some schema ↦ elim (components_contract (get "components" schema)) [
        | some c ↦ c
        | none ↦ details_contract details
      ]
    ]
  ]

  -- The floats of the values, `none` at the first that fails the test or is not finite; `float`
  -- raises for an int that is too large.
  unfoldable pub finite_floats : (Value → Bool) → List Value → Result (Option (List Float))
  finite_floats test [] = ok (some [])
  finite_floats test (v ∷ vs) =
      let rest = finite_floats test vs in
      if test v
      then elim (env.to_float v) [
        | none ↦ err float_overflow
        | some x ↦
            if is_finite x
            then elim rest [ err e ↦ err e | ok none ↦ ok none | ok (some xs) ↦ ok (some (x ∷ xs)) ]
            else ok none
      ]
      else ok none

  -- The test of the hyperboloid constraint, on the time component and the others.
  unfoldable pub is_lorentz : Float → List Float → Bool
  is_lorentz t xs =
      let spatial_norm_sq = env.fsum (map (λ x. env.times x x) xs) in
      let time_sq = env.times t t in
      let residual = env.magnitude (env.minus (env.minus time_sq spatial_norm_sq) one) in
      let scale = larger (larger one (env.magnitude time_sq)) (env.magnitude spatial_norm_sq) in
      leb_Float residual (env.times hundredth scale)

  unfoldable pub infer_from : List Float → Contract
  unfolding is_lorentz
  infer_from [] = ("", null)
  infer_from (t ∷ xs) =
      let dimension = int (suc (length xs)) in
      if not (eqb (length xs) 128) || leb_Float t (finite (pos 0))
      then ("", dimension)
      else if is_lorentz t xs
      then ("lorentz", dimension)
      else ("", dimension)

  -- `infer_contract_from_vector`
  unfoldable pub infer_contract : Value → Result Contract
  unfolding finite_floats infer_from as_sequence
  infer_contract v = elim (as_sequence v) [
    | none ↦ ok ("", null)
    | some vs ↦ elim (finite_floats is_number vs) [
      | err e ↦ err e
      | ok none ↦ ok ("", null)
      | ok (some xs) ↦ ok (infer_from xs)
    ]
  ]

  -- `rows[0]`, where the reply is a list that begins with a dictionary
  unfoldable pub first_row : Value → Option Fields
  first_row v = elim (as_list v) [ none ↦ none | some [] ↦ none | some (r ∷ _) ↦ as_dict r ]

  -- The second half of `_contract_from_stored_points`: the point is read by its id.
  unfoldable pub contract_from_point : Value → Contract → Exec Provider Contract
  unfolding first_row infer_contract
  contract_from_point (int i) (metric, dimension) = do
    collection ← gets (λ p. p.collection)
    fetched ← catch (call env (get_points (i ∷ []) collection)) (λ _. pure null)
    elim (first_row fetched) [
      | none ↦ pure (metric, dimension)
      | some row ↦ do
        inferred ← lift (infer_contract (get "vector" row))
        pure (if Text.is_empty metric then inferred.0 else metric, if_missing dimension inferred.1)
    ]
  contract_from_point _ c = pure c

  -- `_contract_from_stored_points`
  unfoldable pub contract_from_stored_points : Exec Provider Contract
  unfolding contract_from_point
  contract_from_stored_points = do
    collection ← gets (λ p. p.collection)
    rows ← catch (call env (scroll 1 0 collection)) (λ _. pure null)
    elim (first_row rows) [
      | none ↦ pure ("", null)
      | some row ↦ do
        inferred ← lift (infer_contract (get "vector" row))
        if not (Text.is_empty inferred.0) && not (is_missing inferred.1)
            then pure inferred
            else contract_from_point (get "id" row) inferred
    ]

  -- The first entry of `list_collections` that has the collection's name.
  unfoldable pub named_collection : String → List Value → Option Value
  named_collection name [] = none
  named_collection name (v ∷ vs) =
      let rest = named_collection name vs in
      elim (as_dict v) [
        | none ↦ rest
        | some fs ↦ if text_or env "name" "" fs == name then some v else rest
      ]

  -- What is known is kept, and what is not is taken from the second contract.
  abbrev pub merge_contract : Contract → Contract → Contract
  merge_contract (m, d) (m', d') = (if Text.is_empty m then m' else m, if_missing d d')

  abbrev pub is_partial : Contract → Bool
  is_partial (m, d) = Text.is_empty m || is_missing d

  unfoldable pub contract_from_listing : Contract → Exec Provider Contract
  unfolding named_collection extract_contract
  contract_from_listing c = do
    collections ← catch (call env list_collections) (λ _. pure null)
    name ← gets (λ p. p.collection)
    elim (as_list collections) [
      | none ↦ pure c
      | some vs ↦ elim (named_collection name vs) [
        | none ↦ pure c
        | some v ↦ pure (merge_contract c (extract_contract v))
      ]
    ]

  unfoldable pub observed_contract : Value → Exec Provider Contract
  unfolding extract_contract contract_from_listing contract_from_stored_points
  observed_contract stats =
      let c₀ = extract_contract stats in
      do
        c₁ ← if is_partial c₀ then contract_from_listing c₀ else pure c₀
        if is_partial c₁
            then (do c₂ ← contract_from_stored_points; pure (merge_contract c₁ c₂))
            else pure c₁

  -- `int(observed_dimension)`, or `None`; an infinite float is an `OverflowError`.
  abbrev pub dimension_of : Value → Result (Option ℤ)
  dimension_of (float inf) = err int_overflow
  dimension_of (float neg_inf) = err int_overflow
  dimension_of v = ok (if is_missing v then none else env.to_int v)

  -- What is refused is also noted in the health.
  unfoldable pub refuse : String → Provider → Provider
  refuse health p = record p { health = health; contract_verified = false }

  unfoldable pub check_dimension : Option ℤ → ℕ → Exec Provider (Unit {0})
  unfolding refuse
  check_dimension none expected = do
    modify (refuse "DEGRADED")
    raise (fail malformed_result "Collection dimension could not be verified")
  check_dimension (some (pos n)) expected = if eqb n expected then pure tt else do
    modify (refuse "CONFIGURATION_ERROR")
    raise (fail configuration_error "Configured dimension does not match the collection dimension")
  check_dimension (some (negsuc n)) expected = do
    modify (refuse "CONFIGURATION_ERROR")
    raise (fail configuration_error "Configured dimension does not match the collection dimension")

  unfoldable pub accept_contract : Contract → Exec Provider (Unit {0})
  unfolding refuse check_dimension
  accept_contract (metric, dimension) = do
    configured ← gets (λ p. p.metric)
    expected ← gets (λ p. p.expected_dimension)
    if Text.is_empty metric
        then (do
          modify (refuse "DEGRADED")
          raise (fail malformed_result "Collection metric could not be verified"))
        else if not (metric == configured)
        then (do
          modify (refuse "CONFIGURATION_ERROR")
          raise (fail configuration_error "Configured metric does not match the collection metric"))
        else do
          observed ← lift (dimension_of dimension)
          modify (λ p. record p { observed_dimension = observed })
          when (not (eqb expected 0)) (check_dimension observed expected)
          modify (λ p. record p { contract_verified = true })

  -- `_verify_collection_contract`
  unfoldable pub verify_collection_contract : Value → Exec Provider (Unit {0})
  unfolding observed_contract accept_contract
  verify_collection_contract stats = do c ← observed_contract stats; accept_contract c

  -- `_require_collection_contract`
  unfoldable pub require_collection_contract : Exec Provider (Unit {0})
  unfolding verify_collection_contract
  require_collection_contract = do
    verified ← gets (λ p. p.contract_verified)
    collection ← gets (λ p. p.collection)
    when (not verified)
        (do stats ← call env (get_collection_stats collection); verify_collection_contract stats)
