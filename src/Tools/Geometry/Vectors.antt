-- ===== src/Tools/Geometry/Vectors.antt =====
-- _provider.py and _geometry.py: the vectors of the points that a diagnostic is about.
use hermes_hyperspacedb_prov.Prelude.{
  ℕ, ◌*◌, ◌^◌, String, Bool, true, not, ◌||◌, Option, none, some, List, [], ◌∷◌, eqb, map,
  if◌then◌else◌,
}
use hermes_hyperspacedb_prov.Prelude.Lists.{length}
use hermes_hyperspacedb_prov.Text
use hermes_hyperspacedb_prov.Value.{Value, null, bool, get, as_dict, as_list}
use hermes_hyperspacedb_prov.Value.Numbers.{Float, finite, pos, leb_Float, gtb_Float, is_finite}
use hermes_hyperspacedb_prov.Content.{extract_content}
use hermes_hyperspacedb_prov.Errors.{Exn, Result, ok, err, fail, malformed_result, invalid_argument}
use hermes_hyperspacedb_prov.World.{Env, vectorize}
use hermes_hyperspacedb_prov.Exec.{Exec, pure, raise, gets, ◌>>=◌, ◌>>◌, lift, catch, raise_if}
use hermes_hyperspacedb_prov.Provider.{Provider, call}
use hermes_hyperspacedb_prov.Provider.Contract.{
  finite_floats, one, hundredth, larger, is_number, as_sequence,
}
use hermes_hyperspacedb_prov.Tools.Points.{point_with}

-- 1e-6 and 4.0, in units of 2^-1074
unfoldable pub millionth : Float
millionth = finite (pos (4722366482869645 * 2 ^ 1002))

unfoldable pub four : Float
four = finite (pos (2 ^ 1076))

abbrev pub is_bool_or_number : Value → Bool
is_bool_or_number (bool b) = true
is_bool_or_number v = is_number v

abbrev pub malformed : String → Exn
malformed message = fail malformed_result message

abbrev pub invalid : String → Exn
invalid message = fail invalid_argument message

module _ (env : Env) where
  abbrev pub squares : List Float → List Float
  squares xs = map (λ x. env.times x x) xs

  -- `geometry_norm`
  unfoldable pub geometry_norm : List Float → Float
  geometry_norm xs = env.sqrt (env.sum (squares xs))

  -- A vector off the hyperboloid is scaled onto it, if it is time-like.
  unfoldable pub scaled_sheet : Float → Float → List Float → Option (List Float)
  scaled_sheet minkowski scale xs =
      if leb_Float minkowski (env.times millionth scale)
      then none
      else elim (map (λ x. env.divide x (env.sqrt minkowski)) xs) [
        | [] ↦ none
        | y ∷ ys ↦ if leb_Float y (finite (pos 0)) then none else some (y ∷ ys)
      ]

  -- `_try_lorentz_sheet` on the floats
  unfoldable pub sheet_of : List Float → Option (List Float)
  unfolding scaled_sheet
  sheet_of [] = none
  sheet_of (t ∷ xs) =
      let spatial_norm_sq = env.fsum (squares xs) in
      let time_sq = env.times t t in
      let minkowski = env.minus time_sq spatial_norm_sq in
      let scale = larger (larger one (env.magnitude time_sq)) (env.magnitude spatial_norm_sq) in
      let residual = env.magnitude (env.minus minkowski one) in
      if leb_Float t (finite (pos 0))
      then none
      else if gtb_Float residual (env.times hundredth scale)
      then scaled_sheet minkowski scale (t ∷ xs)
      else some (t ∷ xs)

  -- `_try_lorentz_sheet`
  unfoldable pub try_lorentz_sheet : Value → Result (Option (List Float))
  unfolding finite_floats sheet_of
  try_lorentz_sheet v = elim (as_sequence v) [
    | none ↦ ok none
    | some vs ↦
        if not (eqb (length vs) 129) then ok none else elim (finite_floats env is_number vs) [
          | err e ↦ err e
          | ok none ↦ ok none
          | ok (some xs) ↦ ok (sheet_of xs)
        ]
  ]

  abbrev pub point_content : Option Value → String
  point_content none = ""
  point_content (some raw) = Text.strip (extract_content raw)

  -- The vector that is computed again from the text of the point.
  unfoldable pub rebuilt_vector : Option Value → Exec Provider (List Float)
  unfolding try_lorentz_sheet
  rebuilt_vector point = do
    raise_if (Text.is_empty (point_content point))
        (malformed "Geometry point is missing a Lorentz 129D vector")
    metric ← gets (λ p. p.metric)
    rebuilt ←
        catch (call env (vectorize (point_content point) metric))
          (λ e. raise (malformed "Geometry point could not be re-vectorized"))
    sheet ← lift (try_lorentz_sheet rebuilt)
    elim sheet [ none ↦ raise (malformed "Geometry point is not Lorentz-like") | some xs ↦ pure xs ]

  abbrev pub stored_vector : Option Value → Value
  stored_vector none = null
  stored_vector (some raw) = elim (as_dict raw) [ none ↦ null | some fs ↦ get "vector" fs ]

  -- `_lorentz_vector_for_geometry`
  unfoldable pub lorentz_vector_for_geometry : Option Value → Exec Provider (List Float)
  unfolding rebuilt_vector
  lorentz_vector_for_geometry point = do
    stored ← lift (try_lorentz_sheet (stored_vector point))
    elim stored [ some xs ↦ pure xs | none ↦ rebuilt_vector point ]

  -- The tests of `_geometry_points` on what `lorentz_to_poincare` gives.
  unfoldable pub check_poincare : Option Value → Result (List Float)
  unfolding finite_floats
  check_poincare none = err (malformed "Lorentz-to-Poincare conversion failed")
  check_poincare (some v) = elim (as_list v) [
    | none ↦ err (malformed "Lorentz-to-Poincare conversion returned an invalid dimension")
    | some vs ↦
        if not (eqb (length vs) 128)
        then err (malformed "Lorentz-to-Poincare conversion returned an invalid dimension")
        else elim (finite_floats env is_bool_or_number vs) [
          | err e ↦ err e
          | ok none ↦ err (malformed "Lorentz-to-Poincare conversion returned non-finite values")
          | ok (some xs) ↦
              let radius_sq = env.sum (squares xs) in
              if not (is_finite radius_sq) || leb_Float one radius_sq
              then err (malformed "Lorentz-to-Poincare conversion left the unit ball")
              else ok xs
        ]
  ]

  -- The loop of `_geometry_points`.
  unfoldable pub poincare_vectors : List ℕ → List Value → Exec Provider (List (List Float))
  unfolding lorentz_vector_for_geometry check_poincare
  poincare_vectors [] fetched = pure []
  poincare_vectors (i ∷ ids) fetched = do
    lorentz ← lorentz_vector_for_geometry (point_with i fetched)
    poincare ← lift (check_poincare (env.lorentz_to_poincare lorentz))
    rest ← poincare_vectors ids fetched
    pure (poincare ∷ rest)
