-- ===== src/Tools/Bounds.antt =====
-- _utils.py: the size of what a tool returns.
use hermes_hyperspacedb_prov.Prelude.{
  ℕ, ◌≤◌, max, String, ◌≡◌, refl, List, [], ◌∷◌, ◌⊎◌, inl, inr, leb, arith, Bool-cases,
}
use hermes_hyperspacedb_prov.Text
use hermes_hyperspacedb_prov.Value.{Fields, dict}
use hermes_hyperspacedb_prov.World.{Env}
use hermes_hyperspacedb_prov.Tools.{first_fitting, renderings, bounded_tool_json}

-- The text is the whole JSON text of some object.
abbrev pub IsWhole : Env → String → Type 0
IsWhole env s = (s ≡ "{}") ⊎ ((fs : Fields) × (s ≡ env.json (dict fs)))

abbrev AllWhole : Env → List String → Type 0
AllWhole env [] = Unit
AllWhole env (s ∷ l) = ((fs : Fields) × (s ≡ env.json (dict fs))) × AllWhole env l

first_fitting-le : (n : ℕ) (l : List String) → 2 ≤ n → Text.length (first_fitting n l) ≤ n
unfolding first_fitting Text.length
first_fitting-le n [] h = h
first_fitting-le n (s ∷ l) h = ground (arith, first_fitting-le n l h)

first_fitting-IsWhole :
    (env : Env) (n : ℕ) (l : List String) → AllWhole env l → IsWhole env (first_fitting n l)
unfolding first_fitting
first_fitting-IsWhole env n [] h = inl refl
first_fitting-IsWhole env n (s ∷ l) (w, h) = elim (Bool-cases (leb (Text.length s) n)) [
  | inl t ↦ rw t (inr w)
  | inr t ↦ rw t (first_fitting-IsWhole env n l h)
]

-- Whatever the payload and the limit, the text that `_bounded_tool_json` makes is at most as long as
-- the limit, or as two characters, and it is the whole JSON text of an object; where the payload's own text is
-- not longer than the limit, it is that one.
pub bounded_tool_json-fits :
    (env : Env) (payload : Fields) (limit : ℕ)
    → (Text.length (bounded_tool_json env payload limit) ≤ max 2 limit)
      × IsWhole env (bounded_tool_json env payload limit)
      × (Text.length (env.json (dict payload)) ≤ limit
          → bounded_tool_json env payload limit ≡ env.json (dict payload))
unfolding bounded_tool_json renderings first_fitting
bounded_tool_json-fits env payload limit = (
  first_fitting-le (max 2 limit) (renderings env payload) (omega arith),
  first_fitting-IsWhole env (max 2 limit) (renderings env payload)
      ((_, refl), ((_, refl), ((_, refl), ((_, refl), tt)))),
  λ h. ground arith,
)
