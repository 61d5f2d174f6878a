-- ===== src/Ledger/Ids.antt =====
-- The counter of point ids: `next_external_id` and `observe_external_id` in any order.
use hermes_hyperspacedb_prov.Prelude.{ℕ, suc, ◌+◌, ◌≤◌, ◌≡◌, refl, List, [], ◌∷◌, arith}
use hermes_hyperspacedb_prov.Ledger.{Ledger, current_id, next_external_id, observe_external_id}

-- What moves the counter: an allocation, or the sight of an id.
pub data IdStep : Type 0 where
  allocate : IdStep
  observe : ℕ → IdStep

-- The ids that a series of steps hands out.
unfoldable pub handed_out : List IdStep → Ledger → List ℕ
handed_out [] l = []
handed_out (allocate ∷ steps) l = let (l', i) = next_external_id l in i ∷ handed_out steps l'
handed_out (observe i ∷ steps) l = handed_out steps (observe_external_id i l)

-- Each id is larger than the one before, and the first is at least the bound.
abbrev pub IsAscending : ℕ → List ℕ → Type 0
IsAscending low [] = Unit
IsAscending low (i ∷ ids) = (low ≤ i) × IsAscending (suc i) ids

current-observe : (i : ℕ) (l : Ledger) → current_id l ≤ current_id (observe_external_id i l)
unfolding current_id observe_external_id
current-observe i l = ground arith

IsAscending-weaken :
    (low low' : ℕ) (ids : List ℕ) → low ≤ low' → IsAscending low' ids → IsAscending low ids
IsAscending-weaken low low' [] h a = tt
IsAscending-weaken low low' (i ∷ ids) h a = (omega arith, a.1)

-- An allocation hands out the counter and leaves it one higher.
pub next_external_id_lem :
    (l : Ledger)
    → ((next_external_id l).1 ≡ current_id l)
      × (current_id (next_external_id l).0 ≡ current_id l + 1)
unfolding next_external_id current_id
next_external_id_lem l = (refl, refl)

-- Whatever allocations and observations follow one another, the ids that are handed out ascend
-- strictly from the counter: none is handed out twice.
pub handed_out-IsAscending :
    (steps : List IdStep) (l : Ledger) → IsAscending (current_id l) (handed_out steps l)
unfolding handed_out
handed_out-IsAscending [] l = tt
handed_out-IsAscending (allocate ∷ steps) l = ground (
  arith,
  next_external_id_lem l,
  handed_out-IsAscending steps (next_external_id l).0,
  IsAscending-weaken (suc (current_id l)) (current_id (next_external_id l).0)
      (handed_out steps (next_external_id l).0),
)
handed_out-IsAscending (observe i ∷ steps) l =
    IsAscending-weaken _ _ _ (current-observe i l)
      (handed_out-IsAscending steps (observe_external_id i l))

-- After a probe of id c was found occupied and c + stride was observed, the next id is
-- c + stride + 1: one more than the stride.
pub next-observe :
    (stride : ℕ) (l : Ledger)
    → let (l', c) = next_external_id l in
      (next_external_id (observe_external_id (c + stride) l')).1 ≡ c + stride + 1
unfolding next_external_id observe_external_id
next-observe stride l = ground arith
