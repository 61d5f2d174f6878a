-- ===== src/Capability/Bounds.antt =====
-- The keys and the size of the store under `mint`.
use Prim.Native.String.{◌++◌ as ◌<>◌}
use text.Mathlib.TextLemmas.{cons-append}
use hermes_hyperspacedb_prov.Prelude.{
  ℕ, zero, suc, ◌+◌, ◌≤◌, String, ◌≡◌, refl, true, false, none, some, [], ◌∷◌, arith, ◌==◌, eq_iff,
  eq_refl, Option-cases, inl, inr, if◌then◌else◌, is_some,
}
use hermes_hyperspacedb_prov.Prelude.Lists.{length}
use hermes_hyperspacedb_prov.Text
use hermes_hyperspacedb_prov.Value.{Value}
use hermes_hyperspacedb_prov.Capability.{
  Capability, Store, max_entries, find, pop, put, drop_expired, soonest, evict_oldest, evict,
  new_capability, issue, mint, point_slot,
}

-- Every handle stands once in the store, and none is the empty text.
abbrev pub IsValid : Store → Type 0
IsValid [] = Unit
IsValid ((k, c) ∷ s) = (find k s ≡ none) × (Text.is_empty k ≡ false) × IsValid s

pub find-put :
    (h k : String) (c : Capability) (s : Store)
    → find h (put k c s) ≡ (if k == h then some c else find h s)
unfolding find put
find-put h k c [] = refl
find-put h k c ((j, d) ∷ s) = ground (arith, eq_iff j k, eq_iff k h, eq_iff j h, find-put h k c s)

find-pop-none : (h k : String) (s : Store) → find h s ≡ none → find h (pop k s) ≡ none
unfolding find pop
find-pop-none h k [] e = refl
find-pop-none h k ((j, d) ∷ s) e = ground (arith, find-pop-none h k s)

pub find-pop_self : (h : String) (s : Store) → IsValid s → find h (pop h s) ≡ none
unfolding find pop
find-pop_self h [] v = refl
find-pop_self h ((j, d) ∷ s) v = ground (arith, eq_iff j h, find-pop_self h s v.2)

find-drop_none :
    (h : String) (now : ℕ) (s : Store) → find h s ≡ none → find h (drop_expired now s) ≡ none
unfolding find drop_expired
find-drop_none h now [] e = refl
find-drop_none h now ((j, d) ∷ s) e = ground (arith, find-drop_none h now s)

pop-IsValid : (h : String) (s : Store) → IsValid s → IsValid (pop h s)
unfolding pop
pop-IsValid h [] v = tt
pop-IsValid h ((k, c) ∷ s) v = ground (arith, find-pop-none k h s, pop-IsValid h s v.2)

pub drop-IsValid : (now : ℕ) (s : Store) → IsValid s → IsValid (drop_expired now s)
unfolding drop_expired
drop-IsValid now [] v = tt
drop-IsValid now ((k, c) ∷ s) v = ground (arith, find-drop_none k now s, drop-IsValid now s v.2)

put-IsValid :
    (h : String) (c : Capability) (s : Store)
    → Text.is_empty h ≡ false
    → IsValid s
    → IsValid (put h c s)
unfolding put
put-IsValid h c [] e v = unfold find in (refl, e, tt)
put-IsValid h c ((k, d) ∷ s) e v =
    ground (arith, eq_iff k h, eq_iff h k, find-put k h c s, put-IsValid h c s e v.2)

evict_oldest-IsValid : (s : Store) → IsValid s → IsValid (evict_oldest s)
unfolding evict_oldest
evict_oldest-IsValid [] v = tt
evict_oldest-IsValid (e ∷ s) v = pop-IsValid (soonest e s).0 (e ∷ s) v

evict-IsValid : (fuel : ℕ) (s : Store) → IsValid s → IsValid (evict fuel s)
unfolding evict
evict-IsValid zero s v = v
evict-IsValid (suc fuel) s v =
    ground (arith, evict_oldest-IsValid s v, evict-IsValid fuel (evict_oldest s))

handle-nonempty : (token : String) → Text.is_empty ("hsdbh_" <> token) ≡ false
unfolding Text.is_empty
handle-nonempty token = rw (cons-append "h" "sdbh_" token)

issue-IsValid :
    (point : ℕ) (collection scope session : String) (now : ℕ) (token : String) (s : Store)
    → IsValid s
    → IsValid (issue point collection scope session now token s).1
unfolding issue
issue-IsValid point collection scope session now token s v = ground (
  arith,
  drop-IsValid now s v,
  evict-IsValid (length (drop_expired now s)) (drop_expired now s),
  put-IsValid ("hsdbh_" <> token) (new_capability point collection scope session now)
      (evict (length (drop_expired now s)) (drop_expired now s)) (handle-nonempty token),
)

-- Minting keeps the handles distinct and non-empty.
pub mint-IsValid :
    (v : Value) (collection scope session : String) (now : ℕ) (token : String) (s : Store)
    → IsValid s
    → IsValid (mint v collection scope session now token s).1
unfolding mint
mint-IsValid v collection scope session now token s valid = elim (Option-cases (point_slot v)) [
  | inl e ↦ rw (e, mint) valid
  | inr (point, e) ↦
      rw (e, mint)
        (ground
          (arith, issue-IsValid point (Text.strip collection) scope session now token s valid))
]

length-drop-le : (now : ℕ) (s : Store) → length (drop_expired now s) ≤ length s
unfolding drop_expired
length-drop-le now [] = omega arith
length-drop-le now ((k, c) ∷ s) = ground (arith, length-drop-le now s)

length-pop : (h : String) (s : Store) → is_some (find h s) ≡ true → length (pop h s) + 1 ≡ length s
unfolding find pop
length-pop h [] e = cc
length-pop h ((k, c) ∷ s) e = ground (arith, length-pop h s)

length-pop-le : (h : String) (s : Store) → length (pop h s) ≤ length s
unfolding pop
length-pop-le h [] = omega arith
length-pop-le h ((k, c) ∷ s) = ground (arith, length-pop-le h s)

find-soonest : (e : String × Capability) (s : Store) → is_some (find (soonest e s).0 (e ∷ s)) ≡ true
unfolding find soonest
find-soonest e [] = ground (arith, eq_refl e.0)
find-soonest e (f ∷ s) = ground (arith, eq_refl e.0, find-soonest e s, find-soonest f s)

-- One round of eviction drops one entry.
length-evict_oldest :
    (e : String × Capability) (s : Store) → length (evict_oldest (e ∷ s)) ≡ length s
unfolding evict_oldest
length-evict_oldest e s = omega (arith, length-pop (soonest e s).0 (e ∷ s) (find-soonest e s))

-- With as much fuel as there are entries the loop ends by its test.
evict-lt : (fuel : ℕ) (s : Store) → length s ≤ fuel → length (evict fuel s) + 1 ≤ max_entries
unfolding evict
evict-lt zero [] h = omega arith
evict-lt zero (e ∷ s) h = absurd (omega arith)
evict-lt (suc fuel) [] h = omega arith
evict-lt (suc fuel) (e ∷ s) h =
    ground (arith, length-evict_oldest e s, evict-lt fuel (evict_oldest (e ∷ s)))

length-put-le : (h : String) (c : Capability) (s : Store) → length (put h c s) ≤ length s + 1
unfolding put
length-put-le h c [] = omega arith
length-put-le h c ((k, d) ∷ s) = ground (arith, length-put-le h c s)

issue-bounded :
    (point : ℕ) (collection scope session : String) (now : ℕ) (token : String) (s : Store)
    → length s ≤ max_entries
    → length (issue point collection scope session now token s).1 ≤ max_entries
unfolding issue
issue-bounded point collection scope session now token s h = ground (
  arith,
  length-drop-le now s,
  evict-lt (length (drop_expired now s)) (drop_expired now s),
  length-put-le ("hsdbh_" <> token) (new_capability point collection scope session now)
      (evict (length (drop_expired now s)) (drop_expired now s)),
)

-- A store within the limit stays within it, whatever is minted.
pub length-mint :
    (v : Value) (collection scope session : String) (now : ℕ) (token : String) (s : Store)
    → length s ≤ max_entries
    → length (mint v collection scope session now token s).1 ≤ max_entries
unfolding mint
length-mint v collection scope session now token s h = elim (Option-cases (point_slot v)) [
  | inl e ↦ rw (e, mint) h
  | inr (point, e) ↦
      rw (e, mint)
        (ground (arith, issue-bounded point (Text.strip collection) scope session now token s h))
]
