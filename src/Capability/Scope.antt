-- ===== src/Capability/Scope.antt =====
-- `resolve_many`: the capabilities behind the ids that it returns.
use hermes_hyperspacedb_prov.Prelude.{
  ℕ, ◌<◌, String, ◌≡◌, refl, false, some, List, [], ◌∷◌, arith, eq_iff, Bool-cases, Option-cases,
  inl, inr,
}
use hermes_hyperspacedb_prov.Prelude.{
  ◌≤◌, ap, map, ◌∙◌, Option, none, true, leb, sym, ◌&&◌, ◌==◌, if◌then◌else◌,
}
use hermes_hyperspacedb_prov.Prelude.Lists.{All, any, length}
use hermes_hyperspacedb_prov.Text
use hermes_hyperspacedb_prov.Value.{Value, str, as_list}
use hermes_hyperspacedb_prov.Capability.{
  Capability, Store, find, is_stale, Resolved, granted, bad_handles, not_issued, out_of_scope,
  prepend, check_handles, handle_texts, has_duplicates, resolve_loop, resolve_many,
}

-- The handle stands for the id in this scope, now.
abbrev pub Grants : Store → String → String → String → ℕ → String → ℕ → Type 0
Grants s collection scope session now h i =
    (c : Capability) × (find h s ≡ some c)
    × (c.point_id ≡ i)
    × (c.scope ≡ scope)
    × (c.session ≡ session)
    × (c.collection ≡ collection)
    × (now < c.expires_at)

-- No text stands in the list twice.
abbrev pub AreDistinct : List String → Type 0
AreDistinct [] = Unit
AreDistinct (h ∷ hs) = All (λ k. ¬ (k ≡ h)) hs × AreDistinct hs

-- The argument is a list of 1 to 16 distinct texts that are not empty.
abbrev pub AreHandles : Value → List String → Type 0
AreHandles v hs =
    (as_list v ≡ some (map str hs))
    × All (λ h. Text.is_empty h ≡ false) hs
    × (1 ≤ length hs)
    × (length hs ≤ 16)
    × AreDistinct hs

-- The ids stand for the handles, one by one.
abbrev pub Backed : Store → String → String → String → ℕ → List String → List ℕ → Type 0
Backed s collection scope session now [] [] = Unit
Backed s collection scope session now [] (i ∷ ids) = ⊥
Backed s collection scope session now (h ∷ hs) [] = ⊥
Backed s collection scope session now (h ∷ hs) (i ∷ ids) =
    Grants s collection scope session now h i × Backed s collection scope session now hs ids

fresh-Grants :
    (s : Store) (collection scope session : String) (now : ℕ) (h : String) (c : Capability)
    → find h s ≡ some c
    → is_stale collection scope session now c ≡ false
    → Grants s collection scope session now h c.point_id
unfolding is_stale
fresh-Grants s collection scope session now h c e f = (
  c,
  e,
  refl,
  ground (arith, eq_iff c.scope scope),
  ground (arith, eq_iff c.session session),
  ground (arith, eq_iff c.collection collection),
  ground arith,
)

-- What a resolution that grants its handles has shown; it leaves the store as it was.
abbrev Shows :
    Store → String → String → String → ℕ → List String → Resolved (List ℕ) × Store → Type 0
Shows s collection scope session now hs (granted ids, s') =
    Backed s collection scope session now hs ids × (s' ≡ s)
Shows s collection scope session now hs (bad_handles, s') = Unit
Shows s collection scope session now hs (not_issued, s') = Unit
Shows s collection scope session now hs (out_of_scope, s') = Unit

prepend-Shows :
    (s : Store) (collection scope session : String) (now : ℕ) (h : String) (hs : List String)
    → (i : ℕ) (x : Resolved (List ℕ) × Store) → Grants s collection scope session now h i
    → Shows s collection scope session now hs x
    → Shows s collection scope session now (h ∷ hs) (prepend i x)
prepend-Shows s collection scope session now h hs i (granted ids, s') g e = ((g, e.0), e.1)
prepend-Shows s collection scope session now h hs i (bad_handles, s') g e = tt
prepend-Shows s collection scope session now h hs i (not_issued, s') g e = tt
prepend-Shows s collection scope session now h hs i (out_of_scope, s') g e = tt

loop-Shows :
    (hs : List String) (collection scope session : String) (now : ℕ) (s : Store)
    → Shows s collection scope session now hs (resolve_loop hs collection scope session now s)
unfolding resolve_loop
loop-Shows [] collection scope session now s = (tt, refl)
loop-Shows (h ∷ hs) collection scope session now s = elim (Option-cases (find h s)) [
  | inl e ↦ rw (e, resolve_loop) tt
  | inr (c, e) ↦ elim (Bool-cases (is_stale collection scope session now c)) [
    | inl stale ↦ rw (e, stale, resolve_loop) tt
    | inr live ↦
        rw (e, live, resolve_loop)
          (prepend-Shows s collection scope session now h hs c.point_id
            (resolve_loop hs collection scope session now s)
            (fresh-Grants s collection scope session now h c e live)
            (loop-Shows hs collection scope session now s))
  ]
]

-- The texts that were found are the elements.
abbrev TextsOf : List Value → Option (List String) → Type 0
TextsOf vs none = Unit
TextsOf vs (some hs) = (vs ≡ map str hs) × All (λ h. Text.is_empty h ≡ false) hs

cons-TextsOf :
    (k : String) (vs : List Value) (o : Option (List String))
    → Text.is_empty k ≡ false
    → TextsOf vs o
    → TextsOf
        (str k ∷ vs)
        (elim o as (λ _. Option (List String)) [ none ↦ none | some hs ↦ some (k ∷ hs) ])
cons-TextsOf k vs none f t = tt
cons-TextsOf k vs (some hs) f (e, t) = (ap (λ ws. str k ∷ ws) e, (f, t))

handle_texts-TextsOf : (vs : List Value) → TextsOf vs (handle_texts vs)
unfolding handle_texts
handle_texts-TextsOf [] = (refl, tt)
handle_texts-TextsOf (str k ∷ vs) = elim (Bool-cases (Text.is_empty k)) [
  | inl t ↦ rw (t, handle_texts) tt
  | inr f ↦ rw (f, handle_texts) (cons-TextsOf k vs (handle_texts vs) f (handle_texts-TextsOf vs))
]
handle_texts-TextsOf (_ ∷ vs) = tt

any-All : (h : String) (hs : List String) → any (λ k. k == h) hs ≡ false → All (λ k. ¬ (k ≡ h)) hs
unfolding any
any-All h [] e = tt
any-All h (k ∷ hs) e = (λ same. ground (arith, eq_iff k h), any-All h hs (ground arith))

has_duplicates-AreDistinct : (hs : List String) → has_duplicates hs ≡ false → AreDistinct hs
unfolding has_duplicates
has_duplicates-AreDistinct [] e = tt
has_duplicates-AreDistinct (h ∷ hs) e =
    (any-All h hs (ground arith), has_duplicates-AreDistinct hs (ground arith))

length-map-str : (hs : List String) → length (map str hs) ≡ length hs
length-map-str [] = refl
length-map-str (h ∷ hs) = omega (arith, length-map-str hs)

range-le : (n : ℕ) → (leb 1 n && leb n 16) ≡ true → (1 ≤ n) × (n ≤ 16)
range-le n b = (ground arith, ground arith)

unique-AreHandles :
    (v : Value) (vs : List Value) (o : Option (List String)) (hs : List String)
    → as_list v ≡ some vs
    → (leb 1 (length vs) && leb (length vs) 16) ≡ true
    → TextsOf vs o
    → elim o as (λ _. Option (List String)) [
      | none ↦ none
      | some hs ↦ if has_duplicates hs then none else some hs
    ]
      ≡ some hs
    → AreHandles v hs
unique-AreHandles v vs none hs l b t e = absurd (cc e)
unique-AreHandles v vs (some ks) hs l b (f, t) e = elim (Bool-cases (has_duplicates ks)) [
  | inl d ↦ absurd (cc (rw d at e))
  | inr d ↦
      let same : ks ≡ hs = cc (rw d at e) in
      let count : length vs ≡ length ks = ap length f ∙ length-map-str ks in
      let (low, high) = range-le (length vs) b in
      rw (sym same) (
        l ∙ ap some f,
        t,
        omega (arith, low, count),
        omega (arith, high, count),
        has_duplicates-AreDistinct ks d,
      )
]

check_handles-AreHandles :
    (v : Value) (hs : List String) → check_handles v ≡ some hs → AreHandles v hs
unfolding check_handles
check_handles-AreHandles v hs e = elim (Option-cases (as_list v)) [
  | inl n ↦ absurd (cc (rw (n, check_handles) at e))
  | inr (vs, l) ↦ elim (Bool-cases (leb 1 (length vs) && leb (length vs) 16)) [
    | inr b ↦ absurd (cc (rw (l, b, check_handles) at e))
    | inl b ↦
        unique-AreHandles v vs (handle_texts vs) hs l b (handle_texts-TextsOf vs)
          (rw (l, b, check_handles) at e)
  ]
]

-- Where `resolve_many` returns ids, the argument was a list of 1 to 16 texts, none of them empty and
-- no two the same, the ids stand for these one by one, each id is that of a stored capability of the same profile, session and collection that has not expired, and
-- the store is unchanged.
pub resolve_many-Backed :
    (handles : Value) (collection scope session : String) (now : ℕ) (s s' : Store) (ids : List ℕ)
    → resolve_many handles collection scope session now s ≡ (granted ids, s')
    → (hs : List String) × AreHandles handles hs
      × Backed s collection scope session now hs ids
      × (s' ≡ s)
unfolding resolve_many
resolve_many-Backed handles collection scope session now s s' ids h =
    elim (Option-cases (check_handles handles)) [
      | inl e ↦ absurd (cc (rw (e, resolve_many) at h))
      | inr (hs, e) ↦
          let shown : Shows s collection scope session now hs (granted ids, s') =
            rw (rw (e, resolve_many) at h) at (loop-Shows hs collection scope session now s) in
          (hs, check_handles-AreHandles handles hs e, shown.0, shown.1)
    ]
