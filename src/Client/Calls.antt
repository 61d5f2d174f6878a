-- ===== src/Client/Calls.antt =====
-- The client pool beside the calls that are really running: the counts of `_client_inflight` against
-- an independent account of which call holds which client.
use hermes_hyperspacedb_prov.Prelude.{
  ℕ, suc, ◌+◌, ◌-◌, ◌<◌, String, ◌≡◌, refl, sym, ap, ◌∙◌, true, Option, none, List, [], ◌∷◌, eqb,
  arith, inl, inr, Bool-cases, Option-cases, if◌then◌else◌,
}
use hermes_hyperspacedb_prov.Errors.{Exn, ok, err}
use hermes_hyperspacedb_prov.Client.{
  Pool, count, is_member, is_current, retire, refresh, enter, ensure, get_client, release, discard,
}
use hermes_hyperspacedb_prov.Client.Safety.{
  IsSafe, gets_client, discards, releases, here, initial, Step-IsSafe, Reach-IsSafe, count-put,
  count-pop,
}

-- How many of the running calls hold the client.
unfoldable pub holders : ℕ → List ℕ → ℕ
holders c [] = 0
holders c (d ∷ l) = let rest = holders c l in if eqb d c then suc rest else rest

-- One call that holds the client ends.
unfoldable pub end_call : ℕ → List ℕ → List ℕ
end_call c [] = []
end_call c (d ∷ l) = if eqb d c then l else d ∷ end_call c l

pub record System : Type 0 where
  pub pool : Pool
  pub calls : List ℕ

-- A call starts with the client that it gets, or without one if that raises; only a running call
-- drops or releases its client, and a release ends it.
pub data Move : System → System → Type 0 where
  starts :
      (s : System) (fingerprint : String) (failure : Option Exn) (c : ℕ) (p : Pool)
      → get_client fingerprint failure s.pool ≡ (ok c, p)
      → Move s (record { pool = p; calls = c ∷ s.calls })
  fails :
      (s : System) (fingerprint : String) (failure : Option Exn) (e : Exn) (p : Pool)
      → get_client fingerprint failure s.pool ≡ (err e, p)
      → Move s (record { pool = p; calls = s.calls })
  drops :
      (s : System) (c : ℕ)
      → 0 < holders c s.calls
      → Move s (record { pool = discard c s.pool; calls = s.calls })
  ends :
      (s : System) (c : ℕ)
      → 0 < holders c s.calls
      → Move s (record { pool = release c s.pool; calls = end_call c s.calls })

pub data Run : System → Type 0 where
  begin : Run (record { pool = initial; calls = [] })
  then_move : {s t : System} → Run s → Move s t → Run t

retire-inflight : (c : ℕ) (p : Pool) → (retire c p).inflight ≡ p.inflight
unfolding retire
retire-inflight c p = ground arith

refresh-inflight : (f : String) (p : Pool) → (refresh f p).inflight ≡ p.inflight
unfolding refresh
refresh-inflight f p = elim (Option-cases p.current) [
  | inl e ↦ ground arith
  | inr (c, e) ↦ ground (arith, retire-inflight c (record p { current = none; fingerprint = "" }))
]

discard-inflight : (c : ℕ) (p : Pool) → (discard c p).inflight ≡ p.inflight
unfolding discard
discard-inflight c p = elim (Bool-cases (is_current c p.current)) [
  | inl e ↦ rw (e, discard) (retire-inflight c (record p { current = none; fingerprint = "" }))
  | inr e ↦ rw (e, discard) (retire-inflight c p)
]

holders-end_call :
    (c d : ℕ) (l : List ℕ)
    → 0 < holders c l
    → holders d (end_call c l) ≡ (if eqb c d then holders d l - 1 else holders d l)
unfolding holders end_call
holders-end_call c d [] h = ground arith
holders-end_call c d (e ∷ l) h = ground (arith, holders-end_call c d l)

count-release :
    (c d : ℕ) (p : Pool)
    → 0 < count c p.inflight
    → count d (release c p).inflight
      ≡ (if eqb c d then count d p.inflight - 1 else count d p.inflight)
unfolding release
count-release c d p h =
    ground (arith, count-put d c (count c p.inflight - 1) p.inflight, count-pop d c p.inflight)

count-enter :
    (c d : ℕ) (p : Pool)
    → count d (enter c p).inflight
      ≡ (if eqb c d then suc (count d p.inflight) else count d p.inflight)
unfolding enter
count-enter c d p = ground (arith, count-put d c (count c p.inflight + 1) p.inflight)

ensure-count :
    (f : String) (failure : Option Exn) (p p' : Pool) (c d : ℕ)
    → ensure f failure p ≡ (ok c, p')
    → count d p'.inflight ≡ (if eqb c d then suc (count d p.inflight) else count d p.inflight)
unfolding ensure enter
ensure-count f failure p p' c d h = elim (Option-cases p.current) [
  | inl e ↦ ground (arith, count-put d p.built (count p.built p.inflight + 1) p.inflight)
  | inr (q, e) ↦ ground (arith, count-put d q (count q p.inflight + 1) p.inflight)
]

ensure-inflight :
    (f : String) (failure : Option Exn) (p p' : Pool) (e : Exn)
    → ensure f failure p ≡ (err e, p')
    → p'.inflight ≡ p.inflight
unfolding ensure
ensure-inflight f failure p p' x h = elim (Option-cases p.current) [
  | inl e ↦ ground arith
  | inr (q, e) ↦ ground arith
]

-- The pool's account is right about the client.
abbrev IsCounted : System → ℕ → Type 0
IsCounted s c = count c s.pool.inflight ≡ holders c s.calls

Move-IsCounted : {s t : System} (c : ℕ) → Move s t → ((d : ℕ) → IsCounted s d) → IsCounted t c
unfolding get_client
Move-IsCounted c (starts s f failure d p g) k =
    unfold holders in
    ground
      (arith, ensure-count f failure (refresh f s.pool) p d c g, refresh-inflight f s.pool, k c)
Move-IsCounted c (fails s f failure e p g) k =
    ground
      (arith, ensure-inflight f failure (refresh f s.pool) p e g, refresh-inflight f s.pool, k c)
Move-IsCounted c (drops s d h) k = ground (arith, discard-inflight d s.pool, k c)
Move-IsCounted c (ends s d h) k =
    ground (arith, count-release d c s.pool, holders-end_call d c s.calls, k c, k d)

Move-IsSafe : {s t : System} → Move s t → ((d : ℕ) → IsCounted s d) → IsSafe s.pool → IsSafe t.pool
Move-IsSafe (starts s f failure d p g) k h =
    rw (ap (λ x. x.1) g) at (Step-IsSafe (gets_client s.pool f failure) h)
Move-IsSafe (fails s f failure e p g) k h =
    rw (ap (λ x. x.1) g) at (Step-IsSafe (gets_client s.pool f failure) h)
Move-IsSafe (drops s d b) k h = Step-IsSafe (discards s.pool d (rw (k d) b)) h
Move-IsSafe (ends s d b) k h = Step-IsSafe (releases s.pool d (rw (k d) b)) h

Run-IsCounted : {s : System} → Run s → (c : ℕ) → IsCounted s c
unfolding count holders
Run-IsCounted begin c = refl
Run-IsCounted (then_move r m) c = Move-IsCounted c m (Run-IsCounted r)

Run-IsSafe : {s : System} → Run s → IsSafe s.pool
Run-IsSafe begin = Reach-IsSafe here
Run-IsSafe (then_move r m) = Move-IsSafe m (Run-IsCounted r) (Run-IsSafe r)

-- Whatever calls do, in any interleaving, no running call holds a client that is closed.
pub Run-closed :
    {s : System} (c : ℕ) → Run s → is_member c s.pool.closed ≡ true → holders c s.calls ≡ 0
Run-closed c r closed = sym (Run-IsCounted r c) ∙ (Run-IsSafe r c).closed_idle closed
