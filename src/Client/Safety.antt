-- ===== src/Client/Safety.antt =====
-- The pool as a step relation, and what holds of each client in every reachable pool.
use hermes_hyperspacedb_prov.Prelude.{
  ℕ, ◌+◌, ◌-◌, ◌≤◌, ◌<◌, String, ◌≡◌, refl, true, false, Option, none, List, [], ◌∷◌, arith, eqb,
  Option-cases, inl, inr, if◌then◌else◌,
}
use hermes_hyperspacedb_prov.Errors.{Exn}
use hermes_hyperspacedb_prov.Client.{
  Pool, count, put_count, pop_count, is_member, without, is_current, retire, refresh, enter, ensure,
  get_client, release, discard,
}

pub count-put :
    (c d n : ℕ) (l : List (ℕ × ℕ)) → count c (put_count d n l) ≡ (if eqb d c then n else count c l)
unfolding count put_count
count-put c d n [] = ground arith
count-put c d n ((e, k) ∷ l) = ground (arith, count-put c d n l)

pub count-pop :
    (c d : ℕ) (l : List (ℕ × ℕ)) → count c (pop_count d l) ≡ (if eqb d c then 0 else count c l)
unfolding count pop_count
count-pop c d [] = ground arith
count-pop c d ((e, k) ∷ l) = ground (arith, count-pop c d l)

member-without :
    (c d : ℕ) (l : List ℕ) → is_member c (without d l) ≡ (if eqb d c then false else is_member c l)
unfolding is_member without
member-without c d [] = ground arith
member-without c d (e ∷ l) = ground (arith, member-without c d l)

member-cons :
    (c d : ℕ) (l : List ℕ) → is_member c (d ∷ l) ≡ (if eqb d c then true else is_member c l)
unfolding is_member
member-cons c d l = refl

-- What the pool has right about the client c.
pub record SafeAt (p : Pool) (c : ℕ) : Type 0 where
  -- a closed client has no call in flight, and is not the one that is handed out
  pub closed_idle : is_member c p.closed ≡ true → count c p.inflight ≡ 0
  pub closed_old : is_member c p.closed ≡ true → is_current c p.current ≡ false
  -- a retired client has a call in flight, and is not the one that is handed out
  pub retired_busy : is_member c p.retired ≡ true → 0 < count c p.inflight
  pub retired_old : is_member c p.retired ≡ true → is_current c p.current ≡ false
  -- every client is current, retired or closed
  pub accounted :
      c < p.built
      → is_current c p.current ≡ false
      → is_member c p.retired ≡ false
      → is_member c p.closed ≡ true
  -- a client that is not built yet is not mentioned
  pub unbuilt :
      p.built ≤ c
      → (count c p.inflight ≡ 0)
        × (is_member c p.closed ≡ false)
        × (is_member c p.retired ≡ false)
        × (is_current c p.current ≡ false)

abbrev pub IsSafe : Pool → Type 0
IsSafe p = (c : ℕ) → SafeAt p c

-- A client that is neither closed nor current may be retired.
retire-SafeAt :
    (p : Pool) (d c : ℕ)
    → d < p.built
    → is_current d p.current ≡ false
    → (eqb d c ≡ false → SafeAt p c)
    → (eqb d c ≡ true → is_member c p.closed ≡ false)
    → (eqb d c ≡ true → is_member c p.retired ≡ true → 0 < count c p.inflight)
    → SafeAt (retire d p) c
unfolding retire
retire-SafeAt p d c b o h k r = ground (arith, member-cons c d p.retired, member-cons c d p.closed)

-- The pool without a current client.
abbrev vacate : Pool → Pool
vacate p = record p { current = none; fingerprint = "" }

refresh-IsSafe : (fingerprint : String) (p : Pool) → IsSafe p → IsSafe (refresh fingerprint p)
unfolding refresh
refresh-IsSafe fingerprint p h c = elim (Option-cases p.current) [
  | inl e ↦ ground (arith, h c)
  | inr (old, e) ↦ ground (arith, h c, h old, retire-SafeAt (vacate p) old c)
]

ensure-IsSafe :
    (fingerprint : String) (failure : Option Exn) (p : Pool)
    → IsSafe p
    → IsSafe (ensure fingerprint failure p).1
unfolding ensure enter
ensure-IsSafe fingerprint failure p h c = elim (Option-cases p.current) [
  | inl e ↦
      ground (arith, h c, h p.built, count-put c p.built (count p.built p.inflight + 1) p.inflight)
  | inr (d, e) ↦ ground (arith, h c, h d, count-put c d (count d p.inflight + 1) p.inflight)
]

discard-IsSafe : (d : ℕ) (p : Pool) → 0 < count d p.inflight → IsSafe p → IsSafe (discard d p)
unfolding discard
discard-IsSafe d p busy h c =
    ground (arith, h c, h d, retire-SafeAt p d c, retire-SafeAt (vacate p) d c)

release-IsSafe : (d : ℕ) (p : Pool) → 0 < count d p.inflight → IsSafe p → IsSafe (release d p)
unfolding release
release-IsSafe d p busy h c = ground (
  arith,
  h c,
  h d,
  count-pop c d p.inflight,
  count-put c d (count d p.inflight - 1) p.inflight,
  member-without c d p.retired,
  member-cons c d p.closed,
)

-- The atomic steps of any number of threads, in the order in which they take the client lock: a
-- call gets its client, drops it after a failure, or releases it. Only a call in flight can do the
-- last two.
pub data Step : Pool → Pool → Type 0 where
  gets_client :
      (p : Pool) (fingerprint : String) (failure : Option Exn)
      → Step p (get_client fingerprint failure p).1
  discards : (p : Pool) (c : ℕ) → 0 < count c p.inflight → Step p (discard c p)
  releases : (p : Pool) (c : ℕ) → 0 < count c p.inflight → Step p (release c p)

pub data Reach (p : Pool) : Pool → Type 0 where
  here : Reach p p
  next : {q r : Pool} → Reach p q → Step q r → Reach p r

abbrev pub initial : Pool
initial = record {
  current = none;
  fingerprint = "";
  inflight = [];
  retired = [];
  closed = [];
  built = 0;
}

pub Step-IsSafe : {p q : Pool} → Step p q → IsSafe p → IsSafe q
unfolding get_client
Step-IsSafe (gets_client p fingerprint failure) h =
    ensure-IsSafe fingerprint failure (refresh fingerprint p) (refresh-IsSafe fingerprint p h)
Step-IsSafe (discards p c busy) h = discard-IsSafe c p busy h
Step-IsSafe (releases p c busy) h = release-IsSafe c p busy h

-- Whatever threads do, in any interleaving: a closed client has no call in flight and is never
-- handed out; a retired client still has a call in flight; every client ever built is current,
-- retired or closed.
pub Reach-IsSafe : {p : Pool} → Reach initial p → IsSafe p
unfolding count is_member
Reach-IsSafe here c = ground arith
Reach-IsSafe (next r step) c = Step-IsSafe step (Reach-IsSafe r) c

-- Once no call is in flight, every client but the current one is closed.
pub quiescent_closed :
    {p : Pool}
    → Reach initial p
    → ((c : ℕ) → count c p.inflight ≡ 0)
    → (c : ℕ) → c < p.built
    → is_current c p.current ≡ false
    → is_member c p.closed ≡ true
quiescent_closed r idle c b o = ground (arith, Reach-IsSafe r c, idle c)
