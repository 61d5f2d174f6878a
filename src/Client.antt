-- ===== src/Client.antt =====
-- The client of _provider.py: `_get_client`, `_retire_client_locked`, `_release_client` and the part
-- of `_call` that drops a broken client. Clients are numbered in the order in which they are built.
pub mod Safety
pub mod Calls
use hermes_hyperspacedb_prov.Prelude.{
  ℕ, suc, ◌+◌, ◌-◌, String, Bool, true, false, not, ◌&&◌, Option, none, some, List, [], ◌∷◌, ltb,
  leb, eqb, ◌==◌, if◌then◌else◌,
}
use hermes_hyperspacedb_prov.Errors.{Exn, Result, ok, err}

-- `_client`, `_client_fingerprint`, `_client_inflight`, `_retired_clients`; then the clients that
-- `_close_client` has closed, and how many were built.
pub record Pool : Type 0 where
  pub current : Option ℕ
  pub fingerprint : String
  pub inflight : List (ℕ × ℕ)
  pub retired : List ℕ
  pub closed : List ℕ
  pub built : ℕ

-- `self._client_inflight.get(c, 0)`
unfoldable pub count : ℕ → List (ℕ × ℕ) → ℕ
count c [] = 0
count c ((d, n) ∷ l) = if eqb d c then n else count c l

-- `self._client_inflight[c] = n`
unfoldable pub put_count : ℕ → ℕ → List (ℕ × ℕ) → List (ℕ × ℕ)
put_count c n [] = (c, n) ∷ []
put_count c n ((d, k) ∷ l) = if eqb d c then (c, n) ∷ l else (d, k) ∷ put_count c n l

-- `self._client_inflight.pop(c, None)`
unfoldable pub pop_count : ℕ → List (ℕ × ℕ) → List (ℕ × ℕ)
pop_count c [] = []
pop_count c ((d, k) ∷ l) = let rest = pop_count c l in if eqb d c then rest else (d, k) ∷ rest

unfoldable pub is_member : ℕ → List ℕ → Bool
is_member c [] = false
is_member c (d ∷ l) = if eqb d c then true else is_member c l

unfoldable pub without : ℕ → List ℕ → List ℕ
without c [] = []
without c (d ∷ l) = let rest = without c l in if eqb d c then rest else d ∷ rest

abbrev pub is_current : ℕ → Option ℕ → Bool
is_current c none = false
is_current c (some d) = eqb d c

-- `_retire_client_locked`
unfoldable pub retire : ℕ → Pool → Pool
retire c p =
    if ltb 0 (count c p.inflight)
    then (if is_member c p.retired then p else record p { retired = c ∷ p.retired })
    else record p { closed = c ∷ p.closed }

-- The first test of `_get_client`: other credentials retire the client.
unfoldable pub refresh : String → Pool → Pool
unfolding retire
refresh fingerprint p = elim p.current [
  | none ↦ p
  | some old ↦
      if fingerprint == p.fingerprint
      then p
      else retire old (record p { current = none; fingerprint = "" })
]

-- `self._client_inflight[c] = self._client_inflight.get(c, 0) + 1`
unfoldable pub enter : ℕ → Pool → Pool
enter c p = record p { inflight = put_count c (count c p.inflight + 1) p.inflight }

-- The second test of `_get_client`: where there is no client one is built, which may raise.
unfoldable pub ensure : String → Option Exn → Pool → Result ℕ × Pool
unfolding enter
ensure fingerprint failure p = elim p.current [
  | some c ↦ (ok c, enter c p)
  | none ↦ elim failure [
    | some e ↦ (err e, p)
    | none ↦ (
      ok p.built,
      enter p.built
          (record p { current = some p.built; fingerprint = fingerprint; built = suc p.built }),
    )
  ]
]

-- `_get_client` past `_validate_config`
unfoldable pub get_client : String → Option Exn → Pool → Result ℕ × Pool
unfolding refresh ensure
get_client fingerprint failure p = ensure fingerprint failure (refresh fingerprint p)

-- `_release_client`
unfoldable pub release : ℕ → Pool → Pool
release c p =
    if leb (count c p.inflight) 1
    then if is_member c p.retired
      then record p {
        inflight = pop_count c p.inflight;
        retired = without c p.retired;
        closed = c ∷ p.closed;
      }
      else record p { inflight = pop_count c p.inflight }
    else record p { inflight = put_count c (count c p.inflight - 1) p.inflight }

-- What `_call` does with its client after a timeout, a refusal or a failed authentication.
unfoldable pub discard : ℕ → Pool → Pool
unfolding retire
discard c p =
    retire c (if is_current c p.current then record p { current = none; fingerprint = "" } else p)
