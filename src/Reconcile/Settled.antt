-- ===== src/Reconcile/Settled.antt =====
-- _provider.py: what the backend has answered where a reconciliation settles a record.
use hermes_hyperspacedb_prov.Prelude.{
  ◌≡◌, ap, ◌∙◌, ◌⊎◌, inl, inr, true, some, List, [], ◌∷◌, Option-cases, Bool-cases,
}
use hermes_hyperspacedb_prov.Value.{Value, as_list}
use hermes_hyperspacedb_prov.Errors.{Result, ok, err, ProviderError, provider, timeout_error, other}
use hermes_hyperspacedb_prov.World.{Env, returned, get_points}
use hermes_hyperspacedb_prov.Exec.{Exec, ◌>>=◌, pure, raise, lift, catch, handle_error}
use hermes_hyperspacedb_prov.Exec.Still.{bind-ok}
use hermes_hyperspacedb_prov.Ledger.Tables.{LedgerRecord}
use hermes_hyperspacedb_prov.Ownership.{point_owner_matches}
use hermes_hyperspacedb_prov.Provider.{Provider}
use hermes_hyperspacedb_prov.Provider.Frame.{Answered, call-Answered}
use hermes_hyperspacedb_prov.Mutation.{keys, fetch, list_reply, owner_matches}
use hermes_hyperspacedb_prov.Reconcile.{
  Outcome, settled, conflicting, put_off, judge_delete, check_deletion,
}

-- The backend answers the read of the record's id with these points.
pub record Reads (env : Env) (r : LedgerRecord) (p : Provider) (points : List Value) : Type 0 where
  pub value : Value
  pub answer :
      env.backend p.history (get_points (r.external_id ∷ []) p.config.collection) ≡ returned value
  pub listed : as_list value ≡ some points

-- The first of the points is authenticated for the record's digest.
abbrev pub FirstIsOwned : Env → LedgerRecord → Provider → List Value → Type 0
FirstIsOwned env r p [] = ⊥
FirstIsOwned env r p (point ∷ rest) =
    point_owner_matches env point r.digest p.config.collection p.config.profile_scope
      (keys p.config)
    ≡ ok true

-- The points are none, or the first of them is authenticated.
abbrev pub IsGoneOrOwned : Env → LedgerRecord → Provider → List Value → Type 0
IsGoneOrOwned env r p [] = Unit
IsGoneOrOwned env r p (point ∷ rest) = FirstIsOwned env r p (point ∷ rest)

handled-ok :
    {S A : Type 0} (res : Result A) (f : ProviderError → Exec S A) (s q : S) (a : A)
    → handle_error res f s ≡ (ok a, q)
    → (res ≡ ok a) ⊎ ((e : ProviderError) × (f e s ≡ (ok a, q)))
handled-ok (ok b) f s q a h = inl (ap (λ x. x.0) h)
handled-ok (err (provider e)) f s q a h = inr (e, h)
handled-ok (err (timeout_error m)) f s q a h = absurd (cc h)
handled-ok (err (other c n t)) f s q a h = absurd (cc h)

-- Where a `try` statement returns, its body or its `except` branch has.
catch-ok :
    {S A : Type 0} (m : Exec S A) (f : ProviderError → Exec S A) (s q : S) (a : A)
    → catch m f s ≡ (ok a, q)
    → ((m s).0 ≡ ok a) ⊎ ((e : ProviderError) × (f e (m s).1 ≡ (ok a, q)))
unfolding catch
catch-ok m f s q a h = handled-ok (m s).0 f (m s).1 q a h

-- What ends in returning another outcome does not return this one.
ends-other :
    {B : Type 0} (m : Exec Provider B) (o : Outcome) (p q : Provider)
    → (m >>= λ _. pure o) p ≡ (ok settled, q)
    → o ≡ settled
unfolding pure
ends-other m o p q h = let (b, i, j) = bind-ok m (λ _. pure o) p q settled h in cc j

module _ (env : Env) (r : LedgerRecord) where
  listed-ok :
      (f : List Value → Exec Provider Outcome) (v : Value) (p q : Provider)
      → (list_reply v >>= f) p ≡ (ok settled, q)
      → (vs : List Value) × (as_list v ≡ some vs) × (f vs p ≡ (ok settled, q))
  unfolding list_reply ◌>>=◌ pure raise
  listed-ok f v p q h = elim (Option-cases (as_list v)) [
    | inl n ↦ absurd (cc (rw (n, list_reply, ◌>>=◌) at h))
    | inr (vs, l) ↦ (vs, l, rw (l, list_reply, ◌>>=◌) at h)
  ]

  -- Where what follows a read settles, it has seen the points that the backend answers.
  read-ok :
      (f : List Value → Exec Provider Outcome) (p : Provider)
      → ((fetch env r.external_id >>= λ reply. list_reply reply >>= f) p).0 ≡ ok settled
      → (vs : List Value) × Reads env r p vs
        × (p' : Provider) × (p'.context ≡ p.context)
        × (q : Provider) × (f vs p' ≡ (ok settled, q))
  unfolding fetch
  read-ok f p e =
      let q = ((fetch env r.external_id >>= λ reply. list_reply reply >>= f) p).1 in
      let h = ap (λ x. (x, q)) e in
      let (v, i, j) =
        bind-ok (fetch env r.external_id) (λ reply. list_reply reply >>= f) p q settled h in
      let p' = (fetch env r.external_id p).1 in
      let a : Answered env (get_points (r.external_id ∷ []) p.config.collection) p v p' =
        call-Answered env _ p p' v (ap (λ x. (x, p')) i) in
      let (vs, l, k) = listed-ok f v p' q j in
      (vs, record { value = v; answer = a.answer; listed = l }, p', a.same_context, q, k)

  matched-owned :
      (point : Value) (rest : List Value) (p p' : Provider)
      → p'.context ≡ p.context
      → (owner_matches env point r.digest p').0 ≡ ok true
      → FirstIsOwned env r p (point ∷ rest)
  unfolding owner_matches lift
  matched-owned point rest p p' c h = rw (ap (λ w. w.config) c) at h

  judge_delete-owned :
      (vs : List Value) (p p' q : Provider)
      → p'.context ≡ p.context
      → judge_delete env r vs p' ≡ (ok settled, q)
      → IsGoneOrOwned env r p vs
  unfolding judge_delete
  judge_delete-owned [] p p' q c h = tt
  judge_delete-owned (point ∷ rest) p p' q c h =
      let (b, i, j) = bind-ok (owner_matches env point r.digest) _ p' q settled h in
      elim (Bool-cases b) [
        | inl t ↦ matched-owned point rest p p' c (i ∙ ap ok t)
        | inr f ↦
            let (u, i', j') = bind-ok _ _ _ q settled (rw f at j) in
            absurd (cc (ends-other _ conflicting _ q j'))
      ]

-- A reconciliation counts a pending delete as removed only if the backend, asked for the record's id,
-- answers with no point, or with points of which the first is authenticated for the record's digest
-- in the configured collection and profile.
pub check_deletion-settled :
    (env : Env) (r : LedgerRecord) (p q : Provider)
    → check_deletion env r p ≡ (ok settled, q)
    → (points : List Value) × Reads env r p points × IsGoneOrOwned env r p points
unfolding check_deletion
check_deletion-settled env r p q h = elim (catch-ok _ _ p q settled h) [
  | inl e ↦
      let (points, seen, p', c, q', k) = read-ok env r (judge_delete env r) p e in
      (points, seen, judge_delete-owned env r points p p' q' c k)
  | inr (e, k) ↦
      let (n, i, j) = bind-ok _ _ _ q settled k in absurd (cc (ends-other _ put_off _ q j))
]
