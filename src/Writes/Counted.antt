-- ===== src/Writes/Counted.antt =====
-- _provider.py: an event of the write queue that comes to nothing is counted as a failed write.
use hermes_hyperspacedb_prov.Prelude.{
  ℕ, suc, ◌+◌, ◌≡◌, refl, ap, Bool, true, false, some, [], ◌∷◌, ◌++◌, arith, String, ◌⊎◌, inl, inr,
  Option-cases, Bool-cases,
}
use hermes_hyperspacedb_prov.Prelude.Lists.{length-append}
use hermes_hyperspacedb_prov.Errors.{Result, ok, err, ProviderError, classify, code_text}
use hermes_hyperspacedb_prov.World.{Env}
use hermes_hyperspacedb_prov.Ledger
use hermes_hyperspacedb_prov.Ledger.{Ledger}
use hermes_hyperspacedb_prov.Provider.{Provider, MemoryEvent, mark_error}
use hermes_hyperspacedb_prov.Mutation.Event.{apply_memory_event}
use hermes_hyperspacedb_prov.Tools.Memory.{ledger_failures}
use hermes_hyperspacedb_prov.Writes.{
  put_item, is_mirrored, fail_write, accept_write, on_memory_write, settle_write, handle_write,
}

-- `failed_writes` of `status_snapshot`
abbrev pub all_failures : Provider → ℕ
all_failures p = p.failed_writes + ledger_failures p.ledger

-- 1 where it raised
abbrev pub failed : Result (Unit {0}) → ℕ
failed (ok u) = 0
failed (err x) = 1

-- The event waits behind all others, and no more writes have failed; or the queue is as it was, and
-- one more write has failed.
abbrev pub IsKept : MemoryEvent → Provider → Provider → Type 0
IsKept e p q =
    ((q.queue ≡ p.queue ++ some e ∷ []) × (all_failures q ≡ all_failures p))
    ⊎ ((q.queue ≡ p.queue) × (all_failures q ≡ suc (all_failures p)))

fail_write-counted :
    (env : Env) (e : MemoryEvent) (code error : String) (p : Provider)
    → all_failures (fail_write env e code error p) ≡ suc (all_failures p)
unfolding fail_write Ledger.record_failure Ledger.failure_count
fail_write-counted env e code error p = elim (Option-cases p.ledger) [
  | inl n ↦ rw (n, fail_write) (omega (arith, ap ledger_failures n))
  | inr (l, h) ↦
      rw (h, fail_write) (omega (arith, length-append l.failures (_ ∷ []), ap ledger_failures h))
]

pub fail_write-context :
    (env : Env) (e : MemoryEvent) (code error : String) (p : Provider)
    → (fail_write env e code error p).context ≡ p.context
unfolding fail_write
fail_write-context env e code error p = ground arith

mark_error-failures :
    (env : Env) (e : ProviderError) (p : Provider)
    → all_failures (mark_error env e p) ≡ all_failures p
unfolding mark_error
mark_error-failures env e p = ground arith

module _ (env : Env) where
  accept_write-IsKept :
      (shut full : Bool) (e : MemoryEvent) (p : Provider)
      → IsKept e p (accept_write env shut full e p)
  unfolding accept_write put_item
  accept_write-IsKept true full e p = inr (refl, omega arith)
  accept_write-IsKept false true e p = inr (
    ap (λ c. c.queue) (fail_write-context env e "WRITE_QUEUE_FULL" "Ordered write queue is full" p),
    fail_write-counted env e "WRITE_QUEUE_FULL" "Ordered write queue is full" p,
  )
  accept_write-IsKept false false e p = inl (refl, refl)

  settle_write-counted :
      (e : MemoryEvent) (r : Result (Unit {0})) (p : Provider)
      → all_failures (settle_write env e r p) ≡ all_failures p + failed r
  unfolding settle_write
  settle_write-counted e (ok u) p = omega arith
  settle_write-counted e (err x) p = omega (
    arith,
    fail_write-counted env e (code_text (classify x).code) (classify x).message
        (mark_error env (classify x) p),
    mark_error-failures env (classify x) p,
  )

  -- An event that `on_memory_write` does not ignore is put behind all that wait in the queue, or else
  -- the queue is left as it was and one more failed write is counted; one that it ignores changes
  -- nothing.
  pub on_memory_write-counted :
      (e : MemoryEvent) (p : Provider)
      → ((is_mirrored p.context e ≡ true) × IsKept e p (on_memory_write env e p))
        ⊎ ((is_mirrored p.context e ≡ false) × (on_memory_write env e p ≡ p))
  unfolding on_memory_write
  on_memory_write-counted e p = elim (Bool-cases (is_mirrored p.context e)) [
    | inr n ↦ inr (n, rw (n, on_memory_write) refl)
    | inl m ↦ inl (m, rw (m, on_memory_write) (accept_write-IsKept _ _ e p))
  ]

  -- Handling an event leaves the failed writes as the mutation leaves them, and one more if the
  -- mutation raised.
  pub handle_write-counted :
      (e : MemoryEvent) (p : Provider)
      → all_failures (handle_write env e p)
        ≡ all_failures (apply_memory_event env e.action e.target e.content e.metadata p).1
          + failed (apply_memory_event env e.action e.target e.content e.metadata p).0
  unfolding handle_write
  handle_write-counted e p =
      settle_write-counted e (apply_memory_event env e.action e.target e.content e.metadata p).0
        (apply_memory_event env e.action e.target e.content e.metadata p).1
