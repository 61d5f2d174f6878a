-- ===== src/Writes/Guarded.antt =====
-- _provider.py: the steps under the write queue, under the invariant of `Mutation/Safety`.
use hermes_hyperspacedb_prov.Prelude.{◌≡◌, refl, Bool, true, false, inl, inr, String, Option-cases}
use hermes_hyperspacedb_prov.Errors.{Result, ok, err, ProviderError, classify}
use hermes_hyperspacedb_prov.World.{Env}
use hermes_hyperspacedb_prov.Ledger
use hermes_hyperspacedb_prov.Ledger.{Ledger}
use hermes_hyperspacedb_prov.Provider.{Provider, Context, MemoryEvent, mark_error}
use hermes_hyperspacedb_prov.Provider.Frame.{mark-On}
use hermes_hyperspacedb_prov.Mutation.Safety.{IsSafe, LedgerOk, OnlyCleared}
use hermes_hyperspacedb_prov.Writes.Counted.{fail_write-context}
use hermes_hyperspacedb_prov.Writes.{put_item, fail_write, accept_write, settle_write}

-- Another session state with the same settings.
pub with_context :
    (env : Env) (c d : Context) (p : Provider)
    → c.config ≡ d.config
    → IsSafe env c p
    → IsSafe env d (record p { context = d })
with_context env c d p e k = record {
  same_context = refl;
  ledger = k.ledger;
  only_cleared = rw e at k.only_cleared;
}

fail_write-Inv :
    (env : Env) (c : Context) (e : MemoryEvent) (code error : String) (p : Provider)
    → p.context ≡ c
    → LedgerOk p.ledger
    → OnlyCleared env c.config p.history
    → ((fail_write env e code error p).context ≡ c)
      × LedgerOk (fail_write env e code error p).ledger
      × OnlyCleared env c.config (fail_write env e code error p).history
unfolding fail_write Ledger.record_failure
fail_write-Inv env c e code error p same u o = elim (Option-cases p.ledger) [
  | inl n ↦ rw (n, fail_write) (same, u, o)
  | inr (l, h) ↦ rw (h, fail_write) (same, rw h at u, o)
]

pub fail_write-IsSafe :
    (env : Env) (c : Context) (e : MemoryEvent) (code error : String) (p : Provider)
    → IsSafe env c p
    → IsSafe env c (fail_write env e code error p)
fail_write-IsSafe env c e code error p k =
    let (same, ledger, cleared) =
      fail_write-Inv env c e code error p k.same_context k.ledger k.only_cleared in
    record { same_context = same; ledger = ledger; only_cleared = cleared }

pub mark_error-IsSafe :
    (env : Env) (c : Context) (e : ProviderError) (p : Provider)
    → IsSafe env c p
    → IsSafe env c (mark_error env e p)
mark_error-IsSafe env c e p k =
    let (same, ledger, cleared) =
      mark-On (λ d l h. (d ≡ c) × LedgerOk l × OnlyCleared env c.config h)
        (λ d l h (same, u, o). (same, tt, o)) env e p (k.same_context, k.ledger, k.only_cleared) in
    record { same_context = same; ledger = ledger; only_cleared = cleared }

module _ (env : Env) where
  pub accept_write-IsSafe :
      (shut full : Bool) (e : MemoryEvent) (p : Provider)
      → IsSafe env p.context p
      → IsSafe env (accept_write env shut full e p).context (accept_write env shut full e p)
  unfolding accept_write put_item
  accept_write-IsSafe true full e p k = record {
    same_context = refl;
    ledger = k.ledger;
    only_cleared = k.only_cleared;
  }
  accept_write-IsSafe false true e p k =
      let same : (fail_write env e "WRITE_QUEUE_FULL" "Ordered write queue is full" p).context
          ≡ p.context =
        fail_write-context env e "WRITE_QUEUE_FULL" "Ordered write queue is full" p in
      rw same (fail_write-IsSafe env p.context e _ _ p k)
  accept_write-IsSafe false false e p k = with_context env p.context _ p refl k

  pub settle-IsSafe :
      (c : Context) (e : MemoryEvent) (r : Result (Unit {0})) (p : Provider)
      → IsSafe env c p
      → IsSafe env c (settle_write env e r p)
  unfolding settle_write
  settle-IsSafe c e (ok u) p k = k
  settle-IsSafe c e (err x) p k =
      fail_write-IsSafe env c e _ _ _ (mark_error-IsSafe env c (classify x) p k)
