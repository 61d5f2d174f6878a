-- ===== src/Reconcile/Guarded.antt =====
-- _provider.py: the two reconciliations, under the invariant of `Mutation/Safety`.
use hermes_hyperspacedb_prov.Prelude.{ℕ, String, Option, none, some, List, [], ◌∷◌}
use hermes_hyperspacedb_prov.Value.{Value}
use hermes_hyperspacedb_prov.World.{Env}
use hermes_hyperspacedb_prov.Exec.Rules.{Preserves, Preserves-bind, Preserves-if, Preserves-pure}
use hermes_hyperspacedb_prov.Ledger
use hermes_hyperspacedb_prov.Ledger.Tables.{LedgerRecord}
use hermes_hyperspacedb_prov.Provider.{Context}
use hermes_hyperspacedb_prov.Mutation.Safety.{IsSafe, ledger-IsSafe, put_ledger-IsSafe, safe_rules}
use hermes_hyperspacedb_prov.Mutation.ContractGuarded.{require_collection_contract-IsSafe}
use hermes_hyperspacedb_prov.Mutation.Guarded.{
  fetch-IsSafe, list_reply-IsSafe, owner_matches-IsSafe, backend_proven_alive-IsSafe,
}
use hermes_hyperspacedb_prov.Mutation.DeleteGuarded.{delete_verified-IsSafe}
use hermes_hyperspacedb_prov.Reconcile.{
  Counts, tally, clear_retry, note_retry, judge_insert, check_insert, check_inserts,
  reconcile_pending_inserts, judge_delete, check_deletion, is_over, is_due, check_deletions,
  deadline_of, reconcile_delete_pending,
}

module _ {env : Env} {c : Context} where
  clear_retry-IsSafe : (d : String) → Preserves (IsSafe env c) (clear_retry env d)
  unfolding clear_retry
  clear_retry-IsSafe d = ledger-IsSafe _ (λ l u.
      put_ledger-IsSafe (Ledger.clear_reconciliation_retry d l)
        (unfold Ledger.clear_reconciliation_retry in u))

  note_retry-IsSafe : (d : String) → Preserves (IsSafe env c) (note_retry env d)
  unfolding note_retry
  note_retry-IsSafe d = Preserves-bind _ _ (search safe_rules) (λ k. ledger-IsSafe _ (λ l u.
      Preserves-bind _ _ (search safe_rules) (λ moment.
        Preserves-bind _ _ (search safe_rules) (λ now.
          Preserves-bind _ _
            (put_ledger-IsSafe
              (Ledger.note_reconciliation_retry d k.reconcile_base_delay k.reconcile_max_attempts
                moment now l).0
              (unfold Ledger.note_reconciliation_retry in u))
            (λ _. Preserves-pure _)))))

  judge_insert-IsSafe :
      (r : LedgerRecord) (vs : List Value) → Preserves (IsSafe env c) (judge_insert env r vs)
  unfolding judge_insert
  judge_insert-IsSafe r [] = Preserves-bind _ _ backend_proven_alive-IsSafe (λ _. search safe_rules)
  judge_insert-IsSafe r (v ∷ vs) =
      Preserves-bind _ _ (owner_matches-IsSafe v r.digest) (λ m. search safe_rules)

  check_insert-IsSafe : (r : LedgerRecord) → Preserves (IsSafe env c) (check_insert env r)
  unfolding check_insert
  check_insert-IsSafe r = search (safe_rules, fetch-IsSafe, list_reply-IsSafe, judge_insert-IsSafe)

  check_inserts-IsSafe :
      (rs : List LedgerRecord) (k : Counts) → Preserves (IsSafe env c) (check_inserts env rs k)
  unfolding check_inserts
  check_inserts-IsSafe [] k = Preserves-pure k
  check_inserts-IsSafe (r ∷ rs) k =
      Preserves-bind _ _ (check_insert-IsSafe r) (λ o. check_inserts-IsSafe rs (tally o k))

  pub reconcile_pending_inserts-Preserves :
      (limit : ℕ) → Preserves (IsSafe env c) (reconcile_pending_inserts env limit)
  unfolding reconcile_pending_inserts
  reconcile_pending_inserts-Preserves limit = Preserves-bind _ _ (search safe_rules) (λ i.
      Preserves-bind _ _ (search safe_rules) (λ _.
        Preserves-bind _ _ (search safe_rules)
          (λ k. ledger-IsSafe _ (λ l u. search (safe_rules, check_inserts-IsSafe)))))

  judge_delete-IsSafe :
      (r : LedgerRecord) (vs : List Value) → Preserves (IsSafe env c) (judge_delete env r vs)
  unfolding judge_delete
  judge_delete-IsSafe r [] =
      Preserves-bind _ _ backend_proven_alive-IsSafe (λ _. search (safe_rules, clear_retry-IsSafe))
  judge_delete-IsSafe r (v ∷ vs) =
      Preserves-bind _ _ (owner_matches-IsSafe v r.digest)
        (λ m. search (safe_rules, clear_retry-IsSafe, delete_verified-IsSafe) depth 8)

  check_deletion-IsSafe : (r : LedgerRecord) → Preserves (IsSafe env c) (check_deletion env r)
  unfolding check_deletion
  check_deletion-IsSafe r =
      search (safe_rules, fetch-IsSafe, list_reply-IsSafe, judge_delete-IsSafe, note_retry-IsSafe)
        depth 8

  is_over-IsSafe : (o : Option ℕ) → Preserves (IsSafe env c) (is_over env o)
  unfolding is_over
  is_over-IsSafe none = Preserves-pure _
  is_over-IsSafe (some d) = Preserves-bind _ _ (search safe_rules) (λ now. Preserves-pure _)

  is_due-IsSafe : (d : String) → Preserves (IsSafe env c) (is_due env d)
  unfolding is_due
  is_due-IsSafe d =
      Preserves-bind _ _ (search safe_rules) (λ k. ledger-IsSafe _ (λ l u. search safe_rules))

  check_deletions-IsSafe :
      (o : Option ℕ) (rs : List LedgerRecord) (k : Counts)
      → Preserves (IsSafe env c) (check_deletions env o rs k)
  unfolding check_deletions
  check_deletions-IsSafe o [] k = Preserves-pure k
  check_deletions-IsSafe o (r ∷ rs) k = Preserves-bind _ _ (is_over-IsSafe o) (λ over.
      Preserves-if over _ _ (Preserves-pure _) (
        Preserves-bind _ _ (is_due-IsSafe r.digest) (λ due.
          Preserves-if _ _ _ (check_deletions-IsSafe o rs _) (
            Preserves-bind _ _ (check_deletion-IsSafe r)
              (λ outcome. check_deletions-IsSafe o rs (tally outcome k))))))

  deadline_of-IsSafe : (o : Option ℕ) → Preserves (IsSafe env c) (deadline_of env o)
  unfolding deadline_of
  deadline_of-IsSafe none = Preserves-pure _
  deadline_of-IsSafe (some b) = Preserves-bind _ _ (search safe_rules) (λ now. Preserves-pure _)

  pub reconcile_delete_pending-Preserves :
      (limit : ℕ) (budget : Option ℕ)
      → Preserves (IsSafe env c) (reconcile_delete_pending env limit budget)
  unfolding reconcile_delete_pending
  reconcile_delete_pending-Preserves limit budget =
      Preserves-bind _ _ (search (safe_rules, require_collection_contract-IsSafe)) (λ _.
        Preserves-bind _ _ (search safe_rules) (λ i. Preserves-bind _ _ (search safe_rules) (λ _.
          Preserves-bind _ _ (search safe_rules) (λ k. Preserves-if _ _ _ (Preserves-pure _) (
            Preserves-bind _ _ (deadline_of-IsSafe budget)
              (λ d. ledger-IsSafe _ (λ l u. search (safe_rules, check_deletions-IsSafe))))))))
