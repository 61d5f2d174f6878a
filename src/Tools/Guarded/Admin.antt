-- ===== src/Tools/Guarded/Admin.antt =====
-- _provider.py: the handlers of the operator's tools, under the invariant of `Mutation/Safety`.
use hermes_hyperspacedb_prov.Prelude.{ℕ, suc, String, List, [], ◌∷◌, arith}
use hermes_hyperspacedb_prov.Value.{Value, Fields, as_list, as_dict}
use hermes_hyperspacedb_prov.World.{Env}
use hermes_hyperspacedb_prov.Exec.Rules.{
  Preserves, Preserves-bind, Preserves-if, Preserves-pure, Preserves-option,
}
use hermes_hyperspacedb_prov.Provider.{Context}
use hermes_hyperspacedb_prov.Ledger
use hermes_hyperspacedb_prov.Ledger.{Ledger}
use hermes_hyperspacedb_prov.Ledger.Tables.{Receipt}
use hermes_hyperspacedb_prov.Ledger.Updates.{IsConsistent}
use hermes_hyperspacedb_prov.Mutation.Safety.{IsSafe, ledger-IsSafe, put_ledger-IsSafe, safe_rules}
use hermes_hyperspacedb_prov.Mutation.DeleteGuarded.{apply_memory_event-Preserves}
use hermes_hyperspacedb_prov.Reconcile.Guarded.{reconcile_delete_pending-Preserves}
use hermes_hyperspacedb_prov.Tools.Admin.{
  admin_result, tool_admin, tool_events, replay, put_receipt, apply_once, apply_reconcile,
  reconcile_with, tool_reconcile,
}
use hermes_hyperspacedb_prov.Tools.Batch.{
  Item, apply_fields, apply_operation, apply_operations, batch_answer, batch_list, tool_batch,
}
use hermes_hyperspacedb_prov.Tools.Guarded.Helpers.{
  bounded_arg-IsSafe, tool_json-IsSafe, answer-IsSafe, or_json_error-IsSafe,
  resolve_collection-IsSafe, probe_health-IsSafe,
}

ruleset admin_rules = (
  safe_rules, bounded_arg-IsSafe, tool_json-IsSafe, answer-IsSafe, or_json_error-IsSafe,
  resolve_collection-IsSafe, probe_health-IsSafe,
)

put_receipt-IsConsistent :
    (token payload now : String) (l : Ledger)
    → IsConsistent l
    → IsConsistent (Ledger.put_operator_receipt token "reconcile_apply" payload now l)
unfolding Ledger.put_operator_receipt
put_receipt-IsConsistent token payload now l u = ground arith

module _ {env : Env} {c : Context} where
  admin_result-IsSafe :
      (operation collection : String)
      → Preserves (IsSafe env c) (admin_result env operation collection)
  unfolding admin_result
  admin_result-IsSafe operation collection = search admin_rules depth 16

  pub tool_admin-IsSafe : (args : Fields) → Preserves (IsSafe env c) (tool_admin env args)
  unfolding tool_admin
  tool_admin-IsSafe args = search (admin_rules, admin_result-IsSafe) depth 16

  pub tool_events-IsSafe : (args : Fields) → Preserves (IsSafe env c) (tool_events env args)
  unfolding tool_events
  tool_events-IsSafe args = search admin_rules depth 16

  replay-IsSafe : (row : Receipt) → Preserves (IsSafe env c) (replay env row)
  unfolding replay
  replay-IsSafe row = tool_json-IsSafe _

  put_receipt-IsSafe :
      (token : String) (payload : Value) → Preserves (IsSafe env c) (put_receipt env token payload)
  unfolding put_receipt
  put_receipt-IsSafe token payload = ledger-IsSafe _ (λ l u.
      Preserves-bind _ _ (search safe_rules)
        (λ now. put_ledger-IsSafe _ (put_receipt-IsConsistent token (env.json payload) now l u)))

  apply_once-IsSafe :
      (token : String) (limit would : ℕ)
      → Preserves (IsSafe env c) (apply_once env token limit would)
  unfolding apply_once
  apply_once-IsSafe token limit would =
      search (admin_rules, put_receipt-IsSafe, reconcile_delete_pending-Preserves) depth 16

  apply_reconcile-IsSafe :
      (l : Ledger) (token : String) (limit would : ℕ)
      → Preserves (IsSafe env c) (apply_reconcile env l token limit would)
  unfolding apply_reconcile
  apply_reconcile-IsSafe l token limit would = Preserves-if _ _ _ (Preserves-pure _) (
      Preserves-option (Ledger.get_operator_receipt token l) _ _
        (apply_once-IsSafe token limit would) (λ row. replay-IsSafe row))

  reconcile_with-IsSafe :
      (l : Ledger) (args : Fields) → Preserves (IsSafe env c) (reconcile_with env l args)
  unfolding reconcile_with
  reconcile_with-IsSafe l args = search (admin_rules, apply_reconcile-IsSafe) depth 16

  pub tool_reconcile-IsSafe : (args : Fields) → Preserves (IsSafe env c) (tool_reconcile env args)
  unfolding tool_reconcile
  tool_reconcile-IsSafe args =
      Preserves-bind _ _ (search safe_rules) (λ stored.
        Preserves-option stored _ _ (Preserves-pure _) (λ l. reconcile_with-IsSafe l args))

  apply_fields-IsSafe : (i : ℕ) (raw : Fields) → Preserves (IsSafe env c) (apply_fields env i raw)
  unfolding apply_fields
  apply_fields-IsSafe i raw = search (safe_rules, apply_memory_event-Preserves) depth 12

  apply_operation-IsSafe :
      (i : ℕ) (raw : Value) → Preserves (IsSafe env c) (apply_operation env i raw)
  unfolding apply_operation
  apply_operation-IsSafe i raw =
      Preserves-option (as_dict raw) _ _ (Preserves-pure _) (λ fs. apply_fields-IsSafe i fs)

  apply_operations-IsSafe :
      (i : ℕ) (raws : List Value) → Preserves (IsSafe env c) (apply_operations env i raws)
  unfolding apply_operations
  apply_operations-IsSafe i [] = Preserves-pure _
  apply_operations-IsSafe i (raw ∷ rest) =
      Preserves-bind _ _ (apply_operation-IsSafe i raw) (λ item.
        Preserves-bind _ _ (apply_operations-IsSafe (suc i) rest) (λ items. Preserves-pure _))

  batch_answer-IsSafe : (items : List Item) → Preserves (IsSafe env c) (batch_answer env items)
  unfolding batch_answer
  batch_answer-IsSafe items = tool_json-IsSafe _

  batch_list-IsSafe : (raws : List Value) → Preserves (IsSafe env c) (batch_list env raws)
  unfolding batch_list
  batch_list-IsSafe [] = Preserves-pure _
  batch_list-IsSafe (raw ∷ rest) =
      search (safe_rules, apply_operations-IsSafe, batch_answer-IsSafe) depth 12

  pub tool_batch-IsSafe : (args : Fields) → Preserves (IsSafe env c) (tool_batch env args)
  unfolding tool_batch
  tool_batch-IsSafe args =
      Preserves-option (as_list _) _ _ (Preserves-pure _) (λ vs. batch_list-IsSafe vs)
