-- ===== src/Checks/Settlements.antt =====
-- Reconciling a record whose point is signed, and one whose point is gone.
use hermes_hyperspacedb_prov.Prelude.{refl, List, [], ◌∷◌}
use hermes_hyperspacedb_prov.Value.{
  Value, int, str, list, dict, nil, cons, end, field, as_list, is_missing,
}
use hermes_hyperspacedb_prov.World.{Env, returned, delete}
use hermes_hyperspacedb_prov.Exec
use hermes_hyperspacedb_prov.Provider.{Provider, call, backend_proven_alive, utc_now}
use hermes_hyperspacedb_prov.Config.{validate_config, is_loopback_endpoint}
use hermes_hyperspacedb_prov.Text
use hermes_hyperspacedb_prov.Client
use hermes_hyperspacedb_prov.Ownership.{plugin_id}
use hermes_hyperspacedb_prov.Mutation.{fetch, list_reply, set_status}
use hermes_hyperspacedb_prov.Reconcile.{judge_delete, check_deletion}
use hermes_hyperspacedb_prov.Reconcile.Settled.{Reads, IsGoneOrOwned, check_deletion-settled}
use hermes_hyperspacedb_prov.Samples.{env, provider, tea}

-- The point is deleted already.
abbrev emptied : Provider
emptied = record provider { history = delete 7 "memory" ∷ [] }

check_deletion-settled_example :
    (points : List Value) × Reads env tea emptied points × IsGoneOrOwned env tea emptied points
unfolding validate_config Text.is_empty is_loopback_endpoint Text.starts_with Text.strip
    Text.equals_lower Text.contains Text.has_code Text.before_last Client.get_client check_deletion
    judge_delete Exec.catch Exec.◌>>=◌ fetch call list_reply as_list Exec.pure backend_proven_alive
    Client.release Client.count Client.put_count Client.is_member Exec.raise_if is_missing
    set_status utc_now
check_deletion-settled_example =
    check_deletion-settled env tea emptied (check_deletion env tea emptied).1 refl

abbrev signed_point : Value
signed_point = dict (
    field "id" (int 7) (
      field "payload" (str "likes tea") (
        field "metadata"
          (dict (
            field "_hs_owner" (str plugin_id) (
              field "_hs_digest" (str "ab12") (
                field "_hs_profile" (str "home") (
                  field "target" (str "user") (
                    field "source" (str "hermes-builtin-memory")
                      (field "_hs_owner_signature" (str "cd34") end)))))))
          end)))

-- The backend has the signed point.
abbrev signed_env : Env
signed_env = record env { backend = λ h q. returned (list (cons signed_point nil)) }
