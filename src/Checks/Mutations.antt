-- ===== src/Checks/Mutations.antt =====
-- Calls and deletions on a ledger of two records.
use hermes_hyperspacedb_prov.Prelude.{refl, [], ◌∷◌}
use hermes_hyperspacedb_prov.Mutation.{delete_verified}
use hermes_hyperspacedb_prov.Mutation.Safety.{IsSafe}
use hermes_hyperspacedb_prov.Mutation.Deleted.{DeletesOwn, delete_verified-DeletesOwn}
use hermes_hyperspacedb_prov.Value.{list, cons, nil}
use hermes_hyperspacedb_prov.World.{Request, get_points}
use hermes_hyperspacedb_prov.Provider.{call}
use hermes_hyperspacedb_prov.Config.{validate_config, is_loopback_endpoint}
use hermes_hyperspacedb_prov.Text
use hermes_hyperspacedb_prov.Client
use hermes_hyperspacedb_prov.Provider.Frame.{Answered, call-Answered}
use hermes_hyperspacedb_prov.Samples.{legacy_point, env, context, provider, tea}
use hermes_hyperspacedb_prov.Checks.{ledger-IsConsistent}

pub provider-IsSafe : IsSafe env context provider
provider-IsSafe = record { same_context = refl; ledger = ledger-IsConsistent; only_cleared = tt }

delete_verified-DeletesOwn_example :
    DeletesOwn env tea provider (delete_verified env tea provider).1
delete_verified-DeletesOwn_example = delete_verified-DeletesOwn env tea provider

-- Reading the legacy point.
abbrev read : Request
read = get_points (7 ∷ []) "memory"

call-Answered_example :
    Answered env read provider (list (cons legacy_point nil)) (call env read provider).1
unfolding call validate_config Text.is_empty is_loopback_endpoint Text.starts_with Text.strip
    Text.equals_lower Text.contains Text.has_code Text.before_last Client.get_client
call-Answered_example =
    call-Answered env read provider (call env read provider).1 (list (cons legacy_point nil)) refl
