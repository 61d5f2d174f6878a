-- ===== src/Session/Guarded.antt =====
-- _provider.py: `initialize` and `on_session_switch`, under the invariant of `Mutation/Safety`.
use hermes_hyperspacedb_prov.Prelude.{ℕ, String, ◌≡◌}
use hermes_hyperspacedb_prov.Value.{Value}
use hermes_hyperspacedb_prov.Errors.{ok}
use hermes_hyperspacedb_prov.World.{Env}
use hermes_hyperspacedb_prov.Exec.{Exec}
use hermes_hyperspacedb_prov.Ledger.{Ledger}
use hermes_hyperspacedb_prov.Ledger.Updates.{IsConsistent}
use hermes_hyperspacedb_prov.Provider.{Provider}
use hermes_hyperspacedb_prov.Mutation.Safety.{IsSafe}
use hermes_hyperspacedb_prov.Session.{open_ledger}

-- The invariant of the mutations, in the provider's present context.
abbrev pub Safe : Env → Provider → Type 0
Safe env p = IsSafe env p.context p

-- Each ledger file that is opened has distinct digests and distinct ids, as its uniqueness constraints
-- say.
abbrev pub OpensConsistent : Env → Type 0
OpensConsistent env =
    (n : ℕ) (path : String) (l : Ledger) → env.open_ledger n path ≡ ok l → IsConsistent l
