-- ===== src/Checks.antt =====
-- The theorems on the values of `Samples`.
pub mod Mutations
pub mod Settlements
pub mod Signatures
pub mod Handles
pub mod Clients
pub mod Rows
pub mod Graphs
pub mod Calls
pub mod Turns
use hermes_hyperspacedb_prov.Prelude.{refl}
use hermes_hyperspacedb_prov.Ledger.Tables.{find, holder}
use hermes_hyperspacedb_prov.Ledger.Updates.{IsConsistent}
use hermes_hyperspacedb_prov.Samples.{ledger}

pub ledger-IsConsistent : IsConsistent ledger
unfolding find holder
ledger-IsConsistent = (refl, refl, (refl, refl, tt))
