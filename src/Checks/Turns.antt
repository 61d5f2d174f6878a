-- ===== src/Checks/Turns.antt =====
-- Turns of the worker, a new session, and a stream of events.
use hermes_hyperspacedb_prov.Prelude.{◌≡◌, refl, true, false, none, List, [], ◌∷◌, ◌⊎◌, arith}
use hermes_hyperspacedb_prov.Text
use hermes_hyperspacedb_prov.Value.{Value, null, int, str, dict, end, field}
use hermes_hyperspacedb_prov.Errors.{Result, err, ok, fail, capability_forbidden}
use hermes_hyperspacedb_prov.Events.{observe}
use hermes_hyperspacedb_prov.Events.Window.{empty_log, window, observe_log, observe-window}
use hermes_hyperspacedb_prov.Ledger.{Ledger}
use hermes_hyperspacedb_prov.Ledger.Tables.{LedgerRecord}
use hermes_hyperspacedb_prov.Provider.{MemoryEvent}
use hermes_hyperspacedb_prov.Tools.{resolve_point}
use hermes_hyperspacedb_prov.Writes.{
  Writer, Turn, submit, put_end, take_item, handle_item, turns, is_mirrored, on_memory_write,
}
use hermes_hyperspacedb_prov.Writes.Ordered.{IsOrdered, turns-IsOrdered}
use hermes_hyperspacedb_prov.Writes.Counted.{IsKept, on_memory_write-counted}
use hermes_hyperspacedb_prov.Session.{on_session_switch}
use hermes_hyperspacedb_prov.Session.Forgotten.{on_session_switch-forgets}
use hermes_hyperspacedb_prov.Samples.{env, provider}
use hermes_hyperspacedb_prov.Checks.Mutations.{provider-IsSafe}

abbrev likes_tea : MemoryEvent
likes_tea = record { action = "add"; target = "user"; content = "likes tea"; metadata = end }

abbrev writer : Writer
writer = record { provider = provider; in_hand = none; accepted = []; taken = [] }

writer-IsOrdered : IsOrdered env writer
writer-IsOrdered = record {
  safe = provider-IsSafe;
  in_order = refl;
  pending = refl;
  bounded = omega arith;
}

abbrev a_day : List Turn
a_day = submit likes_tea ∷ take_item ∷ submit likes_tea ∷ handle_item ∷ put_end ∷ take_item ∷ []

turns-IsOrdered_example : IsOrdered env (turns env a_day writer)
turns-IsOrdered_example = turns-IsOrdered env a_day writer writer-IsOrdered

on_memory_write-counted_example :
    ((is_mirrored provider.context likes_tea ≡ true)
      × IsKept likes_tea provider (on_memory_write env likes_tea provider))
    ⊎ ((is_mirrored provider.context likes_tea ≡ false)
        × (on_memory_write env likes_tea provider ≡ provider))
on_memory_write-counted_example = on_memory_write-counted env likes_tea provider

abbrev rows_of : Result Ledger → List LedgerRecord
rows_of (ok l) = l.records
rows_of (err e) = []

on_session_switch-forgets_example :
    (resolve_point env (str "pt_1") "memory" (on_session_switch env "s2" none null provider).1).0
    ≡ err (fail capability_forbidden "Capability was not issued by this provider session")
unfolding Text.is_empty
on_session_switch-forgets_example =
    on_session_switch-forgets env "s2" none null provider "pt_1" "memory" refl

-- An insertion of a point of the profile.
abbrev insertion : Value
insertion = dict (
    field "type" (str "insert") (
      field "payload"
        (dict (
          field "id" (int 7) (
            field "metadata"
              (dict (
                field "_hs_owner" (str "hermes-hyperspacedb")
                  (field "_hs_profile" (str "home") end)))
              end)))
        end))

observe-window_example :
    observe env 1 "home" (insertion ∷ insertion ∷ []) (window 1 empty_log)
    ≡ window 1 (observe_log env "home" (insertion ∷ insertion ∷ []) empty_log)
observe-window_example = observe-window env 1 "home" (insertion ∷ insertion ∷ []) empty_log
