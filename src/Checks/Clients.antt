-- ===== src/Checks/Clients.antt =====
-- Two calls with different credentials.
use hermes_hyperspacedb_prov.Prelude.{ℕ, ◌≡◌, refl, true, none, [], ◌∷◌, arith}
use hermes_hyperspacedb_prov.Client
use hermes_hyperspacedb_prov.Client.Calls
use hermes_hyperspacedb_prov.Client.Calls.{
  System, Move, starts, ends, Run, begin, then_move, holders, Run-closed,
}
use hermes_hyperspacedb_prov.Client.{Pool, count, is_member}
use hermes_hyperspacedb_prov.Client.Safety.{Step, Reach, initial, Reach-IsSafe, quiescent_closed}

-- A call with the first credentials, and one with others, both released.
abbrev busy : Pool
busy = (Client.get_client "first" none initial).1

abbrev idle : Pool
idle = Client.release 0 busy

abbrev busy_again : Pool
busy_again = (Client.get_client "second" none idle).1

abbrev idle_again : Pool
idle_again = Client.release 1 busy_again

run : Reach initial idle_again
unfolding Client.get_client Client.refresh Client.retire Client.ensure Client.enter Client.release
    count Client.put_count Client.pop_count is_member
run =
    Reach.next
      (Reach.next
        (Reach.next (Reach.next Reach.here (Step.gets_client initial "first" none))
          (Step.releases busy 0 (omega arith)))
        (Step.gets_client idle "second" none))
      (Step.releases busy_again 1 (omega arith))

Reach-IsSafe_example : Client.Safety.IsSafe idle_again
Reach-IsSafe_example = Reach-IsSafe run

idle_again-idle : (c : ℕ) → count c idle_again.inflight ≡ 0
unfolding Client.get_client Client.refresh Client.retire Client.ensure Client.enter Client.release
    count Client.put_count Client.pop_count is_member
idle_again-idle c = refl

quiescent_closed_example : is_member 0 idle_again.closed ≡ true
unfolding Client.get_client Client.refresh Client.retire Client.ensure Client.enter Client.release
    count Client.put_count Client.pop_count is_member
quiescent_closed_example = quiescent_closed run idle_again-idle 0 (omega arith) refl

-- The call that got client 1 still runs; client 0 is closed.
abbrev one_call : System
one_call = record { pool = busy_again; calls = 1 ∷ [] }

one_call-Run : Run one_call
unfolding Client.get_client Client.refresh Client.retire Client.ensure Client.enter Client.release
    count Client.put_count Client.pop_count is_member Client.Calls.holders Client.Calls.end_call
one_call-Run =
    then_move
      (then_move
        (then_move begin (starts (record { pool = initial; calls = [] }) "first" none 0 busy refl))
        (ends (record { pool = busy; calls = 0 ∷ [] }) 0 (omega arith)))
      (starts (record { pool = idle; calls = [] }) "second" none 1 busy_again refl)

Run-closed_example : holders 0 one_call.calls ≡ 0
unfolding Client.get_client Client.refresh Client.retire Client.ensure Client.enter Client.release
    count Client.put_count Client.pop_count is_member
Run-closed_example = Run-closed 0 one_call-Run refl

-- A call still holds client 0 while another gets one with other credentials.
abbrev crossing : Pool
crossing = (Client.get_client "second" none busy).1

crossing-Run : Run (record { pool = crossing; calls = 1 ∷ 0 ∷ [] })
unfolding Client.get_client Client.refresh Client.retire Client.ensure Client.enter count
    Client.put_count is_member
crossing-Run =
    then_move
      (then_move begin (starts (record { pool = initial; calls = [] }) "first" none 0 busy refl))
      (starts (record { pool = busy; calls = 0 ∷ [] }) "second" none 1 crossing refl)
