-- ===== src/Writes/Ordered.antt =====
-- _provider.py: what holds of the provider and its worker, whatever turns the threads take.
use hermes_hyperspacedb_prov.Prelude.{
  ℕ, suc, ◌+◌, ◌≤◌, ◌≡◌, refl, sym, ap, ◌∙◌, Bool, true, false, Option, none, some, List, [], ◌∷◌,
  ◌++◌, inl, inr, arith, if◌then◌else◌, not, ◌&&◌, Bool-cases, Option-cases,
}
use hermes_hyperspacedb_prov.Prelude.Lists.{length, length-append}
use mathlib.Core.List.{append_assoc}
use hermes_hyperspacedb_prov.World.{Env}
use hermes_hyperspacedb_prov.Provider.{Provider, Context, MemoryEvent}
use hermes_hyperspacedb_prov.Mutation.Safety.{IsSafe}
use hermes_hyperspacedb_prov.Mutation.DeleteGuarded.{apply_memory_event-IsSafe}
use hermes_hyperspacedb_prov.Writes.Guarded.{with_context, accept_write-IsSafe, settle-IsSafe}
use hermes_hyperspacedb_prov.Writes.Counted.{fail_write-context}
use hermes_hyperspacedb_prov.Writes.{
  put_item, is_full, is_mirrored, is_accepted, task_done, accept_write, on_memory_write,
  handle_write, Writer, Turn, submit, put_end, take_item, handle_item, submit_turn, end_turn,
  take_first, take_turn, handle_turn, turn, turns,
}

abbrev pub in_hand_count : Option MemoryEvent → ℕ
in_hand_count none = 0
in_hand_count (some e) = 1

-- The accounts of the queue: what it accepted is what the worker took and what waits, in that order;
-- `unfinished_tasks` counts what waits and what is in hand; and no more waits than the queue may hold.
pub record IsOrdered (env : Env) (w : Writer) : Type 0 where
  pub safe : IsSafe env w.provider.context w.provider
  pub in_order : w.accepted ≡ w.taken ++ w.provider.queue
  pub pending : w.provider.unfinished ≡ length w.provider.queue + in_hand_count w.in_hand
  pub bounded : length w.provider.queue ≤ w.provider.queue_size

module _ (env : Env) where
  same_context-IsOrdered :
      (w : Writer) (p : Provider)
      → IsOrdered env w
      → p.context ≡ w.provider.context
      → IsSafe env p.context p
      → IsOrdered env (record w { provider = p })
  same_context-IsOrdered w p i same k = record {
    safe = k;
    in_order = rw same i.in_order;
    pending = rw same i.pending;
    bounded = rw same i.bounded;
  }

  -- An event that `on_memory_write` does not ignore, by whether the provider is shut down and the queue
  -- full.
  placed-IsOrdered :
      (shut full : Bool) (e : MemoryEvent) (w : Writer)
      → IsOrdered env w
      → (full ≡ false → suc (length w.provider.queue) ≤ w.provider.queue_size)
      → IsOrdered env (record w {
        provider = accept_write env shut full e w.provider;
        accepted = if not shut && not full then w.accepted ++ some e ∷ [] else w.accepted;
      })
  unfolding accept_write put_item
  placed-IsOrdered true full e w i b = record {
    safe = accept_write-IsSafe env true full e w.provider i.safe;
    in_order = i.in_order;
    pending = i.pending;
    bounded = i.bounded;
  }
  placed-IsOrdered false true e w i b =
      same_context-IsOrdered w _ i (fail_write-context env e _ _ w.provider)
        (accept_write-IsSafe env false true e w.provider i.safe)
  placed-IsOrdered false false e w i b = record {
    safe = accept_write-IsSafe env false false e w.provider i.safe;
    in_order =
        ap (λ l. l ++ some e ∷ []) i.in_order ∙ append_assoc w.taken w.provider.queue (some e ∷ []);
    pending = omega (arith, length-append w.provider.queue (some e ∷ []), i.pending);
    bounded = omega (arith, length-append w.provider.queue (some e ∷ []), b refl);
  }

  not_full : (c : Context) → is_full c ≡ false → suc (length c.queue) ≤ c.queue_size
  not_full c h = ground arith

  submit-IsOrdered :
      (e : MemoryEvent) (w : Writer) → IsOrdered env w → IsOrdered env (submit_turn env e w)
  unfolding submit_turn on_memory_write is_accepted
  submit-IsOrdered e w i = elim (Bool-cases (is_mirrored w.provider.context e)) [
    | inl m ↦
        rw (m, submit_turn, on_memory_write, is_accepted)
          (placed-IsOrdered w.provider.shutdown (is_full w.provider.context) e w i
            (not_full w.provider.context))
    | inr n ↦ rw (n, submit_turn, on_memory_write, is_accepted) i
  ]

  end-IsOrdered : (w : Writer) → IsOrdered env w → IsOrdered env (end_turn env w)
  unfolding end_turn put_item
  end-IsOrdered w i = elim (Bool-cases (is_full w.provider.context)) [
    | inl f ↦ rw (f, end_turn) i
    | inr f ↦
        rw (f, end_turn)
          (record {
            safe = with_context env w.provider.context _ w.provider refl i.safe;
            in_order =
                ap (λ l. l ++ none ∷ []) i.in_order
                ∙ append_assoc w.taken w.provider.queue (none ∷ []);
            pending = omega (arith, length-append w.provider.queue (none ∷ []), i.pending);
            bounded =
                omega (
                  arith,
                  length-append w.provider.queue (none ∷ []),
                  not_full w.provider.context f,
                );
          })
  ]

  first-IsOrdered :
      (l : List (Option MemoryEvent)) (w : Writer)
      → IsOrdered env w
      → w.in_hand ≡ none
      → w.provider.queue ≡ l
      → IsOrdered env (take_first env l w)
  unfolding take_first task_done
  first-IsOrdered [] w i free h = record {
    safe = with_context env w.provider.context _ w.provider refl i.safe;
    in_order = i.in_order;
    pending = i.pending;
    bounded = i.bounded;
  }
  first-IsOrdered (none ∷ rest) w i free h = record {
    safe = with_context env w.provider.context _ w.provider refl i.safe;
    in_order = i.in_order ∙ ap (λ l. w.taken ++ l) h ∙ sym (append_assoc w.taken (none ∷ []) rest);
    pending = omega (arith, i.pending, ap length h);
    bounded = omega (arith, i.bounded, ap length h);
  }
  first-IsOrdered (some e ∷ rest) w i free h = record {
    safe = with_context env w.provider.context _ w.provider refl i.safe;
    in_order =
        i.in_order ∙ ap (λ l. w.taken ++ l) h ∙ sym (append_assoc w.taken (some e ∷ []) rest);
    pending = omega (arith, i.pending, ap length h, ap in_hand_count free);
    bounded = omega (arith, i.bounded, ap length h);
  }

  awake-IsOrdered :
      (awake : Bool) (w : Writer)
      → IsOrdered env w
      → w.in_hand ≡ none
      → IsOrdered env (if awake then take_first env w.provider.queue w else w)
  awake-IsOrdered true w i free = first-IsOrdered w.provider.queue w i free refl
  awake-IsOrdered false w i free = i

  take-IsOrdered : (w : Writer) → IsOrdered env w → IsOrdered env (take_turn env w)
  unfolding take_turn
  take-IsOrdered w i = elim (Option-cases w.in_hand) [
    | inr (e, h) ↦ rw (h, take_turn) i
    | inl free ↦ rw (free, take_turn) (awake-IsOrdered w.provider.worker_alive w i free)
  ]

  handled-IsOrdered :
      (w : Writer) (p : Provider)
      → IsOrdered env w
      → in_hand_count w.in_hand ≡ 1
      → IsSafe env w.provider.context p
      → IsOrdered env
          (record w { provider = record p { context = task_done p.context }; in_hand = none })
  unfolding task_done
  handled-IsOrdered w p i one k = record {
    safe = with_context env w.provider.context _ p (ap (λ c. c.config) (sym k.same_context)) k;
    in_order = rw k.same_context i.in_order;
    pending = omega (
      arith,
      i.pending,
      one,
      ap (λ c. c.unfinished) k.same_context,
      ap (λ c. length c.queue) k.same_context,
    );
    bounded = rw k.same_context i.bounded;
  }

  handle-IsOrdered : (w : Writer) → IsOrdered env w → IsOrdered env (handle_turn env w)
  unfolding handle_turn handle_write
  handle-IsOrdered w i = elim (Option-cases w.in_hand) [
    | inl h ↦ rw (h, handle_turn) i
    | inr (e, h) ↦
        rw (h, handle_turn)
          (handled-IsOrdered w _ i (ap in_hand_count h) (
            settle-IsSafe env w.provider.context e _ _ (
              apply_memory_event-IsSafe env w.provider.context e.action e.target e.content
                e.metadata w.provider i.safe)))
  ]

  turn-IsOrdered : (t : Turn) (w : Writer) → IsOrdered env w → IsOrdered env (turn env t w)
  unfolding turn
  turn-IsOrdered (submit e) w i = submit-IsOrdered e w i
  turn-IsOrdered put_end w i = end-IsOrdered w i
  turn-IsOrdered take_item w i = take-IsOrdered w i
  turn-IsOrdered handle_item w i = handle-IsOrdered w i

-- Whatever turns the agent's thread and the worker take, in whatever order and however each mutation
-- ends: the items that the queue has accepted are those that the worker has taken followed by those
-- that wait, in the same order; `unfinished_tasks` is the number that wait, and one more while the
-- worker has an event in hand; no more wait than the queue may hold; and the invariant of the
-- mutations holds.
pub turns-IsOrdered :
    (env : Env) (ts : List Turn) (w : Writer) → IsOrdered env w → IsOrdered env (turns env ts w)
unfolding turns
turns-IsOrdered env [] w i = i
turns-IsOrdered env (t ∷ ts) w i = turns-IsOrdered env ts (turn env t w) (turn-IsOrdered env t w i)
