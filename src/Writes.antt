-- ===== src/Writes.antt =====
-- _provider.py: `on_memory_write`, the ordered write queue and `_write_worker`. The agent's thread and
-- the worker take turns: one step submits an event, puts the `None` that ends the worker, takes what is
-- first in the queue, or handles what was taken.
pub mod Ordered
pub mod Counted
pub mod Guarded
use hermes_hyperspacedb_prov.Prelude.{
  ℕ, ◌+◌, ◌-◌, String, Bool, true, false, not, ◌&&◌, ◌||◌, Option, none, some, List, [], ◌∷◌, ◌++◌,
  ltb, leb, eqb, ◌==◌, if◌then◌else◌,
}
use hermes_hyperspacedb_prov.Prelude.Lists.{length}
use hermes_hyperspacedb_prov.Text
use hermes_hyperspacedb_prov.Value.{Fields}
use hermes_hyperspacedb_prov.Errors.{Exn, Result, ok, err, ProviderError, classify, code_text}
use hermes_hyperspacedb_prov.World.{Env}
use hermes_hyperspacedb_prov.Exec.{Exec, pure, gets, modify, ◌>>=◌, ◌>>◌, attempt}
use hermes_hyperspacedb_prov.Ledger
use hermes_hyperspacedb_prov.Ledger.{Ledger}
use hermes_hyperspacedb_prov.Ownership.{text_or}
use hermes_hyperspacedb_prov.Provider.{
  Provider, Context, MemoryEvent, mark_error, utc_now, put_ledger,
}
use hermes_hyperspacedb_prov.Mutation.Event.{apply_memory_event}
use hermes_hyperspacedb_prov.Tools.Batch.{is_action}

-- `_write_queue.put_nowait(item)` where the queue is not full
unfoldable pub put_item : Option MemoryEvent → Context → Context
put_item item c = record c { queue = c.queue ++ item ∷ []; unfinished = c.unfinished + 1 }

abbrev pub is_full : Context → Bool
is_full c = leb c.queue_size (length c.queue)

-- Whether `on_memory_write` does anything with the event.
unfoldable pub is_mirrored : Context → MemoryEvent → Bool
unfolding is_action
is_mirrored c e =
    c.writes_enabled
    && c.auto_store
    && is_action e.action
    && not ((e.action == "add" || e.action == "replace") && Text.is_empty (Text.strip e.content))

-- `task_done`
unfoldable pub task_done : Context → Context
task_done c = record c { unfinished = c.unfinished - 1 }

module _ (env : Env) where
  -- `record_failure` where there is a ledger, else one more failed write
  unfoldable pub fail_write : MemoryEvent → String → String → Provider → Provider
  fail_write e code error p = elim p.ledger [
    | none ↦ record p { failed_writes = p.failed_writes + 1 }
    | some l ↦ record p {
      ledger = some (
          Ledger.record_failure p.profile_scope e.action e.target e.content
            (text_or env "old_text" "" e.metadata) code error (env.utc_now p.ticks) l);
      ticks = p.ticks + 1;
    }
  ]

  -- `on_memory_write` past its first tests, by whether the provider is shut down and the queue full
  unfoldable pub accept_write : Bool → Bool → MemoryEvent → Provider → Provider
  unfolding put_item fail_write
  accept_write true full e p = record p { failed_writes = p.failed_writes + 1 }
  accept_write false true e p = fail_write e "WRITE_QUEUE_FULL" "Ordered write queue is full" p
  accept_write false false e p = record p { context = put_item (some e) p.context }

  -- `on_memory_write`
  unfoldable pub on_memory_write : MemoryEvent → Provider → Provider
  unfolding is_mirrored accept_write
  on_memory_write e p =
      if is_mirrored p.context e then accept_write p.shutdown (is_full p.context) e p else p

  -- The `except` branch of the worker.
  unfoldable pub settle_write : MemoryEvent → Result (Unit {0}) → Provider → Provider
  unfolding mark_error fail_write
  settle_write e (ok u) p = p
  settle_write e (err x) p =
      let error = classify x in
      fail_write e (code_text error.code) error.message (mark_error env error p)

  -- The worker's `try` statement, for an event.
  unfoldable pub handle_write : MemoryEvent → Provider → Provider
  unfolding settle_write task_done
  handle_write e p =
      let (r, p') = apply_memory_event env e.action e.target e.content e.metadata p in
      let settled = settle_write e r p' in record settled { context = task_done settled.context }

-- The provider with its worker: what the worker has in hand, and, for the statements, all the items
-- that the queue accepted and all that the worker took, in order.
pub record Writer : Type 0 where
  pub provider : Provider
  pub in_hand : Option MemoryEvent
  pub accepted : List (Option MemoryEvent)
  pub taken : List (Option MemoryEvent)

-- One turn of a thread.
pub data Turn : Type 0 where
  submit : MemoryEvent → Turn
  put_end take_item handle_item : Turn

-- Whether the queue accepts the event.
unfoldable pub is_accepted : Context → MemoryEvent → Bool
unfolding is_mirrored
is_accepted c e = is_mirrored c e && not c.shutdown && not (is_full c)

module _ (env : Env) where
  unfoldable pub submit_turn : MemoryEvent → Writer → Writer
  unfolding on_memory_write is_accepted
  submit_turn e w = record w {
    provider = on_memory_write env e w.provider;
    accepted = if is_accepted w.provider.context e then w.accepted ++ some e ∷ [] else w.accepted;
  }

  -- `put_nowait(None)`, and `pass` where the queue is full
  unfoldable pub end_turn : Writer → Writer
  unfolding put_item
  end_turn w = if is_full w.provider.context then w else record w {
    provider = record w.provider { context = put_item none w.provider.context };
    accepted = w.accepted ++ none ∷ [];
  }

  -- `get`; `None` ends the worker, and so does an empty queue once `_stop_event` is set.
  unfoldable pub take_first : List (Option MemoryEvent) → Writer → Writer
  unfolding task_done
  take_first [] w = record w {
    provider = record w.provider {
      context = record w.provider.context {
        worker_alive = if w.provider.stop then false else w.provider.worker_alive;
      };
    };
  }
  take_first (none ∷ rest) w = record w {
    provider = record w.provider {
      context = task_done (record w.provider.context { queue = rest; worker_alive = false });
    };
    taken = w.taken ++ none ∷ [];
  }
  take_first (some e ∷ rest) w = record w {
    provider = record w.provider { context = record w.provider.context { queue = rest } };
    in_hand = some e;
    taken = w.taken ++ some e ∷ [];
  }

  -- The worker takes an item only once it has handled the one before.
  unfoldable pub take_turn : Writer → Writer
  unfolding take_first
  take_turn w = elim w.in_hand [
    | some e ↦ w
    | none ↦ if w.provider.worker_alive then take_first w.provider.queue w else w
  ]

  unfoldable pub handle_turn : Writer → Writer
  unfolding handle_write
  handle_turn w = elim w.in_hand [
    | none ↦ w
    | some e ↦ record w { provider = handle_write env e w.provider; in_hand = none }
  ]

  unfoldable pub turn : Turn → Writer → Writer
  unfolding submit_turn end_turn take_turn handle_turn
  turn (submit e) w = submit_turn e w
  turn put_end w = end_turn w
  turn take_item w = take_turn w
  turn handle_item w = handle_turn w

  unfoldable pub turns : List Turn → Writer → Writer
  unfolding turn
  turns [] w = w
  turns (t ∷ ts) w = turns ts (turn t w)

-- What `flush_writes` returns once it has waited.
abbrev pub is_flushed : Provider → Bool
is_flushed p = eqb p.unfinished 0
