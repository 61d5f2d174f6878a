-- ===== src/Events.antt =====
-- _provider.py: `_ingest_event` and the loop over a stream in `_event_observer_loop`. The observer
-- keeps the latest events of the provider's own points; opening and closing the stream is left out.
pub mod Window
use hermes_hyperspacedb_prov.Prelude.{
  ℕ, ◌+◌, String, Bool, true, false, not, ◌&&◌, ◌||◌, Option, none, some, List, [], ◌∷◌, ◌++◌, ltb,
  leb, ◌==◌, if◌then◌else◌,
}
use hermes_hyperspacedb_prov.Prelude.Lists.{length, last, any}
use hermes_hyperspacedb_prov.Text
use hermes_hyperspacedb_prov.Value.{Value, Fields, get, as_dict, is_text}
use hermes_hyperspacedb_prov.Content.{metadata}
use hermes_hyperspacedb_prov.World.{Env}
use hermes_hyperspacedb_prov.Ownership.{plugin_id, text_or}

-- `sanitized`
pub record Notice : Type 0 where
  pub event_type : String
  pub source : String
  pub target : String
  pub trust : String

-- `key`: the type, the logical clock and the id
pub record EventKey : Type 0 where
  pub event_type : String
  pub clock : Value
  pub id : Value

-- `_event_buffer`, `_event_dropped`, `_event_filtered` and `_event_seen`
pub record EventBuffer : Type 0 where
  pub recent : List Notice
  pub dropped : ℕ
  pub filtered : ℕ
  pub seen : List EventKey

abbrev pub empty_buffer : EventBuffer
empty_buffer = record { recent = []; dropped = 0; filtered = 0; seen = [] }

abbrev pub max_seen : ℕ
max_seen = 4096

-- What an event is, for a profile: no event of a point, one of another owner, one whose key cannot
-- be hashed, which raises a `TypeError`, or one of the provider's own with its key and what is kept.
pub data Kind : Type 0 where
  irrelevant foreign unhashable : Kind
  own : EventKey → Notice → Kind

module _ (env : Env) where
  -- `key in self._event_seen`
  unfoldable pub is_seen : EventKey → List EventKey → Bool
  is_seen key seen =
      any
        (λ k.
          k.event_type == key.event_type && env.equal k.clock key.clock && env.equal k.id key.id)
        seen

  -- `key`
  unfoldable pub event_key : Fields → Fields → EventKey
  event_key event payload = record {
    event_type = text_or env "type" "" event;
    clock = get "logical_clock" payload;
    id = get "id" payload;
  }

  -- `sanitized`
  unfoldable pub notice_of : Fields → Fields → Notice
  notice_of event meta = record {
    event_type = Text.take 64 (text_or env "type" "unknown" event);
    source = Text.take 200 (text_or env "source" "unknown" meta);
    target = Text.take 100 (text_or env "target" "unknown" meta);
    trust = Text.take 100 (text_or env "trust" "unknown" meta);
  }

  -- The tests of `_ingest_event` before the lock, and the hash of the key.
  unfoldable pub own_kind : Fields → Value → Kind
  unfolding event_key notice_of
  own_kind event payload = elim (as_dict payload) [
    | none ↦ irrelevant
    | some fields ↦
        let meta = metadata payload in
        if env.hashable (get "logical_clock" fields) && env.hashable (get "id" fields)
        then own (event_key event fields) (notice_of event meta)
        else unhashable
  ]

  unfoldable pub is_own : String → Value → Bool
  is_own scope payload =
      is_text plugin_id (get "_hs_owner" (metadata payload))
      && is_text scope (get "_hs_profile" (metadata payload))

  unfoldable pub kind_of : String → Value → Kind
  unfolding own_kind is_own
  kind_of scope event = elim (as_dict event) [
    | none ↦ irrelevant
    | some fields ↦ elim (as_dict (get "payload" fields)) [
      | none ↦ irrelevant
      | some _ ↦
          if is_own scope (get "payload" fields)
          then own_kind fields (get "payload" fields)
          else foreign
    ]
  ]

  -- What the last part of `_ingest_event` does to the set of keys.
  unfoldable pub remember : EventKey → List EventKey → List EventKey
  remember key seen = if ltb max_seen (length (key ∷ seen)) then [] else key ∷ seen

  -- The part of `_ingest_event` under the lock, for an event that has not been seen.
  unfoldable pub admit : ℕ → EventKey → Notice → EventBuffer → EventBuffer
  unfolding remember
  admit maxlen key notice b = record b {
    recent = last maxlen (b.recent ++ notice ∷ []);
    dropped = if leb maxlen (length b.recent) then b.dropped + 1 else b.dropped;
    seen = remember key b.seen;
  }

  -- `_ingest_event`; `none` where it raises.
  unfoldable pub ingest_kind : ℕ → Kind → EventBuffer → Option EventBuffer
  unfolding is_seen admit
  ingest_kind maxlen irrelevant b = some b
  ingest_kind maxlen foreign b = some (record b { filtered = b.filtered + 1 })
  ingest_kind maxlen unhashable b = none
  ingest_kind maxlen (own key notice) b =
      if is_seen key b.seen then some b else some (admit maxlen key notice b)

  unfoldable pub ingest_event : ℕ → String → Value → EventBuffer → Option EventBuffer
  unfolding kind_of ingest_kind
  ingest_event maxlen scope event b = ingest_kind maxlen (kind_of scope event) b

  -- `for event in stream: self._ingest_event(event)`, which an exception ends.
  unfoldable pub observe : ℕ → String → List Value → EventBuffer → EventBuffer
  unfolding ingest_event
  observe maxlen scope [] b = b
  observe maxlen scope (event ∷ stream) b = elim (ingest_event maxlen scope event b) [
    | none ↦ b
    | some b' ↦ observe maxlen scope stream b'
  ]
