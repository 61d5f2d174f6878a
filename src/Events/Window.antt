-- ===== src/Events/Window.antt =====
-- The event buffer against an unbounded log.
use mathlib.Core.Option
use hermes_hyperspacedb_prov.Prelude.{
  ℕ, ◌+◌, ◌-◌, String, ◌≡◌, refl, ap, Option, none, some, List, [], ◌∷◌, ◌++◌, arith, inl, inr,
  Bool-cases, Option-cases, if◌then◌else◌,
}
use hermes_hyperspacedb_prov.Prelude.Lists.{length, last, length-append, length-last, last-append}
use hermes_hyperspacedb_prov.Value.{Value}
use hermes_hyperspacedb_prov.World.{Env}
use hermes_hyperspacedb_prov.Events.{
  Notice, EventKey, EventBuffer, Kind, irrelevant, foreign, unhashable, own, is_seen, kind_of,
  remember, admit, ingest_kind, ingest_event, observe,
}

-- The same events, with every admitted one kept.
pub record Log : Type 0 where
  pub admitted : List Notice
  pub filtered : ℕ
  pub seen : List EventKey

abbrev pub empty_log : Log
empty_log = record { admitted = []; filtered = 0; seen = [] }

-- The buffer of the log: the latest events that fit, and the number of those that do not.
unfoldable pub window : ℕ → Log → EventBuffer
window maxlen l = record {
  recent = last maxlen l.admitted;
  dropped = length l.admitted - maxlen;
  filtered = l.filtered;
  seen = l.seen;
}

module _ (env : Env) where
  unfoldable pub log_kind : Kind → Log → Option Log
  log_kind irrelevant l = some l
  log_kind foreign l = some (record l { filtered = l.filtered + 1 })
  log_kind unhashable l = none
  log_kind (own key notice) l =
      if is_seen env key l.seen
      then some l
      else some (record l { admitted = l.admitted ++ notice ∷ []; seen = remember env key l.seen })

  unfoldable pub observe_log : String → List Value → Log → Log
  unfolding log_kind
  observe_log scope [] l = l
  observe_log scope (event ∷ stream) l = elim (log_kind (kind_of env scope event) l) [
    | none ↦ l
    | some l' ↦ observe_log scope stream l'
  ]

  admit-window :
      (maxlen : ℕ) (key : EventKey) (notice : Notice) (l : Log)
      → admit env maxlen key notice (window maxlen l)
        ≡ window maxlen
            (record l { admitted = l.admitted ++ notice ∷ []; seen = remember env key l.seen })
  unfolding admit window
  admit-window maxlen key notice l = ground (
    arith,
    last-append maxlen l.admitted (notice ∷ []),
    length-last maxlen l.admitted,
    length-append l.admitted (notice ∷ []),
  )

  ingest-window :
      (maxlen : ℕ) (k : Kind) (l : Log)
      → ingest_kind env maxlen k (window maxlen l) ≡ Option.map (window maxlen) (log_kind k l)
  unfolding ingest_kind log_kind window
  ingest-window maxlen irrelevant l = refl
  ingest-window maxlen foreign l = refl
  ingest-window maxlen unhashable l = refl
  ingest-window maxlen (own key notice) l = elim (Bool-cases (is_seen env key l.seen)) [
    | inl e ↦ rw (e, ingest_kind, log_kind)
    | inr e ↦
        rw (e, ingest_kind, log_kind) (unfold window in ap some (admit-window maxlen key notice l))
  ]

  event-window :
      (maxlen : ℕ) (scope : String) (event : Value) (l : Log)
      → ingest_event env maxlen scope event (window maxlen l)
        ≡ Option.map (window maxlen) (log_kind (kind_of env scope event) l)
  unfolding ingest_event
  event-window maxlen scope event l = ingest-window maxlen (kind_of env scope event) l

  -- Observing any stream from a buffer that holds the window of a log gives the window of what the
  -- unbounded observer makes of the log: the buffer holds the latest admitted events, as many as fit,
  -- the dropped count is that of the others, and the filtered count and the keys are the same.
  pub observe-window :
      (maxlen : ℕ) (scope : String) (stream : List Value) (l : Log)
      → observe env maxlen scope stream (window maxlen l)
        ≡ window maxlen (observe_log scope stream l)
  unfolding observe observe_log
  observe-window maxlen scope [] l = refl
  observe-window maxlen scope (event ∷ stream) l =
      elim (Option-cases (log_kind (kind_of env scope event) l)) [
        | inl e ↦ rw (event-window maxlen scope event l, e, observe, observe_log)
        | inr (l', e) ↦
            rw (event-window maxlen scope event l, e, observe, observe_log)
              (observe-window maxlen scope stream l')
      ]
