-- ===== src/Retrieval.antt =====
-- _retrieval.py: the search, and the provider's own fresh records beside it.
pub mod Shown
use Prim.Native.Nat.{Ordering}
use Prim.Native.String.{compare}
use hermes_hyperspacedb_prov.Prelude.{
  ℕ, String, Bool, true, false, not, ◌&&◌, ◌||◌, Option, none, some, List, [], ◌∷◌, ◌++◌, ltb, leb,
  ◌==◌, if◌then◌else◌,
}
use hermes_hyperspacedb_prov.Prelude.Lists.{take, any}
use hermes_hyperspacedb_prov.Text
use hermes_hyperspacedb_prov.Value.{Value, Fields, int, get, as_dict, as_list, or_else}
use hermes_hyperspacedb_prov.Value.Numbers.{Float, inf, leb_Float, gtb_Float, eqb_Float}
use hermes_hyperspacedb_prov.Content.{metadata, extract_content, record_distance, bounded_int}
use hermes_hyperspacedb_prov.Errors.{fail, configuration_error, malformed_result}
use hermes_hyperspacedb_prov.World.{
  Env, SearchMode, wasserstein, wave, plain, hybrid, vectorize, search,
}
use hermes_hyperspacedb_prov.Exec.{Exec, lift, pure, raise, gets, ◌>>=◌, ◌>>◌, raise_if}
use hermes_hyperspacedb_prov.Config.{Config}
use hermes_hyperspacedb_prov.Ledger
use hermes_hyperspacedb_prov.Ledger.{Ledger}
use hermes_hyperspacedb_prov.Ledger.Tables.{LedgerRecord}
use hermes_hyperspacedb_prov.Ownership.{py_str, text_or}
use hermes_hyperspacedb_prov.Provider.{Provider, call}
use hermes_hyperspacedb_prov.Provider.Contract.{require_collection_contract}
use hermes_hyperspacedb_prov.Mutation.{owner_matches, vector_reply}

-- A record of the result list.
pub record Hit : Type 0 where
  pub id : Value
  pub content : String
  pub distance : Option Float
  pub source : String
  pub trust : String
  pub target : String
  pub timestamp : String
  pub allowed_for_prefetch : Bool
  pub quarantined : Bool

-- `source in _PREFETCH_OWNED_SOURCES`
unfoldable pub is_owned_source : String → Bool
is_owned_source source = source == "hermes-builtin-memory"

-- `distance is None or distance > limit`
unfoldable pub is_too_far : Option Float → Option Float → Bool
is_too_far none distance = false
is_too_far (some limit) none = true
is_too_far (some limit) (some d) = gtb_Float d limit

-- `distance is not None and (limit is None or distance <= limit)`
unfoldable pub is_near : Option Float → Option Float → Bool
is_near limit none = false
is_near none (some d) = true
is_near (some limit) (some d) = leb_Float d limit

-- The key `(distance is None, distance or inf, str(id))`
abbrev pub key_distance : Option Float → Float
key_distance none = inf
key_distance (some d) = d

abbrev is_absent : Option Float → Bool
is_absent none = true
is_absent (some d) = false

abbrev text_less : String → String → Bool
text_less a b = elim (compare a b) [
  | Ordering.lt ↦ true
  | Ordering.gt ↦ false
  | Ordering.eq ↦ false
]

module _ (env : Env) where
  -- `key(a) < key(b)`
  unfoldable pub sorts_before : Hit → Hit → Bool
  sorts_before a b =
      if not (is_absent a.distance) && is_absent b.distance
      then true
      else if is_absent a.distance && not (is_absent b.distance)
      then false
      else if eqb_Float (key_distance a.distance) (key_distance b.distance)
      then text_less (py_str env a.id) (py_str env b.id)
      else gtb_Float (key_distance b.distance) (key_distance a.distance)

  unfoldable pub place_hit : Hit → List Hit → List Hit
  unfolding sorts_before
  place_hit h [] = h ∷ []
  place_hit h (q ∷ l) = let rest = place_hit h l in if sorts_before q h then q ∷ rest else h ∷ q ∷ l

  -- `normalized.sort(key=...)`, which is stable
  unfoldable pub sort_hits : List Hit → List Hit
  unfolding place_hit
  sort_hits [] = []
  sort_hits (h ∷ l) = place_hit h (sort_hits l)

  -- `allowed`, which raises for an unknown trust mode
  unfoldable pub allowed_remote : Config → Bool → String → Option Float → Exec Provider Bool
  allowed_remote c authenticated source distance =
      if c.trust_mode == "owned_only"
      then pure (authenticated && is_owned_source source)
      else if c.trust_mode == "annotate_all"
      then pure (is_near c.max_distance distance)
      else raise (fail configuration_error "trust_mode must be owned_only or annotate_all")

  -- `str(fs.get("ts") or fs.get("timestamp") or "")`
  abbrev pub stamp_of : Fields → String
  stamp_of fs = py_str env (or_else (get "ts" fs) (or_else (get "timestamp" fs) (Value.str "")))

  -- The record that the loop appends for a point.
  unfoldable pub remote_hit : Fields → Value → String → Option Float → Bool → Hit
  remote_hit fs raw content distance allowed =
      let meta = metadata raw in
      record {
        id = get "id" fs;
        content = content;
        distance = distance;
        source = Text.take 200 (text_or env "source" "unknown" meta);
        trust = Text.take 100 (text_or env "trust" "unknown" meta);
        target = Text.take 100 (text_or env "target" "unknown" meta);
        timestamp = Text.take 100 (stamp_of meta);
        allowed_for_prefetch = allowed;
        quarantined = env.injection (Text.take 20000 content);
      }

  -- The loop of `search_records`: what has been seen, by digest, and the records, in their order.
  unfoldable pub normalize :
      Config → List Value → List String → Exec Provider (List String × List Hit)
  unfolding remote_hit allowed_remote owner_matches
  normalize c [] seen = pure (seen, [])
  normalize c (raw ∷ rest) seen = elim (as_dict raw) [
    | none ↦ normalize c rest seen
    | some fs ↦
        let content = Text.strip (extract_content raw) in
        let digest = env.sha256 content in
        if Text.is_empty content then normalize c rest seen else do
          distance ← lift (record_distance env.to_float raw)
          if is_too_far c.max_distance distance || any (λ d. d == digest) seen
              then normalize c rest seen
              else do
                let meta = metadata raw
                authenticated ← owner_matches env raw (text_or env "_hs_digest" "" meta)
                allowed ←
                    allowed_remote c authenticated
                      (Text.take 200 (text_or env "source" "unknown" meta)) distance
                found ← normalize c rest (digest ∷ seen)
                pure (found.0, remote_hit fs raw content distance allowed ∷ found.1)
  ]

  -- `allowed` of a record of the ledger
  unfoldable pub allowed_local : Config → String → Exec Provider Bool
  allowed_local c source =
      if c.trust_mode == "owned_only"
      then pure (is_owned_source source)
      else if c.trust_mode == "annotate_all"
      then pure false
      else raise (fail configuration_error "trust_mode must be owned_only or annotate_all")

  abbrev pub or_default : String → String → String
  or_default default s = if Text.is_empty s then default else s

  unfoldable pub local_hit : LedgerRecord → String → Bool → Hit
  local_hit row content allowed =
      let source = Text.take 200 (or_default "ledger" row.source) in
      record {
        id = int row.external_id;
        content = content;
        distance = none;
        source = source;
        trust = if is_owned_source source then "owned" else "model-authored";
        target = Text.take 100 (or_default "memory" row.target);
        timestamp = Text.take 100 row.updated_at;
        allowed_for_prefetch = allowed;
        quarantined = env.injection (Text.take 20000 content);
      }

  -- The loop of `ledger_substring_records`.
  unfoldable pub add_local :
      Config → String → List LedgerRecord → List String → Exec Provider (List Hit)
  unfolding local_hit allowed_local
  add_local c needle [] seen = pure []
  add_local c needle (row ∷ rows) seen =
      let content = Text.strip row.content in
      let digest = env.sha256 content in
      if Text.is_empty content
        || not (Text.contains needle (env.casefold content))
        || any (λ d. d == digest) seen
      then add_local c needle rows seen
      else do
        allowed ← allowed_local c (Text.take 200 (or_default "ledger" row.source))
        found ← add_local c needle rows (digest ∷ seen)
        pure (local_hit row content allowed ∷ found)

  -- `ledger_substring_records`
  unfoldable pub ledger_substring_records : String → List String → ℕ → Exec Provider (List Hit)
  unfolding add_local
  ledger_substring_records query seen limit = do
    stored ← gets (λ p. p.ledger)
    c ← gets (λ p. p.config)
    let needle = env.casefold (Text.strip query)
    elim stored [
      | none ↦ pure []
      | some l ↦
          if leb limit 0 || ltb (Text.length needle) 4
          then pure []
          else add_local c needle (Ledger.active_records none (some c.profile_scope) l) seen
    ]

  -- `kwargs` of the search
  unfoldable pub search_mode : Config → String → String → SearchMode
  search_mode c mode query =
      if mode == "wasserstein"
      then wasserstein
      else if mode == "wave"
      then wave
      else if c.hybrid_search
      then hybrid query c.hybrid_alpha
      else plain

  unfoldable pub results_reply : Value → Exec Provider (List Value)
  results_reply v = elim (as_list v) [
    | none ↦ raise (fail malformed_result "Search RPC returned a non-list response")
    | some vs ↦ pure vs
  ]

  -- `bounded` of `search_records`
  abbrev pub bounded_results : Config → ℕ → ℕ
  bounded_results c limit = bounded_int (some limit) c.top_k 1 c.max_search_results

  -- `search_records`; an empty collection stands for `None`.
  unfoldable pub search_records : String → ℕ → String → String → Exec Provider (List Hit)
  unfolding normalize ledger_substring_records sort_hits search_mode results_reply vector_reply
  search_records query limit mode collection = do
    require_collection_contract env
    c ← gets (λ p. p.config)
    let selected = Text.strip (or_default c.collection collection)
    raise_if (Text.is_empty selected) (fail configuration_error "collection is required")
    raise_if (Text.is_empty (Text.strip query)) (fail configuration_error "query is required")
    let clean = Text.take c.max_query_chars (Text.strip query)
    embedded ← call env (vectorize clean c.metric)
    vector ← vector_reply env embedded
    reply ← call env (search vector (bounded_results c limit) selected (search_mode c mode clean))
    results ← results_reply reply
    found ← normalize c results []
    extras ← ledger_substring_records clean found.0 (bounded_results c limit)
    pure (take (bounded_results c limit) (sort_hits found.1 ++ extras))
