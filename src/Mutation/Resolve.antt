-- ===== src/Mutation/Resolve.antt =====
-- _provider.py: `_resolve_old` and `_resolve_legacy_remote`, how the record to replace or to remove
-- is found.
use hermes_hyperspacedb_prov.Prelude.{
  ℕ, zero, suc, ◌+◌, ◌-◌, min, String, Bool, true, false, not, ◌||◌, Option, none, some, List, [],
  ◌∷◌, leb, eqb, ◌==◌, is_some, if◌then◌else◌,
}
use hermes_hyperspacedb_prov.Text
use hermes_hyperspacedb_prov.Value.{Value, null, get, as_dict, as_list}
use hermes_hyperspacedb_prov.Value.Numbers.{ℤ, pos, negsuc}
use hermes_hyperspacedb_prov.Content.{metadata, extract_content}
use hermes_hyperspacedb_prov.Errors.{
  fail, other, configuration_error, malformed_result, mutation_conflict,
}
use hermes_hyperspacedb_prov.World.{Env, scroll}
use hermes_hyperspacedb_prov.Exec.{Exec, pure, raise, gets, ◌>>=◌, ◌>>◌, raise_if, for_each}
use hermes_hyperspacedb_prov.Config.{Config}
use hermes_hyperspacedb_prov.Ledger
use hermes_hyperspacedb_prov.Ledger.{Ledger}
use hermes_hyperspacedb_prov.Ledger.Tables.{LedgerRecord, active}
use hermes_hyperspacedb_prov.Ownership.{text_or, logical_digest}
use hermes_hyperspacedb_prov.Provider.{Provider, call, utc_now, the_ledger}
use hermes_hyperspacedb_prov.Retrieval.{Hit, search_records}
use hermes_hyperspacedb_prov.Mutation.{upsert_record, new_record}

-- `matches`, a dictionary from point ids to records
abbrev pub Matches : Type 0
Matches = List (ℕ × LedgerRecord)

unfoldable pub put_match : ℕ → LedgerRecord → Matches → Matches
put_match i r [] = (i, r) ∷ []
put_match i r ((j, q) ∷ m) = if eqb j i then (i, r) ∷ m else (j, q) ∷ put_match i r m

-- `list(matches.values())`
unfoldable pub match_values : Matches → List LedgerRecord
match_values [] = []
match_values ((i, r) ∷ m) = r ∷ match_values m

unfoldable pub is_legacy_source : String → Bool
is_legacy_source s = s == "hermes-builtin-memory" || s == "hermes_builtin_memory"

-- `_legacy_target_matches`
unfoldable pub legacy_target_matches : String → String → Bool
legacy_target_matches meta_target target =
    if target == "memory"
    then meta_target == "memory" || meta_target == "agent_memory"
    else if target == "user"
    then meta_target == "user" || meta_target == "user_profile"
    else meta_target == target

abbrev is_none : Value → Bool
is_none null = true
is_none v = false

-- `int(raw_id)`; the backend's ids are uint32, so a negative one is refused like a text.
abbrev pub id_of : Option ℤ → Exec Provider ℕ
id_of (some (pos n)) = pure n
id_of (some (negsuc n)) = raise (other "ValueError" "" "invalid literal for int()")
id_of none = raise (other "ValueError" "" "invalid literal for int()")

module _ (env : Env) where
  unfoldable pub point_id : Value → Exec Provider ℕ
  point_id v = id_of (env.to_int v)

  -- The record of a legacy point.
  unfoldable pub legacy_record : Config → String → String → ℕ → Exec Provider LedgerRecord
  legacy_record c target content i = do
    now ← utc_now env
    pure (
        new_record env
          (logical_digest env c.collection c.profile_scope target "hermes-builtin-memory" content) i
          c.profile_scope target "hermes-builtin-memory" content active now)

  -- `matches[int(raw_id)] = LedgerRecord(...)`
  unfoldable pub add_match : Config → String → String → Value → Matches → Exec Provider Matches
  unfolding point_id legacy_record
  add_match c target content raw_id m = do
    i ← point_id raw_id
    r ← legacy_record c target content i
    pure (put_match i r m)

  -- The loop over the search results.
  unfoldable pub match_hits : Config → String → String → List Hit → Matches → Exec Provider Matches
  unfolding add_match
  match_hits c target old_text [] m = pure m
  match_hits c target old_text (h ∷ hs) m =
      if not (is_legacy_source h.source)
        || not (legacy_target_matches h.target target)
        || not (Text.contains old_text h.content)
        || is_none h.id
      then match_hits c target old_text hs m
      else do m' ← add_match c target h.content h.id m; match_hits c target old_text hs m'

  -- The loop over a page of raw points.
  unfoldable pub match_page :
      Config → String → String → List Value → Matches → Exec Provider Matches
  unfolding add_match
  match_page c target old_text [] m = pure m
  match_page c target old_text (raw ∷ rest) m = elim (as_dict raw) [
    | none ↦ match_page c target old_text rest m
    | some fs ↦
        let meta = metadata raw in
        let content = extract_content raw in
        if not (is_legacy_source (text_or env "source" "" meta))
          || not (legacy_target_matches (text_or env "target" "" meta) target)
          || not (Text.contains old_text content)
          || is_none (get "id" fs)
        then match_page c target old_text rest m
        else do
          m' ← add_match c target content (get "id" fs) m
          match_page c target old_text rest m'
  ]

  unfoldable pub page_reply : Value → Exec Provider (List Value)
  page_reply v = elim (as_list v) [
    | none ↦ raise (fail malformed_result "scroll returned a non-list response")
    | some vs ↦ pure vs
  ]

  -- `for offset in range(0, limit, 200)`; with as many rounds as the limit the offset passes it.
  unfoldable pub scan_pages : ℕ → ℕ → String → String → Matches → Exec Provider Matches
  unfolding match_page page_reply
  scan_pages zero offset target old_text m = pure m
  scan_pages (suc rounds) offset target old_text m = do
    c ← gets (λ p. p.config)
    if leb c.legacy_scan_limit offset then pure m else do
      reply ← call env (scroll (min 200 (c.legacy_scan_limit - offset)) offset c.collection)
      page ← page_reply reply
      elim page [
        | [] ↦ pure m
        | raw ∷ rest ↦ do
          m' ← match_page c target old_text (raw ∷ rest) m
          scan_pages rounds (offset + 200) target old_text m'
      ]

  -- `_resolve_legacy_remote`
  unfoldable pub resolve_legacy_remote : String → String → Exec Provider (List LedgerRecord)
  unfolding match_hits scan_pages
  resolve_legacy_remote target old_text = do
    c ← gets (λ p. p.config)
    hits ← search_records env old_text (min 50 c.max_search_results) "standard" ""
    found ← match_hits c target old_text hits []
    elim found [
      | m ∷ ms ↦ pure (match_values (m ∷ ms))
      | [] ↦ do
        scanned ← scan_pages c.legacy_scan_limit 0 target old_text []
        pure (match_values scanned)
    ]

  -- The one match that is required.
  unfoldable pub the_match : List LedgerRecord → Exec Provider LedgerRecord
  the_match (r ∷ []) = pure r
  the_match rs = raise (fail mutation_conflict "old_text did not resolve to exactly one record")

  -- The matches of the ledger, or else those of the backend, which are entered into the ledger.
  unfoldable pub old_matches : String → String → Exec Provider (List LedgerRecord)
  unfolding resolve_legacy_remote
  old_matches target old_text = do
    l ← the_ledger
    c ← gets (λ p. p.config)
    elim (Ledger.resolve c.profile_scope target old_text l) [
      | r ∷ rs ↦ pure (r ∷ rs)
      | [] ↦ do
        legacy ← resolve_legacy_remote target old_text
        for_each legacy upsert_record
        pure legacy
    ]

  -- `_resolve_old`
  unfoldable pub resolve_old : String → String → Exec Provider LedgerRecord
  unfolding the_match old_matches
  resolve_old target old_text = do
    initialized ← gets (λ p. is_some p.ledger)
    raise_if (not initialized) (fail configuration_error "Provider is not initialized")
    raise_if (Text.is_empty old_text)
        (fail mutation_conflict "old_text is required for replace/remove")
    matches ← old_matches target old_text
    the_match matches
