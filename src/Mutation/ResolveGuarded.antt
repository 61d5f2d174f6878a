-- ===== src/Mutation/ResolveGuarded.antt =====
-- _retrieval.py and _provider.py: searching, and resolving the record of an event, under the
-- invariant of `Mutation/Safety`.
use hermes_hyperspacedb_prov.Prelude.{
  ℕ, zero, suc, ◌+◌, String, Bool, Option, none, some, List, [], ◌∷◌,
}
use hermes_hyperspacedb_prov.Value.{Value, as_list, as_dict}
use hermes_hyperspacedb_prov.Value.Numbers.{ℤ, pos, negsuc, Float}
use hermes_hyperspacedb_prov.World.{Env}
use hermes_hyperspacedb_prov.Exec.Rules.{
  Preserves, Preserves-bind, Preserves-option, Preserves-list, Preserves-pure, Preserves-if,
}
use hermes_hyperspacedb_prov.Config.{Config}
use hermes_hyperspacedb_prov.Ledger
use hermes_hyperspacedb_prov.Ledger.{Ledger}
use hermes_hyperspacedb_prov.Ledger.Tables.{LedgerRecord}
use hermes_hyperspacedb_prov.Retrieval.{
  Hit, allowed_remote, allowed_local, normalize, add_local, ledger_substring_records, results_reply,
  search_records,
}
use hermes_hyperspacedb_prov.Mutation.Resolve.{
  id_of, Matches, point_id, legacy_record, add_match, match_hits, match_page, page_reply,
  scan_pages, resolve_legacy_remote, the_match, old_matches, resolve_old,
}
use hermes_hyperspacedb_prov.Provider.{Context}
use hermes_hyperspacedb_prov.Mutation.Safety.{IsSafe, ledger-IsSafe, safe_rules}
use hermes_hyperspacedb_prov.Mutation.ContractGuarded.{require_collection_contract-IsSafe}
use hermes_hyperspacedb_prov.Mutation.Guarded.{owner_matches-IsSafe, vector_reply-IsSafe}

module _ {env : Env} {c : Context} where
  allowed_remote-IsSafe :
      (k : Config) (b : Bool) (s : String) (d : Option Float)
      → Preserves (IsSafe env c) (allowed_remote env k b s d)
  unfolding allowed_remote
  allowed_remote-IsSafe k b s d = search safe_rules

  normalize-IsSafe :
      (k : Config) (vs : List Value) (seen : List String)
      → Preserves (IsSafe env c) (normalize env k vs seen)
  unfolding normalize
  normalize-IsSafe k [] seen = Preserves-pure _
  normalize-IsSafe k (raw ∷ rest) seen =
      Preserves-option (as_dict raw) _ _ (normalize-IsSafe k rest seen) (λ fs.
        Preserves-if _ _ _ (normalize-IsSafe k rest seen) (
          Preserves-bind _ _ (search safe_rules) (λ d.
            Preserves-if _ _ _ (normalize-IsSafe k rest seen) (
              Preserves-bind _ _ (owner_matches-IsSafe raw _) (λ a.
                Preserves-bind _ _ (allowed_remote-IsSafe k a _ _) (λ b.
                  Preserves-bind _ _ (normalize-IsSafe k rest _) (λ found. Preserves-pure _)))))))

  allowed_local-IsSafe :
      (k : Config) (s : String) → Preserves (IsSafe env c) (allowed_local env k s)
  unfolding allowed_local
  allowed_local-IsSafe k s = search safe_rules

  add_local-IsSafe :
      (k : Config) (needle : String) (rows : List LedgerRecord) (seen : List String)
      → Preserves (IsSafe env c) (add_local env k needle rows seen)
  unfolding add_local
  add_local-IsSafe k needle [] seen = Preserves-pure _
  add_local-IsSafe k needle (row ∷ rows) seen =
      Preserves-if _ _ _ (add_local-IsSafe k needle rows seen) (
        Preserves-bind _ _ (allowed_local-IsSafe k _)
          (λ a. Preserves-bind _ _ (add_local-IsSafe k needle rows _) (λ found. Preserves-pure _)))

  results_reply-IsSafe : (v : Value) → Preserves (IsSafe env c) (results_reply env v)
  unfolding results_reply
  results_reply-IsSafe v =
      Preserves-option (as_list v) _ _ (search safe_rules) (λ vs. Preserves-pure vs)

  id_of-IsSafe : (o : Option ℤ) → Preserves (IsSafe env c) (id_of o)
  id_of-IsSafe none = search safe_rules
  id_of-IsSafe (some (pos n)) = search safe_rules
  id_of-IsSafe (some (negsuc n)) = search safe_rules

  point_id-IsSafe : (v : Value) → Preserves (IsSafe env c) (point_id env v)
  unfolding point_id
  point_id-IsSafe v = id_of-IsSafe (env.to_int v)

  legacy_record-IsSafe :
      (k : Config) (target content : String) (i : ℕ)
      → Preserves (IsSafe env c) (legacy_record env k target content i)
  unfolding legacy_record
  legacy_record-IsSafe k target content i = search safe_rules

  the_match-IsSafe : (rs : List LedgerRecord) → Preserves (IsSafe env c) (the_match env rs)
  unfolding the_match
  the_match-IsSafe [] = search safe_rules
  the_match-IsSafe (r ∷ []) = Preserves-pure r
  the_match-IsSafe (r ∷ q ∷ rs) = search safe_rules

  ledger_substring_records-IsSafe :
      (query : String) (seen : List String) (limit : ℕ)
      → Preserves (IsSafe env c) (ledger_substring_records env query seen limit)
  unfolding ledger_substring_records
  ledger_substring_records-IsSafe query seen limit =
      Preserves-bind _ _ (search safe_rules) (λ stored. Preserves-bind _ _ (search safe_rules) (λ k.
        Preserves-option stored _ _ (Preserves-pure [])
          (λ l. Preserves-if _ _ _ (Preserves-pure []) (add_local-IsSafe k _ _ seen))))

  pub search_records-IsSafe :
      (query : String) (limit : ℕ) (mode collection : String)
      → Preserves (IsSafe env c) (search_records env query limit mode collection)
  unfolding search_records
  search_records-IsSafe query limit mode collection =
      search
        (
          safe_rules, require_collection_contract-IsSafe, vector_reply-IsSafe, results_reply-IsSafe,
          normalize-IsSafe, ledger_substring_records-IsSafe,
        )
        depth 24

  add_match-IsSafe :
      (k : Config) (target content : String) (v : Value) (m : Matches)
      → Preserves (IsSafe env c) (add_match env k target content v m)
  unfolding add_match
  add_match-IsSafe k target content v m = search (safe_rules, point_id-IsSafe, legacy_record-IsSafe)

  match_hits-IsSafe :
      (k : Config) (target old : String) (hs : List Hit) (m : Matches)
      → Preserves (IsSafe env c) (match_hits env k target old hs m)
  unfolding match_hits
  match_hits-IsSafe k target old [] m = Preserves-pure m
  match_hits-IsSafe k target old (h ∷ hs) m =
      Preserves-if _ _ _ (match_hits-IsSafe k target old hs m) (
        Preserves-bind _ _ (add_match-IsSafe k target _ _ m)
          (λ m'. match_hits-IsSafe k target old hs m'))

  match_page-IsSafe :
      (k : Config) (target old : String) (vs : List Value) (m : Matches)
      → Preserves (IsSafe env c) (match_page env k target old vs m)
  unfolding match_page
  match_page-IsSafe k target old [] m = Preserves-pure m
  match_page-IsSafe k target old (raw ∷ rest) m =
      Preserves-option (as_dict raw) _ _ (match_page-IsSafe k target old rest m) (λ fs.
        Preserves-if _ _ _ (match_page-IsSafe k target old rest m) (
          Preserves-bind _ _ (add_match-IsSafe k target _ _ m)
            (λ m'. match_page-IsSafe k target old rest m')))

  page_reply-IsSafe : (v : Value) → Preserves (IsSafe env c) (page_reply env v)
  unfolding page_reply
  page_reply-IsSafe v =
      Preserves-option (as_list v) _ _ (search safe_rules) (λ vs. Preserves-pure vs)

  scan_pages-IsSafe :
      (n offset : ℕ) (target old : String) (m : Matches)
      → Preserves (IsSafe env c) (scan_pages env n offset target old m)
  unfolding scan_pages
  scan_pages-IsSafe zero offset target old m = Preserves-pure m
  scan_pages-IsSafe (suc n) offset target old m = Preserves-bind _ _ (search safe_rules) (λ k.
      Preserves-if _ _ _ (Preserves-pure m) (
        Preserves-bind _ _ (search safe_rules) (λ reply.
          Preserves-bind _ _ (page_reply-IsSafe reply) (λ page.
            Preserves-list page _ _ (Preserves-pure m) (λ raw rest.
              Preserves-bind _ _ (match_page-IsSafe k target old (raw ∷ rest) m)
                (λ m'. scan_pages-IsSafe n (offset + 200) target old m'))))))

  resolve_legacy_remote-IsSafe :
      (target old : String) → Preserves (IsSafe env c) (resolve_legacy_remote env target old)
  unfolding resolve_legacy_remote
  resolve_legacy_remote-IsSafe target old = Preserves-bind _ _ (search safe_rules) (λ k.
      Preserves-bind _ _ (search_records-IsSafe _ _ _ _) (λ hits.
        Preserves-bind _ _ (match_hits-IsSafe k target old hits []) (λ found.
          Preserves-list found _ _
            (Preserves-bind _ _ (scan_pages-IsSafe _ 0 target old []) (λ s. Preserves-pure _))
            (λ m ms. Preserves-pure _))))

  old_matches-IsSafe : (target old : String) → Preserves (IsSafe env c) (old_matches env target old)
  unfolding old_matches
  old_matches-IsSafe target old = ledger-IsSafe _ (λ l u.
      Preserves-bind _ _ (search safe_rules) (λ k.
        Preserves-list (Ledger.resolve k.profile_scope target old l) _ _
          (Preserves-bind _ _ (resolve_legacy_remote-IsSafe target old)
            (λ legacy. search safe_rules))
          (λ r rs. Preserves-pure _)))

  pub resolve_old-IsSafe :
      (target old : String) → Preserves (IsSafe env c) (resolve_old env target old)
  unfolding resolve_old
  resolve_old-IsSafe target old = search (safe_rules, old_matches-IsSafe, the_match-IsSafe) depth 12
