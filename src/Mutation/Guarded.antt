-- ===== src/Mutation/Guarded.antt =====
-- _provider.py: allocating an id, inserting and storing, under the invariant of `Mutation/Safety`.
use hermes_hyperspacedb_prov.Prelude.{ℕ, zero, suc, String, List, [], ◌∷◌}
use hermes_hyperspacedb_prov.Ledger
use hermes_hyperspacedb_prov.Value.{Value, as_list, Fields}
use hermes_hyperspacedb_prov.World.{Env, get_points}
use hermes_hyperspacedb_prov.Exec.{Exec, lift}
use hermes_hyperspacedb_prov.Ownership.{point_owner_matches}
use hermes_hyperspacedb_prov.Exec.Rules.{
  Preserves, Preserves-bind, Preserves-option, Preserves-list, Preserves-pure, Preserves-if,
}
use hermes_hyperspacedb_prov.Provider.{Context, Provider, call, backend_proven_alive}
use hermes_hyperspacedb_prov.Mutation.ContractGuarded.{require_collection_contract-IsSafe}
use hermes_hyperspacedb_prov.Provider.Contract.{as_sequence}
use hermes_hyperspacedb_prov.Mutation.{
  keys, owner_matches, any_owned, any_known, any_owned_reply, any_known_reply, fetch, probe_ids,
  allocate_id, list_reply, vector_reply, verify_readback, insert_verified, check_content,
  store_content,
}
use hermes_hyperspacedb_prov.Mutation.Safety.{IsSafe, ledger-IsSafe, safe_rules}

module _ {env : Env} {c : Context} where
  pub backend_proven_alive-IsSafe : Preserves (IsSafe env c) (backend_proven_alive env)
  unfolding backend_proven_alive
  backend_proven_alive-IsSafe = search safe_rules

  pub list_reply-IsSafe : (v : Value) → Preserves (IsSafe env c) (list_reply v)
  unfolding list_reply
  list_reply-IsSafe v =
      Preserves-option (as_list v) _ _ (search safe_rules) (λ vs. search safe_rules)

  -- A method may read the settings that it runs with.
  pub with_config :
      {A : Type 0} (f : Provider → Exec Provider A)
      → ((p : Provider) → Preserves (IsSafe env c) (f p))
      → Preserves (IsSafe env c) (λ p. f p p)
  with_config f kf = record { run = λ p k. (kf p).run p k }

  pub fetch-IsSafe : (i : ℕ) → Preserves (IsSafe env c) (fetch env i)
  unfolding fetch
  fetch-IsSafe i =
      with_config (λ p. call env (get_points (i ∷ []) p.config.collection)) (λ p. search safe_rules)

  pub owner_matches-IsSafe :
      (v : Value) (d : String) → Preserves (IsSafe env c) (owner_matches env v d)
  unfolding owner_matches
  owner_matches-IsSafe v d =
      with_config
        (λ p.
          lift (
            point_owner_matches env v d p.config.collection p.config.profile_scope (keys p.config)))
        (λ p. search safe_rules)

  any_owned-IsSafe : (vs : List Value) (d : String) → Preserves (IsSafe env c) (any_owned env vs d)
  unfolding any_owned
  any_owned-IsSafe [] d = search safe_rules
  any_owned-IsSafe (v ∷ vs) d =
      Preserves-bind _ _ (owner_matches-IsSafe v d)
        (λ m. Preserves-if m _ _ (search safe_rules) (any_owned-IsSafe vs d))

  any_known-IsSafe : (vs : List Value) (d : String) → Preserves (IsSafe env c) (any_known env vs d)
  unfolding any_known
  any_known-IsSafe [] d = search safe_rules
  any_known-IsSafe (v ∷ vs) d =
      Preserves-bind _ _ (search (safe_rules, owner_matches-IsSafe))
        (λ m. Preserves-if m _ _ (Preserves-pure _) (any_known-IsSafe vs d))

  any_owned_reply-IsSafe :
      (v : Value) (d : String) → Preserves (IsSafe env c) (any_owned_reply env v d)
  unfolding any_owned_reply
  any_owned_reply-IsSafe v d =
      Preserves-option (as_list v) _ _ (search safe_rules) (λ vs. any_owned-IsSafe vs d)

  any_known_reply-IsSafe :
      (v : Value) (d : String) → Preserves (IsSafe env c) (any_known_reply env v d)
  unfolding any_known_reply
  any_known_reply-IsSafe v d =
      Preserves-option (as_list v) _ _ (search safe_rules) (λ vs. any_known-IsSafe vs d)

  probe_ids-IsSafe : (n : ℕ) → Preserves (IsSafe env c) (probe_ids env n)
  unfolding probe_ids
  probe_ids-IsSafe zero = search safe_rules
  probe_ids-IsSafe (suc n) = Preserves-bind _ _ (search safe_rules) (λ i.
      let rest = probe_ids-IsSafe n in
      search (safe_rules, fetch-IsSafe, list_reply-IsSafe, backend_proven_alive-IsSafe))

  allocate_id-IsSafe : (d : String) → Preserves (IsSafe env c) (allocate_id env d)
  unfolding allocate_id
  allocate_id-IsSafe d = ledger-IsSafe _ (λ l u. Preserves-bind _ _ (search safe_rules) (λ rounds.
      Preserves-option (Ledger.get d l) _ _ (probe_ids-IsSafe rounds)
        (λ known. search (safe_rules, probe_ids-IsSafe, fetch-IsSafe, any_known_reply-IsSafe))))

  verify_readback-IsSafe :
      (n i : ℕ) (d : String) → Preserves (IsSafe env c) (verify_readback env n i d)
  unfolding verify_readback
  verify_readback-IsSafe zero i d = search safe_rules
  verify_readback-IsSafe (suc n) i d =
      Preserves-bind _ _ (fetch-IsSafe i) (λ v.
        let rest = verify_readback-IsSafe n i d in search (safe_rules, any_owned_reply-IsSafe))

  pub vector_reply-IsSafe : (v : Value) → Preserves (IsSafe env c) (vector_reply env v)
  unfolding vector_reply
  vector_reply-IsSafe v =
      Preserves-option (as_sequence v) _ _ (search safe_rules)
        (λ vs. Preserves-list vs _ _ (search safe_rules) (λ x xs. search safe_rules))

  insert_verified-IsSafe :
      (i : ℕ) (content : String) (meta : Fields) (d : String)
      → Preserves (IsSafe env c) (insert_verified env i content meta d)
  unfolding insert_verified
  insert_verified-IsSafe i content meta d =
      search (safe_rules, vector_reply-IsSafe, verify_readback-IsSafe) depth 16

  check_content-IsSafe : (content : String) → Preserves (IsSafe env c) (check_content env content)
  unfolding check_content
  check_content-IsSafe content = search (safe_rules, require_collection_contract-IsSafe) depth 24

  pub store_content-IsSafe :
      (target source trust content : String) (user : Value)
      → Preserves (IsSafe env c) (store_content env target source trust content user)
  unfolding store_content
  store_content-IsSafe target source trust content user =
      Preserves-bind _ _ (check_content-IsSafe content) (λ clean.
        Preserves-bind _ _ (search safe_rules) (λ settings.
          ledger-IsSafe _
            (λ l u. search (safe_rules, allocate_id-IsSafe, insert_verified-IsSafe) depth 24)))
