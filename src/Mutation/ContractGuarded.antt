-- ===== src/Mutation/ContractGuarded.antt =====
-- _provider.py: verifying the collection's contract, under the invariant of `Mutation/Safety`.
use hermes_hyperspacedb_prov.Prelude.{ℕ, String, true, Option, none, some}
use hermes_hyperspacedb_prov.Value.Numbers.{ℤ, pos, negsuc}
use hermes_hyperspacedb_prov.Value.{Value, int, as_list}
use hermes_hyperspacedb_prov.World.{Env}
use hermes_hyperspacedb_prov.Exec.{modify}
use hermes_hyperspacedb_prov.Exec.Rules.{
  Preserves, Preserves-modify, Preserves-bind, Preserves-option, Preserves-pure,
}
use hermes_hyperspacedb_prov.Provider.Contract.{
  first_row, named_collection, check_dimension, accept_contract, contract_from_point,
  contract_from_stored_points, contract_from_listing, observed_contract, verify_collection_contract,
  require_collection_contract, refuse, Contract,
}
use hermes_hyperspacedb_prov.Provider.{Context}
use hermes_hyperspacedb_prov.Mutation.Safety.{IsSafe, safe_rules}

module _ {env : Env} {c : Context} where
  contract_from_point-IsSafe :
      (v : Value) (k : Contract) → Preserves (IsSafe env c) (contract_from_point env v k)
  unfolding contract_from_point
  contract_from_point-IsSafe (int i) k = Preserves-bind _ _ (search safe_rules) (λ collection.
      Preserves-bind _ _ (search safe_rules) (λ fetched.
        Preserves-option (first_row env fetched) _ _ (search safe_rules)
          (λ row. search safe_rules)))
  contract_from_point-IsSafe _ k = Preserves-pure k

  contract_from_stored_points-IsSafe : Preserves (IsSafe env c) (contract_from_stored_points env)
  unfolding contract_from_stored_points
  contract_from_stored_points-IsSafe = Preserves-bind _ _ (search safe_rules) (λ collection.
      Preserves-bind _ _ (search safe_rules) (λ rows.
        Preserves-option (first_row env rows) _ _ (search safe_rules)
          (λ row. search (safe_rules, contract_from_point-IsSafe))))

  contract_from_listing-IsSafe :
      (k : Contract) → Preserves (IsSafe env c) (contract_from_listing env k)
  unfolding contract_from_listing
  contract_from_listing-IsSafe k = Preserves-bind _ _ (search safe_rules) (λ collections.
      Preserves-bind _ _ (search safe_rules) (λ name.
        Preserves-option (as_list collections) _ _ (search safe_rules) (λ vs.
          Preserves-option (named_collection env name vs) _ _ (search safe_rules)
            (λ v. search safe_rules))))

  observed_contract-IsSafe : (v : Value) → Preserves (IsSafe env c) (observed_contract env v)
  unfolding observed_contract
  observed_contract-IsSafe v =
      Preserves-bind _ _ (search (safe_rules, contract_from_listing-IsSafe))
        (λ k. search (safe_rules, contract_from_stored_points-IsSafe))

  refuse-IsSafe : (health : String) → Preserves (IsSafe env c) (modify (refuse env health))
  unfolding refuse
  refuse-IsSafe health = Preserves-modify _ (λ p k. record {
    same_context = k.same_context;
    ledger = k.ledger;
    only_cleared = k.only_cleared;
  })

  check_dimension-IsSafe :
      (d : Option ℤ) (n : ℕ) → Preserves (IsSafe env c) (check_dimension env d n)
  unfolding check_dimension
  check_dimension-IsSafe none n = search (safe_rules, refuse-IsSafe)
  check_dimension-IsSafe (some (pos m)) n = search (safe_rules, refuse-IsSafe)
  check_dimension-IsSafe (some (negsuc m)) n = search (safe_rules, refuse-IsSafe)

  verified-IsSafe :
      (d : Option ℤ) → Preserves (IsSafe env c) (modify (λ p. record p { observed_dimension = d }))
  verified-IsSafe d = Preserves-modify _ (λ p k. record {
    same_context = k.same_context;
    ledger = k.ledger;
    only_cleared = k.only_cleared;
  })

  accepted-IsSafe : Preserves (IsSafe env c) (modify (λ p. record p { contract_verified = true }))
  accepted-IsSafe = Preserves-modify _ (λ p k. record {
    same_context = k.same_context;
    ledger = k.ledger;
    only_cleared = k.only_cleared;
  })

  accept_contract-IsSafe : (k : Contract) → Preserves (IsSafe env c) (accept_contract env k)
  unfolding accept_contract
  accept_contract-IsSafe (metric, dimension) =
      search (safe_rules, refuse-IsSafe, check_dimension-IsSafe, verified-IsSafe, accepted-IsSafe)
        depth 16

  verify_collection_contract-IsSafe :
      (v : Value) → Preserves (IsSafe env c) (verify_collection_contract env v)
  unfolding verify_collection_contract
  verify_collection_contract-IsSafe v =
      search (safe_rules, observed_contract-IsSafe, accept_contract-IsSafe)

  pub require_collection_contract-IsSafe :
      Preserves (IsSafe env c) (require_collection_contract env)
  unfolding require_collection_contract
  require_collection_contract-IsSafe =
      search (safe_rules, verify_collection_contract-IsSafe) depth 12
