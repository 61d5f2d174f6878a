-- ===== src/Mutation.antt =====
-- _provider.py: how a memory is stored, found again and deleted. Waiting between two read-backs and
-- the deadlines of the RPCs are left out.
pub mod Resolve
pub mod Event
pub mod Safety
pub mod ContractGuarded
pub mod Guarded
pub mod ResolveGuarded
pub mod DeleteGuarded
pub mod Deleted
use Prim.Native.String.{◌++◌ as ◌<>◌}
use hermes_hyperspacedb_prov.Prelude.{
  ℕ, zero, suc, ◌+◌, String, Bool, true, false, not, ◌&&◌, ◌||◌, Option, none, some, List, [], ◌∷◌,
  ltb, ◌==◌, is_some, if◌then◌else◌,
}
use hermes_hyperspacedb_prov.Prelude.Lists.{length}
use hermes_hyperspacedb_prov.Text
use hermes_hyperspacedb_prov.Value.{Value, Fields, bool, get, as_dict, as_list, is_text, truthy}
use hermes_hyperspacedb_prov.Content.{metadata, extract_content}
use hermes_hyperspacedb_prov.Errors.{
  ProviderError, fail, other, configuration_error, malformed_result, id_collision_exhausted,
  mutation_conflict, mutation_verification_failed, verification_inconclusive,
}
use hermes_hyperspacedb_prov.World.{Env, vectorize, insert, get_points, delete}
use hermes_hyperspacedb_prov.Exec.{Exec, pure, raise, lift, gets, ◌>>=◌, ◌>>◌, catch, raise_if}
use hermes_hyperspacedb_prov.Config.{Config}
use hermes_hyperspacedb_prov.Ledger
use hermes_hyperspacedb_prov.Ledger.{Ledger}
use hermes_hyperspacedb_prov.Ledger.Tables.{LedgerRecord, Status, inserting, active, retry_pending}
use hermes_hyperspacedb_prov.Ownership.{
  plugin_id, logical_digest, internal_metadata, point_owner_matches, text_of,
}
use hermes_hyperspacedb_prov.Provider.{
  Provider, call, utc_now, backend_proven_alive, the_ledger, put_ledger,
}
use hermes_hyperspacedb_prov.Provider.Contract.{as_sequence, require_collection_contract}

-- `COLLISION_STRIDE` and `VERIFY_RETRY_ATTEMPTS`
abbrev pub collision_stride : ℕ
collision_stride = 16

abbrev pub verify_attempts : ℕ
verify_attempts = 3

-- `ownership_hmac_key` and `previous_ownership_hmac_keys`
abbrev pub keys : Config → List String
keys c = c.ownership_hmac_key ∷ c.previous_keys

-- `self._ledger.upsert(record)`: a `sqlite3.IntegrityError` where another digest has the id
unfoldable pub upsert_record : LedgerRecord → Exec Provider (Unit {0})
unfolding the_ledger put_ledger
upsert_record r = do
  l ← the_ledger
  elim (Ledger.upsert r l) [
    | none ↦ raise (other "IntegrityError" "" "UNIQUE constraint failed: records.external_id")
    | some l' ↦ put_ledger l'
  ]

-- `len(vs) == 0`
abbrev pub is_nil : List Value → Bool
is_nil [] = true
is_nil (v ∷ vs) = false

-- A reply that has to be a list.
unfoldable pub list_reply : Value → Exec Provider (List Value)
list_reply v = elim (as_list v) [
  | none ↦ raise (fail malformed_result "get_points returned a non-list response")
  | some vs ↦ pure vs
]

-- A point names the plugin and the digest.
unfoldable pub names_digest : Value → String → Bool
names_digest point digest =
    is_text plugin_id (get "_hs_owner" (metadata point))
    && is_text digest (get "_hs_digest" (metadata point))

module _ (env : Env) where
  -- `self._ledger.set_status(digest, status, error)`
  unfoldable pub set_status : String → Status → String → Exec Provider (Unit {0})
  unfolding the_ledger put_ledger
  set_status digest status error = do
    l ← the_ledger
    now ← utc_now env
    put_ledger (Ledger.set_status digest status error now l)

  -- `_point_owner_matches`
  unfoldable pub owner_matches : Value → String → Exec Provider Bool
  owner_matches point digest p =
      lift
        (point_owner_matches env point digest p.config.collection p.config.profile_scope
          (keys p.config))
        p

  -- `any(self._point_owner_matches(point, digest) for point in points)`
  unfoldable pub any_owned : List Value → String → Exec Provider Bool
  unfolding owner_matches
  any_owned [] digest = pure false
  any_owned (v ∷ vs) digest = do
    matches ← owner_matches v digest
    if matches then pure true else any_owned vs digest

  -- The loop of the fast path of `_allocate_id`.
  unfoldable pub any_known : List Value → String → Exec Provider Bool
  unfolding owner_matches
  any_known [] digest = pure false
  any_known (v ∷ vs) digest = do
    matches ← if names_digest v digest then owner_matches v digest else pure false
    if matches then pure true else any_known vs digest

  -- `self._call("get_points", [i], collection=self._collection)`
  unfoldable pub fetch : ℕ → Exec Provider Value
  fetch i p = call env (get_points (i ∷ []) p.config.collection) p

  -- `isinstance(points, list) and any(...)`
  unfoldable pub any_owned_reply : Value → String → Exec Provider Bool
  unfolding any_owned
  any_owned_reply v digest = elim (as_list v) [ none ↦ pure false | some vs ↦ any_owned vs digest ]

  unfoldable pub any_known_reply : Value → String → Exec Provider Bool
  unfolding any_known
  any_known_reply v digest = elim (as_list v) [ none ↦ pure false | some vs ↦ any_known vs digest ]

  -- `self._ledger.next_external_id()`
  unfoldable pub take_external_id : Exec Provider ℕ
  unfolding the_ledger put_ledger
  take_external_id = do
    l ← the_ledger
    let (l', candidate) = Ledger.next_external_id l
    put_ledger l'
    pure candidate

  -- `self._ledger.observe_external_id(i)`
  unfoldable pub see_external_id : ℕ → Exec Provider (Unit {0})
  unfolding the_ledger put_ledger
  see_external_id i = do l ← the_ledger; put_ledger (Ledger.observe_external_id i l)

  -- The rounds of `_allocate_id`.
  unfoldable pub probe_ids : ℕ → Exec Provider (ℕ × Bool)
  unfolding fetch take_external_id see_external_id list_reply
  probe_ids zero = raise (fail id_collision_exhausted "No collision-free sequential ID was found")
  probe_ids (suc n) = do
    candidate ← take_external_id
    reply ← fetch candidate
    points ← list_reply reply
    if is_nil points
        then (do backend_proven_alive env; pure (candidate, false))
        else do see_external_id (candidate + collision_stride); probe_ids n

  -- `_allocate_id`
  unfoldable pub allocate_id : String → Exec Provider (ℕ × Bool)
  unfolding any_known_reply fetch probe_ids
  allocate_id digest = do
    l ← the_ledger
    rounds ← gets (λ p. p.collision_probes)
    elim (Ledger.get digest l) [
      | none ↦ probe_ids rounds
      | some known ↦ do
        points ← fetch known.external_id
        found ← any_known_reply points digest
        if found then pure (known.external_id, true) else probe_ids rounds
    ]

  -- `_verify_readback`
  unfoldable pub verify_readback : ℕ → ℕ → String → Exec Provider (Unit {0})
  unfolding fetch any_owned_reply
  verify_readback zero i digest = raise (
      fail verification_inconclusive
        "Insert acknowledged but read-after-write verification is inconclusive; the point may still appear. Search or reconcile instead of re-writing.")
  verify_readback (suc attempts) i digest = do
    points ← fetch i
    found ← any_owned_reply points digest
    if found then pure tt else verify_readback attempts i digest

  -- `v is True`
  abbrev pub is_true : Value → Bool
  is_true (bool b) = b
  is_true _ = false

  -- A vector that is not empty, as a list.
  unfoldable pub vector_reply : Value → Exec Provider (List Value)
  vector_reply v = elim (as_sequence v) [
    | none ↦ raise (fail malformed_result "Vectorize RPC returned no vector")
    | some [] ↦ raise (fail malformed_result "Vectorize RPC returned no vector")
    | some (x ∷ xs) ↦ pure (x ∷ xs)
  ]

  -- `_insert_verified`
  unfoldable pub insert_verified : ℕ → String → Fields → String → Exec Provider (Unit {0})
  unfolding vector_reply verify_readback
  insert_verified i content meta digest = do
    metric ← gets (λ p. p.metric)
    collection ← gets (λ p. p.collection)
    embedded ← call env (vectorize ("[" <> (text_of env "target" meta <> ("] " <> content))) metric)
    vector ← vector_reply embedded
    done ← call env (insert i vector content meta collection)
    raise_if (not (is_true done)) (fail mutation_verification_failed "Insert did not return True")
    verify_readback verify_attempts i digest

  -- The record that `_store_content_sync` writes.
  abbrev pub new_record :
      String → ℕ → String → String → String → String → Status → String → LedgerRecord
  new_record digest i scope target source content status now = record {
    digest = digest;
    external_id = i;
    profile_scope = scope;
    target = target;
    source = source;
    content = content;
    status = status;
    error = "";
    updated_at = now;
  }

  -- The checks of `_store_content_sync`; the clean content.
  unfoldable pub check_content : String → Exec Provider String
  check_content content = do
    require_collection_contract env
    enabled ← gets (λ p. p.writes_enabled)
    raise_if (not enabled)
        (fail configuration_error "Writes are disabled outside agent_context=primary")
    initialized ← gets (λ p. is_some p.ledger)
    raise_if (not initialized) (fail configuration_error "Provider is not initialized")
    raise_if (Text.is_empty (Text.strip content)) (fail configuration_error "content is required")
    limit ← gets (λ p. p.max_content_chars)
    raise_if (ltb limit (Text.length (Text.strip content)))
        (fail configuration_error "content exceeds max_content_chars")
    pure (Text.strip content)

  -- `_store_content_sync`
  unfoldable pub store_content :
      String → String → String → String → Value → Exec Provider (LedgerRecord × Bool)
  unfolding check_content allocate_id insert_verified upsert_record set_status
  store_content target source trust content user = do
    clean ← check_content content
    c ← gets (λ p. p.config)
    let digest = logical_digest env c.collection c.profile_scope target source clean
    l ← the_ledger
    let existing = is_some (Ledger.get digest l)
    allocated ← allocate_id digest
    stamp ← utc_now env
    meta ← lift (
        internal_metadata env target source trust clean digest c.profile_scope c.ownership_hmac_key
          stamp user)
    pending ← utc_now env
    upsert_record
        (new_record digest allocated.0 c.profile_scope target source clean inserting pending)
    catch (insert_verified allocated.0 clean meta digest)
        (λ e. do set_status digest retry_pending e.message; raise (fail e.code e.message))
    now ← utc_now env
    let r = new_record digest allocated.0 c.profile_scope target source clean active now
    upsert_record r
    pure (r, existing || allocated.1)

  -- The tests of `_delete_verified` on the point that it read.
  unfoldable pub check_delete : Value → LedgerRecord → Exec Provider (Unit {0})
  unfolding owner_matches
  check_delete point r =
      if is_text plugin_id (get "_hs_owner" (metadata point))
      then (do
        matches ← owner_matches point r.digest
        raise_if (not matches)
            (fail mutation_conflict "Point ownership authentication changed before delete"))
      else do
        raise_if (Text.is_empty (extract_content point))
            (fail mutation_conflict "Legacy point content is unavailable; refusing delete")
        raise_if (not (extract_content point == r.content))
            (fail mutation_conflict "Legacy point content changed before delete")

  -- The read-back of `_delete_verified`, after the RPC returned `done`.
  unfoldable pub confirm_delete : LedgerRecord → Value → Exec Provider (Unit {0})
  unfolding fetch
  confirm_delete r done = do
    remaining ← fetch r.external_id
    raise_if (truthy remaining) (
        fail mutation_verification_failed (
          if is_true done
          then "Read-after-delete verification failed"
          else "Delete did not remove the record"))
    backend_proven_alive env

  -- The RPC and the read-back of `_delete_verified`.
  unfoldable pub delete_point : LedgerRecord → Exec Provider (Unit {0})
  unfolding confirm_delete
  delete_point r = do
    collection ← gets (λ p. p.collection)
    done ← call env (delete r.external_id collection)
    confirm_delete r done

  -- `_delete_verified` once the points are read
  unfoldable pub delete_first : LedgerRecord → List Value → Exec Provider (Unit {0})
  unfolding check_delete delete_point
  delete_first r [] = backend_proven_alive env
  delete_first r (point ∷ rest) = do check_delete point r; delete_point r

  -- `_delete_verified`
  unfoldable pub delete_verified : LedgerRecord → Exec Provider (Unit {0})
  unfolding fetch list_reply delete_first
  delete_verified r = do
    reply ← fetch r.external_id
    points ← list_reply reply
    delete_first r points
