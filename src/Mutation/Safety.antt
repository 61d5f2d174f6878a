-- ===== src/Mutation/Safety.antt =====
-- _provider.py: the invariant of the mutations, on the ledger and on the calls that the backend
-- received, and the primitive steps under it.
use hermes_hyperspacedb_prov.Prelude.{
  ℕ, String, ◌≡◌, refl, Bool, true, false, Option, none, some, List, [], ◌∷◌, ◌⊎◌, inl, inr, arith,
}
use hermes_hyperspacedb_prov.Text
use hermes_hyperspacedb_prov.Value.{Value, get, as_list, is_text}
use hermes_hyperspacedb_prov.Content.{metadata, extract_content}
use hermes_hyperspacedb_prov.Errors.{Exn, ok}
use hermes_hyperspacedb_prov.World.{
  Env, Request, returned, health_check, get_collection_stats, list_collections, vectorize, insert,
  get_points, delete, scroll, search as search_request, get_node, get_neighbors, traverse,
  get_subsumption_tree, get_concept_parents, find_semantic_clusters, count, get_digest,
  get_cache_stats,
}
use hermes_hyperspacedb_prov.Exec.{Exec, raise, ◌>>=◌}
use hermes_hyperspacedb_prov.Exec.Rules.{
  Preserves, preserves_rules, Preserves-bind, Preserves-pure, Preserves-raise,
}
use hermes_hyperspacedb_prov.Config.{Config}
use hermes_hyperspacedb_prov.Ledger
use hermes_hyperspacedb_prov.Ledger.{Ledger}
use hermes_hyperspacedb_prov.Ledger.Tables.{LedgerRecord, Status}
use hermes_hyperspacedb_prov.Ledger.Updates.{
  IsConsistent, upsert-IsConsistent, set_status-IsConsistent,
}
use hermes_hyperspacedb_prov.Ownership.{plugin_id, point_owner_matches}
use hermes_hyperspacedb_prov.Provider.{
  Provider, Context, call, utc_now, time_now, monotonic_now, the_ledger, put_ledger,
  ledger_or_raise,
}
use hermes_hyperspacedb_prov.Provider.Frame.{call-On}
use hermes_hyperspacedb_prov.Mutation.{
  keys, upsert_record, set_status, take_external_id, see_external_id,
}

-- The point may be deleted for the record: it names the plugin and is authenticated for the record's
-- digest, or it does not and has the record's content, which is not empty.
abbrev pub IsCleared : Env → Config → LedgerRecord → Value → Type 0
IsCleared env c r point =
    (point_owner_matches env point r.digest c.collection c.profile_scope (keys c) ≡ ok true)
    ⊎ ((is_text plugin_id (get "_hs_owner" (metadata point)) ≡ false)
        × (Text.is_empty (extract_content point) ≡ false)
        × (extract_content point ≡ r.content))

-- The point may be deleted, whatever the record: it names the plugin and is authenticated for some
-- digest, or it does not name the plugin and has a content.
abbrev pub IsDeletable : Env → Config → Value → Type 0
IsDeletable env c point =
    ((digest : String) × (point_owner_matches env point digest c.collection c.profile_scope (keys c)
        ≡ ok true))
    ⊎ ((is_text plugin_id (get "_hs_owner" (metadata point)) ≡ false)
        × (Text.is_empty (extract_content point) ≡ false))

pub IsCleared-IsDeletable :
    (env : Env) (c : Config) (r : LedgerRecord) (point : Value)
    → IsCleared env c r point
    → IsDeletable env c point
IsCleared-IsDeletable env c r point (inl owned) = inl (r.digest, owned)
IsCleared-IsDeletable env c r point (inr (foreign, full, same)) = inr (foreign, full)

-- The latest call read the id, and the first point of the reply may be deleted.
pub record ReadBefore (env : Env) (c : Config) (i : ℕ) (collection : String) (h : List Request)
    : Type 0 where
  pub before : List Request
  pub latest : h ≡ get_points (i ∷ []) collection ∷ before
  pub value : Value
  pub answer : env.backend before (get_points (i ∷ []) collection) ≡ returned value
  pub point : Value
  pub rest : List Value
  pub points : as_list value ≡ some (point ∷ rest)
  pub cleared : IsDeletable env c point

-- Each `delete` that the backend received came right after such a read.
abbrev pub OnlyCleared : Env → Config → List Request → Type 0
OnlyCleared env c [] = Unit
OnlyCleared env c (delete i collection ∷ h) = ReadBefore env c i collection h × OnlyCleared env c h
OnlyCleared env c (_ ∷ h) = OnlyCleared env c h

abbrev pub LedgerOk : Option Ledger → Type 0
LedgerOk none = Unit
LedgerOk (some l) = IsConsistent l

abbrev is_delete : Request → Bool
is_delete (delete i collection) = true
is_delete _ = false

OnlyCleared-cons :
    (env : Env) (c : Config) (q : Request) (h : List Request)
    → is_delete q ≡ false
    → OnlyCleared env c h
    → OnlyCleared env c (q ∷ h)
OnlyCleared-cons env c health_check h n o = o
OnlyCleared-cons env c (get_collection_stats x) h n o = o
OnlyCleared-cons env c list_collections h n o = o
OnlyCleared-cons env c (vectorize x y) h n o = o
OnlyCleared-cons env c (insert i v x m y) h n o = o
OnlyCleared-cons env c (get_points is x) h n o = o
OnlyCleared-cons env c (delete i x) h n o = absurd (cc n)
OnlyCleared-cons env c (scroll i j x) h n o = o
OnlyCleared-cons env c (search_request v i x m) h n o = o
OnlyCleared-cons env c (get_node i x) h n o = o
OnlyCleared-cons env c (get_neighbors i j x) h n o = o
OnlyCleared-cons env c (traverse i j k x) h n o = o
OnlyCleared-cons env c (get_subsumption_tree i j x) h n o = o
OnlyCleared-cons env c (get_concept_parents i j x) h n o = o
OnlyCleared-cons env c (find_semantic_clusters i j k x) h n o = o
OnlyCleared-cons env c (count x) h n o = o
OnlyCleared-cons env c (get_digest x) h n o = o
OnlyCleared-cons env c (get_cache_stats x) h n o = o

-- What holds of a provider that runs in the context c.
pub record IsSafe (env : Env) (c : Context) (p : Provider) : Type 0 where
  pub same_context : p.context ≡ c
  pub ledger : LedgerOk p.ledger
  pub only_cleared : OnlyCleared env c.config p.history

abbrev Inv : Env → Context → Context → Option Ledger → List Request → Type 0
Inv env c c' l h = (c' ≡ c) × LedgerOk l × OnlyCleared env c.config h

Inv-closing :
    (env : Env) (c c' : Context) (l : Option Ledger) (h : List Request)
    → Inv env c c' l h
    → Inv env c c' none h
Inv-closing env c c' l h (e, u, o) = (e, tt, o)

pub call_step :
    (env : Env) (c : Context) (q : Request) (p : Provider)
    → IsSafe env c p
    → OnlyCleared env c.config (q ∷ p.history)
    → IsSafe env c (call env q p).1
call_step env c q p k o =
    let (e, u, o') =
      call-On (Inv env c) (Inv-closing env c) env q p (k.same_context, k.ledger, k.only_cleared)
        (k.same_context, k.ledger, o) in
    record { same_context = e; ledger = u; only_cleared = o' }

-- Reading a clock changes nothing of it.
tick :
    (env : Env) (c : Context) (p : Provider) (n : ℕ)
    → IsSafe env c p
    → IsSafe env c (record p { ticks = n })
tick env c p n k = record {
  same_context = k.same_context;
  ledger = k.ledger;
  only_cleared = k.only_cleared;
}

observe-IsConsistent :
    (i : ℕ) (l : Ledger) → IsConsistent l → IsConsistent (Ledger.observe_external_id i l)
unfolding Ledger.observe_external_id
observe-IsConsistent i l u = ground arith

module _ {env : Env} {c : Context} where
  pub call-IsSafe : (q : Request) → is_delete q ≡ false → Preserves (IsSafe env c) (call env q)
  call-IsSafe q n = record {
    run = λ p k. call_step env c q p k (OnlyCleared-cons env c.config q p.history n k.only_cleared);
  }

  pub utc_now-IsSafe : Preserves (IsSafe env c) (utc_now env)
  unfolding utc_now
  utc_now-IsSafe = record { run = λ p k. tick env c p _ k }

  pub time_now-IsSafe : Preserves (IsSafe env c) (time_now env)
  unfolding time_now
  time_now-IsSafe = record { run = λ p k. tick env c p _ k }

  pub monotonic_now-IsSafe : Preserves (IsSafe env c) (monotonic_now env)
  unfolding monotonic_now
  monotonic_now-IsSafe = record { run = λ p k. tick env c p _ k }

  ledger_or_raise-IsSafe :
      {A : Type 0} (o : Option Ledger) (f : Ledger → Exec Provider A) (p : Provider)
      → LedgerOk o
      → IsSafe env c p
      → ((l : Ledger) → IsConsistent l → Preserves (IsSafe env c) (f l))
      → IsSafe env c (((λ _. ledger_or_raise o p) >>= f) p).1
  unfolding ◌>>=◌
  ledger_or_raise-IsSafe none f p u k kf = k
  ledger_or_raise-IsSafe (some l) f p u k kf = (kf l u).run p k

  -- What a method does with the ledger starts from a consistent one.
  pub ledger-IsSafe :
      {A : Type 0} (f : Ledger → Exec Provider A)
      → ((l : Ledger) → IsConsistent l → Preserves (IsSafe env c) (f l))
      → Preserves (IsSafe env c) (the_ledger >>= f)
  unfolding ◌>>=◌ the_ledger
  ledger-IsSafe f kf = record {
    run = λ p k. unfold ◌>>=◌ in ledger_or_raise-IsSafe p.ledger f p k.ledger k kf;
  }

  pub put_ledger-IsSafe : (l : Ledger) → IsConsistent l → Preserves (IsSafe env c) (put_ledger l)
  unfolding put_ledger
  put_ledger-IsSafe l u = record {
    run =
        λ p k. record { same_context = k.same_context; ledger = u; only_cleared = k.only_cleared };
  }

  put_option-IsSafe :
      (r : LedgerRecord) (l : Ledger) (o : Option Ledger) (e : Exn)
      → IsConsistent l
      → Ledger.upsert r l ≡ o
      → Preserves
          (IsSafe env c)
          (elim o as (λ _. Exec Provider (Unit {0})) [ none ↦ raise e | some l' ↦ put_ledger l' ])
  put_option-IsSafe r l none e u h = Preserves-raise e
  put_option-IsSafe r l (some l') e u h = put_ledger-IsSafe l' (upsert-IsConsistent r l l' u h)

  pub upsert_record-IsSafe : (r : LedgerRecord) → Preserves (IsSafe env c) (upsert_record r)
  unfolding upsert_record
  upsert_record-IsSafe r =
      ledger-IsSafe _ (λ l u. put_option-IsSafe r l (Ledger.upsert r l) _ u refl)

  pub set_status-IsSafe :
      (digest : String) (status : Status) (error : String)
      → Preserves (IsSafe env c) (set_status env digest status error)
  unfolding set_status
  set_status-IsSafe digest status error = ledger-IsSafe _ (λ l u.
      Preserves-bind (utc_now env) _ utc_now-IsSafe
        (λ now. put_ledger-IsSafe _ (set_status-IsConsistent digest status error now l u)))

  pub take_external_id-IsSafe : Preserves (IsSafe env c) (take_external_id env)
  unfolding take_external_id
  take_external_id-IsSafe = ledger-IsSafe _ (λ l u.
      Preserves-bind _ _
        (put_ledger-IsSafe (Ledger.next_external_id l).0 (unfold Ledger.next_external_id in u))
        (λ _. Preserves-pure _))

  pub see_external_id-IsSafe : (i : ℕ) → Preserves (IsSafe env c) (see_external_id env i)
  unfolding see_external_id
  see_external_id-IsSafe i =
      ledger-IsSafe _
        (λ l u. put_ledger-IsSafe (Ledger.observe_external_id i l) (observe-IsConsistent i l u))

pub ruleset safe_rules = (
  preserves_rules, call-IsSafe, utc_now-IsSafe, time_now-IsSafe, monotonic_now-IsSafe,
  upsert_record-IsSafe, set_status-IsSafe, take_external_id-IsSafe, see_external_id-IsSafe,
)
