-- ===== src/Mutation/DeleteGuarded.antt =====
-- _provider.py: `_delete_verified` and the events that use it, under the invariant of
-- `Mutation/Safety`.
use hermes_hyperspacedb_prov.Prelude.{
  String, ◌≡◌, refl, ap, Bool, true, false, Option, none, some, List, [], ◌∷◌, inl, inr, Bool-cases,
  arith, eq_iff,
}
use hermes_hyperspacedb_prov.Text
use hermes_hyperspacedb_prov.Value.{Value, Fields, get, as_list, is_text}
use hermes_hyperspacedb_prov.Content.{metadata, extract_content}
use hermes_hyperspacedb_prov.Errors.{Exn, Result, ok, err, ProviderError}
use hermes_hyperspacedb_prov.World.{Env, delete, get_points}
use hermes_hyperspacedb_prov.Exec.{gets, continue, ◌>>=◌, ◌>>◌, lift, raise_if, pure, raise}
use hermes_hyperspacedb_prov.Exec.Rules.{Preserves, Preserves-continue}
use hermes_hyperspacedb_prov.Ledger.Tables.{LedgerRecord, Status}
use hermes_hyperspacedb_prov.Ownership.{plugin_id, point_owner_matches}
use hermes_hyperspacedb_prov.Provider.{Context, Provider, call}
use hermes_hyperspacedb_prov.Provider.Frame.{Answered, call-Answered, Result-cases}
use hermes_hyperspacedb_prov.Mutation.{
  keys, fetch, list_reply, owner_matches, check_delete, delete_point, confirm_delete, delete_first,
  delete_verified,
}
use hermes_hyperspacedb_prov.Mutation.Event.{
  store_event, remove_event, give_up, replace_event, apply_memory_event,
}
use hermes_hyperspacedb_prov.Mutation.Safety.{
  IsSafe, ReadBefore, IsCleared, IsCleared-IsDeletable, call_step, safe_rules,
}
use hermes_hyperspacedb_prov.Mutation.Guarded.{
  fetch-IsSafe, backend_proven_alive-IsSafe, store_content-IsSafe,
}
use hermes_hyperspacedb_prov.Mutation.ResolveGuarded.{resolve_old-IsSafe}

raise_twice : (a b : Bool) (e f : Exn) (p : Provider) → ((raise_if a e >> raise_if b f) p).1 ≡ p
unfolding raise_if ◌>>=◌
raise_twice true b e f p = refl
raise_twice false true e f p = refl
raise_twice false false e f p = refl

module _ (env : Env) (point : Value) (r : LedgerRecord) (p : Provider) where
  -- What `check_delete` reads of the point.
  abbrev owner_result : Result Bool
  owner_result =
      point_owner_matches env point r.digest p.config.collection p.config.profile_scope
        (keys p.config)

  check_owned :
      is_text plugin_id (get "_hs_owner" (metadata point)) ≡ true
      → (check_delete env point r p).0 ≡ ok tt
      → owner_result ≡ ok true
  unfolding check_delete owner_matches lift raise_if ◌>>=◌
  check_owned o h = elim (Result-cases owner_result) [
    | inl (true, e) ↦ e
    | inl (false, e) ↦ absurd (cc (rw (o, e, check_delete) at h))
    | inr (e, bad) ↦ absurd (cc (rw (o, bad, check_delete) at h))
  ]

  check_legacy :
      is_text plugin_id (get "_hs_owner" (metadata point)) ≡ false
      → (check_delete env point r p).0 ≡ ok tt
      → (Text.is_empty (extract_content point) ≡ false) × (extract_content point ≡ r.content)
  unfolding check_delete raise_if ◌>>=◌
  check_legacy o h = ground (arith, eq_iff (extract_content point) r.content)

  pub check_delete-frame : (check_delete env point r p).1 ≡ p
  unfolding check_delete owner_matches lift raise_if ◌>>=◌
  check_delete-frame = elim (Bool-cases (is_text plugin_id (get "_hs_owner" (metadata point)))) [
    | inr legacy ↦ rw (legacy, check_delete) (raise_twice _ _ _ _ p)
    | inl o ↦ elim (Result-cases owner_result) [
      | inl (true, e) ↦ rw (o, e, check_delete) refl
      | inl (false, e) ↦ rw (o, e, check_delete) refl
      | inr (e, bad) ↦ rw (o, bad, check_delete) refl
    ]
  ]

  pub check_delete-IsCleared :
      (check_delete env point r p).0 ≡ ok tt → IsCleared env p.config r point
  check_delete-IsCleared h =
      elim (Bool-cases (is_text plugin_id (get "_hs_owner" (metadata point)))) [
        | inl o ↦ inl (check_owned o h)
        | inr o ↦ let (full, same) = check_legacy o h in inr (o, full, same)
      ]

module _ {env : Env} {c : Context} where
  confirm_delete-IsSafe :
      (r : LedgerRecord) (done : Value) → Preserves (IsSafe env c) (confirm_delete env r done)
  unfolding confirm_delete
  confirm_delete-IsSafe r done = search (safe_rules, fetch-IsSafe, backend_proven_alive-IsSafe)

  delete_point-step :
      (r : LedgerRecord) (p : Provider)
      → IsSafe env c p
      → ReadBefore env c.config r.external_id p.config.collection p.history
      → IsSafe env c (delete_point env r p).1
  unfolding delete_point gets ◌>>=◌
  delete_point-step r p k read =
      (Preserves-continue (call env (delete r.external_id p.config.collection) p).0
          (confirm_delete env r) (confirm_delete-IsSafe r)).run
        (call env (delete r.external_id p.config.collection) p).1
        (call_step env c (delete r.external_id p.config.collection) p k (read, k.only_cleared))

  -- The rest of `_delete_verified`, once the point is checked.
  checked-step :
      (r : LedgerRecord) (p : Provider) (point : Value) (res : Result (Unit {0})) (p' : Provider)
      → IsSafe env c p
      → p' ≡ p
      → (res ≡ ok tt → ReadBefore env c.config r.external_id p.config.collection p.history)
      → IsSafe env c (continue res (λ _. delete_point env r) p').1
  checked-step r p point (ok u) p' k same read = rw same (delete_point-step r p k (read refl))
  checked-step r p point (err e) p' k same read = rw same k

  delete_first-step :
      (r : LedgerRecord) (p p' : Provider) (v : Value) (vs : List Value)
      → IsSafe env c p'
      → Answered env (get_points (r.external_id ∷ []) p.config.collection) p v p'
      → as_list v ≡ some vs
      → IsSafe env c (delete_first env r vs p').1
  unfolding delete_first ◌>>=◌
  delete_first-step r p p' v [] k a l = backend_proven_alive-IsSafe.run p' k
  delete_first-step r p p' v (point ∷ rest) k a l =
      checked-step r p' point (check_delete env point r p').0 (check_delete env point r p').1 k
        (check_delete-frame env point r p')
        (λ h. record {
          before = p.history;
          latest = rw (ap (λ w. w.config) a.same_context) a.made;
          value = v;
          answer = rw (ap (λ w. w.config) a.same_context) a.answer;
          point = point;
          rest = rest;
          points = l;
          cleared =
              IsCleared-IsDeletable env c.config r point (
                rw (ap (λ w. w.config) k.same_context) at
                  (check_delete-IsCleared env point r p' h));
        })

  listed-step :
      (r : LedgerRecord) (p p' : Provider) (v : Value) (o : Option (List Value))
      → IsSafe env c p'
      → Answered env (get_points (r.external_id ∷ []) p.config.collection) p v p'
      → as_list v ≡ o
      → IsSafe env c ((list_reply v >>= delete_first env r) p').1
  unfolding list_reply ◌>>=◌ pure raise
  listed-step r p p' v none k a l = rw (l, list_reply, ◌>>=◌) k
  listed-step r p p' v (some vs) k a l =
      rw (l, list_reply, ◌>>=◌) (delete_first-step r p p' v vs k a l)

  fetched-step :
      (r : LedgerRecord) (p : Provider) (res : Result Value) (p' : Provider)
      → IsSafe env c p'
      → fetch env r.external_id p ≡ (res, p')
      → IsSafe env c (continue res (λ reply. list_reply reply >>= delete_first env r) p').1
  unfolding fetch
  fetched-step r p (err e) p' k h = k
  fetched-step r p (ok v) p' k h =
      listed-step r p p' v (as_list v) k
        (call-Answered env (get_points (r.external_id ∷ []) p.config.collection) p p' v h) refl

  pub delete_verified-IsSafe : (r : LedgerRecord) → Preserves (IsSafe env c) (delete_verified env r)
  unfolding delete_verified ◌>>=◌
  delete_verified-IsSafe r = record {
    run = λ p k.
        unfold ◌>>=◌ in
        fetched-step r p (fetch env r.external_id p).0 (fetch env r.external_id p).1
          ((fetch-IsSafe r.external_id).run p k) refl;
  }

  store_event-IsSafe :
      (target content : String) (meta : Fields)
      → Preserves (IsSafe env c) (store_event env target content meta)
  unfolding store_event
  store_event-IsSafe target content meta = search (safe_rules, store_content-IsSafe)

  give_up-IsSafe :
      {A : Type 0} (d : String) (s : Status) (e : ProviderError)
      → Preserves (IsSafe env c) (give_up env {A = A} d s e)
  unfolding give_up
  give_up-IsSafe d s e = search safe_rules

  remove_event-IsSafe : (r : LedgerRecord) → Preserves (IsSafe env c) (remove_event env r)
  unfolding remove_event
  remove_event-IsSafe r = search (safe_rules, delete_verified-IsSafe)

  replace_event-IsSafe :
      (target content : String) (meta : Fields) (r : LedgerRecord)
      → Preserves (IsSafe env c) (replace_event env target content meta r)
  unfolding replace_event
  replace_event-IsSafe target content meta r =
      search (safe_rules, store_event-IsSafe, give_up-IsSafe, delete_verified-IsSafe) depth 12

  pub apply_memory_event-Preserves :
      (action target content : String) (meta : Fields)
      → Preserves (IsSafe env c) (apply_memory_event env action target content meta)
  unfolding apply_memory_event
  apply_memory_event-Preserves action target content meta =
      search
        (
          safe_rules, store_event-IsSafe, resolve_old-IsSafe, remove_event-IsSafe,
          replace_event-IsSafe,
        )
        depth 16

-- A memory event keeps the invariant.
pub apply_memory_event-IsSafe :
    (env : Env) (c : Context) (action target content : String) (meta : Fields) (p : Provider)
    → IsSafe env c p
    → IsSafe env c (apply_memory_event env action target content meta p).1
apply_memory_event-IsSafe env c action target content meta p k =
    (apply_memory_event-Preserves action target content meta).run p k
