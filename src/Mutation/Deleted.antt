-- ===== src/Mutation/Deleted.antt =====
-- _provider.py: `_delete_verified`, what it deletes and on which grounds.
use hermes_hyperspacedb_prov.Prelude.{
  ℕ, String, ◌≡◌, refl, ap, ◌⊎◌, inl, inr, Option, none, some, List, [], ◌∷◌,
}
use hermes_hyperspacedb_prov.Value.{Value, as_list}
use hermes_hyperspacedb_prov.Errors.{Result, ok, err}
use hermes_hyperspacedb_prov.World.{Env, Request, returned, delete, get_points, health_check}
use hermes_hyperspacedb_prov.Exec.{gets, continue, ◌>>=◌, pure, raise}
use hermes_hyperspacedb_prov.Exec.Rules.{Preserves, Preserves-continue, preserves_rules}
use hermes_hyperspacedb_prov.Ledger.Tables.{LedgerRecord}
use hermes_hyperspacedb_prov.Provider.{Provider, call, backend_proven_alive}
use hermes_hyperspacedb_prov.Provider.Frame.{Answered, call-Answered, call-On}
use hermes_hyperspacedb_prov.Mutation.{
  fetch, list_reply, check_delete, delete_point, confirm_delete, delete_first, delete_verified,
}
use hermes_hyperspacedb_prov.Mutation.Safety.{IsCleared}
use hermes_hyperspacedb_prov.Mutation.DeleteGuarded.{check_delete-frame, check_delete-IsCleared}

-- The ids that were deleted, with their collections, the latest first.
abbrev pub deletes : List Request → List (ℕ × String)
deletes [] = []
deletes (delete i collection ∷ h) = (i, collection) ∷ deletes h
deletes (_ ∷ h) = deletes h

-- What was deleted has this property.
record Sent (P : List (ℕ × String) → Type 0) (q : Provider) : Type 0 where
  sent : P (deletes q.history)

-- At most this one has been deleted since these were.
abbrev AtMost : ℕ × String → List (ℕ × String) → List (ℕ × String) → Type 0
AtMost d ds es = (es ≡ ds) ⊎ (es ≡ d ∷ ds)

-- The backend answers the read of the record's id with a list, and the first point of it may be
-- deleted for this record: it names the plugin and is authenticated for the record's digest, or it
-- does not name the plugin and has the record's content, which is not empty.
pub record MayDelete (env : Env) (r : LedgerRecord) (p : Provider) : Type 0 where
  pub value : Value
  pub point : Value
  pub rest : List Value
  pub answer :
      env.backend p.history (get_points (r.external_id ∷ []) p.config.collection) ≡ returned value
  pub points : as_list value ≡ some (point ∷ rest)
  pub cleared : IsCleared env p.config r point

-- Nothing was deleted, or only the record's point, on good grounds.
abbrev pub DeletesOwn : Env → LedgerRecord → Provider → Provider → Type 0
DeletesOwn env r p q =
    (deletes q.history ≡ deletes p.history)
    ⊎ ((deletes q.history ≡ (r.external_id, p.config.collection) ∷ deletes p.history)
        × MayDelete env r p)

module _ (env : Env) {P : List (ℕ × String) → Type 0} where
  fetch-Sent : (i : ℕ) → Preserves (Sent P) (fetch env i)
  unfolding fetch
  fetch-Sent i = record {
    run = λ p k. record {
      sent = call-On (λ c l h. P (deletes h)) (λ c l h k. k) env _ p k.sent k.sent;
    };
  }

  alive-Sent : Preserves (Sent P) (call env health_check)
  alive-Sent = record {
    run = λ p k. record {
      sent = call-On (λ c l h. P (deletes h)) (λ c l h k. k) env health_check p k.sent k.sent;
    };
  }

  backend_proven_alive-Sent : Preserves (Sent P) (backend_proven_alive env)
  unfolding backend_proven_alive
  backend_proven_alive-Sent = search (preserves_rules, alive-Sent)

  confirm_delete-Sent :
      (r : LedgerRecord) (done : Value) → Preserves (Sent P) (confirm_delete env r done)
  unfolding confirm_delete
  confirm_delete-Sent r done = search (preserves_rules, fetch-Sent, backend_proven_alive-Sent)

module _ (env : Env) (r : LedgerRecord) (p : Provider) where
  abbrev own : ℕ × String
  own = (r.external_id, p.config.collection)

  -- A read deletes nothing, and neither does the health check.
  fetch-deletes : deletes (fetch env r.external_id p).1.history ≡ deletes p.history
  fetch-deletes =
      ((fetch-Sent env {P = λ es. es ≡ deletes p.history} r.external_id).run p
        (record { sent = refl })).sent

  alive-deletes :
      (q : Provider)
      → deletes q.history ≡ deletes p.history
      → deletes (backend_proven_alive env q).1.history ≡ deletes p.history
  alive-deletes q e =
      ((backend_proven_alive-Sent env {P = λ es. es ≡ deletes p.history}).run q
        (record { sent = e })).sent

  delete_point-AtMost :
      (q : Provider)
      → q.context ≡ p.context
      → deletes q.history ≡ deletes p.history
      → AtMost own (deletes p.history) (deletes (delete_point env r q).1.history)
  unfolding delete_point gets ◌>>=◌
  delete_point-AtMost q c e =
      ((Preserves-continue (call env (delete r.external_id q.config.collection) q).0
          (confirm_delete env r)
          (confirm_delete-Sent env {P = AtMost own (deletes p.history)} r)).run
        (call env (delete r.external_id q.config.collection) q).1
        (record {
          sent =
              call-On (λ c l h. AtMost own (deletes p.history) (deletes h)) (λ c l h k. k) env
                (delete r.external_id q.config.collection) q (inl e)
                (inr (rw (e, ap (λ w. w.config) c) refl));
        })).sent

  granted-DeletesOwn :
      (q : Provider)
      → AtMost own (deletes p.history) (deletes q.history)
      → MayDelete env r p
      → DeletesOwn env r p q
  granted-DeletesOwn q (inl e) m = inl e
  granted-DeletesOwn q (inr e) m = inr (e, m)

  checked-DeletesOwn :
      (q q' : Provider) (res : Result (Unit {0}))
      → q.context ≡ p.context
      → deletes q.history ≡ deletes p.history
      → q' ≡ q
      → (res ≡ ok tt → MayDelete env r p)
      → DeletesOwn env r p (continue res (λ _. delete_point env r) q').1
  checked-DeletesOwn q q' (ok u) c e same m =
      rw same (granted-DeletesOwn (delete_point env r q).1 (delete_point-AtMost q c e) (m refl))
  checked-DeletesOwn q q' (err x) c e same m = rw same (inl e)

  first-DeletesOwn :
      (q : Provider) (v : Value) (vs : List Value)
      → Answered env (get_points (r.external_id ∷ []) p.config.collection) p v q
      → deletes q.history ≡ deletes p.history
      → as_list v ≡ some vs
      → DeletesOwn env r p (delete_first env r vs q).1
  unfolding delete_first ◌>>=◌
  first-DeletesOwn q v [] a e l = inl (alive-deletes q e)
  first-DeletesOwn q v (point ∷ rest) a e l =
      checked-DeletesOwn q (check_delete env point r q).1 (check_delete env point r q).0
        a.same_context e (check_delete-frame env point r q)
        (λ h. record {
          value = v;
          point = point;
          rest = rest;
          answer = a.answer;
          points = l;
          cleared =
              rw (ap (λ w. w.config) a.same_context) at (check_delete-IsCleared env point r q h);
        })

  listed-DeletesOwn :
      (q : Provider) (v : Value) (o : Option (List Value))
      → Answered env (get_points (r.external_id ∷ []) p.config.collection) p v q
      → deletes q.history ≡ deletes p.history
      → as_list v ≡ o
      → DeletesOwn env r p ((list_reply v >>= delete_first env r) q).1
  unfolding list_reply ◌>>=◌ pure raise
  listed-DeletesOwn q v none a e l = rw (l, list_reply, ◌>>=◌) (inl e)
  listed-DeletesOwn q v (some vs) a e l = rw (l, list_reply, ◌>>=◌) (first-DeletesOwn q v vs a e l)

  fetched-DeletesOwn :
      (res : Result Value) (q : Provider)
      → fetch env r.external_id p ≡ (res, q)
      → deletes q.history ≡ deletes p.history
      → DeletesOwn env r p (continue res (λ reply. list_reply reply >>= delete_first env r) q).1
  unfolding fetch
  fetched-DeletesOwn (err x) q h e = inl e
  fetched-DeletesOwn (ok v) q h e =
      listed-DeletesOwn q v (as_list v)
        (call-Answered env (get_points (r.external_id ∷ []) p.config.collection) p q v h) e refl

-- However `_delete_verified` ends and whatever the backend replies: it deletes nothing, or it deletes
-- once, and only the record's id in the configured collection; and it deletes only where the backend,
-- asked for that id first, answers with a point that may be deleted for this record: one that names the
-- plugin and is authenticated for the record's digest, or one that does not name the plugin and has the
-- record's content, which is not empty.
pub delete_verified-DeletesOwn :
    (env : Env) (r : LedgerRecord) (p : Provider) → DeletesOwn env r p (delete_verified env r p).1
unfolding delete_verified ◌>>=◌
delete_verified-DeletesOwn env r p =
    fetched-DeletesOwn env r p (fetch env r.external_id p).0 (fetch env r.external_id p).1 refl
      (fetch-deletes env r p)
