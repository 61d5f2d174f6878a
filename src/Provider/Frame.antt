-- ===== src/Provider/Frame.antt =====
-- What an RPC leaves alone: the context and, but for closing it after a shutdown, the ledger; and
-- what it adds to the calls that the SDK has received.
use hermes_hyperspacedb_prov.Prelude.{
  ℕ, suc, ◌≡◌, refl, ◌∙◌, Option, none, List, ◌∷◌, inl, inr, arith, Bool-cases,
}
use hermes_hyperspacedb_prov.Value.{Value}
use hermes_hyperspacedb_prov.Errors.{Result, ok, err, ProviderError, classify}
pub use hermes_hyperspacedb_prov.Exec.Still.{Result-cases}
use hermes_hyperspacedb_prov.World.{Env, Request, Reply, returned, raised, swallowed}
use hermes_hyperspacedb_prov.Config.{validate_config}
use hermes_hyperspacedb_prov.Client
use hermes_hyperspacedb_prov.Client.{Pool}
use hermes_hyperspacedb_prov.Ledger.{Ledger}
use hermes_hyperspacedb_prov.Provider.{
  Provider, Context, mark_error, release_client, reply_result, settle, fail_early, send, call_with,
  call, is_transport,
}

-- A property of the context, the ledger and the calls made, that closing the ledger keeps.
module _ (P : Context → Option Ledger → List Request → Type 0)
    (closing : (c : Context) (l : Option Ledger) (h : List Request) → P c l h → P c none h) where
  abbrev pub On : Provider → Type 0
  On p = P p.context p.ledger p.history

  pub mark-On : (env : Env) (e : ProviderError) (p : Provider) → On p → On (mark_error env e p)
  unfolding mark_error
  mark-On env e p h = ground arith

  release-On : (c : ℕ) (p : Provider) → On p → On (release_client c p)
  unfolding release_client
  release-On c p h = ground (arith, closing p.context p.ledger p.history h)

  settle-On : (env : Env) (c : ℕ) (r : Result Value) (p : Provider) → On p → On (settle env c r p).1
  unfolding settle
  settle-On env c (ok v) p h = release-On c p h
  settle-On env c (err e) p h = elim (Bool-cases (is_transport (classify e).code)) [
    | inl t ↦ rw (t, settle) (release-On c _ (mark-On env (classify e) p h))
    | inr t ↦ rw (t, settle) (release-On c _ (mark-On env (classify e) p h))
  ]

  call_with-On :
      (env : Env) (request : Request) (r : Result ℕ) (p : Provider)
      → On p
      → P p.context p.ledger (request ∷ p.history)
      → On (call_with env request r p).1
  unfolding call_with send fail_early
  call_with-On env request (err e) p h k = mark-On env (classify e) p h
  call_with-On env request (ok c) p h k =
      settle-On env c (reply_result (env.backend p.history request))
        (record p { history = request ∷ p.history }) k

  -- An RPC keeps what holds before it, if that still holds once the call is made.
  pub call-On :
      (env : Env) (request : Request) (p : Provider)
      → On p
      → P p.context p.ledger (request ∷ p.history)
      → On (call env request p).1
  unfolding call fail_early
  call-On env request p h k = elim (Result-cases (validate_config env p.config)) [
    | inr (e, bad) ↦ rw (bad, call) (mark-On env (classify e) p h)
    | inl (u, good) ↦
        rw (good, call)
          (call_with-On env request
            (Client.get_client (env.fingerprint p.ticks) (env.build_failure p.ticks) p.pool).0
            (record p {
              pool =
                  (Client.get_client (env.fingerprint p.ticks) (env.build_failure p.ticks)
                    p.pool).1;
              ticks = suc p.ticks;
            })
            h k)
  ]

-- What the rest of a method may use of an RPC that returned v.
pub record Answered (env : Env) (request : Request) (p : Provider) (v : Value) (p' : Provider)
    : Type 0 where
  pub answer : env.backend p.history request ≡ returned v
  pub made : p'.history ≡ request ∷ p.history
  pub same_context : p'.context ≡ p.context

abbrev Ends : Env → Request → Provider → Result Value × Provider → Type 0
Ends env request p (ok v, p') = Answered env request p v p'
Ends env request p (err e, p') = Unit

release-frame :
    (c : ℕ) (p : Provider)
    → ((release_client c p).history ≡ p.history) × ((release_client c p).context ≡ p.context)
unfolding release_client
release-frame c p = ground arith

-- Only a reply that the SDK returned, with no failure behind it, is a result.
returned-result : (reply : Reply) (v : Value) → reply_result reply ≡ ok v → reply ≡ returned v
unfolding reply_result
returned-result (returned w) v h = cc
returned-result (raised e) v h = absurd (cc h)
returned-result (swallowed e w) v h = absurd (cc h)

settle-Ends :
    (env : Env) (request : Request) (c : ℕ) (r : Result Value) (p q : Provider)
    → reply_result (env.backend p.history request) ≡ r
    → q.history ≡ request ∷ p.history
    → q.context ≡ p.context
    → Ends env request p (settle env c r q)
unfolding settle
settle-Ends env request c (ok v) p q e h k =
    let (f, g) = release-frame c q in
    record {
      answer = returned-result (env.backend p.history request) v e;
      made = f ∙ h;
      same_context = g ∙ k;
    }
settle-Ends env request c (err e) p q r h k = tt

-- The pool and the clock are taken along.
call_with-Ends :
    (env : Env) (request : Request) (r : Result ℕ) (p : Provider) (pool' : Pool)
    → Ends env request p (call_with env request r (record p { pool = pool'; ticks = suc p.ticks }))
unfolding call_with send fail_early
call_with-Ends env request (err e) p pool' = tt
call_with-Ends env request (ok c) p pool' =
    settle-Ends env request c (reply_result (env.backend p.history request)) p
      (record p { pool = pool'; ticks = suc p.ticks; history = request ∷ p.history }) refl refl refl

-- An RPC that returns v was made: it is the latest call that the SDK received, and the SDK returned v
-- for it, without an exception and without a failure that its telemetry recorded; the context is as
-- before.
pub call-Answered :
    (env : Env) (request : Request) (p p' : Provider) (v : Value)
    → call env request p ≡ (ok v, p')
    → Answered env request p v p'
unfolding call fail_early
call-Answered env request p p' v h = elim (Result-cases (validate_config env p.config)) [
  | inr (e, bad) ↦ absurd (cc (rw (bad, call) at h))
  | inl (u, good) ↦ rw (rw (good, call) at h) at (
      call_with-Ends env request
        (Client.get_client (env.fingerprint p.ticks) (env.build_failure p.ticks) p.pool).0 p
        (Client.get_client (env.fingerprint p.ticks) (env.build_failure p.ticks) p.pool).1)
]
