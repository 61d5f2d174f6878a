-- ===== src/Session/Forgotten.antt =====
-- _provider.py and _capabilities.py: handles after `on_session_switch`.
use hermes_hyperspacedb_prov.Prelude.{String, ◌≡◌, refl, false, Option, [], inl, inr, Option-cases}
use hermes_hyperspacedb_prov.Text
use hermes_hyperspacedb_prov.Value.{Value, str}
use hermes_hyperspacedb_prov.Errors.{err, fail, capability_forbidden}
use hermes_hyperspacedb_prov.World.{Env}
use hermes_hyperspacedb_prov.Exec.{gets, modify, pure, raise, ◌>>=◌}
use hermes_hyperspacedb_prov.Capability.{find}
use hermes_hyperspacedb_prov.Capability.Resolve.{resolve_one-outcome}
use hermes_hyperspacedb_prov.Provider.{Provider}
use hermes_hyperspacedb_prov.Provider.Frame.{Result-cases}
use hermes_hyperspacedb_prov.Tools.{resolve_point}
use hermes_hyperspacedb_prov.Session.{begin_session, open_ledger, on_session_switch}

module _ (env : Env) where
  open_ledger-capabilities : (q : Provider) → (open_ledger env q).1.capabilities ≡ q.capabilities
  unfolding open_ledger
  open_ledger-capabilities q = elim (Result-cases (env.open_ledger q.ticks q.state_path)) [
    | inl (l, e) ↦ rw (e, open_ledger) refl
    | inr (x, e) ↦ rw (e, open_ledger) refl
  ]

  switch-empty :
      (session_id : String) (home : Option String) (agent : Value) (p : Provider)
      → (on_session_switch env session_id home agent p).1.capabilities ≡ []
  unfolding on_session_switch begin_session gets modify pure ◌>>=◌
  switch-empty session_id home agent p = elim (Option-cases p.ledger) [
    | inl n ↦ rw (n, on_session_switch, ◌>>=◌) refl
    | inr (l, h) ↦ rw (h, on_session_switch, ◌>>=◌) (open_ledger-capabilities _)
  ]

  unknown_handle :
      (handle collection : String) (p : Provider)
      → Text.is_empty handle ≡ false
      → p.capabilities ≡ []
      → (resolve_point env (str handle) collection p).0
        ≡ err (fail capability_forbidden "Capability was not issued by this provider session")
  unfolding resolve_point find raise
  unknown_handle handle collection p full none_left =
      rw
        (
          resolve_one-outcome handle collection p.profile_scope p.session_id (env.monotonic p.ticks)
              p.capabilities full,
          none_left,
          resolve_point,
        )
        refl

-- After a session switch no handle that was minted before it is honoured: whatever the provider's
-- capabilities were, resolving any text for any collection raises a `CapabilityForbidden`.
pub on_session_switch-forgets :
    (env : Env) (session_id : String) (home : Option String) (agent : Value) (p : Provider)
    (handle collection : String)
    → Text.is_empty handle ≡ false
    → (resolve_point env
        (str handle)
        collection
        (on_session_switch env session_id home agent p).1).0
      ≡ err (fail capability_forbidden "Capability was not issued by this provider session")
on_session_switch-forgets env session_id home agent p handle collection full =
    unknown_handle env handle collection (on_session_switch env session_id home agent p).1 full
      (switch-empty env session_id home agent p)
