-- ===== src/Tools/Listed.antt =====
-- _provider.py and _tools.py: which calls of a tool are handled.
use hermes_hyperspacedb_prov.Prelude.{
  String, ◌≡◌, refl, ap, ◌∙◌, Bool, true, false, not, ◌&&◌, inl, inr, some, List, [], ◌∷◌, ◌++◌,
  is_some, ◌==◌, if◌then◌else◌, arith, Bool-cases, Option-cases,
}
use hermes_hyperspacedb_prov.Prelude.Lists.{any}
use hermes_hyperspacedb_prov.Value.{Fields}
use hermes_hyperspacedb_prov.World.{Env}
use hermes_hyperspacedb_prov.Errors.{ok}
use hermes_hyperspacedb_prov.Exec.{Exec, ◌>>=◌, gets, pure}
use hermes_hyperspacedb_prov.Config.{Config}
use hermes_hyperspacedb_prov.Provider.{Provider}
use hermes_hyperspacedb_prov.Tools.Dispatch.{
  Handler, tool_schemas, get_tool_schemas, handler_named, basic_handlers, handlers, allowed_args,
  without_reason, unexpected_args, sort_texts, text_before, place_text, run_tool, handle_tool_call,
}

abbrev tool_names : List (String × Handler) → List String
tool_names [] = []
tool_names ((k, h) ∷ rest) = k ∷ tool_names rest

is_some-handler_named :
    (name : String) (hs : List (String × Handler))
    → is_some (handler_named name hs) ≡ any (λ k. k == name) (tool_names hs)
unfolding handler_named any
is_some-handler_named name [] = refl
is_some-handler_named name ((k, h) ∷ rest) = ground (arith, is_some-handler_named name rest)

tool_names-append :
    (hs ks : List (String × Handler)) → tool_names (hs ++ ks) ≡ tool_names hs ++ tool_names ks
tool_names-append [] ks = refl
tool_names-append ((k, h) ∷ hs) ks = ap (◌∷◌ k) (tool_names-append hs ks)

tool_names-optional :
    (b : Bool) (k : String) (h : Handler)
    → tool_names (if b then (k, h) ∷ [] else []) ≡ (if b then k ∷ [] else [])
tool_names-optional true k h = refl
tool_names-optional false k h = refl

tool_names-handlers : (env : Env) (c : Config) → tool_names (handlers env c) ≡ get_tool_schemas c
unfolding handlers basic_handlers get_tool_schemas tool_schemas
tool_names-handlers env c = simp (tool_names-append, tool_names-optional)

-- A tool has a handler exactly if its schema is listed.
pub handlers-IsListed :
    (env : Env) (c : Config) (name : String)
    → is_some (handler_named name (handlers env c)) ≡ any (λ k. k == name) (get_tool_schemas c)
handlers-IsListed env c name =
    is_some-handler_named name (handlers env c)
    ∙ ap (any (λ k. k == name)) (tool_names-handlers env c)

-- A call that `handle_tool_call` answers with an error of its own.
pub data IsRefused (c : Config) (enabled : Bool) (name : String) (args : Fields) : Type 0 where
  writes_off : (name == "hyperspace_store") ≡ true → enabled ≡ false → IsRefused c enabled name args
  unlisted : any (λ k. k == name) (get_tool_schemas c) ≡ false → IsRefused c enabled name args
  unexpected :
      (k : String) (ks : List String)
      → unexpected_args (allowed_args name) (without_reason args) ≡ k ∷ ks
      → IsRefused c enabled name args

place-nonempty :
    (s : String) (l : List String) → (t : String) × ((ts : List String) × (place_text s l ≡ t ∷ ts))
unfolding place_text
place-nonempty s [] = (s, ([], refl))
place-nonempty s (u ∷ l) = elim (Bool-cases (text_before s u)) [
  | inl t ↦ (s, (u ∷ l, rw t refl))
  | inr t ↦ (u, (place_text s l, rw t refl))
]

module _ (env : Env) (name : String) (args : Fields) (p : Provider) where
  -- The call is answered, and nothing of the provider changes.
  abbrev pub Answers : Exec Provider String → Type 0
  Answers m = (s : String) × (m p ≡ (ok s, p))

  unexpected-Answers :
      (h : Handler) (k : String) (ks : List String)
      → unexpected_args (allowed_args name) (without_reason args) ≡ k ∷ ks
      → Answers (run_tool env name args h)
  unfolding run_tool pure sort_texts
  unexpected-Answers h k ks e =
      let (t, (ts, sorted)) = place-nonempty k (sort_texts ks) in rw (e, run_tool, sorted) (_, refl)

  listed-Answers :
      (h : Handler)
      → (name == "hyperspace_store" && not p.writes_enabled) ≡ false
      → handler_named name (handlers env p.config) ≡ some h
      → IsRefused p.config p.writes_enabled name args
      → Answers (run_tool env name args h)
  listed-Answers h t e (writes_off x y) = absurd (cc (rw (x, y) at t))
  listed-Answers h t e (unlisted x) =
      absurd (cc (rw (e, x) at (handlers-IsListed env p.config name)))
  listed-Answers h t e (unexpected k ks x) = unexpected-Answers h k ks x

  -- A call that stores while writes are off, that names a tool which is not listed, or that has an
  -- argument which the tool does not take (a `reason` aside), is answered, and leaves the provider as
  -- it was: nothing is sent to the backend.
  pub handle_tool_call-IsRefused :
      IsRefused p.config p.writes_enabled name args → Answers (handle_tool_call env name args)
  unfolding handle_tool_call gets pure ◌>>=◌
  handle_tool_call-IsRefused r =
      elim (Bool-cases (name == "hyperspace_store" && not p.writes_enabled)) [
        | inl t ↦ rw (t, handle_tool_call, ◌>>=◌) (_, refl)
        | inr t ↦ elim (Option-cases (handler_named name (handlers env p.config))) [
          | inl n ↦ rw (t, n, handle_tool_call, ◌>>=◌) (_, refl)
          | inr (h, e) ↦ rw (t, e, handle_tool_call, ◌>>=◌) (listed-Answers h t e r)
        ]
      ]
