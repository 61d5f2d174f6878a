-- ===== src/Retrieval/Shown/Concealed.antt =====
-- _provider.py and _retrieval.py: what the text for the prompt and the results of the tools do not
-- depend on.
use hermes_hyperspacedb_prov.Prelude.{
  ℕ, ◌+◌, String, ◌≡◌, refl, not, ◌&&◌, Option, none, some, List, [], ◌∷◌, map, arith,
  if◌then◌else◌,
}
use hermes_hyperspacedb_prov.Text
use hermes_hyperspacedb_prov.World.{Env}
use hermes_hyperspacedb_prov.Exec.{◌>>=◌}
use hermes_hyperspacedb_prov.Config.{Config}
use hermes_hyperspacedb_prov.Provider.{Provider}
use hermes_hyperspacedb_prov.Retrieval.{Hit}
use hermes_hyperspacedb_prov.Retrieval.Shown.{
  first_line, second_line, append_line, line_of, mint_point, show_lines, show_records,
}

-- The record with another content, unless it may be quoted.
unfoldable pub conceal : String → Hit → Hit
conceal content h =
    if h.allowed_for_prefetch && not h.quarantined then h else record h { content = content }

line_of-conceal :
    (env : Env) (c : Config) (x : String) (h : Hit) (o : Option String)
    → line_of env c (conceal x h) o ≡ line_of env c h o
unfolding line_of conceal
line_of-conceal env c x h none = refl
line_of-conceal env c x h (some t) = ground arith

conceal-id : (x : String) (h : Hit) → (conceal x h).id ≡ h.id
unfolding conceal
conceal-id x h = ground arith

module _ (env : Env) (c : Config) (x : String) where
  show_lines-conceal :
      (hs : List Hit) (n : ℕ) → show_lines env c (map (conceal x) hs) n ≡ show_lines env c hs n
  unfolding show_lines
  show_lines-conceal [] n = refl
  show_lines-conceal (h ∷ hs) n = λ i. mint_point env (conceal-id x h i) c.collection >>= λ handle.
      append_line c n (line_of-conceal env c x h handle i) (λ m. show_lines-conceal hs m i)

  -- The text that `prefetch` makes of the records, and the provider that it leaves, do not depend on
  -- the content of a record that is quarantined or not allowed for the prompt.
  pub show_records-conceal :
      (hs : List Hit) (p : Provider)
      → show_records env c (map (conceal x) hs) p ≡ show_records env c hs p
  unfolding show_records
  show_records-conceal hs p =
      rw (show_lines-conceal hs (Text.length first_line + Text.length second_line)) refl
