-- ===== src/Graph.antt =====
-- _graph.py: `sanitize_graph_result`, which puts scoped handles in the place of raw point ids. The
-- function that mints handles is an argument, with the state that it changes.
pub mod Raw
pub mod Kept
use hermes_hyperspacedb_prov.Prelude.{
  String, Bool, true, false, Option, none, some, List, [], ◌∷◌, ◌==◌, if◌then◌else◌,
}
use hermes_hyperspacedb_prov.Prelude.Lists.{any}
use hermes_hyperspacedb_prov.Value.{
  Value, Items, Fields, str, list, dict, nil, cons, end, field, set,
}

-- `blocked_raw_keys`
unfoldable pub is_blocked : String → Bool
is_blocked key =
    any (λ k. k == key)
      ("vector" ∷ "vectors" ∷ "embedding" ∷ "embeddings" ∷ "raw_vector" ∷ "point_id"
        ∷ "raw_point_id" ∷ "_hs_digest" ∷ "_hs_owner" ∷ "_hs_signature" ∷ [])

-- What a table has for a key.
unfoldable pub entry : String → List (String × String) → Option String
entry key [] = none
entry key ((k, h) ∷ table) = if k == key then some h else entry key table

-- `id_key_to_handle_key`
abbrev pub handle_keys : List (String × String)
handle_keys =
    (("id", "handle")
      ∷ ("start_id", "start_handle")
      ∷ ("root_id", "root_handle")
      ∷ ("node_id", "node_handle")
      ∷ ("parent_id", "parent_handle")
      ∷ ("child_id", "child_handle")
      ∷ [])

unfoldable pub handle_key : String → Option String
handle_key key = entry key handle_keys

-- `id_list_key_to_handle_key`
abbrev pub handles_keys : List (String × String)
handles_keys =
    (("ids", "handles")
      ∷ ("node_ids", "node_handles")
      ∷ ("parent_ids", "parent_handles")
      ∷ ("child_ids", "child_handles")
      ∷ ("neighbors", "neighbor_handles")
      ∷ [])

unfoldable pub handles_key : String → Option String
handles_key key = entry key handles_keys

module _ {S : Type 0} (mint : Value → S → Option String × S) where
  -- The handles of the ids that have one.
  unfoldable pub mint_all : Items → S → Items × S
  mint_all nil s = (nil, s)
  mint_all (cons v xs) s =
      let (h, s₁) = mint v s in
      let (hs, s₂) = mint_all xs s₁ in elim h [ none ↦ (hs, s₂) | some t ↦ (cons (str t) hs, s₂) ]

  -- What a list of ids gives under its key; any other value stays, as it is sanitised.
  unfoldable pub put_handles : String → String → Value → Value × S → Fields → S → Fields × S
  unfolding mint_all
  put_handles key handles (list xs) (w, s') done s =
      let (hs, s₁) = mint_all xs s in (set handles (list hs) done, s₁)
  put_handles key handles v (w, s') done s = (set key w done, s')

  -- One round of the loop over a dictionary; `(w, s')` is the value sanitised.
  unfoldable pub put_entry : String → Value → Value × S → Fields → S → Fields × S
  unfolding put_handles
  put_entry key v (w, s') done s = if is_blocked key then (done, s) else elim (handle_key key) [
    | some handle ↦
        let (h, s₁) = mint v s in
        elim h [ none ↦ (done, s₁) | some t ↦ (set handle (str t) done, s₁) ]
    | none ↦ elim (handles_key key) [
      | some handles ↦ put_handles key handles v (w, s') done s
      | none ↦ (set key w done, s')
    ]
  ]

  -- `sanitize_graph_result`
  unfoldable mutual
    unfolding put_entry

    pub sanitize : Value → S → Value × S
    sanitize (list xs) s = let (ys, s') = sanitize_items xs s in (list ys, s')
    sanitize (dict fs) s = let (gs, s') = sanitize_fields fs end s in (dict gs, s')
    sanitize v s = (v, s)

    pub sanitize_items : Items → S → Items × S
    sanitize_items nil s = (nil, s)
    sanitize_items (cons v xs) s =
        let (w, s₁) = sanitize v s in let (ys, s₂) = sanitize_items xs s₁ in (cons w ys, s₂)

    pub sanitize_fields : Fields → Fields → S → Fields × S
    sanitize_fields end done s = (done, s)
    sanitize_fields (field k v fs) done s =
        let (done', s') = put_entry k v (sanitize v s) done s in sanitize_fields fs done' s'
