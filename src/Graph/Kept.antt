-- ===== src/Graph/Kept.antt =====
-- _graph.py: the state that minting handles for a graph result leaves.
use hermes_hyperspacedb_prov.Prelude.{
  String, ◌≡◌, false, Option, some, inl, inr, Option-cases, Bool-cases,
}
use hermes_hyperspacedb_prov.Value.{
  Value, Items, Fields, null, bool, int, neg, float, str, bytes, bytearray, list, tuple, dict,
  object, nil, cons, end, field,
}
use hermes_hyperspacedb_prov.Graph.{
  mint_all, put_handles, put_entry, is_blocked, handle_key, handles_key, sanitize, sanitize_items,
  sanitize_fields,
}

-- Sanitising a graph result keeps what minting a handle keeps.
module _ {S : Type 0} (P : S → Type 0) (mint : Value → S → Option String × S)
    (mint-P : (v : Value) (s : S) → P s → P (mint v s).1) where
  mint_all-P : (vs : Items) (s : S) → P s → P (mint_all mint vs s).1
  unfolding mint_all
  mint_all-P nil s h = h
  mint_all-P (cons v vs) s h = elim (Option-cases (mint v s).0) [
    | inl n ↦ rw (n, mint_all) (mint_all-P vs (mint v s).1 (mint-P v s h))
    | inr (t, e) ↦ rw (e, mint_all) (mint_all-P vs (mint v s).1 (mint-P v s h))
  ]

  put_handles-P :
      (key handles : String) (v w : Value) (s' : S) (done : Fields) (s : S)
      → P s
      → P s'
      → P (put_handles mint key handles v (w, s') done s).1
  unfolding put_handles
  put_handles-P key handles (list xs) w s' done s h h' = mint_all-P xs s h
  put_handles-P key handles _ w s' done s h h' = h'

  minted-P :
      (key handle : String) (v w : Value) (s' : S) (done : Fields) (s : S)
      → is_blocked key ≡ false
      → handle_key key ≡ some handle
      → P s
      → P (put_entry mint key v (w, s') done s).1
  unfolding put_entry
  minted-P key handle v w s' done s b e h = elim (Option-cases (mint v s).0) [
    | inl n ↦ rw (b, e, n, put_entry) (mint-P v s h)
    | inr (t, m) ↦ rw (b, e, m, put_entry) (mint-P v s h)
  ]

  put_entry-P :
      (key : String) (v w : Value) (s' : S) (done : Fields) (s : S)
      → P s
      → P s'
      → P (put_entry mint key v (w, s') done s).1
  unfolding put_entry
  put_entry-P key v w s' done s h h' = elim (Bool-cases (is_blocked key)) [
    | inl b ↦ rw (b, put_entry) h
    | inr b ↦ elim (Option-cases (handle_key key)) [
      | inr (handle, e) ↦ minted-P key handle v w s' done s b e h
      | inl e ↦ elim (Option-cases (handles_key key)) [
        | inl n ↦ rw (b, e, n, put_entry) h'
        | inr (handles, m) ↦ rw (b, e, m, put_entry) (put_handles-P key handles v w s' done s h h')
      ]
    ]
  ]

  mutual
    unfolding sanitize sanitize_items sanitize_fields

    pub sanitize-P : (v : Value) (s : S) → P s → P (sanitize mint v s).1
    sanitize-P (list xs) s h = items-P xs s h
    sanitize-P (dict fs) s h = fields-P fs end s h
    sanitize-P null s h = h
    sanitize-P (bool b) s h = h
    sanitize-P (int n) s h = h
    sanitize-P (neg n) s h = h
    sanitize-P (float x) s h = h
    sanitize-P (str t) s h = h
    sanitize-P (bytes t) s h = h
    sanitize-P (bytearray t) s h = h
    sanitize-P (tuple xs) s h = h
    sanitize-P (object t) s h = h

    pub items-P : (xs : Items) (s : S) → P s → P (sanitize_items mint xs s).1
    items-P nil s h = h
    items-P (cons v xs) s h = items-P xs (sanitize mint v s).1 (sanitize-P v s h)

    pub fields-P : (fs done : Fields) (s : S) → P s → P (sanitize_fields mint fs done s).1
    fields-P end done s h = h
    fields-P (field k v fs) done s h =
        fields-P fs (put_entry mint k v (sanitize mint v s) done s).0
          (put_entry mint k v (sanitize mint v s) done s).1
          (put_entry-P k v (sanitize mint v s).0 (sanitize mint v s).1 done s h (sanitize-P v s h))
