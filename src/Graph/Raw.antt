-- ===== src/Graph/Raw.antt =====
-- What is left of raw ids and vectors in a graph result, at any depth.
use hermes_hyperspacedb_prov.Prelude.{
  false, none, String, ◌≡◌, refl, Bool, true, not, ◌&&◌, ◌||◌, Option, some, List, [], ◌∷◌, ◌==◌,
  arith, Option-cases, Bool-cases, inl, inr,
}
use hermes_hyperspacedb_prov.Prelude.Lists.{any, All}
use hermes_hyperspacedb_prov.Value.{
  Value, Items, Fields, null, bool, int, neg, float, str, bytes, bytearray, list, tuple, dict,
  object, nil, cons, end, field, set,
}
use hermes_hyperspacedb_prov.Graph.{
  handle_keys, handles_keys, is_blocked, entry, handle_key, handles_key, mint_all, put_handles,
  put_entry, sanitize, sanitize_items, sanitize_fields,
}

-- The keys of vectors, single point ids and three internal fields. Not among them: `_hs_profile`,
-- `_hs_owner_signature` and `_content`, and the keys of lists of ids, under which the code lets through
-- what is no list.
unfoldable pub is_raw : String → Bool
is_raw key =
    any (λ k. k == key)
      ("vector" ∷ "vectors" ∷ "embedding" ∷ "embeddings" ∷ "raw_vector" ∷ "point_id"
        ∷ "raw_point_id" ∷ "_hs_digest" ∷ "_hs_owner" ∷ "_hs_signature" ∷ [])
    || any (λ k. k == key)
        ("id" ∷ "start_id" ∷ "root_id" ∷ "node_id" ∷ "parent_id" ∷ "child_id" ∷ [])

abbrev table_keys : List (String × String) → List String
table_keys [] = []
table_keys ((k, h) ∷ table) = k ∷ table_keys table

any-entry :
    (key : String) (table : List (String × String))
    → entry key table ≡ none
    → any (λ k. k == key) (table_keys table) ≡ false
unfolding entry any
any-entry key [] e = refl
any-entry key ((k, h) ∷ table) e = ground (arith, any-entry key table)

neither : (a b : Bool) → a ≡ false → b ≡ false → not (a || b) ≡ true
neither a b h k = ground arith

-- A key that the code neither drops nor replaces is none of them.
kept-clean : (k : String) → is_blocked k ≡ false → handle_key k ≡ none → not (is_raw k) ≡ true
unfolding is_raw is_blocked handle_key
kept-clean k b e = neither _ _ b (any-entry k handle_keys e)

-- No dictionary in the value, at any depth of lists and dictionaries, has such a key.
unfoldable mutual
  pub is_clean : Value → Bool
  is_clean (list xs) = items_clean xs
  is_clean (dict fs) = fields_clean fs
  is_clean v = true

  pub items_clean : Items → Bool
  items_clean nil = true
  items_clean (cons v xs) = is_clean v && items_clean xs

  pub fields_clean : Fields → Bool
  fields_clean end = true
  fields_clean (field k v fs) = not (is_raw k) && (is_clean v && fields_clean fs)

both : (a b : Bool) → a ≡ true → b ≡ true → (a && b) ≡ true
both a b h k = ground arith

first : (a b : Bool) → (a && b) ≡ true → a ≡ true
first a b h = ground arith

second : (a b : Bool) → (a && b) ≡ true → b ≡ true
second a b h = ground arith

fields_clean-set :
    (k : String) (v : Value) (fs : Fields)
    → not (is_raw k) ≡ true
    → is_clean v ≡ true
    → fields_clean fs ≡ true
    → fields_clean (set k v fs) ≡ true
unfolding set fields_clean
fields_clean-set k v end r c h = both _ _ r (both _ _ c h)
fields_clean-set k v (field i w fs) r c h = elim (Bool-cases (i == k)) [
  | inl e ↦ rw (e, set) (both _ _ (first _ _ h) (both _ _ c (second _ _ (second _ _ h))))
  | inr e ↦
      rw (e, set)
        (both _ _ (first _ _ h) (
          both _ _ (first _ _ (second _ _ h))
            (fields_clean-set k v fs r c (second _ _ (second _ _ h)))))
]

-- A table whose entries are none of these keys gives none of them.
entry-clean :
    (key h : String) (table : List (String × String))
    → All (λ e. not (is_raw e.1) ≡ true) table
    → entry key table ≡ some h
    → not (is_raw h) ≡ true
unfolding entry
entry-clean key h [] a e = absurd (cc e)
entry-clean key h ((k, v) ∷ table) a e = elim (Bool-cases (k == key)) [
  | inl same ↦ ground arith
  | inr other ↦ entry-clean key h table a.1 (rw (other, entry) at e)
]

handle_key-clean : (k h : String) → handle_key k ≡ some h → not (is_raw h) ≡ true
unfolding handle_key entry is_raw is_blocked any
handle_key-clean k h e =
    entry-clean k h handle_keys (refl, (refl, (refl, (refl, (refl, (refl, tt))))))
      (unfold handle_key in e)

handles_key-clean : (k h : String) → handles_key k ≡ some h → not (is_raw h) ≡ true
unfolding handles_key handle_key entry is_raw is_blocked any
handles_key-clean k h e =
    entry-clean k h handles_keys (refl, (refl, (refl, (refl, (refl, tt)))))
      (unfold handles_key in e)

module _ {S : Type 0} (mint : Value → S → Option String × S) where
  mint_all-clean : (xs : Items) (s : S) → items_clean (mint_all mint xs s).0 ≡ true
  unfolding mint_all items_clean is_clean
  mint_all-clean nil s = refl
  mint_all-clean (cons v xs) s = elim (Option-cases (mint v s).0) [
    | inl e ↦ rw (e, mint_all) (mint_all-clean xs (mint v s).1)
    | inr (t, e) ↦ rw (e, mint_all) (mint_all-clean xs (mint v s).1)
  ]

  put_handles-clean :
      (k h : String) (v w : Value) (s s' : S) (done : Fields)
      → not (is_raw k) ≡ true
      → not (is_raw h) ≡ true
      → is_clean w ≡ true
      → fields_clean done ≡ true
      → fields_clean (put_handles mint k h v (w, s') done s).0 ≡ true
  unfolding put_handles
  put_handles-clean k h (list xs) w s s' done r q c d =
      unfold is_clean in
      fields_clean-set h (list (mint_all mint xs s).0) done q (mint_all-clean xs s) d
  put_handles-clean k h v w s s' done r q c d = fields_clean-set k w done r c d

  put_entry-clean :
      (k : String) (v w : Value) (s s' : S) (done : Fields)
      → is_clean w ≡ true
      → fields_clean done ≡ true
      → fields_clean (put_entry mint k v (w, s') done s).0 ≡ true
  unfolding put_entry
  put_entry-clean k v w s s' done c d = elim (Bool-cases (is_blocked k)) [
    | inl b ↦ rw (b, put_entry) d
    | inr b ↦ elim (Option-cases (handle_key k)) [
      | inr (h, e) ↦ elim (Option-cases (mint v s).0) [
        | inl m ↦ rw (b, e, m, put_entry) d
        | inr (t, m) ↦
            rw (b, e, m, put_entry)
              (fields_clean-set h (str t) done (handle_key-clean k h e) (unfold is_clean in refl) d)
      ]
      | inl e ↦ elim (Option-cases (handles_key k)) [
        | inr (h, e') ↦
            rw (b, e, e', put_entry)
              (put_handles-clean k h v w s s' done (kept-clean k b e) (handles_key-clean k h e') c
                d)
        | inl e' ↦ rw (b, e, e', put_entry) (fields_clean-set k w done (kept-clean k b e) c d)
      ]
    ]
  ]

  mutual
    unfolding sanitize is_clean items_clean fields_clean

    value-clean : (v : Value) (s : S) → is_clean (sanitize mint v s).0 ≡ true
    value-clean (list xs) s = list-clean xs s
    value-clean (dict fs) s = dict-clean fs end s refl
    value-clean null s = refl
    value-clean (bool b) s = refl
    value-clean (int n) s = refl
    value-clean (neg n) s = refl
    value-clean (float x) s = refl
    value-clean (str t) s = refl
    value-clean (bytes t) s = refl
    value-clean (bytearray t) s = refl
    value-clean (tuple xs) s = refl
    value-clean (object t) s = refl

    list-clean : (xs : Items) (s : S) → items_clean (sanitize_items mint xs s).0 ≡ true
    list-clean nil s = refl
    list-clean (cons v xs) s = both _ _ (value-clean v s) (list-clean xs (sanitize mint v s).1)

    dict-clean :
        (fs done : Fields) (s : S)
        → fields_clean done ≡ true
        → fields_clean (sanitize_fields mint fs done s).0 ≡ true
    dict-clean end done s d = d
    dict-clean (field k v fs) done s d =
        dict-clean fs (put_entry mint k v (sanitize mint v s) done s).0
          (put_entry mint k v (sanitize mint v s) done s).1
          (put_entry-clean k v (sanitize mint v s).0 s (sanitize mint v s).1 done (value-clean v s)
            d)

-- Whatever the SDK returns and whatever handles are minted, no dictionary of the sanitised result, at
-- any depth of lists and dictionaries, has one of the keys vector, vectors, embedding, embeddings,
-- raw_vector, point_id, raw_point_id, _hs_digest, _hs_owner, _hs_signature, id, start_id, root_id,
-- node_id, parent_id, child_id. Of other keys it says nothing.
pub is_clean-sanitize :
    {S : Type 0} (mint : Value → S → Option String × S) (v : Value) (s : S)
    → is_clean (sanitize mint v s).0 ≡ true
is_clean-sanitize mint v s = value-clean mint v s
