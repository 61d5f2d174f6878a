-- ===== src/Tools/Replayed.antt =====
-- _provider.py and _ledger.py: `_tool_reconcile` called twice.
use hermes_hyperspacedb_prov.Prelude.{
  ℕ, String, ◌≡◌, refl, ◌⊎◌, ap, sym, ◌∙◌, Bool, true, false, not, Option, none, some, List, [],
  ◌∷◌, ◌++◌, inl, inr, arith, eq_refl, is_some, if◌then◌else◌, ◌==◌,
}
use hermes_hyperspacedb_prov.Prelude.Lists.{length}
use hermes_hyperspacedb_prov.Text
use hermes_hyperspacedb_prov.Value.{Value, Fields, float}
use hermes_hyperspacedb_prov.Value.Numbers.{inf, neg_inf}
use hermes_hyperspacedb_prov.Errors.{ok}
use hermes_hyperspacedb_prov.World.{Env}
use hermes_hyperspacedb_prov.Exec.Still.{bind-ok, Still, bind-Still, if-Still}
use hermes_hyperspacedb_prov.Exec.{Exec, pure, raise, gets, ◌>>=◌}
use hermes_hyperspacedb_prov.Ledger
use hermes_hyperspacedb_prov.Ledger.{Ledger}
use hermes_hyperspacedb_prov.Ledger.Tables.{Receipt, find_receipt, delete_pending}
use hermes_hyperspacedb_prov.Provider.{Provider, the_ledger, put_ledger, utc_now}
use hermes_hyperspacedb_prov.Config.{Config}
use hermes_hyperspacedb_prov.Ownership.{text_or}
use hermes_hyperspacedb_prov.Tools.{bounded_value, bounded_arg, tool_json}
use hermes_hyperspacedb_prov.Tools.Admin.{
  dry_run, replay, put_receipt, apply_once, apply_reconcile, reconcile_with, tool_reconcile,
}

-- The ledger has a receipt for the token.
abbrev has_receipt : String → Option Ledger → Bool
has_receipt token none = false
has_receipt token (some l) = is_some (find_receipt token l.receipts)

abbrev HasReceipt : String → Provider → Type 0
HasReceipt token p = has_receipt token p.ledger ≡ true

find_receipt-append :
    (token : String) (rows : List Receipt) (row : Receipt)
    → (row.token == token) ≡ true
    → is_some (find_receipt token (rows ++ row ∷ [])) ≡ true
unfolding find_receipt
find_receipt-append token [] row h = ground arith
find_receipt-append token (r ∷ rows) row h = ground (arith, find_receipt-append token rows row h)

found-put :
    (token operation payload now : String) (l : Ledger) (o : Option Receipt)
    → find_receipt token l.receipts ≡ o
    → is_some
        (find_receipt token (Ledger.put_operator_receipt token operation payload now l).receipts)
      ≡ true
unfolding Ledger.put_operator_receipt
found-put token operation payload now l (some row) e =
    rw (e, Ledger.put_operator_receipt) (ap is_some e)
found-put token operation payload now l none e =
    rw (e, Ledger.put_operator_receipt) (find_receipt-append token l.receipts _ (eq_refl token))

-- The receipts of a ledger that the provider has.
abbrev receipts_of : Option Ledger → List Receipt
receipts_of none = []
receipts_of (some l) = l.receipts

-- The ledger once these receipts have been stored, one after the other.
abbrev store_receipts : List Receipt → Ledger → Ledger
store_receipts [] l = l
store_receipts (r ∷ rs) l =
    store_receipts rs (Ledger.put_operator_receipt r.token r.operation r.payload r.created_at l)

abbrev pub store_all : List Receipt → Option Ledger → Option Ledger
store_all rs none = none
store_all rs (some l) = some (store_receipts rs l)

-- The two ledgers have the same receipts.
abbrev pub SameReceipts : Option Ledger → Option Ledger → Type 0
SameReceipts o o' = receipts_of o ≡ receipts_of o'

find_receipt-kept :
    (token : String) (rows : List Receipt) (row : Receipt)
    → is_some (find_receipt token rows) ≡ true
    → is_some (find_receipt token (rows ++ row ∷ [])) ≡ true
unfolding find_receipt
find_receipt-kept token [] row h = absurd (cc h)
find_receipt-kept token (r ∷ rows) row h = ground (arith, find_receipt-kept token rows row)

kept-put :
    (token t operation payload now : String) (l : Ledger) (o : Option Receipt)
    → find_receipt t l.receipts ≡ o
    → is_some (find_receipt token l.receipts) ≡ true
    → is_some (find_receipt token (Ledger.put_operator_receipt t operation payload now l).receipts)
      ≡ true
unfolding Ledger.put_operator_receipt
kept-put token t operation payload now l (some row) e h = rw (e, Ledger.put_operator_receipt) h
kept-put token t operation payload now l none e h =
    rw (e, Ledger.put_operator_receipt) (find_receipt-kept token l.receipts _ h)

kept-store :
    (token : String) (rs : List Receipt) (l : Ledger)
    → is_some (find_receipt token l.receipts) ≡ true
    → is_some (find_receipt token (store_receipts rs l).receipts) ≡ true
kept-store token [] l h = h
kept-store token (r ∷ rs) l h =
    kept-store token rs _ (kept-put token r.token r.operation r.payload r.created_at l _ refl h)

-- A receipt is kept by all that are stored later.
kept-SameReceipts :
    (token : String) (rs : List Receipt) (o o' : Option Ledger)
    → SameReceipts o' (store_all rs o)
    → has_receipt token o ≡ true
    → has_receipt token o' ≡ true
unfolding find_receipt
kept-SameReceipts token rs none o' e h = absurd (cc h)
kept-SameReceipts token rs (some l) none e h = absurd (cc (rw (sym e) at (kept-store token rs l h)))
kept-SameReceipts token rs (some l) (some l') e h = rw (sym e) at (kept-store token rs l h)

module _ (env : Env) (token : String) where
  put_receipt-HasReceipt :
      (payload : Value) (p q : Provider) (u : Unit {0})
      → put_receipt env token payload p ≡ (ok u, q)
      → HasReceipt token q
  unfolding put_receipt put_ledger utc_now ◌>>=◌
  put_receipt-HasReceipt payload p q u h =
      let (l, i, j) = bind-ok the_ledger _ p q u h in
      ap (λ r. has_receipt token r.1.ledger) (sym j)
      ∙ found-put token "reconcile_apply" (env.json payload) (env.utc_now (the_ledger p).1.ticks) l
          _ refl

  answered-HasReceipt :
      (payload : Value) (fs : Fields) (p q : Provider) (s : String)
      → (put_receipt env token payload >>= λ _. tool_json env fs) p ≡ (ok s, q)
      → HasReceipt token q
  unfolding tool_json gets pure ◌>>=◌
  answered-HasReceipt payload fs p q s h =
      let (u, i, j) = bind-ok (put_receipt env token payload) (λ _. tool_json env fs) p q s h in
      put_receipt-HasReceipt payload p q u
        (ap (λ r. (r, (put_receipt env token payload p).1)) i ∙ ap (λ r. (ok u, r.1)) j)

  -- Where the method returns, it has left the provider as it was, or with a receipt for the token.
  record Once (m : Exec Provider String) (q : Provider) : Type 0 where
    once : (s : String) (q' : Provider) → m q ≡ (ok s, q') → (q' ≡ q) ⊎ HasReceipt token q'

  Still-Once : (m : Exec Provider String) (q : Provider) → Still m q → Once m q
  Still-Once m q e = record { once = λ s q' h. inl (ap (λ r. r.1) (sym h) ∙ e.same) }

  bind-Once :
      {A : Type 0} (m : Exec Provider A) (f : A → Exec Provider String) (q : Provider)
      → Still m q
      → ((a : A) → Once (f a) q)
      → Once (m >>= f) q
  bind-Once m f q e k = record {
    once = λ s q' h. let (a, i, j) = bind-ok m f q q' s h in (k a).once s q' (rw e.same at j);
  }

  if-Once :
      (b : Bool) (m n : Exec Provider String) (q : Provider)
      → Once m q
      → Once n q
      → Once (if b then m else n) q
  if-Once true m n q x y = x
  if-Once false m n q x y = y

  option-Once :
      {B : Type 0} (o : Option B) (m : Exec Provider String) (f : B → Exec Provider String)
      (q : Provider)
      → Once m q
      → ((b : B) → Once (f b) q)
      → Once (elim o as (λ _. Exec Provider String) [ none ↦ m | some b ↦ f b ]) q
  option-Once none m f q x y = x
  option-Once (some b) m f q x y = y b

  apply_once-Once : (limit would : ℕ) (q : Provider) → Once (apply_once env token limit would) q
  unfolding apply_once
  apply_once-Once limit would q = record {
    once = λ s q' h. let (k, i, j) = bind-ok _ _ q q' s h in inr (answered-HasReceipt _ _ _ q' s j);
  }

  dry_run-Still : (signed : Bool) (n : ℕ) (q : Provider) → Still (dry_run env signed n) q
  unfolding dry_run tool_json gets pure ◌>>=◌
  dry_run-Still signed n q = record { same = refl }

  replay-Still : (row : Receipt) (q : Provider) → Still (replay env row) q
  unfolding replay tool_json gets pure ◌>>=◌
  replay-Still row q = record { same = refl }

  pure-Still : (s : String) (q : Provider) → Still (pure s) q
  unfolding pure
  pure-Still s q = record { same = refl }

  found-Once :
      (o : Option Receipt) (limit would : ℕ) (q : Provider)
      → Once
          (elim o as (λ _. Exec Provider String) [
            | some row ↦ replay env row
            | none ↦ apply_once env token limit would
          ])
          q
  found-Once (some row) limit would q = Still-Once _ q (replay-Still row q)
  found-Once none limit would q = apply_once-Once limit would q

  found-Still :
      (o : Option Receipt) (limit would : ℕ) (q : Provider)
      → is_some o ≡ true
      → Still
          (elim o as (λ _. Exec Provider String) [
            | some row ↦ replay env row
            | none ↦ apply_once env token limit would
          ])
          q
  found-Still (some row) limit would q h = replay-Still row q
  found-Still none limit would q h = absurd (cc h)

  apply_reconcile-Once :
      (l : Ledger) (limit would : ℕ) (q : Provider)
      → Once (apply_reconcile env l token limit would) q
  unfolding apply_reconcile
  apply_reconcile-Once l limit would q =
      if-Once (Text.is_empty token) _ _ q (Still-Once _ q (pure-Still _ q))
        (found-Once (Ledger.get_operator_receipt token l) limit would q)

  apply_reconcile-Still :
      (l : Ledger) (limit would : ℕ) (q : Provider)
      → is_some (find_receipt token l.receipts) ≡ true
      → Still (apply_reconcile env l token limit would) q
  unfolding apply_reconcile Ledger.get_operator_receipt
  apply_reconcile-Still l limit would q h =
      if-Still (Text.is_empty token) _ _ q (pure-Still _ q)
        (found-Still (find_receipt token l.receipts) limit would q h)

module _ (env : Env) (args : Fields) where
  abbrev is_signed : Config → Bool
  is_signed c = not (Text.is_empty c.ownership_hmac_key)

  abbrev pending_count : Ledger → Config → ℕ → ℕ
  pending_count l c limit =
      length (Ledger.records_with_status delete_pending limit (some c.profile_scope) l)

  -- `token`
  abbrev token_of : String
  token_of = Text.strip (text_or env "idempotency_token" "" args)

  bounded_value-Still :
      (v : Value) (default low high : ℕ) (q : Provider)
      → Still (bounded_value env v default low high) q
  unfolding bounded_value pure raise
  bounded_value-Still (float inf) default low high q = record { same = refl }
  bounded_value-Still (float neg_inf) default low high q = record { same = refl }
  bounded_value-Still _ default low high q = record { same = refl }

  bounded_arg-Still :
      (key : String) (default low high : ℕ) (q : Provider)
      → Still (bounded_arg env key args default low high) q
  unfolding bounded_arg
  bounded_arg-Still key default low high q = bounded_value-Still _ default low high q

  gets-Still : {A : Type 0} (f : Provider → A) (q : Provider) → Still (gets f) q
  unfolding gets
  gets-Still f q = record { same = refl }

  reconcile_with-Once :
      (l : Ledger) (q : Provider) → Once env token_of (reconcile_with env l args) q
  unfolding reconcile_with
  reconcile_with-Once l q =
      if-Once env token_of _ _ _ q (Still-Once env token_of _ q (pure-Still env token_of _ q)) (
        bind-Once env token_of _ _ q (gets-Still _ q) (λ c.
          bind-Once env token_of _ _ q (bounded_arg-Still _ _ _ _ q) (λ limit.
            if-Once env token_of _ _ _ q
              (Still-Once env token_of _ q
                (dry_run-Still env token_of (is_signed c) (pending_count l c limit) q))
              (apply_reconcile-Once env token_of l limit
                (if is_signed c then pending_count l c limit else 0) q))))

  reconcile_with-Still :
      (l : Ledger) (q : Provider)
      → is_some (find_receipt token_of l.receipts) ≡ true
      → Still (reconcile_with env l args) q
  unfolding reconcile_with
  reconcile_with-Still l q h = if-Still _ _ _ q (pure-Still env token_of _ q) (
      bind-Still _ _ q (gets-Still _ q) (λ c.
        bind-Still _ _ q (bounded_arg-Still _ _ _ _ q) (λ limit.
          if-Still _ _ _ q (dry_run-Still env token_of (is_signed c) (pending_count l c limit) q) (
            apply_reconcile-Still env token_of l limit
              (if is_signed c then pending_count l c limit else 0) q h))))

  tool_reconcile-Once : (q : Provider) → Once env token_of (tool_reconcile env args) q
  unfolding tool_reconcile
  tool_reconcile-Once q = bind-Once env token_of _ _ q (gets-Still _ q) (λ stored.
      option-Once env token_of stored _ _ q
        (Still-Once env token_of _ q (pure-Still env token_of _ q)) (λ l. reconcile_with-Once l q))

  stored-Still :
      (o : Option Ledger) (m : Exec Provider String) (q : Provider)
      → has_receipt token_of o ≡ true
      → Still
          (elim o as (λ _. Exec Provider String) [ none ↦ m | some l ↦ reconcile_with env l args ])
          q
  stored-Still none m q h = absurd (cc h)
  stored-Still (some l) m q h = reconcile_with-Still l q h

  received-Still : (q : Provider) → HasReceipt token_of q → (tool_reconcile env args q).1 ≡ q
  unfolding tool_reconcile gets ◌>>=◌
  received-Still q h = (stored-Still q.ledger _ q h).same

  repeated-Still :
      (later : List Receipt) (p q q' : Provider)
      → SameReceipts q'.ledger (store_all later q.ledger)
      → (q ≡ p) ⊎ HasReceipt token_of q
      → (q ≡ p) ⊎ ((tool_reconcile env args q').1 ≡ q')
  repeated-Still later p q q' e (inl same) = inl same
  repeated-Still later p q q' e (inr r) =
      inr (received-Still q' (kept-SameReceipts token_of later q.ledger q'.ledger e r))

-- A call of the reconcile tool that returned has changed nothing, or else the same call does nothing
-- any more: in every provider whose ledger has the receipts that it left, and any that were stored
-- after it, the call leaves the whole provider as it is and sends nothing to the backend.
pub tool_reconcile-repeated :
    (env : Env) (args : Fields) (p q q' : Provider) (s : String) (later : List Receipt)
    → tool_reconcile env args p ≡ (ok s, q)
    → SameReceipts q'.ledger (store_all later q.ledger)
    → (q ≡ p) ⊎ ((tool_reconcile env args q').1 ≡ q')
tool_reconcile-repeated env args p q q' s later h e =
    repeated-Still env args later p q q' e ((tool_reconcile-Once env args p).once s q h)
