-- ===== src/Exec/Rules.antt =====
-- Invariants of methods, one rule for each way to build one.
use hermes_hyperspacedb_prov.Prelude.{
  ◌≡◌, refl, Bool, true, false, Option, none, some, List, [], ◌∷◌, if◌then◌else◌,
}
use hermes_hyperspacedb_prov.Errors.{
  Exn, Result, ok, err, ProviderError, provider, timeout_error, other,
}
use hermes_hyperspacedb_prov.Exec.{
  Exec, pure, raise, lift, gets, modify, continue, ◌>>=◌, handle_error, attempt, catch, raise_if,
  when, for_each,
}

-- However `m` ends, it leaves `P` as it found it.
pub record Preserves {S A : Type 0} (P : S → Type 0) (m : Exec S A) : Type 0 where
  pub run : (s : S) → P s → P (m s).1

module _ {S A : Type 0} {P : S → Type 0} where
  -- A method that leaves the whole state alone.
  Preserves-still : (m : Exec S A) → ((s : S) → (m s).1 ≡ s) → Preserves P m
  Preserves-still m same = record { run = λ s h. rw (same s) h }

  pub Preserves-gets : (field : S → A) → Preserves P (gets field)
  unfolding gets
  Preserves-gets field = Preserves-still (gets field) (λ s. refl)

  pub Preserves-lift : (res : Result A) → Preserves P (lift res)
  unfolding lift
  Preserves-lift res = Preserves-still (lift res) (λ s. refl)

  pub Preserves-pure : (x : A) → Preserves P (pure x)
  unfolding pure
  Preserves-pure x = Preserves-still (pure x) (λ s. refl)

  pub Preserves-raise : (error : Exn) → Preserves P (raise {A = A} error)
  unfolding raise
  Preserves-raise error = Preserves-still (raise {A = A} error) (λ s. refl)

  pub Preserves-if :
      (test : Bool) (m n : Exec S A)
      → Preserves P m
      → Preserves P n
      → Preserves P (if test then m else n)
  Preserves-if true m n on_true on_false = on_true
  Preserves-if false m n on_true on_false = on_false

  pub Preserves-option :
      {B : Type 0} (o : Option B) (m : Exec S A) (f : B → Exec S A)
      → Preserves P m
      → ((b : B) → Preserves P (f b))
      → Preserves P (elim o as (λ _. Exec S A) [ none ↦ m | some b ↦ f b ])
  Preserves-option none m f km kf = km
  Preserves-option (some b) m f km kf = kf b

  pub Preserves-list :
      {B : Type 0} (l : List B) (m : Exec S A) (f : B → List B → Exec S A)
      → Preserves P m
      → ((b : B) (bs : List B) → Preserves P (f b bs))
      → Preserves P (elim l as (λ _. Exec S A) [ [] ↦ m | b ∷ bs ↦ f b bs ])
  Preserves-list [] m f km kf = km
  Preserves-list (b ∷ bs) m f km kf = kf b bs

module _ {S : Type 0} {P : S → Type 0} where
  pub Preserves-modify : (f : S → S) → ((s : S) → P s → P (f s)) → Preserves P (modify f)
  unfolding modify
  Preserves-modify f h = record { run = h }

  pub Preserves-raise_if : (b : Bool) (e : Exn) → Preserves P (raise_if b e)
  unfolding raise_if
  Preserves-raise_if true e = record { run = λ s h. h }
  Preserves-raise_if false e = record { run = λ s h. h }

  pub Preserves-when : (b : Bool) (m : Exec S (Unit {0})) → Preserves P m → Preserves P (when b m)
  unfolding when
  Preserves-when true m km = km
  Preserves-when false m km = record { run = λ s h. h }

module _ {S A B : Type 0} {P : S → Type 0} where
  pub Preserves-continue :
      (r : Result A) (f : A → Exec S B) → ((a : A) → Preserves P (f a)) → Preserves P (continue r f)
  Preserves-continue (ok a) f kf = record { run = (kf a).run }
  Preserves-continue (err e) f kf = record { run = λ s h. h }

  pub Preserves-bind :
      (first : Exec S A) (then_run : A → Exec S B)
      → Preserves P first
      → ((x : A) → Preserves P (then_run x))
      → Preserves P (first >>= then_run)
  unfolding ◌>>=◌
  Preserves-bind first then_run before after = record {
    run = λ s h. (Preserves-continue (first s).0 then_run after).run (first s).1 (before.run s h);
  }

module _ {S A : Type 0} {P : S → Type 0} where
  Preserves-handle :
      (r : Result A) (f : ProviderError → Exec S A)
      → ((e : ProviderError) → Preserves P (f e))
      → Preserves P (handle_error r f)
  Preserves-handle (ok a) f kf = record { run = λ s h. h }
  Preserves-handle (err (provider e)) f kf = record { run = (kf e).run }
  Preserves-handle (err (timeout_error m)) f kf = record { run = λ s h. h }
  Preserves-handle (err (other c n t)) f kf = record { run = λ s h. h }

  pub Preserves-attempt : (m : Exec S A) → Preserves P m → Preserves P (attempt m)
  unfolding attempt
  Preserves-attempt m km = record { run = λ s h. km.run s h }

  pub Preserves-result :
      {B : Type 0} (r : Result B) (f : B → Exec S A) (g : Exn → Exec S A)
      → ((b : B) → Preserves P (f b))
      → ((e : Exn) → Preserves P (g e))
      → Preserves P (elim r as (λ _. Exec S A) [ ok b ↦ f b | err e ↦ g e ])
  Preserves-result (ok b) f g kf kg = kf b
  Preserves-result (err e) f g kf kg = kg e

  pub Preserves-catch :
      (m : Exec S A) (f : ProviderError → Exec S A)
      → Preserves P m
      → ((e : ProviderError) → Preserves P (f e))
      → Preserves P (catch m f)
  unfolding catch
  Preserves-catch m f km kf = record {
    run = λ s h. let (r, s') = m s in (Preserves-handle r f kf).run s' (km.run s h);
  }

module _ {S A : Type 0} {P : S → Type 0} where
  pub Preserves-for_each :
      (xs : List A) (body : A → Exec S (Unit {0}))
      → ((x : A) → Preserves P (body x))
      → Preserves P (for_each xs body)
  unfolding for_each
  Preserves-for_each [] body kb = record { run = λ s h. h }
  Preserves-for_each (x ∷ xs) body kb =
      Preserves-bind (body x) (λ _. for_each xs body) (kb x) (λ _. Preserves-for_each xs body kb)

pub ruleset preserves_rules = (
  Preserves-pure, Preserves-raise, Preserves-lift, Preserves-gets, Preserves-if, Preserves-raise_if,
  Preserves-when, Preserves-bind, Preserves-catch, Preserves-attempt, Preserves-result,
  Preserves-for_each, Preserves-option, Preserves-list,
)
