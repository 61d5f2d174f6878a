-- ===== src/Exec.antt =====
-- Methods of the provider: a function of the provider to a value or an exception, and to the provider
-- as the method leaves it in either case.
pub mod Rules
pub mod Still
use hermes_hyperspacedb_prov.Prelude.{Bool, true, false, Option, none, some, List, [], ◌∷◌}
use hermes_hyperspacedb_prov.Errors.{
  Exn, Result, ok, err, ProviderError, provider, timeout_error, other,
}

abbrev pub Exec : Type 0 → Type 0 → Type 0
Exec S A = S → Result A × S

module _ {S A : Type 0} where
  unfoldable pub pure : A → Exec S A
  pure a s = (ok a, s)

  unfoldable pub raise : Exn → Exec S A
  raise e s = (err e, s)

  unfoldable pub lift : Result A → Exec S A
  lift r s = (r, s)

  -- `self.field`
  unfoldable pub gets : (S → A) → Exec S A
  gets f s = (ok (f s), s)

-- `self.field = ...`
unfoldable pub modify : {S : Type 0} → (S → S) → Exec S (Unit {0})
modify f s = (ok tt, f s)

-- `if test: raise e`
unfoldable pub raise_if : {S : Type 0} → Bool → Exn → Exec S (Unit {0})
raise_if true e s = (err e, s)
raise_if false e s = (ok tt, s)

unfoldable pub when : {S : Type 0} → Bool → Exec S (Unit {0}) → Exec S (Unit {0})
when true m = m
when false m = λ s. (ok tt, s)

module _ {S A B : Type 0} where
  abbrev pub continue : Result A → (A → Exec S B) → Exec S B
  continue (ok a) f s = f a s
  continue (err e) f s = (err e, s)

  infixl 5 ◌>>=◌ ◌>>◌
  unfoldable pub ◌>>=◌ : Exec S A → (A → Exec S B) → Exec S B
  ◌>>=◌ m f s = let (r, s') = m s in continue r f s'

  abbrev pub ◌>>◌ : Exec S A → Exec S B → Exec S B
  m >> n = m >>= λ _. n

-- `try: ... except Exception as error: ...`: how the method ended is a value.
unfoldable pub attempt : {S A : Type 0} → Exec S A → Exec S (Result A)
attempt m s = let (r, s') = m s in (ok r, s')

module _ {S A : Type 0} where
  abbrev pub handle_error : Result A → (ProviderError → Exec S A) → Exec S A
  handle_error (ok a) handler s = (ok a, s)
  handle_error (err (provider e)) handler s = handler e s
  handle_error (err (timeout_error m)) handler s = (err (timeout_error m), s)
  handle_error (err (other c n t)) handler s = (err (other c n t), s)

  -- `try: m except ProviderError as error: handler(error)`
  unfoldable pub catch : Exec S A → (ProviderError → Exec S A) → Exec S A
  catch m handler s = let (r, s') = m s in handle_error r handler s'

  -- `for x in xs: body(x)`
  unfoldable pub for_each : List A → (A → Exec S (Unit {0})) → Exec S (Unit {0})
  for_each [] body = λ s. (ok tt, s)
  for_each (x ∷ xs) body = body x >>= λ _. for_each xs body
