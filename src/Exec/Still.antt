-- ===== src/Exec/Still.antt =====
-- Methods that return, and methods that leave a state as it is.
use hermes_hyperspacedb_prov.Prelude.{◌≡◌, Bool, true, false, refl, ◌⊎◌, inl, inr, if◌then◌else◌}
use hermes_hyperspacedb_prov.Errors.{Exn, Result, ok, err}
use hermes_hyperspacedb_prov.Exec.{Exec, continue, ◌>>=◌}

pub Result-cases : {A : Type 0} (r : Result A) → ((a : A) × (r ≡ ok a)) ⊎ ((e : Exn) × (r ≡ err e))
Result-cases (ok a) = inl (a, refl)
Result-cases (err e) = inr (e, refl)

-- What a method that returns has done first.
pub bind-ok :
    {S A B : Type 0} (m : Exec S A) (f : A → Exec S B) (p q : S) (b : B)
    → (m >>= f) p ≡ (ok b, q)
    → (a : A) × ((m p).0 ≡ ok a) × (f a (m p).1 ≡ (ok b, q))
unfolding ◌>>=◌
bind-ok m f p q b h = elim (Result-cases (m p).0) [
  | inl (a, e) ↦ (a, e, rw (e, ◌>>=◌) at h)
  | inr (x, e) ↦ absurd (cc (rw (e, ◌>>=◌) at h))
]

-- The method leaves this state as it is.
pub record Still {S A : Type 0} (m : Exec S A) (q : S) : Type 0 where
  pub same : (m q).1 ≡ q

continue-Still :
    {S A B : Type 0} (r : Result A) (f : A → Exec S B) (q q' : S)
    → q' ≡ q
    → ((a : A) → Still (f a) q)
    → (continue r f q').1 ≡ q
continue-Still (ok a) f q q' e k = rw e (k a).same
continue-Still (err x) f q q' e k = e

pub bind-Still :
    {S A B : Type 0} (m : Exec S A) (f : A → Exec S B) (q : S)
    → Still m q
    → ((a : A) → Still (f a) q)
    → Still (m >>= f) q
unfolding ◌>>=◌
bind-Still m f q e k = record { same = continue-Still (m q).0 f q (m q).1 e.same k }

pub if-Still :
    {S A : Type 0} (b : Bool) (m n : Exec S A) (q : S)
    → Still m q
    → Still n q
    → Still (if b then m else n) q
if-Still true m n q x y = x
if-Still false m n q x y = y
