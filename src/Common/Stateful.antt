-- ===== src/Common/Stateful.antt =====
-- The operators that `do` uses in a method that changes its object. The changes made before an
-- exception stay.
use aslam_incremental_calibr.Common.{Result, ok, err, Exception, Method}

module _ {S A : Type 0} where
  abbrev pub pure : A → Method S A
  pure a s = (ok a, s)

  abbrev pub throw : Exception → Method S A
  throw e s = (err e, s)

  -- A call of a `const` method.
  abbrev pub ask : (S → Result A) → Method S A
  ask f s = (f s, s)

module _ {S A B : Type 0} where
  abbrev pub and_then : Result A → (A → Method S B) → Method S B
  and_then (ok a) f = f a
  and_then (err e) f = throw e

  infixl 5 ◌>>=◌ ◌>>◌
  abbrev pub ◌>>=◌ : Method S A → (A → Method S B) → Method S B
  m >>= f = λ s. let (r, s') = m s in and_then r f s'

  abbrev pub ◌>>◌ : Method S A → Method S B → Method S B
  m >> n = m >>= λ _. n

module _ {S : Type 0} where
  abbrev pub modify : (S → S) → Method S (Unit {0})
  modify f s = (ok tt, f s)
