-- ===== src/Common/Effects.antt =====
-- What a C++ method does to an object: it returns a value or throws, and leaves a new state, also
-- when it throws. The exceptions are those of exceptions/ and what the standard library does.
use Prim.Native.Nat.{ℕ}
use mathlib.Core.Path.{◌≡◌, refl}
use mathlib.Core.Logic.{◌⊎◌, inl, inr}
use mathlib.Core.Bool.{Bool, true, false}
use mathlib.Core.Option.{Option, none, some}

pub data Exception : Type 0 where
  -- exceptions/OutOfBoundException.h, with the offending value.
  out_of_bound : ℕ → Exception
  -- the same exception with a vector, which is left out
  vector_out_of_bound : Exception
  -- exceptions/BadArgumentException.h, without the argument
  bad_argument : Exception
  -- exceptions/InvalidOperationException.h
  invalid_operation : Exception
  -- exceptions/NullPointerException.h
  null_pointer : Exception
  -- std::out_of_range, which `at` throws
  out_of_range : Exception
  -- not an exception: undefined behaviour, such as erasing at the end iterator
  undefined_behaviour : Exception
  -- not an exception: a loop that does not end
  diverges : Exception

pub data Result {ℓ} (A : Type ℓ) : Type ℓ where
  ok : A → Result A
  err : Exception → Result A

-- A method that changes no state returns a `Result`: its `do` blocks use this operator, those of a
-- stateful method the one of Common.Stateful.
module _ {ℓ κ} {A : Type ℓ} {B : Type κ} where
  infixl 5 ◌>>=◌
  abbrev pub ◌>>=◌ : Result A → (A → Result B) → Result B
  ok value >>= next = next value
  err thrown >>= next = err thrown

-- A call for its exceptions only.
infixl 5 ◌>>◌
abbrev pub ◌>>◌ {ℓ} : {B : Type ℓ} → Result (Unit {0}) → Result B → Result B
ok done >> after = after
err thrown >> after = err thrown

abbrev pub or_throw {ℓ} : {A : Type ℓ} → Option A → Exception → Result A
or_throw none e = err e
or_throw (some a) e = ok a

-- An early `throw` behind a test.
abbrev pub throw_if : Bool → Exception → Result (Unit {0})
throw_if true e = err e
throw_if false e = ok tt

pub Result-cases {ℓ} :
    {A : Type ℓ} (r : Result A) → ((a : A) × (r ≡ ok a)) ⊎ ((e : Exception) × (r ≡ err e))
Result-cases (ok a) = inl (a, refl)
Result-cases (err e) = inr (e, refl)

pub ok-ne-err {ℓ} : {A : Type ℓ} {a : A} {e : Exception} → ok a ≡ err e → ⊥
ok-ne-err h = cc

-- A method returns or throws, and leaves the object in a new state either way.
abbrev pub Method : Type 0 → Type 0 → Type 0
Method S A = S → Result A × S
