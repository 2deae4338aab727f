-- ===== src/Common/Counts.antt =====
-- How often a number stands in a list. Counts say of a list that it has no duplicates and of two
-- lists that they hold the same items.
use Prim.Native.Nat.{ℕ, zero, suc, ◌+◌, ◌≤◌}
use mathlib.Core.Path.{◌≡◌, refl}
use mathlib.Core.Bool.{Bool, true, false}
use mathlib.Core.List.{List, [], ◌∷◌, ◌++◌}
use mathlib.Core.Option.{some}
use native.Mathlib.Omega.{arith}
use aslam_incremental_calibr.Common.Tests.{ltb, ◌==◌, if◌then◌else◌}
use aslam_incremental_calibr.Common.Lists.{length, get_elem?}

abbrev pub count : ℕ → List ℕ → ℕ
count dv [] = 0
count dv (first ∷ rest) = (if first == dv then 1 else 0) + count dv rest

-- `std::count`, `std::find` and `unordered_set::count` read as a test.
abbrev pub member : ℕ → List ℕ → Bool
member a [] = false
member a (x ∷ xs) = if x == a then true else member a xs

-- 1 for true: what `count` of a container without duplicates returns.
abbrev pub bit : Bool → ℕ
bit true = 1
bit false = 0

-- The list without the first occurrence of a number: `erase` at the iterator that `find` gives.
abbrev pub remove : ℕ → List ℕ → List ℕ
remove a [] = []
remove a (x ∷ xs) = if x == a then xs else x ∷ remove a xs

pub count-append :
    (dv : ℕ) (front back : List ℕ) → count dv (front ++ back) ≡ count dv front + count dv back
count-append dv [] back = omega arith
count-append dv (first ∷ front) back = omega (arith, count-append dv front back)

pub member-count : (a : ℕ) (xs : List ℕ) → member a xs ≡ ltb 0 (count a xs)
member-count a [] = refl
member-count a (x ∷ xs) = ground (arith, member-count a xs)

pub count-remove :
    (a b : ℕ) (xs : List ℕ)
    → member b xs ≡ true
    → count a (remove b xs) + (if b == a then 1 else 0) ≡ count a xs
count-remove a b [] h = cc
count-remove a b (x ∷ xs) h = ground (arith, count-remove a b xs)

pub length-remove :
    (b : ℕ) (xs : List ℕ) → member b xs ≡ true → suc (length (remove b xs)) ≡ length xs
length-remove b [] h = cc
length-remove b (x ∷ xs) h = ground (arith, length-remove b xs)

-- A list that holds each number at most as often as another is no longer.
pub length_le_of_count :
    (xs ys : List ℕ) → ((a : ℕ) → count a xs ≤ count a ys) → length xs ≤ length ys
length_le_of_count [] ys h = omega arith
length_le_of_count (x ∷ xs) ys h =
    omega (arith, length_le_of_count xs (remove x ys) fewer, length-remove x ys there)
  where
    there : member x ys ≡ true
    there = ground (arith, h x, member-count x ys)

    fewer : (a : ℕ) → count a xs ≤ count a (remove x ys)
    fewer a = omega (arith, h a, count-remove a x ys there)

pub length_eq_of_count :
    (xs ys : List ℕ) → ((a : ℕ) → count a xs ≡ count a ys) → length xs ≡ length ys
length_eq_of_count xs ys h = omega (
  arith,
  length_le_of_count xs ys (λ a. omega (arith, h a)),
  length_le_of_count ys xs (λ a. omega (arith, h a)),
)

-- Pigeonhole: where the longer list holds nothing more often, both hold the same.
pub count_eq_of_le :
    (xs ys : List ℕ)
    → ((a : ℕ) → count a xs ≤ count a ys)
    → length ys ≤ length xs
    → (a : ℕ) → count a xs ≡ count a ys
count_eq_of_le [] [] h l a = refl
count_eq_of_le [] (y ∷ ys) h l a = absurd (omega arith)
count_eq_of_le (x ∷ xs) ys h l a = omega (
  arith,
  count_eq_of_le xs (remove x ys) fewer (omega (arith, length-remove x ys there)) a,
  count-remove a x ys there,
)
  where
    there : member x ys ≡ true
    there = ground (arith, h x, member-count x ys)

    fewer : (b : ℕ) → count b xs ≤ count b (remove x ys)
    fewer b = omega (arith, h b, count-remove b x ys there)

pub member_of_get_elem? : (xs : List ℕ) (i a : ℕ) → get_elem? xs i ≡ some a → member a xs ≡ true
member_of_get_elem? [] i a h = cc
member_of_get_elem? (x ∷ xs) zero a h = ground arith
member_of_get_elem? (x ∷ xs) (suc i) a h = ground (arith, member_of_get_elem? xs i a h)
