-- ===== src/Grid/Construct.antt =====
-- The constructor of data-structures/Grid.tpp: which arguments it refuses and what it makes of the
-- others.
use native.Mathlib.Nat.{mul-le-mul_left, div-mul-le_self, div-lt_iff_lt-mul}
use aslam_incremental_calibr.Common.{
  ℕ, zero, suc, ◌+◌, ◌-◌, ◌*◌, ◌/◌, ◌≡◌, ◌≤◌, ◌<◌, refl, ap, Bool, true, false, List, [], ◌∷◌, ℤ,
  pos, pos_part, ◌+ℤ◌, ◌-ℤ◌, ◌≤ℤ◌, ◌||◌, length, ok, err, bad_argument, arith, inl, inr, ◌⊎◌,
  Bool-cases,
}
use aslam_incremental_calibr.Grid.{
  Grid, int_limit, product, later_products, count_cells, new_grid, grid_of, any_not_positive,
  any_at_least, any_coarser, any_too_wide, any_too_large, fill,
}
use aslam_incremental_calibr.Grid.Cells.{SameSize, IsGrid}

-- In each dimension the resolution is positive and there is room for a cell from the minimum on.
abbrev pub IsProper : List ℤ → List ℤ → List ℤ → Type 0
IsProper [] maximum resolution = Unit {0}
IsProper (a ∷ minimum) [] resolution = Unit {0}
IsProper (a ∷ minimum) (b ∷ maximum) [] = Unit {0}
IsProper (a ∷ minimum) (b ∷ maximum) (r ∷ resolution) =
    (pos 1 ≤ℤ r) × (a +ℤ r ≤ℤ b) × IsProper minimum maximum resolution

-- The test of the constructor's arguments.
abbrev is_refused : List ℤ → List ℤ → List ℤ → Bool
is_refused minimum maximum resolution =
    any_not_positive resolution
    || any_at_least minimum maximum
    || any_coarser resolution minimum maximum

is_refused-IsProper :
    (minimum maximum resolution : List ℤ)
    → SameSize minimum maximum resolution
    → is_refused minimum maximum resolution ≡ false
    → IsProper minimum maximum resolution
unfolding any_not_positive any_at_least any_coarser ◌+ℤ◌ ◌-ℤ◌
is_refused-IsProper [] maximum resolution s e = tt
is_refused-IsProper (a ∷ minimum) [] resolution s e = tt
is_refused-IsProper (a ∷ minimum) (b ∷ maximum) [] s e = tt
is_refused-IsProper (a ∷ minimum) (b ∷ maximum) (r ∷ resolution) (s, t) e = (
  ground (arith, e),
  ground (arith, e),
  is_refused-IsProper minimum maximum resolution (omega (arith, s), omega (arith, t))
      (ground (arith, e)),
)

IsProper-is_refused :
    (minimum maximum resolution : List ℤ)
    → SameSize minimum maximum resolution
    → IsProper minimum maximum resolution
    → is_refused minimum maximum resolution ≡ false
unfolding any_not_positive any_at_least any_coarser ◌+ℤ◌ ◌-ℤ◌
IsProper-is_refused [] [] [] s p = refl
IsProper-is_refused [] [] (r ∷ resolution) (s, t) p = absurd (omega (arith, t))
IsProper-is_refused [] (b ∷ maximum) resolution (s, t) p = absurd (omega (arith, s))
IsProper-is_refused (a ∷ minimum) [] resolution (s, t) p = absurd (omega (arith, s))
IsProper-is_refused (a ∷ minimum) (b ∷ maximum) [] (s, t) p = absurd (omega (arith, t))
IsProper-is_refused (a ∷ minimum) (b ∷ maximum) (r ∷ resolution) (s, t) (positive, room, p) =
    let rest =
      IsProper-is_refused minimum maximum resolution (omega (arith, s), omega (arith, t)) p in
    ground (arith, positive, room, rest)

-- The cells of each dimension reach from the minimum beyond the maximum, and without the last one they
-- do not.
abbrev pub Covers : List ℤ → List ℤ → List ℤ → List ℕ → Type 0
Covers (a ∷ minimum) (b ∷ maximum) (r ∷ resolution) (n ∷ num_cells) =
    ((n - 1) * pos_part r ≤ pos_part (b -ℤ a))
    × (pos_part (b -ℤ a) < n * pos_part r)
    × Covers minimum maximum resolution num_cells
Covers [] maximum resolution num_cells = Unit {0}
Covers (a ∷ minimum) [] resolution num_cells = Unit {0}
Covers (a ∷ minimum) (b ∷ maximum) [] num_cells = Unit {0}
Covers (a ∷ minimum) (b ∷ maximum) (r ∷ resolution) [] = ⊥

div-covers : (w r : ℕ) → 0 < r → (w / r) * r ≤ w × w < (w / r + 1) * r
div-covers w r some_r = (div-mul-le_self w r, (div-lt_iff_lt-mul some_r).0 (omega arith))

count_cells-Covers :
    (minimum maximum resolution : List ℤ)
    → IsProper minimum maximum resolution
    → Covers minimum maximum resolution (count_cells minimum maximum resolution)
unfolding count_cells
count_cells-Covers [] maximum resolution p = tt
count_cells-Covers (a ∷ minimum) [] resolution p = tt
count_cells-Covers (a ∷ minimum) (b ∷ maximum) [] p = tt
count_cells-Covers (a ∷ minimum) (b ∷ maximum) (r ∷ resolution) (positive, room, p) =
    let (low, high) = div-covers (pos_part (b -ℤ a)) (pos_part r) (ground (arith, positive)) in
    (
      rw (plus_minus (pos_part (b -ℤ a) / pos_part r)) low,
      high,
      count_cells-Covers minimum maximum resolution p,
    )
  where
    plus_minus : (q : ℕ) → q + 1 - 1 ≡ q
    plus_minus q = omega arith

abbrev ArePositive : List ℕ → Type 0
ArePositive [] = Unit {0}
ArePositive (n ∷ ns) = (1 ≤ n) × ArePositive ns

product-pos : (ns : List ℕ) → ArePositive ns → 1 ≤ product ns
unfolding product
product-pos [] p = omega arith
product-pos (n ∷ ns) (some_n, p) = omega (arith, some_n, mul-le-mul_left n (product-pos ns p))

count_cells-pos :
    (minimum maximum resolution : List ℤ) → ArePositive (count_cells minimum maximum resolution)
unfolding count_cells
count_cells-pos [] maximum resolution = tt
count_cells-pos (a ∷ minimum) [] resolution = tt
count_cells-pos (a ∷ minimum) (b ∷ maximum) [] = tt
count_cells-pos (a ∷ minimum) (b ∷ maximum) (r ∷ resolution) =
    (omega arith, count_cells-pos minimum maximum resolution)

-- Where the number of all cells is an `int`, so are the factors and the products on the way.
any_too_large-product :
    (ns : List ℕ)
    → ArePositive ns
    → product ns < int_limit
    → (any_too_large ns ≡ false) × (any_too_large (later_products ns) ≡ false)
unfolding any_too_large later_products product
any_too_large-product [] p few = (refl, refl)
any_too_large-product (n ∷ ns) (some_n, p) few =
    let least : n * 1 ≤ n * product ns = mul-le-mul_left n (product-pos ns p) in
    let later : product ns * 1 ≤ product ns * n = mul-le-mul_left (product ns) some_n in
    let (rest, rests) = any_too_large-product ns p (omega (arith, later, few)) in
    (ground (arith, least, few, rest), ground (arith, later, few, rests))

length-fill : {C : Type 0} (n : ℕ) (c : C) → length (fill n c) ≡ n
length-fill zero c = refl
length-fill (suc n) c = ap suc (length-fill n c)

grid_of-IsGrid :
    {C : Type 0} (cell : C) (minimum maximum resolution : List ℤ)
    → SameSize minimum maximum resolution
    → product (count_cells minimum maximum resolution) < int_limit
    → IsGrid (grid_of cell minimum maximum resolution)
grid_of-IsGrid cell minimum maximum resolution sizes few = record {
  cells = length-fill (product (count_cells minimum maximum resolution)) cell;
  lin_prod = refl;
  few = few;
  num_cells = refl;
  sizes = sizes;
}

new_grid-refused :
    {C : Type 0} (cell : C) (minimum maximum resolution : List ℤ)
    → any_too_wide minimum maximum ≡ false
    → is_refused minimum maximum resolution ≡ true
    → new_grid cell minimum maximum resolution ≡ err bad_argument
unfolding new_grid
new_grid-refused cell minimum maximum resolution narrow bad =
    elim (Bool-cases (any_not_positive resolution)) [
      | inl first ↦ rw first refl
      | inr positive ↦ elim (Bool-cases (any_at_least minimum maximum)) [
        | inl second ↦ rw (positive, second) refl
        | inr ordered ↦
            let third : any_coarser resolution minimum maximum ≡ true =
              ground (arith, bad, positive, ordered) in
            rw (positive, ordered, narrow, third) refl
      ]
    ]

new_grid-made :
    {C : Type 0} (cell : C) (minimum maximum resolution : List ℤ)
    → any_too_wide minimum maximum ≡ false
    → is_refused minimum maximum resolution ≡ false
    → product (count_cells minimum maximum resolution) < int_limit
    → new_grid cell minimum maximum resolution ≡ ok (grid_of cell minimum maximum resolution)
unfolding new_grid
new_grid-made cell minimum maximum resolution narrow fine few =
    let first : any_not_positive resolution ≡ false = ground (arith, fine) in
    let second : any_at_least minimum maximum ≡ false = ground (arith, fine) in
    let third : any_coarser resolution minimum maximum ≡ false = ground (arith, fine) in
    let (fourth, fifth) =
      any_too_large-product (count_cells minimum maximum resolution)
        (count_cells-pos minimum maximum resolution) few in
    rw (first, second, narrow, third, fourth, fifth) refl

-- On vectors of one size, with ranges and a number of cells that are of type `int`, the constructor
-- throws BadArgumentException exactly where in some dimension the resolution is not positive or there
-- is no room for one cell from the minimum on. Else it makes a grid over these bounds whose members
-- fit each other, and whose cells reach, in each dimension, from the minimum beyond the maximum, and
-- without the last one do not.
pub new_grid_lem :
    {C : Type 0} (cell : C) (minimum maximum resolution : List ℤ)
    → SameSize minimum maximum resolution
    → any_too_wide minimum maximum ≡ false
    → product (count_cells minimum maximum resolution) < int_limit
    → ((¬ (IsProper minimum maximum resolution))
        × (new_grid cell minimum maximum resolution ≡ err bad_argument))
      ⊎ (IsProper minimum maximum resolution
          × (g : Grid C) × (new_grid cell minimum maximum resolution ≡ ok g)
          × (g.minimum ≡ minimum)
          × (g.maximum ≡ maximum)
          × (g.resolution ≡ resolution)
          × IsGrid g
          × Covers minimum maximum resolution g.num_cells)
new_grid_lem cell minimum maximum resolution sizes narrow few =
    elim (Bool-cases (is_refused minimum maximum resolution)) [
      | inl bad ↦ inl (
        λ p. absurd (ground (arith, bad, IsProper-is_refused minimum maximum resolution sizes p)),
        new_grid-refused cell minimum maximum resolution narrow bad,
      )
      | inr fine ↦
          let proper = is_refused-IsProper minimum maximum resolution sizes fine in
          inr (
            proper,
            grid_of cell minimum maximum resolution,
            new_grid-made cell minimum maximum resolution narrow fine few,
            refl,
            refl,
            refl,
            grid_of-IsGrid cell minimum maximum resolution sizes few,
            count_cells-Covers minimum maximum resolution proper,
          )
    ]
