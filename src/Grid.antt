-- ===== src/Grid.antt =====
-- incremental_calibration/include/aslam/calibration/data-structures/Grid.tpp and Grid.h, for integer
-- coordinates: an n-dimensional grid of cells. A vector is a list, with one entry per dimension.
-- Coordinates, indices and the products of numbers of cells are of type `int`, and an overflow of
-- theirs is undefined behaviour; linear indices have 64 bits.
pub mod Linear
pub mod Cells
pub mod Construct
pub mod Increment
mod Tests
use aslam_incremental_calibr.Common.{
  ℕ, zero, suc, ◌+◌, ◌-◌, ◌*◌, ◌/◌, ◌%◌, Bool, true, false, List, [], ◌∷◌, Option, none, some, ℤ,
  pos, negsuc, pos_part, ◌-ℤ◌, ltz, eqz, length, get_elem?, set, map, or_else, if◌then◌else◌, ltb,
  leb, ◌&&◌, ◌||◌, not, Result, ok, err, vector_out_of_bound, bad_argument, undefined_behaviour,
  or_throw, throw_if, ◌>>=◌, ◌>>◌,
}
use aslam_incremental_calibr.Incremental.{size_t_mod}

-- Above the largest `int`.
abbrev pub int_limit : ℕ
int_limit = 2147483648

pub record Grid (C : Type 0) : Type 0 where
  pub cells : List C
  pub minimum : List ℤ
  pub maximum : List ℤ
  pub resolution : List ℤ
  -- The number of cells per dimension, which is positive.
  pub num_cells : List ℕ
  pub num_cells_tot : ℕ
  pub lin_prod : List ℕ

-- `(v.array() <= 0).any()` and `(v.array() >= w.array()).any()`
unfoldable pub any_not_positive : List ℤ → Bool
any_not_positive [] = false
any_not_positive (a ∷ v) = not (ltz (pos 0) a) || any_not_positive v

unfoldable pub any_at_least : List ℤ → List ℤ → Bool
any_at_least (a ∷ v) (b ∷ w) = not (ltz a b) || any_at_least v w
any_at_least [] w = false
any_at_least (a ∷ v) [] = false

-- `(resolution.array() > (maximum - minimum).array()).any()`
unfoldable pub any_coarser : List ℤ → List ℤ → List ℤ → Bool
any_coarser (r ∷ resolution) (a ∷ minimum) (b ∷ maximum) =
    ltz (b -ℤ a) r || any_coarser resolution minimum maximum
any_coarser [] minimum maximum = false
any_coarser (r ∷ resolution) [] maximum = false
any_coarser (r ∷ resolution) (a ∷ minimum) [] = false

-- The quotient of a number that is not negative by a positive one.
abbrev pub quotient : ℤ → ℤ → ℕ
quotient a r = pos_part a / pos_part r

-- A difference `maximum(i) - minimum(i)`, or a number of `int` type, is past the range of `int`.
unfoldable pub any_too_wide : List ℤ → List ℤ → Bool
any_too_wide (a ∷ minimum) (b ∷ maximum) =
    not (ltz (b -ℤ a) (pos int_limit)) || any_too_wide minimum maximum
any_too_wide [] maximum = false
any_too_wide (a ∷ minimum) [] = false

unfoldable pub any_too_large : List ℕ → Bool
any_too_large [] = false
any_too_large (n ∷ ns) = not (ltb n int_limit) || any_too_large ns

-- The first loop of the constructor; `ceil` of an integer is one more.
unfoldable pub count_cells : List ℤ → List ℤ → List ℤ → List ℕ
count_cells (a ∷ minimum) (b ∷ maximum) (r ∷ resolution) =
    (quotient (b -ℤ a) r + 1) ∷ count_cells minimum maximum resolution
count_cells [] maximum resolution = []
count_cells (a ∷ minimum) [] resolution = []
count_cells (a ∷ minimum) (b ∷ maximum) [] = []

unfoldable pub product : List ℕ → ℕ
product [] = 1
product (n ∷ ns) = n * product ns

-- The second loop: the product of the numbers of cells of the later dimensions.
unfoldable pub later_products : List ℕ → List ℕ
later_products [] = []
later_products (n ∷ ns) = product ns ∷ later_products ns

-- As many default cells.
abbrev pub fill : {C : Type 0} → ℕ → C → List C
fill zero c = []
fill (suc n) c = c ∷ fill n c

-- An `int` product as a `size_t`; its overflow is undefined.
abbrev pub scaled : ℕ → ℤ → Result ℕ
scaled n (pos i) = if ltb (n * i) int_limit then ok (n * i) else err undefined_behaviour
scaled n (negsuc i) =
    if leb (n * suc i) int_limit
    then ok ((size_t_mod - n * suc i) % size_t_mod)
    else err undefined_behaviour

-- Loop of `computeLinearIndex`
unfoldable pub linear_from : ℕ → List ℕ → List ℤ → Result ℕ
linear_from lin_idx (n ∷ lin_prod) (i ∷ idx) =
    scaled n i >>= (λ p. linear_from ((lin_idx + p) % size_t_mod) lin_prod idx)
linear_from lin_idx lin_prod [] = ok lin_idx
linear_from lin_idx [] (i ∷ idx) = ok lin_idx

-- `(idx.array() < mNumCells.array()).all()`
unfoldable pub all_below : List ℤ → List ℕ → Bool
all_below (i ∷ idx) (n ∷ num_cells) = ltz i (pos n) && all_below idx num_cells
all_below [] num_cells = true
all_below (i ∷ idx) [] = true

-- `(point.array() <= mMaximum.array()).all()`
unfoldable pub all_at_most : List ℤ → List ℤ → Bool
all_at_most (a ∷ v) (b ∷ w) = not (ltz b a) && all_at_most v w
all_at_most [] w = true
all_at_most (a ∷ v) [] = true

-- Loop of `getIndex`
unfoldable pub index_from : List ℤ → List ℤ → List ℤ → List ℤ → List ℕ → List ℤ
index_from (p ∷ point) (a ∷ minimum) (b ∷ maximum) (r ∷ resolution) (n ∷ num_cells) =
    (if eqz p b then pos n -ℤ pos 1 else pos (quotient (p -ℤ a) r))
    ∷ index_from point minimum maximum resolution num_cells
index_from [] minimum maximum resolution num_cells = []
index_from (p ∷ point) [] maximum resolution num_cells = []
index_from (p ∷ point) (a ∷ minimum) [] resolution num_cells = []
index_from (p ∷ point) (a ∷ minimum) (b ∷ maximum) [] num_cells = []
index_from (p ∷ point) (a ∷ minimum) (b ∷ maximum) (r ∷ resolution) [] = []

-- Loop of `incrementIndex`. Past the last dimension the index becomes `mNumCells`, which is no index:
-- there is none.
unfoldable pub increment : List ℕ → List ℕ → Option (List ℕ)
increment [] num_cells = none
increment (i ∷ idx) [] = none
increment (i ∷ idx) (n ∷ num_cells) =
    let carried : Option (List ℕ) = elim (increment idx num_cells) [
      | none ↦ none
      | some rest ↦ some (0 ∷ rest)
    ] in
    if ltb (i + 1) n then some ((i + 1) ∷ idx) else carried

module _ {C : Type 0} where
  -- What the constructor makes.
  abbrev pub grid_of : C → List ℤ → List ℤ → List ℤ → Grid C
  grid_of cell minimum maximum resolution =
      let num_cells = count_cells minimum maximum resolution in
      record {
        cells = fill (product num_cells) cell;
        minimum = minimum;
        maximum = maximum;
        resolution = resolution;
        num_cells = num_cells;
        num_cells_tot = product num_cells;
        lin_prod = later_products num_cells;
      }

  -- The arithmetic of the constructor is that of `int`, whose overflow is undefined.
  unfoldable pub new_grid : C → List ℤ → List ℤ → List ℤ → Result (Grid C)
  new_grid cell minimum maximum resolution =
      throw_if (any_not_positive resolution) bad_argument
      >> throw_if (any_at_least minimum maximum) bad_argument
      >> throw_if (any_too_wide minimum maximum) undefined_behaviour
      >> throw_if (any_coarser resolution minimum maximum) bad_argument
      >> throw_if (any_too_large (count_cells minimum maximum resolution)) undefined_behaviour
      >> throw_if (any_too_large (later_products (count_cells minimum maximum resolution)))
          undefined_behaviour
      >> ok (grid_of cell minimum maximum resolution)

  abbrev pub compute_linear_index : Grid C → List ℤ → Result ℕ
  compute_linear_index g idx = linear_from 0 g.lin_prod idx

  abbrev pub is_valid_index : Grid C → List ℤ → Bool
  is_valid_index g idx = all_below idx g.num_cells

  abbrev pub is_in_range : Grid C → List ℤ → Bool
  is_in_range g point = all_at_most point g.maximum && all_at_most g.minimum point

  unfoldable pub get_cell : Grid C → List ℤ → Result C
  get_cell g idx =
      if is_valid_index g idx
      then compute_linear_index g idx >>= (λ i. or_throw (get_elem? g.cells i) undefined_behaviour)
      else err vector_out_of_bound

  -- A write through the reference that `getCell` has returned, so that there is a linear index.
  unfoldable pub set_cell : List ℤ → C → Grid C → Grid C
  set_cell idx c g = elim (compute_linear_index g idx) [
    | ok i ↦ record g { cells = set g.cells i c }
    | err e ↦ g
  ]

  unfoldable pub get_index : Grid C → List ℤ → Result (List ℤ)
  get_index g point =
      if is_in_range g point
      then ok (index_from point g.minimum g.maximum g.resolution g.num_cells)
      else err vector_out_of_bound

  -- `operator ()`
  unfoldable pub cell_at : Grid C → List ℤ → Result C
  cell_at g point = do idx ← get_index g point; get_cell g idx

  unfoldable pub reset : C → Grid C → Grid C
  reset cell g = record g { cells = map (λ c. cell) g.cells }

  unfoldable pub increment_index : Grid C → List ℕ → List ℕ
  increment_index g idx = or_else (increment idx g.num_cells) g.num_cells
