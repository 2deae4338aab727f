-- ===== src/Grid/Tests.antt =====
-- A grid of 4 by 3 cells.
use aslam_incremental_calibr.Common.{
  ℕ, ◌+◌, ◌≡◌, ◌<◌, refl, true, false, List, [], ◌∷◌, some, ℤ, pos, negsuc, ◌+ℤ◌, ◌-ℤ◌, map, ok,
  err, vector_out_of_bound, bad_argument, undefined_behaviour, arith, ◌⊎◌, if◌then◌else◌,
}
use aslam_incremental_calibr.Grid.{
  Grid, product, later_products, linear_from, all_below, all_at_most, count_cells, index_from,
  get_cell, set_cell, get_index, cell_at, is_in_range, new_grid, any_not_positive, any_at_least,
  any_coarser, any_too_wide, any_too_large, int_limit, compute_linear_index, increment,
  increment_index,
}
use aslam_incremental_calibr.Grid.Linear.{Below}
use aslam_incremental_calibr.Grid.Cells.{equal, IsGrid, get_cell-set_cell, cell_at_lem}
use aslam_incremental_calibr.Grid.Construct.{IsProper, Covers, new_grid_lem}
use aslam_incremental_calibr.Grid.Increment.{number, steps, origin, increment_index-visits}

abbrev minimum : List ℤ
minimum = negsuc 0 ∷ pos 0 ∷ []

abbrev maximum : List ℤ
maximum = pos 5 ∷ pos 4 ∷ []

abbrev resolution : List ℤ
resolution = pos 2 ∷ pos 2 ∷ []

abbrev cells : List ℕ
cells = 10 ∷ 11 ∷ 12 ∷ 13 ∷ 14 ∷ 15 ∷ 16 ∷ 17 ∷ 18 ∷ 19 ∷ 20 ∷ 21 ∷ []

abbrev grid : Grid ℕ
grid = record {
  cells = cells;
  minimum = minimum;
  maximum = maximum;
  resolution = resolution;
  num_cells = 4 ∷ 3 ∷ [];
  num_cells_tot = 12;
  lin_prod = 3 ∷ 1 ∷ [];
}

program : Unit {0}
unfolding product later_products linear_from all_below all_at_most count_cells index_from get_cell
    set_cell get_index cell_at new_grid any_not_positive any_at_least any_coarser any_too_wide
    any_too_large increment increment_index ◌+ℤ◌ ◌-ℤ◌
program = tt

grid-IsGrid : IsGrid grid
unfolding program
grid-IsGrid = record {
  cells = refl;
  lin_prod = refl;
  few = omega arith;
  num_cells = refl;
  sizes = (refl, refl);
}

-- The constructor makes it, but for the contents.
made :
    new_grid 0 minimum maximum resolution
    ≡ ok (record grid { cells = 0 ∷ 0 ∷ 0 ∷ 0 ∷ 0 ∷ 0 ∷ 0 ∷ 0 ∷ 0 ∷ 0 ∷ 0 ∷ 0 ∷ [] })
unfolding program
made = refl

-- A negative entry passes the test of the index, and another cell is read.
negative_index : get_cell grid (pos 1 ∷ negsuc 0 ∷ []) ≡ ok 12
unfolding program
negative_index = refl

at_maximum : cell_at grid (pos 5 ∷ pos 4 ∷ []) ≡ ok 21
unfolding program
at_maximum = refl

narrow : any_too_wide minimum maximum ≡ false
unfolding program
narrow = refl

few_cells : product (count_cells minimum maximum resolution) < int_limit
unfolding program
few_cells = omega arith

new_grid_lem_example :
    ((¬ (IsProper minimum maximum resolution))
      × (new_grid {C = ℕ} 0 minimum maximum resolution ≡ err bad_argument))
    ⊎ (IsProper minimum maximum resolution
        × (g : Grid ℕ) × (new_grid {C = ℕ} 0 minimum maximum resolution ≡ ok g)
        × (g.minimum ≡ minimum)
        × (g.maximum ≡ maximum)
        × (g.resolution ≡ resolution)
        × IsGrid g
        × Covers minimum maximum resolution g.num_cells)
new_grid_lem_example = new_grid_lem 0 minimum maximum resolution (refl, refl) narrow few_cells

-- On 65536 by 65536 cells a product of `int` is past its range.
overflows :
    compute_linear_index
      (record grid { num_cells = 65536 ∷ 65536 ∷ []; lin_prod = 65536 ∷ 1 ∷ [] })
      (pos 40000 ∷ pos 0 ∷ [])
    ≡ err undefined_behaviour
unfolding program
overflows = refl

cell_at_lem_example :
    ((is_in_range grid (pos 3 ∷ pos 1 ∷ []) ≡ true)
      × (c : ℕ) × (cell_at grid (pos 3 ∷ pos 1 ∷ []) ≡ ok c))
    ⊎ ((is_in_range grid (pos 3 ∷ pos 1 ∷ []) ≡ false)
        × (cell_at grid (pos 3 ∷ pos 1 ∷ []) ≡ err vector_out_of_bound))
cell_at_lem_example = cell_at_lem grid (pos 3 ∷ pos 1 ∷ []) grid-IsGrid refl

first-Below : Below (1 ∷ 2 ∷ []) grid.num_cells
first-Below = (omega arith, (omega arith, tt))

second-Below : Below (3 ∷ 0 ∷ []) grid.num_cells
second-Below = (omega arith, (omega arith, tt))

get_cell-set_cell_example :
    get_cell (set_cell (map pos (1 ∷ 2 ∷ [])) 7 grid) (map pos (3 ∷ 0 ∷ []))
    ≡ (if equal (1 ∷ 2 ∷ []) (3 ∷ 0 ∷ []) then ok 7 else get_cell grid (map pos (3 ∷ 0 ∷ [])))
get_cell-set_cell_example =
    get_cell-set_cell grid (1 ∷ 2 ∷ []) (3 ∷ 0 ∷ []) 7 grid-IsGrid first-Below second-Below

fewer : 5 < product grid.num_cells
unfolding program
fewer = omega arith

increment_index-visits_example :
    (jdx : List ℕ) × (steps 5 grid.num_cells (origin grid.num_cells) ≡ some jdx)
    × Below jdx grid.num_cells
    × (number jdx grid.num_cells ≡ 5)
    × ((5 + 1 < product grid.num_cells)
        ⊎ ((5 + 1 ≡ product grid.num_cells) × (increment_index grid jdx ≡ grid.num_cells)))
increment_index-visits_example = increment_index-visits grid 5 fewer
