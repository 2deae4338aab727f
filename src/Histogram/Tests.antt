-- ===== src/Histogram/Tests.antt =====
-- A histogram of one dimension with 5 cells, and samples of which two are out of range.
use aslam_incremental_calibr.Common.{
  ℕ, suc, ◌≡◌, refl, List, [], ◌∷◌, ℤ, pos, negsuc, ◌+ℤ◌, ◌-ℤ◌, ok, arith,
}
use aslam_incremental_calibr.Grid.{
  Grid, product, later_products, linear_from, all_below, all_at_most, count_cells, index_from,
  get_cell, set_cell, get_index, new_grid, any_not_positive, any_at_least, any_coarser,
  any_too_wide, any_too_large,
}
use aslam_incremental_calibr.Grid.Cells.{IsGrid}
use aslam_incremental_calibr.Histogram.{new_histogram, add_sample, add_samples}
use aslam_incremental_calibr.Histogram.Counts.{IsCounted, count, falls_in, add_samples_lem}

abbrev histogram : Grid ℕ
histogram = record {
  cells = 0 ∷ 0 ∷ 0 ∷ 0 ∷ 0 ∷ [];
  minimum = negsuc 0 ∷ [];
  maximum = pos 8 ∷ [];
  resolution = pos 2 ∷ [];
  num_cells = 5 ∷ [];
  num_cells_tot = 5;
  lin_prod = 1 ∷ [];
}

abbrev samples : List (List ℤ)
samples = (pos 3 ∷ []) ∷ (pos 9 ∷ []) ∷ (pos 8 ∷ []) ∷ (negsuc 1 ∷ []) ∷ (pos 4 ∷ []) ∷ []

program : Unit {0}
unfolding product later_products linear_from all_below all_at_most count_cells index_from get_cell
    set_cell get_index new_grid any_not_positive any_at_least any_coarser any_too_wide any_too_large
    ◌+ℤ◌ ◌-ℤ◌ add_sample add_samples
program = tt

made : new_histogram 0 (negsuc 0 ∷ []) (pos 8 ∷ []) (pos 2 ∷ []) ≡ ok histogram
unfolding program
made = refl

counted :
    add_samples suc samples histogram ≡ ok (record histogram { cells = 0 ∷ 0 ∷ 2 ∷ 0 ∷ 1 ∷ [] })
unfolding program
counted = refl

two_fall : count (falls_in histogram (2 ∷ [])) samples ≡ 2
unfolding program
two_fall = refl

histogram-IsGrid : IsGrid histogram
unfolding program
histogram-IsGrid = record {
  cells = refl;
  lin_prod = refl;
  few = omega arith;
  num_cells = refl;
  sizes = (refl, refl);
}

add_samples_lem_example :
    (h : Grid ℕ) × (add_samples suc samples histogram ≡ ok h) × IsCounted suc histogram h samples
add_samples_lem_example =
    add_samples_lem suc histogram samples histogram-IsGrid
      (refl, (refl, (refl, (refl, (refl, tt)))))
