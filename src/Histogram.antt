-- ===== src/Histogram.antt =====
-- incremental_calibration/include/aslam/calibration/statistics/HistogramMv.tpp and Histogram1v.tpp,
-- for integer samples: a histogram is a grid of numbers. A sample is a list with one entry per
-- dimension, of one entry where the source has Histogram1v. Streams, and the statistics that
-- compute with doubles, are left out.
pub mod Counts
mod Tests
use aslam_incremental_calibr.Common.{List, [], ◌∷◌, ℤ, if◌then◌else◌, Result, ok, ◌>>=◌}
use aslam_incremental_calibr.Grid.{Grid, get_cell, set_cell, get_index, is_in_range, new_grid}

-- The numbers of the cells are doubles in the source, with their zero.
abbrev pub new_histogram :
    {Number : Type 0} → Number → List ℤ → List ℤ → List ℤ → Result (Grid Number)
new_histogram zero_number min max bin_size = new_grid zero_number min max bin_size

-- The `++` of a number is a parameter.
module _ {Number : Type 0} (increase : Number → Number) where
  unfoldable pub add_sample : List ℤ → Grid Number → Result (Grid Number)
  add_sample sample h =
      if is_in_range h sample
      then (do
        idx ← get_index h sample
        number ← get_cell h idx
        ok (set_cell idx (increase number) h))
      else ok h

  unfoldable pub add_samples : List (List ℤ) → Grid Number → Result (Grid Number)
  add_samples [] h = ok h
  add_samples (sample ∷ samples) h = do h' ← add_sample sample h; add_samples samples h'
