-- ===== src/Samples.antt =====
-- A concrete back end and optimizer for the tests: a design variable's parameters are one number, each is active
-- and has one dimension.
pub mod Expressing
use aslam_incremental_calibr.Common.{
  ℕ, ◌-◌, refl, true, false, List, [], ◌∷◌, some, ◌==◌, if◌then◌else◌, ltb, leb, pos,
}
use aslam_incremental_calibr.Optimizer.{Optimizer}
use aslam_incremental_calibr.Backend.{Backend}
use aslam_incremental_calibr.Problem.{OptimizationProblem, empty}
use aslam_incremental_calibr.Problem.History.{Call, adds_variable, adds_error_term, run}

abbrev pub backend : Backend
backend = record {
  Store = ℕ → ℕ;
  Params = ℕ;
  is_active = λ s dv. true;
  minimal_dimensions = λ s dv. 1;
  get_parameters = λ s dv. s dv;
  set_parameters = λ dv v s x. if dv == x then v else s x;
  get-set = λ dv x v s. refl;
}

-- An optimizer that leaves everything as it is and reports that the cost went down.
abbrev pub optimizer : Optimizer backend
optimizer = record {
  Outside = ℕ;
  Number = ℕ;
  zero_number = 0;
  minus_one = 0;
  greater = λ a b. ltb b a;
  at_least = λ a b. leb b a;
  minus = λ a b. a - b;
  half_difference = λ a b. a - b;
  Matrix = Unit {0};
  no_matrix = tt;
  Vector = List ℕ;
  no_vector = [];
  now = λ w. w;
  optimize = λ p w. (record { iterations = 1; j_start = 5; j_final = 2 }, w);
  max_iterations = λ w. 20;
  column_scaling = λ w. false;
  set_marg_start_index = λ i w. i;
  analyze_marginal = λ s w. w;
  get_singular_values = λ w. w ∷ [];
  get_null_space = λ w. tt;
  get_row_space = λ w. tt;
  get_covariance = λ w. tt;
  get_row_space_covariance = λ w. tt;
  get_singular_values_log2_sum = λ w. w;
  get_svd_tolerance = λ w. 0;
  get_qr_tolerance = λ w. 0;
  get_svd_rank = λ w. pos w;
  get_svd_rank_deficiency = λ w. pos 0;
  get_qr_rank = λ w. pos w;
  get_qr_rank_deficiency = λ w. pos 0;
  get_peak_memory_usage = λ w. 0;
  get_memory_usage = λ w. 0;
  get_num_flops = λ w. 0;
  init_matrix_structure = λ dvs ets s w. w;
  build_system = λ s w. w;
  set_block_index = λ dv i s. s;
  set_column_base = λ dv i s. s;
  set_row_base = λ et i s. s;
  dimension = λ s et. 1;
  get-set_block_index = λ dv i x s. refl;
  get-set_column_base = λ dv i x s. refl;
  get-set_row_base = λ et i x s. refl;
}

-- Error term 100 is over variables 1 and 2, the others are over variable 1.
abbrev pub variables : ℕ → List ℕ
variables et = if et == 100 then 1 ∷ 2 ∷ [] else 1 ∷ []

-- Two groups: 7 with variables 1 and 3, and 8 with variable 2.
abbrev pub first_calls : List (Call backend)
first_calls =
    adds_variable (some 1) 7
    ∷ adds_variable (some 2) 8
    ∷ adds_variable (some 3) 7
    ∷ adds_error_term (some 100)
    ∷ []

abbrev pub second_calls : List (Call backend)
second_calls =
    adds_variable (some 4) 9
    ∷ adds_variable (some 1) 7
    ∷ adds_error_term (some 101)
    ∷ adds_error_term (some 102)
    ∷ []

-- The batch behind each pointer.
unfoldable pub batch : ℕ → OptimizationProblem ℕ
unfolding run
batch b =
    if b == 0
    then run backend variables first_calls empty
    else run backend variables (if b == 1 then second_calls else []) empty
