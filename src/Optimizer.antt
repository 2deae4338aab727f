-- ===== src/Optimizer.antt =====
-- What core/IncrementalEstimator uses of code that is not its own: aslam::backend::Optimizer2 with
-- its linear solver (aslam::calibration::LinearSolver), Eigen's matrices, double arithmetic and the
-- clock. `Outside` is the state of all of them.
use aslam_incremental_calibr.Common.{ℕ, ◌≡◌, Bool, List, ℤ}
use aslam_incremental_calibr.Backend.{Backend}
use aslam_incremental_calibr.Incremental.{IncrementalOptimizationProblem}

-- aslam::backend::SolutionReturnValue
pub record SolutionReturnValue (Number : Type 0) : Type 0 where
  pub iterations : ℕ
  pub j_start : Number
  pub j_final : Number

pub record Optimizer (k : Backend) : Type 1 where
  pub Outside : Type 0
  -- Doubles, with the constants 0.0 and -1.0, `a > b`, `a >= b`, `a - b` and `0.5 * (a - b)`.
  pub Number : Type 0
  pub zero_number : Number
  pub minus_one : Number
  pub greater : Number → Number → Bool
  pub at_least : Number → Number → Bool
  pub minus : Number → Number → Number
  pub half_difference : Number → Number → Number
  -- Eigen::MatrixXd and Eigen::VectorXd, with what `resize` to no entries gives.
  pub Matrix : Type 0
  pub no_matrix : Matrix
  pub Vector : Type 0
  pub no_vector : Vector
  -- Timestamp::now
  pub now : Outside → Number
  -- Optimizer2
  pub optimize :
      IncrementalOptimizationProblem k.Params
      → Outside × k.Store
      → SolutionReturnValue Number × (Outside × k.Store)
  pub max_iterations : Outside → ℕ
  -- LinearSolver
  pub column_scaling : Outside → Bool
  pub set_marg_start_index : ℕ → Outside → Outside
  pub analyze_marginal : k.Store → Outside → Outside
  pub get_singular_values : Outside → Vector
  pub get_null_space : Outside → Matrix
  pub get_row_space : Outside → Matrix
  pub get_covariance : Outside → Matrix
  pub get_row_space_covariance : Outside → Matrix
  pub get_singular_values_log2_sum : Outside → Number
  pub get_svd_tolerance : Outside → Number
  pub get_qr_tolerance : Outside → Number
  pub get_svd_rank : Outside → ℤ
  pub get_svd_rank_deficiency : Outside → ℤ
  pub get_qr_rank : Outside → ℤ
  pub get_qr_rank_deficiency : Outside → ℤ
  pub get_peak_memory_usage : Outside → ℕ
  pub get_memory_usage : Outside → ℕ
  pub get_num_flops : Outside → Number
  pub init_matrix_structure : List ℕ → List ℕ → k.Store → Outside → Outside
  pub build_system : k.Store → Outside → Outside
  -- The bookkeeping fields of design variables and error terms, which are not their parameters.
  pub set_block_index : ℕ → ℕ → k.Store → k.Store
  pub set_column_base : ℕ → ℕ → k.Store → k.Store
  pub set_row_base : ℕ → ℕ → k.Store → k.Store
  pub dimension : k.Store → ℕ → ℕ
  pub get-set_block_index :
      (dv i x : ℕ) (s : k.Store)
      → k.get_parameters (set_block_index dv i s) x ≡ k.get_parameters s x
  pub get-set_column_base :
      (dv i x : ℕ) (s : k.Store)
      → k.get_parameters (set_column_base dv i s) x ≡ k.get_parameters s x
  pub get-set_row_base :
      (et i x : ℕ) (s : k.Store) → k.get_parameters (set_row_base et i s) x ≡ k.get_parameters s x
