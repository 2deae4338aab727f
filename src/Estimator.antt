-- ===== src/Estimator.antt =====
-- incremental_calibration/src/core/IncrementalEstimator.cpp and its header: the state of the
-- estimator and what it reads of its parts.
pub mod Solve
pub mod Run
pub mod Swap
pub mod Order
pub mod Removal
pub mod Restore
pub mod Reject
pub mod Stages
pub mod Outcome
pub mod Decide
mod Tests
use aslam_incremental_calibr.Common.{
  ℕ, ◌+◌, ◌-◌, ◌≡◌, Bool, true, false, not, List, [], ◌∷◌, ◌++◌, Option, none, some, ℤ, pos, negsuc,
  ltz, length, get_elem?, set, member, ◌==◌, if◌then◌else◌, Result, ok, err, invalid_operation,
  Method,
}
use aslam_incremental_calibr.Backend.{Backend}
use aslam_incremental_calibr.Optimizer.{Optimizer, SolutionReturnValue}
use aslam_incremental_calibr.Incremental
use aslam_incremental_calibr.Incremental.{IncrementalOptimizationProblem}

pub record Options (Number : Type 0) : Type 0 where
  pub info_gain_delta : Number
  pub check_validity : Bool
  pub verbose : Bool

module _ (k : Backend) (o : Optimizer k) where
  open k use {Store, Params}
  open o use {Outside, Number, Matrix, Vector}

  pub record ReturnValue : Type 0 where
    pub batch_accepted : Bool
    pub information_gain : Number
    pub rank_psi : ℤ
    pub rank_psi_deficiency : ℤ
    pub rank_theta : ℤ
    pub rank_theta_deficiency : ℤ
    pub svd_tolerance : Number
    pub qr_tolerance : Number
    pub nobs_basis : Matrix
    pub nobs_basis_scaled : Matrix
    pub obs_basis : Matrix
    pub obs_basis_scaled : Matrix
    pub sigma2_theta : Matrix
    pub sigma2_theta_scaled : Matrix
    pub sigma2_theta_obs : Matrix
    pub sigma2_theta_obs_scaled : Matrix
    pub singular_values : Vector
    pub singular_values_scaled : Vector
    pub num_iterations : ℕ
    pub j_start : Number
    pub j_final : Number
    pub elapsed_time : Number

  pub record IncrementalEstimator : Type 0 where
    pub options : Options Number
    pub marg_group_id : ℕ
    pub problem : IncrementalOptimizationProblem Params
    pub information_gain : Number
    pub sv_log2_sum : Number
    pub nobs_basis : Matrix
    pub nobs_basis_scaled : Matrix
    pub obs_basis : Matrix
    pub obs_basis_scaled : Matrix
    pub sigma2_theta : Matrix
    pub sigma2_theta_scaled : Matrix
    pub sigma2_theta_obs : Matrix
    pub sigma2_theta_obs_scaled : Matrix
    pub singular_values : Vector
    pub singular_values_scaled : Vector
    pub svd_tolerance : Number
    pub qr_tolerance : Number
    pub rank_theta : ℤ
    pub rank_theta_deficiency : ℤ
    pub rank_psi : ℤ
    pub rank_psi_deficiency : ℤ
    pub peak_memory_usage : ℕ
    pub memory_usage : ℕ
    pub num_flops : Number
    pub initial_cost : Number
    pub final_cost : Number

  -- A method of the estimator also changes the design variables and the optimizer.
  pub record Session : Type 0 where
    pub estimator : IncrementalEstimator
    pub store : Store
    pub outside : Outside

  -- The constructor; the matrices start without entries.
  unfoldable pub new_estimator : ℕ → Options Number → IncrementalEstimator
  new_estimator marg_group_id options = record {
    options = options;
    marg_group_id = marg_group_id;
    problem = Incremental.empty;
    information_gain = o.zero_number;
    sv_log2_sum = o.zero_number;
    nobs_basis = o.no_matrix;
    nobs_basis_scaled = o.no_matrix;
    obs_basis = o.no_matrix;
    obs_basis_scaled = o.no_matrix;
    sigma2_theta = o.no_matrix;
    sigma2_theta_scaled = o.no_matrix;
    sigma2_theta_obs = o.no_matrix;
    sigma2_theta_obs_scaled = o.no_matrix;
    singular_values = o.no_vector;
    singular_values_scaled = o.no_vector;
    svd_tolerance = o.zero_number;
    qr_tolerance = o.minus_one;
    rank_theta = negsuc 0;
    rank_theta_deficiency = negsuc 0;
    rank_psi = negsuc 0;
    rank_psi_deficiency = negsuc 0;
    peak_memory_usage = 0;
    memory_usage = 0;
    num_flops = o.zero_number;
    initial_cost = o.zero_number;
    final_cost = o.zero_number;
  }

  abbrev pub get_num_batches : IncrementalEstimator → ℕ
  get_num_batches e = Incremental.get_num_optimization_problems e.problem

  -- The accessors that choose between the two systems.
  abbrev pub get_nobs_basis : Bool → IncrementalEstimator → Matrix
  get_nobs_basis scaled e = if scaled then e.nobs_basis_scaled else e.nobs_basis

  abbrev pub get_obs_basis : Bool → IncrementalEstimator → Matrix
  get_obs_basis scaled e = if scaled then e.obs_basis_scaled else e.obs_basis

  abbrev pub get_sigma2_theta : Bool → IncrementalEstimator → Matrix
  get_sigma2_theta scaled e = if scaled then e.sigma2_theta_scaled else e.sigma2_theta

  abbrev pub get_sigma2_theta_obs : Bool → IncrementalEstimator → Matrix
  get_sigma2_theta_obs scaled e = if scaled then e.sigma2_theta_obs_scaled else e.sigma2_theta_obs

  abbrev pub get_singular_values : Bool → IncrementalEstimator → Vector
  get_singular_values scaled e = if scaled then e.singular_values_scaled else e.singular_values

  -- A call of a method of the problem.
  abbrev pub on_problem :
      {A : Type 0} → Method (IncrementalOptimizationProblem Params) A → Method Session A
  on_problem m s =
      let (r, problem) = m s.estimator.problem in
      (r, record s { estimator = record s.estimator { problem = problem } })
