-- ===== src/Estimator/Run.antt =====
-- The methods of core/IncrementalEstimator.cpp that optimize: `reoptimize`, `addBatch` and
-- `removeBatch`.
use aslam_incremental_calibr.Common.{
  ℕ, Bool, true, false, not, Option, none, some, member, ◌==◌, ltb, if◌then◌else◌, ok, Method, ◌&&◌,
  ◌||◌, ltz, ℤ,
}
use aslam_incremental_calibr.Common.Stateful.{pure, ask, ◌>>=◌, ◌>>◌, modify}
use aslam_incremental_calibr.Backend.{Backend}
use aslam_incremental_calibr.Problem.{OptimizationProblem}
use aslam_incremental_calibr.Optimizer.{Optimizer, SolutionReturnValue}
use aslam_incremental_calibr.Incremental
use aslam_incremental_calibr.Incremental.{position}
use aslam_incremental_calibr.Incremental.Batches
use aslam_incremental_calibr.Estimator.{
  Options, ReturnValue, IncrementalEstimator, Session, on_problem,
}
use aslam_incremental_calibr.Estimator.Solve.{
  order_marginalized_design_variables, optimize_marginalized, restore_linear_solver,
}

module _ (k : Backend) (o : Optimizer k) where
  open o use {Outside, Number}

  -- The return value filled from the optimizer, from the linear solver as it stands after the
  -- optimization (`before`: the scaled system) and as it stands after `analyzeMarginal` (`after`).
  -- The source fills in `batchAccepted`, `informationGain` and `elapsedTime` later.
  unfoldable pub filled : SolutionReturnValue Number → Outside → Outside → ReturnValue k o
  filled srv before after = record {
    batch_accepted = true;
    information_gain = o.zero_number;
    rank_psi = o.get_qr_rank after;
    rank_psi_deficiency = o.get_qr_rank_deficiency after;
    rank_theta = o.get_svd_rank after;
    rank_theta_deficiency = o.get_svd_rank_deficiency after;
    svd_tolerance = o.get_svd_tolerance after;
    qr_tolerance = o.get_qr_tolerance after;
    nobs_basis = o.get_null_space after;
    nobs_basis_scaled = if o.column_scaling before then o.get_null_space before else o.no_matrix;
    obs_basis = o.get_row_space after;
    obs_basis_scaled = if o.column_scaling before then o.get_row_space before else o.no_matrix;
    sigma2_theta = o.get_covariance after;
    sigma2_theta_scaled = if o.column_scaling before then o.get_covariance before else o.no_matrix;
    sigma2_theta_obs = o.get_row_space_covariance after;
    sigma2_theta_obs_scaled =
        if o.column_scaling before then o.get_row_space_covariance before else o.no_matrix;
    singular_values = o.get_singular_values after;
    singular_values_scaled =
        if o.column_scaling before then o.get_singular_values before else o.no_vector;
    num_iterations = srv.iterations;
    j_start = srv.j_start;
    j_final = srv.j_final;
    elapsed_time = o.zero_number;
  }

  -- The assignments to the members, the same in `reoptimize` and for a batch that is kept.
  unfoldable pub store_statistics :
      ReturnValue k o
      → Number
      → Number
      → Outside
      → IncrementalEstimator k o
      → IncrementalEstimator k o
  store_statistics ret information_gain sv_log2_sum after e = record e {
    information_gain = information_gain;
    sv_log2_sum = sv_log2_sum;
    nobs_basis = ret.nobs_basis;
    nobs_basis_scaled = ret.nobs_basis_scaled;
    obs_basis = ret.obs_basis;
    obs_basis_scaled = ret.obs_basis_scaled;
    sigma2_theta = ret.sigma2_theta;
    sigma2_theta_scaled = ret.sigma2_theta_scaled;
    sigma2_theta_obs = ret.sigma2_theta_obs;
    sigma2_theta_obs_scaled = ret.sigma2_theta_obs_scaled;
    singular_values = ret.singular_values;
    singular_values_scaled = ret.singular_values_scaled;
    svd_tolerance = ret.svd_tolerance;
    qr_tolerance = ret.qr_tolerance;
    rank_theta = ret.rank_theta;
    rank_theta_deficiency = ret.rank_theta_deficiency;
    rank_psi = ret.rank_psi;
    rank_psi_deficiency = ret.rank_psi_deficiency;
    peak_memory_usage = o.get_peak_memory_usage after;
    memory_usage = o.get_memory_usage after;
    num_flops = o.get_num_flops after;
    initial_cost = ret.j_start;
    final_cost = ret.j_final;
  }

  -- `solutionValid`
  unfoldable pub solution_valid : Options Number → ℕ → SolutionReturnValue Number → Bool
  solution_valid options max_iterations srv = not (
      options.check_validity
      && (srv.iterations == max_iterations || o.at_least srv.j_final srv.j_start))

  -- The test by which `addBatch` keeps a batch.
  unfoldable pub keep_batch : Options Number → ReturnValue k o → ℤ → Bool → Bool → Bool
  keep_batch options ret rank_theta valid force =
      (o.greater ret.information_gain options.info_gain_delta || ltz rank_theta ret.rank_theta)
        && valid
      || force

module _ (k : Backend) (o : Optimizer k) (batch : ℕ → OptimizationProblem k.Params) where
  open o use {Outside, Number}

  unfoldable pub reoptimize : Method (Session k o) (ReturnValue k o)
  unfolding order_marginalized_design_variables optimize_marginalized filled store_statistics
  reoptimize = do
    time_start ← ask (λ s. ok (o.now s.outside))
    order_marginalized_design_variables k o batch
    srv ← optimize_marginalized k o batch
    before ← ask (λ s. ok s.outside)
    modify (λ s. record s { outside = o.analyze_marginal s.store s.outside })
    ret ← ask (λ s. ok (filled k o srv before s.outside))
    modify (λ s. record s {
      estimator =
          store_statistics k o ret o.zero_number (o.get_singular_values_log2_sum s.outside)
            s.outside s.estimator;
    })
    ask (λ s. ok (record ret { elapsed_time = o.minus (o.now s.outside) time_start }))

  -- `addBatch` up to the decision: the batch is in the problem and optimized.
  unfoldable pub solve_with :
      Option ℕ → Bool → Method (Session k o) (SolutionReturnValue Number × ReturnValue k o)
  unfolding order_marginalized_design_variables optimize_marginalized filled
  solve_with problem force = do
    on_problem k o (Batches.add batch problem)
    order_marginalized_design_variables k o batch
    modify (λ s. if force then s else record s {
      estimator = record s.estimator {
        problem = Batches.save_design_variables k s.store s.estimator.problem;
      };
    })
    srv ← optimize_marginalized k o batch
    before ← ask (λ s. ok s.outside)
    modify (λ s. record s { outside = o.analyze_marginal s.store s.outside })
    ask (λ s. ok (
      srv,
      record (filled k o srv before s.outside) {
        information_gain =
            o.half_difference (o.get_singular_values_log2_sum s.outside) s.estimator.sv_log2_sum;
      },
    ))

  -- `remove` of the batch that was given.
  abbrev pub remove_given : Option ℕ → Method (Session k o) (Unit {0})
  remove_given none = pure tt
  remove_given (some b) = on_problem k o (Batches.remove_batch batch b)

  -- The end of `addBatch` for a batch that is not kept.
  unfoldable pub reject : Option ℕ → Method (Session k o) (Unit {0})
  unfolding restore_linear_solver
  reject problem = do
    modify
        (λ s. record s { store = Batches.restore_design_variables k s.estimator.problem s.store })
    remove_given problem
    num_batches ← ask (λ s. ok (Incremental.get_num_optimization_problems s.estimator.problem))
    if ltb 0 num_batches then restore_linear_solver k o batch else pure tt

  -- The two ways in which `addBatch` ends.
  unfoldable pub conclude : Option ℕ → ReturnValue k o → Bool → Method (Session k o) (Unit {0})
  unfolding reject store_statistics
  conclude problem ret true = modify (λ s. record s {
    estimator =
        store_statistics k o ret ret.information_gain (o.get_singular_values_log2_sum s.outside)
          s.outside s.estimator;
  })
  conclude problem ret false = reject problem

  unfoldable pub add_batch : Option ℕ → Bool → Method (Session k o) (ReturnValue k o)
  unfolding solve_with keep_batch solution_valid conclude
  add_batch problem force = do
    time_start ← ask (λ s. ok (o.now s.outside))
    (srv, ret) ← solve_with problem force
    valid ← ask (λ s. ok (solution_valid k o s.estimator.options (o.max_iterations s.outside) srv))
    keep ← ask (λ s. ok (keep_batch k o s.estimator.options ret s.estimator.rank_theta valid force))
    conclude problem ret keep
    ask (λ s.
        ok (record ret {
          batch_accepted = keep;
          elapsed_time = o.minus (o.now s.outside) time_start;
        }))

  -- `removeBatch` by index
  unfoldable pub remove_batch_at : ℕ → Method (Session k o) (Unit {0})
  unfolding reoptimize
  remove_batch_at idx = do on_problem k o (Batches.remove_idx batch idx); ret ← reoptimize; pure tt

  -- `removeBatch` of a batch, which does nothing where it is not in the problem.
  unfoldable pub remove_batch : ℕ → Method (Session k o) (Unit {0})
  unfolding remove_batch_at
  remove_batch b s =
      if member b s.estimator.problem.optimization_problems
      then remove_batch_at (position b s.estimator.problem.optimization_problems) s
      else (ok tt, s)
