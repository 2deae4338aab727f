-- ===== src/Estimator/Stages.antt =====
-- The stages of `addBatch` (core/IncrementalEstimator.cpp): what it hands on from the optimization to
-- the decision and from there to its end.
use aslam_incremental_calibr.Common.{
  ℕ, ◌≡◌, refl, ap, Bool, true, false, List, [], ◌∷◌, ◌++◌, some, arith, ok, count, contains,
  count-append,
}
use aslam_incremental_calibr.Backend.{Backend}
use aslam_incremental_calibr.Problem.{OptimizationProblem}
use aslam_incremental_calibr.Optimizer.{Optimizer, SolutionReturnValue}
use aslam_incremental_calibr.Groups.Index.{IsGrouping-AllGroups}
use aslam_incremental_calibr.Incremental.{IncrementalOptimizationProblem}
use aslam_incremental_calibr.Incremental.Batches
use aslam_incremental_calibr.Incremental.Batches.{save_design_variables}
use aslam_incremental_calibr.Incremental.Invariant.{IsValid}
use aslam_incremental_calibr.Estimator.{Session, ReturnValue}
use aslam_incremental_calibr.Estimator.Solve.{
  order_marginalized_in, order_marginalized_design_variables, marg_start_index,
  optimize_marginalized,
}
use aslam_incremental_calibr.Estimator.Run.{
  solve_with, conclude, add_batch, solution_valid, keep_batch, filled,
}
use aslam_incremental_calibr.Estimator.Order.{marg_start_index_last}

module _ (k : Backend) (o : Optimizer k) (variables : ℕ → List ℕ)
    (batch : ℕ → OptimizationProblem k.Params) where
  abbrev Problems : Type 0
  Problems = IncrementalOptimizationProblem k.Params

  -- The session that `optimize` and then `analyzeMarginal` leave.
  abbrev pub optimized : Session k o → Problems → ℕ → Session k o
  optimized s p index =
      let after = (o.optimize p (o.set_marg_start_index index s.outside, s.store)).1 in
      record {
        estimator = record s.estimator { problem = p };
        store = after.1;
        outside = o.analyze_marginal after.1 after.0;
      }

  -- What `addBatch` has decided on, with the optimizer's result.
  abbrev pub solution : Session k o → Problems → ℕ → SolutionReturnValue o.Number × ReturnValue k o
  solution s p index =
      let (srv, after) = o.optimize p (o.set_marg_start_index index s.outside, s.store) in
      (
        srv,
        record (filled k o srv after.0 (o.analyze_marginal after.1 after.0)) {
          information_gain =
              o.half_difference
                (o.get_singular_values_log2_sum (o.analyze_marginal after.1 after.0))
                s.estimator.sv_log2_sum;
        },
      )

  pub solve_stages :
      (s : Session k o) (b index : ℕ) (a q : Problems)
      → Batches.add batch (some b) s.estimator.problem ≡ (ok tt, a)
      → order_marginalized_in s.estimator.marg_group_id a ≡ (ok tt, q)
      → marg_start_index k s.store (save_design_variables k s.store q) s.estimator.marg_group_id
        ≡ ok index
      → solve_with k o batch (some b) false s ≡ (
        ok (solution s (save_design_variables k s.store q) index),
        optimized s (save_design_variables k s.store q) index,
      )
  unfolding solve_with order_marginalized_design_variables optimize_marginalized
  solve_stages s b index a q added ordered indexed = rw (added, ordered, indexed) refl

  abbrev pub kept : Session k o → SolutionReturnValue o.Number → ReturnValue k o → Bool
  kept s srv ret =
      keep_batch k o s.estimator.options ret s.estimator.rank_theta
        (solution_valid k o s.estimator.options (o.max_iterations s.outside) srv) false

  pub add_batch_stages :
      (s s1 s2 : Session k o) (b : ℕ) (srv : SolutionReturnValue o.Number) (ret : ReturnValue k o)
      → solve_with k o batch (some b) false s ≡ (ok (srv, ret), s1)
      → conclude k o batch (some b) ret (kept s1 srv ret) s1 ≡ (ok tt, s2)
      → add_batch k o batch (some b) false s ≡ (
        ok (record ret {
          batch_accepted = kept s1 srv ret;
          elapsed_time = o.minus (o.now s2.outside) (o.now s.outside);
        }),
        s2,
      )
  unfolding add_batch
  add_batch_stages s s1 s2 b srv ret solved concluded = rw (solved, concluded) refl

  -- Saving the design variables does not move the marginalization index.
  pub saved_index :
      (store : k.Store) (g : ℕ) (q : Problems) (before : List ℕ)
      → IsValid variables batch q
      → q.groups_ordering ≡ before ++ g ∷ []
      → (index : ℕ) × (marg_start_index k store (save_design_variables k store q) g ≡ ok index)
  unfolding save_design_variables
  saved_index store g q before v e = (
    _,
    marg_start_index_last k store (save_design_variables k store q) before g
        (IsGrouping-AllGroups v.tallied.grouping) there e,
  )
    where
      there : contains g q.design_variables ≡ true
      there =
          ground
            (arith, v.tallied.grouping.ordered g, ap (count g) e, count-append g before (g ∷ []))
