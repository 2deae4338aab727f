-- ===== src/Estimator/Removal.antt =====
-- `removeBatch` of core/IncrementalEstimator.cpp on the only batch of the problem.
use aslam_incremental_calibr.Common.{
  ℕ, ◌≡◌, refl, ◌∙◌, ap, false, List, [], ◌∷◌, length, member, count, arith, ok, err, Exception,
  invalid_operation, member-count,
}
use aslam_incremental_calibr.Backend.{Backend}
use aslam_incremental_calibr.Problem.{OptimizationProblem}
use aslam_incremental_calibr.Optimizer.{Optimizer}
use aslam_incremental_calibr.Incremental.{IncrementalOptimizationProblem, empty, erase_at}
use aslam_incremental_calibr.Incremental.Batches.{remove_idx}
use aslam_incremental_calibr.Incremental.Invariant.{IsValid, empty-IsValid, entry_determined}
use aslam_incremental_calibr.Incremental.Shrink.{remove_idx_lem}
use aslam_incremental_calibr.Estimator.{Session}
use aslam_incremental_calibr.Estimator.Solve.{
  order_marginalized_in, order_marginalized_design_variables,
}
use aslam_incremental_calibr.Estimator.Run.{reoptimize, remove_batch_at}
use aslam_incremental_calibr.Estimator.Swap.{order_marginalized_in-missing}

module _ (k : Backend) (o : Optimizer k) where
  -- The session with another problem.
  abbrev pub with_problem : Session k o → IncrementalOptimizationProblem k.Params → Session k o
  with_problem s p = record s { estimator = record s.estimator { problem = p } }

module _ (k : Backend) (o : Optimizer k) (variables : ℕ → List ℕ)
    (batch : ℕ → OptimizationProblem k.Params) where
  abbrev Problems : Type 0
  Problems = IncrementalOptimizationProblem k.Params

  -- No group is listed where there is no batch.
  no_groups :
      (p : Problems) (g : ℕ)
      → IsValid variables batch p
      → p.optimization_problems ≡ []
      → member g p.groups_ordering ≡ false
  no_groups p g v none_left =
      let agree =
        entry_determined variables batch p empty v (empty-IsValid variables batch)
          (λ b. ap (count b) none_left) in
      ground (arith, agree.2 g, member-count g p.groups_ordering)

  reoptimize_throws :
      (s : Session k o) (e : Exception) (p : Problems)
      → order_marginalized_in s.estimator.marg_group_id s.estimator.problem ≡ (err e, p)
      → reoptimize k o batch s ≡ (err e, with_problem k o s p)
  unfolding reoptimize order_marginalized_design_variables
  reoptimize_throws s e p h = rw (h, order_marginalized_design_variables)

  remove_stages :
      (s : Session k o) (idx : ℕ) (q : Problems)
      → remove_idx batch idx s.estimator.problem ≡ (ok tt, q)
      → member s.estimator.marg_group_id q.groups_ordering ≡ false
      → remove_batch_at k o batch idx s ≡ (err invalid_operation, with_problem k o s q)
  unfolding remove_batch_at
  remove_stages s idx q run missing = rw (
    run,
    reoptimize_throws (with_problem k o s q) invalid_operation q
        (order_marginalized_in-missing variables batch s.estimator.marg_group_id q missing),
  )

  -- `removeBatch` of the only batch always throws InvalidOperationException: the batch is removed,
  -- nothing else of the estimator changes, and `reoptimize` then finds no marginalized group.
  pub remove_only_batch :
      (s : Session k o) (b : ℕ)
      → IsValid variables batch s.estimator.problem
      → s.estimator.problem.optimization_problems ≡ b ∷ []
      → (q : Problems) × (remove_batch_at k o batch 0 s
          ≡ (err invalid_operation, with_problem k o s q))
        × (q.optimization_problems ≡ [])
        × IsValid variables batch q
  unfolding erase_at
  remove_only_batch s b v one =
      let p = s.estimator.problem in
      let single : length p.optimization_problems ≡ 1 = ap length one ∙ omega arith in
      let (q, run, less, w) =
        remove_idx_lem variables batch p 0 v (omega (arith, single)) (omega (arith, single)) in
      let left = less ∙ erased p.optimization_problems one in
      (q, remove_stages s 0 q run (no_groups q s.estimator.marg_group_id w left), left, w)
    where
      erased : (problems : List ℕ) → problems ≡ b ∷ [] → erase_at problems 0 ≡ []
      erased problems e = rw e refl
