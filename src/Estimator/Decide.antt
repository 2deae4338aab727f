-- ===== src/Estimator/Decide.antt =====
-- `addBatch` of core/IncrementalEstimator.cpp, without force: a batch is kept or everything that it
-- changed is put back.
use aslam_incremental_calibr.Common.{
  ℕ, ◌+◌, ◌≡◌, ◌<◌, refl, ◌∙◌, ap, true, false, List, [], ◌∷◌, ◌++◌, some, length, arith, inl, inr,
  Bool-cases, ◌⊎◌, Result, ok, member, length-append,
}
use aslam_incremental_calibr.Backend.{Backend}
use aslam_incremental_calibr.Problem.{OptimizationProblem}
use aslam_incremental_calibr.Problem.Invariant
use aslam_incremental_calibr.Optimizer.{Optimizer, SolutionReturnValue}
use aslam_incremental_calibr.Incremental.{
  IncrementalOptimizationProblem, is_design_variable_in_problem, size_t_mod,
}
use aslam_incremental_calibr.Incremental.Batches
use aslam_incremental_calibr.Incremental.Batches.{save_design_variables}
use aslam_incremental_calibr.Incremental.Invariant.{IsValid}
use aslam_incremental_calibr.Incremental.Reorder.{backup-IsValid}
use aslam_incremental_calibr.Incremental.Grow.{add-IsValid}
use aslam_incremental_calibr.Estimator.{Session, ReturnValue}
use aslam_incremental_calibr.Estimator.Run.{solve_with, add_batch, filled}
use aslam_incremental_calibr.Estimator.Order.{marginalized_last}
use aslam_incremental_calibr.Estimator.Stages.{optimized, solution, solve_stages, kept, saved_index}
use aslam_incremental_calibr.Estimator.Outcome.{Accepted, Rejected, Reports, accepts, rejects}

module _ (k : Backend) (o : Optimizer k) (variables : ℕ → List ℕ)
    (batch : ℕ → OptimizationProblem k.Params) where
  abbrev Problems : Type 0
  Problems = IncrementalOptimizationProblem k.Params

  decides :
      (s s1 : Session k o) (b : ℕ) (q : Problems) (srv : SolutionReturnValue o.Number)
      (ret : ReturnValue k o)
      → solve_with k o batch (some b) false s ≡ (ok (srv, ret), s1)
      → Reports k o variables batch srv ret
      → s1.estimator ≡ record s.estimator { problem = save_design_variables k s.store q }
      → q.optimization_problems ≡ s.estimator.problem.optimization_problems ++ b ∷ []
      → IsValid variables batch q
      → length q.optimization_problems < size_t_mod
      → ((dv : ℕ)
          → is_design_variable_in_problem q dv
            ≡ is_design_variable_in_problem (Batches.add batch (some b) s.estimator.problem).1 dv)
      → (ret' : ReturnValue k o) × (s' : Session k o) × (add_batch k o batch (some b) false s
          ≡ (ok ret', s'))
        × IsValid variables batch s'.estimator.problem
        × (Accepted k o variables batch s s' b ret' ⊎ Rejected k o variables batch s s' b ret')
  unfolding save_design_variables
  decides s s1 b q srv ret solved report est more v fits inside =
      elim (Bool-cases (kept k o variables batch s1 srv ret)) [
        | inl keep ↦
            let (ret', s', run, w, outcome) =
              accepts k o variables batch s s1 b (save_design_variables k s.store q) srv ret solved
                report keep est more
                (backup-IsValid variables batch q
                  (save_design_variables k s.store q).design_variables_backup v) in
            (ret', s', run, w, inl outcome)
        | inr drop ↦
            let (ret', s', run, w, outcome) =
              rejects k o variables batch s s1 b q srv ret solved report drop est more v fits
                inside in
            (ret', s', run, w, inr outcome)
      ]

  -- `addBatch` without force, of a batch that `add` takes and with which the problem has the
  -- marginalized group, returns on every branch, as long as the optimizer does. Either the return
  -- value says that the batch was accepted: the information gain or the rank has improved, the
  -- solution passes the validity check where it is on, the batch is in the problem, and all
  -- statistics of the estimator are those of the return value or of the linear solver. Or it says
  -- that the batch was not: nothing has improved or the solution fails the check, the batches are
  -- those before the call, all else of the estimator is unchanged and all design variables of the
  -- old batches and of the new one have their parameters from before the optimization. The
  -- containers agree with the batches again.
  pub add_batch-decides :
      (s : Session k o) (b : ℕ)
      → IsValid variables batch s.estimator.problem
      → Invariant.IsValid variables (batch b)
      → length s.estimator.problem.optimization_problems + 1 < size_t_mod
      → (Batches.add batch (some b) s.estimator.problem).0 ≡ ok tt
      → member s.estimator.marg_group_id
          (Batches.add batch (some b) s.estimator.problem).1.groups_ordering
        ≡ true
      → (ret : ReturnValue k o) × (s' : Session k o) × (add_batch k o batch (some b) false s
          ≡ (ok ret, s'))
        × IsValid variables batch s'.estimator.problem
        × (Accepted k o variables batch s s' b ret ⊎ Rejected k o variables batch s s' b ret)
  unfolding filled
  add_batch-decides s b v vb room e m =
      let p = s.estimator.problem in
      let g = s.estimator.marg_group_id in
      let a = (Batches.add batch (some b) p).1 in
      let (va, more) = add-IsValid variables batch b p v vb room e in
      let (before, q, reordered, ordered, counts, vq, start) =
        marginalized_last k variables batch s.store g a va m in
      let (index, indexed) =
        saved_index k o variables batch s.store g q before vq
          (ap (λ (x : Problems). x.groups_ordering) reordered) in
      let added : Batches.add batch (some b) p ≡ (ok tt, a) =
        ap (λ (r : Result (Unit {0})). (r, a)) e in
      let solved = solve_stages k o variables batch s b index a q added ordered indexed in
      let found = solution k o variables batch s (save_design_variables k s.store q) index in
      let longer : q.optimization_problems ≡ p.optimization_problems ++ b ∷ [] =
        ap (λ (x : Problems). x.optimization_problems) reordered ∙ more in
      decides s (optimized k o variables batch s (save_design_variables k s.store q) index) b q
        found.0 found.1 solved (refl, refl, refl) refl longer vq
        (omega (arith, room, ap length longer, length-append p.optimization_problems (b ∷ [])))
        (λ dv. ap (λ (x : Problems). is_design_variable_in_problem x dv) reordered)
