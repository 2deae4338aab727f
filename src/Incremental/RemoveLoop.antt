-- ===== src/Incremental/RemoveLoop.antt =====
-- The loop of `remove` in core/IncrementalOptimizationProblem.cpp over the design variables of a
-- batch.
use aslam_incremental_calibr.Common.{
  ℕ, ◌+◌, ◌-◌, ◌≡◌, ◌≤◌, ◌<◌, refl, ◌∙◌, List, [], ◌∷◌, some, length, count, ◌==◌, if◌then◌else◌,
  ok, arith,
}
use aslam_incremental_calibr.Problem.{OptimizationProblem}
use aslam_incremental_calibr.Problem.Invariant.{IsValid}
use aslam_incremental_calibr.Incremental.{
  IncrementalOptimizationProblem, remove_variable, size_t_mod,
}
use aslam_incremental_calibr.Incremental.Batches.{remove_variables}
use aslam_incremental_calibr.Incremental.Tally.{IsTallied, owner}
use aslam_incremental_calibr.Incremental.Untally.{remove_variable-Removed}
use aslam_incremental_calibr.Incremental.Loops.{
  IsTallied-congr, IsRest, IsRest-tail, reads, remove_variables-suc,
}

module _ {Params : Type 0} where
  -- What `remove`'s loop over `rest` gives.
  pub record RemovedAll (tally : ℕ → ℕ) (rest : List ℕ)
      (p q : IncrementalOptimizationProblem Params) : Type 0 where
    pub tallied : IsTallied (λ x. tally x - count x rest) q
    pub keeps : (x h : ℕ) → owner p x ≡ some h → 0 < tally x - count x rest → owner q x ≡ some h
    pub problems : q.optimization_problems ≡ p.optimization_problems

  pub remove_variables-RemovedAll :
      {variables : ℕ → List ℕ} {tally : ℕ → ℕ} (problem : OptimizationProblem Params)
      (rest : List ℕ) (i : ℕ) (p : IncrementalOptimizationProblem Params)
      → IsValid variables problem
      → IsRest problem i rest
      → IsTallied tally p
      → ((x : ℕ) → tally x < size_t_mod)
      → ((x : ℕ) → count x rest ≤ tally x)
      → (q : IncrementalOptimizationProblem Params) × (remove_variables (length rest) problem i p
          ≡ (ok tt, q))
        × RemovedAll tally rest p q
  unfolding remove_variables
  remove_variables-RemovedAll problem [] i p v r t small enough = (
    p,
    refl,
    record {
      tallied = IsTallied-congr p (λ x. omega arith) t;
      keeps = λ x h f pos. f;
      problems = refl;
    },
  )
  remove_variables-RemovedAll {tally = tally} problem (dv ∷ rest) i p v r t small enough =
      let (g, e, in_g, f) = reads problem i dv rest v r in
      let (done, one) = remove_variable-Removed p dv t (used (enough dv)) (small dv) in
      let (q, run, all) =
        remove_variables-RemovedAll {tally = λ x. tally x - (if dv == x then 1 else 0)} problem rest
          (i + 1) (remove_variable dv p).1 v (IsRest-tail problem i dv rest r) one.tallied
          (λ x. omega (arith, small x)) (λ x. ground (arith, enough x)) in
      (
        q,
        remove_variables-suc (length rest) problem i dv p e done ∙ run,
        record {
          tallied = IsTallied-congr q (λ x. omega arith) all.tallied;
          keeps = λ x h m pos. all.keeps x h (one.keeps x h m (omega arith)) (omega arith);
          problems = all.problems ∙ one.problems;
        },
      )
    where
      used : count dv (dv ∷ rest) ≤ tally dv → 0 < tally dv
      used h = ground (arith, h)
