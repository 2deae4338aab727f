-- ===== src/Estimator/Reject.antt =====
-- The end of `addBatch` (core/IncrementalEstimator.cpp) for a batch that is not kept.
use aslam_incremental_calibr.Common.{
  ◌==◌, ℕ, ◌+◌, ◌≡◌, ◌<◌, refl, ◌∙◌, ap, true, false, List, [], ◌∷◌, some, length, arith,
  if◌then◌else◌, inl, inr, Bool-cases, ok, ltb, member, count, or_else, find,
}
use aslam_incremental_calibr.Backend.{Backend}
use aslam_incremental_calibr.Problem.{OptimizationProblem}
use aslam_incremental_calibr.Optimizer.{Optimizer}
use aslam_incremental_calibr.Incremental.{
  IncrementalOptimizationProblem, is_design_variable_in_problem, position, erase_at, size_t_mod,
}
use aslam_incremental_calibr.Incremental.Batches
use aslam_incremental_calibr.Incremental.Batches.{
  remove_idx, save_design_variables, restore_design_variables,
}
use aslam_incremental_calibr.Incremental.Invariant.{IsValid}
use aslam_incremental_calibr.Incremental.Shrink.{remove_idx_lem}
use aslam_incremental_calibr.Incremental.Reorder.{backup-IsValid}
use aslam_incremental_calibr.Incremental.Access.{restore_design_variables-save}
use aslam_incremental_calibr.Estimator.{Session}
use aslam_incremental_calibr.Estimator.Solve.{restore_linear_solver}
use aslam_incremental_calibr.Estimator.Run.{reject}
use aslam_incremental_calibr.Estimator.Swap.{position_lem}
use aslam_incremental_calibr.Estimator.Restore.{Kept, restore_linear_solver-Kept}
use aslam_incremental_calibr.Estimator.Removal.{with_problem}

erase_at-position :
    (b c : ℕ) (xs : List ℕ)
    → member b xs ≡ true
    → count c (erase_at xs (position b xs)) + (if b == c then 1 else 0) ≡ count c xs
unfolding erase_at position
erase_at-position b c [] m = cc
erase_at-position b c (x ∷ xs) m = elim (Bool-cases (x == b)) [
  | inl same ↦ rw same (ground arith)
  | inr other ↦ rw other (ground (arith, m, erase_at-position b c xs))
]

module _ (k : Backend) (o : Optimizer k) (variables : ℕ → List ℕ)
    (batch : ℕ → OptimizationProblem k.Params) where
  abbrev Problems : Type 0
  Problems = IncrementalOptimizationProblem k.Params

  saved-IsValid :
      (saved : k.Store) (q : Problems)
      → IsValid variables batch q
      → IsValid variables batch (save_design_variables k saved q)
  unfolding save_design_variables
  saved-IsValid saved q v =
      backup-IsValid variables batch q (save_design_variables k saved q).design_variables_backup v

  remove_batch-found :
      (b : ℕ) (q r : Problems)
      → member b q.optimization_problems ≡ true
      → remove_idx batch (position b q.optimization_problems) q ≡ (ok tt, r)
      → Batches.remove_batch batch b q ≡ (ok tt, r)
  unfolding Batches.remove_batch
  remove_batch-found b q r m run = rw (m, run) refl

  -- The session after the design variables are restored and the batch is out of the problem.
  abbrev removed : Session k o → Problems → Session k o
  removed s r = record (with_problem k o s r) {
    store = restore_design_variables k s.estimator.problem s.store;
  }

  reject-empty :
      (s : Session k o) (b : ℕ) (r : Problems)
      → Batches.remove_batch batch b s.estimator.problem ≡ (ok tt, r)
      → ltb 0 (length r.optimization_problems) ≡ false
      → reject k o batch (some b) s ≡ (ok tt, removed s r)
  unfolding reject
  reject-empty s b r run e = rw (run, e) refl

  reject-more :
      (s s' : Session k o) (b : ℕ) (r : Problems)
      → Batches.remove_batch batch b s.estimator.problem ≡ (ok tt, r)
      → ltb 0 (length r.optimization_problems) ≡ true
      → restore_linear_solver k o batch (removed s r) ≡ (ok tt, s')
      → reject k o batch (some b) s ≡ (ok tt, s')
  unfolding reject
  reject-more s s' b r run e restored = rw (run, e, restored) refl

  reject-Kept :
      (s : Session k o) (b : ℕ) (r : Problems)
      → Batches.remove_batch batch b s.estimator.problem ≡ (ok tt, r)
      → IsValid variables batch r
      → (s' : Session k o) × (reject k o batch (some b) s ≡ (ok tt, s'))
        × Kept k o variables batch (removed s r) s'
  reject-Kept s b r run v = elim (Bool-cases (ltb 0 (length r.optimization_problems))) [
    | inr e ↦
        (removed s r, reject-empty s b r run e, record { estimator = refl; parameters = λ x. refl })
    | inl e ↦
        let (s', restored, kept) = restore_linear_solver-Kept k o variables batch (removed s r) v in
        (s', reject-more s s' b r run e restored, kept)
  ]

  -- A batch that is not kept: where the design variables of problem `q`, which holds batch `b`, were
  -- saved in store `saved`, the end of `addBatch` returns, in particular `restoreLinearSolver` does.
  -- The problem holds the other batches, its containers agree with them, nothing else of the
  -- estimator has changed, and each design variable of `q`, those that only the rejected batch uses
  -- included, has the parameters that it had in `saved`.
  pub reject-restores :
      (s : Session k o) (b : ℕ) (q : Problems) (saved : k.Store)
      → IsValid variables batch q
      → length q.optimization_problems < size_t_mod
      → member b q.optimization_problems ≡ true
      → s.estimator.problem ≡ save_design_variables k saved q
      → (r : Problems) × (s' : Session k o) × (reject k o batch (some b) s ≡ (ok tt, s'))
        × (s'.estimator ≡ record s.estimator { problem = r })
        × ((c : ℕ)
            → count c r.optimization_problems + (if b == c then 1 else 0)
              ≡ count c q.optimization_problems)
        × IsValid variables batch r
        × ((dv : ℕ)
            → k.get_parameters s'.store dv ≡ (
                if is_design_variable_in_problem q dv
                then k.get_parameters saved dv
                else or_else (find dv q.design_variables_backup) (k.get_parameters s.store dv)))
  unfolding save_design_variables
  reject-restores s b q saved v fits m e =
      let p = save_design_variables k saved q in
      let (at, lt) = position_lem b q.optimization_problems m in
      let (r, run, less, w) =
        remove_idx_lem variables batch p (position b q.optimization_problems)
          (saved-IsValid saved q v) fits lt in
      let gone : Batches.remove_batch batch b s.estimator.problem ≡ (ok tt, r) =
        ap (Batches.remove_batch batch b) e ∙ remove_batch-found b p r m run in
      let (s', rejected, kept) = reject-Kept s b r gone w in
      (
        r,
        s',
        rejected,
        kept.estimator,
        λ c.
            ap (λ l. count c l + (if b == c then 1 else 0)) less
            ∙ erase_at-position b c q.optimization_problems m,
        w,
        λ dv.
            kept.parameters dv
            ∙ ap (λ (x : Problems). k.get_parameters (restore_design_variables k x s.store) dv) e
            ∙ restore_design_variables-save k q saved s.store dv,
      )
