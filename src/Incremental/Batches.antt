-- ===== src/Incremental/Batches.antt =====
-- The methods of core/IncrementalOptimizationProblem.cpp that read the batches: `add`, `remove`, the
-- indexing of error terms, dimensions, saving and restoring.
use aslam_incremental_calibr.Common.{
  ℕ, zero, suc, ◌+◌, ◌-◌, Bool, true, false, List, [], ◌∷◌, ◌++◌, Option, none, some, get_elem?,
  member, ltb, if◌then◌else◌, keys, Result, ok, err, null_pointer, invalid_operation, out_of_bound,
  out_of_range, Method,
}
use aslam_incremental_calibr.Common.Stateful.{pure, throw, ask, ◌>>=◌, ◌>>◌, modify}
use aslam_incremental_calibr.Backend.{Backend}
use aslam_incremental_calibr.Backup.{save_from, restore_from}
use aslam_incremental_calibr.Groups.{sum_dims}
use aslam_incremental_calibr.Problem
use aslam_incremental_calibr.Problem.{OptimizationProblem}
use aslam_incremental_calibr.Incremental.{
  IncrementalOptimizationProblem, add_variable, remove_variable, position, erase_at,
  get_design_variables_group, get_optimization_problem,
}

module _ {Params : Type 0} where
  -- `add`'s first loop, over the design variables of a batch: `rounds` of them, from index `i` on.
  unfoldable pub add_variables :
      ℕ → OptimizationProblem Params → ℕ → Method (IncrementalOptimizationProblem Params) (Unit {0})
  unfolding add_variable
  add_variables zero problem i = pure tt
  add_variables (suc rounds) problem i =
      let rest = add_variables rounds problem (i + 1) in
      do
        dv ← ask (λ _. Problem.design_variable problem i)
        group_id ← ask (λ _. Problem.get_group_id problem dv)
        add_variable dv group_id
        rest

  -- `remove`'s loop over the design variables of a batch.
  unfoldable pub remove_variables :
      ℕ → OptimizationProblem Params → ℕ → Method (IncrementalOptimizationProblem Params) (Unit {0})
  unfolding remove_variable
  remove_variables zero problem i = pure tt
  remove_variables (suc rounds) problem i =
      let rest = remove_variables rounds problem (i + 1) in
      do dv ← ask (λ _. Problem.design_variable problem i); remove_variable dv; rest

module _ {Params : Type 0} (batch : ℕ → OptimizationProblem Params) where
  -- Loop of `isErrorTermInProblem` over the batches.
  unfoldable pub some_batch_has : ℕ → List ℕ → Bool
  some_batch_has et [] = false
  some_batch_has et (b ∷ problems) =
      if Problem.is_error_term_in_problem (batch b) et then true else some_batch_has et problems

  abbrev pub is_error_term_in_problem : IncrementalOptimizationProblem Params → ℕ → Bool
  is_error_term_in_problem p et = some_batch_has et p.optimization_problems

  -- `getErrorTerms(idx)`
  unfoldable pub get_error_terms : IncrementalOptimizationProblem Params → ℕ → Result (List ℕ)
  get_error_terms p idx = elim (get_optimization_problem p idx) [
    | err e ↦ err e
    | ok b ↦ ok (batch b).error_terms
  ]

  -- `add`'s second loop.
  unfoldable pub check_error_terms :
      ℕ → OptimizationProblem Params → ℕ → Method (IncrementalOptimizationProblem Params) (Unit {0})
  unfolding some_batch_has
  check_error_terms zero problem i = pure tt
  check_error_terms (suc rounds) problem i =
      let rest = check_error_terms rounds problem (i + 1) in
      do
        et ← ask (λ _. Problem.error_term problem i)
        ask (λ p. if is_error_term_in_problem p et then err invalid_operation else ok tt)
        rest

  unfoldable pub add : Option ℕ → Method (IncrementalOptimizationProblem Params) (Unit {0})
  unfolding add_variables check_error_terms
  add none = throw null_pointer
  add (some b) = do
    add_variables (Problem.num_design_variables (batch b)) (batch b) 0
    check_error_terms (Problem.num_error_terms (batch b)) (batch b) 0
    modify (λ p. record p { optimization_problems = p.optimization_problems ++ b ∷ [] })

  -- `remove` by iterator or index.
  unfoldable pub remove_idx : ℕ → Method (IncrementalOptimizationProblem Params) (Unit {0})
  unfolding remove_variables get_optimization_problem
  remove_idx idx = do
    b ← ask (λ p. get_optimization_problem p idx)
    remove_variables (Problem.num_design_variables (batch b)) (batch b) 0
    modify (λ p. record p { optimization_problems = erase_at p.optimization_problems idx })

  -- `remove` of a batch: the first place where it stands.
  unfoldable pub remove_batch : ℕ → Method (IncrementalOptimizationProblem Params) (Unit {0})
  unfolding remove_idx
  remove_batch b p =
      if member b p.optimization_problems
      then remove_idx (position b p.optimization_problems) p
      else (err invalid_operation, p)

  -- Loop of `numErrorTermsImplementation`.
  unfoldable pub sum_error_terms : List ℕ → ℕ
  sum_error_terms [] = 0
  sum_error_terms (b ∷ problems) = Problem.num_error_terms (batch b) + sum_error_terms problems

  abbrev pub num_error_terms : IncrementalOptimizationProblem Params → ℕ
  num_error_terms p = sum_error_terms p.optimization_problems

  -- Loop of `getErrorIdx`: from the batches that are left, the index of the first of them and
  -- `idxRunning`. At the end no batch was found.
  unfoldable pub get_error_idx_from : List ℕ → ℕ → ℕ → ℕ → Result (ℕ × ℕ)
  get_error_idx_from [] idx batch_idx running = err (out_of_bound idx)
  get_error_idx_from (b ∷ problems) idx batch_idx running =
      let batch_size = Problem.num_error_terms (batch b) in
      let rest = get_error_idx_from problems idx (batch_idx + 1) (running + batch_size) in
      if ltb idx (running + batch_size) then ok (batch_idx, idx - running) else rest

  -- `errorTermImplementation`
  unfoldable pub error_term : IncrementalOptimizationProblem Params → ℕ → Result ℕ
  unfolding get_error_idx_from
  error_term p idx = elim (get_error_idx_from p.optimization_problems idx 0 0) [
    | err e ↦ err e
    | ok (batch_idx, idx_batch) ↦ elim (get_elem? p.optimization_problems batch_idx) [
      | none ↦ err out_of_range
      | some b ↦ Problem.error_term (batch b) idx_batch
    ]
  ]

module _ (b : Backend) where
  open b use {Store, Params, is_active, minimal_dimensions}

  unfoldable pub get_group_dim : Store → IncrementalOptimizationProblem Params → ℕ → Result ℕ
  unfolding get_design_variables_group
  get_group_dim s p group_id = elim (get_design_variables_group p group_id) [
    | err e ↦ err e
    | ok design_variables ↦ ok (sum_dims (is_active s) (minimal_dimensions s) design_variables)
  ]

  unfoldable pub save_design_variables :
      Store → IncrementalOptimizationProblem Params → IncrementalOptimizationProblem Params
  unfolding save_from
  save_design_variables s p = record p {
    design_variables_backup =
        save_from b s (keys p.design_variables_counts) p.design_variables_backup;
  }

  unfoldable pub restore_design_variables : IncrementalOptimizationProblem Params → Store → Store
  unfolding restore_from
  restore_design_variables p =
      restore_from b p.design_variables_backup (keys p.design_variables_backup)
