-- ===== src/Estimator/Tests.antt =====
-- An estimator over the batches of the other tests, with an optimizer that leaves everything as it
-- is and reports that the cost went down.
use aslam_incremental_calibr.Common.{
  if◌then◌else◌, ◌⊎◌, ap, or_else, member, ◌+◌, ◌==◌, length, ℕ, ◌≡◌, refl, true, false, List, [],
  ◌∷◌, ◌++◌, some, count, ok, err, invalid_operation, arith, insert, put, find,
}
use aslam_incremental_calibr.Samples.{
  second_calls, backend, optimizer, variables, batch, first_calls,
}
use aslam_incremental_calibr.Groups.{flat, design_variable_at}
use aslam_incremental_calibr.Problem
use aslam_incremental_calibr.Problem.{OptimizationProblem}
use aslam_incremental_calibr.Problem.Invariant
use aslam_incremental_calibr.Problem.History.{run, run-empty-IsValid}
use aslam_incremental_calibr.Incremental.{
  is_design_variable_in_problem, IncrementalOptimizationProblem, empty, add_variable,
}
use aslam_incremental_calibr.Incremental.Batches.{
  save_design_variables, add, add_variables, check_error_terms, some_batch_has,
}
use aslam_incremental_calibr.Incremental.Invariant.{IsValid, empty-IsValid}
use aslam_incremental_calibr.Incremental.Grow.{add-IsValid}
use aslam_incremental_calibr.Estimator.{ReturnValue, Session, new_estimator}
use aslam_incremental_calibr.Estimator.Solve.{order_marginalized_in, marg_start_index}
use aslam_incremental_calibr.Estimator.Run.{remove_batch_at, add_batch, reject}
use aslam_incremental_calibr.Estimator.Order.{marginalized_last, dims}
use aslam_incremental_calibr.Estimator.Reject.{reject-restores}
use aslam_incremental_calibr.Estimator.Decide.{add_batch-decides}
use aslam_incremental_calibr.Estimator.Outcome.{Accepted, Rejected}
use aslam_incremental_calibr.Estimator.Removal.{remove_only_batch, with_problem}

one : IncrementalOptimizationProblem ℕ
one = (add batch (some 0) empty).1

program : Unit {0}
unfolding one add batch run add_variable add_variables check_error_terms some_batch_has
    Problem.add_design_variable Problem.add_error_term find insert put Problem.design_variable
    design_variable_at Problem.get_group_id Problem.error_term
program = tt

one_problems : one.optimization_problems ≡ 0 ∷ []
unfolding program
one_problems = refl

one-IsValid : IsValid variables batch one
unfolding program
one-IsValid =
    (add-IsValid variables batch 0 empty (empty-IsValid variables batch)
      (run-empty-IsValid backend variables first_calls) (omega arith) refl).0

-- Group 7 comes first until it is the marginalized one.
marginalized_last_example :
    (before : List ℕ) × (q : IncrementalOptimizationProblem ℕ) × (q
      ≡ record one { groups_ordering = before ++ 7 ∷ [] })
    × (order_marginalized_in 7 one ≡ (ok tt, q))
    × ((h : ℕ) → count h (before ++ 7 ∷ []) ≡ count h one.groups_ordering)
    × IsValid variables batch q
    × (marg_start_index backend (λ x. 0) q 7
        ≡ ok (dims backend (λ x. 0) (flat one.design_variables before)))
unfolding program
marginalized_last_example =
    marginalized_last backend variables batch (λ x. 0) 7 one one-IsValid refl

session : Session backend optimizer
unfolding new_estimator
session = record {
  estimator =
      record (new_estimator backend optimizer 7
        (record { info_gain_delta = 0; check_validity = true; verbose = false })) { problem = one };
  store = λ x. 0;
  outside = 0;
}

remove_only_batch_example :
    (q : IncrementalOptimizationProblem ℕ) × (remove_batch_at backend optimizer batch 0 session
      ≡ (err invalid_operation, with_problem backend optimizer session q))
    × (q.optimization_problems ≡ [])
    × IsValid variables batch q
unfolding session
remove_only_batch_example =
    remove_only_batch backend optimizer variables batch session 0 one-IsValid one_problems

two_hypotheses :
    ((add batch (some 1) one).0 ≡ ok tt)
    × (member 7 (add batch (some 1) one).1.groups_ordering ≡ true)
unfolding program
two_hypotheses = (refl, refl)

second-IsValid : Invariant.IsValid variables (batch 1)
unfolding program
second-IsValid = run-empty-IsValid backend variables second_calls

add_batch-decides_example :
    (ret : ReturnValue backend optimizer) × (s' : Session backend optimizer) × (add_batch backend
        optimizer batch
        (some 1)
        false
        session
      ≡ (ok ret, s'))
    × IsValid variables batch s'.estimator.problem
    × (Accepted backend optimizer variables batch session s' 1 ret
        ⊎ Rejected backend optimizer variables batch session s' 1 ret)
unfolding session
add_batch-decides_example =
    add_batch-decides backend optimizer variables batch session 1 one-IsValid second-IsValid
      (omega (arith, ap length one_problems)) two_hypotheses.0 two_hypotheses.1

-- The design variables had value 4 when they were saved and have value 9 now.
optimized_session : Session backend optimizer
unfolding new_estimator save_design_variables
optimized_session = record session {
  estimator = record session.estimator { problem = save_design_variables backend (λ x. 4) one };
  store = λ x. 9;
}

reject-restores_example :
    (r : IncrementalOptimizationProblem ℕ) × (s' : Session backend optimizer) × (reject backend
        optimizer batch
        (some 0)
        optimized_session
      ≡ (ok tt, s'))
    × (s'.estimator ≡ record optimized_session.estimator { problem = r })
    × ((c : ℕ)
        → count c r.optimization_problems + (if 0 == c then 1 else 0)
          ≡ count c one.optimization_problems)
    × IsValid variables batch r
    × ((dv : ℕ)
        → s'.store dv ≡ (
            if is_design_variable_in_problem one dv
            then 4
            else or_else (find dv one.design_variables_backup) 9))
unfolding optimized_session
reject-restores_example =
    reject-restores backend optimizer variables batch optimized_session 0 one (λ x. 4) one-IsValid
      (omega (arith, ap length one_problems)) there refl
  where
    there : member 0 one.optimization_problems ≡ true
    there = ground (arith, ap (member 0) one_problems)
