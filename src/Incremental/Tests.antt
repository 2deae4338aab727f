-- ===== src/Incremental/Tests.antt =====
-- An IncrementalOptimizationProblem of two batches that share a design variable.
use aslam_incremental_calibr.Common.{
  ℕ, ◌+◌, ◌≡◌, refl, ap, true, [], ◌∷◌, ◌++◌, some, length, get_elem?, member, count, bit,
  if◌then◌else◌, or_else, or_throw, find, ok, err, out_of_bound, invalid_operation, arith, ◌==◌,
  insert, put, Bool-cases, inl, inr, Result,
}
use aslam_incremental_calibr.Samples.{backend, variables, batch, first_calls, second_calls}
use aslam_incremental_calibr.Groups.{group, flat, design_variable_at}
use aslam_incremental_calibr.Problem
use aslam_incremental_calibr.Problem.{OptimizationProblem}
use aslam_incremental_calibr.Problem.Invariant
use aslam_incremental_calibr.Problem.History.{run, run-empty-IsValid}
use aslam_incremental_calibr.Incremental.{
  IncrementalOptimizationProblem, empty, design_variable, num_design_variables,
  is_design_variable_in_problem, erase_at, clear, add_variable,
}
use aslam_incremental_calibr.Incremental.Batches.{
  add, add_variables, check_error_terms, some_batch_has, remove_idx, error_term, num_error_terms,
  save_design_variables, restore_design_variables,
}
use aslam_incremental_calibr.Incremental.Tally.{entry, owner}
use aslam_incremental_calibr.Incremental.Loops.{group_in}
use aslam_incremental_calibr.Incremental.Invariant.{IsValid, holders}
use aslam_incremental_calibr.Incremental.Grow.{add_lem}
use aslam_incremental_calibr.Incremental.Shrink.{remove_idx_lem}
use aslam_incremental_calibr.Incremental.History.{
  Reach, IsSound, start, next, adds, Reach-IsSound, Reach-determined, remove-add,
}
use aslam_incremental_calibr.Incremental.Access.{
  all_terms, error_term-all_terms, design_variable-flat, restore_design_variables-save,
}

batch-IsValid : (b : ℕ) → Invariant.IsValid variables (batch b)
unfolding batch
batch-IsValid b = elim (Bool-cases (b == 0)) [
  | inl zeroth ↦ rw zeroth (run-empty-IsValid backend variables first_calls)
  | inr other ↦ rw other (run-empty-IsValid backend variables (if b == 1 then second_calls else []))
]

one : IncrementalOptimizationProblem ℕ
one = (add batch (some 0) empty).1

two : IncrementalOptimizationProblem ℕ
two = (add batch (some 1) one).1

program : Unit {0}
unfolding one two add remove_idx batch run add_variable add_variables check_error_terms
    some_batch_has Problem.add_design_variable Problem.add_error_term find insert put
    Problem.design_variable design_variable_at Problem.get_group_id Problem.error_term
program = tt

two_problems : two.optimization_problems ≡ 0 ∷ 1 ∷ []
unfolding program
two_problems = refl

one_run : add batch (some 0) empty ≡ (ok tt, one)
unfolding program
one_run = refl

two_run : add batch (some 1) one ≡ (ok tt, two)
unfolding program
two_run = refl

one_problems : one.optimization_problems ≡ 0 ∷ []
unfolding program
one_problems = refl

-- The shared variable 1 is counted twice and stands in group 7 once.
two_contents :
    (entry two 1 ≡ some (2, 7))
    × (entry two 2 ≡ some (1, 8))
    × (group two.design_variables 7 ≡ 1 ∷ 3 ∷ [])
unfolding program
two_contents = (refl, refl, refl)

-- A batch cannot be added twice: its error terms are in the problem.
one_again : (add batch (some 0) one).0 ≡ err invalid_operation
unfolding program
one_again = refl

Reach-one : Reach backend variables batch one
Reach-one = next start (adds 0 (batch-IsValid 0) (omega arith) one_run)

Reach-two : Reach backend variables batch two
Reach-two =
    next Reach-one (adds 1 (batch-IsValid 1) (omega (arith, ap length one_problems)) two_run)

Reach-IsSound_example : IsSound backend variables batch two
Reach-IsSound_example = Reach-IsSound backend variables batch Reach-two

two-IsSound : IsSound backend variables batch two
two-IsSound = Reach-IsSound backend variables batch Reach-two

one-IsSound : IsSound backend variables batch one
one-IsSound = Reach-IsSound backend variables batch Reach-one

-- The same batches, added in the other order.
other_one : IncrementalOptimizationProblem ℕ
other_one = (add batch (some 1) empty).1

other_two : IncrementalOptimizationProblem ℕ
other_two = (add batch (some 0) other_one).1

other_runs :
    (add batch (some 1) empty ≡ (ok tt, other_one))
    × (add batch (some 0) other_one ≡ (ok tt, other_two))
    × (other_one.optimization_problems ≡ 1 ∷ [])
    × (other_two.optimization_problems ≡ 1 ∷ 0 ∷ [])
unfolding program other_one other_two
other_runs = (refl, refl, refl, refl)

Reach-other_two : Reach backend variables batch other_two
Reach-other_two =
    let (first_run, second_run, at_one, at_two) = other_runs in
    next (next start (adds 1 (batch-IsValid 1) (omega arith) first_run))
      (adds 0 (batch-IsValid 0) (omega (arith, ap length at_one)) second_run)

same_batches : (b : ℕ) → count b two.optimization_problems ≡ count b other_two.optimization_problems
same_batches b =
    let (first_run, second_run, at_one, at_two) = other_runs in
    ground (arith, ap (count b) two_problems, ap (count b) at_two)

Reach-determined_example :
    ((dv : ℕ) → entry two dv ≡ entry other_two dv)
    × ((dv g : ℕ)
        → count dv (group two.design_variables g) ≡ count dv (group other_two.design_variables g))
    × ((g : ℕ) → count g two.groups_ordering ≡ count g other_two.groups_ordering)
Reach-determined_example =
    Reach-determined backend variables batch Reach-two Reach-other_two same_batches

remove_idx_lem_example :
    (q : IncrementalOptimizationProblem ℕ) × (remove_idx batch 0 two ≡ (ok tt, q))
    × (q.optimization_problems ≡ erase_at two.optimization_problems 0)
    × IsValid variables batch q
remove_idx_lem_example =
    remove_idx_lem variables batch two 0 two-IsSound.valid two-IsSound.fits
      (omega (arith, ap length two_problems))

remove-add_example :
    (r : IncrementalOptimizationProblem ℕ) × (remove_idx batch
        (length one.optimization_problems)
        (add batch (some 1) one).1
      ≡ (ok tt, r))
    × (r.optimization_problems ≡ one.optimization_problems)
    × ((dv : ℕ) → entry r dv ≡ entry one dv)
    × ((dv g : ℕ) → count dv (group r.design_variables g) ≡ count dv (group one.design_variables g))
    × (r.groups_ordering ≡ one.groups_ordering)
remove-add_example =
    remove-add backend variables batch 1 one one-IsSound (batch-IsValid 1)
      (omega (arith, ap length one_problems))
      (ap (λ (m : Result (Unit {0}) × IncrementalOptimizationProblem ℕ). m.0) two_run)

groups_agree : (dv g h : ℕ) → group_in (batch 1) dv ≡ some g → owner one dv ≡ some h → h ≡ g
unfolding program
groups_agree dv g h e f = ground (arith, e, f)

terms_free :
    (et : ℕ)
    → member et (batch 1).error_terms ≡ true
    → holders variables batch et one.optimization_problems ≡ 0
unfolding program
terms_free et m = ground (arith, m)

add_lem_example :
    (q : IncrementalOptimizationProblem ℕ) × (add batch (some 1) one ≡ (ok tt, q))
    × (q.optimization_problems ≡ one.optimization_problems ++ 1 ∷ [])
    × IsValid variables batch q
add_lem_example =
    add_lem variables batch 1 one one-IsSound.valid (batch-IsValid 1)
      (omega (arith, ap length one_problems)) groups_agree terms_free

error_term-all_terms_example :
    ((idx : ℕ)
      → error_term batch two idx
        ≡ or_throw (get_elem? (all_terms batch two.optimization_problems) idx) (out_of_bound idx))
    × (num_error_terms batch two ≡ length (all_terms batch two.optimization_problems))
error_term-all_terms_example = error_term-all_terms variables batch two two-IsSound.valid

design_variable-flat_example :
    ((idx : ℕ)
      → design_variable two idx
        ≡ or_throw
            (get_elem? (flat two.design_variables two.groups_ordering) idx)
            (out_of_bound idx))
    × (length (flat two.design_variables two.groups_ordering) ≡ num_design_variables two)
    × ((dv : ℕ)
        → count dv (flat two.design_variables two.groups_ordering)
          ≡ bit (is_design_variable_in_problem two dv))
design_variable-flat_example = design_variable-flat variables batch two two-IsSound.valid

restore_design_variables-save_example :
    restore_design_variables backend (save_design_variables backend (λ x. x + 50) two) (λ x. 0) 4
    ≡ (if is_design_variable_in_problem two 4
        then 54
        else or_else (find 4 two.design_variables_backup) 0)
restore_design_variables-save_example =
    restore_design_variables-save backend two (λ x. x + 50) (λ x. 0) 4

-- The counts have gone up all the same.
one_again_counts : entry (add batch (some 0) one).1 1 ≡ some (2, 7)
unfolding program
one_again_counts = refl

-- The backup survives `clear`.
clear_backup :
    (clear (save_design_variables backend (λ x. x) one)).1.design_variables_backup
    ≡ (1, 1) ∷ (3, 3) ∷ (2, 2) ∷ []
unfolding program clear save_design_variables
clear_backup = refl
