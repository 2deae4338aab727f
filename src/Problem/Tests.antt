-- ===== src/Problem/Tests.antt =====
-- An OptimizationProblem with two groups.
use aslam_incremental_calibr.Common.{
  ℕ, ◌+◌, ◌≡◌, refl, [], ◌∷◌, some, length, get_elem?, count, bit, if◌then◌else◌, or_else, or_throw,
  find, ok, err, Exception, out_of_bound, invalid_operation, arith, ◌≢◌, insert, put, ap,
}
use aslam_incremental_calibr.Groups.{flat, design_variable_at}
use aslam_incremental_calibr.Samples.{backend, variables, first_calls}
use aslam_incremental_calibr.Problem.{
  OptimizationProblem, add_design_variable, empty, design_variable, num_design_variables,
  is_design_variable_in_problem, error_term, num_error_terms, errors_of, set_groups_ordering,
  save_design_variables, restore_design_variables, add_error_term,
}
use aslam_incremental_calibr.Problem.Invariant.{IsValid}
use aslam_incremental_calibr.Problem.History.{
  adds_error_term, run, call, thrown, run-empty-IsValid, throws_unchanged,
}
use aslam_incremental_calibr.Problem.Access.{
  listing, design_variable-listing, error_term-listing, set_groups_ordering-stores,
  set_groups_ordering-throws, restore-save,
}

first : OptimizationProblem ℕ
unfolding run
first = run backend variables first_calls empty

listing-first : listing first ≡ 1 ∷ 3 ∷ 2 ∷ []
unfolding first design_variable design_variable_at flat add_error_term add_design_variable find
    insert put
listing-first = refl

design_variable-first :
    (design_variable first 1 ≡ ok 3) × (design_variable first 3 ≡ err (out_of_bound 3))
unfolding first design_variable design_variable_at flat add_error_term add_design_variable find
    insert put
design_variable-first = (refl, refl)

run-empty-IsValid_example : IsValid variables (run backend variables first_calls empty)
run-empty-IsValid_example = run-empty-IsValid backend variables first_calls

first-IsValid : IsValid variables first
unfolding first
first-IsValid = run-empty-IsValid backend variables first_calls

-- Error term 100 needs variable 2.
throws_unchanged_example : call backend variables (adds_error_term (some 100)) empty ≡ empty
unfolding thrown add_error_term find
throws_unchanged_example =
    throws_unchanged backend variables (adds_error_term (some 100)) empty invalid_operation refl
      refl

design_variable-listing_example :
    ((idx : ℕ)
      → design_variable first idx ≡ or_throw (get_elem? (listing first) idx) (out_of_bound idx))
    × (length (listing first) ≡ num_design_variables first)
    × ((dv : ℕ) → count dv (listing first) ≡ bit (is_design_variable_in_problem first dv))
design_variable-listing_example = design_variable-listing first first-IsValid

error_term-listing_example :
    ((idx : ℕ)
      → error_term first idx ≡ or_throw (get_elem? first.error_terms idx) (out_of_bound idx))
    × (length first.error_terms ≡ num_error_terms first)
error_term-listing_example = error_term-listing first first-IsValid

ordering_first : first.groups_ordering ≡ 7 ∷ 8 ∷ []
unfolding first design_variable design_variable_at flat add_error_term add_design_variable find
    insert put
ordering_first = refl

swapped : (g : ℕ) → count g (8 ∷ 7 ∷ []) ≡ count g first.groups_ordering
swapped g = ground (arith, ap (count g) ordering_first)

twice : count 7 (7 ∷ 7 ∷ []) ≢ count 7 first.groups_ordering
twice e = absurd (omega (arith, e, ap (count 7) ordering_first))

set_groups_ordering-stores_example :
    set_groups_ordering (8 ∷ 7 ∷ []) first ≡ (ok tt, record first { groups_ordering = 8 ∷ 7 ∷ [] })
set_groups_ordering-stores_example =
    set_groups_ordering-stores (8 ∷ 7 ∷ []) first first-IsValid swapped

set_groups_ordering-throws_example :
    (e : Exception) × (set_groups_ordering (7 ∷ 7 ∷ []) first ≡ (err e, first))
set_groups_ordering-throws_example =
    set_groups_ordering-throws (7 ∷ 7 ∷ []) first 7 first-IsValid twice

errors : errors_of variables 2 (100 ∷ 101 ∷ []) (101 ∷ []) ≡ 100 ∷ 101 ∷ []
unfolding errors_of
errors = refl

restore-save_example :
    restore_design_variables backend (save_design_variables backend (λ x. x + 50) first) (λ x. 0) 3
    ≡ (if is_design_variable_in_problem first 3
        then 53
        else or_else (find 3 first.design_variables_backup) 0)
restore-save_example = restore-save backend first (λ x. x + 50) (λ x. 0) 3
