-- ===== src/TimeDelay/Fill.antt =====
-- `addMeasurements` of algo/Calibrator.cpp of
-- incremental_calibration_examples/incremental_calibration_examples_time_delay/src up to the call of
-- the estimator: the batch is made without an exception.
use aslam_incremental_calibr.Common.{
  ℕ, ◌≡◌, ◌≤◌, ◌<◌, refl, subst, true, false, List, [], ◌∷◌, some, length, count, find, insert, put,
  contains, ltb, Result, ok, arith,
}
use aslam_incremental_calibr.Groups.{group}
use aslam_incremental_calibr.Groups.Index.{owner-contains}
use aslam_incremental_calibr.Problem
use aslam_incremental_calibr.Problem.{OptimizationProblem, add_design_variable, set_groups_ordering}
use aslam_incremental_calibr.Problem.Invariant.{
  IsValid, empty-IsValid, add_design_variable-IsValid, set_groups_ordering-IsValid,
}
use aslam_incremental_calibr.Problem.Access.{set_groups_ordering-stores}
use aslam_incremental_calibr.TimeDelay.Odometry.{add_to_batch, pointers_from}
use aslam_incremental_calibr.TimeDelay.Contents.{Holds}

module _ {Params : Type 0} where
  -- The batch with the odometry design variables.
  abbrev pub odometry_only : OptimizationProblem Params
  odometry_only = (add_to_batch (pointers_from 0) 1 Problem.empty).1

  pub add_to_batch-empty :
      add_to_batch (pointers_from 0) 1 (Problem.empty {Params = Params}) ≡ (ok tt, odometry_only)
  unfolding add_to_batch add_design_variable find insert put
  add_to_batch-empty = refl

  pub odometry_only-Holds :
      (variables : ℕ → List ℕ) (first first_term : ℕ)
      → 7 ≤ first
      → Holds variables first first first_term first_term odometry_only
  unfolding add_to_batch add_design_variable find insert put
  odometry_only-Holds variables first first_term low = record {
    valid = adds 4 _ (adds 3 _ (adds 6 _ (adds 2 _ (adds 5 _ (adds 1 _ (adds 0 _ start))))));
    groups = λ dv. ground (arith, low);
    terms = λ et. ground arith;
  }
    where
      start : IsValid variables (Problem.empty {Params = Params})
      start = empty-IsValid variables

      adds :
          (dv : ℕ) (p : OptimizationProblem Params)
          → IsValid variables p
          → IsValid variables (add_design_variable (some dv) 1 p).1
      adds dv p v = add_design_variable-IsValid variables (some dv) 1 p v

  -- The design variables of splines are there, so the groups are 0 and 1.
  only_groups :
      {variables : ℕ → List ℕ} (first upto first_term next_term : ℕ)
      (p : OptimizationProblem Params)
      → 7 ≤ first
      → first < upto
      → Holds variables first upto first_term next_term p
      → (g : ℕ) → count g (0 ∷ 1 ∷ []) ≡ count g p.groups_ordering
  only_groups first upto first_term next_term p low some_left h g = ground (
    arith,
    h.valid.grouping.ordered g,
    other,
    owner-contains h.valid.grouping 0 1 (ground (arith, h.groups 0)),
    owner-contains h.valid.grouping first 0 (ground (arith, h.groups first, low, some_left)),
  )
    where
      member_of : (l : List ℕ) → 0 < length l → (dv : ℕ) × (0 < count dv l)
      member_of [] pos = absurd (omega (arith, pos))
      member_of (dv ∷ rest) pos = (dv, ground arith)

      other : contains g p.design_variables ≡ true → ltb 1 g ≡ false
      other there =
          let (dv, has) =
            member_of (group p.design_variables g) (h.valid.grouping.nonempty g there) in
          ground (arith, has, h.valid.grouping.grouped dv g, h.groups dv)

  -- `setGroupsOrdering({0, 1})` of a batch with both groups.
  pub ordered-Holds :
      {variables : ℕ → List ℕ} (first upto first_term next_term : ℕ)
      (p : OptimizationProblem Params)
      → 7 ≤ first
      → first < upto
      → Holds variables first upto first_term next_term p
      → (set_groups_ordering (0 ∷ 1 ∷ []) p ≡ (ok tt, record p { groups_ordering = 0 ∷ 1 ∷ [] }))
        × Holds variables first upto first_term next_term
            (record p { groups_ordering = 0 ∷ 1 ∷ [] })
  ordered-Holds {variables} first upto first_term next_term p low some_left h =
      let stores =
        set_groups_ordering-stores (0 ∷ 1 ∷ []) p h.valid
          (only_groups first upto first_term next_term p low some_left h) in
      (
        stores,
        record {
          valid =
              subst (λ (r : Result (Unit {0}) × OptimizationProblem Params). IsValid variables r.1)
                stores (set_groups_ordering-IsValid variables (0 ∷ 1 ∷ []) p h.valid);
          groups = h.groups;
          terms = h.terms;
        },
      )
