-- ===== src/TimeDelay/Calibrating.antt =====
-- What algo/Calibrator.cpp of
-- incremental_calibration_examples/incremental_calibration_examples_time_delay/src keeps true of its
-- estimator and of the batches that it has given to it.
use aslam_incremental_calibr.Common.{
  ℕ, ◌+◌, ◌-◌, ◌≡◌, ◌≤◌, ◌<◌, refl, ◌∙◌, ap, subst, true, List, [], ◌∷◌, ◌++◌, some, length,
  get_elem?, get_elem?-append_left, get_elem?-append_right, member, arith, find,
}
use aslam_incremental_calibr.Backend.{Backend}
use aslam_incremental_calibr.Optimizer.{Optimizer}
use aslam_incremental_calibr.Expressions.{Expressions}
use aslam_incremental_calibr.Problem.{OptimizationProblem}
use aslam_incremental_calibr.Spline.{OptimizationProblemSpline}
use aslam_incremental_calibr.Incremental.Invariant.{IsValid, empty-IsValid}
use aslam_incremental_calibr.Incremental.Loops.{group_in}
use aslam_incremental_calibr.Estimator
use aslam_incremental_calibr.Estimator.{new_estimator}
use aslam_incremental_calibr.TimeDelay.{
  Calibrator, CalibratorOptions, new_calibrator, variables_in, problem_in,
}
use aslam_incremental_calibr.TimeDelay.Odometry.{OdometryConfig, pointers_from}
use aslam_incremental_calibr.TimeDelay.Contents.{kind}

module _ (k : Backend) (o : Optimizer k) (x : Expressions k o) where
  open x use {ErrorTerm}

  -- The batches of the estimator.
  abbrev pub problems : Calibrator k o x → List ℕ
  problems c = c.estimator.estimator.problem.optimization_problems

  -- Batches behind these pointers, over error terms that have been made.
  pub record Stored (made : List ErrorTerm) (batches : List (OptimizationProblemSpline k o x))
      (b : ℕ) : Type 0 where
    pub allocated : b < length batches
    pub kinds : (dv g : ℕ) → group_in (problem_in k o x batches b) dv ≡ some g → g ≡ kind dv
    pub terms :
        (et : ℕ) → member et (problem_in k o x batches b).error_terms ≡ true → et < length made

  pub record IsCalibrating (c : Calibrator k o x) : Type 0 where
    pub variables : c.odometry_design_variables ≡ pointers_from 0
    pub next : 7 ≤ c.next_design_variable
    pub marg_group_id : c.estimator.estimator.marg_group_id ≡ 1
    pub valid :
        IsValid
          (variables_in k o x c.error_terms)
          (problem_in k o x c.batches)
          c.estimator.estimator.problem
    pub stored : (b : ℕ) → member b (problems c) ≡ true → Stored c.error_terms c.batches b
    -- Each batch that was offered has its place in the histories; some were rejected.
    pub few : length (problems c) ≤ length c.batches
    pub offered : length c.info_gain_history ≡ length c.batches
    pub recorded : length c.odometry_variables_history ≡ length c.batches + 1

  -- The objects that there are stay when more are made.
  pub problem_in-append :
      (batches more : List (OptimizationProblemSpline k o x)) (b : ℕ)
      → b < length batches
      → problem_in k o x (batches ++ more) b ≡ problem_in k o x batches b
  problem_in-append batches more b lt =
      rw (get_elem?-append_left batches more b lt, problem_in) refl

  pub problem_in-last :
      (batches : List (OptimizationProblemSpline k o x)) (p : OptimizationProblemSpline k o x)
      → problem_in k o x (batches ++ p ∷ []) (length batches) ≡ p.problem
  problem_in-last batches p = rw (at_end, problem_in) refl
    where
      zero_index : length batches - length batches ≡ 0
      zero_index = omega arith

      at_end : get_elem? (batches ++ p ∷ []) (length batches) ≡ some p
      at_end =
          get_elem?-append_right batches (p ∷ []) (length batches) (omega arith)
          ∙ ap (get_elem? (p ∷ [])) zero_index

  pub Stored-later :
      {terms terms' : List ErrorTerm} {batches batches' : List (OptimizationProblemSpline k o x)}
      (b : ℕ)
      → length terms ≤ length terms'
      → length batches ≤ length batches'
      → problem_in k o x batches' b ≡ problem_in k o x batches b
      → Stored terms batches b
      → Stored terms' batches' b
  Stored-later b more_terms more_batches same v = record {
    allocated = omega (arith, v.allocated, more_batches);
    kinds = λ dv g e.
        v.kinds dv g (subst (λ (q : OptimizationProblem k.Params). group_in q dv ≡ some g) same e);
    terms = λ et m. omega (
      arith,
      more_terms,
      v.terms et
          (subst (λ (q : OptimizationProblem k.Params). member et q.error_terms ≡ true) same m),
    );
  }

  -- A new calibrator, whose estimator marginalizes group 1.
  pub new_calibrator-IsCalibrating :
      (options : CalibratorOptions o.Number) (estimator_options : Estimator.Options o.Number)
      (config : OdometryConfig o.Number) (s : k.Store) (outside : o.Outside)
      → IsCalibrating (new_calibrator k o x options 1 estimator_options config s outside)
  unfolding new_calibrator new_estimator find
  new_calibrator-IsCalibrating options estimator_options config s outside = record {
    variables = refl;
    next = omega arith;
    marg_group_id = refl;
    valid = empty-IsValid (variables_in k o x []) (problem_in k o x []);
    stored = λ b m. cc;
    few = omega arith;
    offered = refl;
    recorded = refl;
  }
