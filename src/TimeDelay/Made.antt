-- ===== src/TimeDelay/Made.antt =====
-- The batch that `addMeasurements` of algo/Calibrator.cpp of
-- incremental_calibration_examples/incremental_calibration_examples_time_delay/src makes: what it
-- holds, and what the calibrator looks like then.
use aslam_incremental_calibr.Common.{
  ℤ, true, false, ◌⊎◌, ◌≡◌, ◌≤◌, ◌<◌, refl, ◌∙◌, ap, [], ◌∷◌, ◌++◌, length, ok, arith,
}
use aslam_incremental_calibr.Backend.{Backend}
use aslam_incremental_calibr.Optimizer.{Optimizer}
use aslam_incremental_calibr.Expressions.{Expressions}
use aslam_incremental_calibr.Problem
use aslam_incremental_calibr.Problem.{OptimizationProblem}
use aslam_incremental_calibr.Spline
use aslam_incremental_calibr.Spline.{SplineOf, Inserting}
use aslam_incremental_calibr.TimeDelay.{Calibrator, variables_in, clear_measurements}
use aslam_incremental_calibr.TimeDelay.Odometry.{add_to_batch, pointers_from}
use aslam_incremental_calibr.TimeDelay.Terms.{Splines, init_splines, with_splines}
use aslam_incremental_calibr.TimeDelay.Wheels.{Wheel, left_wheel, right_wheel, is_outside, delayed}
use aslam_incremental_calibr.TimeDelay.Run.{
  Building, fill_batch, pose_terms, wheel_terms, add_pose_error_terms, add_left_wheel_error_terms,
  add_right_wheel_error_terms,
}
use aslam_incremental_calibr.TimeDelay.Contents.{Holds}
use aslam_incremental_calibr.TimeDelay.Gather.{chosen, with_terms}
use aslam_incremental_calibr.TimeDelay.Closed.{Fits, is_outside-Fits}
use aslam_incremental_calibr.TimeDelay.Fill.{
  odometry_only, add_to_batch-empty, odometry_only-Holds, ordered-Holds,
}
use aslam_incremental_calibr.TimeDelay.Stages.{
  init_splines_lem, new_translation, new_rotation, beyond, new_splines-Inside, add_splines,
  add_terms,
}

module _ (k : Backend) (o : Optimizer k) (x : Expressions k o) where
  open x use {TranslationCurve, RotationCurve, translation_size, rotation_size, ErrorTerm}

  -- What `addMeasurements` has done to the calibrator when it calls the estimator.
  pub record Made (c : Calibrator k o x) (w : Building k o x) : Type 0 where
    pub splines : Splines k o x
    pub translation_splines : w.batch.translation_splines ≡ splines.0 ∷ []
    pub rotation_splines : w.batch.rotation_splines ≡ splines.1 ∷ []
    pub groups_ordering : w.batch.problem.groups_ordering ≡ 0 ∷ 1 ∷ []
    -- The batch is over the odometry design variables and those of the new splines,
    pub next : c.next_design_variable < w.calibrator.next_design_variable
    pub holds :
        Holds
          (variables_in k o x w.calibrator.error_terms)
          c.next_design_variable
          w.calibrator.next_design_variable
          (length c.error_terms)
          (length w.calibrator.error_terms)
          w.batch.problem
    -- and there is a new error term for each measurement that the loops do not pass over,
    pub error_terms :
        w.calibrator.error_terms
        ≡ c.error_terms
          ++ (chosen (pose_terms k o x w.calibrator splines c.pose_measurements)
              ++ (chosen (
                    wheel_terms k o x w.calibrator splines
                      (left_wheel k o x w.calibrator)
                      c.left_wheel_speed_measurements)
                  ++ chosen (
                      wheel_terms k o x w.calibrator splines
                        (right_wheel k o x w.calibrator)
                        c.right_wheel_speed_measurements)))
    -- which are the wheel speeds whose delayed time stamps fit the splines, and all poses.
    pub passes :
        (wheel : Wheel k o x) (timestamp : ℤ)
        → ((is_outside k o x w.calibrator.options splines w.calibrator.estimator.store
                (delayed k o x wheel timestamp)
              ≡ true)
            × (¬ (
                Fits k o x w.calibrator.options splines w.calibrator.estimator.store wheel
                  timestamp)))
          ⊎ ((is_outside k o x w.calibrator.options splines w.calibrator.estimator.store
                  (delayed k o x wheel timestamp)
                ≡ false)
              × Fits k o x w.calibrator.options splines w.calibrator.estimator.store wheel
                  timestamp)
    pub estimator : w.calibrator.estimator.estimator ≡ c.estimator.estimator
    pub options : w.calibrator.options ≡ c.options
    pub variables : w.calibrator.odometry_design_variables ≡ c.odometry_design_variables
    pub batches : w.calibrator.batches ≡ c.batches
    pub last_timestamp : w.calibrator.last_timestamp ≡ c.last_timestamp
    pub start : w.calibrator.current_batch_start_timestamp ≡ c.last_timestamp
    pub poses : w.calibrator.pose_measurements ≡ []
    pub left : w.calibrator.left_wheel_speed_measurements ≡ []
    pub right : w.calibrator.right_wheel_speed_measurements ≡ []
    pub info_gain_history : w.calibrator.info_gain_history ≡ c.info_gain_history
    pub odometry_variables_history :
        w.calibrator.odometry_variables_history ≡ c.odometry_variables_history

  -- The calls of `addMeasurements`, one after the other.
  fill_stages :
      (c c1 : Calibrator k o x) (sp : Splines k o x) (p0 p5 : OptimizationProblem k.Params)
      (j l : Inserting k o x) (w3 w4 w5 : Building k o x)
      → add_to_batch c.odometry_design_variables 1 Problem.empty ≡ (ok tt, p0)
      → init_splines k o x c.pose_measurements c ≡ (ok sp, c1)
      → Spline.add_translation_spline k o x sp.0 0 (record {
        batch = record (Spline.empty k o x) { problem = p0 };
        store = c1.estimator.store;
      })
        ≡ (ok tt, j)
      → Spline.add_rotation_spline k o x sp.1 0 j ≡ (ok tt, l)
      → add_pose_error_terms k o x c.pose_measurements sp (record {
        calibrator = record c1 { estimator = record c1.estimator { store = l.store } };
        batch = l.batch;
      })
        ≡ (ok tt, w3)
      → add_left_wheel_error_terms k o x c.left_wheel_speed_measurements sp w3 ≡ (ok tt, w4)
      → add_right_wheel_error_terms k o x c.right_wheel_speed_measurements sp w4 ≡ (ok tt, w5)
      → Problem.set_groups_ordering (0 ∷ 1 ∷ []) w5.batch.problem ≡ (ok tt, p5)
      → fill_batch k o x (record { calibrator = c; batch = Spline.empty k o x }) ≡ (
        ok tt,
        record {
          calibrator = record (clear_measurements k o x w5.calibrator) {
            current_batch_start_timestamp = w5.calibrator.last_timestamp;
          };
          batch = record w5.batch { problem = p5 };
        },
      )
  unfolding fill_batch clear_measurements
  fill_stages c c1 sp p0 p5 j l w3 w4 w5 e0 e1 e2 e3 e4 e5 e6 e7 =
      rw (e0, e1, e2, e3, e4, e5, e6, e7) refl

  -- With a pose measurement, the batch is made without an exception.
  pub fill_batch_lem :
      (c : Calibrator k o x)
      → c.odometry_design_variables ≡ pointers_from 0
      → 7 ≤ c.next_design_variable
      → 0 < length c.pose_measurements
      → (w : Building k o x) × (fill_batch k o x
            (record { calibrator = c; batch = Spline.empty k o x })
          ≡ (ok tt, w))
        × Made c w
  unfolding with_splines clear_measurements pose_terms wheel_terms
  fill_batch_lem c e low pos =
      let (t, r, init) = init_splines_lem k o x c.pose_measurements c pos in
      let c1 : Calibrator k o x = (with_splines k o x t r c).1 in
      let sp : Splines k o x = (new_translation k o x t c, new_rotation k o x t r c) in
      let first = c.next_design_variable in
      let variables = variables_in k o x c.error_terms in
      let n = length c.error_terms in
      let added : add_to_batch c.odometry_design_variables 1 (Problem.empty {Params = k.Params})
          ≡ (ok tt, odometry_only) =
        ap (λ d. add_to_batch d 1 (Problem.empty {Params = k.Params})) e ∙ add_to_batch-empty in
      let i : Inserting k o x = record {
        batch = record (Spline.empty k o x) { problem = odometry_only };
        store = c1.estimator.store;
      } in
      let (j, l, adds1, adds2, h, kept1, kept2) =
        add_splines k o x {variables = variables} t r c n n i low
          (odometry_only-Holds variables first n low) in
      let c2 : Calibrator k o x = record c1 {
        estimator = record c1.estimator { store = l.store };
      } in
      let w2 : Building k o x = record { calibrator = c2; batch = l.batch } in
      let inside = new_splines-Inside k o x t r c c.odometry_design_variables e in
      let (w3, w4, terms, p, run1, run2, run3, found, h5) =
        add_terms k o x first (beyond k o x t r c) n w2 sp c.pose_measurements
          c.left_wheel_speed_measurements c.right_wheel_speed_measurements (omega arith) h inside in
      let some_new : first < beyond k o x t r c = omega (arith, x.translation_size_pos t) in
      let (orders, h6) =
        ordered-Holds first (beyond k o x t r c) n (length terms) p low some_new h5 in
      (
        _,
        fill_stages c c1 sp odometry_only (record p { groups_ordering = 0 ∷ 1 ∷ [] }) j l w3 w4
            (with_terms k o x w2 terms p) added init adds1 adds2 run1 run2 run3 orders,
        record {
          splines = sp;
          translation_splines = kept1;
          rotation_splines = kept2;
          groups_ordering = refl;
          next = some_new;
          holds = h6;
          error_terms = found;
          passes = is_outside-Fits k o x _ _ _;
          estimator = refl;
          options = refl;
          variables = refl;
          batches = refl;
          last_timestamp = refl;
          start = refl;
          poses = refl;
          left = refl;
          right = refl;
          info_gain_history = refl;
          odometry_variables_history = refl;
        },
      )
