-- ===== src/TimeDelay/Run.antt =====
-- The methods of algo/Calibrator.cpp of
-- incremental_calibration_examples/incremental_calibration_examples_time_delay/src: measurements are
-- collected, made into batches for the estimator, and predicted.
use aslam_incremental_calibr.Common.{
  ℕ, Bool, false, List, [], ◌∷◌, ◌++◌, Option, none, some, ℤ, negsuc, eqz, ◌-ℤ◌, map, length,
  if◌then◌else◌, ltb, Result, ok, err, Method,
}
use aslam_incremental_calibr.Common.Stateful.{pure, ask, ◌>>=◌, ◌>>◌, modify}
use aslam_incremental_calibr.Backend.{Backend}
use aslam_incremental_calibr.Optimizer.{Optimizer}
use aslam_incremental_calibr.Expressions.{Expressions}
use aslam_incremental_calibr.Problem
use aslam_incremental_calibr.Problem.{OptimizationProblem}
use aslam_incremental_calibr.Spline
use aslam_incremental_calibr.Spline.{OptimizationProblemSpline}
use aslam_incremental_calibr.Estimator.{ReturnValue}
use aslam_incremental_calibr.Estimator.Run.{add_batch}
use aslam_incremental_calibr.TimeDelay.{
  Calibrator, WheelSpeedMeasurement, PoseMeasurement, WheelSpeedMeasurements, PoseMeasurements,
  variables_in, problem_in, clear_measurements,
}
use aslam_incremental_calibr.TimeDelay.Odometry.{add_to_batch, get_parameters}
use aslam_incremental_calibr.TimeDelay.Terms.{Splines, init_splines, pose_term}
use aslam_incremental_calibr.TimeDelay.Wheels.{Wheel, left_wheel, right_wheel, wheel_term}

module _ (k : Backend) (o : Optimizer k) (x : Expressions k o) where
  open k use {Store, Params}
  open o use {Number, Vector}
  open x use {ErrorTerm}

  -- A calibrator and the batch that it is making.
  pub record Building : Type 0 where
    pub calibrator : Calibrator k o x
    pub batch : OptimizationProblemSpline k o x

  abbrev pub on_calibrator : {A : Type 0} → Method (Calibrator k o x) A → Method Building A
  on_calibrator m w = let (r, c) = m w.calibrator in (r, record w { calibrator = c })

  -- A method of the batch, which may write to the design variables.
  abbrev pub on_batch : {A : Type 0} → Method (Spline.Inserting k o x) A → Method Building A
  on_batch m w =
      let (r, i) = m (record { batch = w.batch; store = w.calibrator.estimator.store }) in
      (
        r,
        record {
          calibrator = record w.calibrator {
            estimator = record w.calibrator.estimator { store = i.store };
          };
          batch = i.batch;
        },
      )

  -- `make_shared` of an error term, and `addErrorTerm` of it.
  unfoldable pub add_new_error_term : ErrorTerm → Method Building (Unit {0})
  add_new_error_term term w =
      let terms = w.calibrator.error_terms ++ term ∷ [] in
      let (r, problem) =
        Problem.add_error_term (variables_in k o x terms) (some (length w.calibrator.error_terms))
          w.batch.problem in
      (
        r,
        record {
          calibrator = record w.calibrator { error_terms = terms };
          batch = record w.batch { problem = problem };
        },
      )

  -- The loop over measurements that `addPoseErrorTerms`, `addLeftWheelErrorTerms` and
  -- `addRightWheelErrorTerms` share: a measurement without an error term is passed over.
  unfoldable pub add_each : List (Option ErrorTerm) → Method Building (Unit {0})
  add_each [] = pure tt
  add_each (none ∷ terms) = add_each terms
  add_each (some term ∷ terms) = let rest = add_each terms in do add_new_error_term term; rest

  -- The error terms of measurements, from the state before the loop: its rounds change nothing that
  -- they depend on.
  unfoldable pub pose_terms :
      Calibrator k o x → Splines k o x → PoseMeasurements k o x → List (Option ErrorTerm)
  pose_terms c splines measurements =
      map (λ m. some (pose_term k o x c.odometry_design_variables splines m)) measurements

  unfoldable pub wheel_terms :
      Calibrator k o x
      → Splines k o x
      → Wheel k o x
      → WheelSpeedMeasurements k o x
      → List (Option ErrorTerm)
  wheel_terms c splines wheel measurements =
      map (wheel_term k o x c.options c.odometry_design_variables splines c.estimator.store wheel)
        measurements

  unfoldable pub add_pose_error_terms :
      PoseMeasurements k o x → Splines k o x → Method Building (Unit {0})
  add_pose_error_terms measurements splines w =
      add_each (pose_terms w.calibrator splines measurements) w

  unfoldable pub add_left_wheel_error_terms :
      WheelSpeedMeasurements k o x → Splines k o x → Method Building (Unit {0})
  add_left_wheel_error_terms measurements splines w =
      add_each (wheel_terms w.calibrator splines (left_wheel k o x w.calibrator) measurements) w

  unfoldable pub add_right_wheel_error_terms :
      WheelSpeedMeasurements k o x → Splines k o x → Method Building (Unit {0})
  add_right_wheel_error_terms measurements splines w =
      add_each (wheel_terms w.calibrator splines (right_wheel k o x w.calibrator) measurements) w

  -- `addMeasurements` up to the call of the estimator.
  unfoldable pub fill_batch : Method Building (Unit {0})
  fill_batch = do
    c ← ask (λ w. ok w.calibrator)
    on_batch (Spline.on_problem k o x (add_to_batch c.odometry_design_variables 1))
    splines ← on_calibrator (init_splines k o x c.pose_measurements)
    on_batch (Spline.add_translation_spline k o x splines.0 0)
    on_batch (Spline.add_rotation_spline k o x splines.1 0)
    add_pose_error_terms c.pose_measurements splines
    add_left_wheel_error_terms c.left_wheel_speed_measurements splines
    add_right_wheel_error_terms c.right_wheel_speed_measurements splines
    on_calibrator (modify (clear_measurements k o x))
    on_calibrator (modify (λ c. record c { current_batch_start_timestamp = c.last_timestamp }))
    on_batch (Spline.on_problem k o x (Problem.set_groups_ordering (0 ∷ 1 ∷ [])))

  -- The batch gets its pointer.
  abbrev pub allocated : Building → Calibrator k o x
  allocated w = record w.calibrator { batches = w.calibrator.batches ++ w.batch ∷ [] }

  -- The call of the estimator for the batch with this pointer.
  unfoldable pub estimate : ℕ → Method (Calibrator k o x) (ReturnValue k o)
  estimate b c =
      let (r, session) = add_batch k o (problem_in k o x c.batches) (some b) false c.estimator in
      (r, record c { estimator = session })

  -- `addMeasurements` from the call of the estimator on.
  unfoldable pub finish : ℕ → Method (Calibrator k o x) (Unit {0})
  finish b = do
    ret ← estimate b
    modify (λ c. record c {
      info_gain_history = c.info_gain_history ++ ret.information_gain ∷ [];
      odometry_variables_history =
          c.odometry_variables_history
          ++ get_parameters k o x c.odometry_design_variables c.estimator.store ∷ [];
    })

  -- What follows `fill_batch`; where that throws, the batch goes with its last pointer.
  unfoldable pub offer : Result (Unit {0}) × Building → Result (Unit {0}) × Calibrator k o x
  offer (err e, w) = (err e, w.calibrator)
  offer (ok done, w) = finish (length w.calibrator.batches) (allocated w)

  unfoldable pub add_measurements : Method (Calibrator k o x) (Unit {0})
  add_measurements c =
      let filled = offer (fill_batch (record { calibrator = c; batch = Spline.empty k o x })) in
      if ltb (length c.pose_measurements) 2 then (ok tt, c) else filled

  -- `addMeasurement`
  abbrev pub noted : ℤ → Calibrator k o x → Calibrator k o x
  noted timestamp c = record c {
    last_timestamp = timestamp;
    current_batch_start_timestamp =
        if eqz c.current_batch_start_timestamp (negsuc 0)
        then timestamp
        else c.current_batch_start_timestamp;
  }

  abbrev pub is_window_over : Calibrator k o x → Bool
  is_window_over c =
      o.at_least (x.nsec_to_sec (c.last_timestamp -ℤ c.current_batch_start_timestamp))
        c.options.window_duration

  unfoldable pub add_measurement : ℤ → Method (Calibrator k o x) (Unit {0})
  add_measurement timestamp c =
      let done = add_measurements (noted timestamp c) in
      if is_window_over (noted timestamp c) then done else (ok tt, noted timestamp c)

  unfoldable pub add_pose_measurement :
      PoseMeasurement k o x → ℤ → Method (Calibrator k o x) (Unit {0})
  add_pose_measurement pose timestamp = do
    add_measurement timestamp
    modify (λ c. record c { pose_measurements = c.pose_measurements ++ (timestamp, pose) ∷ [] })

  unfoldable pub add_left_wheel_measurement :
      WheelSpeedMeasurement Number → ℤ → Method (Calibrator k o x) (Unit {0})
  add_left_wheel_measurement data' timestamp = do
    add_measurement timestamp
    modify (λ c. record c {
      left_wheel_speed_measurements = c.left_wheel_speed_measurements ++ (timestamp, data') ∷ [];
    })

  unfoldable pub add_right_wheel_measurement :
      WheelSpeedMeasurement Number → ℤ → Method (Calibrator k o x) (Unit {0})
  add_right_wheel_measurement data' timestamp = do
    add_measurement timestamp
    modify (λ c. record c {
      right_wheel_speed_measurements = c.right_wheel_speed_measurements ++ (timestamp, data') ∷ [];
    })
