-- ===== src/TimeDelay/Predict.antt =====
-- The predictions of algo/Calibrator.cpp of
-- incremental_calibration_examples/incremental_calibration_examples_time_delay/src.
use aslam_incremental_calibr.Common.{[], ◌∷◌, ◌++◌, Option, none, some, ℤ, Method}
use aslam_incremental_calibr.Common.Stateful.{◌>>=◌, ◌>>◌, modify}
use aslam_incremental_calibr.Backend.{Backend}
use aslam_incremental_calibr.Optimizer.{Optimizer}
use aslam_incremental_calibr.Expressions.{Expressions}
use aslam_incremental_calibr.Spline
use aslam_incremental_calibr.TimeDelay.{
  Calibrator, MeasurementsContainer, Predictions, WheelSpeedMeasurements, PoseMeasurements,
}
use aslam_incremental_calibr.TimeDelay.Odometry.{add_to_batch}
use aslam_incremental_calibr.TimeDelay.Terms.{Splines, init_splines}
use aslam_incremental_calibr.TimeDelay.Rounds.{pose_round, left_wheel_round, right_wheel_round}
use aslam_incremental_calibr.TimeDelay.Run.{Building, on_batch, on_calibrator}

module _ (k : Backend) (o : Optimizer k) (x : Expressions k o) where
  open k use {Store}
  open o use {Number, Vector}
  open x use {ErrorTerm}

  -- The end of a prediction's round, which evaluates the error term.
  abbrev pub push_prediction :
      {P : Type 0}
      → Store
      → ℤ
      → Option (ErrorTerm × P)
      → Predictions P Vector Number
      → Predictions P Vector Number
  push_prediction s timestamp none p = p
  push_prediction s timestamp (some (term, value)) p = record {
    predicted = p.predicted ++ (timestamp, value) ∷ [];
    errors = p.errors ++ x.error_vector s term ∷ [];
    errors2 = p.errors2 ++ x.evaluate_error s term ∷ [];
  }

  -- The loop of `predictPoses`, `predictLeftWheel` and `predictRightWheel` over what they compute in
  -- each round.
  unfoldable pub predict_each :
      {M P : Type 0}
      → Store
      → (ℤ × M → Option (ErrorTerm × P))
      → MeasurementsContainer M
      → Predictions P Vector Number
      → Predictions P Vector Number
  predict_each s round [] p = p
  predict_each s round ((timestamp, m) ∷ measurements) p =
      predict_each s round measurements (push_prediction s timestamp (round (timestamp, m)) p)

  unfoldable pub predict_poses :
      PoseMeasurements k o x → Splines k o x → Calibrator k o x → Calibrator k o x
  predict_poses measurements splines c =
      let d = c.odometry_design_variables in
      let s = c.estimator.store in
      record c {
        pose_predictions =
            predict_each s (pose_round k o x d splines s) measurements c.pose_predictions;
      }

  unfoldable pub predict_left_wheel :
      WheelSpeedMeasurements k o x → Splines k o x → Calibrator k o x → Calibrator k o x
  predict_left_wheel measurements splines c =
      let d = c.odometry_design_variables in
      let s = c.estimator.store in
      record c {
        left_wheel_predictions =
            predict_each s (left_wheel_round k o x c.options d splines s) measurements
              c.left_wheel_predictions;
      }

  unfoldable pub predict_right_wheel :
      WheelSpeedMeasurements k o x → Splines k o x → Calibrator k o x → Calibrator k o x
  predict_right_wheel measurements splines c =
      let d = c.odometry_design_variables in
      let s = c.estimator.store in
      record c {
        right_wheel_predictions =
            predict_each s (right_wheel_round k o x c.options d splines s) measurements
              c.right_wheel_predictions;
      }

  -- `predict`, on a batch that is dropped at its end.
  unfoldable pub predict : Method (Calibrator k o x) (Unit {0})
  predict c =
      let (r, w) = predicting (record { calibrator = c; batch = Spline.empty k o x }) in
      (r, w.calibrator)
    where
      predicting : Method (Building k o x) (Unit {0})
      predicting = do
        on_batch k o x (Spline.on_problem k o x (add_to_batch c.odometry_design_variables 1))
        splines ← on_calibrator k o x (init_splines k o x c.pose_measurements)
        on_calibrator k o x (modify (predict_poses c.pose_measurements splines))
        on_calibrator k o x (modify (predict_left_wheel c.left_wheel_speed_measurements splines))
        on_calibrator k o x (modify (predict_right_wheel c.right_wheel_speed_measurements splines))
