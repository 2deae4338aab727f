-- ===== src/TimeDelay/Tests.antt =====
-- A calibrator over the concrete expressions, with poses and wheel speeds.
use aslam_incremental_calibr.Common.{
  ℕ, ◌+◌, ◌≡◌, ◌≤◌, ◌<◌, refl, true, false, List, [], ◌∷◌, ◌+ℤ◌, ◌-ℤ◌, pos, length, Result, ok,
  arith, find, insert, put,
}
use aslam_incremental_calibr.Samples.{backend, optimizer}
use aslam_incremental_calibr.Samples.Expressing.{expressions}
use aslam_incremental_calibr.Estimator
use aslam_incremental_calibr.Estimator.{new_estimator}
use aslam_incremental_calibr.TimeDelay.{
  Calibrator, CalibratorOptions, WheelSpeedMeasurement, PoseMeasurement, new_calibrator,
  clear_measurements,
}
use aslam_incremental_calibr.TimeDelay.Odometry.{OdometryConfig, add_to_batch, best_quat}
use aslam_incremental_calibr.TimeDelay.Run.{
  Building, noted, is_window_over, fill_batch, add_pose_error_terms, add_left_wheel_error_terms,
  add_right_wheel_error_terms, add_each, add_new_error_term, pose_terms, wheel_terms,
}
use aslam_incremental_calibr.TimeDelay.Terms.{
  init_splines, trans_poses, rot_poses, num_segments, with_splines, pose_term, pose_expressions,
}
use aslam_incremental_calibr.TimeDelay.Wheels.{wheel_term, is_outside, wheel_velocity}
use aslam_incremental_calibr.Spline
use aslam_incremental_calibr.Problem
use aslam_incremental_calibr.Groups.{new_ordering, check_ordering}
use aslam_incremental_calibr.TimeDelay.Predict.{predict}
use aslam_incremental_calibr.TimeDelay.Calibrating.{
  problems, IsCalibrating, new_calibrator-IsCalibrating,
}
use aslam_incremental_calibr.TimeDelay.Windows.{buffers-IsCalibrating}
use aslam_incremental_calibr.TimeDelay.Measure.{
  of_pose, of_left_wheel, pushed, Noted, add_measurement_of, add_measurement_of_lem, window_ends,
  Ended,
}
use aslam_incremental_calibr.TimeDelay.History.{
  Event, measures, adds_measurements, run, run-new_calibrator,
}
use aslam_incremental_calibr.TimeDelay.Window.{IsWindowed}
use aslam_incremental_calibr.TimeDelay.Bounds.{Timely, run-IsWindowed}
use aslam_incremental_calibr.TimeDelay.Agree.{Predicted, predict_lem}

abbrev options : CalibratorOptions ℕ
options = record {
  window_duration = 10;
  trans_spline_lambda = 0;
  rot_spline_lambda = 0;
  spline_knots_per_second = pos 5;
  trans_spline_order = pos 4;
  rot_spline_order = pos 4;
  lw_variance = 1;
  rw_variance = 1;
  vy_variance = 1;
  vz_variance = 1;
  verbose = false;
  delay_bound = pos 1;
}

abbrev config : OdometryConfig ℕ
config = record {
  half_wheel_base = 7;
  lw_coefficient = 3;
  rw_coefficient = 3;
  translation_x = 0;
  translation_y = 0;
  translation_z = 0;
  translation_active = true;
  rotation_yaw = 0;
  rotation_pitch = 0;
  rotation_roll = 0;
  rotation_active = true;
  lw_time_delay = pos 0;
  rw_time_delay = pos 0;
  time_delays_active = true;
}

abbrev estimator_options : Estimator.Options ℕ
estimator_options = record { info_gain_delta = 0; check_validity = true; verbose = false }

abbrev pose : PoseMeasurement backend optimizer expressions
pose = record { w_r_wp = []; sigma2_w_r_wp = tt; w_R_p = []; sigma2_w_R_p = tt }

abbrev speed : WheelSpeedMeasurement ℕ
speed = record { value = 4 }

abbrev fresh : Calibrator backend optimizer expressions
fresh = new_calibrator backend optimizer expressions options 1 estimator_options config (λ y. 0) 0

fresh-IsCalibrating : IsCalibrating backend optimizer expressions fresh
fresh-IsCalibrating =
    new_calibrator-IsCalibrating backend optimizer expressions options estimator_options config
      (λ y. 0) 0

-- Two poses, and three wheel speeds of which the first is too early for the splines.
abbrev measured : Calibrator backend optimizer expressions
measured = record fresh {
  current_batch_start_timestamp = pos 0;
  last_timestamp = pos 9;
  pose_measurements = (pos 0, pose) ∷ (pos 9, pose) ∷ [];
  left_wheel_speed_measurements = (pos 0, speed) ∷ (pos 4, speed) ∷ [];
  right_wheel_speed_measurements = (pos 5, speed) ∷ [];
}

measured-IsCalibrating : IsCalibrating backend optimizer expressions measured
measured-IsCalibrating =
    buffers-IsCalibrating backend optimizer expressions fresh (pos 0) (pos 9)
      ((pos 0, pose) ∷ (pos 9, pose) ∷ []) ((pos 0, speed) ∷ (pos 4, speed) ∷ [])
      ((pos 5, speed) ∷ []) fresh-IsCalibrating

filled : Result (Unit {0}) × Building backend optimizer expressions
unfolding fill_batch add_to_batch init_splines trans_poses rot_poses num_segments with_splines
    Spline.add_translation_spline Spline.add_rotation_spline Spline.add_variables
    add_pose_error_terms add_left_wheel_error_terms add_right_wheel_error_terms add_each
    add_new_error_term pose_terms wheel_terms pose_term wheel_term pose_expressions is_outside
    wheel_velocity clear_measurements Problem.set_groups_ordering Problem.add_design_variable
    Problem.add_error_term Problem.check_design_variables find insert put new_calibrator best_quat
    ◌+ℤ◌ ◌-ℤ◌ new_ordering check_ordering
filled =
    fill_batch backend optimizer expressions
      (record { calibrator = measured; batch = Spline.empty backend optimizer expressions })

-- Two pose error terms and one for each wheel: the first speed of the left wheel is too early.
filled_terms : filled.1.batch.problem.error_terms ≡ 0 ∷ 1 ∷ 2 ∷ 3 ∷ []
unfolding filled
filled_terms = refl

filled_groups :
    filled.1.batch.problem.design_variables
    ≡ (1, 0 ∷ 1 ∷ 5 ∷ 2 ∷ 6 ∷ 3 ∷ 4 ∷ []) ∷ (0, 7 ∷ 8 ∷ 9 ∷ 10 ∷ 11 ∷ 12 ∷ []) ∷ []
unfolding filled
filled_groups = refl

room : length fresh.batches + 1 < 18446744073709551616
unfolding new_calibrator
room = omega arith

-- The measurement that ends the window.
add_measurement_of_lem_example :
    (c1 : Calibrator backend optimizer expressions) × (add_measurement_of backend optimizer
        expressions
        (of_pose pose)
        (pos 11)
        measured
      ≡ (ok tt, pushed backend optimizer expressions (of_pose pose) (pos 11) c1))
    × IsCalibrating backend optimizer expressions
        (pushed backend optimizer expressions (of_pose pose) (pos 11) c1)
    × Noted backend optimizer expressions (pos 11) measured c1
add_measurement_of_lem_example =
    add_measurement_of_lem backend optimizer expressions (of_pose pose) (pos 11) measured
      measured-IsCalibrating room

abbrev events : List (Event backend optimizer expressions)
events =
    measures (of_pose pose) (pos 0)
    ∷ measures (of_left_wheel speed) (pos 4)
    ∷ measures (of_pose pose) (pos 9)
    ∷ measures (of_pose pose) (pos 11)
    ∷ adds_measurements
    ∷ []

run-new_calibrator_example :
    (c' : Calibrator backend optimizer expressions) × (run backend optimizer expressions events
        fresh
      ≡ (ok tt, c'))
    × IsCalibrating backend optimizer expressions c'
    × (length (problems backend optimizer expressions c') ≤ length c'.info_gain_history)
    × (length c'.info_gain_history ≤ length events)
    × (length c'.odometry_variables_history ≡ length c'.info_gain_history + 1)
run-new_calibrator_example =
    run-new_calibrator backend optimizer expressions options estimator_options config (λ y. 0) 0
      events (omega arith)

fresh-IsWindowed : IsWindowed backend optimizer expressions fresh
unfolding new_calibrator
fresh-IsWindowed = record {
  between = (tt, tt, tt);
  order = omega arith;
  unstarted = λ e. (refl, refl, refl);
}

several : length fresh.batches + length events < 18446744073709551616
unfolding new_calibrator
several = omega arith

in_time : Timely backend optimizer expressions fresh.last_timestamp events
unfolding new_calibrator
in_time = (
  (omega arith, omega arith),
  ((omega arith, omega arith), ((omega arith, omega arith), ((omega arith, omega arith), tt))),
)

run-IsWindowed_example :
    (c' : Calibrator backend optimizer expressions) × (run backend optimizer expressions events
        fresh
      ≡ (ok tt, c'))
    × IsWindowed backend optimizer expressions c'
run-IsWindowed_example =
    run-IsWindowed backend optimizer expressions events fresh fresh-IsCalibrating several
      fresh-IsWindowed in_time

predict_lem_example :
    (c' : Calibrator backend optimizer expressions) × (predict backend optimizer expressions
        measured
      ≡ (ok tt, c'))
    × IsCalibrating backend optimizer expressions c'
    × Predicted backend optimizer expressions measured c'
predict_lem_example =
    predict_lem backend optimizer expressions measured measured-IsCalibrating (omega arith)

over :
    is_window_over backend optimizer expressions
      (noted backend optimizer expressions (pos 11) measured)
    ≡ true
unfolding ◌-ℤ◌ new_calibrator
over = refl

window_ends_example :
    (c1 : Calibrator backend optimizer expressions) × (add_measurement_of backend optimizer
        expressions
        (of_left_wheel speed)
        (pos 11)
        measured
      ≡ (ok tt, pushed backend optimizer expressions (of_left_wheel speed) (pos 11) c1))
    × Ended backend optimizer expressions (pos 11) measured c1
window_ends_example =
    window_ends backend optimizer expressions (of_left_wheel speed) (pos 11) measured
      measured-IsCalibrating room over (omega arith)
