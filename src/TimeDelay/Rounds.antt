-- ===== src/TimeDelay/Rounds.antt =====
-- Rounds of the loops of `predictPoses`, `predictLeftWheel` and `predictRightWheel` in
-- algo/Calibrator.cpp of
-- incremental_calibration_examples/incremental_calibration_examples_time_delay/src: the error term
-- that a round evaluates and the value that it predicts, or nothing for a measurement that it passes
-- over. The source repeats there what its `add...ErrorTerms` methods compute, and so do these.
use aslam_incremental_calibr.Common.{Option, none, some, ℤ, ltz, ◌+ℤ◌, negate, if◌then◌else◌, ◌||◌}
use aslam_incremental_calibr.Backend.{Backend}
use aslam_incremental_calibr.Optimizer.{Optimizer}
use aslam_incremental_calibr.Expressions.{Expressions}
use aslam_incremental_calibr.TimeDelay.{
  CalibratorOptions, WheelSpeedMeasurement, PoseMeasurement, PosePrediction,
}
use aslam_incremental_calibr.TimeDelay.Odometry.{OdometryDesignVariables}
use aslam_incremental_calibr.TimeDelay.Terms.{Splines}

module _ (k : Backend) (o : Optimizer k) (x : Expressions k o) where
  open k use {Store}
  open o use {Number}
  open x use {Euclidean, ErrorTerm}

  unfoldable pub pose_round :
      OdometryDesignVariables
      → Splines k o x
      → Store
      → ℤ × PoseMeasurement k o x
      → Option (ErrorTerm × PosePrediction k o x)
  pose_round d (translation, rotation) s (timestamp, m) =
      let at = x.constant_time timestamp in
      let v_r_vp = x.point_variable d.v_r_vp in
      let w_R_v =
        x.orientation_at rotation.curve rotation.design_variables at timestamp timestamp in
      let w_r_vp = x.rotate w_R_v v_r_vp in
      let w_r_wv =
        x.position_at translation.curve translation.design_variables at timestamp timestamp in
      let w_r_wp = x.plus_euclidean w_r_wv w_r_vp in
      let v_R_p = x.rotation_variable d.v_R_p in
      let w_R_p = x.compose w_R_v v_R_p in
      let e_pose =
        x.error_term_pose w_R_p w_r_wp m.w_r_wp m.w_R_p
          (x.block_diagonal m.sigma2_w_r_wp m.sigma2_w_R_p) in
      some (
        e_pose,
        record {
          w_r_wp = x.euclidean_value s w_r_wp;
          w_R_p = x.rotation_matrix_to_parameters (x.rotation_value s w_R_p);
        },
      )

  -- The speed that a wheel with this velocity and coefficient measures.
  unfoldable pub wheel_value : Store → Euclidean → Number → WheelSpeedMeasurement Number
  wheel_value s velocity coefficient =
      let v = x.euclidean_value s velocity in
      let v0 = x.x_of v in
      let v1 = x.y_of v in
      let temp = x.square_root (x.plus (x.divide (x.times v1 v1) (x.times v0 v0)) x.one_number) in
      record {
        value =
            x.times coefficient
              (x.plus (x.divide v0 temp) (x.divide (x.times v1 v1) (x.times v0 temp)));
      }

  unfoldable pub left_wheel_round :
      CalibratorOptions Number
      → OdometryDesignVariables
      → Splines k o x
      → Store
      → ℤ × WheelSpeedMeasurement Number
      → Option (ErrorTerm × WheelSpeedMeasurement Number)
  left_wheel_round options d (translation, rotation) s (timestamp, m) =
      let timestamp_delay = x.plus_time (x.time_variable d.t_l) (x.constant_time timestamp) in
      let t_max = x.max_time translation.curve in
      let t_min = x.min_time translation.curve in
      let l_bound = negate options.delay_bound +ℤ x.time_value s timestamp_delay in
      let u_bound = options.delay_bound +ℤ x.time_value s timestamp_delay in
      let w_R_v =
        x.orientation_at rotation.curve rotation.design_variables timestamp_delay l_bound u_bound in
      let w_v_wv =
        x.velocity_at translation.curve translation.design_variables timestamp_delay l_bound
          u_bound in
      let v_v_wv = x.rotate (x.inverse w_R_v) w_v_wv in
      let w_om_wv = x.negate_euclidean (
        x.angular_velocity_at rotation.curve rotation.design_variables timestamp_delay l_bound
          u_bound) in
      let v_om_wv = x.rotate (x.inverse w_R_v) w_om_wv in
      let b = x.scalar_variable d.b in
      let v_r_wl =
        x.scale (x.constant_vector (x.vector3 o.zero_number x.one_number o.zero_number)) b in
      let v_v_wl = x.plus_euclidean v_v_wv (x.cross v_om_wv v_r_wl) in
      let e_lw =
        x.error_term_wheel v_v_wl (x.scalar_variable d.k_l) m.value
          (x.diagonal (x.vector3 options.lw_variance options.vy_variance options.vz_variance)) in
      let round : ErrorTerm × WheelSpeedMeasurement Number =
        (e_lw, wheel_value s v_v_wl (x.scalar_value s d.k_l)) in
      if ltz t_max u_bound || ltz l_bound t_min then none else some round

  unfoldable pub right_wheel_round :
      CalibratorOptions Number
      → OdometryDesignVariables
      → Splines k o x
      → Store
      → ℤ × WheelSpeedMeasurement Number
      → Option (ErrorTerm × WheelSpeedMeasurement Number)
  right_wheel_round options d (translation, rotation) s (timestamp, m) =
      let timestamp_delay = x.plus_time (x.time_variable d.t_r) (x.constant_time timestamp) in
      let t_max = x.max_time translation.curve in
      let t_min = x.min_time translation.curve in
      let l_bound = negate options.delay_bound +ℤ x.time_value s timestamp_delay in
      let u_bound = options.delay_bound +ℤ x.time_value s timestamp_delay in
      let w_R_v =
        x.orientation_at rotation.curve rotation.design_variables timestamp_delay l_bound u_bound in
      let w_v_wv =
        x.velocity_at translation.curve translation.design_variables timestamp_delay l_bound
          u_bound in
      let v_v_wv = x.rotate (x.inverse w_R_v) w_v_wv in
      let w_om_wv = x.negate_euclidean (
        x.angular_velocity_at rotation.curve rotation.design_variables timestamp_delay l_bound
          u_bound) in
      let v_om_wv = x.rotate (x.inverse w_R_v) w_om_wv in
      let b = x.scalar_variable d.b in
      let v_r_wr =
        x.scale
          (x.negate_euclidean
            (x.constant_vector (x.vector3 o.zero_number x.one_number o.zero_number)))
          b in
      let v_v_wr = x.plus_euclidean v_v_wv (x.cross v_om_wv v_r_wr) in
      let e_rw =
        x.error_term_wheel v_v_wr (x.scalar_variable d.k_r) m.value
          (x.diagonal (x.vector3 options.rw_variance options.vy_variance options.vz_variance)) in
      let round : ErrorTerm × WheelSpeedMeasurement Number =
        (e_rw, wheel_value s v_v_wr (x.scalar_value s d.k_r)) in
      if ltz t_max u_bound || ltz l_bound t_min then none else some round
