-- ===== src/TimeDelay/Wheels.antt =====
-- The error terms and predictions of wheel speeds in algo/Calibrator.cpp of
-- incremental_calibration_examples/incremental_calibration_examples_time_delay/src.
use aslam_incremental_calibr.Common.{
  ℕ, Bool, true, false, Option, none, some, ℤ, ltz, ◌+ℤ◌, negate, if◌then◌else◌, ◌||◌,
}
use aslam_incremental_calibr.Backend.{Backend}
use aslam_incremental_calibr.Optimizer.{Optimizer}
use aslam_incremental_calibr.Expressions.{Expressions}
use aslam_incremental_calibr.TimeDelay.{Calibrator, CalibratorOptions, WheelSpeedMeasurement}
use aslam_incremental_calibr.TimeDelay.Odometry.{OdometryDesignVariables}
use aslam_incremental_calibr.TimeDelay.Terms.{Splines}

module _ (k : Backend) (o : Optimizer k) (x : Expressions k o) where
  open k use {Store}
  open o use {Number, Vector, Matrix}
  open x use {
    Vector3, Rotation3, Quaternion, TranslationCurve, RotationCurve, Time, Scalar, Euclidean,
    Rotation, ErrorTerm,
  }

  -- A wheel: its time delay, its coefficient and the variance of its speed, and whether it is the left
  -- one. The methods of the left and of the right wheel differ in nothing else.
  pub record Wheel : Type 0 where
    pub time_delay : ℕ
    pub coefficient : ℕ
    pub variance : Number
    pub is_left : Bool

  abbrev pub left_wheel : Calibrator k o x → Wheel
  left_wheel c = record {
    time_delay = c.odometry_design_variables.t_l;
    coefficient = c.odometry_design_variables.k_l;
    variance = c.options.lw_variance;
    is_left = true;
  }

  abbrev pub right_wheel : Calibrator k o x → Wheel
  right_wheel c = record {
    time_delay = c.odometry_design_variables.t_r;
    coefficient = c.odometry_design_variables.k_r;
    variance = c.options.rw_variance;
    is_left = false;
  }

  abbrev pub delayed : Wheel → ℤ → Time
  delayed wheel timestamp =
      x.plus_time (x.time_variable wheel.time_delay) (x.constant_time timestamp)

  -- Bounds of a delayed time stamp.
  abbrev pub lower_bound : CalibratorOptions Number → Store → Time → ℤ
  lower_bound options s at = negate options.delay_bound +ℤ x.time_value s at

  abbrev pub upper_bound : CalibratorOptions Number → Store → Time → ℤ
  upper_bound options s at = options.delay_bound +ℤ x.time_value s at

  -- Where the loops go on with the next measurement.
  unfoldable pub is_outside : CalibratorOptions Number → Splines k o x → Store → Time → Bool
  is_outside options (translation, rotation) s at =
      ltz (x.max_time translation.curve) (upper_bound options s at)
      || ltz (lower_bound options s at) (x.min_time translation.curve)

  -- The velocity of the wheel in the frame of the vehicle.
  unfoldable pub wheel_velocity :
      CalibratorOptions Number
      → OdometryDesignVariables
      → Splines k o x
      → Store
      → Wheel
      → Time
      → Euclidean
  wheel_velocity options d (translation, rotation) s wheel at =
      let l_bound = lower_bound options s at in
      let u_bound = upper_bound options s at in
      let w_R_v = x.orientation_at rotation.curve rotation.design_variables at l_bound u_bound in
      let w_v_wv =
        x.velocity_at translation.curve translation.design_variables at l_bound u_bound in
      let v_v_wv = x.rotate (x.inverse w_R_v) w_v_wv in
      let w_om_wv =
        x.negate_euclidean
          (x.angular_velocity_at rotation.curve rotation.design_variables at l_bound u_bound) in
      let v_om_wv = x.rotate (x.inverse w_R_v) w_om_wv in
      let axis = x.constant_vector (x.vector3 o.zero_number x.one_number o.zero_number) in
      let b = x.scalar_variable d.b in
      let v_r_w = x.scale (if wheel.is_left then axis else x.negate_euclidean axis) b in
      x.plus_euclidean v_v_wv (x.cross v_om_wv v_r_w)

  -- The error term that a round of `addLeftWheelErrorTerms` or `addRightWheelErrorTerms` adds.
  unfoldable pub wheel_term :
      CalibratorOptions Number
      → OdometryDesignVariables
      → Splines k o x
      → Store
      → Wheel
      → ℤ × WheelSpeedMeasurement Number
      → Option ErrorTerm
  wheel_term options d splines s wheel (timestamp, m) =
      let at = delayed wheel timestamp in
      let term =
        x.error_term_wheel (wheel_velocity options d splines s wheel at)
          (x.scalar_variable wheel.coefficient) m.value
          (x.diagonal (x.vector3 wheel.variance options.vy_variance options.vz_variance)) in
      if is_outside options splines s at then none else some term
