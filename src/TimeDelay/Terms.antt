-- ===== src/TimeDelay/Terms.antt =====
-- What algo/Calibrator.cpp of
-- incremental_calibration_examples/incremental_calibration_examples_time_delay/src builds from
-- measurements: the splines, the error terms and the predicted values. Printing is left out.
use aslam_incremental_calibr.Common.{
  ℕ, zero, suc, ◌+◌, List, [], ◌∷◌, Option, none, some, ℤ, pos, ltz, ◌-ℤ◌, length, if◌then◌else◌,
  ok, err, undefined_behaviour, Method,
}
use aslam_incremental_calibr.Backend.{Backend}
use aslam_incremental_calibr.Optimizer.{Optimizer}
use aslam_incremental_calibr.Expressions.{Expressions}
use aslam_incremental_calibr.Spline.{SplineOf}
use aslam_incremental_calibr.TimeDelay.{
  Calibrator, CalibratorOptions, MeasurementsContainer, PoseMeasurement, PoseMeasurements,
}
use aslam_incremental_calibr.TimeDelay.Odometry.{OdometryDesignVariables, best_quat}

-- The next pointers: as many as there are rounds.
abbrev pub pointers : ℕ → ℕ → List ℕ
pointers next zero = []
pointers next (suc rounds) = next ∷ pointers (next + 1) rounds

-- `back()`, with what stands before the first element.
abbrev pub back : {A : Type 0} → A → List A → A
back a [] = a
back a (b ∷ rest) = back b rest

module _ (k : Backend) (o : Optimizer k) (x : Expressions k o) where
  open k use {Store}
  open o use {Number, Vector, Matrix}
  open x use {
    Vector3, Rotation3, Quaternion, TranslationCurve, RotationCurve, Time, Scalar, Euclidean,
    Rotation, ErrorTerm,
  }

  -- One round of the loop of `initSplines`: the position and the rotation of the vehicle.
  abbrev vehicle_rotation : Quaternion → Option Quaternion → PoseMeasurement k o x → Quaternion
  vehicle_rotation v_q_p last m =
      let w_R_p = x.parameters_to_rotation_matrix m.w_R_p in
      let w_R_v = x.times_rotation w_R_p (x.transpose (x.quat2r v_q_p)) in
      let w_q_v = x.r2quat w_R_v in
      elim last [ none ↦ w_q_v | some last_rot_pose ↦ best_quat k o x last_rot_pose w_q_v ]

  abbrev vehicle_position : Quaternion → Vector3 → PoseMeasurement k o x → Vector3
  vehicle_position v_q_p v_r_vp m =
      let w_R_p = x.parameters_to_rotation_matrix m.w_R_p in
      let w_R_v = x.times_rotation w_R_p (x.transpose (x.quat2r v_q_p)) in
      x.minus_vector m.w_r_wp (x.rotated w_R_v v_r_vp)

  unfoldable pub trans_poses : Quaternion → Vector3 → PoseMeasurements k o x → List Vector3
  trans_poses v_q_p v_r_vp [] = []
  trans_poses v_q_p v_r_vp ((timestamp, m) ∷ rest) =
      vehicle_position v_q_p v_r_vp m ∷ trans_poses v_q_p v_r_vp rest

  -- The rotation before is the one that the round before has pushed.
  unfoldable pub rot_poses :
      Quaternion → Option Quaternion → PoseMeasurements k o x → List Quaternion
  rot_poses v_q_p last [] = []
  rot_poses v_q_p last ((timestamp, m) ∷ rest) =
      let w_q_v = vehicle_rotation v_q_p last m in w_q_v ∷ rot_poses v_q_p (some w_q_v) rest

  abbrev timestamps : {M : Type 0} → MeasurementsContainer M → List ℤ
  timestamps [] = []
  timestamps ((timestamp, m) ∷ rest) = timestamp ∷ timestamps rest

  -- `numSegments`
  unfoldable pub num_segments : CalibratorOptions Number → ℕ → Number → ℤ
  num_segments options num_measurements elapsed_time =
      let meas_per_sec = x.round (x.divide (x.number_of (pos num_measurements)) elapsed_time) in
      if ltz options.spline_knots_per_second meas_per_sec
      then x.ceil (x.times (x.number_of options.spline_knots_per_second) elapsed_time)
      else pos num_measurements

  -- The new splines, with new design variables behind the next pointers.
  abbrev pub Splines : Type 0
  Splines = SplineOf TranslationCurve × SplineOf RotationCurve

  unfoldable pub with_splines : TranslationCurve → RotationCurve → Method (Calibrator k o x) Splines
  with_splines translation rotation c =
      let first = pointers c.next_design_variable (x.translation_size translation) in
      let middle = c.next_design_variable + x.translation_size translation in
      let second = pointers middle (x.rotation_size rotation) in
      let translation_spline : SplineOf TranslationCurve = record {
        curve = translation;
        design_variables = first;
      } in
      let rotation_spline : SplineOf RotationCurve = record {
        curve = rotation;
        design_variables = second;
      } in
      (
        ok (translation_spline, rotation_spline),
        record c {
          translation_spline = some translation_spline;
          rotation_spline = some rotation_spline;
          estimator = record c.estimator {
            store =
                x.new_rotation_variables rotation second
                  (x.new_translation_variables translation first c.estimator.store);
          };
          next_design_variable = middle + x.rotation_size rotation;
        },
      )

  -- `initSplines`, which returns the splines that it stores. `front()` and `back()` of no time stamps
  -- are undefined. Where the first and the last time stamp are the same, the source divides by zero and
  -- converts infinity to `int`, which is undefined as well; `round` of the parameter then stands for
  -- whatever results, and the fitter for one that takes any time stamps and number of segments.
  unfoldable pub init_splines : PoseMeasurements k o x → Method (Calibrator k o x) Splines
  init_splines [] c = (err undefined_behaviour, c)
  init_splines ((timestamp, m) ∷ rest) c =
      let measurements = (timestamp, m) ∷ rest in
      let v_q_p = x.quaternion_value c.estimator.store c.odometry_design_variables.v_R_p in
      let v_r_vp = x.point_value c.estimator.store c.odometry_design_variables.v_r_vp in
      let elapsed_time = x.seconds_of (back timestamp (timestamps rest) -ℤ timestamp) in
      let segments = num_segments c.options (length measurements) elapsed_time in
      with_splines
        (x.fit_translation (timestamps measurements) (trans_poses v_q_p v_r_vp measurements)
          segments c.options.trans_spline_lambda c.options.trans_spline_order)
        (x.fit_rotation (timestamps measurements) (rot_poses v_q_p none measurements) segments
          c.options.rot_spline_lambda c.options.rot_spline_order)
        c

  -- The position and the rotation that the splines and the extrinsics give to a pose sensor.
  unfoldable pub pose_expressions : OdometryDesignVariables → Splines → ℤ → Rotation × Euclidean
  pose_expressions d (translation, rotation) timestamp =
      let at = x.constant_time timestamp in
      let v_r_vp = x.point_variable d.v_r_vp in
      let w_R_v =
        x.orientation_at rotation.curve rotation.design_variables at timestamp timestamp in
      let w_r_vp = x.rotate w_R_v v_r_vp in
      let w_r_wv =
        x.position_at translation.curve translation.design_variables at timestamp timestamp in
      let w_r_wp = x.plus_euclidean w_r_wv w_r_vp in
      let v_R_p = x.rotation_variable d.v_R_p in (x.compose w_R_v v_R_p, w_r_wp)

  -- The error term that a round of `addPoseErrorTerms` adds.
  unfoldable pub pose_term :
      OdometryDesignVariables → Splines → ℤ × PoseMeasurement k o x → ErrorTerm
  pose_term d splines (timestamp, m) =
      let (w_R_p, w_r_wp) = pose_expressions d splines timestamp in
      x.error_term_pose w_R_p w_r_wp m.w_r_wp m.w_R_p
        (x.block_diagonal m.sigma2_w_r_wp m.sigma2_w_R_p)
