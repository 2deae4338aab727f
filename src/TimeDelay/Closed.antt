-- ===== src/TimeDelay/Closed.antt =====
-- The error terms that algo/Calibrator.cpp of
-- incremental_calibration_examples/incremental_calibration_examples_time_delay/src makes are over the
-- odometry design variables and those of the splines.
use aslam_incremental_calibr.Common.{
  ℕ, zero, suc, ◌+◌, ◌≡◌, Bool, true, false, [], ◌∷◌, ℤ, ◌+ℤ◌, ◌-ℤ◌, ◌≤ℤ◌, ◌⊎◌, ◌||◌, ltz, negate,
  member, ◌&&◌, ltb, leb, arith, inl, inr, Bool-cases, if◌then◌else◌,
}
use aslam_incremental_calibr.Backend.{Backend}
use aslam_incremental_calibr.Optimizer.{Optimizer}
use aslam_incremental_calibr.Expressions.{Expressions, Over}
use aslam_incremental_calibr.TimeDelay.{
  Calibrator, CalibratorOptions, PoseMeasurement, PoseMeasurements, WheelSpeedMeasurements,
}
use aslam_incremental_calibr.TimeDelay.Odometry.{OdometryDesignVariables}
use aslam_incremental_calibr.TimeDelay.Terms.{pointers, Splines, pose_expressions, pose_term}
use aslam_incremental_calibr.TimeDelay.Wheels.{
  Wheel, is_outside, wheel_velocity, wheel_term, delayed, lower_bound, upper_bound,
}
use aslam_incremental_calibr.TimeDelay.Run.{pose_terms, wheel_terms}
use aslam_incremental_calibr.TimeDelay.Gather.{AllOver}

pub member-pointers :
    (next n dv : ℕ) → member dv (pointers next n) ≡ (leb next dv && ltb dv (next + n))
member-pointers next zero dv = ground arith
member-pointers next (suc n) dv = ground (arith, member-pointers (next + 1) n dv)

module _ (k : Backend) (o : Optimizer k) (x : Expressions k o) (w : ℕ → Bool) where
  open x use {error_variables}

  -- These design variables are the calibrator's own ones and those of its splines.
  pub record Inside (d : OdometryDesignVariables) (splines : Splines k o x) : Type 0 where
    pub b : w d.b ≡ true
    pub k_l : w d.k_l ≡ true
    pub t_l : w d.t_l ≡ true
    pub k_r : w d.k_r ≡ true
    pub t_r : w d.t_r ≡ true
    pub v_r_vp : w d.v_r_vp ≡ true
    pub v_R_p : w d.v_R_p ≡ true
    pub translation : Over w splines.0.design_variables
    pub rotation : Over w splines.1.design_variables

  pose_term-Over :
      (d : OdometryDesignVariables) (splines : Splines k o x) (m : ℤ × PoseMeasurement k o x)
      → Inside d splines
      → Over w (error_variables (pose_term k o x d splines m))
  unfolding pose_term pose_expressions
  pose_term-Over d (translation, rotation) (timestamp, m) i =
      let at = x.over-constant_time w timestamp in
      let w_R_v =
        x.over-orientation_at w rotation.curve rotation.design_variables (x.constant_time timestamp)
          timestamp timestamp i.rotation at in
      x.over-error_term_pose w _ _ _ _ _
        (x.over-compose w _ _ w_R_v (x.over-rotation_variable w d.v_R_p i.v_R_p))
        (x.over-plus_euclidean w _ _
          (x.over-position_at w translation.curve translation.design_variables
            (x.constant_time timestamp) timestamp timestamp i.translation at)
          (x.over-rotate w _ _ w_R_v (x.over-point_variable w d.v_r_vp i.v_r_vp)))

  wheel_velocity-Over :
      (options : CalibratorOptions o.Number) (d : OdometryDesignVariables) (splines : Splines k o x)
      (s : k.Store) (wheel : Wheel k o x) (timestamp : ℤ)
      → Inside d splines
      → w wheel.time_delay ≡ true
      → Over w (
          x.euclidean_variables
            (wheel_velocity k o x options d splines s wheel (delayed k o x wheel timestamp)))
  unfolding wheel_velocity
  wheel_velocity-Over options d (translation, rotation) s wheel timestamp i delay =
      let time = delayed k o x wheel timestamp in
      let at =
        x.over-plus_time w _ _ (x.over-time_variable w wheel.time_delay delay)
          (x.over-constant_time w timestamp) in
      let l_bound = lower_bound k o x options s time in
      let u_bound = upper_bound k o x options s time in
      let w_R_v =
        x.over-orientation_at w rotation.curve rotation.design_variables time l_bound u_bound
          i.rotation at in
      let v_w = x.over-rotate w _ _ (x.over-inverse w _ w_R_v) (
        x.over-velocity_at w translation.curve translation.design_variables time l_bound u_bound
          i.translation at) in
      let v_om = x.over-rotate w _ _ (x.over-inverse w _ w_R_v) (
        x.over-negate_euclidean w _ (
          x.over-angular_velocity_at w rotation.curve rotation.design_variables time l_bound u_bound
            i.rotation at)) in
      x.over-plus_euclidean w _ _ v_w (
        x.over-cross w _ _ v_om
          (x.over-scale w _ _ (axis wheel.is_left) (x.over-scalar_variable w d.b i.b)))
    where
      axis :
          (is_left : Bool)
          → Over w (
              x.euclidean_variables (
                if is_left
                then x.constant_vector (x.vector3 o.zero_number x.one_number o.zero_number)
                else x.negate_euclidean
                    (x.constant_vector (x.vector3 o.zero_number x.one_number o.zero_number))))
      axis true = x.over-constant_vector w _
      axis false = x.over-negate_euclidean w _ (x.over-constant_vector w _)

  -- The pose error terms,
  pub pose_terms-AllOver :
      (c : Calibrator k o x) (splines : Splines k o x) (measurements : PoseMeasurements k o x)
      → Inside c.odometry_design_variables splines
      → AllOver k o x w (pose_terms k o x c splines measurements)
  unfolding pose_terms
  pose_terms-AllOver c splines [] i = tt
  pose_terms-AllOver c splines (m ∷ measurements) i = (
    pose_term-Over c.odometry_design_variables splines m i,
    pose_terms-AllOver c splines measurements i,
  )

  -- and those of a wheel.
  pub wheel_terms-AllOver :
      (c : Calibrator k o x) (splines : Splines k o x) (wheel : Wheel k o x)
      (measurements : WheelSpeedMeasurements k o x)
      → Inside c.odometry_design_variables splines
      → w wheel.time_delay ≡ true
      → w wheel.coefficient ≡ true
      → AllOver k o x w (wheel_terms k o x c splines wheel measurements)
  unfolding wheel_terms wheel_term
  wheel_terms-AllOver c splines wheel [] i delay coefficient = tt
  wheel_terms-AllOver c splines wheel ((timestamp, m) ∷ measurements) i delay coefficient =
      let rest = wheel_terms-AllOver c splines wheel measurements i delay coefficient in
      elim (Bool-cases
        (is_outside k o x c.options splines c.estimator.store (delayed k o x wheel timestamp))) [
          | inl out ↦ rw out rest
          | inr inside ↦ rw inside (
            x.over-error_term_wheel w _ _ _ _
                (wheel_velocity-Over c.options c.odometry_design_variables splines c.estimator.store
                  wheel timestamp i delay)
                (x.over-scalar_variable w wheel.coefficient coefficient),
            rest,
          )
        ]

-- The two comparisons of a round, on the bounds that it computes.
low_fits : (low at d : ℤ) → ltz (negate d +ℤ at) low ≡ false → low ≤ℤ at -ℤ d
unfolding ◌+ℤ◌ ◌-ℤ◌
low_fits low at d e = ground (arith, e)

low_fails : (low at d : ℤ) → low ≤ℤ at -ℤ d → ltz (negate d +ℤ at) low ≡ false
unfolding ◌+ℤ◌ ◌-ℤ◌
low_fails low at d e = ground (arith, e)

high_fits : (high at d : ℤ) → ltz high (d +ℤ at) ≡ false → at +ℤ d ≤ℤ high
unfolding ◌+ℤ◌
high_fits high at d e = ground (arith, e)

high_fails : (high at d : ℤ) → at +ℤ d ≤ℤ high → ltz high (d +ℤ at) ≡ false
unfolding ◌+ℤ◌
high_fails high at d e = ground (arith, e)

either_fails : (a b : Bool) → a ≡ false → b ≡ false → (a || b) ≡ true → ⊥
either_fails a b e f g = ground (arith, e, f, g)

neither : (a b : Bool) → (a || b) ≡ false → (a ≡ false) × (b ≡ false)
neither a b e = (ground (arith, e), ground (arith, e))

module _ (k : Backend) (o : Optimizer k) (x : Expressions k o) where
  -- The delayed time stamp of a measurement lies within the time of the splines, by at least the bound
  -- of the delay on both sides.
  abbrev pub Fits : CalibratorOptions o.Number → Splines k o x → k.Store → Wheel k o x → ℤ → Type 0
  Fits options (translation, rotation) s wheel timestamp =
      let at =
        x.time_value s
          (x.plus_time (x.time_variable wheel.time_delay) (x.constant_time timestamp)) in
      (x.min_time translation.curve ≤ℤ at -ℤ options.delay_bound)
      × (at +ℤ options.delay_bound ≤ℤ x.max_time translation.curve)

  -- Exactly the measurements that do not fit are passed over.
  pub is_outside-Fits :
      (options : CalibratorOptions o.Number) (splines : Splines k o x) (s : k.Store)
      (wheel : Wheel k o x) (timestamp : ℤ)
      → ((is_outside k o x options splines s (delayed k o x wheel timestamp) ≡ true)
          × (¬ (Fits options splines s wheel timestamp)))
        ⊎ ((is_outside k o x options splines s (delayed k o x wheel timestamp) ≡ false)
            × Fits options splines s wheel timestamp)
  unfolding is_outside
  is_outside-Fits options (translation, rotation) s wheel timestamp =
      let d = options.delay_bound in
      let at = x.time_value s (delayed k o x wheel timestamp) in
      let low = x.min_time translation.curve in
      let high = x.max_time translation.curve in
      let past = ltz high (d +ℤ at) in
      let early = ltz (negate d +ℤ at) low in
      elim (Bool-cases (past || early)) [
        | inl out ↦ inl (
          out,
          λ (below, above).
              either_fails past early (high_fails high at d above) (low_fails low at d below) out,
        )
        | inr inside ↦
            let (not_past, not_early) = neither past early inside in
            inr (inside, (low_fits low at d not_early, high_fits high at d not_past))
      ]
