-- ===== src/TimeDelay/Odometry.antt =====
-- design-variables/OdometryDesignVariables.cpp and algo/bestQuat.cpp of
-- incremental_calibration_examples/incremental_calibration_examples_time_delay/src: the calibrated
-- quantities, as pointers to design variables. What the constructor reads of the property tree is
-- its argument.
use aslam_incremental_calibr.Common.{ℕ, ◌+◌, Bool, true, [], ◌∷◌, some, if◌then◌else◌, Method, ℤ}
use aslam_incremental_calibr.Common.Stateful.{◌>>◌}
use aslam_incremental_calibr.Backend.{Backend}
use aslam_incremental_calibr.Optimizer.{Optimizer}
use aslam_incremental_calibr.Expressions.{Expressions}
use aslam_incremental_calibr.Problem.{OptimizationProblem, add_design_variable}

pub record OdometryDesignVariables : Type 0 where
  pub v_r_vp : ℕ
  pub v_R_p : ℕ
  pub b : ℕ
  pub k_l : ℕ
  pub k_r : ℕ
  pub t_l : ℕ
  pub t_r : ℕ

-- The entries of the property tree, by their keys.
pub record OdometryConfig (Number : Type 0) : Type 0 where
  pub half_wheel_base : Number
  pub lw_coefficient : Number
  pub rw_coefficient : Number
  pub translation_x : Number
  pub translation_y : Number
  pub translation_z : Number
  pub translation_active : Bool
  pub rotation_yaw : Number
  pub rotation_pitch : Number
  pub rotation_roll : Number
  pub rotation_active : Bool
  pub lw_time_delay : ℤ
  pub rw_time_delay : ℤ
  pub time_delays_active : Bool

-- The pointers from this one on, in the order in which the constructor makes the objects.
abbrev pub pointers_from : ℕ → OdometryDesignVariables
pointers_from n = record {
  b = n;
  k_l = n + 1;
  k_r = n + 2;
  v_r_vp = n + 3;
  v_R_p = n + 4;
  t_l = n + 5;
  t_r = n + 6;
}

unfoldable pub add_to_batch :
    {Params : Type 0} → OdometryDesignVariables → ℕ → Method (OptimizationProblem Params) (Unit {0})
add_to_batch d group_id = do
  add_design_variable (some d.b) group_id
  add_design_variable (some d.k_l) group_id
  add_design_variable (some d.t_l) group_id
  add_design_variable (some d.k_r) group_id
  add_design_variable (some d.t_r) group_id
  add_design_variable (some d.v_r_vp) group_id
  add_design_variable (some d.v_R_p) group_id

module _ (k : Backend) (o : Optimizer k) (x : Expressions k o) where
  -- The constructor, with the pointers that it gets from the allocator.
  unfoldable pub new_odometry_design_variables :
      OdometryConfig o.Number → OdometryDesignVariables → k.Store → k.Store
  new_odometry_design_variables config d s =
      let s1 = x.set_active d.b true (x.new_scalar d.b config.half_wheel_base s) in
      let s2 = x.set_active d.k_l true (x.new_scalar d.k_l config.lw_coefficient s1) in
      let s3 = x.set_active d.k_r true (x.new_scalar d.k_r config.rw_coefficient s2) in
      let translation = x.vector3 config.translation_x config.translation_y config.translation_z in
      let s4 =
        x.set_active d.v_r_vp config.translation_active (x.new_point d.v_r_vp translation s3) in
      let rotation =
        x.parameters_to_rotation_matrix
          (x.vector3 config.rotation_yaw config.rotation_pitch config.rotation_roll) in
      let s5 = x.set_active d.v_R_p config.rotation_active (x.new_rotation d.v_R_p rotation s4) in
      let s6 = x.new_time d.t_r config.rw_time_delay (x.new_time d.t_l config.lw_time_delay s5) in
      x.set_active d.t_r config.time_delays_active (x.set_active d.t_l config.time_delays_active s6)

  unfoldable pub get_parameters : OdometryDesignVariables → k.Store → o.Vector
  get_parameters d s =
      let v_r_vp = x.point_value s d.v_r_vp in
      let v_R_p = x.rotation_matrix_to_parameters (x.quat2r (x.quaternion_value s d.v_R_p)) in
      x.vector_of (
        x.first_parameter s d.b
        ∷ x.first_parameter s d.k_l
        ∷ x.first_parameter s d.t_l
        ∷ x.first_parameter s d.k_r
        ∷ x.first_parameter s d.t_r
        ∷ x.x_of v_r_vp
        ∷ x.y_of v_r_vp
        ∷ x.z_of v_r_vp
        ∷ x.x_of v_R_p
        ∷ x.y_of v_R_p
        ∷ x.z_of v_R_p
        ∷ [])

  -- Of a quaternion and its opposite, the one that is nearer to the one before.
  unfoldable pub best_quat : x.Quaternion → x.Quaternion → x.Quaternion
  best_quat pquat cquat =
      if o.greater (x.norm (x.minus_quaternion pquat cquat))
        (x.norm (x.plus_quaternion pquat cquat))
      then x.negate_quaternion cquat
      else cquat
