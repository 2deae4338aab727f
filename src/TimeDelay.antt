-- ===== src/TimeDelay.antt =====
-- incremental_calibration_examples/incremental_calibration_examples_time_delay/src/algo/Calibrator.cpp
-- and its header: the state of the calibrator of a wheeled vehicle, with its accessors. The objects
-- that it allocates are numbered: the batches and the error terms are kept in lists.
pub mod Odometry
pub mod Terms
pub mod Wheels
pub mod Run
pub mod Rounds
pub mod Predict
pub mod Contents
pub mod Gather
pub mod Closed
pub mod Fill
pub mod Stages
pub mod Made
pub mod Calibrating
pub mod Offer
pub mod Batches
pub mod Windows
pub mod Measure
pub mod History
pub mod Window
pub mod Bounds
pub mod Agree
mod Tests
use aslam_incremental_calibr.Common.{
  ℕ, ◌≡◌, Bool, true, false, not, List, [], ◌∷◌, ◌++◌, Option, none, some, ℤ, negsuc, length,
  get_elem?, ◌||◌,
}
use aslam_incremental_calibr.Backend.{Backend}
use aslam_incremental_calibr.Optimizer.{Optimizer}
use aslam_incremental_calibr.Expressions.{Expressions}
use aslam_incremental_calibr.Problem
use aslam_incremental_calibr.Problem.{OptimizationProblem}
use aslam_incremental_calibr.Spline
use aslam_incremental_calibr.Spline.{SplineOf, OptimizationProblemSpline}
use aslam_incremental_calibr.Estimator
use aslam_incremental_calibr.Estimator.{Session, IncrementalEstimator, new_estimator}
use aslam_incremental_calibr.TimeDelay.Odometry.{
  OdometryDesignVariables, OdometryConfig, pointers_from, new_odometry_design_variables,
  get_parameters,
}

-- Measurements with their time stamps.
abbrev pub MeasurementsContainer : Type 0 → Type 0
MeasurementsContainer M = List (ℤ × M)

pub record CalibratorOptions (Number : Type 0) : Type 0 where
  pub window_duration : Number
  pub trans_spline_lambda : Number
  pub rot_spline_lambda : Number
  pub spline_knots_per_second : ℤ
  pub trans_spline_order : ℤ
  pub rot_spline_order : ℤ
  pub lw_variance : Number
  pub rw_variance : Number
  pub vy_variance : Number
  pub vz_variance : Number
  pub verbose : Bool
  pub delay_bound : ℤ

pub record WheelSpeedMeasurement (Number : Type 0) : Type 0 where
  pub value : Number

-- `_...Pred`, `_...PredErrors` and `_...PredErrors2` of one sensor.
pub record Predictions (M Vector Number : Type 0) : Type 0 where
  pub predicted : MeasurementsContainer M
  pub errors : List Vector
  pub errors2 : List Number

abbrev is_empty {ℓ} : {A : Type ℓ} → List A → Bool
is_empty [] = true
is_empty (a ∷ rest) = false

module _ (k : Backend) (o : Optimizer k) (x : Expressions k o) where
  open k use {Store, Params}
  open o use {Outside, Number, Matrix, Vector}
  open x use {Vector3, TranslationCurve, RotationCurve, ErrorTerm}

  pub record PoseMeasurement : Type 0 where
    pub w_r_wp : Vector3
    pub sigma2_w_r_wp : Matrix
    pub w_R_p : Vector3
    pub sigma2_w_R_p : Matrix

  -- A predicted pose: its covariances are not set.
  pub record PosePrediction : Type 0 where
    pub w_r_wp : Vector3
    pub w_R_p : Vector3

  abbrev pub PoseMeasurements : Type 0
  PoseMeasurements = MeasurementsContainer PoseMeasurement

  abbrev pub WheelSpeedMeasurements : Type 0
  WheelSpeedMeasurements = MeasurementsContainer (WheelSpeedMeasurement Number)

  pub record Calibrator : Type 0 where
    pub options : CalibratorOptions Number
    pub odometry_design_variables : OdometryDesignVariables
    -- The estimator, with the design variables and the optimizer that it works on.
    pub estimator : Session k o
    pub current_batch_start_timestamp : ℤ
    pub last_timestamp : ℤ
    pub pose_measurements : PoseMeasurements
    pub pose_predictions : Predictions PosePrediction Vector Number
    pub left_wheel_speed_measurements : WheelSpeedMeasurements
    pub left_wheel_predictions : Predictions (WheelSpeedMeasurement Number) Vector Number
    pub right_wheel_speed_measurements : WheelSpeedMeasurements
    pub right_wheel_predictions : Predictions (WheelSpeedMeasurement Number) Vector Number
    pub rotation_spline : Option (SplineOf RotationCurve)
    pub translation_spline : Option (SplineOf TranslationCurve)
    pub info_gain_history : List Number
    pub odometry_variables_history : List Vector
    -- The objects behind the pointers to batches and to error terms, and the next pointer to a design
    -- variable.
    pub batches : List (OptimizationProblemSpline k o x)
    pub error_terms : List ErrorTerm
    pub next_design_variable : ℕ

  abbrev pub no_predictions : {M : Type 0} → Predictions M Vector Number
  no_predictions = record { predicted = []; errors = []; errors2 = [] }

  -- The constructor, given the group that the estimator marginalizes and both parts' options.
  unfoldable pub new_calibrator :
      CalibratorOptions Number
      → ℕ
      → Estimator.Options Number
      → OdometryConfig Number
      → Store
      → Outside
      → Calibrator
  new_calibrator options marg_group_id estimator_options config s outside =
      let variables = new_odometry_design_variables k o x config (pointers_from 0) s in
      record {
        options = options;
        odometry_design_variables = pointers_from 0;
        estimator = record {
          estimator = new_estimator k o marg_group_id estimator_options;
          store = variables;
          outside = outside;
        };
        current_batch_start_timestamp = negsuc 0;
        last_timestamp = negsuc 0;
        pose_measurements = [];
        pose_predictions = no_predictions;
        left_wheel_speed_measurements = [];
        left_wheel_predictions = no_predictions;
        right_wheel_speed_measurements = [];
        right_wheel_predictions = no_predictions;
        rotation_spline = none;
        translation_spline = none;
        info_gain_history = [];
        odometry_variables_history = get_parameters k o x (pointers_from 0) variables ∷ [];
        batches = [];
        error_terms = [];
        next_design_variable = 7;
      }

  -- What a pointer to an error term or to a batch stands for.
  abbrev pub variables_in : List ErrorTerm → ℕ → List ℕ
  variables_in terms et = elim (get_elem? terms et) [ none ↦ [] | some t ↦ x.error_variables t ]

  abbrev pub problem_in : List (OptimizationProblemSpline k o x) → ℕ → OptimizationProblem Params
  problem_in batches b = elim (get_elem? batches b) [ none ↦ Problem.empty | some p ↦ p.problem ]

  abbrev pub unprocessed_measurements : Calibrator → Bool
  unprocessed_measurements c =
      not (is_empty c.pose_measurements)
      || not (is_empty c.left_wheel_speed_measurements)
      || not (is_empty c.right_wheel_speed_measurements)

  abbrev pub get_odometry_variables_variance : (Matrix → Vector) → Calibrator → Vector
  get_odometry_variables_variance diagonal_of c =
      diagonal_of (Estimator.get_sigma2_theta k o false c.estimator.estimator)

  unfoldable pub clear_predictions : Calibrator → Calibrator
  clear_predictions c = record c {
    pose_predictions = no_predictions;
    left_wheel_predictions = no_predictions;
    right_wheel_predictions = no_predictions;
  }

  unfoldable pub clear_measurements : Calibrator → Calibrator
  clear_measurements c = record c {
    pose_measurements = [];
    left_wheel_speed_measurements = [];
    right_wheel_speed_measurements = [];
  }
