-- ===== src/TimeDelay/Agree.antt =====
-- `predict` of algo/Calibrator.cpp of
-- incremental_calibration_examples/incremental_calibration_examples_time_delay/src evaluates the
-- error terms that `addMeasurements` would give to the estimator.
use aslam_incremental_calibr.Common.{
  ◌≡◌, ◌<◌, refl, sym, ◌∙◌, ap, List, [], ◌∷◌, ◌++◌, Option, none, some, ℤ, length, map, ok, arith,
  append_nil, append_assoc, subst, inl, inr, Bool-cases,
}
use aslam_incremental_calibr.Backend.{Backend}
use aslam_incremental_calibr.Optimizer.{Optimizer}
use aslam_incremental_calibr.Expressions.{Expressions}
use aslam_incremental_calibr.Problem
use aslam_incremental_calibr.Problem.{OptimizationProblem}
use aslam_incremental_calibr.TimeDelay.{
  Calibrator, MeasurementsContainer, Predictions, PoseMeasurement, WheelSpeedMeasurement,
}
use aslam_incremental_calibr.TimeDelay.Odometry.{add_to_batch, OdometryDesignVariables}
use aslam_incremental_calibr.TimeDelay.Terms.{
  Splines, init_splines, with_splines, pose_term, pose_expressions,
}
use aslam_incremental_calibr.TimeDelay.Wheels.{
  left_wheel, right_wheel, wheel_term, wheel_velocity, is_outside, delayed,
}
use aslam_incremental_calibr.TimeDelay.Rounds.{pose_round, left_wheel_round, right_wheel_round}
use aslam_incremental_calibr.TimeDelay.Run.{pose_terms, wheel_terms}
use aslam_incremental_calibr.TimeDelay.Predict.{
  push_prediction, predict_each, predict_poses, predict_left_wheel, predict_right_wheel, predict,
}
use aslam_incremental_calibr.TimeDelay.Gather.{chosen}
use aslam_incremental_calibr.TimeDelay.Fill.{odometry_only, add_to_batch-empty}
use aslam_incremental_calibr.TimeDelay.Stages.{init_splines_lem, new_translation, new_rotation}
use aslam_incremental_calibr.TimeDelay.Calibrating.{IsCalibrating}

module _ (k : Backend) (o : Optimizer k) (x : Expressions k o) where
  open o use {Number, Vector}
  open x use {ErrorTerm}

  -- A sensor's predictions have grown by the errors of these error terms.
  abbrev pub Evaluates :
      {P : Type 0}
      → k.Store
      → List (Option ErrorTerm)
      → Predictions P Vector Number
      → Predictions P Vector Number
      → Type 0
  Evaluates s terms p p' =
      (p'.errors ≡ p.errors ++ map (x.error_vector s) (chosen terms))
      × (p'.errors2 ≡ p.errors2 ++ map (x.evaluate_error s) (chosen terms))

  -- The error term of a round.
  abbrev term_of : {P : Type 0} → Option (ErrorTerm × P) → Option ErrorTerm
  term_of none = none
  term_of (some (term, value)) = some term

  push-Evaluates :
      {P : Type 0} (s : k.Store) (t : ℤ) (round : Option (ErrorTerm × P))
      (terms : List (Option ErrorTerm)) (p p' : Predictions P Vector Number)
      → Evaluates s terms (push_prediction k o x s t round p) p'
      → Evaluates s (term_of round ∷ terms) p p'
  push-Evaluates s t none terms p p' e = e
  push-Evaluates s t (some (term, value)) terms p p' (errors, errors2) = (
    errors ∙ append_assoc p.errors (x.error_vector s term ∷ []) _,
    errors2 ∙ append_assoc p.errors2 (x.evaluate_error s term ∷ []) _,
  )

  predict_each-Evaluates :
      {M P : Type 0} (s : k.Store) (round : ℤ × M → Option (ErrorTerm × P))
      (term : ℤ × M → Option ErrorTerm)
      → ((m : ℤ × M) → term_of (round m) ≡ term m)
      → (ms : MeasurementsContainer M) (p : Predictions P Vector Number)
      → Evaluates s (map term ms) p (predict_each k o x s round ms p)
  unfolding predict_each
  predict_each-Evaluates s round term same [] p =
      (sym (append_nil p.errors), sym (append_nil p.errors2))
  predict_each-Evaluates s round term same ((t, m) ∷ ms) p =
      subst (λ e. Evaluates s (e ∷ map term ms) p (predict_each k o x s round ((t, m) ∷ ms) p))
        (same (t, m))
        (push-Evaluates s t (round (t, m)) (map term ms) p
          (predict_each k o x s round ((t, m) ∷ ms) p)
          (predict_each-Evaluates s round term same ms
            (push_prediction k o x s t (round (t, m)) p)))

  -- A round of a prediction computes the error term that `add...ErrorTerms` would add.
  pose_round-term :
      (d : OdometryDesignVariables) (splines : Splines k o x) (s : k.Store)
      (m : ℤ × PoseMeasurement k o x)
      → term_of (pose_round k o x d splines s m) ≡ some (pose_term k o x d splines m)
  unfolding pose_round pose_term pose_expressions
  pose_round-term d (translation, rotation) s (timestamp, m) = refl

  left_wheel_round-term :
      (c : Calibrator k o x) (splines : Splines k o x) (s : k.Store)
      (m : ℤ × WheelSpeedMeasurement o.Number)
      → term_of (left_wheel_round k o x c.options c.odometry_design_variables splines s m)
        ≡ wheel_term k o x c.options c.odometry_design_variables splines s (left_wheel k o x c) m
  unfolding left_wheel_round wheel_term wheel_velocity is_outside
  left_wheel_round-term c (translation, rotation) s (timestamp, m) =
      elim (Bool-cases (
        is_outside k o x c.options (translation, rotation) s
          (delayed k o x (left_wheel k o x c) timestamp))) [
            | inl out ↦ rw out refl
            | inr inside ↦ rw inside refl
          ]

  right_wheel_round-term :
      (c : Calibrator k o x) (splines : Splines k o x) (s : k.Store)
      (m : ℤ × WheelSpeedMeasurement o.Number)
      → term_of (right_wheel_round k o x c.options c.odometry_design_variables splines s m)
        ≡ wheel_term k o x c.options c.odometry_design_variables splines s (right_wheel k o x c) m
  unfolding right_wheel_round wheel_term wheel_velocity is_outside
  right_wheel_round-term c (translation, rotation) s (timestamp, m) =
      elim (Bool-cases (
        is_outside k o x c.options (translation, rotation) s
          (delayed k o x (right_wheel k o x c) timestamp))) [
            | inl out ↦ rw out refl
            | inr inside ↦ rw inside refl
          ]

  -- The loops of `predict`, one after the other.
  abbrev predictions : Calibrator k o x → Splines k o x → Calibrator k o x → Calibrator k o x
  predictions c splines c1 = predict_right_wheel k o x c.right_wheel_speed_measurements splines (
      predict_left_wheel k o x c.left_wheel_speed_measurements splines
        (predict_poses k o x c.pose_measurements splines c1))

  predict_stages :
      (c c1 : Calibrator k o x) (splines : Splines k o x) (p0 : OptimizationProblem k.Params)
      → add_to_batch c.odometry_design_variables 1 Problem.empty ≡ (ok tt, p0)
      → init_splines k o x c.pose_measurements c ≡ (ok splines, c1)
      → predict k o x c ≡ (ok tt, predictions c splines c1)
  unfolding predict
  predict_stages c c1 splines p0 e0 e1 = rw (e0, e1) refl

  -- What `predict` has done.
  pub record Predicted (c c' : Calibrator k o x) : Type 0 where
    pub splines : Splines k o x
    pub translation_spline : c'.translation_spline ≡ some splines.0
    pub rotation_spline : c'.rotation_spline ≡ some splines.1
    pub poses :
        Evaluates c'.estimator.store
          (pose_terms k o x c' splines c.pose_measurements)
          c.pose_predictions
          c'.pose_predictions
    pub left :
        Evaluates c'.estimator.store
          (wheel_terms k o x c' splines (left_wheel k o x c') c.left_wheel_speed_measurements)
          c.left_wheel_predictions
          c'.left_wheel_predictions
    pub right :
        Evaluates c'.estimator.store
          (wheel_terms k o x c' splines (right_wheel k o x c') c.right_wheel_speed_measurements)
          c.right_wheel_predictions
          c'.right_wheel_predictions
    pub estimator : c'.estimator.estimator ≡ c.estimator.estimator
    pub pose_measurements : c'.pose_measurements ≡ c.pose_measurements
    pub left_measurements : c'.left_wheel_speed_measurements ≡ c.left_wheel_speed_measurements
    pub right_measurements : c'.right_wheel_speed_measurements ≡ c.right_wheel_speed_measurements

  -- The fitting of splines, their evaluation and the conversions to `int` in `initSplines` are
  -- taken to return, on any time stamps. Then, with a pose measurement in its buffer, a calibrator
  -- whose estimator is in order predicts without an exception: on new splines, the errors that it
  -- appends for each sensor are those of the error terms that `addMeasurements`, whose code
  -- `predict` repeats, makes of the same measurements on those splines, in order and with the same
  -- ones passed over. The estimator and the buffers are as they were.
  pub predict_lem :
      (c : Calibrator k o x)
      → IsCalibrating k o x c
      → 0 < length c.pose_measurements
      → (c' : Calibrator k o x) × (predict k o x c ≡ (ok tt, c'))
        × IsCalibrating k o x c'
        × Predicted c c'
  unfolding with_splines predict_poses predict_left_wheel predict_right_wheel pose_terms wheel_terms
  predict_lem c v pos =
      let (t, r, init) = init_splines_lem k o x c.pose_measurements c pos in
      let added =
        ap (λ d. add_to_batch d 1 (Problem.empty {Params = k.Params})) v.variables
        ∙ add_to_batch-empty in
      let splines : Splines k o x = (new_translation k o x t c, new_rotation k o x t r c) in
      let c1 : Calibrator k o x = (with_splines k o x t r c).1 in
      (
        predictions c splines c1,
        predict_stages c c1 splines odometry_only added init,
        record {
          variables = v.variables;
          next = omega (arith, v.next);
          marg_group_id = v.marg_group_id;
          valid = v.valid;
          stored = v.stored;
          few = v.few;
          offered = v.offered;
          recorded = v.recorded;
        },
        record {
          splines = splines;
          translation_spline = refl;
          rotation_spline = refl;
          poses =
              predict_each-Evaluates _ _ _
                (pose_round-term c.odometry_design_variables splines c1.estimator.store)
                c.pose_measurements c.pose_predictions;
          left =
              predict_each-Evaluates _ _ _ (left_wheel_round-term c1 splines c1.estimator.store)
                c.left_wheel_speed_measurements c.left_wheel_predictions;
          right =
              predict_each-Evaluates _ _ _ (right_wheel_round-term c1 splines c1.estimator.store)
                c.right_wheel_speed_measurements c.right_wheel_predictions;
          estimator = refl;
          pose_measurements = refl;
          left_measurements = refl;
          right_measurements = refl;
        },
      )
