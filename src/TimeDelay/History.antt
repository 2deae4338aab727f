-- ===== src/TimeDelay/History.antt =====
-- Sequences of calls of a calibrator (algo/Calibrator.cpp of
-- incremental_calibration_examples/incremental_calibration_examples_time_delay/src).
use aslam_incremental_calibr.Common.{
  ◌+◌, ◌≡◌, ◌≤◌, ◌<◌, refl, ◌∙◌, ap, List, [], ◌∷◌, ℤ, length, Result, ok, arith, inl, inr, Method,
}
use aslam_incremental_calibr.Common.Stateful.{pure, and_then, ◌>>◌, modify}
use aslam_incremental_calibr.Backend.{Backend}
use aslam_incremental_calibr.Optimizer.{Optimizer}
use aslam_incremental_calibr.Expressions.{Expressions}
use aslam_incremental_calibr.Incremental.{size_t_mod}
use aslam_incremental_calibr.Estimator
use aslam_incremental_calibr.TimeDelay.{
  Calibrator, CalibratorOptions, new_calibrator, clear_predictions, clear_measurements,
}
use aslam_incremental_calibr.TimeDelay.Odometry.{OdometryConfig}
use aslam_incremental_calibr.TimeDelay.Run.{add_measurements, noted}
use aslam_incremental_calibr.TimeDelay.Calibrating.{
  problems, IsCalibrating, new_calibrator-IsCalibrating,
}
use aslam_incremental_calibr.TimeDelay.Windows.{Added, buffers-IsCalibrating, add_measurements_lem}
use aslam_incremental_calibr.TimeDelay.Measure.{
  Measurement, add_measurement_of, pushed, Noted, add_measurement_of_lem, Offered-batches, of_pose,
  of_left_wheel, of_right_wheel,
}

module _ (k : Backend) (o : Optimizer k) (x : Expressions k o) where
  -- The calls of the calibrator's public methods but `predict`.
  pub data Event : Type 0 where
    measures : Measurement k o x → ℤ → Event
    adds_measurements : Event
    clears_measurements : Event
    clears_predictions : Event

  abbrev pub step : Event → Method (Calibrator k o x) (Unit {0})
  step (measures m timestamp) = add_measurement_of k o x m timestamp
  step adds_measurements = add_measurements k o x
  step clears_measurements = modify (clear_measurements k o x)
  step clears_predictions = modify (clear_predictions k o x)

  -- One call after the other, up to an exception.
  unfoldable pub run : List Event → Method (Calibrator k o x) (Unit {0})
  run [] = pure tt
  run (event ∷ events) = let rest = run events in do step event; rest

  -- What a call has done.
  abbrev pub Stepped : Event → Calibrator k o x → Calibrator k o x → Type 0
  Stepped (measures m timestamp) c c' =
      (c1 : Calibrator k o x) × (c' ≡ pushed k o x m timestamp c1) × Noted k o x timestamp c c1
  Stepped adds_measurements c c' = Added k o x c c'
  Stepped clears_measurements c c' = c' ≡ clear_measurements k o x c
  Stepped clears_predictions c c' = c' ≡ clear_predictions k o x c

  clear_predictions-IsCalibrating :
      (c : Calibrator k o x)
      → IsCalibrating k o x c
      → IsCalibrating k o x (clear_predictions k o x c)
  unfolding clear_predictions
  clear_predictions-IsCalibrating c v = record {
    variables = v.variables;
    next = v.next;
    marg_group_id = v.marg_group_id;
    valid = v.valid;
    stored = v.stored;
    few = v.few;
    offered = v.offered;
    recorded = v.recorded;
  }

  clear_measurements-IsCalibrating :
      (c : Calibrator k o x)
      → IsCalibrating k o x c
      → IsCalibrating k o x (clear_measurements k o x c)
  unfolding clear_measurements
  clear_measurements-IsCalibrating c v =
      buffers-IsCalibrating k o x c c.current_batch_start_timestamp c.last_timestamp [] [] [] v

  pub step_lem :
      (event : Event) (c : Calibrator k o x)
      → IsCalibrating k o x c
      → length c.batches + 1 < size_t_mod
      → (c' : Calibrator k o x) × (step event c ≡ (ok tt, c'))
        × IsCalibrating k o x c'
        × Stepped event c c'
  step_lem (measures m timestamp) c v room =
      let (c1, taken, v1, how) = add_measurement_of_lem k o x m timestamp c v room in
      (pushed k o x m timestamp c1, taken, v1, (c1, refl, how))
  step_lem adds_measurements c v room = add_measurements_lem k o x c v room
  step_lem clears_measurements c v room = (_, refl, clear_measurements-IsCalibrating c v, refl)
  step_lem clears_predictions c v room = (_, refl, clear_predictions-IsCalibrating c v, refl)

  Noted-batches :
      (timestamp : ℤ) (c c1 : Calibrator k o x)
      → Noted k o x timestamp c c1
      → length c1.batches ≤ length c.batches + 1
  Noted-batches timestamp c c1 (inl (why, same)) =
      omega (arith, ap (λ (d : Calibrator k o x). length d.batches) same)
  Noted-batches timestamp c c1 (inr (over, two, offered)) =
      omega (arith, Offered-batches k o x (noted k o x timestamp c) c1 offered)

  pushed_batches :
      (m : Measurement k o x) (timestamp : ℤ) (c1 : Calibrator k o x)
      → length (pushed k o x m timestamp c1).batches ≡ length c1.batches
  pushed_batches (of_pose m) timestamp c1 = refl
  pushed_batches (of_left_wheel m) timestamp c1 = refl
  pushed_batches (of_right_wheel m) timestamp c1 = refl

  -- A call makes at most one batch.
  pub step_batches :
      (event : Event) (c c' : Calibrator k o x)
      → Stepped event c c'
      → length c'.batches ≤ length c.batches + 1
  unfolding clear_measurements clear_predictions
  step_batches (measures m timestamp) c c' (c1, same, how) = omega (
    arith,
    ap (λ (d : Calibrator k o x). length d.batches) same,
    pushed_batches m timestamp c1,
    Noted-batches timestamp c c1 how,
  )
  step_batches adds_measurements c c' (inl (few, same)) =
      omega (arith, ap (λ (d : Calibrator k o x). length d.batches) same)
  step_batches adds_measurements c c' (inr (two, offered)) =
      omega (arith, Offered-batches k o x c c' offered)
  step_batches clears_measurements c c' same =
      omega (arith, ap (λ (d : Calibrator k o x). length d.batches) same)
  step_batches clears_predictions c c' same =
      omega (arith, ap (λ (d : Calibrator k o x). length d.batches) same)

  pub run-suc :
      (event : Event) (events : List Event) (c c1 : Calibrator k o x)
      → step event c ≡ (ok tt, c1)
      → run (event ∷ events) c ≡ run events c1
  unfolding run
  run-suc event events c c1 e =
      ap (λ (r : Result (Unit {0}) × Calibrator k o x). and_then r.0 (λ _. run events) r.1) e

  run-IsCalibrating :
      (events : List Event) (c : Calibrator k o x)
      → IsCalibrating k o x c
      → length c.batches + length events < size_t_mod
      → (c' : Calibrator k o x) × (run events c ≡ (ok tt, c'))
        × IsCalibrating k o x c'
        × (length c'.batches ≤ length c.batches + length events)
  unfolding run
  run-IsCalibrating [] c v room = (c, refl, v, omega arith)
  run-IsCalibrating (event ∷ events) c v room =
      let (c1, done, v1, how) = step_lem event c v (omega (arith, room)) in
      let one_more = step_batches event c c1 how in
      let (c', rest, v', more) = run-IsCalibrating events c1 v1 (omega (arith, room, one_more)) in
      (c', run-suc event events c c1 done ∙ rest, v', omega (arith, more, one_more))

  -- The fitting of splines, their evaluation and the conversions to `int` in `initSplines` are
  -- taken to return, on any time stamps. Then a new calibrator whose estimator marginalizes group 1
  -- takes any measurements, calls of `addMeasurements` and clearings, in any order, without an
  -- exception, as long as there are fewer than 2^64 of them: no batch is refused for its groups,
  -- its design variables or its error terms. The estimator's containers stay in agreement with its
  -- batches, and the calibrator has one entry of the information gain for each batch that was made,
  -- of which at most all are in the estimator, and one more of the odometry variables. Calls of
  -- `predict` are left out.
  pub run-new_calibrator :
      (options : CalibratorOptions o.Number) (estimator_options : Estimator.Options o.Number)
      (config : OdometryConfig o.Number) (s : k.Store) (outside : o.Outside) (events : List Event)
      → length events < size_t_mod
      → (c' : Calibrator k o x) × (run events
            (new_calibrator k o x options 1 estimator_options config s outside)
          ≡ (ok tt, c'))
        × IsCalibrating k o x c'
        × (length (problems k o x c') ≤ length c'.info_gain_history)
        × (length c'.info_gain_history ≤ length events)
        × (length c'.odometry_variables_history ≡ length c'.info_gain_history + 1)
  unfolding new_calibrator
  run-new_calibrator options estimator_options config s outside events room =
      let c = new_calibrator k o x options 1 estimator_options config s outside in
      let (c', done, v', more) =
        run-IsCalibrating events c
          (new_calibrator-IsCalibrating k o x options estimator_options config s outside)
          (omega (arith, room)) in
      (
        c',
        done,
        v',
        omega (arith, v'.few, v'.offered),
        omega (arith, more, v'.offered),
        omega (arith, v'.recorded, v'.offered),
      )
