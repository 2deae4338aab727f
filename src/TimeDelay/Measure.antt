-- ===== src/TimeDelay/Measure.antt =====
-- A measurement that a calibrator (algo/Calibrator.cpp of
-- incremental_calibration_examples/incremental_calibration_examples_time_delay/src) takes.
use aslam_incremental_calibr.Common.{
  ℕ, count, ◌+◌, ◌≡◌, ◌≤◌, ◌<◌, refl, ◌∙◌, ap, true, false, [], ◌∷◌, ◌++◌, ℤ, length, length-append,
  ok, arith, inl, inr, Bool-cases, ◌⊎◌, Method,
}
use aslam_incremental_calibr.Backend.{Backend}
use aslam_incremental_calibr.Optimizer.{Optimizer}
use aslam_incremental_calibr.Expressions.{Expressions}
use aslam_incremental_calibr.Incremental.{size_t_mod}
use aslam_incremental_calibr.Estimator.{IncrementalEstimator}
use aslam_incremental_calibr.TimeDelay.{Calibrator, PoseMeasurement, WheelSpeedMeasurement}
use aslam_incremental_calibr.TimeDelay.Run.{
  noted, is_window_over, add_measurement, add_pose_measurement, add_left_wheel_measurement,
  add_right_wheel_measurement,
}
use aslam_incremental_calibr.TimeDelay.Calibrating.{IsCalibrating, problems}
use aslam_incremental_calibr.TimeDelay.Windows.{
  Offered, buffers-IsCalibrating, add_measurements_lem,
}

module _ (k : Backend) (o : Optimizer k) (x : Expressions k o) where
  -- A measurement of one of the sensors.
  pub data Measurement : Type 0 where
    of_pose : PoseMeasurement k o x → Measurement
    of_left_wheel : WheelSpeedMeasurement o.Number → Measurement
    of_right_wheel : WheelSpeedMeasurement o.Number → Measurement

  abbrev pub add_measurement_of : Measurement → ℤ → Method (Calibrator k o x) (Unit {0})
  add_measurement_of (of_pose m) timestamp = add_pose_measurement k o x m timestamp
  add_measurement_of (of_left_wheel m) timestamp = add_left_wheel_measurement k o x m timestamp
  add_measurement_of (of_right_wheel m) timestamp = add_right_wheel_measurement k o x m timestamp

  -- The calibrator with the measurement in the buffer of its sensor.
  abbrev pub pushed : Measurement → ℤ → Calibrator k o x → Calibrator k o x
  pushed (of_pose m) timestamp c = record c {
    pose_measurements = c.pose_measurements ++ (timestamp, m) ∷ [];
  }
  pushed (of_left_wheel m) timestamp c = record c {
    left_wheel_speed_measurements = c.left_wheel_speed_measurements ++ (timestamp, m) ∷ [];
  }
  pushed (of_right_wheel m) timestamp c = record c {
    right_wheel_speed_measurements = c.right_wheel_speed_measurements ++ (timestamp, m) ∷ [];
  }

  -- `addMeasurement` only takes note of the time, where the window is not over or has fewer than two
  -- poses, or else makes a batch of what there is.
  abbrev pub Noted : ℤ → Calibrator k o x → Calibrator k o x → Type 0
  Noted timestamp c c1 =
      (((is_window_over k o x (noted k o x timestamp c) ≡ false) ⊎ (length c.pose_measurements < 2))
        × (c1 ≡ noted k o x timestamp c))
      ⊎ ((is_window_over k o x (noted k o x timestamp c) ≡ true)
          × (2 ≤ length c.pose_measurements)
          × Offered k o x (noted k o x timestamp c) c1)

  add_measurement_lem :
      (timestamp : ℤ) (c : Calibrator k o x)
      → IsCalibrating k o x c
      → length c.batches + 1 < size_t_mod
      → (c1 : Calibrator k o x) × (add_measurement k o x timestamp c ≡ (ok tt, c1))
        × IsCalibrating k o x c1
        × Noted timestamp c c1
  unfolding add_measurement
  add_measurement_lem timestamp c v room =
      let n = noted k o x timestamp c in
      let vn =
        buffers-IsCalibrating k o x c n.current_batch_start_timestamp timestamp c.pose_measurements
          c.left_wheel_speed_measurements c.right_wheel_speed_measurements v in
      elim (Bool-cases (is_window_over k o x n)) [
        | inr going ↦ (n, rw going refl, vn, inl (inl going, refl))
        | inl over ↦
            let (c1, run, v1, added) = add_measurements_lem k o x n vn room in
            (
              c1,
              rw over run,
              v1,
              elim added [
                | inl (few, same) ↦ inl (inr few, same)
                | inr (two, offered) ↦ inr (over, two, offered)
              ],
            )
      ]

  pushed-IsCalibrating :
      (m : Measurement) (timestamp : ℤ) (c : Calibrator k o x)
      → IsCalibrating k o x c
      → IsCalibrating k o x (pushed m timestamp c)
  pushed-IsCalibrating (of_pose m) timestamp c v =
      buffers-IsCalibrating k o x c c.current_batch_start_timestamp c.last_timestamp
        (c.pose_measurements ++ (timestamp, m) ∷ []) c.left_wheel_speed_measurements
        c.right_wheel_speed_measurements v
  pushed-IsCalibrating (of_left_wheel m) timestamp c v =
      buffers-IsCalibrating k o x c c.current_batch_start_timestamp c.last_timestamp
        c.pose_measurements (c.left_wheel_speed_measurements ++ (timestamp, m) ∷ [])
        c.right_wheel_speed_measurements v
  pushed-IsCalibrating (of_right_wheel m) timestamp c v =
      buffers-IsCalibrating k o x c c.current_batch_start_timestamp c.last_timestamp
        c.pose_measurements c.left_wheel_speed_measurements
        (c.right_wheel_speed_measurements ++ (timestamp, m) ∷ []) v

  push_stages :
      (m : Measurement) (timestamp : ℤ) (c c1 : Calibrator k o x)
      → add_measurement k o x timestamp c ≡ (ok tt, c1)
      → add_measurement_of m timestamp c ≡ (ok tt, pushed m timestamp c1)
  unfolding add_pose_measurement add_left_wheel_measurement add_right_wheel_measurement
  push_stages (of_pose m) timestamp c c1 e = rw e refl
  push_stages (of_left_wheel m) timestamp c c1 e = rw e refl
  push_stages (of_right_wheel m) timestamp c c1 e = rw e refl

  -- The fitting of splines, their evaluation and the conversions to `int` in `initSplines` are
  -- taken to return, on any time stamps. Then a measurement of any sensor is taken without an
  -- exception, on a calibrator whose estimator is in order. It is the last of its buffer. Before
  -- that, where the window is over and has two poses, what was in the buffers became a batch with
  -- exactly one new error term for each measurement that is not passed over, so that the
  -- measurement that ends a window is the first of the next; else the buffers are as they were.
  pub add_measurement_of_lem :
      (m : Measurement) (timestamp : ℤ) (c : Calibrator k o x)
      → IsCalibrating k o x c
      → length c.batches + 1 < size_t_mod
      → (c1 : Calibrator k o x) × (add_measurement_of m timestamp c
          ≡ (ok tt, pushed m timestamp c1))
        × IsCalibrating k o x (pushed m timestamp c1)
        × Noted timestamp c c1
  add_measurement_of_lem m timestamp c v room =
      let (c1, run, v1, how) = add_measurement_lem timestamp c v room in
      (c1, push_stages m timestamp c c1 run, pushed-IsCalibrating m timestamp c1 v1, how)

  pub Offered-batches :
      (c c' : Calibrator k o x) → Offered k o x c c' → length c'.batches ≡ length c.batches + 1
  Offered-batches c c' f =
      ap (λ (d : Calibrator k o x). length d.batches) f.after
      ∙ length-append f.building.calibrator.batches (f.building.batch ∷ [])
      ∙ omega (arith, ap length f.made.batches)

  -- The estimator has taken the new batch, or has the batches that it had.
  abbrev pub Decision : Calibrator k o x → Calibrator k o x → Type 0
  Decision c c1 =
      (problems k o x c1 ≡ problems k o x c ++ length c.batches ∷ [])
      ⊎ ((b : ℕ) → count b (problems k o x c1) ≡ count b (problems k o x c))

  Offered-Decision : (c c1 : Calibrator k o x) → Offered k o x c c1 → Decision c c1
  Offered-Decision c c1 f =
      let w = f.building.calibrator in
      let same : problems k o x w ≡ problems k o x c =
        ap (λ (e : IncrementalEstimator k o). e.problem.optimization_problems) f.made.estimator in
      elim f.outcome [
        | inl accepted ↦ inl (
            accepted.problems
            ∙ ap (λ l. l ++ length w.batches ∷ []) same
            ∙ ap (λ n. problems k o x c ++ n ∷ []) (ap length f.made.batches))
        | inr rejected ↦ inr (λ b. rejected.problems b ∙ ap (count b) same)
      ]

  -- What a window that ends leaves: one more batch, on which the estimator has decided, one more entry
  -- in each history, and empty buffers of a window that starts now.
  pub record Ended (timestamp : ℤ) (c c1 : Calibrator k o x) : Type 0 where
    pub batches : length c1.batches ≡ length c.batches + 1
    pub decision : Decision c c1
    pub info_gain_history : length c1.info_gain_history ≡ length c.info_gain_history + 1
    pub odometry_variables_history :
        length c1.odometry_variables_history ≡ length c.odometry_variables_history + 1
    pub start : c1.current_batch_start_timestamp ≡ timestamp
    pub poses : c1.pose_measurements ≡ []
    pub left : c1.left_wheel_speed_measurements ≡ []
    pub right : c1.right_wheel_speed_measurements ≡ []

  Offered-Ended :
      (timestamp : ℤ) (c c1 : Calibrator k o x)
      → Offered k o x (noted k o x timestamp c) c1
      → Ended timestamp c c1
  Offered-Ended timestamp c c1 f =
      let w = f.building.calibrator in
      record {
        batches = Offered-batches (noted k o x timestamp c) c1 f;
        decision = Offered-Decision (noted k o x timestamp c) c1 f;
        info_gain_history =
            ap (λ (d : Calibrator k o x). length d.info_gain_history) f.after
            ∙ length-append w.info_gain_history (f.ret.information_gain ∷ [])
            ∙ omega (arith, ap length f.made.info_gain_history);
        odometry_variables_history =
            ap (λ (d : Calibrator k o x). length d.odometry_variables_history) f.after
            ∙ length-append w.odometry_variables_history (_ ∷ [])
            ∙ omega (arith, ap length f.made.odometry_variables_history);
        start =
            ap (λ (d : Calibrator k o x). d.current_batch_start_timestamp) f.after ∙ f.made.start;
        poses = ap (λ (d : Calibrator k o x). d.pose_measurements) f.after ∙ f.made.poses;
        left = ap (λ (d : Calibrator k o x). d.left_wheel_speed_measurements) f.after ∙ f.made.left;
        right =
            ap (λ (d : Calibrator k o x). d.right_wheel_speed_measurements) f.after ∙ f.made.right;
      }

  -- The fitting of splines, their evaluation and the conversions to `int` in `initSplines` are
  -- taken to return, on any time stamps. Then, once a window is over and has two poses, the next
  -- measurement of any sensor, whichever it is, makes one more batch: the estimator has it as its
  -- last batch or has the batches that it had, both histories grow by one entry, the window starts
  -- at the time stamp of this measurement, and the measurement is the only one that is buffered.
  pub window_ends :
      (m : Measurement) (timestamp : ℤ) (c : Calibrator k o x)
      → IsCalibrating k o x c
      → length c.batches + 1 < size_t_mod
      → is_window_over k o x (noted k o x timestamp c) ≡ true
      → 2 ≤ length c.pose_measurements
      → (c1 : Calibrator k o x) × (add_measurement_of m timestamp c
          ≡ (ok tt, pushed m timestamp c1))
        × Ended timestamp c c1
  window_ends m timestamp c v room over two =
      let (c1, run, v', how) = add_measurement_of_lem m timestamp c v room in (c1, run, ends c1 how)
    where
      ends : (c1 : Calibrator k o x) → Noted timestamp c c1 → Ended timestamp c c1
      ends c1 (inl (inl going, same)) = absurd (ground (arith, over, going))
      ends c1 (inl (inr few, same)) = absurd (omega (arith, few, two))
      ends c1 (inr (over', two', f)) = Offered-Ended timestamp c c1 f
