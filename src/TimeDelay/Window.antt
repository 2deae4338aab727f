-- ===== src/TimeDelay/Window.antt =====
-- The window of algo/Calibrator.cpp of
-- incremental_calibration_examples/incremental_calibration_examples_time_delay/src: the time stamps
-- of the buffered measurements lie between its start and the last time stamp.
use aslam_incremental_calibr.Common.{
  ◌≡◌, refl, sym, ◌∙◌, ap, subst, true, false, [], ◌∷◌, ◌++◌, ℤ, pos, negsuc, ◌≤ℤ◌, eqz, arith, inl,
  inr, Bool-cases,
}
use aslam_incremental_calibr.Backend.{Backend}
use aslam_incremental_calibr.Optimizer.{Optimizer}
use aslam_incremental_calibr.Expressions.{Expressions}
use aslam_incremental_calibr.TimeDelay.{
  Calibrator, MeasurementsContainer, clear_predictions, clear_measurements,
}
use aslam_incremental_calibr.TimeDelay.Run.{noted}
use aslam_incremental_calibr.TimeDelay.Windows.{Offered}
use aslam_incremental_calibr.TimeDelay.Measure.{
  Measurement, of_pose, of_left_wheel, of_right_wheel, pushed, Noted,
}
use aslam_incremental_calibr.TimeDelay.History.{
  Event, measures, adds_measurements, clears_measurements, clears_predictions, Stepped,
}

-- Each time stamp lies between the two.
abbrev AllBetween : {M : Type 0} → ℤ → ℤ → MeasurementsContainer M → Type 0
AllBetween lower upper [] = Unit {0}
AllBetween lower upper ((timestamp, m) ∷ rest) =
    (lower ≤ℤ timestamp) × (timestamp ≤ℤ upper) × AllBetween lower upper rest

module _ {M : Type 0} where
  AllBetween-later :
      (lower upper upper' : ℤ) (ms : MeasurementsContainer M)
      → upper ≤ℤ upper'
      → AllBetween lower upper ms
      → AllBetween lower upper' ms
  AllBetween-later lower upper upper' [] le all = tt
  AllBetween-later lower upper upper' ((t, m) ∷ ms) le (low, high, all) =
      (low, omega (arith, le, high), AllBetween-later lower upper upper' ms le all)

  AllBetween-append :
      (lower upper t : ℤ) (m : M) (ms : MeasurementsContainer M)
      → lower ≤ℤ t
      → t ≤ℤ upper
      → AllBetween lower upper ms
      → AllBetween lower upper (ms ++ (t, m) ∷ [])
  AllBetween-append lower upper t m [] low high all = (low, high, tt)
  AllBetween-append lower upper t m ((s, n) ∷ ms) low high (l, h, all) =
      (l, h, AllBetween-append lower upper t m ms low high all)

module _ (k : Backend) (o : Optimizer k) (x : Expressions k o) where
  abbrev Between : ℤ → ℤ → Calibrator k o x → Type 0
  Between lower upper c =
      AllBetween lower upper c.pose_measurements
      × AllBetween lower upper c.left_wheel_speed_measurements
      × AllBetween lower upper c.right_wheel_speed_measurements

  abbrev Empty : Calibrator k o x → Type 0
  Empty c =
      (c.pose_measurements ≡ [])
      × (c.left_wheel_speed_measurements ≡ [])
      × (c.right_wheel_speed_measurements ≡ [])

  -- The buffers are within the window, and empty as long as no window was started.
  pub record IsWindowed (c : Calibrator k o x) : Type 0 where
    pub between : Between c.current_batch_start_timestamp c.last_timestamp c
    pub order : c.current_batch_start_timestamp ≤ℤ c.last_timestamp
    pub unstarted : eqz c.current_batch_start_timestamp (negsuc 0) ≡ true → Empty c

  Empty-Between : (lower upper : ℤ) (c : Calibrator k o x) → Empty c → Between lower upper c
  Empty-Between lower upper c (p, l, r) = (
    subst (AllBetween lower upper) (sym p) tt,
    subst (AllBetween lower upper) (sym l) tt,
    subst (AllBetween lower upper) (sym r) tt,
  )

  -- `addMeasurement` before it looks at the window.
  noted-Between :
      (timestamp : ℤ) (c : Calibrator k o x)
      → IsWindowed c
      → c.last_timestamp ≤ℤ timestamp
      → Between (noted k o x timestamp c).current_batch_start_timestamp timestamp c
  noted-Between timestamp c w le =
      elim (Bool-cases (eqz c.current_batch_start_timestamp (negsuc 0))) [
        | inl unset ↦
            Empty-Between (noted k o x timestamp c).current_batch_start_timestamp timestamp c
              (w.unstarted unset)
        | inr set' ↦ rw set' (
          AllBetween-later c.current_batch_start_timestamp c.last_timestamp timestamp
              c.pose_measurements le w.between.0,
          AllBetween-later c.current_batch_start_timestamp c.last_timestamp timestamp
              c.left_wheel_speed_measurements le w.between.1,
          AllBetween-later c.current_batch_start_timestamp c.last_timestamp timestamp
              c.right_wheel_speed_measurements le w.between.2,
        )
      ]

  pub Offered-Empty :
      (c c' : Calibrator k o x)
      → Offered k o x c c'
      → Empty c'
        × (c'.current_batch_start_timestamp ≡ c.last_timestamp)
        × (c'.last_timestamp ≡ c.last_timestamp)
  Offered-Empty c c' f = (
    (
      ap (λ (d : Calibrator k o x). d.pose_measurements) f.after ∙ f.made.poses,
      ap (λ (d : Calibrator k o x). d.left_wheel_speed_measurements) f.after ∙ f.made.left,
      ap (λ (d : Calibrator k o x). d.right_wheel_speed_measurements) f.after ∙ f.made.right,
    ),
    ap (λ (d : Calibrator k o x). d.current_batch_start_timestamp) f.after ∙ f.made.start,
    ap (λ (d : Calibrator k o x). d.last_timestamp) f.after ∙ f.made.last_timestamp,
  )

  -- What `addMeasurement` leaves for the measurement to be pushed.
  record Ready (timestamp : ℤ) (c : Calibrator k o x) : Type 0 where
    pub last : c.last_timestamp ≡ timestamp
    pub order : c.current_batch_start_timestamp ≤ℤ timestamp
    pub started : eqz c.current_batch_start_timestamp (negsuc 0) ≡ false
    pub between : Between c.current_batch_start_timestamp timestamp c

  not_negative : (timestamp : ℤ) → pos 0 ≤ℤ timestamp → eqz timestamp (negsuc 0) ≡ false
  not_negative (pos n) le = ground arith
  not_negative (negsuc n) le = absurd (omega (arith, le))

  noted-Ready :
      (timestamp : ℤ) (c : Calibrator k o x)
      → IsWindowed c
      → c.last_timestamp ≤ℤ timestamp
      → pos 0 ≤ℤ timestamp
      → Ready timestamp (noted k o x timestamp c)
  noted-Ready timestamp c w le nonneg = record {
    last = refl;
    order = ground (arith, w.order, le);
    started = ground (arith, not_negative timestamp nonneg);
    between = noted-Between timestamp c w le;
  }

  Noted-Ready :
      (timestamp : ℤ) (c c1 : Calibrator k o x)
      → IsWindowed c
      → c.last_timestamp ≤ℤ timestamp
      → pos 0 ≤ℤ timestamp
      → Noted k o x timestamp c c1
      → Ready timestamp c1
  Noted-Ready timestamp c c1 w le nonneg (inl (why, same)) =
      subst (Ready timestamp) (sym same) (noted-Ready timestamp c w le nonneg)
  Noted-Ready timestamp c c1 w le nonneg (inr (over, two, offered)) =
      let (empty, start, last) = Offered-Empty (noted k o x timestamp c) c1 offered in
      record {
        last = last;
        order = subst (λ t. t ≤ℤ timestamp) (sym start) (omega arith);
        started = subst (λ t. eqz t (negsuc 0) ≡ false) (sym start) (not_negative timestamp nonneg);
        between = Empty-Between c1.current_batch_start_timestamp timestamp c1 empty;
      }

  windowed :
      (timestamp : ℤ) (c : Calibrator k o x)
      → c.last_timestamp ≡ timestamp
      → c.current_batch_start_timestamp ≤ℤ timestamp
      → eqz c.current_batch_start_timestamp (negsuc 0) ≡ false
      → Between c.current_batch_start_timestamp timestamp c
      → IsWindowed c
  windowed timestamp c last order started between = record {
    between = subst (λ t. Between c.current_batch_start_timestamp t c) (sym last) between;
    order = subst (λ t. c.current_batch_start_timestamp ≤ℤ t) (sym last) order;
    unstarted = λ e. absurd (ground (arith, e, started));
  }

  pushed-IsWindowed :
      (m : Measurement k o x) (timestamp : ℤ) (c : Calibrator k o x)
      → Ready timestamp c
      → IsWindowed (pushed k o x m timestamp c)
  pushed-IsWindowed (of_pose m) timestamp c r =
      windowed timestamp (pushed k o x (of_pose m) timestamp c) r.last r.order r.started (
        AllBetween-append c.current_batch_start_timestamp timestamp timestamp m c.pose_measurements
            r.order (omega arith) r.between.0,
        r.between.1,
        r.between.2,
      )
  pushed-IsWindowed (of_left_wheel m) timestamp c r =
      windowed timestamp (pushed k o x (of_left_wheel m) timestamp c) r.last r.order r.started (
        r.between.0,
        AllBetween-append c.current_batch_start_timestamp timestamp timestamp m
            c.left_wheel_speed_measurements r.order (omega arith) r.between.1,
        r.between.2,
      )
  pushed-IsWindowed (of_right_wheel m) timestamp c r =
      windowed timestamp (pushed k o x (of_right_wheel m) timestamp c) r.last r.order r.started (
        r.between.0,
        r.between.1,
        AllBetween-append c.current_batch_start_timestamp timestamp timestamp m
            c.right_wheel_speed_measurements r.order (omega arith) r.between.2,
      )

  -- A time stamp that is not before the last one and not negative.
  abbrev pub InTime : Event k o x → Calibrator k o x → Type 0
  InTime (measures m timestamp) c = (c.last_timestamp ≤ℤ timestamp) × (pos 0 ≤ℤ timestamp)
  InTime adds_measurements c = Unit {0}
  InTime clears_measurements c = Unit {0}
  InTime clears_predictions c = Unit {0}

  pub step-IsWindowed :
      (event : Event k o x) (c c' : Calibrator k o x)
      → IsWindowed c
      → InTime event c
      → Stepped k o x event c c'
      → IsWindowed c'
  unfolding clear_measurements clear_predictions
  step-IsWindowed (measures m timestamp) c c' w (le, nonneg) (c1, same, how) =
      subst IsWindowed (sym same)
        (pushed-IsWindowed m timestamp c1 (Noted-Ready timestamp c c1 w le nonneg how))
  step-IsWindowed adds_measurements c c' w in_time (inl (few, same)) = subst IsWindowed (sym same) w
  step-IsWindowed adds_measurements c c' w in_time (inr (two, offered)) =
      let (empty, start, last) = Offered-Empty c c' offered in
      record {
        between = Empty-Between c'.current_batch_start_timestamp c'.last_timestamp c' empty;
        order =
            subst (λ t. t ≤ℤ c'.last_timestamp) (sym start)
              (subst (λ t. c.last_timestamp ≤ℤ t) (sym last) (omega arith));
        unstarted = λ e. empty;
      }
  step-IsWindowed clears_measurements c c' w in_time same =
      subst IsWindowed (sym same)
        (record { between = (tt, tt, tt); order = w.order; unstarted = λ e. (refl, refl, refl) })
  step-IsWindowed clears_predictions c c' w in_time same =
      subst IsWindowed (sym same)
        (record { between = w.between; order = w.order; unstarted = w.unstarted })
