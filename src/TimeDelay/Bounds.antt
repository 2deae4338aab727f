-- ===== src/TimeDelay/Bounds.antt =====
-- Sequences of calls of algo/Calibrator.cpp of
-- incremental_calibration_examples/incremental_calibration_examples_time_delay/src keep the
-- buffers within the window.
use aslam_incremental_calibr.Common.{
  ◌+◌, ◌≡◌, ◌<◌, refl, sym, ◌∙◌, ap, subst, List, [], ◌∷◌, ℤ, pos, ◌≤ℤ◌, length, ok, arith, inl,
  inr,
}
use aslam_incremental_calibr.Backend.{Backend}
use aslam_incremental_calibr.Optimizer.{Optimizer}
use aslam_incremental_calibr.Expressions.{Expressions}
use aslam_incremental_calibr.TimeDelay.{Calibrator, clear_predictions, clear_measurements}
use aslam_incremental_calibr.TimeDelay.Run.{noted}
use aslam_incremental_calibr.Incremental.{size_t_mod}
use aslam_incremental_calibr.TimeDelay.Calibrating.{IsCalibrating}
use aslam_incremental_calibr.TimeDelay.Measure.{
  Measurement, of_pose, of_left_wheel, of_right_wheel, pushed, Noted,
}
use aslam_incremental_calibr.TimeDelay.History.{
  Event, measures, run, run-suc, step_lem, step_batches, adds_measurements, clears_measurements,
  clears_predictions, Stepped,
}
use aslam_incremental_calibr.TimeDelay.Window.{IsWindowed, Offered-Empty, InTime, step-IsWindowed}

module _ (k : Backend) (o : Optimizer k) (x : Expressions k o) where
  -- The last time stamp after a call.
  abbrev last_after : Event k o x → ℤ → ℤ
  last_after (measures m timestamp) last = timestamp
  last_after adds_measurements last = last
  last_after clears_measurements last = last
  last_after clears_predictions last = last

  pushed_last :
      (m : Measurement k o x) (timestamp : ℤ) (c : Calibrator k o x)
      → (pushed k o x m timestamp c).last_timestamp ≡ c.last_timestamp
  pushed_last (of_pose m) timestamp c = refl
  pushed_last (of_left_wheel m) timestamp c = refl
  pushed_last (of_right_wheel m) timestamp c = refl

  Noted-last :
      (timestamp : ℤ) (c c1 : Calibrator k o x)
      → Noted k o x timestamp c c1
      → c1.last_timestamp ≡ timestamp
  Noted-last timestamp c c1 (inl (why, same)) = ap (λ (d : Calibrator k o x). d.last_timestamp) same
  Noted-last timestamp c c1 (inr (over, two, offered)) =
      (Offered-Empty k o x (noted k o x timestamp c) c1 offered).2

  step_last :
      (event : Event k o x) (c c' : Calibrator k o x)
      → Stepped k o x event c c'
      → c'.last_timestamp ≡ last_after event c.last_timestamp
  unfolding clear_measurements clear_predictions
  step_last (measures m timestamp) c c' (c1, same, how) =
      ap (λ (d : Calibrator k o x). d.last_timestamp) same
      ∙ pushed_last m timestamp c1
      ∙ Noted-last timestamp c c1 how
  step_last adds_measurements c c' (inl (few, same)) =
      ap (λ (d : Calibrator k o x). d.last_timestamp) same
  step_last adds_measurements c c' (inr (two, offered)) = (Offered-Empty k o x c c' offered).2
  step_last clears_measurements c c' same = ap (λ (d : Calibrator k o x). d.last_timestamp) same
  step_last clears_predictions c c' same = ap (λ (d : Calibrator k o x). d.last_timestamp) same

  -- Time stamps that are not negative and never go back.
  abbrev pub Timely : ℤ → List (Event k o x) → Type 0
  Timely last [] = Unit {0}
  Timely last (measures m timestamp ∷ events) =
      ((last ≤ℤ timestamp) × (pos 0 ≤ℤ timestamp)) × Timely timestamp events
  Timely last (adds_measurements ∷ events) = Timely last events
  Timely last (clears_measurements ∷ events) = Timely last events
  Timely last (clears_predictions ∷ events) = Timely last events

  timely :
      (event : Event k o x) (events : List (Event k o x)) (c : Calibrator k o x)
      → Timely c.last_timestamp (event ∷ events)
      → InTime k o x event c × Timely (last_after event c.last_timestamp) events
  timely (measures m timestamp) events c (now, later) = (now, later)
  timely adds_measurements events c later = (tt, later)
  timely clears_measurements events c later = (tt, later)
  timely clears_predictions events c later = (tt, later)

  -- Calls with time stamps that are not negative and never go back keep the buffered measurements of
  -- all three sensors within the window: no time stamp is before the start of the window or after the
  -- last one, and as long as there is no window nothing is buffered.
  pub run-IsWindowed :
      (events : List (Event k o x)) (c : Calibrator k o x)
      → IsCalibrating k o x c
      → length c.batches + length events < size_t_mod
      → IsWindowed k o x c
      → Timely c.last_timestamp events
      → (c' : Calibrator k o x) × (run k o x events c ≡ (ok tt, c')) × IsWindowed k o x c'
  unfolding run
  run-IsWindowed [] c v room w late = (c, refl, w)
  run-IsWindowed (event ∷ events) c v room w late =
      let (c1, done, v1, how) = step_lem k o x event c v (omega (arith, room)) in
      let one_more = step_batches k o x event c c1 how in
      let (now, later) = timely event events c late in
      let (c', rest, w') =
        run-IsWindowed events c1 v1 (omega (arith, room, one_more))
          (step-IsWindowed k o x event c c1 w now how)
          (subst (λ t. Timely t events) (sym (step_last event c c1 how)) later) in
      (c', run-suc k o x event events c c1 done ∙ rest, w')
