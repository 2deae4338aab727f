-- ===== src/TimeDelay/Windows.antt =====
-- What a call of `addMeasurements` or of an `add...Measurement` does in algo/Calibrator.cpp of
-- incremental_calibration_examples/incremental_calibration_examples_time_delay/src.
use aslam_incremental_calibr.Common.{
  ◌+◌, ◌≡◌, ◌≤◌, ◌<◌, refl, ap, ℤ, length, ok, arith, inl, inr, Bool-cases, ◌⊎◌, ltb,
}
use aslam_incremental_calibr.Backend.{Backend}
use aslam_incremental_calibr.Optimizer.{Optimizer}
use aslam_incremental_calibr.Expressions.{Expressions}
use aslam_incremental_calibr.Incremental.{size_t_mod}
use aslam_incremental_calibr.Estimator.{ReturnValue}
use aslam_incremental_calibr.TimeDelay.{Calibrator, PoseMeasurements, WheelSpeedMeasurements}
use aslam_incremental_calibr.TimeDelay.Run.{Building, offer, add_measurements}
use aslam_incremental_calibr.TimeDelay.Made.{Made, fill_batch_lem}
use aslam_incremental_calibr.TimeDelay.Calibrating.{IsCalibrating}
use aslam_incremental_calibr.TimeDelay.Offer.{add_batch_lem}
use aslam_incremental_calibr.TimeDelay.Batches.{
  decided, finish_stages, Made-IsCalibrating, Outcome, ends, decided-IsCalibrating,
}

module _ (k : Backend) (o : Optimizer k) (x : Expressions k o) where
  -- The measurements have become the last batch, and the estimator has accepted or rejected it.
  pub record Offered (c c' : Calibrator k o x) : Type 0 where
    pub building : Building k o x
    pub made : Made k o x c building
    pub ret : ReturnValue k o
    pub outcome : Outcome k o x building.calibrator building.batch ret c'.estimator
    pub after : c' ≡ decided k o x building.calibrator building.batch ret c'.estimator

  -- The buffers, the predictions and the time stamps play no part in the invariant.
  pub buffers-IsCalibrating :
      (c : Calibrator k o x) (start last : ℤ) (poses : PoseMeasurements k o x)
      (left right : WheelSpeedMeasurements k o x)
      → IsCalibrating k o x c
      → IsCalibrating k o x (record c {
        current_batch_start_timestamp = start;
        last_timestamp = last;
        pose_measurements = poses;
        left_wheel_speed_measurements = left;
        right_wheel_speed_measurements = right;
      })
  buffers-IsCalibrating c start last poses left right v = record {
    variables = v.variables;
    next = v.next;
    marg_group_id = v.marg_group_id;
    valid = v.valid;
    stored = v.stored;
    few = v.few;
    offered = v.offered;
    recorded = v.recorded;
  }

  -- What `addMeasurements` has done, with fewer than two poses or with more.
  abbrev pub Added : Calibrator k o x → Calibrator k o x → Type 0
  Added c c' =
      ((length c.pose_measurements < 2) × (c' ≡ c))
      ⊎ ((2 ≤ length c.pose_measurements) × Offered c c')

  pub add_measurements_lem :
      (c : Calibrator k o x)
      → IsCalibrating k o x c
      → length c.batches + 1 < size_t_mod
      → (c' : Calibrator k o x) × (add_measurements k o x c ≡ (ok tt, c'))
        × IsCalibrating k o x c'
        × Added c c'
  unfolding add_measurements offer
  add_measurements_lem c v room = elim (Bool-cases (ltb (length c.pose_measurements) 2)) [
    | inl few ↦ (c, rw few refl, v, inl (ground (arith, few), refl))
    | inr enough ↦
        let two : 2 ≤ length c.pose_measurements = ground (arith, enough) in
        let (w, filled, made) = fill_batch_lem k o x c v.variables v.next (omega (arith, two)) in
        let (vw, new) = Made-IsCalibrating k o x c w v made in
        let n = length c.error_terms in
        let first = c.next_design_variable in
        let upto = w.calibrator.next_design_variable in
        let (ret, s', run, valid, outcome) =
          add_batch_lem k o x w.calibrator w.batch first upto n vw new
            (omega (arith, room, ap length made.batches)) in
        let after = ends k o x w.calibrator w.batch first upto n vw new ret s' outcome in
        (
          decided k o x w.calibrator w.batch ret s',
          rw (enough, filled) (finish_stages k o x w.calibrator w.batch ret s' run),
          decided-IsCalibrating k o x w.calibrator w.batch first upto n vw new ret s' valid after,
          inr (
            two,
            record { building = w; made = made; ret = ret; outcome = outcome; after = refl },
          ),
        )
  ]
