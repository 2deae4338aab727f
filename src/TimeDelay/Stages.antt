-- ===== src/TimeDelay/Stages.antt =====
-- The steps by which `addMeasurements` of algo/Calibrator.cpp of
-- incremental_calibration_examples/incremental_calibration_examples_time_delay/src makes a
-- batch: splines, their design variables and the error terms of measurements.
use aslam_incremental_calibr.Common.{
  ℕ, ◌+◌, ◌≡◌, ◌≤◌, ◌<◌, refl, sym, ◌∙◌, subst, List, [], ◌∷◌, ◌++◌, length, length-append, ok,
  arith, append_assoc,
}
use aslam_incremental_calibr.Backend.{Backend}
use aslam_incremental_calibr.Optimizer.{Optimizer}
use aslam_incremental_calibr.Expressions.{Expressions}
use aslam_incremental_calibr.Problem.{OptimizationProblem}
use aslam_incremental_calibr.Spline
use aslam_incremental_calibr.Spline.{SplineOf, Inserting}
use aslam_incremental_calibr.TimeDelay.{Calibrator, PoseMeasurements, WheelSpeedMeasurements}
use aslam_incremental_calibr.TimeDelay.Odometry.{OdometryDesignVariables, pointers_from}
use aslam_incremental_calibr.TimeDelay.Terms.{Splines, pointers, init_splines, with_splines}
use aslam_incremental_calibr.TimeDelay.Wheels.{left_wheel, right_wheel}
use aslam_incremental_calibr.TimeDelay.Run.{
  Building, pose_terms, wheel_terms, add_pose_error_terms, add_left_wheel_error_terms,
  add_right_wheel_error_terms,
}
use aslam_incremental_calibr.TimeDelay.Contents.{within, Holds}
use aslam_incremental_calibr.TimeDelay.Gather.{
  chosen, add_each_lem, with_terms, add_variables_lem, Fills,
}
use aslam_incremental_calibr.TimeDelay.Closed.{
  Inside, member-pointers, pose_terms-AllOver, wheel_terms-AllOver,
}

module _ (k : Backend) (o : Optimizer k) (x : Expressions k o) where
  open x use {TranslationCurve, RotationCurve, translation_size, rotation_size, ErrorTerm}

  pub init_splines_lem :
      (measurements : PoseMeasurements k o x) (c : Calibrator k o x)
      → 0 < length measurements
      → (t : TranslationCurve) × (r : RotationCurve) × (init_splines k o x measurements c
          ≡ with_splines k o x t r c)
  unfolding init_splines
  init_splines_lem [] c pos = absurd (omega (arith, pos))
  init_splines_lem ((timestamp, m) ∷ rest) c pos = (_, _, refl)

  abbrev pub new_translation : TranslationCurve → Calibrator k o x → SplineOf TranslationCurve
  new_translation t c = record {
    curve = t;
    design_variables = pointers c.next_design_variable (translation_size t);
  }

  abbrev pub new_rotation :
      TranslationCurve → RotationCurve → Calibrator k o x → SplineOf RotationCurve
  new_rotation t r c = record {
    curve = r;
    design_variables = pointers (c.next_design_variable + translation_size t) (rotation_size r);
  }

  -- The pointer after those of the new splines.
  abbrev pub beyond : TranslationCurve → RotationCurve → Calibrator k o x → ℕ
  beyond t r c = c.next_design_variable + translation_size t + rotation_size r

  pub new_splines-Inside :
      (t : TranslationCurve) (r : RotationCurve) (c : Calibrator k o x)
      (d : OdometryDesignVariables)
      → d ≡ pointers_from 0
      → Inside k o x
          (within c.next_design_variable (beyond t r c))
          d
          (new_translation t c, new_rotation t r c)
  new_splines-Inside t r c d e =
      subst
        (λ y.
          Inside k o x (within c.next_design_variable (beyond t r c)) y
            (new_translation t c, new_rotation t r c))
        (sym e)
        (record {
          b = refl;
          k_l = refl;
          t_l = refl;
          k_r = refl;
          t_r = refl;
          v_r_vp = refl;
          v_R_p = refl;
          translation = λ dv m.
              ground (arith, m, member-pointers c.next_design_variable (translation_size t) dv);
          rotation = λ dv m. ground (
            arith,
            m,
            member-pointers (c.next_design_variable + translation_size t) (rotation_size r) dv,
          );
        })

  -- The calls of `addSpline`, which differ only in the list that keeps the spline.
  pub add_splines :
      {variables : ℕ → List ℕ} (t : TranslationCurve) (r : RotationCurve) (c : Calibrator k o x)
      (first_term next_term : ℕ) (i : Inserting k o x)
      → 7 ≤ c.next_design_variable
      → Holds variables c.next_design_variable c.next_design_variable first_term next_term
          i.batch.problem
      → (j : Inserting k o x) × (l : Inserting k o x) × (Spline.add_translation_spline k o x
            (new_translation t c)
            0
            i
          ≡ (ok tt, j))
        × (Spline.add_rotation_spline k o x (new_rotation t r c) 0 j ≡ (ok tt, l))
        × Holds variables c.next_design_variable (beyond t r c) first_term next_term l.batch.problem
        × (l.batch.translation_splines ≡ i.batch.translation_splines ++ new_translation t c ∷ [])
        × (l.batch.rotation_splines ≡ i.batch.rotation_splines ++ new_rotation t r c ∷ [])
  unfolding Spline.add_translation_spline Spline.add_rotation_spline
  add_splines {variables} t r c first_term next_term i low h =
      let first = c.next_design_variable in
      let (s, p, adds, h1) =
        add_variables_lem k o x {variables = variables} first first (translation_size t) first_term
          next_term i low (omega arith) h in
      let j : Inserting k o x = record {
        batch = record i.batch {
          problem = p;
          translation_splines = i.batch.translation_splines ++ new_translation t c ∷ [];
        };
        store = s;
      } in
      let (s', q, adds', h2) =
        add_variables_lem k o x {variables = variables} first (first + translation_size t)
          (rotation_size r) first_term next_term j low (omega arith) h1 in
      let l : Inserting k o x = record {
        batch = record j.batch {
          problem = q;
          rotation_splines = j.batch.rotation_splines ++ new_rotation t r c ∷ [];
        };
        store = s';
      } in
      (j, l, rw adds refl, rw adds' refl, h2, refl, refl)

  -- The three loops over measurements.
  pub add_terms :
      (first upto first_term : ℕ) (w : Building k o x) (sp : Splines k o x)
      (poses : PoseMeasurements k o x) (left right : WheelSpeedMeasurements k o x)
      → first_term ≤ length w.calibrator.error_terms
      → Fills k o x first upto first_term w.calibrator.error_terms w.batch.problem
      → Inside k o x (within first upto) w.calibrator.odometry_design_variables sp
      → (w1 : Building k o x) × (w2 : Building k o x) × (terms : List ErrorTerm)
        × (p : OptimizationProblem k.Params) × (add_pose_error_terms k o x poses sp w ≡ (ok tt, w1))
        × (add_left_wheel_error_terms k o x left sp w1 ≡ (ok tt, w2))
        × (add_right_wheel_error_terms k o x right sp w2 ≡ (ok tt, with_terms k o x w terms p))
        × (terms
            ≡ w.calibrator.error_terms
              ++ (chosen (pose_terms k o x w.calibrator sp poses)
                  ++ (chosen
                        (wheel_terms k o x w.calibrator sp (left_wheel k o x w.calibrator) left)
                      ++ chosen (
                          wheel_terms k o x w.calibrator sp
                            (right_wheel k o x w.calibrator)
                            right))))
        × Fills k o x first upto first_term terms p
  unfolding add_pose_error_terms add_left_wheel_error_terms add_right_wheel_error_terms pose_terms
      wheel_terms
  add_terms first upto first_term w sp poses left right le h inside =
      let c = w.calibrator in
      let all = within first upto in
      let ps = pose_terms k o x c sp poses in
      let ls = wheel_terms k o x c sp (left_wheel k o x c) left in
      let rs = wheel_terms k o x c sp (right_wheel k o x c) right in
      let (p, run, h1) =
        add_each_lem k o x first upto first_term ps w le h
          (pose_terms-AllOver k o x all c sp poses inside) in
      let (q, run', h2) =
        add_each_lem k o x first upto first_term ls
          (with_terms k o x w (c.error_terms ++ chosen ps) p)
          (omega (arith, length-append c.error_terms (chosen ps))) h1
          (wheel_terms-AllOver k o x all c sp (left_wheel k o x c) left inside inside.t_l
            inside.k_l) in
      let (z, run'', h3) =
        add_each_lem k o x first upto first_term rs
          (with_terms k o x w ((c.error_terms ++ chosen ps) ++ chosen ls) q)
          (omega (
            arith,
            length-append c.error_terms (chosen ps),
            length-append (c.error_terms ++ chosen ps) (chosen ls),
          ))
          h2
          (wheel_terms-AllOver k o x all c sp (right_wheel k o x c) right inside inside.t_r
            inside.k_r) in
      (
        _,
        _,
        _,
        z,
        run,
        run',
        run'',
        append_assoc (c.error_terms ++ chosen ps) (chosen ls) (chosen rs)
            ∙ append_assoc c.error_terms (chosen ps) (chosen ls ++ chosen rs),
        h3,
      )
