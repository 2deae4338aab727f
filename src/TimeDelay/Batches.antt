-- ===== src/TimeDelay/Batches.antt =====
-- `addMeasurements` of algo/Calibrator.cpp of
-- incremental_calibration_examples/incremental_calibration_examples_time_delay/src: the measurements
-- become a batch and the estimator decides on it.
use aslam_incremental_calibr.Common.{
  ℕ, ◌+◌, ◌≡◌, ◌≤◌, refl, sym, ◌∙◌, ap, subst, true, false, [], ◌∷◌, ◌++◌, some, length,
  length-append, member, member-count, ok, arith, inl, inr, ◌⊎◌, length_eq_of_count,
}
use aslam_incremental_calibr.Backend.{Backend}
use aslam_incremental_calibr.Optimizer.{Optimizer}
use aslam_incremental_calibr.Expressions.{Expressions}
use aslam_incremental_calibr.Problem.{OptimizationProblem}
use aslam_incremental_calibr.Spline.{OptimizationProblemSpline}
use aslam_incremental_calibr.Incremental.{IncrementalOptimizationProblem}
use aslam_incremental_calibr.Incremental.Uses.{member-append}
use aslam_incremental_calibr.Incremental.Invariant.{IsValid}
use aslam_incremental_calibr.Incremental.Frame.{IsValid-congr}
use aslam_incremental_calibr.Estimator.{Session, ReturnValue, IncrementalEstimator}
use aslam_incremental_calibr.Estimator.Run.{add_batch}
use aslam_incremental_calibr.Estimator.Outcome.{Accepted, Rejected}
use aslam_incremental_calibr.TimeDelay.{Calibrator, variables_in, problem_in}
use aslam_incremental_calibr.TimeDelay.Odometry.{get_parameters}
use aslam_incremental_calibr.TimeDelay.Run.{Building, estimate, finish}
use aslam_incremental_calibr.TimeDelay.Gather.{variables_in-append}
use aslam_incremental_calibr.TimeDelay.Made.{Made}
use aslam_incremental_calibr.TimeDelay.Calibrating.{problems, Stored, Stored-later, IsCalibrating}
use aslam_incremental_calibr.TimeDelay.Offer.{IsNew, last_batch, last_kinds, same_batch}

module _ (k : Backend) (o : Optimizer k) (x : Expressions k o) where
  -- The calibrator after the estimator's decision on a batch.
  abbrev pub decided :
      Calibrator k o x
      → OptimizationProblemSpline k o x
      → ReturnValue k o
      → Session k o
      → Calibrator k o x
  decided c p ret s' = record c {
    batches = c.batches ++ p ∷ [];
    estimator = s';
    info_gain_history = c.info_gain_history ++ ret.information_gain ∷ [];
    odometry_variables_history =
        c.odometry_variables_history
        ++ get_parameters k o x c.odometry_design_variables s'.store ∷ [];
  }

  pub finish_stages :
      (c : Calibrator k o x) (p : OptimizationProblemSpline k o x) (ret : ReturnValue k o)
      (s' : Session k o)
      → add_batch k o
          (problem_in k o x (c.batches ++ p ∷ []))
          (some (length c.batches))
          false
          c.estimator
        ≡ (ok ret, s')
      → finish k o x (length c.batches) (record c { batches = c.batches ++ p ∷ [] })
        ≡ (ok tt, decided c p ret s')
  unfolding finish estimate
  finish_stages c p ret s' e = rw e refl

  -- Making the batch touches nothing that the estimator has.
  pub Made-IsCalibrating :
      (c : Calibrator k o x) (w : Building k o x)
      → IsCalibrating k o x c
      → Made k o x c w
      → IsCalibrating k o x w.calibrator
        × IsNew k o x w.calibrator w.batch c.next_design_variable w.calibrator.next_design_variable
            (length c.error_terms)
  Made-IsCalibrating c w v m = (
    record {
      variables = m.variables ∙ v.variables;
      next = omega (arith, m.next, v.next);
      marg_group_id =
          ap (λ (e : IncrementalEstimator k o). e.marg_group_id) m.estimator ∙ v.marg_group_id;
      valid = subst (IsValid _ _) (sym same_problem) congruent;
      stored = λ b n.
          Stored-later k o x b more_terms (omega (arith, ap length m.batches))
            (ap (λ l. problem_in k o x l b) m.batches) (v.stored b (old b n));
      few = omega (arith, v.few, ap length same_problems, ap length m.batches);
      offered = ap length m.info_gain_history ∙ v.offered ∙ ap length (sym m.batches);
      recorded =
          omega (arith, ap length m.odometry_variables_history, v.recorded, ap length m.batches);
    },
    record {
      holds = m.holds;
      older = λ b et n e.
          (v.stored b (old b n)).terms et
            (subst (λ l. member et (problem_in k o x l b).error_terms ≡ true) m.batches e);
    },
  )
    where
      same_problem : w.calibrator.estimator.estimator.problem ≡ c.estimator.estimator.problem
      same_problem = ap (λ (e : IncrementalEstimator k o). e.problem) m.estimator

      same_problems : problems k o x w.calibrator ≡ problems k o x c
      same_problems =
          ap (λ (p : IncrementalOptimizationProblem k.Params). p.optimization_problems) same_problem

      old :
          (b : ℕ)
          → member b (problems k o x w.calibrator) ≡ true
          → member b (problems k o x c) ≡ true
      old b n = ap (member b) (sym same_problems) ∙ n

      more_terms : length c.error_terms ≤ length w.calibrator.error_terms
      more_terms = omega (arith, ap length m.error_terms, length-append c.error_terms _)

      congruent :
          IsValid
            (variables_in k o x w.calibrator.error_terms)
            (problem_in k o x w.calibrator.batches)
            c.estimator.estimator.problem
      congruent =
          IsValid-congr c.estimator.estimator.problem v.valid
            (λ b n. ap (λ l. problem_in k o x l b) m.batches)
            (λ b et n e.
              ap (λ l. variables_in k o x l et) m.error_terms
              ∙ variables_in-append k o x c.error_terms _ et ((v.stored b n).terms et e))

  -- The batch was accepted or rejected.
  abbrev pub Outcome :
      Calibrator k o x → OptimizationProblemSpline k o x → ReturnValue k o → Session k o → Type 0
  Outcome c p ret s' =
      Accepted k o (variables_in k o x c.error_terms) (problem_in k o x (c.batches ++ p ∷ []))
        c.estimator s' (length c.batches) ret
      ⊎ Rejected k o (variables_in k o x c.error_terms) (problem_in k o x (c.batches ++ p ∷ []))
          c.estimator s' (length c.batches) ret

  module _ (c : Calibrator k o x) (p : OptimizationProblemSpline k o x) (first upto first_term : ℕ)
      (v : IsCalibrating k o x c) (new : IsNew k o x c p first upto first_term) where
    -- The batches after the decision: those before, and at most the new one.
    pub record Ends (s' : Session k o) : Type 0 where
      pub marg_group_id : s'.estimator.marg_group_id ≡ c.estimator.estimator.marg_group_id
      pub members :
          (b : ℕ)
          → member b s'.estimator.problem.optimization_problems ≡ true
          → (member b (problems k o x c) ≡ true) ⊎ (b ≡ length c.batches)
      pub few : length s'.estimator.problem.optimization_problems ≤ length (problems k o x c) + 1

    pub ends : (ret : ReturnValue k o) (s' : Session k o) → Outcome c p ret s' → Ends s'
    ends ret s' (inl a) = record {
      marg_group_id = a.marg_group_id;
      members = λ b m. ground (
        arith,
        m,
        ap (member b) a.problems,
        member-append (problems k o x c) (length c.batches ∷ []) b,
      );
      few =
          omega
            (arith, ap length a.problems, length-append (problems k o x c) (length c.batches ∷ []));
    }
    ends ret s' (inr r) = record {
      marg_group_id = ap (λ (e : IncrementalEstimator k o). e.marg_group_id) r.estimator;
      members = λ b m. inl (
          ground (
            arith,
            m,
            r.problems b,
            member-count b s'.estimator.problem.optimization_problems,
            member-count b (problems k o x c),
          ));
      few = omega (
        arith,
        length_eq_of_count s'.estimator.problem.optimization_problems (problems k o x c) r.problems,
      );
    }

    pub decided-IsCalibrating :
        (ret : ReturnValue k o) (s' : Session k o)
        → IsValid
            (variables_in k o x c.error_terms)
            (problem_in k o x (c.batches ++ p ∷ []))
            s'.estimator.problem
        → Ends s'
        → IsCalibrating k o x (decided c p ret s')
    decided-IsCalibrating ret s' valid e = record {
      variables = v.variables;
      next = v.next;
      marg_group_id = e.marg_group_id ∙ v.marg_group_id;
      valid = valid;
      stored = λ b m. elim (e.members b m) [
        | inl before ↦
            Stored-later k o x b (omega arith) (omega (arith, longer))
              (same_batch k o x c p first upto first_term v new b before) (v.stored b before)
        | inr last ↦ subst (Stored k o x c.error_terms (c.batches ++ p ∷ [])) (sym last) last-Stored
      ];
      few = omega (arith, e.few, v.few, longer);
      offered =
          omega (
            arith,
            length-append c.info_gain_history (ret.information_gain ∷ []),
            longer,
            v.offered,
          );
      recorded = omega (
        arith,
        length-append c.odometry_variables_history
            (get_parameters k o x c.odometry_design_variables s'.store ∷ []),
        longer,
        v.recorded,
      );
    }
      where
        longer : length (c.batches ++ p ∷ []) ≡ length c.batches + 1
        longer = length-append c.batches (p ∷ [])

        last-Stored : Stored k o x c.error_terms (c.batches ++ p ∷ []) (length c.batches)
        last-Stored = record {
          allocated = omega (arith, longer);
          kinds = last_kinds k o x c p first upto first_term v new;
          terms = λ et m.
              let in_p : member et p.problem.error_terms ≡ true =
                subst (λ (q : OptimizationProblem k.Params). member et q.error_terms ≡ true)
                  (last_batch k o x c p first upto first_term v new) m in
              ground (arith, new.holds.terms et, in_p);
        }
