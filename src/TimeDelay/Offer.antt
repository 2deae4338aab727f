-- ===== src/TimeDelay/Offer.antt =====
-- `addBatch` as algo/Calibrator.cpp of
-- incremental_calibration_examples/incremental_calibration_examples_time_delay/src calls it: on a new
-- batch over new error terms, with design variables in the groups of the batches before.
use aslam_incremental_calibr.Common.{
  ℕ, ◌+◌, ◌≡◌, ◌≤◌, ◌<◌, refl, sym, ◌∙◌, ap, subst, Bool, true, false, List, [], ◌∷◌, ◌++◌, some,
  length, member, member-count, Result, ok, arith, inl, inr, Bool-cases, ◌⊎◌,
}
use aslam_incremental_calibr.Backend.{Backend}
use aslam_incremental_calibr.Optimizer.{Optimizer}
use aslam_incremental_calibr.Expressions.{Expressions}
use aslam_incremental_calibr.Groups.Index.{owner-contains}
use aslam_incremental_calibr.Problem
use aslam_incremental_calibr.Problem.{OptimizationProblem}
use aslam_incremental_calibr.Problem.Invariant
use aslam_incremental_calibr.Spline.{OptimizationProblemSpline}
use aslam_incremental_calibr.Incremental.{size_t_mod, IncrementalOptimizationProblem}
use aslam_incremental_calibr.Incremental.Uses.{passing, member-append}
use aslam_incremental_calibr.Incremental.Tally.{owner}
use aslam_incremental_calibr.Incremental.Loops.{group_in}
use aslam_incremental_calibr.Incremental.Invariant.{IsValid, holders}
use aslam_incremental_calibr.Incremental.Frame.{IsValid-congr, owner-batch}
use aslam_incremental_calibr.Incremental.Grow.{add_lem}
use aslam_incremental_calibr.Estimator.{Session, ReturnValue}
use aslam_incremental_calibr.Estimator.Run.{add_batch}
use aslam_incremental_calibr.Estimator.Outcome.{Accepted, Rejected}
use aslam_incremental_calibr.Estimator.Decide.{add_batch-decides}
use aslam_incremental_calibr.TimeDelay.{Calibrator, variables_in, problem_in}
use aslam_incremental_calibr.TimeDelay.Contents.{kind, Holds}
use aslam_incremental_calibr.TimeDelay.Calibrating.{
  problems, IsCalibrating, problem_in-append, problem_in-last,
}

passing_none :
    (test : ℕ → Bool) (bs : List ℕ)
    → ((b : ℕ) → member b bs ≡ true → test b ≡ false)
    → passing test bs ≡ 0
passing_none test [] h = refl
passing_none test (b ∷ bs) h =
    ground (arith, h b, passing_none test bs (λ c m. h c (ground (arith, m))))

module _ (k : Backend) (o : Optimizer k) (x : Expressions k o) where
  -- A batch that is new to the calibrator: its error terms come from this pointer on.
  pub record IsNew (c : Calibrator k o x) (p : OptimizationProblemSpline k o x)
      (first upto first_term : ℕ) : Type 0 where
    pub holds :
        Holds
          (variables_in k o x c.error_terms)
          first
          upto
          first_term
          (length c.error_terms)
          p.problem
    pub older :
        (b et : ℕ)
        → member b (problems k o x c) ≡ true
        → member et (problem_in k o x c.batches b).error_terms ≡ true
        → et < first_term

  module _ (c : Calibrator k o x) (p : OptimizationProblemSpline k o x) (first upto first_term : ℕ)
      (v : IsCalibrating k o x c) (new : IsNew c p first upto first_term) where
    abbrev variables : ℕ → List ℕ
    variables = variables_in k o x c.error_terms

    abbrev batch : ℕ → OptimizationProblem k.Params
    batch = problem_in k o x (c.batches ++ p ∷ [])

    pub same_batch :
        (b : ℕ) → member b (problems k o x c) ≡ true → batch b ≡ problem_in k o x c.batches b
    same_batch b m = problem_in-append k o x c.batches (p ∷ []) b (v.stored b m).allocated

    before-IsValid : IsValid variables batch c.estimator.estimator.problem
    before-IsValid =
        IsValid-congr c.estimator.estimator.problem v.valid same_batch (λ b et m n. refl)

    pub last_batch : batch (length c.batches) ≡ p.problem
    last_batch = problem_in-last k o x c.batches p

    last-IsValid : Invariant.IsValid variables (batch (length c.batches))
    last-IsValid = subst (Invariant.IsValid variables) (sym last_batch) new.holds.valid

    pub last_kinds : (dv g : ℕ) → group_in (batch (length c.batches)) dv ≡ some g → g ≡ kind dv
    last_kinds dv g e =
        let in_p : group_in p.problem dv ≡ some g =
          subst (λ (q : OptimizationProblem k.Params). group_in q dv ≡ some g) last_batch e in
        ground (arith, in_p, new.holds.groups dv)

    agree :
        (dv g h : ℕ)
        → group_in (batch (length c.batches)) dv ≡ some g
        → owner c.estimator.estimator.problem dv ≡ some h
        → h ≡ g
    agree dv g h e f =
        let (b, m, in_b) = owner-batch c.estimator.estimator.problem dv h before-IsValid f in
        let there : group_in (problem_in k o x c.batches b) dv ≡ some h =
          subst (λ (q : OptimizationProblem k.Params). group_in q dv ≡ some h) (same_batch b m)
            in_b in
        (v.stored b m).kinds dv h there ∙ sym (last_kinds dv g e)

    free :
        (et : ℕ)
        → member et (batch (length c.batches)).error_terms ≡ true
        → holders variables batch et (problems k o x c) ≡ 0
    free et m =
        passing_none (λ b. Problem.is_error_term_in_problem (batch b) et) (problems k o x c) absent
      where
        recent : first_term ≤ et
        recent =
            let in_p : member et p.problem.error_terms ≡ true =
              subst (λ (q : OptimizationProblem k.Params). member et q.error_terms ≡ true)
                last_batch m in
            ground (arith, new.holds.terms et, in_p)

        absent :
            (b : ℕ)
            → member b (problems k o x c) ≡ true
            → Problem.is_error_term_in_problem (batch b) et ≡ false
        absent b n = elim (Bool-cases (Problem.is_error_term_in_problem (batch b) et)) [
          | inr missing ↦ missing
          | inl there ↦
              let here : member et (batch b).error_terms ≡ true = ground (
                arith,
                there,
                (before-IsValid.batches b n).terms_agree et,
                member-count et (batch b).error_terms,
                member-count et (batch b).error_terms_lookup,
              ) in
              let old = new.older b et n (
                subst (λ (q : OptimizationProblem k.Params). member et q.error_terms ≡ true)
                  (same_batch b n) here) in
              absurd (omega (arith, old, recent))
        ]

    abbrev MargListed : IncrementalOptimizationProblem k.Params → Type 0
    MargListed q = member c.estimator.estimator.marg_group_id q.groups_ordering ≡ true

    has_marg :
        (q : IncrementalOptimizationProblem k.Params)
        → IsValid variables batch q
        → q.optimization_problems ≡ problems k o x c ++ length c.batches ∷ []
        → MargListed q
    has_marg q w more =
        let last : member (length c.batches) q.optimization_problems ≡ true = ground (
          arith,
          ap (member (length c.batches)) more,
          member-append (problems k o x c) (length c.batches ∷ []) (length c.batches),
        ) in
        let in_group : group_in (batch (length c.batches)) 0 ≡ some 1 =
          ap (λ (r : OptimizationProblem k.Params). group_in r 0) last_batch ∙ new.holds.groups 0 in
        let there =
          owner-contains w.tallied.grouping 0 1 (w.owned (length c.batches) 0 1 last in_group) in
        subst (λ g. member g q.groups_ordering ≡ true) (sym v.marg_group_id)
          (ground (arith, there, w.tallied.grouping.ordered 1, member-count 1 q.groups_ordering))

    -- `addBatch` of the new batch returns.
    pub add_batch_lem :
        length c.batches + 1 < size_t_mod
        → (ret : ReturnValue k o) × (s' : Session k o) × (add_batch k o batch
              (some (length c.batches))
              false
              c.estimator
            ≡ (ok ret, s'))
          × IsValid variables batch s'.estimator.problem
          × (Accepted k o variables batch c.estimator s' (length c.batches) ret
              ⊎ Rejected k o variables batch c.estimator s' (length c.batches) ret)
    add_batch_lem room =
        let fits : length (problems k o x c) + 1 < size_t_mod = omega (arith, room, v.few) in
        let (q, adds, more, w) =
          add_lem variables batch (length c.batches) c.estimator.estimator.problem before-IsValid
            last-IsValid fits agree free in
        add_batch-decides k o variables batch c.estimator (length c.batches) before-IsValid
          last-IsValid fits
          (ap (λ (r : Result (Unit {0}) × IncrementalOptimizationProblem k.Params). r.0) adds)
          (subst
            (λ (r : Result (Unit {0}) × IncrementalOptimizationProblem k.Params). MargListed r.1)
            (sym adds) (has_marg q w more))
