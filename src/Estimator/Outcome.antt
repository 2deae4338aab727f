-- ===== src/Estimator/Outcome.antt =====
-- The two outcomes of `addBatch` (core/IncrementalEstimator.cpp) without force.
use aslam_incremental_calibr.Common.{
  not, ◌&&◌, ◌||◌, ◌==◌, ltz, ℕ, ◌≡◌, ◌<◌, refl, sym, ◌∙◌, ap, subst, Bool, true, false, List, [],
  ◌∷◌, ◌++◌, some, length, arith, if◌then◌else◌, ok, member, count, member-count, count-append,
}
use aslam_incremental_calibr.Backend.{Backend}
use aslam_incremental_calibr.Problem.{OptimizationProblem}
use aslam_incremental_calibr.Optimizer.{Optimizer, SolutionReturnValue}
use aslam_incremental_calibr.Incremental.{
  IncrementalOptimizationProblem, is_design_variable_in_problem, size_t_mod,
}
use aslam_incremental_calibr.Incremental.Batches
use aslam_incremental_calibr.Incremental.Batches.{save_design_variables}
use aslam_incremental_calibr.Incremental.Invariant.{IsValid}
use aslam_incremental_calibr.Estimator.{IncrementalEstimator, Session, ReturnValue}
use aslam_incremental_calibr.Estimator.Run.{
  solve_with, conclude, add_batch, solution_valid, keep_batch, store_statistics,
}
use aslam_incremental_calibr.Estimator.Reject.{reject-restores}
use aslam_incremental_calibr.Estimator.Stages.{kept, add_batch_stages}

module _ (k : Backend) (o : Optimizer k) (variables : ℕ → List ℕ)
    (batch : ℕ → OptimizationProblem k.Params) where
  abbrev Problems : Type 0
  Problems = IncrementalOptimizationProblem k.Params

  -- The information gain is above its threshold or the rank goes up.
  abbrev pub improves : IncrementalEstimator k o → ReturnValue k o → Bool
  improves e ret =
      o.greater ret.information_gain e.options.info_gain_delta || ltz e.rank_theta ret.rank_theta

  -- The solution may be used: the validity check is off, or the optimizer stopped before its limit and
  -- lowered the cost.
  abbrev pub is_usable : IncrementalEstimator k o → ℕ → ReturnValue k o → Bool
  is_usable e limit ret =
      not e.options.check_validity
      || not (ret.num_iterations == limit) && not (o.at_least ret.j_final ret.j_start)

  -- The return value has the optimizer's report.
  abbrev pub Reports : SolutionReturnValue o.Number → ReturnValue k o → Type 0
  Reports srv ret =
      (ret.num_iterations ≡ srv.iterations)
      × (ret.j_start ≡ srv.j_start)
      × (ret.j_final ≡ srv.j_final)

  solution_valid-usable :
      (s : Session k o) (srv : SolutionReturnValue o.Number) (ret : ReturnValue k o) (limit : ℕ)
      → Reports srv ret
      → solution_valid k o s.estimator.options limit srv ≡ is_usable s.estimator limit ret
  unfolding solution_valid
  solution_valid-usable s srv ret limit (n, start, final) = rw (n, start, final) (ground arith)

  kept-usable :
      (s : Session k o) (srv : SolutionReturnValue o.Number) (ret : ReturnValue k o)
      → Reports srv ret
      → kept k o variables batch s srv ret
        ≡ (improves s.estimator ret && is_usable s.estimator (o.max_iterations s.outside) ret)
  unfolding keep_batch
  kept-usable s srv ret r =
      ground (arith, solution_valid-usable s srv ret (o.max_iterations s.outside) r)

  -- What `addBatch` leaves of the batch: it is in the problem and the estimator has its statistics,
  pub record Accepted (s s' : Session k o) (b : ℕ) (ret : ReturnValue k o) : Type 0 where
    pub accepted : ret.batch_accepted ≡ true
    pub improving : improves s.estimator ret ≡ true
    pub usable : is_usable s.estimator (o.max_iterations s'.outside) ret ≡ true
    pub options : s'.estimator.options ≡ s.estimator.options
    pub marg_group_id : s'.estimator.marg_group_id ≡ s.estimator.marg_group_id
    pub problems :
        s'.estimator.problem.optimization_problems
        ≡ s.estimator.problem.optimization_problems ++ b ∷ []
    pub nobs_basis : s'.estimator.nobs_basis ≡ ret.nobs_basis
    pub nobs_basis_scaled : s'.estimator.nobs_basis_scaled ≡ ret.nobs_basis_scaled
    pub obs_basis : s'.estimator.obs_basis ≡ ret.obs_basis
    pub obs_basis_scaled : s'.estimator.obs_basis_scaled ≡ ret.obs_basis_scaled
    pub sigma2_theta : s'.estimator.sigma2_theta ≡ ret.sigma2_theta
    pub sigma2_theta_scaled : s'.estimator.sigma2_theta_scaled ≡ ret.sigma2_theta_scaled
    pub sigma2_theta_obs : s'.estimator.sigma2_theta_obs ≡ ret.sigma2_theta_obs
    pub sigma2_theta_obs_scaled : s'.estimator.sigma2_theta_obs_scaled ≡ ret.sigma2_theta_obs_scaled
    pub singular_values : s'.estimator.singular_values ≡ ret.singular_values
    pub singular_values_scaled : s'.estimator.singular_values_scaled ≡ ret.singular_values_scaled
    pub svd_tolerance : s'.estimator.svd_tolerance ≡ ret.svd_tolerance
    pub qr_tolerance : s'.estimator.qr_tolerance ≡ ret.qr_tolerance
    pub rank_theta : s'.estimator.rank_theta ≡ ret.rank_theta
    pub rank_theta_deficiency : s'.estimator.rank_theta_deficiency ≡ ret.rank_theta_deficiency
    pub rank_psi : s'.estimator.rank_psi ≡ ret.rank_psi
    pub rank_psi_deficiency : s'.estimator.rank_psi_deficiency ≡ ret.rank_psi_deficiency
    pub information_gain : s'.estimator.information_gain ≡ ret.information_gain
    pub initial_cost : s'.estimator.initial_cost ≡ ret.j_start
    pub final_cost : s'.estimator.final_cost ≡ ret.j_final
    pub sv_log2_sum : s'.estimator.sv_log2_sum ≡ o.get_singular_values_log2_sum s'.outside
    pub peak_memory_usage : s'.estimator.peak_memory_usage ≡ o.get_peak_memory_usage s'.outside
    pub memory_usage : s'.estimator.memory_usage ≡ o.get_memory_usage s'.outside
    pub num_flops : s'.estimator.num_flops ≡ o.get_num_flops s'.outside

  -- or the batches are those before the call, nothing else of the estimator has changed, and the
  -- design variables of the old batches and of the new one have their old parameters.
  pub record Rejected (s s' : Session k o) (b : ℕ) (ret : ReturnValue k o) : Type 0 where
    pub rejected : ret.batch_accepted ≡ false
    -- The optimizer as the solution has left it, before the linear solver is restored.
    pub solved : o.Outside
    pub not_kept :
        (improves s.estimator ret && is_usable s.estimator (o.max_iterations solved) ret) ≡ false
    pub problems :
        (c : ℕ)
        → count c s'.estimator.problem.optimization_problems
          ≡ count c s.estimator.problem.optimization_problems
    pub estimator : s'.estimator ≡ record s.estimator { problem = s'.estimator.problem }
    pub parameters :
        (dv : ℕ)
        → k.get_parameters s'.store dv ≡ (
            if is_design_variable_in_problem (Batches.add batch (some b) s.estimator.problem).1 dv
            then k.get_parameters s.store dv
            else k.get_parameters s'.store dv)

  pub accepts :
      (s s1 : Session k o) (b : ℕ) (q : Problems) (srv : SolutionReturnValue o.Number)
      (ret : ReturnValue k o)
      → solve_with k o batch (some b) false s ≡ (ok (srv, ret), s1)
      → Reports srv ret
      → kept k o variables batch s1 srv ret ≡ true
      → s1.estimator ≡ record s.estimator { problem = q }
      → q.optimization_problems ≡ s.estimator.problem.optimization_problems ++ b ∷ []
      → IsValid variables batch q
      → (ret' : ReturnValue k o) × (s' : Session k o) × (add_batch k o batch (some b) false s
          ≡ (ok ret', s'))
        × IsValid variables batch s'.estimator.problem
        × Accepted s s' b ret'
  unfolding conclude store_statistics
  accepts s s1 b q srv ret solved report keep est more v =
      let s2 : Session k o = record s1 {
        estimator =
            store_statistics k o ret ret.information_gain
              (o.get_singular_values_log2_sum s1.outside) s1.outside s1.estimator;
      } in
      let decision : (improves s.estimator ret
            && is_usable s.estimator (o.max_iterations s1.outside) ret)
          ≡ kept k o variables batch s1 srv ret =
        sym (
          kept-usable s1 srv ret report
          ∙ ap
              (λ (e : IncrementalEstimator k o).
                improves e ret && is_usable e (o.max_iterations s1.outside) ret)
              est) in
      let both : (improves s.estimator ret
            && is_usable s.estimator (o.max_iterations s1.outside) ret)
          ≡ true =
        decision ∙ keep in
      let same : s1.estimator.problem ≡ q = ap (λ (e : IncrementalEstimator k o). e.problem) est in
      (
        _,
        s2,
        add_batch_stages k o variables batch s s1 s2 b srv ret solved (rw keep refl),
        subst (IsValid variables batch) (sym same) v,
        record {
          accepted = keep;
          improving = ground (arith, both);
          usable = ground (arith, both);
          options = ap (λ (e : IncrementalEstimator k o). e.options) est;
          marg_group_id = ap (λ (e : IncrementalEstimator k o). e.marg_group_id) est;
          problems = ap (λ (x : Problems). x.optimization_problems) same ∙ more;
          nobs_basis = refl;
          nobs_basis_scaled = refl;
          obs_basis = refl;
          obs_basis_scaled = refl;
          sigma2_theta = refl;
          sigma2_theta_scaled = refl;
          sigma2_theta_obs = refl;
          sigma2_theta_obs_scaled = refl;
          singular_values = refl;
          singular_values_scaled = refl;
          svd_tolerance = refl;
          qr_tolerance = refl;
          rank_theta = refl;
          rank_theta_deficiency = refl;
          rank_psi = refl;
          rank_psi_deficiency = refl;
          information_gain = refl;
          initial_cost = refl;
          final_cost = refl;
          sv_log2_sum = refl;
          peak_memory_usage = refl;
          memory_usage = refl;
          num_flops = refl;
        },
      )

  pub rejects :
      (s s1 : Session k o) (b : ℕ) (q : Problems) (srv : SolutionReturnValue o.Number)
      (ret : ReturnValue k o)
      → solve_with k o batch (some b) false s ≡ (ok (srv, ret), s1)
      → Reports srv ret
      → kept k o variables batch s1 srv ret ≡ false
      → s1.estimator ≡ record s.estimator { problem = save_design_variables k s.store q }
      → q.optimization_problems ≡ s.estimator.problem.optimization_problems ++ b ∷ []
      → IsValid variables batch q
      → length q.optimization_problems < size_t_mod
      → ((dv : ℕ)
          → is_design_variable_in_problem q dv
            ≡ is_design_variable_in_problem (Batches.add batch (some b) s.estimator.problem).1 dv)
      → (ret' : ReturnValue k o) × (s' : Session k o) × (add_batch k o batch (some b) false s
          ≡ (ok ret', s'))
        × IsValid variables batch s'.estimator.problem
        × Rejected s s' b ret'
  unfolding conclude
  rejects s s1 b q srv ret solved report drop est more v fits inside =
      let decision : (improves s.estimator ret
            && is_usable s.estimator (o.max_iterations s1.outside) ret)
          ≡ kept k o variables batch s1 srv ret =
        sym (
          kept-usable s1 srv ret report
          ∙ ap
              (λ (e : IncrementalEstimator k o).
                improves e ret && is_usable e (o.max_iterations s1.outside) ret)
              est) in
      let there : member b q.optimization_problems ≡ true = ground (
        arith,
        member-count b q.optimization_problems,
        ap (count b) more,
        count-append b s.estimator.problem.optimization_problems (b ∷ []),
      ) in
      let (r, s', run, left, counts, w, restored) =
        reject-restores k o variables batch s1 b q s.store v fits there
          (ap (λ (e : IncrementalEstimator k o). e.problem) est) in
      let same : s'.estimator.problem ≡ r = ap (λ (e : IncrementalEstimator k o). e.problem) left in
      (
        _,
        s',
        add_batch_stages k o variables batch s s1 s' b srv ret solved (rw drop run),
        subst (IsValid variables batch) (sym same) w,
        record {
          rejected = drop;
          solved = s1.outside;
          not_kept = decision ∙ drop;
          problems = λ c.
              ap (λ (x : Problems). count c x.optimization_problems) same
              ∙ omega (
                arith,
                counts c,
                ap (count c) more,
                count-append c s.estimator.problem.optimization_problems (b ∷ []),
              );
          estimator =
              left
              ∙ ap (λ (e : IncrementalEstimator k o). record e { problem = r }) est
              ∙ ap (λ (x : Problems). record s.estimator { problem = x }) (sym same);
          parameters = λ dv. ground (arith, restored dv, inside dv);
        },
      )
