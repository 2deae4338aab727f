-- ===== src/Incremental/Frame.antt =====
-- What the containers of core/IncrementalOptimizationProblem.cpp depend on: only the objects behind
-- the pointers that they hold. Objects that are allocated later change nothing.
use aslam_incremental_calibr.Common.{
  ℕ, ◌≡◌, ◌≤◌, ◌<◌, refl, sym, ◌∙◌, ap, subst, Bool, true, List, [], ◌∷◌, some, member, arith, inl,
  inr, Option-cases,
}
use aslam_incremental_calibr.Problem
use aslam_incremental_calibr.Problem.{OptimizationProblem}
use aslam_incremental_calibr.Problem.Invariant
use aslam_incremental_calibr.Incremental.{IncrementalOptimizationProblem, count_part}
use aslam_incremental_calibr.Incremental.Uses.{passing}
use aslam_incremental_calibr.Incremental.Tally.{entry, owner}
use aslam_incremental_calibr.Incremental.Loops.{group_in, IsTallied-congr}
use aslam_incremental_calibr.Incremental.Invariant.{IsValid, uses, user_of_uses}

pub passing-congr :
    (test test' : ℕ → Bool) (problems : List ℕ)
    → ((b : ℕ) → member b problems ≡ true → test b ≡ test' b)
    → passing test problems ≡ passing test' problems
passing-congr test test' [] same = refl
passing-congr test test' (b ∷ problems) same =
    ground (arith, same b, passing-congr test test' problems (λ c m. same c (ground (arith, m))))

module _ {Params : Type 0} where
  -- A problem looks at the design variables of its own error terms only.
  pub problem-congr :
      {variables variables' : ℕ → List ℕ} (p : OptimizationProblem Params)
      → Invariant.IsValid variables p
      → ((et : ℕ) → member et p.error_terms ≡ true → variables' et ≡ variables et)
      → Invariant.IsValid variables' p
  problem-congr p v same = record {
    grouping = v.grouping;
    distinct = v.distinct;
    terms_agree = v.terms_agree;
    terms_once = v.terms_once;
    terms_closed =
        λ et dv m n. v.terms_closed et dv m (subst (λ l. member dv l ≡ true) (same et m) n);
  }

  -- The containers look at their own batches only.
  pub IsValid-congr :
      {variables variables' : ℕ → List ℕ} {batch batch' : ℕ → OptimizationProblem Params}
      (p : IncrementalOptimizationProblem Params)
      → IsValid variables batch p
      → ((b : ℕ) → member b p.optimization_problems ≡ true → batch' b ≡ batch b)
      → ((b et : ℕ)
          → member b p.optimization_problems ≡ true
          → member et (batch b).error_terms ≡ true
          → variables' et ≡ variables et)
      → IsValid variables' batch' p
  IsValid-congr {variables} {variables'} {batch} {batch'} p v same_batch same_term = record {
    tallied =
        IsTallied-congr p
          (λ dv.
            passing-congr (λ b. Problem.is_design_variable_in_problem (batch b) dv)
              (λ b. Problem.is_design_variable_in_problem (batch' b) dv) p.optimization_problems
              (λ b m.
                ap (λ (q : OptimizationProblem Params). Problem.is_design_variable_in_problem q dv)
                  (sym (same_batch b m))))
          v.tallied;
    owned = λ b dv g m e.
        v.owned b dv g m
          (subst (λ (q : OptimizationProblem Params). group_in q dv ≡ some g) (same_batch b m) e);
    batches = λ b m.
        subst (Invariant.IsValid variables') (sym (same_batch b m))
          (problem-congr (batch b) (v.batches b m) (λ et n. same_term b et m n));
    terms = λ et.
        subst (λ n. n ≤ 1)
          (passing-congr (λ b. Problem.is_error_term_in_problem (batch b) et)
            (λ b. Problem.is_error_term_in_problem (batch' b) et) p.optimization_problems
            (λ b m.
              ap (λ (q : OptimizationProblem Params). Problem.is_error_term_in_problem q et)
                (sym (same_batch b m))))
          (v.terms et);
  }

  -- The group of a design variable that is in use is its group in some batch.
  pub owner-batch :
      {variables : ℕ → List ℕ} {batch : ℕ → OptimizationProblem Params}
      (p : IncrementalOptimizationProblem Params) (dv h : ℕ)
      → IsValid variables batch p
      → owner p dv ≡ some h
      → (b : ℕ) × (member b p.optimization_problems ≡ true) × (group_in (batch b) dv ≡ some h)
  owner-batch {variables} {batch} p dv h v e = elim (Option-cases (entry p dv)) [
    | inl f ↦ absurd (ground (arith, e, f))
    | inr ((n, g), f) ↦
        let used : 0 < uses variables batch dv p.optimization_problems =
          omega (arith, v.tallied.counted dv, ap count_part f, v.tallied.positive dv n g f) in
        let (b, g', m, in_b) = user_of_uses variables batch dv p.optimization_problems used in
        (b, m, in_b ∙ sym (v.owned b dv g' m in_b) ∙ e)
  ]
