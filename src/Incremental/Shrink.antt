-- ===== src/Incremental/Shrink.antt =====
-- `remove` of core/IncrementalOptimizationProblem.cpp keeps the containers determined by the batches.
use aslam_incremental_calibr.Common.{
  ℕ, ◌+◌, ◌≡◌, ◌<◌, ap, List, some, length, get_elem?, count, arith, subst, Result, ok, is_some,
  get_elem?-lt, lt→leb, member_of_get_elem?,
}
use aslam_incremental_calibr.Common.Stateful.{and_then, modify}
use aslam_incremental_calibr.Problem
use aslam_incremental_calibr.Problem.{OptimizationProblem}
use aslam_incremental_calibr.Problem.Invariant
use aslam_incremental_calibr.Problem.Access.{listing, design_variable-listing}
use aslam_incremental_calibr.Incremental.{
  IncrementalOptimizationProblem, size_t_mod, erase_at, get_optimization_problem,
}
use aslam_incremental_calibr.Incremental.Batches.{remove_idx, remove_variables}
use aslam_incremental_calibr.Incremental.Uses.{
  passing-le_length, passing-pos, passing-erase_at, member-erase_at,
}
use aslam_incremental_calibr.Incremental.RemoveLoop.{RemovedAll, remove_variables-RemovedAll}
use aslam_incremental_calibr.Incremental.Invariant.{IsValid, uses}

module _ {Params : Type 0} (variables : ℕ → List ℕ) (batch : ℕ → OptimizationProblem Params) where
  abbrev without : ℕ → IncrementalOptimizationProblem Params → IncrementalOptimizationProblem Params
  without idx p = record p { optimization_problems = erase_at p.optimization_problems idx }

  -- The use of a design variable by one batch less.
  uses_less :
      (problems : List ℕ) (idx b x : ℕ)
      → get_elem? problems idx ≡ some b
      → Invariant.IsValid variables (batch b)
      → uses variables batch x (erase_at problems idx) + count x (listing (batch b))
        ≡ uses variables batch x problems
  uses_less problems idx b x e v = omega (
    arith,
    passing-erase_at (λ c. Problem.is_design_variable_in_problem (batch c) x) problems idx b e,
    (design_variable-listing (batch b) v).2 x,
  )

  without-IsValid :
      (p q : IncrementalOptimizationProblem Params) (idx b : ℕ)
      → IsValid variables batch p
      → get_elem? p.optimization_problems idx ≡ some b
      → RemovedAll (λ x. uses variables batch x p.optimization_problems) (listing (batch b)) p q
      → IsValid variables batch (without idx q)
  without-IsValid p q idx b v e r = rw r.problems (record {
    tallied = record {
      counted =
          λ x. omega (arith, r.tallied.counted x, uses_less p.optimization_problems idx b x e vb);
      positive = r.tallied.positive;
      grouping = r.tallied.grouping;
      distinct = r.tallied.distinct;
      groups_distinct = r.tallied.groups_distinct;
    };
    owned = λ c x g m f.
        r.keeps x g (v.owned c x g (member-erase_at p.optimization_problems idx c m) f) (
          omega (
            arith,
            uses_less p.optimization_problems idx b x e vb,
            passing-pos (λ y. Problem.is_design_variable_in_problem (batch y) x)
                (erase_at p.optimization_problems idx) c m (ap is_some f),
          ));
    batches = λ c m. v.batches c (member-erase_at p.optimization_problems idx c m);
    terms = λ et. omega (
      arith,
      v.terms et,
      passing-erase_at (λ y. Problem.is_error_term_in_problem (batch y) et) p.optimization_problems
          idx b e,
    );
  })
    where
      vb : Invariant.IsValid variables (batch b)
      vb = v.batches b (member_of_get_elem? p.optimization_problems idx b e)

  get_optimization_problem-eq :
      (p : IncrementalOptimizationProblem Params) (idx b : ℕ)
      → get_elem? p.optimization_problems idx ≡ some b
      → idx < length p.optimization_problems
      → get_optimization_problem p idx ≡ ok b
  unfolding get_optimization_problem
  get_optimization_problem-eq p idx b e lt = rw (lt→leb (length p.optimization_problems) idx lt, e)

  remove_idx_stages :
      (p q : IncrementalOptimizationProblem Params) (idx b : ℕ)
      → get_optimization_problem p idx ≡ ok b
      → remove_variables (Problem.num_design_variables (batch b)) (batch b) 0 p ≡ (ok tt, q)
      → remove_idx batch idx p ≡ (ok tt, without idx q)
  unfolding remove_idx
  remove_idx_stages p q idx b e h = rw e (
      ap
        (λ (m : Result (Unit {0}) × IncrementalOptimizationProblem Params).
          and_then m.0 (λ (u : Unit {0}). modify (λ s. without idx s)) m.1)
        h)

  -- `remove` of an index in range returns: no iterator that it erases is the end iterator. The batch
  -- at the index is gone and the containers stay determined by the batches.
  pub remove_idx_lem :
      (p : IncrementalOptimizationProblem Params) (idx : ℕ)
      → IsValid variables batch p
      → length p.optimization_problems < size_t_mod
      → idx < length p.optimization_problems
      → (q : IncrementalOptimizationProblem Params) × (remove_idx batch idx p ≡ (ok tt, q))
        × (q.optimization_problems ≡ erase_at p.optimization_problems idx)
        × IsValid variables batch q
  remove_idx_lem p idx v small lt =
      let (b, e) = get_elem?-lt p.optimization_problems idx lt in
      let vb = v.batches b (member_of_get_elem? p.optimization_problems idx b e) in
      let (q, run, r) =
        remove_variables-RemovedAll (batch b) (listing (batch b)) 0 p vb
          (λ j. ap (get_elem? (listing (batch b))) (omega arith)) v.tallied
          (λ x. omega (
            arith,
            small,
            passing-le_length (λ c. Problem.is_design_variable_in_problem (batch c) x)
                p.optimization_problems,
          ))
          (λ x. omega (arith, uses_less p.optimization_problems idx b x e vb)) in
      let run' =
        subst (λ n. remove_variables n (batch b) 0 p ≡ (ok tt, q))
          (design_variable-listing (batch b) vb).1 run in
      (
        without idx q,
        remove_idx_stages p q idx b (get_optimization_problem-eq p idx b e lt) run',
        ap (λ l. erase_at l idx) r.problems,
        without-IsValid p q idx b v e r,
      )
