-- ===== src/Incremental/Grow.antt =====
-- `add` of core/IncrementalOptimizationProblem.cpp keeps the containers determined by the batches.
use aslam_incremental_calibr.Common.{
  ℕ, ◌+◌, ◌≡◌, ◌≤◌, ◌<◌, sym, ◌∙◌, ap, true, List, [], ◌∷◌, ◌++◌, some, length, get_elem?, member,
  count, arith, subst, inl, inr, ◌⊎◌, ok, member-count,
}
use aslam_incremental_calibr.Problem
use aslam_incremental_calibr.Problem.{OptimizationProblem}
use aslam_incremental_calibr.Problem.Invariant
use aslam_incremental_calibr.Problem.Access.{listing, design_variable-listing}
use aslam_incremental_calibr.Incremental.{IncrementalOptimizationProblem, size_t_mod}
use aslam_incremental_calibr.Incremental.Batches.{add, add_variables}
use aslam_incremental_calibr.Incremental.Uses.{passing-append, passing-le_length, member-append}
use aslam_incremental_calibr.Incremental.Tally.{owner}
use aslam_incremental_calibr.Incremental.Loops.{group_in}
use aslam_incremental_calibr.Incremental.AddLoop.{
  AddedAll, add_variables-AddedAll, add_variables-ok,
}
use aslam_incremental_calibr.Incremental.Invariant.{IsValid, uses, holders}
use aslam_incremental_calibr.Incremental.Add.{
  clash, clash-ok, clash-free, counted_in, with_batch, add_stages, add_stages-ok,
}

module _ {Params : Type 0} (variables : ℕ → List ℕ) (batch : ℕ → OptimizationProblem Params) where
  abbrev all_of : ℕ → List ℕ
  all_of b = listing (batch b)

  -- The use of a design variable by one more batch.
  uses_more :
      (b x : ℕ) (problems : List ℕ)
      → Invariant.IsValid variables (batch b)
      → uses variables batch x problems + count x (all_of b)
        ≡ uses variables batch x (problems ++ b ∷ [])
  uses_more b x problems v = omega (
    arith,
    passing-append (λ c. Problem.is_design_variable_in_problem (batch c) x) problems (b ∷ []),
    (design_variable-listing (batch b) v).2 x,
  )

  few_uses :
      (b x : ℕ) (problems : List ℕ)
      → Invariant.IsValid variables (batch b)
      → length problems + 1 < size_t_mod
      → uses variables batch x problems + count x (all_of b) < size_t_mod
  few_uses b x problems v small = ground (
    arith,
    small,
    passing-le_length (λ c. Problem.is_design_variable_in_problem (batch c) x) problems,
    (design_variable-listing (batch b) v).2 x,
  )

  counted_in-AddedAll :
      (b : ℕ) (p : IncrementalOptimizationProblem Params)
      → IsValid variables batch p
      → Invariant.IsValid variables (batch b)
      → length p.optimization_problems + 1 < size_t_mod
      → (counted_in variables batch b p).0 ≡ ok tt
      → AddedAll
          (λ x. uses variables batch x p.optimization_problems)
          (batch b)
          (all_of b)
          p
          (counted_in variables batch b p).1
  counted_in-AddedAll b p v vb small =
      subst
        (λ n.
          (add_variables n (batch b) 0 p).0 ≡ ok tt
          → AddedAll (λ x. uses variables batch x p.optimization_problems) (batch b) (all_of b) p
              (add_variables n (batch b) 0 p).1)
        (design_variable-listing (batch b) vb).1
        (add_variables-AddedAll (batch b) (all_of b) 0 p vb
          (λ j. ap (get_elem? (all_of b)) (omega arith)) v.tallied
          (λ x. few_uses b x p.optimization_problems vb small))

  with_batch-IsValid :
      (b : ℕ) (p q : IncrementalOptimizationProblem Params)
      → IsValid variables batch p
      → Invariant.IsValid variables (batch b)
      → AddedAll (λ x. uses variables batch x p.optimization_problems) (batch b) (all_of b) p q
      → clash variables batch q.optimization_problems (batch b).error_terms ≡ ok tt
      → IsValid variables batch (with_batch variables batch b q)
  with_batch-IsValid b p q v vb a c = rw a.problems (record {
    tallied = record {
      counted = λ x. a.tallied.counted x ∙ uses_more b x p.optimization_problems vb;
      positive = a.tallied.positive;
      grouping = a.tallied.grouping;
      distinct = a.tallied.distinct;
      groups_distinct = a.tallied.groups_distinct;
    };
    owned = λ x dv g m e. elim (member_either x m) [
      | inl before ↦ a.keeps dv g (v.owned x dv g before e)
      | inr same ↦
          let e' : group_in (batch b) dv ≡ some g =
            subst (λ y. group_in (batch y) dv ≡ some g) same e in
          a.owned dv g (listed dv g e') e'
    ];
    batches = λ x m. elim (member_either x m) [
      | inl before ↦ v.batches x before
      | inr same ↦ subst (λ y. Invariant.IsValid variables (batch y)) (sym same) vb
    ];
    terms = once;
  })
    where
      member_either :
          (x : ℕ)
          → member x (p.optimization_problems ++ b ∷ []) ≡ true
          → (member x p.optimization_problems ≡ true) ⊎ (x ≡ b)
      member_either x m = ground (arith, m, member-append p.optimization_problems (b ∷ []) x)

      listed : (dv g : ℕ) → group_in (batch b) dv ≡ some g → member dv (all_of b) ≡ true
      listed dv g e =
          ground (arith, e, (design_variable-listing (batch b) vb).2 dv, member-count dv (all_of b))

      once : (et : ℕ) → holders variables batch et (p.optimization_problems ++ b ∷ []) ≤ 1
      once et = ground (
        arith,
        v.terms et,
        passing-append (λ y. Problem.is_error_term_in_problem (batch y) et) p.optimization_problems
            (b ∷ []),
        subst (λ l. member et (batch b).error_terms ≡ true → holders variables batch et l ≡ 0)
            a.problems
            (clash-ok variables batch q.optimization_problems (batch b).error_terms c et),
        vb.terms_agree et,
        member-count et (batch b).error_terms,
        member-count et (batch b).error_terms_lookup,
      )

  -- Where `add` returns, the batch is the last one and the containers are those of the longer list.
  pub add-IsValid :
      (b : ℕ) (p : IncrementalOptimizationProblem Params)
      → IsValid variables batch p
      → Invariant.IsValid variables (batch b)
      → length p.optimization_problems + 1 < size_t_mod
      → (add batch (some b) p).0 ≡ ok tt
      → IsValid variables batch (add batch (some b) p).1
        × ((add batch (some b) p).1.optimization_problems ≡ p.optimization_problems ++ b ∷ [])
  add-IsValid b p v vb small done =
      let (h, c) = add_stages-ok variables batch b p vb done in
      let a = counted_in-AddedAll b p v vb small h in
      rw (add_stages variables batch b p vb h c) (
        with_batch-IsValid b p (counted_in variables batch b p).1 v vb a c,
        ap (λ l. l ++ b ∷ []) a.problems,
      )

  -- `add` returns on a batch that gives no design variable of the problem another group and has no
  -- error term of the problem; the batch is then the last one and the containers stay determined by
  -- the batches.
  pub add_lem :
      (b : ℕ) (p : IncrementalOptimizationProblem Params)
      → IsValid variables batch p
      → Invariant.IsValid variables (batch b)
      → length p.optimization_problems + 1 < size_t_mod
      → ((dv g h : ℕ) → group_in (batch b) dv ≡ some g → owner p dv ≡ some h → h ≡ g)
      → ((et : ℕ)
          → member et (batch b).error_terms ≡ true
          → holders variables batch et p.optimization_problems ≡ 0)
      → (q : IncrementalOptimizationProblem Params) × (add batch (some b) p ≡ (ok tt, q))
        × (q.optimization_problems ≡ p.optimization_problems ++ b ∷ [])
        × IsValid variables batch q
  add_lem b p v vb small agree free = (
    with_batch variables batch b (counted_in variables batch b p).1,
    add_stages variables batch b p vb h c,
    ap (λ l. l ++ b ∷ []) a.problems,
    with_batch-IsValid b p (counted_in variables batch b p).1 v vb a c,
  )
    where
      h : (counted_in variables batch b p).0 ≡ ok tt
      h =
          subst (λ n. (add_variables n (batch b) 0 p).0 ≡ ok tt)
            (design_variable-listing (batch b) vb).1
            (add_variables-ok (batch b) (all_of b) 0 p vb
              (λ j. ap (get_elem? (all_of b)) (omega arith)) v.tallied
              (λ x. few_uses b x p.optimization_problems vb small) agree)

      a :
          AddedAll
            (λ x. uses variables batch x p.optimization_problems)
            (batch b)
            (all_of b)
            p
            (counted_in variables batch b p).1
      a = counted_in-AddedAll b p v vb small h

      c :
          clash variables batch
            (counted_in variables batch b p).1.optimization_problems
            (batch b).error_terms
          ≡ ok tt
      c =
          rw a.problems
            (clash-free variables batch p.optimization_problems (batch b).error_terms free)
