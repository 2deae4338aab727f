-- ===== src/Incremental/Reorder.antt =====
-- The methods of core/IncrementalOptimizationProblem.cpp that only reorder keep its containers
-- determined by the batches.
use aslam_incremental_calibr.Common.{
  Dict, ℕ, ◌≡◌, ◌≤◌, refl, sym, ◌∙◌, ap, Bool, true, List, length, member, count, arith, inl, inr,
  Bool-cases, Result-cases, err, member-count, le→leb, put-Distinct, out_of_bound,
}
use aslam_incremental_calibr.Permute.{permute}
use aslam_incremental_calibr.Permute.Contents.{count-permute}
use aslam_incremental_calibr.Groups.{group, new_ordering}
use aslam_incremental_calibr.Groups.Change.{permute-IsGrouping, reorder-IsGrouping, new_ordering-ok}
use aslam_incremental_calibr.Problem
use aslam_incremental_calibr.Problem.{OptimizationProblem}
use aslam_incremental_calibr.Incremental.{
  IncrementalOptimizationProblem, get_optimization_problem, set_groups_ordering,
  permute_optimization_problems, permute_design_variables, is_group_in_problem,
}
use aslam_incremental_calibr.Incremental.Batches.{remove_idx}
use aslam_incremental_calibr.Incremental.Uses.{passing, passing-eq_of_count}
use aslam_incremental_calibr.Incremental.Invariant.{IsValid}

module _ {Params : Type 0} (variables : ℕ → List ℕ) (batch : ℕ → OptimizationProblem Params) where
  pub set_groups_ordering-IsValid :
      (ordering : List ℕ) (p : IncrementalOptimizationProblem Params)
      → IsValid variables batch p
      → IsValid variables batch (set_groups_ordering ordering p).1
  unfolding set_groups_ordering
  set_groups_ordering-IsValid ordering p v =
      elim (Result-cases (new_ordering p.design_variables p.groups_ordering ordering)) [
        | inr (e, h) ↦ rw (h, set_groups_ordering) v
        | inl (result, h) ↦
            let (same, counts) = new_ordering-ok ordering result v.tallied.grouping h in
            rw (h, set_groups_ordering)
              (record {
                tallied = record {
                  counted = v.tallied.counted;
                  positive = v.tallied.positive;
                  grouping =
                      reorder-IsGrouping result v.tallied.grouping
                        (λ g. ap (count g) same ∙ counts g);
                  distinct = v.tallied.distinct;
                  groups_distinct = v.tallied.groups_distinct;
                };
                owned = v.owned;
                batches = v.batches;
                terms = v.terms;
              })
      ]

  pub permute_design_variables-IsValid :
      (permutation : List ℕ) (g : ℕ) (p : IncrementalOptimizationProblem Params)
      → IsValid variables batch p
      → IsValid variables batch (permute_design_variables permutation g p).1
  unfolding permute_design_variables
  permute_design_variables-IsValid permutation g p v = elim (Bool-cases (is_group_in_problem p g)) [
    | inr missing ↦ rw missing v
    | inl there ↦ rw there (record {
      tallied = record {
        counted = v.tallied.counted;
        positive = v.tallied.positive;
        grouping =
            permute-IsGrouping g (permute permutation (group p.design_variables g)).1
              v.tallied.grouping there
              (λ x. count-permute x permutation (group p.design_variables g));
        distinct = v.tallied.distinct;
        groups_distinct = put-Distinct g _ p.design_variables v.tallied.groups_distinct;
      };
      owned = v.owned;
      batches = v.batches;
      terms = v.terms;
    })
  ]

  member_of_count :
      (xs ys : List ℕ)
      → ((a : ℕ) → count a xs ≡ count a ys)
      → (b : ℕ) → member b xs ≡ true
      → member b ys ≡ true
  member_of_count xs ys same b m = ground (arith, same b, m, member-count b xs, member-count b ys)

  pub permute_optimization_problems-IsValid :
      (permutation : List ℕ) (p : IncrementalOptimizationProblem Params)
      → IsValid variables batch p
      → IsValid variables batch (permute_optimization_problems permutation p).1
  unfolding permute_optimization_problems
  permute_optimization_problems-IsValid permutation p v = record {
    tallied = record {
      counted = λ x.
          v.tallied.counted x
          ∙ sym (passes (λ y. Problem.is_design_variable_in_problem (batch y) x));
      positive = v.tallied.positive;
      grouping = v.tallied.grouping;
      distinct = v.tallied.distinct;
      groups_distinct = v.tallied.groups_distinct;
    };
    owned = λ b x g m e. v.owned b x g (member_of_count after p.optimization_problems kept b m) e;
    batches = λ b m. v.batches b (member_of_count after p.optimization_problems kept b m);
    terms = λ et.
        omega (arith, v.terms et, passes (λ y. Problem.is_error_term_in_problem (batch y) et));
  }
    where
      after : List ℕ
      after = (permute permutation p.optimization_problems).1

      kept : (x : ℕ) → count x after ≡ count x p.optimization_problems
      kept x = count-permute x permutation p.optimization_problems

      passes : (test : ℕ → Bool) → passing test after ≡ passing test p.optimization_problems
      passes test = passing-eq_of_count test after p.optimization_problems kept

  pub remove_idx_out :
      (p : IncrementalOptimizationProblem Params) (idx : ℕ)
      → length p.optimization_problems ≤ idx
      → remove_idx batch idx p ≡ (err (out_of_bound idx), p)
  unfolding remove_idx get_optimization_problem
  remove_idx_out p idx out = rw (le→leb (length p.optimization_problems) idx out) refl

module _ {Params : Type 0} (variables : ℕ → List ℕ) (batch : ℕ → OptimizationProblem Params) where
  -- The backup is not part of what agrees.
  pub backup-IsValid :
      (p : IncrementalOptimizationProblem Params) (backup : Dict Params)
      → IsValid variables batch p
      → IsValid variables batch (record p { design_variables_backup = backup })
  backup-IsValid p backup v = record {
    tallied = record {
      counted = v.tallied.counted;
      positive = v.tallied.positive;
      grouping = v.tallied.grouping;
      distinct = v.tallied.distinct;
      groups_distinct = v.tallied.groups_distinct;
    };
    owned = v.owned;
    batches = v.batches;
    terms = v.terms;
  }
