-- ===== src/Incremental/Loops.antt =====
-- Rounds of the loops of `add` and `remove` over the design variables of a batch, in
-- core/IncrementalOptimizationProblem.cpp: they visit the batch's design variables in order.
use aslam_incremental_calibr.Common.{
  ℕ, suc, ◌+◌, ◌≡◌, refl, sym, ◌∙◌, ap, true, List, ◌∷◌, Option, some, get_elem?, member, find,
  contains, ok, err, Exception, or_throw, out_of_bound, arith, inl, inr, Option-cases, member-count,
  member_of_get_elem?,
}
use aslam_incremental_calibr.Problem
use aslam_incremental_calibr.Problem.{OptimizationProblem}
use aslam_incremental_calibr.Problem.Invariant.{IsValid}
use aslam_incremental_calibr.Problem.Access.{listing, design_variable-listing}
use aslam_incremental_calibr.Incremental.{
  IncrementalOptimizationProblem, add_variable, remove_variable,
}
use aslam_incremental_calibr.Incremental.Batches.{add_variables, remove_variables}
use aslam_incremental_calibr.Incremental.Tally.{IsTallied}

module _ {Params : Type 0} where
  -- The group of a design variable in a batch.
  abbrev pub group_in : OptimizationProblem Params → ℕ → Option ℕ
  group_in problem dv = find dv problem.design_variables_lookup

  get_group_id-eq :
      (problem : OptimizationProblem Params) (dv g : ℕ)
      → group_in problem dv ≡ some g
      → Problem.get_group_id problem dv ≡ ok g
  unfolding Problem.get_group_id
  get_group_id-eq problem dv g e = rw e

  pub IsTallied-congr :
      {tally tally' : ℕ → ℕ} (p : IncrementalOptimizationProblem Params)
      → ((x : ℕ) → tally x ≡ tally' x)
      → IsTallied tally p
      → IsTallied tally' p
  IsTallied-congr p same v = record {
    counted = λ x. v.counted x ∙ same x;
    positive = v.positive;
    grouping = v.grouping;
    distinct = v.distinct;
    groups_distinct = v.groups_distinct;
  }

  -- `rest` is what stands in the batch's listing from index `i` on.
  abbrev pub IsRest : OptimizationProblem Params → ℕ → List ℕ → Type 0
  IsRest problem i rest = (j : ℕ) → get_elem? rest j ≡ get_elem? (listing problem) (i + j)

  pub IsRest-tail :
      (problem : OptimizationProblem Params) (i x : ℕ) (rest : List ℕ)
      → IsRest problem i (x ∷ rest)
      → IsRest problem (i + 1) rest
  IsRest-tail problem i x rest h j = h (suc j) ∙ ap (get_elem? (listing problem)) (omega arith)

  -- What one round of either loop reads of the batch.
  pub reads :
      {variables : ℕ → List ℕ} (problem : OptimizationProblem Params) (i x : ℕ) (rest : List ℕ)
      → IsValid variables problem
      → IsRest problem i (x ∷ rest)
      → (g : ℕ) × (Problem.design_variable problem i ≡ ok x)
        × (group_in problem x ≡ some g)
        × (Problem.get_group_id problem x ≡ ok g)
  reads problem i x rest v h =
      let at_i : get_elem? (listing problem) i ≡ some x =
        ap (get_elem? (listing problem)) (omega arith) ∙ sym (h 0) in
      let here : member x (listing problem) ≡ true =
        member_of_get_elem? (listing problem) i x at_i in
      let inside : contains x problem.design_variables_lookup ≡ true =
        ground (
          arith,
          here,
          (design_variable-listing problem v).2 x,
          member-count x (listing problem),
        ) in
      elim (Option-cases (group_in problem x)) [
        | inl e ↦ absurd (ground (arith, e, inside))
        | inr (g, e) ↦ (
          g,
          (design_variable-listing problem v).0 i ∙ ap (λ o. or_throw o (out_of_bound i)) at_i,
          e,
          get_group_id-eq problem x g e,
        )
      ]

  pub add_variables-suc :
      (rounds : ℕ) (problem : OptimizationProblem Params) (i dv g : ℕ)
      (p : IncrementalOptimizationProblem Params)
      → Problem.design_variable problem i ≡ ok dv
      → Problem.get_group_id problem dv ≡ ok g
      → (add_variable dv g p).0 ≡ ok tt
      → add_variables (suc rounds) problem i p
        ≡ add_variables rounds problem (i + 1) (add_variable dv g p).1
  unfolding add_variables
  add_variables-suc rounds problem i dv g p e f h = rw (e, f, h) refl

  pub remove_variables-suc :
      (rounds : ℕ) (problem : OptimizationProblem Params) (i dv : ℕ)
      (p : IncrementalOptimizationProblem Params)
      → Problem.design_variable problem i ≡ ok dv
      → (remove_variable dv p).0 ≡ ok tt
      → remove_variables (suc rounds) problem i p
        ≡ remove_variables rounds problem (i + 1) (remove_variable dv p).1
  unfolding remove_variables
  remove_variables-suc rounds problem i dv p e h = rw (e, h) refl

  pub add_variables_throws :
      (rounds : ℕ) (problem : OptimizationProblem Params) (i dv g : ℕ)
      (p : IncrementalOptimizationProblem Params) (x : Exception)
      → Problem.design_variable problem i ≡ ok dv
      → Problem.get_group_id problem dv ≡ ok g
      → (add_variable dv g p).0 ≡ err x
      → (add_variables (suc rounds) problem i p).0 ≡ err x
  unfolding add_variables
  add_variables_throws rounds problem i dv g p x e f h = rw (e, f, h) refl
