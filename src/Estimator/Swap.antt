-- ===== src/Estimator/Swap.antt =====
-- The place of the marginalized group (core/IncrementalEstimator.cpp,
-- orderMarginalizedDesignVariables).
use aslam_incremental_calibr.Common.{
  ℕ, ◌-◌, ◌≡◌, ◌<◌, refl, sym, ◌∙◌, ap, subst, true, false, List, [], ◌∷◌, some, length, get_elem?,
  member, count, ◌==◌, arith, inl, inr, Bool-cases, get_elem?-lt, Result, ok, err,
  invalid_operation,
}
use aslam_incremental_calibr.Permute.Swap.{swap_reads, length-swap}
use aslam_incremental_calibr.Permute.Contents.{count-swap}
use aslam_incremental_calibr.Groups.Change.{new_ordering_complete}
use aslam_incremental_calibr.Problem.{OptimizationProblem}
use aslam_incremental_calibr.Incremental
use aslam_incremental_calibr.Incremental.{
  IncrementalOptimizationProblem, position, get_design_variables_group,
}
use aslam_incremental_calibr.Incremental.Invariant.{IsValid}
use aslam_incremental_calibr.Incremental.Reorder.{set_groups_ordering-IsValid}
use aslam_incremental_calibr.Estimator.Solve.{swap_back, order_marginalized_in}

pub position_lem :
    (g : ℕ) (ordering : List ℕ)
    → member g ordering ≡ true
    → (get_elem? ordering (position g ordering) ≡ some g) × (position g ordering < length ordering)
unfolding position
position_lem g [] m = cc
position_lem g (x ∷ ordering) m = elim (Bool-cases (x == g)) [
  | inl same ↦ rw same (ap (λ (n : ℕ). some n) (ground arith), omega arith)
  | inr other ↦
      let (at, lt) = position_lem g ordering (ground (arith, m, other)) in
      rw other (at, omega (arith, lt))
]

-- An element that is not the last goes to the end of the ordering, which keeps its contents.
swap_back_lem :
    (g back : ℕ) (ordering : List ℕ)
    → member g ordering ≡ true
    → get_elem? ordering (length ordering - 1) ≡ some back
    → g == back ≡ false
    → (get_elem? (swap_back g ordering) (length (swap_back g ordering) - 1) ≡ some g)
      × ((h : ℕ) → count h (swap_back g ordering) ≡ count h ordering)
unfolding swap_back
swap_back_lem g back ordering m e other =
    let (at, lt) = position_lem g ordering m in
    let j = length ordering - 1 in
    let (one, two, rest) =
      swap_reads ordering (position g ordering) j 0 lt (omega (arith, lt))
        (λ same. apart same at) in
    (
      ap (λ n. get_elem? (swap_back g ordering) (n - 1))
            (length-swap ordering (position g ordering) j)
          ∙ two
          ∙ at,
      λ h. count-swap h ordering (position g ordering) j,
    )
  where
    apart :
        position g ordering ≡ length ordering - 1
        → get_elem? ordering (position g ordering) ≡ some g
        → ⊥
    apart same at =
        let both : some g ≡ some back = sym at ∙ ap (get_elem? ordering) same ∙ e in
        ground (arith, both, other)

module _ {Params : Type 0} (variables : ℕ → List ℕ) (batch : ℕ → OptimizationProblem Params) where
  pub stores :
      (g : ℕ) (ordering : List ℕ) (p : IncrementalOptimizationProblem Params)
      → IsValid variables batch p
      → ((h : ℕ) → count h ordering ≡ count h p.groups_ordering)
      → Incremental.set_groups_ordering ordering p
        ≡ (ok tt, record p { groups_ordering = ordering })
  unfolding Incremental.set_groups_ordering
  stores g ordering p v counts =
      rw (new_ordering_complete ordering v.tallied.grouping counts, Incremental.set_groups_ordering)
        refl

  -- Where the marginalized group is in a problem whose containers agree, `orderMarginalizedDesignVariables`
  -- returns: `setGroupsOrdering` does not throw, the group comes last in the ordering, the ordering
  -- holds the same groups, and the rest of the problem is as before, so the containers still agree.
  pub order_marginalized_in_lem :
      (g : ℕ) (p : IncrementalOptimizationProblem Params)
      → IsValid variables batch p
      → member g p.groups_ordering ≡ true
      → (ordering : List ℕ) × (order_marginalized_in g p
          ≡ (ok tt, record p { groups_ordering = ordering }))
        × (get_elem? ordering (length ordering - 1) ≡ some g)
        × ((h : ℕ) → count h ordering ≡ count h p.groups_ordering)
        × IsValid variables batch (record p { groups_ordering = ordering })
  unfolding order_marginalized_in
  order_marginalized_in_lem g p v m =
      let (at, lt) = position_lem g p.groups_ordering m in
      let (back, e) =
        get_elem?-lt p.groups_ordering (length p.groups_ordering - 1) (omega (arith, lt)) in
      elim (Bool-cases (g == back)) [
        | inl same ↦ (
          p.groups_ordering,
          rw (m, e, same) refl,
          e ∙ ap (λ (n : ℕ). some n) (sym (ground arith)),
          λ h. refl,
          v,
        )
        | inr other ↦
            let (last, counts) = swap_back_lem g back p.groups_ordering m e other in
            let stored = stores g (swap_back g p.groups_ordering) p v counts in
            (
              swap_back g p.groups_ordering,
              rw (m, e, other) stored,
              last,
              counts,
              subst (IsValid variables batch)
                  (ap (λ (r : Result (Unit {0}) × IncrementalOptimizationProblem Params). r.1)
                    stored)
                  (set_groups_ordering-IsValid variables batch (swap_back g p.groups_ordering) p v),
            )
      ]

  -- Where the group is not in the ordering, the method throws InvalidOperationException and changes
  -- nothing.
  pub order_marginalized_in-missing :
      (g : ℕ) (p : IncrementalOptimizationProblem Params)
      → member g p.groups_ordering ≡ false
      → order_marginalized_in g p ≡ (err invalid_operation, p)
  unfolding order_marginalized_in
  order_marginalized_in-missing g p m = rw m refl
