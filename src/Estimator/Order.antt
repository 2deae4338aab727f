-- ===== src/Estimator/Order.antt =====
-- The place of the marginalized group (core/IncrementalEstimator.cpp,
-- orderMarginalizedDesignVariables) and the marginalization index that `reoptimize` and `addBatch`
-- compute from it.
use aslam_incremental_calibr.Common.{
  ℕ, ◌+◌, ◌-◌, ◌≡◌, ◌<◌, refl, sym, ◌∙◌, ap, Bool, true, List, [], ◌∷◌, ◌++◌, length, member, count,
  arith, ok, contains, ends_in, append_assoc, append_nil, member-count,
}
use aslam_incremental_calibr.Backend.{Backend}
use aslam_incremental_calibr.Groups.{Groups, group, flat, sum_dims}
use aslam_incremental_calibr.Groups.Index.{AllGroups, IsGrouping-AllGroups, group_of_find}
use aslam_incremental_calibr.Problem.{OptimizationProblem}
use aslam_incremental_calibr.Incremental.{
  IncrementalOptimizationProblem, get_design_variables_group,
}
use aslam_incremental_calibr.Incremental.Batches.{get_group_dim}
use aslam_incremental_calibr.Incremental.Invariant.{IsValid}
use aslam_incremental_calibr.Estimator.Solve.{
  order_marginalized_in, sum_group_dims, marg_start_index,
}
use aslam_incremental_calibr.Estimator.Swap.{order_marginalized_in_lem}

-- The dimensions of concatenated lists add up.
sum_dims-append :
    (act : ℕ → Bool) (dim : ℕ → ℕ) (xs ys : List ℕ)
    → sum_dims act dim (xs ++ ys) ≡ sum_dims act dim xs + sum_dims act dim ys
unfolding sum_dims
sum_dims-append act dim [] ys = omega arith
sum_dims-append act dim (x ∷ xs) ys = omega (arith, sum_dims-append act dim xs ys)

flat-append :
    (groups : Groups) (xs ys : List ℕ) → flat groups (xs ++ ys) ≡ flat groups xs ++ flat groups ys
unfolding flat
flat-append groups [] ys = refl
flat-append groups (g ∷ xs) ys =
    ap (λ l. group groups g ++ l) (flat-append groups xs ys)
    ∙ sym (append_assoc (group groups g) (flat groups xs) (flat groups ys))

module _ (k : Backend) where
  abbrev pub dims : k.Store → List ℕ → ℕ
  dims s = sum_dims (k.is_active s) (k.minimal_dimensions s)

  get_group_dim_found :
      (s : k.Store) (p : IncrementalOptimizationProblem k.Params) (g : ℕ)
      → contains g p.design_variables ≡ true
      → get_group_dim k s p g ≡ ok (dims s (group p.design_variables g))
  unfolding get_group_dim get_design_variables_group
  get_group_dim_found s p g there =
      rw
        (there, get_group_dim, get_design_variables_group, group_of_find p.design_variables g there)
        refl

  sum_group_dims-flat :
      (s : k.Store) (p : IncrementalOptimizationProblem k.Params) (ordering : List ℕ)
      → AllGroups p.design_variables ordering
      → sum_group_dims k s p ordering ≡ ok (dims s (flat p.design_variables ordering))
  unfolding sum_group_dims flat sum_dims
  sum_group_dims-flat s p [] all = refl
  sum_group_dims-flat s p (g ∷ ordering) all =
      rw (get_group_dim_found s p g all.0, sum_group_dims, sum_group_dims-flat s p ordering all.1)
        (ap (λ (n : ℕ). ok n)
          (sym (
            sum_dims-append (k.is_active s) (k.minimal_dimensions s) (group p.design_variables g)
              (flat p.design_variables ordering))))

  pub marg_start_index_last :
      (s : k.Store) (p : IncrementalOptimizationProblem k.Params) (before : List ℕ) (g : ℕ)
      → AllGroups p.design_variables p.groups_ordering
      → contains g p.design_variables ≡ true
      → p.groups_ordering ≡ before ++ g ∷ []
      → marg_start_index k s p g ≡ ok (dims s (flat p.design_variables before))
  unfolding marg_start_index flat
  marg_start_index_last s p before g all there e =
      rw
        (
          sum_group_dims-flat s p p.groups_ordering all,
          marg_start_index,
          get_group_dim_found s p g there,
        )
        (ap (λ (n : ℕ). ok n) (omega (arith, parts, whole)))
    where
      whole :
          dims s (flat p.design_variables p.groups_ordering)
          ≡ dims s (flat p.design_variables before ++ flat p.design_variables (g ∷ []))
      whole =
          ap (λ l. dims s (flat p.design_variables l)) e
          ∙ ap (dims s) (flat-append p.design_variables before (g ∷ []))

      last : flat p.design_variables (g ∷ []) ≡ group p.design_variables g
      last = append_nil (group p.design_variables g)

      parts :
          dims s (flat p.design_variables before ++ flat p.design_variables (g ∷ []))
          ≡ dims s (flat p.design_variables before) + dims s (group p.design_variables g)
      parts =
          sum_dims-append (k.is_active s) (k.minimal_dimensions s) (flat p.design_variables before)
            (flat p.design_variables (g ∷ []))
          ∙ ap (λ l. dims s (flat p.design_variables before) + dims s l) last

module _ (k : Backend) (variables : ℕ → List ℕ) (batch : ℕ → OptimizationProblem k.Params) where
  -- In a problem whose containers agree and which has the marginalized group,
  -- `orderMarginalizedDesignVariables` returns: `setGroupsOrdering` does not throw, the group comes
  -- last in an ordering of the same groups, the rest of the problem is as before and the containers
  -- still agree. The marginalization index that is computed next, `JCols - dim`, is then the sum of
  -- the dimensions of the active design variables in all the other groups, those that stand before
  -- the marginalized ones; no group lookup throws on the way.
  pub marginalized_last :
      (s : k.Store) (g : ℕ) (p : IncrementalOptimizationProblem k.Params)
      → IsValid variables batch p
      → member g p.groups_ordering ≡ true
      → (before : List ℕ) × (q : IncrementalOptimizationProblem k.Params) × (q
          ≡ record p { groups_ordering = before ++ g ∷ [] })
        × (order_marginalized_in g p ≡ (ok tt, q))
        × ((h : ℕ) → count h (before ++ g ∷ []) ≡ count h p.groups_ordering)
        × IsValid variables batch q
        × (marg_start_index k s q g ≡ ok (dims k s (flat p.design_variables before)))
  marginalized_last s g p v m =
      let (ordering, run, last, counts, w) = order_marginalized_in_lem variables batch g p v m in
      let some_groups : 0 < length ordering =
        ground (arith, m, member-count g p.groups_ordering, counts g, count-nil ordering g) in
      let (before, e) =
        ends_in ordering g (length ordering - 1) (omega (arith, some_groups)) last in
      let q = record p { groups_ordering = ordering } in
      let all : AllGroups q.design_variables q.groups_ordering =
        IsGrouping-AllGroups w.tallied.grouping in
      (
        before,
        q,
        ap (λ l. record p { groups_ordering = l }) e,
        run,
        λ h. ap (count h) (sym e) ∙ counts h,
        w,
        marg_start_index_last k s q before g all
            (ground (arith, m, member-count g p.groups_ordering, v.tallied.grouping.ordered g)) e,
      )
    where
      count-nil : (xs : List ℕ) (h : ℕ) → 0 < count h xs → 0 < length xs
      count-nil [] h lt = absurd (omega (arith, lt))
      count-nil (x ∷ xs) h lt = omega arith
