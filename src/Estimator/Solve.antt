-- ===== src/Estimator/Solve.antt =====
-- The parts of core/IncrementalEstimator.cpp that prepare the linear solver: the place of the
-- marginalized group, the marginalization index and the indices of columns and rows.
use aslam_incremental_calibr.Common.{
  ℕ, zero, suc, ◌+◌, ◌-◌, not, List, [], ◌∷◌, ◌++◌, none, some, length, get_elem?, member, ◌==◌,
  if◌then◌else◌, Result, ok, err, invalid_operation, Method,
}
use aslam_incremental_calibr.Common.Stateful.{pure, ask, ◌>>=◌, ◌>>◌, modify}
use aslam_incremental_calibr.Backend.{Backend}
use aslam_incremental_calibr.Permute.{swap}
use aslam_incremental_calibr.Problem.{OptimizationProblem}
use aslam_incremental_calibr.Optimizer.{Optimizer, SolutionReturnValue}
use aslam_incremental_calibr.Incremental
use aslam_incremental_calibr.Incremental.{IncrementalOptimizationProblem, position}
use aslam_incremental_calibr.Incremental.Batches
use aslam_incremental_calibr.Estimator.{Session, on_problem}

-- `std::swap` of the found element and the last one.
unfoldable pub swap_back : ℕ → List ℕ → List ℕ
unfolding swap
swap_back g ordering = swap ordering (position g ordering) (length ordering - 1)

module _ {Params : Type 0} where
  -- `orderMarginalizedDesignVariables`, which changes the problem only.
  unfoldable pub order_marginalized_in :
      ℕ → Method (IncrementalOptimizationProblem Params) (Unit {0})
  unfolding swap_back
  order_marginalized_in g p =
      if not (member g p.groups_ordering)
      then (err invalid_operation, p)
      else elim (get_elem? p.groups_ordering (length p.groups_ordering - 1)) [
        | none ↦ (ok tt, p)
        | some back ↦
            if not (g == back)
            then Incremental.set_groups_ordering (swap_back g p.groups_ordering) p
            else (ok tt, p)
      ]

module _ (k : Backend) where
  -- The loop over the groups that sums their dimensions to `JCols`.
  unfoldable pub sum_group_dims :
      k.Store → IncrementalOptimizationProblem k.Params → List ℕ → Result ℕ
  sum_group_dims s p [] = ok 0
  sum_group_dims s p (g ∷ ordering) = elim (Batches.get_group_dim k s p g) [
    | err e ↦ err e
    | ok dim ↦ elim (sum_group_dims s p ordering) [ err e ↦ err e | ok j_cols ↦ ok (dim + j_cols) ]
  ]

  -- `JCols - dim`
  unfoldable pub marg_start_index : k.Store → IncrementalOptimizationProblem k.Params → ℕ → Result ℕ
  unfolding sum_group_dims
  marg_start_index s p g = elim (sum_group_dims s p p.groups_ordering) [
    | err e ↦ err e
    | ok j_cols ↦ elim (Batches.get_group_dim k s p g) [
      | err e ↦ err e
      | ok dim ↦ ok (j_cols - dim)
    ]
  ]

module _ (k : Backend) (o : Optimizer k) (batch : ℕ → OptimizationProblem k.Params) where
  unfoldable pub order_marginalized_design_variables : Method (Session k o) (Unit {0})
  unfolding order_marginalized_in
  order_marginalized_design_variables s =
      on_problem k o (order_marginalized_in s.estimator.marg_group_id) s

  -- What `reoptimize` and `addBatch` do first with the linear solver: set its marginalization index
  -- and optimize.
  unfoldable pub optimize_marginalized : Method (Session k o) (SolutionReturnValue o.Number)
  unfolding marg_start_index
  optimize_marginalized = do
    index ← ask (λ s. marg_start_index k s.store s.estimator.problem s.estimator.marg_group_id)
    λ s.
        let (srv, after) =
          o.optimize s.estimator.problem (o.set_marg_start_index index s.outside, s.store) in
        (ok srv, record s { outside = after.0; store = after.1 })

  -- `restoreLinearSolver`: the loop over the design variables, from index `i` on with `dvs` pushed so
  -- far; only the active ones get a block and a column.
  unfoldable pub place_design_variables : ℕ → ℕ → List ℕ → ℕ → Method (Session k o) (List ℕ)
  place_design_variables zero i dvs column_base = pure dvs
  place_design_variables (suc rounds) i dvs column_base = do
    dv ← ask (λ s. Incremental.design_variable s.estimator.problem i)
    active ← ask (λ s. ok (k.is_active s.store dv))
    modify (λ s. record s {
      store =
          if active
          then o.set_column_base dv column_base (o.set_block_index dv (length dvs) s.store)
          else s.store;
    })
    dim ← ask (λ s. ok (if active then k.minimal_dimensions s.store dv else 0))
    place_design_variables rounds (i + 1) (if active then dvs ++ dv ∷ [] else dvs)
        (column_base + dim)

  -- The loop over the error terms.
  unfoldable pub place_error_terms : ℕ → ℕ → List ℕ → ℕ → Method (Session k o) (List ℕ)
  place_error_terms zero i ets dim = pure ets
  place_error_terms (suc rounds) i ets dim = do
    et ← ask (λ s. Batches.error_term batch s.estimator.problem i)
    modify (λ s. record s { store = o.set_row_base et dim s.store })
    more ← ask (λ s. ok (o.dimension s.store et))
    place_error_terms rounds (i + 1) (ets ++ et ∷ []) (dim + more)

  unfoldable pub restore_linear_solver : Method (Session k o) (Unit {0})
  unfolding place_design_variables place_error_terms
  restore_linear_solver = do
    num_dvs ← ask (λ s. ok (Incremental.num_design_variables s.estimator.problem))
    dvs ← place_design_variables num_dvs 0 [] 0
    num_ets ← ask (λ s. ok (Batches.num_error_terms batch s.estimator.problem))
    ets ← place_error_terms num_ets 0 [] 0
    modify (λ s. record s {
      outside = o.build_system s.store (o.init_matrix_structure dvs ets s.store s.outside);
    })
