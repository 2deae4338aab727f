-- ===== src/Estimator/Restore.antt =====
-- `restoreLinearSolver` of core/IncrementalEstimator.cpp returns on a problem whose containers agree,
-- and changes neither the problem nor any parameters.
use aslam_incremental_calibr.Common.{
  ℕ, zero, suc, ◌+◌, ◌≡◌, ◌≤◌, ◌<◌, refl, sym, ◌∙◌, ap, subst, List, [], ◌∷◌, ◌++◌, Option, length,
  get_elem?, arith, if◌then◌else◌, inl, inr, Bool-cases, Result, ok, or_throw, out_of_bound,
  get_elem?-lt,
}
use aslam_incremental_calibr.Backend.{Backend}
use aslam_incremental_calibr.Problem.{OptimizationProblem}
use aslam_incremental_calibr.Optimizer.{Optimizer}
use aslam_incremental_calibr.Groups.{flat}
use aslam_incremental_calibr.Incremental.{design_variable, num_design_variables}
use aslam_incremental_calibr.Incremental.Batches.{error_term, num_error_terms}
use aslam_incremental_calibr.Incremental.Invariant.{IsValid}
use aslam_incremental_calibr.Incremental.Access.{
  design_variable-flat, error_term-all_terms, all_terms,
}
use aslam_incremental_calibr.Estimator.{IncrementalEstimator, Session}
use aslam_incremental_calibr.Estimator.Solve.{
  place_design_variables, place_error_terms, restore_linear_solver,
}

found :
    (xs : List ℕ) (i : ℕ) (r : Result ℕ)
    → r ≡ or_throw (get_elem? xs i) (out_of_bound i)
    → i < length xs
    → (x : ℕ) × (r ≡ ok x)
found xs i r e lt =
    let (x, f) = get_elem?-lt xs i lt in
    (x, e ∙ ap (λ (o : Option ℕ). or_throw o (out_of_bound i)) f)

module _ (k : Backend) (o : Optimizer k) (variables : ℕ → List ℕ)
    (batch : ℕ → OptimizationProblem k.Params) where
  -- The estimator and the parameters are the same.
  pub record Kept (s s' : Session k o) : Type 0 where
    pub estimator : s'.estimator ≡ s.estimator
    pub parameters : (x : ℕ) → k.get_parameters s'.store x ≡ k.get_parameters s.store x

  pub Kept-trans : (s t u : Session k o) → Kept s t → Kept t u → Kept s u
  Kept-trans s t u a b = record {
    estimator = b.estimator ∙ a.estimator;
    parameters = λ x. b.parameters x ∙ a.parameters x;
  }

  -- The session after one design variable has been placed.
  abbrev placed : Session k o → ℕ → ℕ → ℕ → Session k o
  placed s dv block column = record s {
    store =
        if k.is_active s.store dv
        then o.set_column_base dv column (o.set_block_index dv block s.store)
        else s.store;
  }

  placed-Kept : (s : Session k o) (dv block column : ℕ) → Kept s (placed s dv block column)
  placed-Kept s dv block column = record {
    estimator = refl;
    parameters = λ x. elim (Bool-cases (k.is_active s.store dv)) [
      | inl active ↦ rw active (
          o.get-set_column_base dv column x (o.set_block_index dv block s.store)
          ∙ o.get-set_block_index dv block x s.store)
      | inr idle ↦ rw idle refl
    ];
  }

  place_design_variables-suc :
      (rounds i : ℕ) (dvs : List ℕ) (column : ℕ) (s : Session k o) (dv : ℕ)
      → design_variable s.estimator.problem i ≡ ok dv
      → place_design_variables k o batch (suc rounds) i dvs column s
        ≡ place_design_variables k o batch rounds
            (i + 1)
            (if k.is_active s.store dv then dvs ++ dv ∷ [] else dvs)
            (column
              + (if k.is_active s.store dv
                  then k.minimal_dimensions (placed s dv (length dvs) column).store dv
                  else 0))
            (placed s dv (length dvs) column)
  unfolding place_design_variables
  place_design_variables-suc rounds i dvs column s dv e = rw e refl

  place_design_variables-Kept :
      (rounds i : ℕ) (dvs : List ℕ) (column : ℕ) (s : Session k o)
      → IsValid variables batch s.estimator.problem
      → i + rounds ≤ num_design_variables s.estimator.problem
      → (out : List ℕ) × (s' : Session k o) × (place_design_variables k o batch rounds i dvs column
            s
          ≡ (ok out, s'))
        × Kept s s'
  unfolding place_design_variables
  place_design_variables-Kept zero i dvs column s v le =
      (dvs, s, refl, record { estimator = refl; parameters = λ x. refl })
  place_design_variables-Kept (suc rounds) i dvs column s v le =
      let p = s.estimator.problem in
      let (read, sized, listed) = design_variable-flat variables batch p v in
      let (dv, e) =
        found (flat p.design_variables p.groups_ordering) i (design_variable p i) (read i)
          (omega (arith, sized, le)) in
      let t = placed s dv (length dvs) column in
      let (out, s', run, kept) =
        place_design_variables-Kept rounds (i + 1)
          (if k.is_active s.store dv then dvs ++ dv ∷ [] else dvs)
          (column + (if k.is_active s.store dv then k.minimal_dimensions t.store dv else 0)) t v
          (omega (arith, le)) in
      (
        out,
        s',
        place_design_variables-suc rounds i dvs column s dv e ∙ run,
        Kept-trans s t s' (placed-Kept s dv (length dvs) column) kept,
      )

  place_error_terms-suc :
      (rounds i : ℕ) (ets : List ℕ) (dim : ℕ) (s : Session k o) (et : ℕ)
      → error_term batch s.estimator.problem i ≡ ok et
      → let t = record s { store = o.set_row_base et dim s.store } in
        place_error_terms k o batch (suc rounds) i ets dim s
        ≡ place_error_terms k o batch rounds
            (i + 1)
            (ets ++ et ∷ [])
            (dim + o.dimension t.store et)
            t
  unfolding place_error_terms
  place_error_terms-suc rounds i ets dim s et e = rw e refl

  place_error_terms-Kept :
      (rounds i : ℕ) (ets : List ℕ) (dim : ℕ) (s : Session k o)
      → IsValid variables batch s.estimator.problem
      → i + rounds ≤ num_error_terms batch s.estimator.problem
      → (out : List ℕ) × (s' : Session k o) × (place_error_terms k o batch rounds i ets dim s
          ≡ (ok out, s'))
        × Kept s s'
  unfolding place_error_terms
  place_error_terms-Kept zero i ets dim s v le =
      (ets, s, refl, record { estimator = refl; parameters = λ x. refl })
  place_error_terms-Kept (suc rounds) i ets dim s v le =
      let p = s.estimator.problem in
      let (read, sized) = error_term-all_terms variables batch p v in
      let (et, e) =
        found (all_terms batch p.optimization_problems) i (error_term batch p i) (read i)
          (omega (arith, sized, le)) in
      let t : Session k o = record s { store = o.set_row_base et dim s.store } in
      let (out, s', run, kept) =
        place_error_terms-Kept rounds (i + 1) (ets ++ et ∷ []) (dim + o.dimension t.store et) t v
          (omega (arith, le)) in
      (
        out,
        s',
        place_error_terms-suc rounds i ets dim s et e ∙ run,
        Kept-trans s t s'
            (record { estimator = refl; parameters = λ x. o.get-set_row_base et dim x s.store })
            kept,
      )

  restore_stages :
      (s s1 s2 : Session k o) (dvs ets : List ℕ)
      → place_design_variables k o batch (num_design_variables s.estimator.problem) 0 [] 0 s
        ≡ (ok dvs, s1)
      → place_error_terms k o batch (num_error_terms batch s1.estimator.problem) 0 [] 0 s1
        ≡ (ok ets, s2)
      → restore_linear_solver k o batch s ≡ (
        ok tt,
        record s2 {
          outside = o.build_system s2.store (o.init_matrix_structure dvs ets s2.store s2.outside);
        },
      )
  unfolding restore_linear_solver
  restore_stages s s1 s2 dvs ets run1 run2 = rw (run1, run2) refl

  pub restore_linear_solver-Kept :
      (s : Session k o)
      → IsValid variables batch s.estimator.problem
      → (s' : Session k o) × (restore_linear_solver k o batch s ≡ (ok tt, s')) × Kept s s'
  restore_linear_solver-Kept s v =
      let (dvs, s1, run1, kept1) =
        place_design_variables-Kept (num_design_variables s.estimator.problem) 0 [] 0 s v
          (omega arith) in
      let v1 : IsValid variables batch s1.estimator.problem =
        subst (λ (e : IncrementalEstimator k o). IsValid variables batch e.problem)
          (sym kept1.estimator) v in
      let (ets, s2, run2, kept2) =
        place_error_terms-Kept (num_error_terms batch s1.estimator.problem) 0 [] 0 s1 v1
          (omega arith) in
      let kept = Kept-trans s s1 s2 kept1 kept2 in
      (
        record s2 {
          outside = o.build_system s2.store (o.init_matrix_structure dvs ets s2.store s2.outside);
        },
        restore_stages s s1 s2 dvs ets run1 run2,
        record { estimator = kept.estimator; parameters = kept.parameters },
      )
