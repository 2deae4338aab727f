-- ===== src/Incremental/Access.antt =====
-- What the accessors of core/IncrementalOptimizationProblem.cpp return, and saving and restoring
-- there.
use aslam_incremental_calibr.Common.{
  ℕ, suc, ◌+◌, ◌-◌, ◌≡◌, ◌≤◌, ◌<◌, refl, sym, ◌∙◌, ap, true, List, [], ◌∷◌, ◌++◌, Option, none,
  some, length, get_elem?, member, count, bit, ltb, if◌then◌else◌, Dict, find, keys, or_else,
  Result, ok, err, out_of_bound, out_of_range, or_throw, arith, inl, inr, Bool-cases, length-append,
  length_eq_of_count, length-keys, member-keys, get_elem?-append_left, get_elem?-append_right,
  get_elem?-lt, Option-cases,
}
use aslam_incremental_calibr.Backend.{Backend}
use aslam_incremental_calibr.Backup.{find-save_from, get-restore_from, save_from}
use aslam_incremental_calibr.Groups.{flat}
use aslam_incremental_calibr.Groups.Index.{count-flat, design_variable_at-flat}
use aslam_incremental_calibr.Problem
use aslam_incremental_calibr.Problem.{OptimizationProblem}
use aslam_incremental_calibr.Problem.Invariant
use aslam_incremental_calibr.Problem.Access.{error_term-listing}
use aslam_incremental_calibr.Incremental.{
  IncrementalOptimizationProblem, design_variable, num_design_variables,
  is_design_variable_in_problem,
}
use aslam_incremental_calibr.Incremental.Batches.{
  get_error_idx_from, error_term, num_error_terms, sum_error_terms, save_design_variables,
  restore_design_variables,
}
use aslam_incremental_calibr.Incremental.Tally.{entry}
use aslam_incremental_calibr.Incremental.Invariant.{IsValid}

module _ {Params : Type 0} (batch : ℕ → OptimizationProblem Params) where
  -- The error terms of the batches, in their order.
  abbrev pub all_terms : List ℕ → List ℕ
  all_terms [] = []
  all_terms (b ∷ problems) = (batch b).error_terms ++ all_terms problems

  -- What `errorTermImplementation` does with a place.
  abbrev read : List ℕ → Result (ℕ × ℕ) → Result ℕ
  read whole place = elim place [
    | err e ↦ err e
    | ok (batch_idx, idx_batch) ↦ elim (get_elem? whole batch_idx) [
      | none ↦ err out_of_range
      | some b ↦ Problem.error_term (batch b) idx_batch
    ]
  ]

  read_at :
      (whole : List ℕ) (i j b : ℕ)
      → get_elem? whole i ≡ some b
      → read whole (ok (i, j)) ≡ Problem.error_term (batch b) j
  read_at whole i j b e = rw (e, read)

module _ {Params : Type 0} (variables : ℕ → List ℕ) (batch : ℕ → OptimizationProblem Params) where
  AllValid : List ℕ → Type 0
  AllValid problems = (b : ℕ) → member b problems ≡ true → Invariant.IsValid variables (batch b)

  read-get_error_idx_from :
      (whole problems : List ℕ) (idx batch_idx running : ℕ)
      → AllValid problems
      → ((i : ℕ) → get_elem? whole (batch_idx + i) ≡ get_elem? problems i)
      → running ≤ idx
      → read batch whole (get_error_idx_from batch problems idx batch_idx running)
        ≡ or_throw (get_elem? (all_terms batch problems) (idx - running)) (out_of_bound idx)
  unfolding AllValid get_error_idx_from
  read-get_error_idx_from whole [] idx batch_idx running v at le = refl
  read-get_error_idx_from whole (b ∷ problems) idx batch_idx running v at le =
      elim (Bool-cases (ltb idx (running + Problem.num_error_terms (batch b)))) [
        | inl inside ↦
            let lt : idx - running < length (batch b).error_terms = ground (arith, terms.1) in
            let (et, e) = get_elem?-lt (batch b).error_terms (idx - running) lt in
            rw (inside, read_at batch whole batch_idx (idx - running) b here)
              (terms.0 (idx - running)
                ∙ ap (λ (o : Option ℕ). or_throw o (out_of_bound (idx - running))) e
                ∙ ap (λ (o : Option ℕ). or_throw o (out_of_bound idx))
                    (sym (
                      get_elem?-append_left (batch b).error_terms (all_terms batch problems)
                        (idx - running) lt
                      ∙ e)))
        | inr beyond ↦
            let far : length (batch b).error_terms ≤ idx - running = ground (arith, terms.1) in
            rw beyond (
              read-get_error_idx_from whole problems idx (batch_idx + 1)
                (running + Problem.num_error_terms (batch b)) (λ c m. v c (ground (arith, m)))
                (λ i. ap (get_elem? whole) (omega arith) ∙ at (suc i)) (ground arith)
              ∙ ap (λ (o : Option ℕ). or_throw o (out_of_bound idx))
                  (ap (get_elem? (all_terms batch problems)) (omega (arith, terms.1))
                    ∙ sym (
                        get_elem?-append_right (batch b).error_terms (all_terms batch problems)
                          (idx - running) far)))
      ]
    where
      here : get_elem? whole batch_idx ≡ some b
      here = ap (get_elem? whole) (omega arith) ∙ at 0

      terms :
          ((i : ℕ)
            → Problem.error_term (batch b) i
              ≡ or_throw (get_elem? (batch b).error_terms i) (out_of_bound i))
          × (length (batch b).error_terms ≡ Problem.num_error_terms (batch b))
      terms = error_term-listing (batch b) (v b (ground arith))

  length-all_terms :
      (problems : List ℕ)
      → AllValid problems
      → sum_error_terms batch problems ≡ length (all_terms batch problems)
  unfolding AllValid sum_error_terms
  length-all_terms [] v = refl
  length-all_terms (b ∷ problems) v = omega (
    arith,
    (error_term-listing (batch b) (v b (ground arith))).1,
    length-append (batch b).error_terms (all_terms batch problems),
    length-all_terms problems (λ c m. v c (ground (arith, m))),
  )

  -- `errorTerm(idx)` is the error term at place `idx` of the batches' error terms one after another,
  -- and throws OutOfBoundException exactly from `numErrorTerms()` on, which is their number.
  pub error_term-all_terms :
      (p : IncrementalOptimizationProblem Params)
      → IsValid variables batch p
      → ((idx : ℕ)
          → error_term batch p idx
            ≡ or_throw (get_elem? (all_terms batch p.optimization_problems) idx) (out_of_bound idx))
        × (num_error_terms batch p ≡ length (all_terms batch p.optimization_problems))
  unfolding AllValid error_term
  error_term-all_terms p v = (
    λ idx.
        read-get_error_idx_from p.optimization_problems p.optimization_problems idx 0 0 v.batches
          (λ i. ap (get_elem? p.optimization_problems) (omega arith)) (omega arith)
        ∙ ap
            (λ (i : ℕ).
              or_throw (get_elem? (all_terms batch p.optimization_problems) i) (out_of_bound idx))
            (omega arith),
    length-all_terms p.optimization_problems v.batches,
  )

  -- `designVariable(idx)` is the design variable at place `idx` in the order of the groups, and
  -- throws OutOfBoundException exactly from `numDesignVariables()` on; each design variable that some
  -- batch uses has one such place and nothing else has any.
  pub design_variable-flat :
      (p : IncrementalOptimizationProblem Params)
      → IsValid variables batch p
      → ((idx : ℕ)
          → design_variable p idx
            ≡ or_throw
                (get_elem? (flat p.design_variables p.groups_ordering) idx)
                (out_of_bound idx))
        × (length (flat p.design_variables p.groups_ordering) ≡ num_design_variables p)
        × ((dv : ℕ)
            → count dv (flat p.design_variables p.groups_ordering)
              ≡ bit (is_design_variable_in_problem p dv))
  unfolding design_variable
  design_variable-flat p v = (
    λ idx. design_variable_at-flat (num_design_variables p) idx v.tallied.grouping sized,
    sized,
    listed,
  )
    where
      listed :
          (dv : ℕ)
          → count dv (flat p.design_variables p.groups_ordering)
            ≡ bit (is_design_variable_in_problem p dv)
      listed dv = elim (Option-cases (entry p dv)) [
        | inl e ↦ ground (arith, count-flat v.tallied.grouping dv, e)
        | inr (entry, e) ↦ ground (arith, count-flat v.tallied.grouping dv, e)
      ]

      sized : length (flat p.design_variables p.groups_ordering) ≡ num_design_variables p
      sized =
          length_eq_of_count (flat p.design_variables p.groups_ordering)
            (keys p.design_variables_counts) (λ dv. listed dv ∙ sym (v.tallied.distinct dv))
          ∙ length-keys p.design_variables_counts

module _ (b : Backend) where
  open b use {Store, Params, get_parameters}

  -- After `saveDesignVariables` in store `s`, `restoreDesignVariables` in any later store gives each
  -- design variable of the problem the parameters that it had in `s`, and each other one what an
  -- earlier backup still holds for it, or else leaves it alone.
  pub restore_design_variables-save :
      (p : IncrementalOptimizationProblem Params) (s later : Store) (dv : ℕ)
      → get_parameters (restore_design_variables b (save_design_variables b s p) later) dv ≡ (
          if is_design_variable_in_problem p dv
          then get_parameters s dv
          else or_else (find dv p.design_variables_backup) (get_parameters later dv))
  unfolding save_design_variables restore_design_variables
  restore_design_variables-save p s later dv =
      get-restore_from b backup (keys backup) later dv
      ∙ ground (
        arith,
        find-save_from b s (keys p.design_variables_counts) p.design_variables_backup dv,
        member-keys dv backup,
        member-keys dv p.design_variables_counts,
      )
    where
      backup : Dict Params
      backup = save_from b s (keys p.design_variables_counts) p.design_variables_backup
