-- ===== src/Problem/Access.antt =====
-- What the accessors of core/OptimizationProblem.cpp return on a problem whose containers agree.
use aslam_incremental_calibr.Common.{
  ℕ, ◌≡◌, refl, sym, ◌∙◌, List, length, get_elem?, count, bit, leb, member-keys, if◌then◌else◌,
  Dict, find, keys, ok, err, out_of_bound, or_throw, or_else, arith, inl, inr, Bool-cases,
  Result-cases, length_eq_of_count, length-keys, get_elem?-lt, get_elem?-ge, ◌≢◌, Exception,
}
use aslam_incremental_calibr.Backend.{Backend}
use aslam_incremental_calibr.Backup.{find-save_from, get-restore_from, save_from}
use aslam_incremental_calibr.Groups.{flat, new_ordering}
use aslam_incremental_calibr.Groups.Index.{count-flat, design_variable_at-flat}
use aslam_incremental_calibr.Groups.Change.{new_ordering_complete, new_ordering-ok}
use aslam_incremental_calibr.Problem.{
  OptimizationProblem, design_variable, num_design_variables, is_design_variable_in_problem,
  error_term, num_error_terms, set_groups_ordering, save_design_variables, restore_design_variables,
}
use aslam_incremental_calibr.Problem.Invariant.{IsValid}

module _ {Params : Type 0} where
  -- The design variables in the order of the groups.
  abbrev pub listing : OptimizationProblem Params → List ℕ
  listing p = flat p.design_variables p.groups_ordering

  length-listing :
      {variables : ℕ → List ℕ} (p : OptimizationProblem Params)
      → IsValid variables p
      → length (listing p) ≡ num_design_variables p
  length-listing p v =
      length_eq_of_count (listing p) (keys p.design_variables_lookup)
        (λ dv. count-flat v.grouping dv ∙ sym (v.distinct dv))
      ∙ length-keys p.design_variables_lookup

  -- On a problem whose containers agree, `designVariable(idx)` is the design variable at place `idx`
  -- in the order of the groups, and throws OutOfBoundException exactly from `numDesignVariables()`
  -- on; each design variable of the problem has one such place and nothing else has any.
  pub design_variable-listing :
      {variables : ℕ → List ℕ} (p : OptimizationProblem Params)
      → IsValid variables p
      → ((idx : ℕ)
          → design_variable p idx ≡ or_throw (get_elem? (listing p) idx) (out_of_bound idx))
        × (length (listing p) ≡ num_design_variables p)
        × ((dv : ℕ) → count dv (listing p) ≡ bit (is_design_variable_in_problem p dv))
  unfolding design_variable
  design_variable-listing p v = (
    λ idx. design_variable_at-flat (num_design_variables p) idx v.grouping (length-listing p v),
    length-listing p v,
    count-flat v.grouping,
  )

  -- On a problem whose containers agree, `errorTerm(idx)` is the error term at place `idx`, and
  -- throws OutOfBoundException exactly from `numErrorTerms()` on.
  pub error_term-listing :
      {variables : ℕ → List ℕ} (p : OptimizationProblem Params)
      → IsValid variables p
      → ((idx : ℕ) → error_term p idx ≡ or_throw (get_elem? p.error_terms idx) (out_of_bound idx))
        × (length p.error_terms ≡ num_error_terms p)
  unfolding error_term
  error_term-listing p v =
      (read, sym (length_eq_of_count p.error_terms_lookup p.error_terms v.terms_agree))
    where
      read :
          (idx : ℕ) → error_term p idx ≡ or_throw (get_elem? p.error_terms idx) (out_of_bound idx)
      read idx = elim (Bool-cases (leb (length p.error_terms) idx)) [
        | inl out ↦ rw (out, get_elem?-ge p.error_terms idx (ground arith))
        | inr inside ↦ let (et, e) = get_elem?-lt p.error_terms idx (ground arith) in rw (inside, e)
      ]

  -- On a problem whose containers agree, `setGroupsOrdering` stores a vector that holds each group
  -- as often as the present ordering does, that is once.
  pub set_groups_ordering-stores :
      {variables : ℕ → List ℕ} (ordering : List ℕ) (p : OptimizationProblem Params)
      → IsValid variables p
      → ((g : ℕ) → count g ordering ≡ count g p.groups_ordering)
      → set_groups_ordering ordering p ≡ (ok tt, record p { groups_ordering = ordering })
  unfolding set_groups_ordering
  set_groups_ordering-stores ordering p v same =
      rw (new_ordering_complete ordering v.grouping same, set_groups_ordering) refl

  -- On a problem whose containers agree, `setGroupsOrdering` throws and changes nothing on a vector
  -- that holds some group, of the problem or not, another number of times than the present ordering.
  pub set_groups_ordering-throws :
      {variables : ℕ → List ℕ} (ordering : List ℕ) (p : OptimizationProblem Params) (g : ℕ)
      → IsValid variables p
      → count g ordering ≢ count g p.groups_ordering
      → (e : Exception) × (set_groups_ordering ordering p ≡ (err e, p))
  unfolding set_groups_ordering
  set_groups_ordering-throws ordering p g v differ =
      elim (Result-cases (new_ordering p.design_variables p.groups_ordering ordering)) [
        | inl (result, h) ↦ absurd (differ ((new_ordering-ok ordering result v.grouping h).1 g))
        | inr (e, h) ↦ (e, rw (h, set_groups_ordering) refl)
      ]

module _ (b : Backend) where
  open b use {Store, Params, get_parameters}

  -- After `saveDesignVariables` in store `s`, `restoreDesignVariables` in any later store gives each
  -- design variable of the problem the parameters that it had in `s`, and each other one what an
  -- earlier backup still holds for it, or else leaves it alone.
  pub restore-save :
      (p : OptimizationProblem Params) (s later : Store) (dv : ℕ)
      → get_parameters (restore_design_variables b (save_design_variables b s p) later) dv ≡ (
          if is_design_variable_in_problem p dv
          then get_parameters s dv
          else or_else (find dv p.design_variables_backup) (get_parameters later dv))
  unfolding save_design_variables restore_design_variables
  restore-save p s later dv =
      get-restore_from b backup (keys backup) later dv
      ∙ ground (
        arith,
        find-save_from b s (keys p.design_variables_lookup) p.design_variables_backup dv,
        member-keys dv backup,
        member-keys dv p.design_variables_lookup,
      )
    where
      backup : Dict Params
      backup = save_from b s (keys p.design_variables_lookup) p.design_variables_backup
