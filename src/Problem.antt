-- ===== src/Problem.antt =====
-- incremental_calibration/src/core/OptimizationProblem.cpp and its header: design variables in
-- groups, and error terms over them. Pointers are numbers, a null shared pointer is `none`.
pub mod Invariant
pub mod History
pub mod Access
mod Tests
use aslam_incremental_calibr.Common.{
  ℕ, ◌≡◌, ◌≤◌, Bool, true, false, List, [], ◌∷◌, ◌++◌, Option, none, some, length, get_elem?,
  member, count, leb, if◌then◌else◌, Dict, find, contains, insert, put, keys, Distinct, Result, ok,
  err, Exception, null_pointer, invalid_operation, out_of_bound, out_of_range, undefined_behaviour,
  Method, or_throw, ◌>>=◌, ◌>>◌,
}
use aslam_incremental_calibr.Permute.{permute}
use aslam_incremental_calibr.Backend.{Backend}
use aslam_incremental_calibr.Backup.{save_from, restore_from}
use aslam_incremental_calibr.Groups.{
  Groups, group, new_ordering, design_variable_at, sum_dims, IsGrouping,
}

pub record OptimizationProblem (Params : Type 0) : Type 0 where
  pub design_variables_lookup : Dict ℕ
  pub error_terms_lookup : List ℕ
  pub design_variables : Groups
  pub error_terms : List ℕ
  pub groups_ordering : List ℕ
  pub design_variables_backup : Dict Params

-- `insert` of a std::set, of which only the members count.
abbrev pub insert_error : ℕ → List ℕ → List ℕ
insert_error et out_error_set =
    if member et out_error_set then out_error_set else et ∷ out_error_set

-- Loop of `getErrorsImplementation` over the error terms.
unfoldable pub errors_of : (ℕ → List ℕ) → ℕ → List ℕ → List ℕ → List ℕ
errors_of variables dv [] out_error_set = out_error_set
errors_of variables dv (et ∷ ets) out_error_set =
    errors_of variables dv ets
      (if member dv (variables et) then insert_error et out_error_set else out_error_set)

module _ {Params : Type 0} where
  -- The constructor, and what `clear` leaves.
  abbrev pub empty : OptimizationProblem Params
  empty = record {
    design_variables_lookup = [];
    error_terms_lookup = [];
    design_variables = [];
    error_terms = [];
    groups_ordering = [];
    design_variables_backup = [];
  }

  abbrev pub is_group_in_problem : OptimizationProblem Params → ℕ → Bool
  is_group_in_problem p group_id = contains group_id p.design_variables

  abbrev pub is_design_variable_in_problem : OptimizationProblem Params → ℕ → Bool
  is_design_variable_in_problem p dv = contains dv p.design_variables_lookup

  abbrev pub is_error_term_in_problem : OptimizationProblem Params → ℕ → Bool
  is_error_term_in_problem p et = member et p.error_terms_lookup

  unfoldable pub get_design_variables_group : OptimizationProblem Params → ℕ → Result (List ℕ)
  get_design_variables_group p group_id =
      if is_group_in_problem p group_id
      then or_throw (find group_id p.design_variables) out_of_range
      else err (out_of_bound group_id)

  abbrev pub get_num_groups : OptimizationProblem Params → ℕ
  get_num_groups p = length p.groups_ordering

  unfoldable pub set_groups_ordering : List ℕ → Method (OptimizationProblem Params) (Unit {0})
  set_groups_ordering groups_ordering p =
      elim (new_ordering p.design_variables p.groups_ordering groups_ordering) [
        | ok ordering ↦ (ok tt, record p { groups_ordering = ordering })
        | err e ↦ (err e, p)
      ]

  -- `getGroupId(designVariable)`
  unfoldable pub get_group_id : OptimizationProblem Params → ℕ → Result ℕ
  get_group_id p dv =
      if is_design_variable_in_problem p dv
      then or_throw (find dv p.design_variables_lookup) out_of_range
      else err invalid_operation

  unfoldable pub add_design_variable : Option ℕ → ℕ → Method (OptimizationProblem Params) (Unit {0})
  add_design_variable none group_id p = (err null_pointer, p)
  add_design_variable (some dv) group_id p =
      if is_design_variable_in_problem p dv then (err invalid_operation, p) else (
        ok tt,
        record p {
          design_variables_lookup = insert dv group_id p.design_variables_lookup;
          groups_ordering =
              if is_group_in_problem p group_id
              then p.groups_ordering
              else p.groups_ordering ++ group_id ∷ [];
          design_variables =
              put group_id (group p.design_variables group_id ++ dv ∷ []) p.design_variables;
        },
      )

  -- Loop of `addErrorTerm` over the design variables of the error term.
  unfoldable pub check_design_variables : OptimizationProblem Params → List ℕ → Result (Unit {0})
  check_design_variables p [] = ok tt
  check_design_variables p (dv ∷ dvs) =
      let rest = check_design_variables p dvs in
      if is_design_variable_in_problem p dv then rest else err invalid_operation

  -- `variables` gives the design variables of an error term.
  unfoldable pub add_error_term :
      (ℕ → List ℕ) → Option ℕ → Method (OptimizationProblem Params) (Unit {0})
  unfolding check_design_variables
  add_error_term variables none p = (err null_pointer, p)
  add_error_term variables (some et) p =
      if is_error_term_in_problem p et
      then (err invalid_operation, p)
      else elim (check_design_variables p (variables et)) [
        | err e ↦ (err e, p)
        | ok _ ↦ (
          ok tt,
          record p {
            error_terms_lookup = et ∷ p.error_terms_lookup;
            error_terms = p.error_terms ++ et ∷ [];
          },
        )
      ]

  unfoldable pub clear : Method (OptimizationProblem Params) (Unit {0})
  clear p = (ok tt, empty)

  abbrev pub num_design_variables : OptimizationProblem Params → ℕ
  num_design_variables p = length p.design_variables_lookup

  unfoldable pub design_variable : OptimizationProblem Params → ℕ → Result ℕ
  design_variable p idx =
      design_variable_at p.design_variables p.groups_ordering (num_design_variables p) idx

  abbrev pub num_error_terms : OptimizationProblem Params → ℕ
  num_error_terms p = length p.error_terms_lookup

  unfoldable pub error_term : OptimizationProblem Params → ℕ → Result ℕ
  error_term p idx =
      if leb (length p.error_terms) idx
      then err (out_of_bound idx)
      else or_throw (get_elem? p.error_terms idx) undefined_behaviour

  unfoldable pub permute_error_terms : List ℕ → Method (OptimizationProblem Params) (Unit {0})
  permute_error_terms permutation p =
      let (r, error_terms) = permute permutation p.error_terms in
      (r, record p { error_terms = error_terms })

  unfoldable pub permute_design_variables :
      List ℕ → ℕ → Method (OptimizationProblem Params) (Unit {0})
  permute_design_variables permutation group_id p =
      if is_group_in_problem p group_id
      then (let (r, dvs) = permute permutation (group p.design_variables group_id) in
          (r, record p { design_variables = put group_id dvs p.design_variables }))
      else (err (out_of_bound group_id), p)

module _ (b : Backend) where
  open b use {Store, Params, is_active, minimal_dimensions}

  unfoldable pub get_group_dim : Store → OptimizationProblem Params → ℕ → Result ℕ
  unfolding get_design_variables_group
  get_group_dim s p group_id = do
    design_variables ← get_design_variables_group p group_id
    ok (sum_dims (is_active s) (minimal_dimensions s) design_variables)

  unfoldable pub save_design_variables :
      Store → OptimizationProblem Params → OptimizationProblem Params
  unfolding save_from
  save_design_variables s p = record p {
    design_variables_backup =
        save_from b s (keys p.design_variables_lookup) p.design_variables_backup;
  }

  -- The problem stays as it is; the design variables change.
  unfoldable pub restore_design_variables : OptimizationProblem Params → Store → Store
  unfolding restore_from
  restore_design_variables p =
      restore_from b p.design_variables_backup (keys p.design_variables_backup)
