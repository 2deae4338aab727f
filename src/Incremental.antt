-- ===== src/Incremental.antt =====
-- incremental_calibration/src/core/IncrementalOptimizationProblem.cpp and its header: a container of
-- optimization problems (batches) that share design variables. A batch is a pointer; `batch` gives
-- the OptimizationProblem behind it.
pub mod Batches
pub mod Tally
pub mod Untally
pub mod Loops
pub mod AddLoop
pub mod RemoveLoop
pub mod Uses
pub mod Invariant
pub mod Add
pub mod Grow
pub mod Shrink
pub mod Reorder
pub mod History
pub mod Access
pub mod Ordered
pub mod Frame
mod Tests
use aslam_incremental_calibr.Common.{
  ℕ, zero, suc, ◌+◌, ◌-◌, ◌*◌, ◌^◌, ◌%◌, ◌≡◌, ◌≤◌, Bool, true, false, not, List, [], ◌∷◌, ◌++◌,
  Option, none, some, length, get_elem?, member, count, leb, ltb, ◌==◌, if◌then◌else◌, Dict, find,
  contains, insert, put, erase, keys, or_else, Result, ok, err, Exception, null_pointer,
  invalid_operation, out_of_bound, out_of_range, undefined_behaviour, Method, or_throw, ◌>>=◌,
}
use aslam_incremental_calibr.Common.Stateful
use aslam_incremental_calibr.Permute.{permute}
use aslam_incremental_calibr.Backend.{Backend}
use aslam_incremental_calibr.Backup.{save_from, restore_from}
use aslam_incremental_calibr.Groups.{
  Groups, group, new_ordering, design_variable_at, sum_dims, drop_variable,
}
use aslam_incremental_calibr.Problem
use aslam_incremental_calibr.Problem.{OptimizationProblem}

-- size_t has 64 bits.
abbrev pub size_t_mod : ℕ
size_t_mod = 18446744073709551616

pub record IncrementalOptimizationProblem (Params : Type 0) : Type 0 where
  pub optimization_problems : List ℕ
  -- For each design variable how many batches use it, and its group.
  pub design_variables_counts : Dict (ℕ × ℕ)
  pub design_variables : Groups
  pub groups_ordering : List ℕ
  pub design_variables_backup : Dict Params

-- `std::find` of a batch, as the distance from the beginning.
unfoldable pub position : ℕ → List ℕ → ℕ
position b [] = 0
position b (x ∷ xs) = if x == b then 0 else suc (position b xs)

-- `erase` at an index.
unfoldable pub erase_at : List ℕ → ℕ → List ℕ
erase_at [] i = []
erase_at (x ∷ xs) zero = xs
erase_at (x ∷ xs) (suc i) = x ∷ erase_at xs i

-- The second part of an entry of the counts: the group.
abbrev pub group_part : Option (ℕ × ℕ) → Option ℕ
group_part none = none
group_part (some (n, g)) = some g

-- `_designVariablesCounts[dv].first`, which enters a zero for a key that is missing.
abbrev pub count_part : Option (ℕ × ℕ) → ℕ
count_part none = 0
count_part (some (n, g)) = n

module _ {Params : Type 0} where
  abbrev pub empty : IncrementalOptimizationProblem Params
  empty = record {
    optimization_problems = [];
    design_variables_counts = [];
    design_variables = [];
    groups_ordering = [];
    design_variables_backup = [];
  }

  abbrev pub get_num_optimization_problems : IncrementalOptimizationProblem Params → ℕ
  get_num_optimization_problems p = length p.optimization_problems

  -- By iterator or index, which the source turns into one another.
  unfoldable pub get_optimization_problem : IncrementalOptimizationProblem Params → ℕ → Result ℕ
  get_optimization_problem p idx =
      if leb (length p.optimization_problems) idx
      then err (out_of_bound idx)
      else or_throw (get_elem? p.optimization_problems idx) out_of_range

  abbrev pub is_design_variable_in_problem : IncrementalOptimizationProblem Params → ℕ → Bool
  is_design_variable_in_problem p dv = contains dv p.design_variables_counts

  abbrev pub is_group_in_problem : IncrementalOptimizationProblem Params → ℕ → Bool
  is_group_in_problem p group_id = contains group_id p.design_variables

  unfoldable pub get_design_variables_group :
      IncrementalOptimizationProblem Params → ℕ → Result (List ℕ)
  get_design_variables_group p group_id =
      if is_group_in_problem p group_id
      then or_throw (find group_id p.design_variables) out_of_range
      else err (out_of_bound group_id)

  abbrev pub get_num_groups : IncrementalOptimizationProblem Params → ℕ
  get_num_groups p = length p.design_variables

  unfoldable pub set_groups_ordering :
      List ℕ → Method (IncrementalOptimizationProblem Params) (Unit {0})
  set_groups_ordering groups_ordering p =
      elim (new_ordering p.design_variables p.groups_ordering groups_ordering) [
        | ok ordering ↦ (ok tt, record p { groups_ordering = ordering })
        | err e ↦ (err e, p)
      ]

  -- `getGroupId(designVariable)`
  unfoldable pub get_group_id : IncrementalOptimizationProblem Params → ℕ → Result ℕ
  get_group_id p dv =
      if is_design_variable_in_problem p dv
      then or_throw (group_part (find dv p.design_variables_counts)) out_of_range
      else err invalid_operation

  -- `_groupsOrdering.push_back(groupId)` for a group that is new.
  abbrev push_group :
      ℕ → IncrementalOptimizationProblem Params → IncrementalOptimizationProblem Params
  push_group group_id p = record p {
    groups_ordering =
        if is_group_in_problem p group_id
        then p.groups_ordering
        else p.groups_ordering ++ group_id ∷ [];
  }

  -- `add`'s first loop: one design variable of the batch with its group there.
  unfoldable pub add_variable : ℕ → ℕ → Method (IncrementalOptimizationProblem Params) (Unit {0})
  add_variable dv group_id p = elim (find dv p.design_variables_counts) [
    | none ↦ (
      ok tt,
      record (push_group group_id p) {
        design_variables_counts = insert dv (1, group_id) p.design_variables_counts;
        design_variables =
            put group_id (group p.design_variables group_id ++ dv ∷ []) p.design_variables;
      },
    )
    | some (n, g) ↦
        if not (g == group_id) then (err invalid_operation, push_group group_id p) else (
          ok tt,
          record (push_group group_id p) {
            design_variables_counts = put dv ((n + 1) % size_t_mod, g) p.design_variables_counts;
          },
        )
  ]

  -- `remove`'s loop: one design variable of the batch. The count wraps below zero.
  unfoldable pub remove_variable : ℕ → Method (IncrementalOptimizationProblem Params) (Unit {0})
  remove_variable dv p =
      let n = (count_part (find dv p.design_variables_counts) + size_t_mod - 1) % size_t_mod in
      let g = or_else (group_part (find dv p.design_variables_counts)) 0 in
      if not (n == 0)
      then (ok tt, record p { design_variables_counts = put dv (n, g) p.design_variables_counts })
      else elim (drop_variable dv g p.design_variables p.groups_ordering) [
        | err e ↦ (err e, p)
        | ok (design_variables, groups_ordering) ↦ (
          ok tt,
          record p {
            design_variables_counts = erase dv p.design_variables_counts;
            design_variables = design_variables;
            groups_ordering = groups_ordering;
            design_variables_backup = erase dv p.design_variables_backup;
          },
        )
      ]

  unfoldable pub clear : Method (IncrementalOptimizationProblem Params) (Unit {0})
  clear p = (
    ok tt,
    record p {
      optimization_problems = [];
      design_variables_counts = [];
      design_variables = [];
      groups_ordering = [];
    },
  )

  abbrev pub num_design_variables : IncrementalOptimizationProblem Params → ℕ
  num_design_variables p = length p.design_variables_counts

  unfoldable pub design_variable : IncrementalOptimizationProblem Params → ℕ → Result ℕ
  design_variable p idx =
      design_variable_at p.design_variables p.groups_ordering (num_design_variables p) idx

  unfoldable pub permute_optimization_problems :
      List ℕ → Method (IncrementalOptimizationProblem Params) (Unit {0})
  permute_optimization_problems permutation p =
      let (r, problems) = permute permutation p.optimization_problems in
      (r, record p { optimization_problems = problems })

  unfoldable pub permute_design_variables :
      List ℕ → ℕ → Method (IncrementalOptimizationProblem Params) (Unit {0})
  permute_design_variables permutation group_id p =
      if is_group_in_problem p group_id
      then (let (r, dvs) = permute permutation (group p.design_variables group_id) in
          (r, record p { design_variables = put group_id dvs p.design_variables }))
      else (err (out_of_bound group_id), p)
