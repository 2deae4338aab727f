-- ===== src/Incremental/Untally.antt =====
-- The counts of design variables in core/IncrementalOptimizationProblem.cpp under one step of the
-- loop of `remove`: an entry that is not the last use is counted down, and one that is leaves every
-- container.
use aslam_incremental_calibr.Common.{
  ℕ, ◌+◌, ◌-◌, ◌%◌, ◌≡◌, ◌<◌, refl, ◌∙◌, ap, false, none, some, ◌==◌, if◌then◌else◌, find, put,
  erase, ok, ltb, arith, inl, inr, Bool-cases, find-put, find-erase, put-Distinct, erase-Distinct,
}
use aslam_incremental_calibr.Groups.Change.{IsGrouping-congr}
use aslam_incremental_calibr.Groups.Drop.{drop-IsGrouping, drop-Distinct}
use aslam_incremental_calibr.Incremental.{
  IncrementalOptimizationProblem, remove_variable, size_t_mod, group_part,
}
use aslam_incremental_calibr.Incremental.Tally.{IsTallied, Removed, entry, entry_of_tally}

-- The count that `remove` stores.
abbrev less_one : ℕ → ℕ
less_one n = (n + size_t_mod - 1) % size_t_mod

less_one_lem : (n : ℕ) → 0 < n → n < size_t_mod → less_one n ≡ n - 1
less_one_lem n pos small = omega arith

module _ {Params : Type 0} where
  remove_variable_more :
      {tally : ℕ → ℕ} (p : IncrementalOptimizationProblem Params) (dv g n : ℕ)
      → IsTallied tally p
      → entry p dv ≡ some (n, g)
      → 1 < n
      → n < size_t_mod
      → ((remove_variable dv p).0 ≡ ok tt) × Removed tally p (remove_variable dv p).1 dv
  unfolding remove_variable
  remove_variable_more {tally} p dv g n v e more small =
      rw (e, kept)
        (
          refl,
          record {
            tallied = record {
              counted = λ x. ground (arith, v.counted x, v.counted dv, e, lookup x, wraps);
              positive = λ x m h f. ground (arith, v.positive x m h, f, lookup x, wraps);
              grouping = IsGrouping-congr v.grouping (λ x. ground (arith, lookup x, e));
              distinct = put-Distinct dv _ p.design_variables_counts v.distinct;
              groups_distinct = v.groups_distinct;
            };
            keeps = λ x h f pos. ground (arith, lookup x, e, f);
            problems = refl;
          },
        )
    where
      wraps : less_one n ≡ n - 1
      wraps = less_one_lem n (omega arith) small

      kept : (less_one n == 0) ≡ false
      kept = ground (arith, wraps)

      lookup :
          (x : ℕ)
          → find x (put dv (less_one n, g) p.design_variables_counts)
            ≡ (if dv == x then some (less_one n, g) else find x p.design_variables_counts)
      lookup x = find-put dv x (less_one n, g) p.design_variables_counts

  remove_variable_last :
      {tally : ℕ → ℕ} (p : IncrementalOptimizationProblem Params) (dv g : ℕ)
      → IsTallied tally p
      → entry p dv ≡ some (1, g)
      → ((remove_variable dv p).0 ≡ ok tt) × Removed tally p (remove_variable dv p).1 dv
  unfolding remove_variable
  remove_variable_last {tally} p dv g v e =
      let (groups, ordering, dropped, v') =
        drop-IsGrouping {owner' = λ x. group_part (find x (erase dv p.design_variables_counts))} dv
          g v.grouping (ap group_part e) (λ x. ground (arith, lookup x)) in
      rw (e, dropped)
        (
          refl,
          record {
            tallied = record {
              counted = λ x. ground (arith, v.counted x, v.counted dv, e, lookup x);
              positive = λ x m h f. ground (arith, v.positive x m h, f, lookup x);
              grouping = v';
              distinct = erase-Distinct dv p.design_variables_counts v.distinct;
              groups_distinct =
                  drop-Distinct dv g p.design_variables p.groups_ordering groups ordering
                    v.groups_distinct dropped;
            };
            keeps = λ x h f pos. ground (arith, lookup x, e, f, v.counted x);
            problems = refl;
          },
        )
    where
      lookup :
          (x : ℕ)
          → find x (erase dv p.design_variables_counts)
            ≡ (if dv == x then none else find x p.design_variables_counts)
      lookup x = find-erase dv x p.design_variables_counts

  pub remove_variable-Removed :
      {tally : ℕ → ℕ} (p : IncrementalOptimizationProblem Params) (dv : ℕ)
      → IsTallied tally p
      → 0 < tally dv
      → tally dv < size_t_mod
      → ((remove_variable dv p).0 ≡ ok tt) × Removed tally p (remove_variable dv p).1 dv
  remove_variable-Removed {tally} p dv v pos small =
      let (g, e) = entry_of_tally p dv v pos in
      elim (Bool-cases (ltb 1 (tally dv))) [
        | inl more ↦ remove_variable_more p dv g (tally dv) v e (ground arith) small
        | inr last ↦
            let one : tally dv ≡ 1 = ground arith in
            remove_variable_last p dv g v (e ∙ ap (λ (k : ℕ). some (k, g)) one)
      ]
