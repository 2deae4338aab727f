-- ===== src/Incremental/Tally.antt =====
-- The counts of design variables in core/IncrementalOptimizationProblem.cpp under one step of the
-- loops of `add` and `remove`.
use native.Mathlib.Nat.{mod-eq_of_lt}
use aslam_incremental_calibr.Common.{
  ℕ, ◌+◌, ◌-◌, ◌%◌, ◌≡◌, ◌<◌, refl, ◌∙◌, ap, true, false, Option, none, some, ◌==◌, if◌then◌else◌,
  find, contains, insert, put, ok, Distinct, arith, inl, inr, Bool-cases, Option-cases, insert_new,
  find-put, put-Distinct,
}
use aslam_incremental_calibr.Groups.{IsGrouping}
use aslam_incremental_calibr.Groups.Change.{add-IsGrouping, IsGrouping-congr}
use aslam_incremental_calibr.Groups.Index.{owner-contains}
use aslam_incremental_calibr.Incremental.{
  IncrementalOptimizationProblem, add_variable, size_t_mod, group_part, count_part,
  is_group_in_problem,
}

module _ {Params : Type 0} where
  abbrev pub entry : IncrementalOptimizationProblem Params → ℕ → Option (ℕ × ℕ)
  entry p dv = find dv p.design_variables_counts

  abbrev pub owner : IncrementalOptimizationProblem Params → ℕ → Option ℕ
  owner p dv = group_part (entry p dv)

  -- The counts are those of `tally`, no entry is zero, and the other containers fit the entries.
  pub record IsTallied (tally : ℕ → ℕ) (p : IncrementalOptimizationProblem Params) : Type 0 where
    pub counted : (dv : ℕ) → count_part (entry p dv) ≡ tally dv
    pub positive : (dv n g : ℕ) → entry p dv ≡ some (n, g) → 0 < n
    pub grouping : IsGrouping (owner p) p.design_variables p.groups_ordering
    pub distinct : Distinct p.design_variables_counts
    pub groups_distinct : Distinct p.design_variables

  -- Owners are kept.
  abbrev pub Keeps :
      IncrementalOptimizationProblem Params → IncrementalOptimizationProblem Params → Type 0
  Keeps p q = (x h : ℕ) → owner p x ≡ some h → owner q x ≡ some h

  -- What a step of `add`'s loop gives where it does not throw.
  pub record Added (tally : ℕ → ℕ) (p q : IncrementalOptimizationProblem Params) (dv g : ℕ)
      : Type 0 where
    pub tallied : IsTallied (λ x. tally x + (if dv == x then 1 else 0)) q
    pub owned : owner q dv ≡ some g
    pub keeps : Keeps p q
    pub others : (x : ℕ) → (dv == x) ≡ false → owner q x ≡ owner p x
    pub problems : q.optimization_problems ≡ p.optimization_problems

  add_variable_new :
      {tally : ℕ → ℕ} (p : IncrementalOptimizationProblem Params) (dv g : ℕ)
      → IsTallied tally p
      → entry p dv ≡ none
      → Added tally p (add_variable dv g p).1 dv g
  unfolding add_variable
  add_variable_new {tally} p dv g v e =
      rw (e, add_variable)
        (record {
          tallied = record {
            counted = λ x. ground (arith, v.counted x, v.counted dv, e, lookup x);
            positive = λ x n h f. ground (arith, v.positive x n h, f, lookup x);
            grouping =
                add-IsGrouping dv g v.grouping (ap group_part e) (λ x. ground (arith, lookup x));
            distinct = rw inserted (put-Distinct dv (1, g) p.design_variables_counts v.distinct);
            groups_distinct = put-Distinct g _ p.design_variables v.groups_distinct;
          };
          owned = ground (arith, lookup dv);
          keeps = λ x h f. ground (arith, lookup x, e, f);
          others = λ x f. ground (arith, lookup x, f);
          problems = refl;
        })
    where
      fresh : contains dv p.design_variables_counts ≡ false
      fresh = ground (arith, e)

      inserted :
          insert dv (1, g) p.design_variables_counts ≡ put dv (1, g) p.design_variables_counts
      inserted = insert_new dv (1, g) p.design_variables_counts fresh

      lookup :
          (x : ℕ)
          → find x (insert dv (1, g) p.design_variables_counts)
            ≡ (if dv == x then some (1, g) else find x p.design_variables_counts)
      lookup x = rw inserted (find-put dv x (1, g) p.design_variables_counts)

  add_variable_old :
      {tally : ℕ → ℕ} (p : IncrementalOptimizationProblem Params) (dv g n : ℕ)
      → IsTallied tally p
      → entry p dv ≡ some (n, g)
      → n + 1 < size_t_mod
      → Added tally p (add_variable dv g p).1 dv g
  unfolding add_variable
  add_variable_old {tally} p dv g n v e small =
      rw (e, add_variable, same)
        (record {
          tallied = record {
            counted = λ x. ground (arith, v.counted x, v.counted dv, e, lookup x, wraps);
            positive = λ x m h f. ground (arith, v.positive x m h, f, lookup x, wraps);
            grouping = rw there (IsGrouping-congr v.grouping (λ x. ground (arith, lookup x, e)));
            distinct = put-Distinct dv _ p.design_variables_counts v.distinct;
            groups_distinct = v.groups_distinct;
          };
          owned = ground (arith, lookup dv);
          keeps = λ x h f. ground (arith, lookup x, e, f);
          others = λ x f. ground (arith, lookup x, f);
          problems = refl;
        })
    where
      there : is_group_in_problem p g ≡ true
      there = owner-contains v.grouping dv g (ap group_part e)

      same : (g == g) ≡ true
      same = ground arith

      wraps : (n + 1) % size_t_mod ≡ n + 1
      wraps = mod-eq_of_lt small

      lookup :
          (x : ℕ)
          → find x (put dv ((n + 1) % size_t_mod, g) p.design_variables_counts)
            ≡ (if dv == x then some ((n + 1) % size_t_mod, g) else find x p.design_variables_counts)
      lookup x = find-put dv x ((n + 1) % size_t_mod, g) p.design_variables_counts

  add_variable_group :
      (p : IncrementalOptimizationProblem Params) (dv g n h : ℕ)
      → entry p dv ≡ some (n, h)
      → (add_variable dv g p).0 ≡ ok tt
      → h ≡ g
  unfolding add_variable
  add_variable_group p dv g n h e done = elim (Bool-cases (h == g)) [
    | inl same ↦ ground arith
    | inr other ↦ absurd (ground (arith, e, other, done))
  ]

  -- Where a step of `add`'s loop does not throw, it counts its design variable once more.
  pub add_variable-Added :
      {tally : ℕ → ℕ} (p : IncrementalOptimizationProblem Params) (dv g : ℕ)
      → IsTallied tally p
      → tally dv + 1 < size_t_mod
      → (add_variable dv g p).0 ≡ ok tt
      → Added tally p (add_variable dv g p).1 dv g
  add_variable-Added {tally} p dv g v small done = elim (Option-cases (entry p dv)) [
    | inl e ↦ add_variable_new p dv g v e
    | inr ((n, h), e) ↦
        let same : h ≡ g = add_variable_group p dv g n h e done in
        add_variable_old p dv g n v (e ∙ ap (λ (k : ℕ). some (n, k)) same)
          (omega (arith, v.counted dv, ap count_part e))
  ]

  -- It throws only where the design variable is counted under another group.
  pub add_variable-ok :
      (p : IncrementalOptimizationProblem Params) (dv g : ℕ)
      → ((h : ℕ) → owner p dv ≡ some h → h ≡ g)
      → (add_variable dv g p).0 ≡ ok tt
  unfolding add_variable
  add_variable-ok p dv g fits = elim (Option-cases (entry p dv)) [
    | inl e ↦ rw (e, add_variable)
    | inr ((n, h), e) ↦
        let same : h ≡ g = fits h (ap group_part e) in rw (e, add_variable) (ground (arith, same))
  ]

  -- What a step of `remove`'s loop gives.
  pub record Removed (tally : ℕ → ℕ) (p q : IncrementalOptimizationProblem Params) (dv : ℕ)
      : Type 0 where
    pub tallied : IsTallied (λ x. tally x - (if dv == x then 1 else 0)) q
    pub keeps :
        (x h : ℕ)
        → owner p x ≡ some h
        → 0 < tally x - (if dv == x then 1 else 0)
        → owner q x ≡ some h
    pub problems : q.optimization_problems ≡ p.optimization_problems

  pub entry_of_tally :
      {tally : ℕ → ℕ} (p : IncrementalOptimizationProblem Params) (dv : ℕ)
      → IsTallied tally p
      → 0 < tally dv
      → (g : ℕ) × (entry p dv ≡ some (tally dv, g))
  entry_of_tally {tally} p dv v pos = elim (Option-cases (entry p dv)) [
    | inl e ↦ absurd (omega (arith, v.counted dv, ap count_part e))
    | inr ((n, g), e) ↦
        let same : n ≡ tally dv = omega (arith, v.counted dv, ap count_part e) in
        (g, e ∙ ap (λ (k : ℕ). some (k, g)) same)
  ]
