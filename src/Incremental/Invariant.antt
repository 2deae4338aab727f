-- ===== src/Incremental/Invariant.antt =====
-- What core/IncrementalOptimizationProblem.cpp keeps true of its containers: they are determined by
-- the list of batches.
use aslam_incremental_calibr.Common.{
  ℕ, ◌≡◌, ◌≤◌, ◌<◌, refl, sym, ◌∙◌, ap, true, List, [], ◌∷◌, Option, some, none, member, count, bit,
  ltb, arith, inl, inr, Bool-cases, Option-cases, member-count, length_eq_of_count, find,
}
use aslam_incremental_calibr.Groups.{group, names}
use aslam_incremental_calibr.Problem
use aslam_incremental_calibr.Problem.{OptimizationProblem}
use aslam_incremental_calibr.Problem.Invariant
use aslam_incremental_calibr.Incremental.{
  IncrementalOptimizationProblem, empty, count_part, group_part,
}
use aslam_incremental_calibr.Incremental.Uses.{passing, passing-pos, passing-eq_of_count}
use aslam_incremental_calibr.Incremental.Tally.{IsTallied, entry, owner, entry_of_tally}
use aslam_incremental_calibr.Incremental.Loops.{group_in}

module _ {Params : Type 0} (variables : ℕ → List ℕ) (batch : ℕ → OptimizationProblem Params) where
  -- How many of the batches use a design variable,
  abbrev pub uses : ℕ → List ℕ → ℕ
  uses dv = passing (λ b. Problem.is_design_variable_in_problem (batch b) dv)

  -- and how many hold an error term.
  abbrev pub holders : ℕ → List ℕ → ℕ
  holders et = passing (λ b. Problem.is_error_term_in_problem (batch b) et)

  pub record IsValid (p : IncrementalOptimizationProblem Params) : Type 0 where
    -- Each count is the number of batches that use the design variable.
    pub tallied : IsTallied (λ dv. uses dv p.optimization_problems) p
    -- The group of a design variable is its group in each batch that uses it.
    pub owned :
        (b dv g : ℕ)
        → member b p.optimization_problems ≡ true
        → group_in (batch b) dv ≡ some g
        → owner p dv ≡ some g
    pub batches :
        (b : ℕ) → member b p.optimization_problems ≡ true → Invariant.IsValid variables (batch b)
    -- No two batches share an error term.
    pub terms : (et : ℕ) → holders et p.optimization_problems ≤ 1

  pub empty-IsValid : IsValid empty
  unfolding find
  empty-IsValid = record {
    tallied = record {
      counted = λ dv. refl;
      positive = λ dv n g e. cc;
      grouping = record { grouped = λ dv g. refl; ordered = λ g. refl; nonempty = λ g h. cc };
      distinct = λ k. refl;
      groups_distinct = λ k. refl;
    };
    owned = λ b dv g m e. cc;
    batches = λ b m. cc;
    terms = λ et. omega arith;
  }

  -- A design variable is in use in some batch of the list.
  pub user_of_uses :
      (dv : ℕ) (problems : List ℕ)
      → 0 < uses dv problems
      → (b g : ℕ) × (member b problems ≡ true) × (group_in (batch b) dv ≡ some g)
  user_of_uses dv [] pos = absurd (omega arith)
  user_of_uses dv (x ∷ problems) pos = elim (Option-cases (group_in (batch x) dv)) [
    | inr (g, e) ↦ (x, g, ground arith, e)
    | inl e ↦
        let (b, g, m, f) = user_of_uses dv problems (ground (arith, pos, e)) in
        (b, g, ground (arith, m), f)
  ]

  -- The entry of a design variable is determined by the batches: how many use it, and the group
  -- that it has in any of them.
  pub entry-uses :
      (p : IncrementalOptimizationProblem Params) (dv b g : ℕ)
      → IsValid p
      → member b p.optimization_problems ≡ true
      → group_in (batch b) dv ≡ some g
      → entry p dv ≡ some (uses dv p.optimization_problems, g)
  entry-uses p dv b g v m e =
      let in_b : Problem.is_design_variable_in_problem (batch b) dv ≡ true = ground (arith, e) in
      let pos =
        passing-pos (λ x. Problem.is_design_variable_in_problem (batch x) dv)
          p.optimization_problems b m in_b in
      let (h, f) = entry_of_tally p dv v.tallied pos in
      let same : h ≡ g = same_group h (ap group_part f) (v.owned b dv g m e) in
      f ∙ ap (λ (k : ℕ). some (uses dv p.optimization_problems, k)) same
    where
      same_group : (h : ℕ) → owner p dv ≡ some h → owner p dv ≡ some g → h ≡ g
      same_group h a c = cc

  entry-unused :
      (p : IncrementalOptimizationProblem Params) (dv : ℕ)
      → IsValid p
      → uses dv p.optimization_problems ≡ 0
      → entry p dv ≡ none
  entry-unused p dv v e = elim (Option-cases (entry p dv)) [
    | inl f ↦ f
    | inr ((n, g), f) ↦
        absurd
          (omega (arith, v.tallied.positive dv n g f, v.tallied.counted dv, ap count_part f, e))
  ]

  entries_agree :
      (p q : IncrementalOptimizationProblem Params)
      → IsValid p
      → IsValid q
      → ((b : ℕ) → count b p.optimization_problems ≡ count b q.optimization_problems)
      → (dv : ℕ) → entry p dv ≡ entry q dv
  entries_agree p q v w same dv = elim (Bool-cases (ltb 0 (uses dv p.optimization_problems))) [
    | inl used ↦
        let (b, g, m, f) = user_of_uses dv p.optimization_problems (ground arith) in
        let there : member b q.optimization_problems ≡ true = ground (
          arith,
          m,
          same b,
          member-count b p.optimization_problems,
          member-count b q.optimization_problems,
        ) in
        entry-uses p dv b g v m f
        ∙ ap (λ (n : ℕ). some (n, g)) equal
        ∙ sym (entry-uses q dv b g w there f)
    | inr unused ↦
        entry-unused p dv v (ground arith) ∙ sym (entry-unused q dv w (ground (arith, equal)))
  ]
    where
      equal : uses dv p.optimization_problems ≡ uses dv q.optimization_problems
      equal =
          passing-eq_of_count (λ b. Problem.is_design_variable_in_problem (batch b) dv)
            p.optimization_problems q.optimization_problems same

  -- Two states over the same batches, in any order and whatever calls led to them, agree on the
  -- count and the group of each design variable, on the contents of each group up to order and on
  -- which groups the ordering lists.
  pub entry_determined :
      (p q : IncrementalOptimizationProblem Params)
      → IsValid p
      → IsValid q
      → ((b : ℕ) → count b p.optimization_problems ≡ count b q.optimization_problems)
      → ((dv : ℕ) → entry p dv ≡ entry q dv)
        × ((dv g : ℕ)
            → count dv (group p.design_variables g) ≡ count dv (group q.design_variables g))
        × ((g : ℕ) → count g p.groups_ordering ≡ count g q.groups_ordering)
  entry_determined p q v w same = (entries_agree p q v w same, members, listed)
    where
      members :
          (dv g : ℕ) → count dv (group p.design_variables g) ≡ count dv (group q.design_variables g)
      members dv g =
          v.tallied.grouping.grouped dv g
          ∙ ap (λ (o : Option (ℕ × ℕ)). bit (names (group_part o) g))
              (entries_agree p q v w same dv)
          ∙ sym (w.tallied.grouping.grouped dv g)

      listed : (g : ℕ) → count g p.groups_ordering ≡ count g q.groups_ordering
      listed g = ground (
        arith,
        v.tallied.grouping.ordered g,
        w.tallied.grouping.ordered g,
        v.tallied.grouping.nonempty g,
        w.tallied.grouping.nonempty g,
        length_eq_of_count (group p.design_variables g) (group q.design_variables g)
            (λ dv. members dv g),
      )
