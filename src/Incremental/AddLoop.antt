-- ===== src/Incremental/AddLoop.antt =====
-- The loop of `add` in core/IncrementalOptimizationProblem.cpp over the design variables of a batch.
use aslam_incremental_calibr.Common.{
  ℕ, ◌+◌, ◌≡◌, ◌<◌, refl, sym, ◌∙◌, ap, true, false, List, [], ◌∷◌, some, length, member, count,
  ◌==◌, if◌then◌else◌, Result, ok, arith, inl, inr, Bool-cases, Result-cases, ok-ne-err, subst,
}
use aslam_incremental_calibr.Problem.{OptimizationProblem}
use aslam_incremental_calibr.Problem.Invariant.{IsValid}
use aslam_incremental_calibr.Incremental.{IncrementalOptimizationProblem, add_variable, size_t_mod}
use aslam_incremental_calibr.Incremental.Batches.{add_variables}
use aslam_incremental_calibr.Incremental.Tally.{
  IsTallied, Keeps, Added, owner, add_variable-Added, add_variable-ok,
}
use aslam_incremental_calibr.Incremental.Loops.{
  group_in, IsTallied-congr, IsRest, IsRest-tail, reads, add_variables-suc, add_variables_throws,
}

module _ {Params : Type 0} where
  -- What `add`'s loop over `rest` gives where it does not throw.
  pub record AddedAll (tally : ℕ → ℕ) (problem : OptimizationProblem Params) (rest : List ℕ)
      (p q : IncrementalOptimizationProblem Params) : Type 0 where
    pub tallied : IsTallied (λ x. tally x + count x rest) q
    pub owned : (x g : ℕ) → member x rest ≡ true → group_in problem x ≡ some g → owner q x ≡ some g
    pub keeps : Keeps p q
    pub problems : q.optimization_problems ≡ p.optimization_problems

  AddedAll-cons :
      {tally : ℕ → ℕ} (problem : OptimizationProblem Params) (dv g : ℕ) (rest : List ℕ)
      (p p' q : IncrementalOptimizationProblem Params)
      → group_in problem dv ≡ some g
      → Added tally p p' dv g
      → AddedAll (λ x. tally x + (if dv == x then 1 else 0)) problem rest p' q
      → AddedAll tally problem (dv ∷ rest) p q
  AddedAll-cons {tally} problem dv g rest p p' q e one all = record {
    tallied = IsTallied-congr q (λ x. omega arith) all.tallied;
    owned = λ x h m f. elim (Bool-cases (dv == x)) [
      | inr other ↦ all.owned x h (ground (arith, m, other)) f
      | inl same ↦
          let at_x : dv ≡ x = ground arith in
          let g_is_h : g ≡ h =
            owner_unique x h (subst (λ y. group_in problem y ≡ some g) at_x e) f in
          all.keeps x h (subst (λ y. owner p' y ≡ some h) at_x (one.owned ∙ ap some g_is_h))
    ];
    keeps = λ x h f. all.keeps x h (one.keeps x h f);
    problems = all.problems ∙ one.problems;
  }
    where
      owner_unique : (y h : ℕ) → group_in problem y ≡ some g → group_in problem y ≡ some h → g ≡ h
      owner_unique y h a b = cc

  pub add_variables-AddedAll :
      {variables : ℕ → List ℕ} {tally : ℕ → ℕ} (problem : OptimizationProblem Params)
      (rest : List ℕ) (i : ℕ) (p : IncrementalOptimizationProblem Params)
      → IsValid variables problem
      → IsRest problem i rest
      → IsTallied tally p
      → ((x : ℕ) → tally x + count x rest < size_t_mod)
      → (add_variables (length rest) problem i p).0 ≡ ok tt
      → AddedAll tally problem rest p (add_variables (length rest) problem i p).1
  unfolding add_variables
  add_variables-AddedAll problem [] i p v r t small done = record {
    tallied = IsTallied-congr p (λ x. omega arith) t;
    owned = λ x g m f. cc;
    keeps = λ x h f. f;
    problems = refl;
  }
  add_variables-AddedAll {tally = tally} problem (dv ∷ rest) i p v r t small done =
      let (g, e, in_g, f) = reads problem i dv rest v r in
      elim (Result-cases (add_variable dv g p).0) [
        | inr (x, fails) ↦
            absurd (
              ok-ne-err
                (sym done ∙ add_variables_throws (length rest) problem i dv g p x e f fails))
        | inl (_, h) ↦
            let onward = add_variables-suc (length rest) problem i dv g p e f h in
            let added = add_variable-Added p dv g t (fits (small dv)) h in
            let p' = (add_variable dv g p).1 in
            rw onward (
              AddedAll-cons problem dv g rest p p' _ in_g added (
                add_variables-AddedAll {tally = λ x. tally x + (if dv == x then 1 else 0)} problem
                  rest (i + 1) p' v (IsRest-tail problem i dv rest r) added.tallied
                  (λ x. omega (arith, small x))
                  (ap (λ (m : Result (Unit {0}) × IncrementalOptimizationProblem Params). m.0)
                      (sym onward)
                    ∙ done)))
      ]
    where
      fits : tally dv + count dv (dv ∷ rest) < size_t_mod → tally dv + 1 < size_t_mod
      fits h = ground (arith, h)

  -- `add`'s loop does not throw where no design variable is counted under another group.
  pub add_variables-ok :
      {variables : ℕ → List ℕ} {tally : ℕ → ℕ} (problem : OptimizationProblem Params)
      (rest : List ℕ) (i : ℕ) (p : IncrementalOptimizationProblem Params)
      → IsValid variables problem
      → IsRest problem i rest
      → IsTallied tally p
      → ((x : ℕ) → tally x + count x rest < size_t_mod)
      → ((x g h : ℕ) → group_in problem x ≡ some g → owner p x ≡ some h → h ≡ g)
      → (add_variables (length rest) problem i p).0 ≡ ok tt
  unfolding add_variables
  add_variables-ok problem [] i p v r t small agree = refl
  add_variables-ok {tally = tally} problem (dv ∷ rest) i p v r t small agree =
      let (g, e, in_g, f) = reads problem i dv rest v r in
      let h : (add_variable dv g p).0 ≡ ok tt =
        add_variable-ok p dv g (λ k o. agree dv g k in_g o) in
      let added = add_variable-Added p dv g t (fits (small dv)) h in
      ap (λ (m : Result (Unit {0}) × IncrementalOptimizationProblem Params). m.0)
        (add_variables-suc (length rest) problem i dv g p e f h)
      ∙ add_variables-ok {tally = λ x. tally x + (if dv == x then 1 else 0)} problem rest (i + 1)
          (add_variable dv g p).1 v (IsRest-tail problem i dv rest r) added.tallied
          (λ x. omega (arith, small x)) (agrees g in_g added.owned added.others)
    where
      fits : tally dv + count dv (dv ∷ rest) < size_t_mod → tally dv + 1 < size_t_mod
      fits h = ground (arith, h)

      agrees :
          (g : ℕ)
          → group_in problem dv ≡ some g
          → owner (add_variable dv g p).1 dv ≡ some g
          → ((x : ℕ) → (dv == x) ≡ false → owner (add_variable dv g p).1 x ≡ owner p x)
          → (x k h : ℕ) → group_in problem x ≡ some k
          → owner (add_variable dv g p).1 x ≡ some h
          → h ≡ k
      agrees g in_g owned others x k h in_k o = elim (Bool-cases (dv == x)) [
        | inr other ↦ agree x k h in_k (sym (others x other) ∙ o)
        | inl same ↦
            let at_x : x ≡ dv = ground arith in
            same_group (subst (λ y. group_in problem y ≡ some k) at_x in_k)
              (subst (λ y. owner (add_variable dv g p).1 y ≡ some h) at_x o)
      ]
        where
          same_group :
              group_in problem dv ≡ some k → owner (add_variable dv g p).1 dv ≡ some h → h ≡ k
          same_group a b = cc
