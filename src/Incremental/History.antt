-- ===== src/Incremental/History.antt =====
-- Histories of calls on one IncrementalOptimizationProblem
-- (core/IncrementalOptimizationProblem.cpp), as steps between its states.
use aslam_incremental_calibr.Common.{
  ℕ, suc, zero, ◌+◌, ◌≡◌, ◌≤◌, ◌<◌, refl, ◌∙◌, ap, List, [], ◌∷◌, ◌++◌, some, length, count, arith,
  subst, inl, inr, Bool-cases, ltb, Result, ok, length_eq_of_count, length-append,
}
use aslam_incremental_calibr.Backend.{Backend}
use aslam_incremental_calibr.Permute.Contents.{count-permute}
use aslam_incremental_calibr.Groups.{group}
use aslam_incremental_calibr.Problem
use aslam_incremental_calibr.Problem.{OptimizationProblem}
use aslam_incremental_calibr.Problem.Invariant
use aslam_incremental_calibr.Incremental.{
  IncrementalOptimizationProblem, empty, size_t_mod, erase_at, set_groups_ordering,
  permute_optimization_problems, permute_design_variables, clear,
}
use aslam_incremental_calibr.Incremental.Batches.{add, remove_idx, save_design_variables}
use aslam_incremental_calibr.Incremental.Tally.{entry}
use aslam_incremental_calibr.Incremental.Invariant.{IsValid, empty-IsValid, entry_determined}
use aslam_incremental_calibr.Incremental.Grow.{add-IsValid}
use aslam_incremental_calibr.Incremental.Add.{add_stages, add_stages-ok}
use aslam_incremental_calibr.Incremental.Ordered.{
  IsSublist, Grows, sublist_of_count, add_variables-Grows, remove_idx-Shrinks,
}
use aslam_incremental_calibr.Incremental.Shrink.{remove_idx_lem}
use aslam_incremental_calibr.Incremental.Reorder.{
  set_groups_ordering-IsValid, permute_design_variables-IsValid,
  permute_optimization_problems-IsValid, remove_idx_out,
}

length-erase_at : (xs : List ℕ) (idx : ℕ) → length (erase_at xs idx) ≤ length xs
unfolding erase_at
length-erase_at [] idx = omega arith
length-erase_at (x ∷ xs) zero = omega arith
length-erase_at (x ∷ xs) (suc idx) = omega (arith, length-erase_at xs idx)

erase_at-last : (xs : List ℕ) (b : ℕ) → erase_at (xs ++ b ∷ []) (length xs) ≡ xs
unfolding erase_at
erase_at-last [] b = refl
erase_at-last (x ∷ xs) b = ap (λ l. x ∷ l) (erase_at-last xs b)

module _ (k : Backend) (variables : ℕ → List ℕ) (batch : ℕ → OptimizationProblem k.Params) where
  open k use {Store, Params}

  abbrev Problems : Type 0
  Problems = IncrementalOptimizationProblem Params

  -- The calls that change the problem. An `add` counts where it returns; of the others also those
  -- that throw.
  pub data Step : Problems → Problems → Type 0 where
    adds :
        {p q : Problems} (b : ℕ)
        → Invariant.IsValid variables (batch b)
        → length p.optimization_problems + 1 < size_t_mod
        → add batch (some b) p ≡ (ok tt, q)
        → Step p q
    removes : (p : Problems) (idx : ℕ) → Step p (remove_idx batch idx p).1
    orders : (p : Problems) (ordering : List ℕ) → Step p (set_groups_ordering ordering p).1
    permutes_variables :
        (p : Problems) (permutation : List ℕ) (g : ℕ)
        → Step p (permute_design_variables permutation g p).1
    permutes_batches :
        (p : Problems) (permutation : List ℕ)
        → Step p (permute_optimization_problems permutation p).1
    saves : (p : Problems) (s : Store) → Step p (save_design_variables k s p)
    clears : (p : Problems) → Step p (clear p).1

  pub data Reach : Problems → Type 0 where
    start : Reach empty
    next : {p q : Problems} → Reach p → Step p q → Reach q

  -- What the steps keep: the containers, and a size that fits its type.
  pub record IsSound (p : Problems) : Type 0 where
    pub valid : IsValid variables batch p
    pub fits : length p.optimization_problems < size_t_mod

  removes-IsSound : (p : Problems) (idx : ℕ) → IsSound p → IsSound (remove_idx batch idx p).1
  removes-IsSound p idx s = elim (Bool-cases (ltb idx (length p.optimization_problems))) [
    | inr out ↦ rw (remove_idx_out variables batch p idx (ground arith)) s
    | inl inside ↦
        let (q, run, less, v) =
          remove_idx_lem variables batch p idx s.valid s.fits (ground arith) in
        rw run (record {
          valid = v;
          fits = rw less (omega (arith, length-erase_at p.optimization_problems idx, s.fits));
        })
  ]

  Step-IsSound : {p q : Problems} → Step p q → IsSound p → IsSound q
  unfolding set_groups_ordering permute_design_variables permute_optimization_problems
      save_design_variables clear
  Step-IsSound (adds {p = p} {q = q} b vb room e) s =
      let (v, more) =
        add-IsValid variables batch b p s.valid vb room
          (ap (λ (m : Result (Unit {0}) × Problems). m.0) e) in
      subst IsSound (ap (λ (m : Result (Unit {0}) × Problems). m.1) e) (record {
        valid = v;
        fits = rw more (omega (arith, length-append p.optimization_problems (b ∷ []), room));
      })
  Step-IsSound (removes p idx) s = removes-IsSound p idx s
  Step-IsSound (orders p ordering) s = record {
    valid = set_groups_ordering-IsValid variables batch ordering p s.valid;
    fits = ground (arith, s.fits);
  }
  Step-IsSound (permutes_variables p permutation g) s = record {
    valid = permute_design_variables-IsValid variables batch permutation g p s.valid;
    fits = ground (arith, s.fits);
  }
  Step-IsSound (permutes_batches p permutation) s = record {
    valid = permute_optimization_problems-IsValid variables batch permutation p s.valid;
    fits = omega (
      arith,
      s.fits,
      length_eq_of_count (permute_optimization_problems permutation p).1.optimization_problems
          p.optimization_problems (λ a. count-permute a permutation p.optimization_problems),
    );
  }
  Step-IsSound (saves p w) s = record {
    valid = record {
      tallied = record {
        counted = s.valid.tallied.counted;
        positive = s.valid.tallied.positive;
        grouping = s.valid.tallied.grouping;
        distinct = s.valid.tallied.distinct;
        groups_distinct = s.valid.tallied.groups_distinct;
      };
      owned = s.valid.owned;
      batches = s.valid.batches;
      terms = s.valid.terms;
    };
    fits = s.fits;
  }
  Step-IsSound (clears p) s =
      let e = empty-IsValid variables batch in
      record {
        valid = record {
          tallied = record {
            counted = e.tallied.counted;
            positive = e.tallied.positive;
            grouping = e.tallied.grouping;
            distinct = e.tallied.distinct;
            groups_distinct = e.tallied.groups_distinct;
          };
          owned = e.owned;
          batches = e.batches;
          terms = e.terms;
        };
        fits = omega arith;
      }

  -- However the calls of the class are ordered, from the constructor on, as long as each batch that
  -- is added is well formed and each `add` returns: the count of each design variable is the number
  -- of batches that use it, its group is its group in each of them, the groups list each design
  -- variable in use once, the ordering lists the groups in use once each, and no error term is in
  -- two batches. The other calls may throw.
  pub Reach-IsSound : {p : Problems} → Reach p → IsSound p
  Reach-IsSound start = record { valid = empty-IsValid variables batch; fits = omega arith }
  Reach-IsSound (next r s) = Step-IsSound s (Reach-IsSound r)

  -- Two histories of calls on the class, in which each batch that is added is well formed and each
  -- `add` returns, that lead to the same batches, in any order: the problems then agree on the
  -- count and the group of each design variable, on the contents of each group up to order and on
  -- which groups the ordering lists.
  pub Reach-determined :
      {p q : Problems}
      → Reach p
      → Reach q
      → ((b : ℕ) → count b p.optimization_problems ≡ count b q.optimization_problems)
      → ((dv : ℕ) → entry p dv ≡ entry q dv)
        × ((dv g : ℕ)
            → count dv (group p.design_variables g) ≡ count dv (group q.design_variables g))
        × ((g : ℕ) → count g p.groups_ordering ≡ count g q.groups_ordering)
  Reach-determined {p} {q} r r' same =
      entry_determined variables batch p q (Reach-IsSound r).valid (Reach-IsSound r').valid same

  removed_of_added :
      (b : ℕ) (p q r : Problems) (n : ℕ)
      → n ≡ length p.optimization_problems
      → q.optimization_problems ≡ p.optimization_problems ++ b ∷ []
      → r.optimization_problems ≡ erase_at q.optimization_problems n
      → r.optimization_problems ≡ p.optimization_problems
  removed_of_added b p q r n e f g =
      g
      ∙ ap (λ l. erase_at l n) f
      ∙ ap (λ k. erase_at (p.optimization_problems ++ b ∷ []) k) e
      ∙ erase_at-last p.optimization_problems b

  -- `add` puts the groups that are new behind the others.
  add-Grows :
      (b : ℕ) (p : Problems)
      → Invariant.IsValid variables (batch b)
      → (add batch (some b) p).0 ≡ ok tt
      → Grows p (add batch (some b) p).1
  add-Grows b p vb e =
      let (counts, fits) = add_stages-ok variables batch b p vb e in
      rw (add_stages variables batch b p vb counts fits)
        (add_variables-Grows (Problem.num_design_variables (batch b)) (batch b) 0 p)

  -- An `add` that returns, on a problem whose containers agree, is undone by the `remove` of the index
  -- at which it put the batch. The removal returns as well; the batches are again those before the
  -- call, and so are the entry of each design variable, the contents of each group up to order and the
  -- ordering of the groups.
  pub remove-add :
      (b : ℕ) (p : Problems)
      → IsSound p
      → Invariant.IsValid variables (batch b)
      → length p.optimization_problems + 1 < size_t_mod
      → (add batch (some b) p).0 ≡ ok tt
      → (r : Problems) × (remove_idx batch (length p.optimization_problems) (add batch (some b) p).1
          ≡ (ok tt, r))
        × (r.optimization_problems ≡ p.optimization_problems)
        × ((dv : ℕ) → entry r dv ≡ entry p dv)
        × ((dv g : ℕ)
            → count dv (group r.design_variables g) ≡ count dv (group p.design_variables g))
        × (r.groups_ordering ≡ p.groups_ordering)
  remove-add b p s vb room e =
      let q = (add batch (some b) p).1 in
      let n = length p.optimization_problems in
      let (v, more) = add-IsValid variables batch b p s.valid vb room e in
      let longer : length q.optimization_problems ≡ n + 1 =
        ap length more ∙ omega (arith, length-append p.optimization_problems (b ∷ [])) in
      let (r, run, less, w) =
        remove_idx_lem variables batch q n v (omega (arith, longer, room))
          (omega (arith, longer)) in
      let same = removed_of_added b p q r n refl more less in
      let agree = entry_determined variables batch r p w s.valid (λ c. ap (count c) same) in
      let (new, behind) = add-Grows b p vb e in
      let shrunk : IsSublist r.groups_ordering q.groups_ordering =
        subst
          (λ (m : Result (Unit {0}) × Problems). IsSublist m.1.groups_ordering q.groups_ordering)
          run (remove_idx-Shrinks batch n q) in
      let once : (g : ℕ) → count g q.groups_ordering ≤ 1 =
        λ g. ground (arith, v.tallied.grouping.ordered g) in
      let ordering =
        sublist_of_count p.groups_ordering r.groups_ordering new
          (subst (λ l. IsSublist r.groups_ordering l) behind shrunk)
          (λ g. subst (λ l. count g l ≤ 1) behind (once g)) agree.2 in
      (r, run, same, agree.0, agree.1, ordering)
