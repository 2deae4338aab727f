-- ===== src/Incremental/Add.antt =====
-- `add` of core/IncrementalOptimizationProblem.cpp: the new batch is counted in, where no check
-- throws.
use aslam_incremental_calibr.Common.{
  ℕ, suc, ◌+◌, ◌≡◌, refl, sym, ◌∙◌, ap, true, List, [], ◌∷◌, ◌++◌, some, length, get_elem?, member,
  ◌==◌, ltb, if◌then◌else◌, arith, subst, inl, inr, Bool-cases, Result-cases, Result, ok, err,
  invalid_operation, or_throw, out_of_bound,
}
use aslam_incremental_calibr.Problem
use aslam_incremental_calibr.Problem.{OptimizationProblem}
use aslam_incremental_calibr.Problem.Invariant
use aslam_incremental_calibr.Problem.Access.{error_term-listing}
use aslam_incremental_calibr.Incremental.{IncrementalOptimizationProblem}
use aslam_incremental_calibr.Incremental.Batches.{
  add, add_variables, check_error_terms, some_batch_has,
}
use aslam_incremental_calibr.Incremental.Invariant.{holders}

module _ {Params : Type 0} (variables : ℕ → List ℕ) (batch : ℕ → OptimizationProblem Params) where
  some_batch_has-holders :
      (et : ℕ) (problems : List ℕ)
      → some_batch_has batch et problems ≡ ltb 0 (holders variables batch et problems)
  unfolding some_batch_has
  some_batch_has-holders et [] = refl
  some_batch_has-holders et (b ∷ problems) = ground (arith, some_batch_has-holders et problems)

  -- The second loop as a search of a list.
  pub clash : List ℕ → List ℕ → Result (Unit {0})
  clash problems [] = ok tt
  clash problems (et ∷ ets) =
      if some_batch_has batch et problems then err invalid_operation else clash problems ets

  check_error_terms-clash :
      (problem : OptimizationProblem Params) (rest : List ℕ) (i : ℕ)
      (p : IncrementalOptimizationProblem Params)
      → Invariant.IsValid variables problem
      → ((j : ℕ) → get_elem? rest j ≡ get_elem? problem.error_terms (i + j))
      → check_error_terms batch (length rest) problem i p ≡ (clash p.optimization_problems rest, p)
  unfolding check_error_terms clash
  check_error_terms-clash problem [] i p v r = refl
  check_error_terms-clash problem (et ∷ rest) i p v r =
      let at_i : Problem.error_term problem i ≡ ok et =
        (error_term-listing problem v).0 i
        ∙ ap (λ o. or_throw o (out_of_bound i))
            (ap (get_elem? problem.error_terms) (omega arith) ∙ sym (r 0)) in
      elim (Bool-cases (some_batch_has batch et p.optimization_problems)) [
        | inl taken ↦ rw (at_i, taken) refl
        | inr free ↦
            rw (at_i, free)
              (check_error_terms-clash problem rest (i + 1) p v
                (λ j. r (suc j) ∙ ap (get_elem? problem.error_terms) (omega arith)))
      ]

  pub clash-ok :
      (problems ets : List ℕ)
      → clash problems ets ≡ ok tt
      → (et : ℕ) → member et ets ≡ true
      → holders variables batch et problems ≡ 0
  unfolding clash
  clash-ok problems [] h et m = cc
  clash-ok problems (x ∷ ets) h et m = elim (Bool-cases (some_batch_has batch x problems)) [
    | inl taken ↦ absurd (ground (arith, h, taken))
    | inr free ↦
        let rest = clash-ok problems ets (ground (arith, h, free)) et in
        elim (Bool-cases (x == et)) [
          | inr other ↦ rest (ground (arith, m, other))
          | inl same ↦
              let at_et : x ≡ et = ground arith in
              subst (λ y. holders variables batch y problems ≡ 0) at_et
                (ground (arith, free, some_batch_has-holders x problems))
        ]
  ]

  pub clash-free :
      (problems ets : List ℕ)
      → ((et : ℕ) → member et ets ≡ true → holders variables batch et problems ≡ 0)
      → clash problems ets ≡ ok tt
  unfolding clash
  clash-free problems [] h = refl
  clash-free problems (x ∷ ets) h = ground (
    arith,
    some_batch_has-holders x problems,
    h x,
    clash-free problems ets (λ et m. h et (ground (arith, m))),
  )

  -- The state after the first loop of `add`.
  abbrev pub counted_in :
      ℕ
      → IncrementalOptimizationProblem Params
      → Result (Unit {0}) × IncrementalOptimizationProblem Params
  counted_in b p = add_variables (Problem.num_design_variables (batch b)) (batch b) 0 p

  check_terms :
      (b : ℕ) (p : IncrementalOptimizationProblem Params)
      → Invariant.IsValid variables (batch b)
      → check_error_terms batch (Problem.num_error_terms (batch b)) (batch b) 0 p
        ≡ (clash p.optimization_problems (batch b).error_terms, p)
  check_terms b p v =
      subst
        (λ n.
          check_error_terms batch n (batch b) 0 p
          ≡ (clash p.optimization_problems (batch b).error_terms, p))
        (error_term-listing (batch b) v).1
        (check_error_terms-clash (batch b) (batch b).error_terms 0 p v
          (λ j. ap (get_elem? (batch b).error_terms) (omega arith)))

  abbrev pub with_batch :
      ℕ → IncrementalOptimizationProblem Params → IncrementalOptimizationProblem Params
  with_batch b p = record p { optimization_problems = p.optimization_problems ++ b ∷ [] }

  -- `add` returns exactly where both loops do.
  pub add_stages :
      (b : ℕ) (p : IncrementalOptimizationProblem Params)
      → Invariant.IsValid variables (batch b)
      → (counted_in b p).0 ≡ ok tt
      → clash (counted_in b p).1.optimization_problems (batch b).error_terms ≡ ok tt
      → add batch (some b) p ≡ (ok tt, with_batch b (counted_in b p).1)
  unfolding add
  add_stages b p v h c = rw (h, check_terms b (counted_in b p).1 v, c) refl

  pub add_stages-ok :
      (b : ℕ) (p : IncrementalOptimizationProblem Params)
      → Invariant.IsValid variables (batch b)
      → (add batch (some b) p).0 ≡ ok tt
      → ((counted_in b p).0 ≡ ok tt)
        × (clash (counted_in b p).1.optimization_problems (batch b).error_terms ≡ ok tt)
  unfolding add
  add_stages-ok b p v done = elim (Result-cases (counted_in b p).0) [
    | inr (e, h) ↦ absurd (ground (arith, done, h))
    | inl (_, h) ↦
        elim (Result-cases (clash (counted_in b p).1.optimization_problems (batch b).error_terms)) [
          | inr (e, c) ↦ absurd (ground (arith, done, h, check_terms b (counted_in b p).1 v, c))
          | inl (_, c) ↦ (h, c)
        ]
  ]
