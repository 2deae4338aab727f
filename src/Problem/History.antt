-- ===== src/Problem/History.antt =====
-- Histories of calls on one OptimizationProblem.
use aslam_incremental_calibr.Common.{
  Bool, some, none, Result, ok, err, Exception, true, false, ok-ne-err, refl, arith, ℕ, ◌≡◌, List,
  [], ◌∷◌, Option,
}
use aslam_incremental_calibr.Backend.{Backend}
use aslam_incremental_calibr.Problem.{
  OptimizationProblem, empty, add_design_variable, set_groups_ordering, add_error_term, clear,
  permute_error_terms, permute_design_variables, save_design_variables,
}
use aslam_incremental_calibr.Problem.Invariant.{
  IsValid, empty-IsValid, add_design_variable-IsValid, set_groups_ordering-IsValid,
  add_error_term-IsValid, permute_error_terms-IsValid, permute_design_variables-IsValid,
}

module _ (b : Backend) where
  open b use {Store, Params}

  -- The public methods that change the problem.
  pub data Call : Type 0 where
    adds_variable : Option ℕ → ℕ → Call
    adds_error_term : Option ℕ → Call
    orders_groups permutes_error_terms : List ℕ → Call
    permutes_variables : List ℕ → ℕ → Call
    saves : Store → Call
    clears : Call

  module _ (variables : ℕ → List ℕ) where
    -- A caller may catch what a call throws and go on with the problem as it was left.
    unfoldable pub call : Call → OptimizationProblem Params → OptimizationProblem Params
    call (adds_variable dv g) p = (add_design_variable dv g p).1
    call (adds_error_term et) p = (add_error_term variables et p).1
    call (orders_groups ordering) p = (set_groups_ordering ordering p).1
    call (permutes_error_terms permutation) p = (permute_error_terms permutation p).1
    call (permutes_variables permutation g) p = (permute_design_variables permutation g p).1
    call (saves s) p = save_design_variables b s p
    call clears p = (clear p).1

    unfoldable pub run : List Call → OptimizationProblem Params → OptimizationProblem Params
    unfolding call
    run [] p = p
    run (c ∷ cs) p = run cs (call c p)

    call-IsValid :
        (c : Call) (p : OptimizationProblem Params)
        → IsValid variables p
        → IsValid variables (call c p)
    unfolding call save_design_variables clear
    call-IsValid (adds_variable dv g) p v = add_design_variable-IsValid variables dv g p v
    call-IsValid (adds_error_term et) p v = add_error_term-IsValid variables et p v
    call-IsValid (orders_groups ordering) p v = set_groups_ordering-IsValid variables ordering p v
    call-IsValid (permutes_error_terms permutation) p v =
        permute_error_terms-IsValid variables permutation p v
    call-IsValid (permutes_variables permutation g) p v =
        permute_design_variables-IsValid variables permutation g p v
    call-IsValid (saves s) p v = record {
      grouping = v.grouping;
      distinct = v.distinct;
      terms_agree = v.terms_agree;
      terms_once = v.terms_once;
      terms_closed = v.terms_closed;
    }
    call-IsValid clears p v = empty-IsValid variables

    run-IsValid :
        (cs : List Call) (p : OptimizationProblem Params)
        → IsValid variables p
        → IsValid variables (run cs p)
    unfolding run
    run-IsValid [] p v = v
    run-IsValid (c ∷ cs) p v = run-IsValid cs (call c p) (call-IsValid c p v)

    -- After any history of calls on a new problem, also where some of them threw, its lookup
    -- structure, its groups and its ordering agree, its two containers of error terms agree and hold
    -- each error term once, and its error terms are over its design variables.
    pub run-empty-IsValid : (cs : List Call) → IsValid variables (run cs empty)
    run-empty-IsValid cs = run-IsValid cs empty (empty-IsValid variables)

    -- What a call throws, where it throws.
    unfoldable pub thrown : Call → OptimizationProblem Params → Result (Unit {0})
    thrown (adds_variable dv g) p = (add_design_variable dv g p).0
    thrown (adds_error_term et) p = (add_error_term variables et p).0
    thrown (orders_groups ordering) p = (set_groups_ordering ordering p).0
    thrown (permutes_error_terms permutation) p = (permute_error_terms permutation p).0
    thrown (permutes_variables permutation g) p = (permute_design_variables permutation g p).0
    thrown (saves s) p = ok tt
    thrown clears p = (clear p).0

    -- The calls that are not permutations.
    abbrev pub is_atomic : Call → Bool
    is_atomic (permutes_error_terms permutation) = false
    is_atomic (permutes_variables permutation g) = false
    is_atomic c = true

    -- Each method but the two permutations is exception safe: where it throws it has changed nothing.
    pub throws_unchanged :
        (c : Call) (p : OptimizationProblem Params) (e : Exception)
        → is_atomic c ≡ true
        → thrown c p ≡ err e
        → call c p ≡ p
    unfolding call thrown add_design_variable add_error_term set_groups_ordering clear
    throws_unchanged (adds_variable none g) p e a h = refl
    throws_unchanged (adds_variable (some dv) g) p e a h = ground (arith, h)
    throws_unchanged (adds_error_term none) p e a h = refl
    throws_unchanged (adds_error_term (some et)) p e a h = ground (arith, h)
    throws_unchanged (orders_groups ordering) p e a h = ground (arith, h)
    throws_unchanged (permutes_error_terms permutation) p e a h = cc
    throws_unchanged (permutes_variables permutation g) p e a h = cc
    throws_unchanged (saves s) p e a h = cc
    throws_unchanged clears p e a h = absurd (ok-ne-err h)
