-- ===== src/TimeDelay/Gather.antt =====
-- The loops of algo/Calibrator.cpp of
-- incremental_calibration_examples/incremental_calibration_examples_time_delay/src that fill a batch:
-- they return and put in it what they went over.
use aslam_incremental_calibr.Common.{
  ℕ, zero, suc, ◌+◌, ◌-◌, ◌≡◌, ◌≤◌, ◌<◌, refl, sym, ◌∙◌, subst, Bool, true, List, [], ◌∷◌, ◌++◌,
  Option, none, some, length, get_elem?-append_left, get_elem?-append_right, length-append,
  append_assoc, append_nil, ok, arith,
}
use aslam_incremental_calibr.Backend.{Backend}
use aslam_incremental_calibr.Optimizer.{Optimizer}
use aslam_incremental_calibr.Expressions.{Expressions, Over}
use aslam_incremental_calibr.Problem.{OptimizationProblem, add_error_term, add_design_variable}
use aslam_incremental_calibr.Spline
use aslam_incremental_calibr.Spline.{Inserting}
use aslam_incremental_calibr.TimeDelay.{variables_in}
use aslam_incremental_calibr.TimeDelay.Terms.{pointers}
use aslam_incremental_calibr.TimeDelay.Run.{Building, add_new_error_term, add_each}
use aslam_incremental_calibr.TimeDelay.Contents.{
  within, Holds, Holds-congr, add_error_term-Holds, add_design_variable-Holds,
}

-- The error terms that there are.
abbrev pub chosen : {A : Type 0} → List (Option A) → List A
chosen [] = []
chosen (none ∷ terms) = chosen terms
chosen (some t ∷ terms) = t ∷ chosen terms

module _ (k : Backend) (o : Optimizer k) (x : Expressions k o) where
  open x use {ErrorTerm, error_variables}

  -- A pointer below the next one still stands for the same error term.
  pub variables_in-append :
      (terms more : List ErrorTerm) (et : ℕ)
      → et < length terms
      → variables_in k o x (terms ++ more) et ≡ variables_in k o x terms et
  variables_in-append terms more et lt =
      rw (get_elem?-append_left terms more et lt, variables_in) refl

  variables_in-last :
      (terms : List ErrorTerm) (t : ErrorTerm)
      → variables_in k o x (terms ++ t ∷ []) (length terms) ≡ error_variables t
  variables_in-last terms t =
      rw
        (
          get_elem?-append_right terms (t ∷ []) (length terms) (omega arith),
          zero_index,
          variables_in,
        )
        refl
    where
      zero_index : length terms - length terms ≡ 0
      zero_index = omega arith

  -- Each error term is over these design variables.
  abbrev pub AllOver : (ℕ → Bool) → List (Option ErrorTerm) → Type 0
  AllOver w [] = Unit {0}
  AllOver w (none ∷ terms) = AllOver w terms
  AllOver w (some t ∷ terms) = Over w (error_variables t) × AllOver w terms

  abbrev pub with_terms :
      Building k o x → List ErrorTerm → OptimizationProblem k.Params → Building k o x
  with_terms w terms p = record {
    calibrator = record w.calibrator { error_terms = terms };
    batch = record w.batch { problem = p };
  }

  -- The batch of a building, over the error terms that there are.
  abbrev pub Fills : ℕ → ℕ → ℕ → List ErrorTerm → OptimizationProblem k.Params → Type 0
  Fills first upto first_term terms p =
      Holds (variables_in k o x terms) first upto first_term (length terms) p

  add_new_error_term_lem :
      (first upto first_term : ℕ) (t : ErrorTerm) (w : Building k o x)
      → first_term ≤ length w.calibrator.error_terms
      → Fills first upto first_term w.calibrator.error_terms w.batch.problem
      → Over (within first upto) (error_variables t)
      → (p : OptimizationProblem k.Params) × (add_new_error_term k o x t w
          ≡ (ok tt, with_terms w (w.calibrator.error_terms ++ t ∷ []) p))
        × Fills first upto first_term (w.calibrator.error_terms ++ t ∷ []) p
  unfolding add_new_error_term
  add_new_error_term_lem first upto first_term t w le h over =
      let terms = w.calibrator.error_terms in
      let grown = terms ++ t ∷ [] in
      let et = length terms in
      let variables = variables_in k o x grown in
      let p = (add_error_term variables (some et) w.batch.problem).1 in
      let before =
        Holds-congr w.batch.problem h (λ y lt. variables_in-append terms (t ∷ []) y lt) in
      let (adds, after) =
        add_error_term-Holds {variables = variables} first upto first_term et w.batch.problem le
          before (subst (λ l. Over (within first upto) l) (sym (variables_in-last terms t)) over) in
      (
        p,
        rw adds refl,
        subst (λ n. Holds variables first upto first_term n p) (sym (length-append terms (t ∷ [])))
            after,
      )

  -- The loop over error terms that have only design variables of the batch returns, and the batch has
  -- them all.
  pub add_each_lem :
      (first upto first_term : ℕ) (ts : List (Option ErrorTerm)) (w : Building k o x)
      → first_term ≤ length w.calibrator.error_terms
      → Fills first upto first_term w.calibrator.error_terms w.batch.problem
      → AllOver (within first upto) ts
      → (p : OptimizationProblem k.Params) × (add_each k o x ts w
          ≡ (ok tt, with_terms w (w.calibrator.error_terms ++ chosen ts) p))
        × Fills first upto first_term (w.calibrator.error_terms ++ chosen ts) p
  unfolding add_each
  add_each_lem first upto first_term [] w le h all =
      let same = append_nil w.calibrator.error_terms in
      (
        w.batch.problem,
        rw same refl,
        subst (λ l. Fills first upto first_term l w.batch.problem) (sym same) h,
      )
  add_each_lem first upto first_term (none ∷ ts) w le h all =
      add_each_lem first upto first_term ts w le h all
  add_each_lem first upto first_term (some t ∷ ts) w le h (over, all) =
      let (p, adds, h1) = add_new_error_term_lem first upto first_term t w le h over in
      let terms = w.calibrator.error_terms in
      let (q, rest, h2) =
        add_each_lem first upto first_term ts (with_terms w (terms ++ t ∷ []) p)
          (omega (arith, length-append terms (t ∷ []))) h1 all in
      let same = append_assoc terms (t ∷ []) (chosen ts) in
      (q, rw adds (rest ∙ rw same refl), subst (λ l. Fills first upto first_term l q) same h2)

  -- The loop over the new design variables of a spline returns, and the batch has them all.
  pub add_variables_lem :
      {variables : ℕ → List ℕ} (first upto n first_term next_term : ℕ) (i : Inserting k o x)
      → 7 ≤ first
      → first ≤ upto
      → Holds variables first upto first_term next_term i.batch.problem
      → (s : k.Store) × (p : OptimizationProblem k.Params) × (Spline.add_variables k o x
            (pointers upto n)
            0
            i
          ≡ (ok tt, record { batch = record i.batch { problem = p }; store = s }))
        × Holds variables first (upto + n) first_term next_term p
  unfolding Spline.add_variables
  add_variables_lem {variables} first upto zero first_term next_term i low le h = (
    i.store,
    i.batch.problem,
    refl,
    subst (λ m. Holds variables first m first_term next_term i.batch.problem) (omega arith) h,
  )
  add_variables_lem {variables} first upto (suc n) first_term next_term i low le h =
      let p = (add_design_variable (some upto) 0 i.batch.problem).1 in
      let (adds, h1) =
        add_design_variable-Holds variables first upto first_term next_term i.batch.problem low le
          h in
      let i1 : Inserting k o x = record {
        batch = record i.batch { problem = p };
        store = x.set_active upto true i.store;
      } in
      let (s, q, rest, h2) =
        add_variables_lem {variables = variables} first (upto + 1) n first_term next_term i1 low
          (omega arith) h1 in
      (
        s,
        q,
        rw adds rest,
        subst (λ m. Holds variables first m first_term next_term q) (omega arith) h2,
      )
