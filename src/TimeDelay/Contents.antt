-- ===== src/TimeDelay/Contents.antt =====
-- The batch that algo/Calibrator.cpp of
-- incremental_calibration_examples/incremental_calibration_examples_time_delay/src fills: which
-- design variables it has in which group, and which error terms.
use aslam_incremental_calibr.Common.{
  ℕ, ◌+◌, ◌≡◌, ◌≤◌, ◌<◌, refl, Bool, true, false, List, [], ◌∷◌, ◌++◌, none, some, member, ltb, leb,
  if◌then◌else◌, ◌&&◌, ◌||◌, find, insert_new, find-put, insert, ok, arith, member-count,
  count-append,
}
use aslam_incremental_calibr.Problem.{
  OptimizationProblem, add_design_variable, add_error_term, check_design_variables,
  is_design_variable_in_problem, is_error_term_in_problem,
}
use aslam_incremental_calibr.Problem.Invariant
use aslam_incremental_calibr.Problem.Invariant.{add_design_variable-IsValid, add_error_term-IsValid}
use aslam_incremental_calibr.Incremental.Frame.{problem-congr}
use aslam_incremental_calibr.Expressions.{Over}

-- The odometry design variables are the first seven pointers, in group 1; those of splines are in
-- group 0.
abbrev pub kind : ℕ → ℕ
kind dv = if ltb dv 7 then 1 else 0

-- The odometry design variables, and those of the splines from one pointer up to another.
abbrev pub within : ℕ → ℕ → ℕ → Bool
within first upto dv = ltb dv 7 || leb first dv && ltb dv upto

module _ {Params : Type 0} (variables : ℕ → List ℕ) where
  -- The problem has exactly these design variables and these error terms.
  pub record Holds (first upto first_term next_term : ℕ) (p : OptimizationProblem Params)
      : Type 0 where
    pub valid : Invariant.IsValid variables p
    pub groups :
        (dv : ℕ)
        → find dv p.design_variables_lookup
          ≡ (if within first upto dv then some (kind dv) else none)
    pub terms : (et : ℕ) → member et p.error_terms ≡ (leb first_term et && ltb et next_term)

  -- A further design variable of a spline.
  pub add_design_variable-Holds :
      (first upto first_term next_term : ℕ) (p : OptimizationProblem Params)
      → 7 ≤ first
      → first ≤ upto
      → Holds first upto first_term next_term p
      → (add_design_variable (some upto) 0 p ≡ (ok tt, (add_design_variable (some upto) 0 p).1))
        × Holds first (upto + 1) first_term next_term (add_design_variable (some upto) 0 p).1
  unfolding add_design_variable
  add_design_variable-Holds first upto first_term next_term p low le h = (
    rw (new, add_design_variable) refl,
    record {
      valid = add_design_variable-IsValid variables (some upto) 0 p h.valid;
      groups = rw new (λ dv. looked_up dv);
      terms = rw new h.terms;
    },
  )
    where
      new : is_design_variable_in_problem p upto ≡ false
      new = ground (arith, h.groups upto)

      looked_up :
          (dv : ℕ)
          → find dv (insert upto 0 p.design_variables_lookup)
            ≡ (if within first (upto + 1) dv then some (kind dv) else none)
      looked_up dv =
          rw (insert_new upto 0 p.design_variables_lookup new)
            (ground (arith, find-put upto dv 0 p.design_variables_lookup, h.groups dv))

check_design_variables_complete :
    {Params : Type 0} (p : OptimizationProblem Params) (dvs : List ℕ)
    → ((dv : ℕ) → member dv dvs ≡ true → is_design_variable_in_problem p dv ≡ true)
    → check_design_variables p dvs ≡ ok tt
unfolding check_design_variables
check_design_variables_complete p [] h = refl
check_design_variables_complete p (dv ∷ dvs) h =
    rw (h dv (ground arith))
      (check_design_variables_complete p dvs (λ x m. h x (ground (arith, m))))

module _ {Params : Type 0} where
  -- Only the design variables of the error terms that a problem holds matter.
  pub Holds-congr :
      {variables variables' : ℕ → List ℕ} {first upto first_term next_term : ℕ}
      (p : OptimizationProblem Params)
      → Holds variables first upto first_term next_term p
      → ((et : ℕ) → et < next_term → variables' et ≡ variables et)
      → Holds variables' first upto first_term next_term p
  Holds-congr {variables} {variables'} p h same = record {
    valid = problem-congr p h.valid (λ et m. same et (ground (arith, m, h.terms et)));
    groups = h.groups;
    terms = h.terms;
  }

  -- A further error term, over design variables of the problem.
  pub add_error_term-Holds :
      {variables : ℕ → List ℕ} (first upto first_term et : ℕ) (p : OptimizationProblem Params)
      → first_term ≤ et
      → Holds variables first upto first_term et p
      → Over (within first upto) (variables et)
      → (add_error_term variables (some et) p ≡ (ok tt, (add_error_term variables (some et) p).1))
        × Holds variables first upto first_term (et + 1) (add_error_term variables (some et) p).1
  unfolding add_error_term
  add_error_term-Holds {variables} first upto first_term et p le h over = (
    rw (new, checked, add_error_term) refl,
    record {
      valid = add_error_term-IsValid variables (some et) p h.valid;
      groups = rw (new, checked) h.groups;
      terms = rw (new, checked) all_of;
    },
  )
    where
      new : is_error_term_in_problem p et ≡ false
      new = ground (
        arith,
        h.terms et,
        h.valid.terms_agree et,
        member-count et p.error_terms,
        member-count et p.error_terms_lookup,
      )

      checked : check_design_variables p (variables et) ≡ ok tt
      checked =
          check_design_variables_complete p (variables et)
            (λ dv m. ground (arith, h.groups dv, over dv m))

      all_of : (y : ℕ) → member y (p.error_terms ++ et ∷ []) ≡ (leb first_term y && ltb y (et + 1))
      all_of y = ground (
        arith,
        le,
        h.terms y,
        member-count y p.error_terms,
        member-count y (p.error_terms ++ et ∷ []),
        count-append y p.error_terms (et ∷ []),
      )
