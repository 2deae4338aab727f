-- ===== src/Spline/Tests.antt =====
-- Splines over the concrete back end, added to a batch that has design variable 5.
use aslam_incremental_calibr.Common.{
  ℕ, ◌≡◌, ◌≤◌, refl, true, false, [], ◌∷◌, ◌++◌, get_elem?, ok, err, invalid_operation, or_throw,
  out_of_bound, count, member, arith, find,
}
use aslam_incremental_calibr.Samples.{backend, optimizer}
use aslam_incremental_calibr.Samples.Expressing.{expressions}
use aslam_incremental_calibr.Problem.{is_design_variable_in_problem}
use aslam_incremental_calibr.Spline.{SplineOf, Inserting, spline_at, add_translation_spline, empty}
use aslam_incremental_calibr.Spline.Insert.{
  Inserted, spline_at-cases, add_translation_spline_lem, add_translation_spline_throws,
}

abbrev inserting : Inserting backend optimizer expressions
inserting = record {
  batch = record (empty backend optimizer expressions) {
    problem = record (empty backend optimizer expressions).problem {
      design_variables_lookup = (5, 1) ∷ [];
      design_variables = (1, 5 ∷ []) ∷ [];
      groups_ordering = 1 ∷ [];
    };
  };
  store = λ y. 0;
}

abbrev spline : SplineOf expressions.TranslationCurve
spline = record { curve = []; design_variables = 7 ∷ 8 ∷ 9 ∷ [] }

once : (dv : ℕ) → count dv spline.design_variables ≤ 1
once dv = ground arith

new :
    (dv : ℕ)
    → member dv spline.design_variables ≡ true
    → is_design_variable_in_problem inserting.batch.problem dv ≡ false
unfolding find
new dv m = ground (arith, m)

add_translation_spline_lem_example :
    (j : Inserting backend optimizer expressions) × (add_translation_spline backend optimizer
        expressions spline 0 inserting
      ≡ (
        ok tt,
        record j {
          batch = record j.batch {
            translation_splines = inserting.batch.translation_splines ++ spline ∷ [];
          };
        },
      ))
    × Inserted backend optimizer expressions spline.design_variables 0 inserting j
add_translation_spline_lem_example =
    add_translation_spline_lem backend optimizer expressions spline 0 inserting once new

there : is_design_variable_in_problem inserting.batch.problem 5 ≡ true
unfolding find
there = refl

new_before :
    (dv : ℕ)
    → member dv (8 ∷ []) ≡ true
    → is_design_variable_in_problem inserting.batch.problem dv ≡ false
unfolding find
new_before dv m = ground (arith, m)

-- The second design variable is in the problem.
add_translation_spline_throws_example :
    (j : Inserting backend optimizer expressions) × (add_translation_spline backend optimizer
        expressions
        (record { curve = []; design_variables = (8 ∷ []) ++ 5 ∷ [] })
        0
        inserting
      ≡ (err invalid_operation, record j { store = expressions.set_active 5 true j.store }))
    × Inserted backend optimizer expressions (8 ∷ []) 0 inserting j
add_translation_spline_throws_example =
    add_translation_spline_throws backend optimizer expressions [] (8 ∷ []) 5 [] 0 inserting
      (λ y. ground arith) new_before (ground (arith, there))

spline_at-cases_example :
    spline_at (spline ∷ []) 1 ≡ or_throw (get_elem? (spline ∷ []) 1) (out_of_bound 1)
spline_at-cases_example = spline_at-cases (spline ∷ []) 1
