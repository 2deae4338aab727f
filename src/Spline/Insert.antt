-- ===== src/Spline/Insert.antt =====
-- `addSpline` of
-- incremental_calibration_examples/incremental_calibration_examples_time_delay/src/algo/
-- OptimizationProblemSpline.cpp.
use aslam_incremental_calibr.Common.{
  ℕ, ◌≡◌, refl, true, false, List, [], ◌∷◌, ◌++◌, ◌≤◌, some, length, get_elem?, member, count, leb,
  ◌==◌, if◌then◌else◌, or_throw, out_of_bound, find, err, invalid_operation, arith, inl, inr,
  Bool-cases, member-count, get_elem?-lt, get_elem?-ge, ok, Result, ok-ne-err, ◌||◌, insert_new,
  find-put, ◌∙◌, sym, ap, append_nil, append_assoc,
}
use aslam_incremental_calibr.Backend.{Backend}
use aslam_incremental_calibr.Optimizer.{Optimizer}
use aslam_incremental_calibr.Expressions.{Expressions}
use aslam_incremental_calibr.Groups.{group}
use aslam_incremental_calibr.Groups.Change.{group-put}
use aslam_incremental_calibr.Problem.{is_design_variable_in_problem, add_design_variable}
use aslam_incremental_calibr.Spline.{
  SplineOf, Inserting, spline_at, add_variables, add_translation_spline,
}

-- The getters return the spline at an index, and throw OutOfBoundException exactly past the end.
pub spline_at-cases :
    {Curve : Type 0} (splines : List (SplineOf Curve)) (idx : ℕ)
    → spline_at splines idx ≡ or_throw (get_elem? splines idx) (out_of_bound idx)
unfolding spline_at
spline_at-cases splines idx = elim (Bool-cases (leb (length splines) idx)) [
  | inl out ↦ rw (out, get_elem?-ge splines idx (ground arith)) refl
  | inr inside ↦ let (s, e) = get_elem?-lt splines idx (ground arith) in rw (inside, e) refl
]

module _ (k : Backend) (o : Optimizer k) (x : Expressions k o) where
  -- What the loop of `addSpline` has done after these design variables.
  pub record Inserted (dvs : List ℕ) (group_id : ℕ) (i j : Inserting k o x) : Type 0 where
    pub lookup :
        (dv : ℕ)
        → find dv j.batch.problem.design_variables_lookup ≡ (
            if member dv dvs
            then some group_id
            else find dv i.batch.problem.design_variables_lookup)
    -- They are at the end of the group's list, and no other group has changed.
    pub groups :
        (g : ℕ)
        → group j.batch.problem.design_variables g ≡ (
            if group_id == g
            then group i.batch.problem.design_variables g ++ dvs
            else group i.batch.problem.design_variables g)
    pub active :
        (dv : ℕ) → k.is_active j.store dv ≡ (if member dv dvs then true else k.is_active i.store dv)
    pub error_terms : j.batch.problem.error_terms ≡ i.batch.problem.error_terms
    pub translation_splines : j.batch.translation_splines ≡ i.batch.translation_splines
    pub rotation_splines : j.batch.rotation_splines ≡ i.batch.rotation_splines

  pub add_variables-Inserted :
      (dvs : List ℕ) (group_id : ℕ) (i : Inserting k o x)
      → ((dv : ℕ) → count dv dvs ≤ 1)
      → ((dv : ℕ) → member dv dvs ≡ true → is_design_variable_in_problem i.batch.problem dv ≡ false)
      → (j : Inserting k o x) × (add_variables k o x dvs group_id i ≡ (ok tt, j))
        × Inserted dvs group_id i j
  unfolding add_variables add_design_variable
  add_variables-Inserted [] group_id i once new = (
    i,
    refl,
    record {
      lookup = λ dv. refl;
      groups = λ g. elim (Bool-cases (group_id == g)) [
        | inl same ↦ rw same (sym (append_nil (group i.batch.problem.design_variables g)))
        | inr other ↦ rw other refl
      ];
      active = λ dv. refl;
      error_terms = refl;
      translation_splines = refl;
      rotation_splines = refl;
    },
  )
  add_variables-Inserted (dv ∷ dvs) group_id i once new =
      let fresh = new dv (ground arith) in
      let p = (add_design_variable (some dv) group_id i.batch.problem).1 in
      let adds : add_design_variable (some dv) group_id i.batch.problem ≡ (ok tt, p) =
        rw (fresh, add_design_variable) refl in
      let i1 : Inserting k o x = record {
        batch = record i.batch { problem = p };
        store = x.set_active dv true i.store;
      } in
      let looked : (y : ℕ)
          → find y p.design_variables_lookup
            ≡ (if dv == y then some group_id else find y i.batch.problem.design_variables_lookup) =
        λ y.
          rw (fresh, insert_new dv group_id i.batch.problem.design_variables_lookup fresh)
            (find-put dv y group_id i.batch.problem.design_variables_lookup) in
      let groups = i.batch.problem.design_variables in
      let grouped : (g : ℕ)
          → (if group_id == g
              then group p.design_variables g ++ dvs
              else group p.design_variables g)
            ≡ (if group_id == g then group groups g ++ dv ∷ dvs else group groups g) =
        λ g. elim (Bool-cases (group_id == g)) [
          | inl same ↦
              let at : group_id ≡ g = ground (arith, same) in
              rw (fresh, group-put groups group_id g (group groups group_id ++ dv ∷ []), same)
                (append_assoc (group groups group_id) (dv ∷ []) dvs
                  ∙ ap (λ h. group groups h ++ dv ∷ dvs) at)
          | inr other ↦
              rw (fresh, group-put groups group_id g (group groups group_id ++ dv ∷ []), other) refl
        ] in
      let (j, run, done) =
        add_variables-Inserted dvs group_id i1 (λ y. ground (arith, once y))
          (λ y m. ground (arith, once y, once dv, m, looked y, new y, member-count y dvs)) in
      (
        j,
        rw adds run,
        record {
          lookup = λ y. ground (arith, done.lookup y, looked y);
          groups = λ g. done.groups g ∙ grouped g;
          active = λ y. ground (arith, done.active y, x.is_active-set_active dv y i.store);
          error_terms = done.error_terms ∙ rw fresh refl;
          translation_splines = done.translation_splines;
          rotation_splines = done.rotation_splines;
        },
      )

  -- `addSpline` of a spline whose design variables are distinct and none of them in the problem
  -- returns: they are all in the problem, at the end of the given group, and active, the other
  -- design variables and groups are as they were, and the spline is the last one of its list. The
  -- other list and the error terms have not changed.
  pub add_translation_spline_lem :
      (spline : SplineOf x.TranslationCurve) (group_id : ℕ) (i : Inserting k o x)
      → ((dv : ℕ) → count dv spline.design_variables ≤ 1)
      → ((dv : ℕ)
          → member dv spline.design_variables ≡ true
          → is_design_variable_in_problem i.batch.problem dv ≡ false)
      → (j : Inserting k o x) × (add_translation_spline k o x spline group_id i ≡ (
        ok tt,
        record j {
          batch = record j.batch {
            translation_splines = i.batch.translation_splines ++ spline ∷ [];
          };
        },
      ))
        × Inserted spline.design_variables group_id i j
  unfolding add_translation_spline
  add_translation_spline_lem spline group_id i once new =
      let (j, run, done) = add_variables-Inserted spline.design_variables group_id i once new in
      (j, rw (run, done.translation_splines) refl, done)

  -- One round of the loop.
  abbrev next_round : ℕ → ℕ → Inserting k o x → Inserting k o x
  next_round dv group_id i = record {
    batch = record i.batch { problem = (add_design_variable (some dv) group_id i.batch.problem).1 };
    store = x.set_active dv true i.store;
  }

  add_variables-suc :
      (dv : ℕ) (dvs : List ℕ) (group_id : ℕ) (i : Inserting k o x)
      → is_design_variable_in_problem i.batch.problem dv ≡ false
      → add_variables k o x (dv ∷ dvs) group_id i
        ≡ add_variables k o x dvs group_id (next_round dv group_id i)
  unfolding add_variables add_design_variable
  add_variables-suc dv dvs group_id i fresh =
      let adds : add_design_variable (some dv) group_id i.batch.problem
          ≡ (ok tt, (add_design_variable (some dv) group_id i.batch.problem).1) =
        rw (fresh, add_design_variable) refl in
      rw adds refl

  add_variables-old :
      (dv : ℕ) (dvs : List ℕ) (group_id : ℕ) (i : Inserting k o x)
      → is_design_variable_in_problem i.batch.problem dv ≡ true
      → add_variables k o x (dv ∷ dvs) group_id i
        ≡ (err invalid_operation, record i { store = x.set_active dv true i.store })
  unfolding add_variables add_design_variable
  add_variables-old dv dvs group_id i old =
      let throws : add_design_variable (some dv) group_id i.batch.problem
          ≡ (err invalid_operation, i.batch.problem) =
        rw old refl in
      rw throws refl

  add_variables-nil :
      (group_id : ℕ) (i : Inserting k o x) → (ok tt, i) ≡ add_variables k o x [] group_id i
  unfolding add_variables
  add_variables-nil group_id i = refl

  -- The loop goes on after some of the design variables.
  add_variables-append :
      (xs ys : List ℕ) (group_id : ℕ) (i j : Inserting k o x)
      → add_variables k o x xs group_id i ≡ (ok tt, j)
      → add_variables k o x (xs ++ ys) group_id i ≡ add_variables k o x ys group_id j
  add_variables-append [] ys group_id i j e =
      ap (λ (r : Result (Unit {0}) × Inserting k o x). add_variables k o x ys group_id r.1)
        (add_variables-nil group_id i ∙ e)
  add_variables-append (dv ∷ xs) ys group_id i j e =
      elim (Bool-cases (is_design_variable_in_problem i.batch.problem dv)) [
        | inl old ↦ absurd (
            ok-ne-err (
              sym (ap (λ (r : Result (Unit {0}) × Inserting k o x). r.0) e)
              ∙ ap (λ (r : Result (Unit {0}) × Inserting k o x). r.0)
                  (add_variables-old dv xs group_id i old)))
        | inr fresh ↦
            add_variables-suc dv (xs ++ ys) group_id i fresh
            ∙ add_variables-append xs ys group_id (next_round dv group_id i) j
                (sym (add_variables-suc dv xs group_id i fresh) ∙ e)
      ]

  -- `addSpline` throws InvalidOperationException at the first design variable of the spline that is
  -- in the problem already or comes in the spline a second time; this one has become active, those
  -- before it stay in the problem, and the spline is in neither list.
  pub add_translation_spline_throws :
      (curve : x.TranslationCurve) (before : List ℕ) (dv : ℕ) (rest : List ℕ) (group_id : ℕ)
      (i : Inserting k o x)
      → ((y : ℕ) → count y before ≤ 1)
      → ((y : ℕ) → member y before ≡ true → is_design_variable_in_problem i.batch.problem y ≡ false)
      → (is_design_variable_in_problem i.batch.problem dv || member dv before) ≡ true
      → (j : Inserting k o x) × (add_translation_spline k o x
            (record { curve = curve; design_variables = before ++ dv ∷ rest })
            group_id
            i
          ≡ (err invalid_operation, record j { store = x.set_active dv true j.store }))
        × Inserted before group_id i j
  unfolding add_translation_spline
  add_translation_spline_throws curve before dv rest group_id i once new old =
      let (j, run, done) = add_variables-Inserted before group_id i once new in
      let there : is_design_variable_in_problem j.batch.problem dv ≡ true =
        ground (arith, done.lookup dv, old) in
      let stops =
        add_variables-append before (dv ∷ rest) group_id i j run
        ∙ add_variables-old dv rest group_id j there in
      (j, rw stops refl, done)
