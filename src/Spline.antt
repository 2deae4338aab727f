-- ===== src/Spline.antt =====
-- incremental_calibration_examples/incremental_calibration_examples_time_delay/src/algo/
-- OptimizationProblemSpline.cpp and its header: an optimization problem that also holds splines.
pub mod Insert
mod Tests
use aslam_incremental_calibr.Common.{
  ℕ, Bool, true, List, [], ◌∷◌, ◌++◌, some, length, get_elem?, leb, if◌then◌else◌, Result, ok, err,
  out_of_bound, undefined_behaviour, Method, or_throw,
}
use aslam_incremental_calibr.Common.Stateful.{pure, ◌>>=◌, ◌>>◌, modify}
use aslam_incremental_calibr.Backend.{Backend}
use aslam_incremental_calibr.Optimizer.{Optimizer}
use aslam_incremental_calibr.Expressions.{Expressions}
use aslam_incremental_calibr.Problem
use aslam_incremental_calibr.Problem.{OptimizationProblem}

-- An OPTBSpline: a curve and the pointers of its design variables, in order.
pub record SplineOf (Curve : Type 0) : Type 0 where
  pub curve : Curve
  pub design_variables : List ℕ

-- `_splines[idx]` behind its check.
unfoldable pub spline_at : {Curve : Type 0} → List (SplineOf Curve) → ℕ → Result (SplineOf Curve)
spline_at splines idx =
    if leb (length splines) idx
    then err (out_of_bound idx)
    else or_throw (get_elem? splines idx) undefined_behaviour

module _ (k : Backend) (o : Optimizer k) (x : Expressions k o) where
  open k use {Store, Params}
  open x use {TranslationCurve, RotationCurve}

  pub record OptimizationProblemSpline : Type 0 where
    pub problem : OptimizationProblem Params
    pub translation_splines : List (SplineOf TranslationCurve)
    pub rotation_splines : List (SplineOf RotationCurve)

  abbrev pub empty : OptimizationProblemSpline
  empty = record { problem = Problem.empty; translation_splines = []; rotation_splines = [] }

  abbrev pub get_translation_splines : OptimizationProblemSpline → List (SplineOf TranslationCurve)
  get_translation_splines p = p.translation_splines

  abbrev pub get_num_translation_splines : OptimizationProblemSpline → ℕ
  get_num_translation_splines p = length p.translation_splines

  abbrev pub get_translation_spline :
      OptimizationProblemSpline → ℕ → Result (SplineOf TranslationCurve)
  get_translation_spline p idx = spline_at p.translation_splines idx

  abbrev pub get_rotation_splines : OptimizationProblemSpline → List (SplineOf RotationCurve)
  get_rotation_splines p = p.rotation_splines

  abbrev pub get_num_rotation_splines : OptimizationProblemSpline → ℕ
  get_num_rotation_splines p = length p.rotation_splines

  abbrev pub get_rotation_spline : OptimizationProblemSpline → ℕ → Result (SplineOf RotationCurve)
  get_rotation_spline p idx = spline_at p.rotation_splines idx

  -- `addSpline` also writes to the design variables of the spline.
  pub record Inserting : Type 0 where
    pub batch : OptimizationProblemSpline
    pub store : Store

  -- A call of a method that the class inherits.
  abbrev pub on_problem : {A : Type 0} → Method (OptimizationProblem Params) A → Method Inserting A
  on_problem m i =
      let (r, problem) = m i.batch.problem in
      (r, record i { batch = record i.batch { problem = problem } })

  -- Loop of `addSpline` over the design variables of the spline.
  unfoldable pub add_variables : List ℕ → ℕ → Method Inserting (Unit {0})
  add_variables [] group_id = pure tt
  add_variables (dv ∷ dvs) group_id =
      let rest = add_variables dvs group_id in
      do
        modify (λ i. record i { store = x.set_active dv true i.store })
        on_problem (Problem.add_design_variable (some dv) group_id)
        rest

  unfoldable pub add_translation_spline :
      SplineOf TranslationCurve → ℕ → Method Inserting (Unit {0})
  add_translation_spline spline group_id = do
    add_variables spline.design_variables group_id
    modify (λ i. record i {
      batch = record i.batch { translation_splines = i.batch.translation_splines ++ spline ∷ [] };
    })

  unfoldable pub add_rotation_spline : SplineOf RotationCurve → ℕ → Method Inserting (Unit {0})
  add_rotation_spline spline group_id = do
    add_variables spline.design_variables group_id
    modify (λ i. record i {
      batch = record i.batch { rotation_splines = i.batch.rotation_splines ++ spline ∷ [] };
    })
