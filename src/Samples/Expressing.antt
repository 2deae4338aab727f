-- ===== src/Samples/Expressing.antt =====
-- Concrete expressions for the tests: numbers for doubles, vectors and quaternions, curves with three
-- coefficients, and an expression is the list of its design variables.
use aslam_incremental_calibr.Common.{
  ℕ, ◌+◌, ◌-◌, ◌*◌, ◌/◌, ◌≡◌, refl, subst, Bool, true, false, List, [], ◌∷◌, ◌++◌, ℤ, pos, pos_part,
  ◌+ℤ◌, member, ◌==◌, if◌then◌else◌, arith, length, inl, inr, Bool-cases,
}
use aslam_incremental_calibr.Incremental.Uses.{member-append}
use aslam_incremental_calibr.Samples.{backend, optimizer}
use aslam_incremental_calibr.Expressions.{Expressions, Over}

pub Over-append : (w : ℕ → Bool) (xs ys : List ℕ) → Over w xs → Over w ys → Over w (xs ++ ys)
Over-append w xs ys over over' dv m = elim (Bool-cases (member dv xs)) [
  | inl first ↦ over dv first
  | inr second ↦ over' dv (ground (arith, m, second, member-append xs ys dv))
]

pub Over-single : (w : ℕ → Bool) (dv : ℕ) → w dv ≡ true → Over w (dv ∷ [])
Over-single w dv e y m = let same : dv ≡ y = ground (arith, m) in subst (λ z. w z ≡ true) same e

pub Over-none : (w : ℕ → Bool) → Over w []
Over-none w dv m = cc

pub always : (b : Bool) → true ≡ (if b then true else true)
always true = refl
always false = refl

-- A time: its design variables and its constant part.
abbrev pub Timed : Type 0
Timed = List ℕ × ℤ

abbrev pub expressions : Expressions backend optimizer
expressions = record {
  one_number = 1;
  plus = λ a b. a + b;
  times = λ a b. a * b;
  divide = λ a b. a / b;
  square_root = λ a. a;
  number_of = λ i. pos_part i;
  round = λ a. pos a;
  ceil = λ a. pos a;
  nsec_to_sec = λ t. pos_part t;
  seconds_of = λ t. pos_part t;
  Vector3 = List ℕ;
  vector3 = λ a b c. a ∷ b ∷ c ∷ [];
  x_of = λ v. length v;
  y_of = λ v. length v;
  z_of = λ v. length v;
  minus_vector = λ a b. a;
  vector_of = λ l. l;
  diagonal = λ v. tt;
  block_diagonal = λ a b. tt;
  Rotation3 = ℕ;
  times_rotation = λ a b. a + b;
  transpose = λ a. a;
  rotated = λ r v. v;
  parameters_to_rotation_matrix = λ v. length v;
  rotation_matrix_to_parameters = λ r. r ∷ [];
  Quaternion = ℕ;
  quat2r = λ q. q;
  r2quat = λ r. r;
  plus_quaternion = λ a b. a + b;
  minus_quaternion = λ a b. a - b;
  negate_quaternion = λ a. a;
  norm = λ a. a;
  new_scalar = λ dv v s y. if dv == y then v else s y;
  new_time = λ dv t s y. if dv == y then pos_part t else s y;
  new_point = λ dv v s y. if dv == y then length v else s y;
  new_rotation = λ dv r s y. if dv == y then r else s y;
  set_active = λ dv active s. s;
  is_active-set_active = λ dv x s. always (dv == x);
  first_parameter = λ s dv. s dv;
  scalar_value = λ s dv. s dv;
  point_value = λ s dv. s dv ∷ [];
  quaternion_value = λ s dv. s dv;
  TranslationCurve = List ℤ;
  RotationCurve = List ℤ;
  fit_translation = λ times values segments lambda order. times;
  fit_rotation = λ times values segments lambda order. times;
  translation_size = λ c. 3;
  rotation_size = λ c. 3;
  translation_size_pos = λ c. omega arith;
  rotation_size_pos = λ c. omega arith;
  new_translation_variables = λ c dvs s. s;
  new_rotation_variables = λ c dvs s. s;
  min_time = λ c. pos 0;
  max_time = λ c. pos 100;
  Time = Timed;
  time_variables = λ t. t.0;
  constant_time = λ t. ([], t);
  time_variable = λ dv. (dv ∷ [], pos 0);
  plus_time = λ a b. (a.0 ++ b.0, a.1 +ℤ b.1);
  time_value = λ s t. t.1;
  Scalar = List ℕ;
  scalar_variables = λ l. l;
  scalar_variable = λ dv. dv ∷ [];
  Euclidean = List ℕ;
  euclidean_variables = λ l. l;
  constant_vector = λ v. [];
  point_variable = λ dv. dv ∷ [];
  plus_euclidean = λ a b. a ++ b;
  negate_euclidean = λ a. a;
  cross = λ a b. a ++ b;
  scale = λ a b. a ++ b;
  euclidean_value = λ s l. l;
  Rotation = List ℕ;
  rotation_variables = λ l. l;
  rotation_variable = λ dv. dv ∷ [];
  inverse = λ r. r;
  compose = λ a b. a ++ b;
  rotate = λ a b. a ++ b;
  rotation_value = λ s l. length l;
  position_at = λ c dvs t lower upper. dvs ++ t.0;
  velocity_at = λ c dvs t lower upper. dvs ++ t.0;
  orientation_at = λ c dvs t lower upper. dvs ++ t.0;
  angular_velocity_at = λ c dvs t lower upper. dvs ++ t.0;
  ErrorTerm = List ℕ;
  error_variables = λ l. l;
  error_term_pose = λ r a p q cov. r ++ a;
  error_term_wheel = λ a c value cov. a ++ c;
  evaluate_error = λ s l. length l;
  error_vector = λ s l. l;
  over-constant_time = λ w t. Over-none w;
  over-time_variable = λ w dv e. Over-single w dv e;
  over-plus_time = λ w s t. Over-append w s.0 t.0;
  over-scalar_variable = λ w dv e. Over-single w dv e;
  over-constant_vector = λ w v. Over-none w;
  over-point_variable = λ w dv e. Over-single w dv e;
  over-plus_euclidean = λ w a b. Over-append w a b;
  over-negate_euclidean = λ w a over. over;
  over-cross = λ w a b. Over-append w a b;
  over-scale = λ w a b. Over-append w a b;
  over-rotation_variable = λ w dv e. Over-single w dv e;
  over-inverse = λ w r over. over;
  over-compose = λ w a b. Over-append w a b;
  over-rotate = λ w a b. Over-append w a b;
  over-position_at = λ w c dvs t lower upper. Over-append w dvs t.0;
  over-velocity_at = λ w c dvs t lower upper. Over-append w dvs t.0;
  over-orientation_at = λ w c dvs t lower upper. Over-append w dvs t.0;
  over-angular_velocity_at = λ w c dvs t lower upper. Over-append w dvs t.0;
  over-error_term_pose = λ w r a p q cov. Over-append w r a;
  over-error_term_wheel = λ w a c value cov. Over-append w a c;
}
