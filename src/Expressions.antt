-- ===== src/Expressions.antt =====
-- What the calibrators under incremental_calibration_examples use of code that is not part of the
-- repository: expressions and error terms of aslam_backend, splines of aslam_splines and bsplines,
-- rotations of sm_kinematics, Eigen's fixed-size vectors, more double arithmetic and sm_timing.
use aslam_incremental_calibr.Common.{ℕ, ◌≡◌, ◌<◌, Bool, true, List, ℤ, member, ◌==◌, if◌then◌else◌}
use aslam_incremental_calibr.Backend.{Backend}
use aslam_incremental_calibr.Optimizer.{Optimizer}

-- Each of the design variables is one of those.
abbrev pub Over : (ℕ → Bool) → List ℕ → Type 0
Over within dvs = (dv : ℕ) → member dv dvs ≡ true → within dv ≡ true

pub record Expressions (k : Backend) (o : Optimizer k) : Type 1 where
  -- Doubles.
  pub one_number : o.Number
  pub plus : o.Number → o.Number → o.Number
  pub times : o.Number → o.Number → o.Number
  pub divide : o.Number → o.Number → o.Number
  pub square_root : o.Number → o.Number
  pub number_of : ℤ → o.Number
  -- std::round and std::ceil, converted to int
  pub round : o.Number → ℤ
  pub ceil : o.Number → ℤ
  -- Nanoseconds as seconds: `nsecToSec`, and the division by NsecTimePolicy::getOne().
  pub nsec_to_sec : ℤ → o.Number
  pub seconds_of : ℤ → o.Number
  -- Vectors of 3, rotation matrices and quaternions.
  pub Vector3 : Type 0
  pub vector3 : o.Number → o.Number → o.Number → Vector3
  pub x_of : Vector3 → o.Number
  pub y_of : Vector3 → o.Number
  pub z_of : Vector3 → o.Number
  pub minus_vector : Vector3 → Vector3 → Vector3
  pub vector_of : List o.Number → o.Vector
  pub diagonal : Vector3 → o.Matrix
  pub block_diagonal : o.Matrix → o.Matrix → o.Matrix
  pub Rotation3 : Type 0
  pub times_rotation : Rotation3 → Rotation3 → Rotation3
  pub transpose : Rotation3 → Rotation3
  pub rotated : Rotation3 → Vector3 → Vector3
  pub parameters_to_rotation_matrix : Vector3 → Rotation3
  pub rotation_matrix_to_parameters : Rotation3 → Vector3
  pub Quaternion : Type 0
  pub quat2r : Quaternion → Rotation3
  pub r2quat : Rotation3 → Quaternion
  pub plus_quaternion : Quaternion → Quaternion → Quaternion
  pub minus_quaternion : Quaternion → Quaternion → Quaternion
  pub negate_quaternion : Quaternion → Quaternion
  pub norm : Quaternion → o.Number
  -- The constructors of the design variable objects that a pointer is given to, with their values:
  -- Scalar, GenericScalar<Time>, EuclideanPoint and RotationQuaternion.
  pub new_scalar : ℕ → o.Number → k.Store → k.Store
  pub new_time : ℕ → ℤ → k.Store → k.Store
  pub new_point : ℕ → Vector3 → k.Store → k.Store
  pub new_rotation : ℕ → Rotation3 → k.Store → k.Store
  -- `setActive`, which writes the flag that `isActive` reads.
  pub set_active : ℕ → Bool → k.Store → k.Store
  pub is_active-set_active :
      (dv x : ℕ) (s : k.Store)
      → k.is_active (set_active dv true s) x ≡ (if dv == x then true else k.is_active s x)
  -- The values of design variables: the first parameter, a scalar, a point and a rotation.
  pub first_parameter : k.Store → ℕ → o.Number
  pub scalar_value : k.Store → ℕ → o.Number
  pub point_value : k.Store → ℕ → Vector3
  pub quaternion_value : k.Store → ℕ → Quaternion
  -- Curves, fitted by BSplineFitter: time stamps, values, number of segments, lambda and order. A
  -- fitted spline has a design variable for each of its coefficients, of which there is one.
  pub TranslationCurve : Type 0
  pub RotationCurve : Type 0
  pub fit_translation : List ℤ → List Vector3 → ℤ → o.Number → ℤ → TranslationCurve
  pub fit_rotation : List ℤ → List Quaternion → ℤ → o.Number → ℤ → RotationCurve
  pub translation_size : TranslationCurve → ℕ
  pub rotation_size : RotationCurve → ℕ
  pub translation_size_pos : (c : TranslationCurve) → 0 < translation_size c
  pub rotation_size_pos : (c : RotationCurve) → 0 < rotation_size c
  -- The coefficients become design variables behind these pointers.
  pub new_translation_variables : TranslationCurve → List ℕ → k.Store → k.Store
  pub new_rotation_variables : RotationCurve → List ℕ → k.Store → k.Store
  pub min_time : TranslationCurve → ℤ
  pub max_time : TranslationCurve → ℤ
  -- Expressions of a time, with its value in nanoseconds, and the bounds that go with a time.
  pub Time : Type 0
  pub time_variables : Time → List ℕ
  pub constant_time : ℤ → Time
  pub time_variable : ℕ → Time
  pub plus_time : Time → Time → Time
  pub time_value : k.Store → Time → ℤ
  -- Expressions of scalars, vectors, rotations and transformations.
  pub Scalar : Type 0
  pub scalar_variables : Scalar → List ℕ
  pub scalar_variable : ℕ → Scalar
  pub Euclidean : Type 0
  pub euclidean_variables : Euclidean → List ℕ
  pub constant_vector : Vector3 → Euclidean
  pub point_variable : ℕ → Euclidean
  pub plus_euclidean : Euclidean → Euclidean → Euclidean
  pub negate_euclidean : Euclidean → Euclidean
  pub cross : Euclidean → Euclidean → Euclidean
  pub scale : Euclidean → Scalar → Euclidean
  pub euclidean_value : k.Store → Euclidean → Vector3
  pub Rotation : Type 0
  pub rotation_variables : Rotation → List ℕ
  pub rotation_variable : ℕ → Rotation
  pub inverse : Rotation → Rotation
  pub compose : Rotation → Rotation → Rotation
  pub rotate : Rotation → Euclidean → Euclidean
  pub rotation_value : k.Store → Rotation → Rotation3
  -- Expressions of a spline at a time, with its design variables: position or rotation, velocity,
  -- angular velocity.
  pub position_at : TranslationCurve → List ℕ → Time → ℤ → ℤ → Euclidean
  pub velocity_at : TranslationCurve → List ℕ → Time → ℤ → ℤ → Euclidean
  pub orientation_at : RotationCurve → List ℕ → Time → ℤ → ℤ → Rotation
  pub angular_velocity_at : RotationCurve → List ℕ → Time → ℤ → ℤ → Euclidean
  -- Error terms: ErrorTermPose, from a rotation, a position, the measured position and rotation and a
  -- covariance, and ErrorTermWheel, from a velocity, a coefficient, the measured speed and a
  -- covariance.
  pub ErrorTerm : Type 0
  pub error_variables : ErrorTerm → List ℕ
  pub error_term_pose : Rotation → Euclidean → Vector3 → Vector3 → o.Matrix → ErrorTerm
  pub error_term_wheel : Euclidean → Scalar → o.Number → o.Matrix → ErrorTerm
  pub evaluate_error : k.Store → ErrorTerm → o.Number
  pub error_vector : k.Store → ErrorTerm → o.Vector
  -- An expression has no other design variables than its parts.
  pub over-constant_time : (w : ℕ → Bool) (t : ℤ) → Over w (time_variables (constant_time t))
  pub over-time_variable :
      (w : ℕ → Bool) (dv : ℕ) → w dv ≡ true → Over w (time_variables (time_variable dv))
  pub over-plus_time :
      (w : ℕ → Bool) (s t : Time)
      → Over w (time_variables s)
      → Over w (time_variables t)
      → Over w (time_variables (plus_time s t))
  pub over-scalar_variable :
      (w : ℕ → Bool) (dv : ℕ) → w dv ≡ true → Over w (scalar_variables (scalar_variable dv))
  pub over-constant_vector :
      (w : ℕ → Bool) (v : Vector3) → Over w (euclidean_variables (constant_vector v))
  pub over-point_variable :
      (w : ℕ → Bool) (dv : ℕ) → w dv ≡ true → Over w (euclidean_variables (point_variable dv))
  pub over-plus_euclidean :
      (w : ℕ → Bool) (a b : Euclidean)
      → Over w (euclidean_variables a)
      → Over w (euclidean_variables b)
      → Over w (euclidean_variables (plus_euclidean a b))
  pub over-negate_euclidean :
      (w : ℕ → Bool) (a : Euclidean)
      → Over w (euclidean_variables a)
      → Over w (euclidean_variables (negate_euclidean a))
  pub over-cross :
      (w : ℕ → Bool) (a b : Euclidean)
      → Over w (euclidean_variables a)
      → Over w (euclidean_variables b)
      → Over w (euclidean_variables (cross a b))
  pub over-scale :
      (w : ℕ → Bool) (a : Euclidean) (c : Scalar)
      → Over w (euclidean_variables a)
      → Over w (scalar_variables c)
      → Over w (euclidean_variables (scale a c))
  pub over-rotation_variable :
      (w : ℕ → Bool) (dv : ℕ) → w dv ≡ true → Over w (rotation_variables (rotation_variable dv))
  pub over-inverse :
      (w : ℕ → Bool) (r : Rotation)
      → Over w (rotation_variables r)
      → Over w (rotation_variables (inverse r))
  pub over-compose :
      (w : ℕ → Bool) (r s : Rotation)
      → Over w (rotation_variables r)
      → Over w (rotation_variables s)
      → Over w (rotation_variables (compose r s))
  pub over-rotate :
      (w : ℕ → Bool) (r : Rotation) (a : Euclidean)
      → Over w (rotation_variables r)
      → Over w (euclidean_variables a)
      → Over w (euclidean_variables (rotate r a))
  pub over-position_at :
      (w : ℕ → Bool) (c : TranslationCurve) (dvs : List ℕ) (t : Time) (lower upper : ℤ)
      → Over w dvs
      → Over w (time_variables t)
      → Over w (euclidean_variables (position_at c dvs t lower upper))
  pub over-velocity_at :
      (w : ℕ → Bool) (c : TranslationCurve) (dvs : List ℕ) (t : Time) (lower upper : ℤ)
      → Over w dvs
      → Over w (time_variables t)
      → Over w (euclidean_variables (velocity_at c dvs t lower upper))
  pub over-orientation_at :
      (w : ℕ → Bool) (c : RotationCurve) (dvs : List ℕ) (t : Time) (lower upper : ℤ)
      → Over w dvs
      → Over w (time_variables t)
      → Over w (rotation_variables (orientation_at c dvs t lower upper))
  pub over-angular_velocity_at :
      (w : ℕ → Bool) (c : RotationCurve) (dvs : List ℕ) (t : Time) (lower upper : ℤ)
      → Over w dvs
      → Over w (time_variables t)
      → Over w (euclidean_variables (angular_velocity_at c dvs t lower upper))
  pub over-error_term_pose :
      (w : ℕ → Bool) (r : Rotation) (a : Euclidean) (p q : Vector3) (cov : o.Matrix)
      → Over w (rotation_variables r)
      → Over w (euclidean_variables a)
      → Over w (error_variables (error_term_pose r a p q cov))
  pub over-error_term_wheel :
      (w : ℕ → Bool) (a : Euclidean) (c : Scalar) (value : o.Number) (cov : o.Matrix)
      → Over w (euclidean_variables a)
      → Over w (scalar_variables c)
      → Over w (error_variables (error_term_wheel a c value cov))
