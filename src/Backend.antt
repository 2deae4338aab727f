-- ===== src/Backend.antt =====
-- What the program uses of the optimiser's back end (aslam::backend::DesignVariable), which is not
-- part of the repository: the objects behind the design variable pointers, in a store.
use aslam_incremental_calibr.Common.{ℕ, ◌≡◌, Bool, ◌==◌, if◌then◌else◌}

pub record Backend : Type 1 where
  -- The design variable objects.
  pub Store : Type 0
  -- A parameter matrix.
  pub Params : Type 0
  pub is_active : Store → ℕ → Bool
  pub minimal_dimensions : Store → ℕ → ℕ
  pub get_parameters : Store → ℕ → Params
  pub set_parameters : ℕ → Params → Store → Store
  -- `setParameters` writes what `getParameters` then reads, on the object that it is called on.
  pub get-set :
      (dv x : ℕ) (v : Params) (s : Store)
      → get_parameters (set_parameters dv v s) x ≡ (if dv == x then v else get_parameters s x)
