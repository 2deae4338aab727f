-- ===== src/Backup.antt =====
-- Saving and restoring the parameters of design variables: the loops that `saveDesignVariables` and
-- `restoreDesignVariables` of core/OptimizationProblem.cpp and core/IncrementalOptimizationProblem.cpp
-- share. A backup maps pointers to parameters.
use aslam_incremental_calibr.Common.{
  ℕ, ◌≡◌, refl, ◌∙◌, List, [], ◌∷◌, none, some, ◌==◌, if◌then◌else◌, member, Dict, find, put,
  or_else, find-put, arith, Option-cases, inl, inr, Distinct, put-Distinct,
}
use aslam_incremental_calibr.Backend.{Backend}

module _ (b : Backend) where
  open b use {Store, Params, get_parameters, set_parameters, get-set}

  -- `getParameters` of each design variable of a lookup structure goes to the backup.
  unfoldable pub save_from : Store → List ℕ → Dict Params → Dict Params
  save_from s [] backup = backup
  save_from s (dv ∷ dvs) backup = save_from s dvs (put dv (get_parameters s dv) backup)

  -- `setParameters` of each key of the backup, with what the backup has at that key. The loop runs
  -- over the backup itself, so the key is there.
  unfoldable pub restore_from : Dict Params → List ℕ → Store → Store
  restore_from backup [] s = s
  restore_from backup (dv ∷ dvs) s =
      restore_from backup dvs (elim (find dv backup) [ none ↦ s | some v ↦ set_parameters dv v s ])

  pub find-save_from :
      (s : Store) (dvs : List ℕ) (backup : Dict Params) (x : ℕ)
      → find x (save_from s dvs backup)
        ≡ (if member x dvs then some (get_parameters s x) else find x backup)
  unfolding save_from
  find-save_from s [] backup x = refl
  find-save_from s (dv ∷ dvs) backup x =
      find-save_from s dvs (put dv (get_parameters s dv) backup) x ∙ split
    where
      split :
          (if member x dvs
            then some (get_parameters s x)
            else find x (put dv (get_parameters s dv) backup))
          ≡ (if member x (dv ∷ dvs) then some (get_parameters s x) else find x backup)
      split = ground (arith, find-put dv x (get_parameters s dv) backup)

  get-set_entry :
      (backup : Dict Params) (dv x : ℕ) (s : Store)
      → get_parameters (elim (find dv backup) [ none ↦ s | some v ↦ set_parameters dv v s ]) x
        ≡ (if dv == x then or_else (find x backup) (get_parameters s x) else get_parameters s x)
  get-set_entry backup dv x s = elim (Option-cases (find dv backup)) [
    | inl e ↦ rw e (ground (arith, e))
    | inr (v, e) ↦ rw e (ground (arith, e, get-set dv x v s))
  ]

  pub get-restore_from :
      (backup : Dict Params) (dvs : List ℕ) (s : Store) (x : ℕ)
      → get_parameters (restore_from backup dvs s) x ≡ (
          if member x dvs then or_else (find x backup) (get_parameters s x) else get_parameters s x)
  unfolding restore_from
  get-restore_from backup [] s x = refl
  get-restore_from backup (dv ∷ dvs) s x =
      let s' : Store = elim (find dv backup) [ none ↦ s | some v ↦ set_parameters dv v s ] in
      get-restore_from backup dvs s' x ∙ ground (arith, get-set_entry backup dv x s)

  pub save_from-Distinct :
      (s : Store) (dvs : List ℕ) (backup : Dict Params)
      → Distinct backup
      → Distinct (save_from s dvs backup)
  unfolding save_from
  save_from-Distinct s [] backup d = d
  save_from-Distinct s (dv ∷ dvs) backup d =
      save_from-Distinct s dvs (put dv (get_parameters s dv) backup) (put-Distinct dv _ backup d)
