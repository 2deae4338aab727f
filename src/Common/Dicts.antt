-- ===== src/Common/Dicts.antt =====
-- Dictionaries with number keys (pointers, group ids) as association lists: what the program uses
-- of std::unordered_map and std::unordered_set.
use Prim.Native.Nat.{ℕ, suc, ◌+◌}
use mathlib.Core.Path.{◌≡◌, refl, ap}
use mathlib.Core.Bool.{Bool, false}
use mathlib.Core.List.{List, [], ◌∷◌}
use mathlib.Core.Option.{Option, none, some}
use native.Mathlib.Omega.{arith}
use aslam_incremental_calibr.Common.Tests.{◌==◌, if◌then◌else◌, is_some}
use aslam_incremental_calibr.Common.Lists.{length}
use aslam_incremental_calibr.Common.Counts.{count, bit, member}

abbrev pub Dict {ℓ} : Type ℓ → Type ℓ
Dict V = List (ℕ × V)

module _ {ℓ} {V : Type ℓ} where
  -- `at`, with what it does on a missing key left to the caller.
  unfoldable pub find : ℕ → Dict V → Option V
  find k [] = none
  find k ((j, v) ∷ m) = if j == k then some v else find k m

  -- `count`, as a test.
  abbrev pub contains : ℕ → Dict V → Bool
  contains k m = is_some (find k m)

  -- Assignment through `operator[]`.
  unfoldable pub put : ℕ → V → Dict V → Dict V
  put k v [] = (k, v) ∷ []
  put k v ((j, w) ∷ m) = if j == k then (k, v) ∷ m else (j, w) ∷ put k v m

  unfoldable pub erase : ℕ → Dict V → Dict V
  erase k [] = []
  erase k ((j, w) ∷ m) = if j == k then erase k m else (j, w) ∷ erase k m

  abbrev pub keys : Dict V → List ℕ
  keys [] = []
  keys ((j, v) ∷ m) = j ∷ keys m

  -- `insert` keeps the entry of a key that is there already.
  unfoldable pub insert : ℕ → V → Dict V → Dict V
  insert k v m = if contains k m then m else put k v m

  -- Each key once.
  abbrev pub Distinct : Dict V → Type 0
  Distinct m = (k : ℕ) → count k (keys m) ≡ bit (contains k m)

  pub length-keys : (m : Dict V) → length (keys m) ≡ length m
  length-keys [] = refl
  length-keys ((j, v) ∷ m) = ap suc (length-keys m)

  pub find-put :
      (k j : ℕ) (v : V) (m : Dict V) → find j (put k v m) ≡ (if k == j then some v else find j m)
  unfolding find put
  find-put k j v [] = refl
  find-put k j v ((i, w) ∷ m) = ground (arith, find-put k j v m)

  pub find-erase : (k j : ℕ) (m : Dict V) → find j (erase k m) ≡ (if k == j then none else find j m)
  unfolding find erase
  find-erase k j [] = ground arith
  find-erase k j ((i, w) ∷ m) = ground (arith, find-erase k j m)

  pub count-keys-put :
      (k j : ℕ) (v : V) (m : Dict V)
      → count j (keys (put k v m))
        ≡ (if contains k m then 0 else if k == j then 1 else 0) + count j (keys m)
  unfolding find put
  count-keys-put k j v [] = ground arith
  count-keys-put k j v ((i, w) ∷ m) = ground (arith, count-keys-put k j v m)

  pub count-keys-erase :
      (k j : ℕ) (m : Dict V) → count j (keys (erase k m)) ≡ (if k == j then 0 else count j (keys m))
  unfolding erase
  count-keys-erase k j [] = ground arith
  count-keys-erase k j ((i, w) ∷ m) = ground (arith, count-keys-erase k j m)

  pub put-Distinct : (k : ℕ) (v : V) (m : Dict V) → Distinct m → Distinct (put k v m)
  put-Distinct k v m d j = ground (arith, count-keys-put k j v m, find-put k j v m, d j, d k)

  pub erase-Distinct : (k : ℕ) (m : Dict V) → Distinct m → Distinct (erase k m)
  erase-Distinct k m d j = ground (arith, count-keys-erase k j m, find-erase k j m, d j)

  pub insert_new : (k : ℕ) (v : V) (m : Dict V) → contains k m ≡ false → insert k v m ≡ put k v m
  unfolding insert
  insert_new k v m e = rw e

  pub length-put :
      (k : ℕ) (v : V) (m : Dict V) → length (put k v m) ≡ (if contains k m then 0 else 1) + length m
  unfolding find put
  length-put k v [] = refl
  length-put k v ((i, w) ∷ m) = ground (arith, length-put k v m)

  pub member-keys : (k : ℕ) (m : Dict V) → member k (keys m) ≡ contains k m
  unfolding find
  member-keys k [] = refl
  member-keys k ((j, v) ∷ m) = ground (arith, member-keys k m)
