-- ===== src/Permute.antt =====
-- incremental_calibration/include/aslam/calibration/algorithms/permute.tpp: an in-place permutation
-- of a container by a vector of indices.
pub mod Walk
pub mod Total
pub mod Swap
pub mod Rounds
pub mod Correct
pub mod Contents
mod Tests
use aslam_incremental_calibr.Common.{
  ℕ, zero, suc, ◌+◌, ◌≤◌, ◌<◌, ◌≡◌, Bool, true, false, List, Option, none, some, length, get_elem?,
  set, ltb, leb, not, ◌==◌, if◌then◌else◌, Result, ok, err, Exception, out_of_bound,
  undefined_behaviour, diverges, Method,
}

-- `while (k < i) k = permutation[k];`. A walk that is still below `i` when the fuel runs out counts
-- as a loop that does not end.
unfoldable pub chase : ℕ → List ℕ → ℕ → ℕ → Result ℕ
chase zero permutation i k = err diverges
chase (suc fuel) permutation i k = elim (ltb k i) [
  | true ↦ elim (get_elem? permutation k) [
    | none ↦ err undefined_behaviour
    | some next ↦ chase fuel permutation i next
  ]
  | false ↦ ok k
]

module _ {A : Type 0} where
  -- `std::swap` of two elements.
  unfoldable pub swap : List A → ℕ → ℕ → List A
  swap container i k = elim (get_elem? container i) [
    | none ↦ container
    | some a ↦ elim (get_elem? container k) [
      | none ↦ container
      | some b ↦ set (set container i b) k a
    ]
  ]

  -- The round of the loop that has found its `k`.
  unfoldable pub settle : ℕ → Result ℕ → Method (List A) (Unit {0})
  unfolding swap
  settle i (err e) container = (err e, container)
  settle i (ok k) container = (ok tt, if ltb i k then swap container i k else container)

  -- One round of the loop.
  unfoldable pub permute_round : List ℕ → ℕ → Method (List A) (Unit {0})
  permute_round permutation i container = elim (get_elem? permutation i) [
    | none ↦ (err undefined_behaviour, container)
    | some first ↦
        if leb (length container) first
        then (err (out_of_bound first), container)
        else settle i (chase (suc (length permutation)) permutation i first) container
  ]

  -- The rest of the loop, `rounds` many from `i` on.
  unfoldable pub permute_from : ℕ → List ℕ → ℕ → Method (List A) (Unit {0})
  permute_from zero permutation i container = (ok tt, container)
  permute_from (suc rounds) permutation i container =
      let (r, container') = permute_round permutation i container in
      elim r [
        | ok _ ↦ permute_from rounds permutation (i + 1) container'
        | err e ↦ (err e, container')
      ]

  unfoldable pub permute : List ℕ → Method (List A) (Unit {0})
  unfolding permute_from permute_round settle swap chase
  permute permutation container =
      if length container == length permutation
      then permute_from (length container) permutation 0 container
      else (err (out_of_bound (length permutation)), container)

-- What the loop needs of its vector: indices in range, none of them twice.
pub record IsPermutation (permutation : List ℕ) : Type 0 where
  pub in_range : (i k : ℕ) → get_elem? permutation i ≡ some k → k < length permutation
  pub injective :
      (i j k : ℕ) → get_elem? permutation i ≡ some k → get_elem? permutation j ≡ some k → i ≡ j
