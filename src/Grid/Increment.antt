-- ===== src/Grid/Increment.antt =====
-- `incrementIndex` of data-structures/Grid.tpp goes through all indices.
use native.Mathlib.Nat.{mul-le-mul_left}
use aslam_incremental_calibr.Common.{
  ℕ, zero, suc, ◌+◌, ◌*◌, ◌≡◌, ◌<◌, refl, ap, List, [], ◌∷◌, Option, none, some, ltb, arith, inl,
  inr, ◌⊎◌, Bool-cases,
}
use aslam_incremental_calibr.Grid.{Grid, product, increment, increment_index}
use aslam_incremental_calibr.Grid.Linear.{Below}

-- The number of an index in the order of `incrementIndex`: the first dimension counts least.
abbrev pub number : List ℕ → List ℕ → ℕ
number [] num_cells = 0
number (i ∷ idx) [] = 0
number (i ∷ idx) (n ∷ num_cells) = i + n * number idx num_cells

-- The next index has the next number, and the last index has the last one.
increment_lem :
    (idx num_cells : List ℕ)
    → Below idx num_cells
    → ((jdx : List ℕ) × (increment idx num_cells ≡ some jdx)
        × Below jdx num_cells
        × (number jdx num_cells ≡ number idx num_cells + 1))
      ⊎ ((increment idx num_cells ≡ none) × (number idx num_cells + 1 ≡ product num_cells))
unfolding increment product
increment_lem [] [] b = inr (refl, refl)
increment_lem (i ∷ idx) [] b = elim b [ ]
increment_lem [] (n ∷ num_cells) b = elim b [ ]
increment_lem (i ∷ idx) (n ∷ num_cells) (low, b) = elim (Bool-cases (ltb (i + 1) n)) [
  | inl room ↦ inl ((i + 1) ∷ idx, rw room refl, (ground (arith, room), b), omega arith)
  | inr full ↦
      let last : i + 1 ≡ n = ground (arith, low, full) in
      elim (increment_lem idx num_cells b) [
        | inl (jdx, e, c, next) ↦ inl (
          0 ∷ jdx,
          rw (full, e) refl,
          (omega (arith, low), c),
          omega (arith, last, ap (λ m. n * m) next),
        )
        | inr (e, next) ↦ inr (rw (full, e) refl, omega (arith, last, ap (λ m. n * m) next))
      ]
]

-- Calls of `incrementIndex` while there is a next index.
abbrev pub steps : ℕ → List ℕ → List ℕ → Option (List ℕ)
steps zero num_cells idx = some idx
steps (suc k) num_cells idx = elim (increment idx num_cells) [
  | none ↦ none
  | some jdx ↦ steps k num_cells jdx
]

steps_lem :
    (k : ℕ) (num_cells idx : List ℕ)
    → Below idx num_cells
    → number idx num_cells + k < product num_cells
    → (jdx : List ℕ) × (steps k num_cells idx ≡ some jdx)
      × Below jdx num_cells
      × (number jdx num_cells ≡ number idx num_cells + k)
steps_lem zero num_cells idx b fits = (idx, refl, b, omega arith)
steps_lem (suc k) num_cells idx b fits = elim (increment_lem idx num_cells b) [
  | inr (e, last) ↦ absurd (omega (arith, fits, last))
  | inl (jdx, e, c, next) ↦
      let (kdx, f, d, there) = steps_lem k num_cells jdx c (omega (arith, fits, next)) in
      (kdx, rw (e, steps) f, d, omega (arith, there, next))
]

number-lt :
    (idx num_cells : List ℕ) → Below idx num_cells → number idx num_cells < product num_cells
unfolding product
number-lt [] [] b = omega arith
number-lt (i ∷ idx) [] b = elim b [ ]
number-lt [] (n ∷ num_cells) b = elim b [ ]
number-lt (i ∷ idx) (n ∷ num_cells) (low, b) =
    omega (arith, low, mul-le-mul_left n (number-lt idx num_cells b))

abbrev pub origin : List ℕ → List ℕ
origin [] = []
origin (n ∷ num_cells) = 0 ∷ origin num_cells

origin-Below : (num_cells : List ℕ) → 0 < product num_cells → Below (origin num_cells) num_cells
unfolding product
origin-Below [] pos = tt
origin-Below (zero ∷ num_cells) pos = absurd (omega (arith, pos))
origin-Below (suc n ∷ num_cells) pos =
    (omega arith, origin-Below num_cells (some_cells (product num_cells) pos))
  where
    some_cells : (m : ℕ) → 0 < suc n * m → 0 < m
    some_cells zero h = absurd (omega (arith, h))
    some_cells (suc m) h = omega arith

number-origin : (num_cells : List ℕ) → number (origin num_cells) num_cells ≡ 0
number-origin [] = refl
number-origin (n ∷ num_cells) = omega (arith, ap (λ m. n * m) (number-origin num_cells))

-- From the index of zeros, calls of `incrementIndex` go through the indices in the order of their
-- numbers, the first dimension fastest: after any number of calls below the number of cells the index
-- is the valid one with that number, and one more call after the last of them gives `mNumCells`.
pub increment_index-visits :
    {C : Type 0} (g : Grid C) (k : ℕ)
    → k < product g.num_cells
    → (jdx : List ℕ) × (steps k g.num_cells (origin g.num_cells) ≡ some jdx)
      × Below jdx g.num_cells
      × (number jdx g.num_cells ≡ k)
      × ((k + 1 < product g.num_cells)
          ⊎ ((k + 1 ≡ product g.num_cells) × (increment_index g jdx ≡ g.num_cells)))
unfolding increment_index
increment_index-visits g k lt =
    let start = origin-Below g.num_cells (omega (arith, lt)) in
    let zero_first = number-origin g.num_cells in
    let (jdx, e, b, there) =
      steps_lem k g.num_cells (origin g.num_cells) start (omega (arith, lt, zero_first)) in
    (
      jdx,
      e,
      b,
      omega (arith, there, zero_first),
      elim (increment_lem jdx g.num_cells b) [
        | inl (kdx, f, c, next) ↦
            inl (omega (arith, next, there, zero_first, number-lt kdx g.num_cells c))
        | inr (f, last) ↦ inr (omega (arith, last, there, zero_first), rw f refl)
      ],
    )
