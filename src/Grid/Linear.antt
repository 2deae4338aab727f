-- ===== src/Grid/Linear.antt =====
-- `computeLinearIndex` of data-structures/Grid.tpp numbers the cells: an index without negative
-- entries that passes `isValidIndex` has a number below the number of cells, and no other has it.
use native.Mathlib.Nat.{mod-eq_of_lt, mul-le-mul_left}
use aslam_incremental_calibr.Common.{
  ℕ, ◌+◌, ◌*◌, ◌≡◌, ◌<◌, refl, ◌∙◌, ap, true, List, [], ◌∷◌, pos, map, ltb, arith, inl, inr, ok,
  Bool-cases,
}
use aslam_incremental_calibr.Incremental.{size_t_mod}
use aslam_incremental_calibr.Grid.{int_limit, product, later_products, linear_from, all_below}

-- The index has an entry in each dimension, below its number of cells.
abbrev pub Below : List ℕ → List ℕ → Type 0
Below [] [] = Unit {0}
Below (i ∷ idx) [] = ⊥
Below [] (n ∷ num_cells) = ⊥
Below (i ∷ idx) (n ∷ num_cells) = (i < n) × Below idx num_cells

-- The number of a cell: the first dimension counts most.
abbrev pub rank : List ℕ → List ℕ → ℕ
rank [] num_cells = 0
rank (i ∷ idx) [] = 0
rank (i ∷ idx) (n ∷ num_cells) = product num_cells * i + rank idx num_cells

pub rank-lt :
    (idx num_cells : List ℕ) → Below idx num_cells → rank idx num_cells < product num_cells
unfolding product
rank-lt [] [] b = omega arith
rank-lt (i ∷ idx) [] b = elim b [ ]
rank-lt [] (n ∷ num_cells) b = elim b [ ]
rank-lt (i ∷ idx) (n ∷ num_cells) (low, b) =
    omega (arith, mul-le-mul_left (product num_cells) low, rank-lt idx num_cells b)

pub rank-injective :
    (idx jdx num_cells : List ℕ)
    → Below idx num_cells
    → Below jdx num_cells
    → rank idx num_cells ≡ rank jdx num_cells
    → idx ≡ jdx
unfolding product
rank-injective [] [] num_cells b c e = refl
rank-injective [] (j ∷ jdx) [] b c e = elim c [ ]
rank-injective [] (j ∷ jdx) (n ∷ num_cells) b c e = elim b [ ]
rank-injective (i ∷ idx) jdx [] b c e = elim b [ ]
rank-injective (i ∷ idx) [] (n ∷ num_cells) b c e = elim c [ ]
rank-injective (i ∷ idx) (j ∷ jdx) (n ∷ num_cells) (low, b) (low', c) e =
    elim (Bool-cases (ltb i j)) [
      | inl less ↦
          let under : i < j = ground (arith, less) in
          absurd
            (omega (arith, mul-le-mul_left (product num_cells) under, rank-lt idx num_cells b, e))
      | inr not_less ↦ elim (Bool-cases (ltb j i)) [
        | inl more ↦
            let above : j < i = ground (arith, more) in
            absurd
              (omega (arith, mul-le-mul_left (product num_cells) above, rank-lt jdx num_cells c, e))
        | inr not_more ↦
            let same : i ≡ j = ground (arith, not_less, not_more) in
            let rest =
              rank-injective idx jdx num_cells b c
                (omega (arith, e, ap (λ a. product num_cells * a) same)) in
            ap (λ a. a ∷ idx) same ∙ ap (λ l. j ∷ l) rest
      ]
    ]

-- The loop computes the number, where that is an `int`.
pub linear_from-rank :
    (idx num_cells : List ℕ) (lin_idx : ℕ)
    → Below idx num_cells
    → lin_idx + rank idx num_cells < int_limit
    → linear_from lin_idx (later_products num_cells) (map pos idx)
      ≡ ok (lin_idx + rank idx num_cells)
unfolding linear_from later_products product
linear_from-rank [] [] lin_idx b fits = ap ok (omega arith)
linear_from-rank (i ∷ idx) [] lin_idx b fits = elim b [ ]
linear_from-rank [] (n ∷ num_cells) lin_idx b fits = elim b [ ]
linear_from-rank (i ∷ idx) (n ∷ num_cells) lin_idx (low, b) fits =
    let small : ltb (product num_cells * i) int_limit ≡ true = ground (arith, fits) in
    rw
      (
        small,
        mod-eq_of_lt {n = lin_idx + product num_cells * i} {m = size_t_mod} (omega (arith, fits)),
      )
      (linear_from-rank idx num_cells (lin_idx + product num_cells * i) b (omega (arith, fits))
        ∙ ap ok (omega arith))

pub all_below-pos :
    (idx num_cells : List ℕ) → Below idx num_cells → all_below (map pos idx) num_cells ≡ true
unfolding all_below
all_below-pos [] [] b = refl
all_below-pos (i ∷ idx) [] b = elim b [ ]
all_below-pos [] (n ∷ num_cells) b = elim b [ ]
all_below-pos (i ∷ idx) (n ∷ num_cells) (low, b) =
    ground (arith, low, all_below-pos idx num_cells b)
