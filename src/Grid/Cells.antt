-- ===== src/Grid/Cells.antt =====
-- The cells of data-structures/Grid.tpp: those that `getCell` writes are read back, and every point in
-- range has one.
use native.Mathlib.Nat.{div-zero, le-div_iff_mul-le, div-mul-le_self, le_trans}
use aslam_incremental_calibr.Common.{
  ℕ, set, zero, suc, ◌+◌, ◌/◌, ◌≡◌, ◌≢◌, ◌≤◌, ◌<◌, refl, sym, ◌∙◌, ap, subst, Bool, true, false,
  List, [], ◌∷◌, ℤ, pos, pos_part, ◌-ℤ◌, ltz, eqz, not, ◌&&◌, length, map, get_elem?-lt,
  get_elem?-set_self, get_elem?-set_ne, ◌==◌, if◌then◌else◌, ok, err, vector_out_of_bound, arith,
  inl, inr, ◌⊎◌, Bool-cases,
}
use aslam_incremental_calibr.Grid.{
  Grid, int_limit, product, later_products, linear_from, all_at_most, count_cells, index_from,
  quotient, get_cell, set_cell, get_index, cell_at, is_in_range, compute_linear_index,
}
use aslam_incremental_calibr.Grid.Linear.{
  Below, rank, rank-lt, rank-injective, linear_from-rank, all_below-pos,
}

abbrev pub equal : List ℕ → List ℕ → Bool
equal [] [] = true
equal [] (b ∷ ys) = false
equal (a ∷ xs) [] = false
equal (a ∷ xs) (b ∷ ys) = a == b && equal xs ys

pub eq_of_equal : (xs ys : List ℕ) → equal xs ys ≡ true → xs ≡ ys
eq_of_equal [] [] e = refl
eq_of_equal [] (b ∷ ys) e = cc
eq_of_equal (a ∷ xs) [] e = cc
eq_of_equal (a ∷ xs) (b ∷ ys) e =
    let same : a ≡ b = ground (arith, e) in
    let rest : equal xs ys ≡ true = ground (arith, e) in
    ap (λ c. c ∷ xs) same ∙ ap (λ l. b ∷ l) (eq_of_equal xs ys rest)

equal_self : (xs : List ℕ) → equal xs xs ≡ true
equal_self [] = refl
equal_self (a ∷ xs) = ground (arith, equal_self xs)

-- Each dimension has its entry in each of these vectors.
abbrev pub SameSize : List ℤ → List ℤ → List ℤ → Type 0
SameSize a b c = (length a ≡ length b) × (length a ≡ length c)

div_mono : {a b : ℕ} (r : ℕ) → a ≤ b → a / r ≤ b / r
div_mono {a} {b} zero le = omega (arith, div-zero a, div-zero b)
div_mono {a} {b} (suc r) le =
    (le-div_iff_mul-le (omega arith)).1 (le_trans (div-mul-le_self a (suc r)) le)

last_index : (q : ℕ) → pos (q + 1) -ℤ pos 1 ≡ pos q
unfolding ◌-ℤ◌
last_index q = ground arith

nearer : (a p b : ℤ) → not (ltz b p) ≡ true → pos_part (p -ℤ a) ≤ pos_part (b -ℤ a)
unfolding ◌-ℤ◌
nearer a p b le = ground (arith, le)

-- A point in range gets an index without negative entries that passes `isValidIndex`.
pub index_from-Below :
    (point minimum maximum resolution : List ℤ)
    → length point ≡ length minimum
    → SameSize minimum maximum resolution
    → all_at_most point maximum ≡ true
    → all_at_most minimum point ≡ true
    → (idx : List ℕ) × (index_from point minimum maximum resolution
          (count_cells minimum maximum resolution)
        ≡ map pos idx)
      × Below idx (count_cells minimum maximum resolution)
unfolding index_from count_cells all_at_most
index_from-Below [] [] [] [] l s high low = ([], refl, tt)
index_from-Below (p ∷ point) (a ∷ minimum) (b ∷ maximum) (r ∷ resolution) l (s, t) high low =
    let (idx, e, below) =
      index_from-Below point minimum maximum resolution (omega (arith, l))
        (omega (arith, s), omega (arith, t)) (ground (arith, high)) (ground (arith, low)) in
    elim (Bool-cases (eqz p b)) [
      | inl top ↦ (
        quotient (b -ℤ a) r ∷ idx,
        rw (top, e, last_index (quotient (b -ℤ a) r)) refl,
        (omega arith, below),
      )
      | inr under ↦ (
        quotient (p -ℤ a) r ∷ idx,
        rw (under, e) refl,
        (omega (arith, div_mono (pos_part r) (nearer a p b (ground (arith, high)))), below),
      )
    ]
index_from-Below [] [] [] (r ∷ resolution) l (s, t) high low = absurd (omega (arith, t))
index_from-Below [] [] (b ∷ maximum) resolution l (s, t) high low = absurd (omega (arith, s))
index_from-Below [] (a ∷ minimum) maximum resolution l s high low = absurd (omega (arith, l))
index_from-Below (p ∷ point) [] maximum resolution l s high low = absurd (omega (arith, l))
index_from-Below (p ∷ point) (a ∷ minimum) [] resolution l (s, t) high low =
    absurd (omega (arith, s))
index_from-Below (p ∷ point) (a ∷ minimum) (b ∷ maximum) [] l (s, t) high low =
    absurd (omega (arith, t))

module _ {C : Type 0} where
  -- The members of a grid fit each other, and the number of its cells is an `int`.
  pub record IsGrid (g : Grid C) : Type 0 where
    pub cells : length g.cells ≡ product g.num_cells
    pub lin_prod : g.lin_prod ≡ later_products g.num_cells
    pub few : product g.num_cells < int_limit
    pub num_cells : g.num_cells ≡ count_cells g.minimum g.maximum g.resolution
    pub sizes : SameSize g.minimum g.maximum g.resolution

  pub compute_linear_index-rank :
      (g : Grid C) (idx : List ℕ)
      → IsGrid g
      → Below idx g.num_cells
      → compute_linear_index g (map pos idx) ≡ ok (rank idx g.num_cells)
  compute_linear_index-rank g idx v b =
      ap (λ l. linear_from 0 l (map pos idx)) v.lin_prod
      ∙ linear_from-rank idx g.num_cells 0 b (omega (arith, v.few, rank-lt idx g.num_cells b))
      ∙ ap ok (omega arith)

  pub get_cell-ok :
      (g : Grid C) (idx : List ℕ)
      → IsGrid g
      → Below idx g.num_cells
      → (c : C) × (get_cell g (map pos idx) ≡ ok c)
  unfolding get_cell
  get_cell-ok g idx v b =
      let (c, e) =
        get_elem?-lt g.cells (rank idx g.num_cells)
          (omega (arith, v.cells, rank-lt idx g.num_cells b)) in
      (c, rw (all_below-pos idx g.num_cells b, compute_linear_index-rank g idx v b, e) refl)

  pub set_cell-at :
      (g : Grid C) (idx : List ℤ) (c : C) (i : ℕ)
      → compute_linear_index g idx ≡ ok i
      → set_cell idx c g ≡ record g { cells = set g.cells i c }
  unfolding set_cell
  set_cell-at g idx c i e = rw (set_cell, e) refl

  -- On a grid whose members fit each other, what is written through `getCell` at an index without
  -- negative entries is read back at this index, and at every other such index the cell is what it was.
  pub get_cell-set_cell :
      (g : Grid C) (idx jdx : List ℕ) (c : C)
      → IsGrid g
      → Below idx g.num_cells
      → Below jdx g.num_cells
      → get_cell (set_cell (map pos idx) c g) (map pos jdx)
        ≡ (if equal idx jdx then ok c else get_cell g (map pos jdx))
  unfolding get_cell
  get_cell-set_cell g idx jdx c v b b' =
      ap (λ h. get_cell h (map pos jdx))
        (set_cell-at g (map pos idx) c (rank idx g.num_cells) (compute_linear_index-rank g idx v b))
      ∙ rw (all_below-pos jdx g.num_cells b', compute_linear_index-rank g jdx v b')
          (elim (Bool-cases (equal idx jdx)) [
            | inl same ↦
                let at_same : rank idx g.num_cells ≡ rank jdx g.num_cells =
                  ap (λ l. rank l g.num_cells) (eq_of_equal idx jdx same) in
                let inside : rank jdx g.num_cells < length g.cells =
                  omega (arith, v.cells, rank-lt jdx g.num_cells b') in
                rw (same, at_same, get_elem?-set_self g.cells (rank jdx g.num_cells) c inside) refl
            | inr other ↦
                let apart : rank idx g.num_cells ≢ rank jdx g.num_cells = λ e.
                  let eq = rank-injective idx jdx g.num_cells b b' e in
                  absurd (ground (arith, other, ap (equal idx) eq, equal_self idx)) in
                rw (other, get_elem?-set_ne g.cells c apart) refl
          ])

  -- On a grid whose members fit each other, `operator ()` returns a cell for each point between the
  -- minimum and the maximum, both included, and throws OutOfBoundException for all other points: the
  -- access to the cells is never out of their range.
  pub cell_at_lem :
      (g : Grid C) (point : List ℤ)
      → IsGrid g
      → length point ≡ length g.minimum
      → ((is_in_range g point ≡ true) × (c : C) × (cell_at g point ≡ ok c))
        ⊎ ((is_in_range g point ≡ false) × (cell_at g point ≡ err vector_out_of_bound))
  unfolding cell_at get_index
  cell_at_lem g point v l = elim (Bool-cases (is_in_range g point)) [
    | inr out ↦ inr (out, rw out refl)
    | inl inside ↦
        let (idx, e, below) =
          index_from-Below point g.minimum g.maximum g.resolution l v.sizes (ground (arith, inside))
            (ground (arith, inside)) in
        let (c, found) = get_cell-ok g idx v (subst (Below idx) (sym v.num_cells) below) in
        let there : index_from point g.minimum g.maximum g.resolution g.num_cells ≡ map pos idx =
          ap (index_from point g.minimum g.maximum g.resolution) v.num_cells ∙ e in
        inl (inside, c, rw (inside, there) found)
  ]
