-- ===== src/Histogram/Counts.antt =====
-- The cells of statistics/HistogramMv.tpp count the samples.
use aslam_incremental_calibr.Common.{
  ℕ, set, zero, suc, ◌≡◌, refl, sym, ◌∙◌, ap, subst, Bool, true, false, List, [], ◌∷◌, ℤ, pos, eqz,
  ◌&&◌, length, map, Result, ok, err, if◌then◌else◌, arith, inl, inr, Bool-cases, length-set,
}
use aslam_incremental_calibr.Grid.{Grid, get_cell, set_cell, get_index, is_in_range, index_from}
use aslam_incremental_calibr.Grid.Linear.{Below, rank}
use aslam_incremental_calibr.Grid.Cells.{
  equal, IsGrid, get_cell-set_cell, set_cell-at, compute_linear_index-rank, get_cell-ok,
  index_from-Below, eq_of_equal,
}
use aslam_incremental_calibr.Histogram.{add_sample, add_samples}

-- The entries of an index are these.
abbrev pub are_entries : List ℤ → List ℕ → Bool
are_entries [] [] = true
are_entries [] (i ∷ idx) = false
are_entries (z ∷ zs) [] = false
are_entries (z ∷ zs) (i ∷ idx) = eqz z (pos i) && are_entries zs idx

are_entries-pos : (jdx idx : List ℕ) → are_entries (map pos jdx) idx ≡ equal jdx idx
are_entries-pos [] [] = refl
are_entries-pos [] (i ∷ idx) = refl
are_entries-pos (j ∷ jdx) [] = refl
are_entries-pos (j ∷ jdx) (i ∷ idx) = ground (arith, are_entries-pos jdx idx)

-- Repeated application.
abbrev pub repeat : {A : Type 0} → ℕ → (A → A) → A → A
repeat zero f a = a
repeat (suc n) f a = repeat n f (f a)

-- The samples have as many entries as there are dimensions.
abbrev pub AreOfSize : ℕ → List (List ℤ) → Type 0
AreOfSize m [] = Unit {0}
AreOfSize m (sample ∷ samples) = (length sample ≡ m) × AreOfSize m samples

repeat-if :
    {A : Type 0} (b : Bool) (n : ℕ) (f : A → A) (a : A)
    → repeat n f (repeat (if b then 1 else 0) f a) ≡ repeat (if b then suc n else n) f a
repeat-if true n f a = refl
repeat-if false n f a = refl

abbrev pub count : (List ℤ → Bool) → List (List ℤ) → ℕ
count p [] = 0
count p (sample ∷ samples) = let rest = count p samples in if p sample then suc rest else rest

-- Whether `getIndex` of the grid gives this index for the sample.
abbrev pub falls_in : {Number : Type 0} → Grid Number → List ℕ → List ℤ → Bool
falls_in h idx sample = elim (get_index h sample) [ ok jdx ↦ are_entries jdx idx | err e ↦ false ]

module _ {Number : Type 0} (increase : Number → Number) where
  -- Each cell holds its number of before, increased as often as a sample falls in it.
  pub record IsCounted (h h' : Grid Number) (samples : List (List ℤ)) : Type 0 where
    pub is_grid : IsGrid h'
    pub frame : h' ≡ record h { cells = h'.cells }
    pub numbers :
        (idx : List ℕ) (number : Number)
        → Below idx h.num_cells
        → get_cell h (map pos idx) ≡ ok number
        → get_cell h' (map pos idx) ≡ ok (repeat (count (falls_in h idx) samples) increase number)

  -- Where the cell of an index is written.
  set_cell-rank :
      (h : Grid Number) (idx : List ℕ) (n : Number)
      → IsGrid h
      → Below idx h.num_cells
      → set_cell (map pos idx) n h ≡ record h { cells = set h.cells (rank idx h.num_cells) n }
  set_cell-rank h idx n v b =
      set_cell-at h (map pos idx) n (rank idx h.num_cells) (compute_linear_index-rank h idx v b)

  set_cell-IsGrid :
      (h : Grid Number) (idx : List ℕ) (n : Number)
      → IsGrid h
      → Below idx h.num_cells
      → IsGrid (set_cell (map pos idx) n h)
  set_cell-IsGrid h idx n v b = subst IsGrid (sym (set_cell-rank h idx n v b)) (record {
    cells = length-set h.cells (rank idx h.num_cells) n ∙ v.cells;
    lin_prod = v.lin_prod;
    few = v.few;
    num_cells = v.num_cells;
    sizes = v.sizes;
  })

  set_cell-frame :
      (h : Grid Number) (idx : List ℕ) (n : Number)
      → IsGrid h
      → Below idx h.num_cells
      → set_cell (map pos idx) n h ≡ record h { cells = (set_cell (map pos idx) n h).cells }
  set_cell-frame h idx n v b =
      let at = set_cell-rank h idx n v b in
      at ∙ ap {B = Grid Number} (λ (g : Grid Number). record h { cells = g.cells }) (sym at)

  get_index-ok :
      (h : Grid Number) (sample : List ℤ)
      → IsGrid h
      → length sample ≡ length h.minimum
      → is_in_range h sample ≡ true
      → (idx : List ℕ) × (get_index h sample ≡ ok (map pos idx)) × Below idx h.num_cells
  unfolding get_index
  get_index-ok h sample v l inside =
      let (idx, e, below) =
        index_from-Below sample h.minimum h.maximum h.resolution l v.sizes (ground (arith, inside))
          (ground (arith, inside)) in
      let there : index_from sample h.minimum h.maximum h.resolution h.num_cells ≡ map pos idx =
        ap (index_from sample h.minimum h.maximum h.resolution) v.num_cells ∙ e in
      (idx, rw (inside, there) refl, subst (Below idx) (sym v.num_cells) below)

  add_sample-outside :
      (h : Grid Number) (sample : List ℤ)
      → is_in_range h sample ≡ false
      → add_sample increase sample h ≡ ok h
  unfolding add_sample
  add_sample-outside h sample out = rw out refl

  add_sample-inside :
      (h : Grid Number) (sample : List ℤ) (idx : List ℤ) (number : Number)
      → is_in_range h sample ≡ true
      → get_index h sample ≡ ok idx
      → get_cell h idx ≡ ok number
      → add_sample increase sample h ≡ ok (set_cell idx (increase number) h)
  unfolding add_sample
  add_sample-inside h sample idx number inside e found = rw (inside, e, found) refl

  falls_in-outside :
      (h : Grid Number) (idx : List ℕ) (sample : List ℤ)
      → is_in_range h sample ≡ false
      → falls_in h idx sample ≡ false
  unfolding get_index
  falls_in-outside h idx sample out = rw (falls_in, out) refl

  falls_in-inside :
      (h : Grid Number) (idx jdx : List ℕ) (sample : List ℤ)
      → get_index h sample ≡ ok (map pos jdx)
      → falls_in h idx sample ≡ equal jdx idx
  falls_in-inside h idx jdx sample e = rw (falls_in, e) (are_entries-pos jdx idx)

  -- The number of a cell after one sample, by whether the sample falls in it.
  abbrev increased_if : Number → Bool → Result Number
  increased_if number b = ok (repeat (if b then 1 else 0) increase number)

  write-increased_if :
      (h : Grid Number) (idx jdx : List ℕ) (number before : Number)
      → IsGrid h
      → Below idx h.num_cells
      → Below jdx h.num_cells
      → get_cell h (map pos jdx) ≡ ok number
      → get_cell h (map pos idx) ≡ ok before
      → get_cell (set_cell (map pos jdx) (increase number) h) (map pos idx)
        ≡ increased_if before (equal jdx idx)
  write-increased_if h idx jdx number before v b b' found found' =
      get_cell-set_cell h jdx idx (increase number) v b' b ∙ elim (Bool-cases (equal jdx idx)) [
        | inl same ↦
            let at_same : ok number ≡ ok before =
              sym found ∙ ap (λ l. get_cell h (map pos l)) (eq_of_equal jdx idx same) ∙ found' in
            rw same (ap (λ r. elim r [ ok n ↦ ok (increase n) | err e ↦ err e ]) at_same)
        | inr other ↦ rw other found'
      ]

  -- One sample.
  add_sample-IsCounted :
      (h : Grid Number) (sample : List ℤ)
      → IsGrid h
      → length sample ≡ length h.minimum
      → (h' : Grid Number) × (add_sample increase sample h ≡ ok h') × IsCounted h h' (sample ∷ [])
  add_sample-IsCounted h sample v l = elim (Bool-cases (is_in_range h sample)) [
    | inr out ↦ (
      h,
      add_sample-outside h sample out,
      record {
        is_grid = v;
        frame = refl;
        numbers = λ idx number below found.
            found ∙ ap (increased_if number) (sym (falls_in-outside h idx sample out));
      },
    )
    | inl inside ↦
        let (jdx, e, below) = get_index-ok h sample v l inside in
        let (number, found) = get_cell-ok h jdx v below in
        (
          set_cell (map pos jdx) (increase number) h,
          add_sample-inside h sample (map pos jdx) number inside e found,
          record {
            is_grid = set_cell-IsGrid h jdx (increase number) v below;
            frame = set_cell-frame h jdx (increase number) v below;
            numbers = λ idx before below' found'.
                write-increased_if h idx jdx number before v below' below found found'
                ∙ ap (increased_if before) (sym (falls_in-inside h idx jdx sample e));
          },
        )
  ]

  falls_in-frame :
      (h h1 : Grid Number)
      → h1 ≡ record h { cells = h1.cells }
      → (samples : List (List ℤ)) (idx : List ℕ)
      → count (falls_in h1 idx) samples ≡ count (falls_in h idx) samples
  unfolding get_index
  falls_in-frame h h1 same samples idx = ap (λ g. count (falls_in g idx) samples) same

  -- Adding samples to a histogram whose members fit each other never throws, and in the end each cell
  -- holds its number of before, increased as often as there are samples for which `getIndex` gives its
  -- index. Samples out of range are passed over, and only the cells change.
  pub add_samples_lem :
      (h : Grid Number) (samples : List (List ℤ))
      → IsGrid h
      → AreOfSize (length h.minimum) samples
      → (h' : Grid Number) × (add_samples increase samples h ≡ ok h') × IsCounted h h' samples
  unfolding add_samples
  add_samples_lem h [] v s =
      (h, refl, record { is_grid = v; frame = refl; numbers = λ idx number below found. found })
  add_samples_lem h (sample ∷ samples) v (l, s) =
      let (h1, e1, c1) = add_sample-IsCounted h sample v l in
      let s1 : AreOfSize (length h1.minimum) samples =
        subst (λ g. AreOfSize (length g.minimum) samples) (sym c1.frame) s in
      let (h', e', c') = add_samples_lem h1 samples c1.is_grid s1 in
      (
        h',
        rw e1 e',
        record {
          is_grid = c'.is_grid;
          frame = c'.frame ∙ ap {B = Grid Number} (λ g. record g { cells = h'.cells }) c1.frame;
          numbers = λ idx number below found.
              let below1 = subst (λ g. Below idx g.num_cells) (sym c1.frame) below in
              let once = if falls_in h idx sample then 1 else 0 in
              let first = c1.numbers idx number below found in
              c'.numbers idx (repeat once increase number) below1 first
              ∙ ap (λ n. ok (repeat n increase (repeat once increase number)))
                  (falls_in-frame h h1 c1.frame samples idx)
              ∙ ap ok (
                  repeat-if (falls_in h idx sample) (count (falls_in h idx) samples) increase
                    number);
        },
      )
