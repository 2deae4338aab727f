-- ===== src/Permute/Walk.antt =====
-- The walk of the inner loop of permute.tpp, `k = permutation[k]` while `k < i`, as a relation.
use aslam_incremental_calibr.Common.{
  ℕ, ◌+◌, ◌≤◌, ◌<◌, ◌≡◌, ◌≢◌, refl, sym, ◌∙◌, ap, subst, ◌⊎◌, inl, inr, List, some, get_elem?,
  arith, ltb, Bool-cases,
}
use aslam_incremental_calibr.Permute.{IsPermutation}

pub data Walk (permutation : List ℕ) (i s : ℕ) : ℕ → Type 0 where
  here : Walk permutation i s s
  step :
      {u v : ℕ}
      → Walk permutation i s u
      → u < i
      → get_elem? permutation u ≡ some v
      → Walk permutation i s v

-- No earlier round has placed the element with this index.
abbrev pub Unplaced : List ℕ → ℕ → ℕ → Type 0
Unplaced permutation i m = (u : ℕ) → u < i → get_elem? permutation u ≢ some m

module _ {permutation : List ℕ} where
  -- Two walks of an injective vector that meet have one origin.
  pub Walk-origin :
      {i m m' k : ℕ}
      → IsPermutation permutation
      → Unplaced permutation i m
      → Unplaced permutation i m'
      → Walk permutation i m k
      → Walk permutation i m' k
      → m ≡ m'
  Walk-origin p a b here here = refl
  Walk-origin p a b here (step w lt e) = absurd (a _ lt e)
  Walk-origin p a b (step w lt e) here = absurd (b _ lt e)
  Walk-origin {i} p a b (step {u = u} w lt e) (step {u = u'} w' lt' e') =
      Walk-origin p a b w (subst (Walk permutation i _) (p.injective u' u _ e' e) w')

  -- Either the walk has ended, or its first step is known.
  pub Walk-first :
      {i s r : ℕ}
      → Walk permutation i s r
      → (s ≡ r) ⊎ ((s < i) × (v : ℕ) × (get_elem? permutation s ≡ some v) × Walk permutation i v r)
  Walk-first here = inl refl
  Walk-first {i} {s} {r} (step {u = u} w lt e) = elim (Walk-first w) [
    | inl same ↦
        inr (subst (λ x. x < i) (sym same) lt, r, ap (get_elem? permutation) same ∙ e, here)
    | inr (below, v, f, rest) ↦ inr (below, v, f, step rest lt e)
  ]

  -- Of two walks from one place, one goes on from the end of the other.
  Walk-compare :
      {i s a b : ℕ}
      → Walk permutation i s a
      → Walk permutation i s b
      → Walk permutation i a b ⊎ Walk permutation i b a
  Walk-compare w here = inr w
  Walk-compare {i} {a = a} {b = b} w (step {u = u} w' lt e) = elim (Walk-compare w w') [
    | inl onward ↦ inl (step onward lt e)
    | inr back ↦ elim (Walk-first back) [
      | inl same ↦ inl (step (subst (λ x. Walk permutation i x u) same here) lt e)
      | inr (_, v, f, rest) ↦ inr (subst (λ x. Walk permutation i x a) (unique f e) rest)
    ]
  ]
    where
      unique :
          {v : ℕ} {o : ℕ}
          → get_elem? permutation u ≡ some v
          → get_elem? permutation u ≡ some o
          → v ≡ o
      unique f g = cc

  -- Where a walk leaves the range below `i` is determined.
  pub Walk-end :
      {i s a b : ℕ} → Walk permutation i s a → i ≤ a → Walk permutation i s b → i ≤ b → a ≡ b
  Walk-end {i} {s} {a} {b} w above w' above' = elim (Walk-compare w w') [
    | inl onward ↦ elim (Walk-first onward) [
      | inl same ↦ same
      | inr (below, _, _, _) ↦ absurd (omega arith)
    ]
    | inr back ↦ elim (Walk-first back) [
      | inl same ↦ sym same
      | inr (below, _, _, _) ↦ absurd (omega arith)
    ]
  ]

  -- A walk below `i + 1` is one below `i`, or passes `i` and goes on from its index.
  pub Walk-pass :
      {i m r p : ℕ}
      → get_elem? permutation i ≡ some p
      → Walk permutation (i + 1) m r
      → Walk permutation i m r ⊎ (Walk permutation i m i × Walk permutation (i + 1) p r)
  Walk-pass f here = inl here
  Walk-pass {i} {m} {r} {p} f (step {u = u} w lt e) = elim (Walk-pass f w) [
    | inr (to_i, on) ↦ inr (to_i, step on lt e)
    | inl w' ↦ elim (Bool-cases (ltb u i)) [
      | inl below ↦ inl (step w' (ground arith) e)
      | inr at_i ↦
          let same : u ≡ i = ground arith in
          inr (
            subst (Walk permutation i m) same w',
            subst (Walk permutation (i + 1) p) (arrive same) here,
          )
    ]
  ]
    where
      arrive : u ≡ i → p ≡ r
      arrive same = cc
