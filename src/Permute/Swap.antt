-- ===== src/Permute/Swap.antt =====
-- The swap of two elements in permute.tpp: what it leaves at each index.
use aslam_incremental_calibr.Common.{
  ℕ, ◌≤◌, ◌<◌, ◌≡◌, ◌≢◌, refl, sym, ◌∙◌, ap, inl, inr, List, some, get_elem?, arith, ltb,
  Bool-cases, length, get_elem?-lt, set, length-set, get_elem?-set_self, get_elem?-set_ne,
  if◌then◌else◌, Option-cases,
}
use aslam_incremental_calibr.Permute.{swap}

module _ {A : Type 0} where
  pub length-swap : (c : List A) (i k : ℕ) → length (swap c i k) ≡ length c
  unfolding swap
  length-swap c i k = elim (Option-cases (get_elem? c i)) [
    | inl e ↦ rw (e, swap)
    | inr (a, e) ↦ elim (Option-cases (get_elem? c k)) [
      | inl f ↦ rw (e, swap, f)
      | inr (b, f) ↦ rw (e, swap, f) (length-set (set c i b) k a ∙ length-set c i b)
    ]
  ]

  pub swap_defined :
      (c : List A) (i k : ℕ) (a b : A)
      → get_elem? c i ≡ some a
      → get_elem? c k ≡ some b
      → swap c i k ≡ set (set c i b) k a
  unfolding swap
  swap_defined c i k a b e f = rw (e, swap, f)

  -- The three reads after a swap of two places.
  pub swap_reads :
      (c : List A) (i k j : ℕ)
      → i < length c
      → k < length c
      → i ≢ k
      → (get_elem? (swap c i k) i ≡ get_elem? c k)
        × (get_elem? (swap c i k) k ≡ get_elem? c i)
        × (i ≢ j → k ≢ j → get_elem? (swap c i k) j ≡ get_elem? c j)
  swap_reads c i k j li lk ne =
      let (a, e) = get_elem?-lt c i li in
      let (b, f) = get_elem?-lt c k lk in
      rw (swap_defined c i k a b e f) (
        get_elem?-set_ne (set c i b) a (λ q. ne (sym q)) ∙ get_elem?-set_self c i b li ∙ sym f,
        get_elem?-set_self (set c i b) k a (omega (arith, length-set c i b)) ∙ sym e,
        λ p q. get_elem?-set_ne (set c i b) a q ∙ get_elem?-set_ne c b p,
      )

  abbrev pub exchanged : List A → ℕ → ℕ → List A
  exchanged c i k = if ltb i k then swap c i k else c

  -- The reads after a round whose walk ended at `k`, which may be `i` itself.
  pub exchanged_reads :
      (c : List A) (i k j : ℕ)
      → i ≤ k
      → k < length c
      → (get_elem? (exchanged c i k) i ≡ get_elem? c k)
        × (get_elem? (exchanged c i k) k ≡ get_elem? c i)
        × (i ≢ j → k ≢ j → get_elem? (exchanged c i k) j ≡ get_elem? c j)
  exchanged_reads c i k j le lt = elim (Bool-cases (ltb i k)) [
    | inl below ↦ rw below (swap_reads c i k j (omega arith) lt (λ e. absurd (ground arith)))
    | inr at_i ↦
        let same : i ≡ k = ground arith in
        rw at_i (ap (get_elem? c) same, ap (get_elem? c) (sym same), λ _ _. refl)
  ]

  pub length-exchanged : (c : List A) (i k : ℕ) → length (exchanged c i k) ≡ length c
  length-exchanged c i k = elim (Bool-cases (ltb i k)) [
    | inl below ↦ rw below (length-swap c i k)
    | inr at_i ↦ rw at_i
  ]
