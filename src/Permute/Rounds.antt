-- ===== src/Permute/Rounds.antt =====
-- The rounds of the loop of permute.tpp on a permutation vector.
use aslam_incremental_calibr.Common.{
  ℕ, zero, suc, ◌+◌, ◌≤◌, ◌<◌, ◌≡◌, ◌≢◌, refl, sym, ◌∙◌, ap, subst, inl, inr, List, some, get_elem?,
  arith, ok, ltb, leb, Bool-cases, length, get_elem?-lt, Result, false, lt→leb,
}
use aslam_incremental_calibr.Permute.{IsPermutation, settle, permute_round, permute_from}
use aslam_incremental_calibr.Permute.Walk.{
  Walk, here, step, Unplaced, Walk-origin, Walk-end, Walk-pass,
}
use aslam_incremental_calibr.Permute.Total.{chase-Walk}
use aslam_incremental_calibr.Permute.Swap.{exchanged, exchanged_reads, length-exchanged}

Unplaced-earlier :
    (permutation : List ℕ) (i m : ℕ) → Unplaced permutation (i + 1) m → Unplaced permutation i m
Unplaced-earlier permutation i m free u lt = free u (omega arith)

-- The index that round `i` reads has not been placed before.
Unplaced-now :
    {permutation : List ℕ} {i p : ℕ}
    → IsPermutation permutation
    → get_elem? permutation i ≡ some p
    → Unplaced permutation i p
Unplaced-now {i = i} {p = p} perm f u lt e = absurd (omega (arith, perm.injective u i p e f))

-- Walks stay in the range of the vector.
Walk-lt :
    {permutation : List ℕ} {i s k : ℕ}
    → IsPermutation permutation
    → s < length permutation
    → Walk permutation i s k
    → k < length permutation
Walk-lt perm lt here = lt
Walk-lt perm lt (step {u = u} {v = v} w below e) = perm.in_range u v e

module _ {A : Type 0} where
  -- Before round `i`: the places below `i` are settled, and an element that is yet to be placed is
  -- where the walk from its own index ends.
  pub record Progress (permutation : List ℕ) (original : List A) (i : ℕ) (c : List A) : Type 0 where
    pub sized : length c ≡ length permutation
    pub settled :
        (j k : ℕ) → j < i → get_elem? permutation j ≡ some k → get_elem? c j ≡ get_elem? original k
    pub moved :
        (m r : ℕ)
        → Unplaced permutation i m
        → Walk permutation i m r
        → i ≤ r
        → get_elem? c r ≡ get_elem? original m

  pub Progress-start :
      (permutation : List ℕ) (c : List A)
      → length c ≡ length permutation
      → Progress permutation c 0 c
  Progress-start permutation c e = record {
    sized = e;
    settled = λ j k lt f. elim lt [ ];
    moved = λ m r free w le. start w;
  }
    where
      start : {m r : ℕ} → Walk permutation 0 m r → get_elem? c r ≡ get_elem? c m
      start here = refl
      start (step w lt f) = elim lt [ ]

  Progress-step :
      {permutation : List ℕ} {original c : List A} {i p k : ℕ}
      → IsPermutation permutation
      → Progress permutation original i c
      → get_elem? permutation i ≡ some p
      → Walk permutation i p k
      → i ≤ k
      → k < length c
      → Progress permutation original (i + 1) (exchanged c i k)
  Progress-step {permutation} {original} {c} {i} {p} {k} perm pr f w le lt = record {
    sized = length-exchanged c i k ∙ pr.sized;
    settled = settled';
    moved = moved';
  }
    where
      reads :
          (j : ℕ)
          → (get_elem? (exchanged c i k) i ≡ get_elem? c k)
            × (get_elem? (exchanged c i k) k ≡ get_elem? c i)
            × (i ≢ j → k ≢ j → get_elem? (exchanged c i k) j ≡ get_elem? c j)
      reads j = exchanged_reads c i k j le lt

      free : Unplaced permutation i p
      free = Unplaced-now perm f

      at_i :
          (j m : ℕ)
          → j ≡ i
          → get_elem? permutation j ≡ some m
          → get_elem? (exchanged c i k) j ≡ get_elem? original m
      at_i j m e g =
          let named : p ≡ m = cc in
          ap (get_elem? (exchanged c i k)) e
          ∙ (reads i).0
          ∙ pr.moved p k free w le
          ∙ ap (get_elem? original) named

      settled' :
          (j m : ℕ)
          → j < i + 1
          → get_elem? permutation j ≡ some m
          → get_elem? (exchanged c i k) j ≡ get_elem? original m
      settled' j m b g = elim (Bool-cases (ltb j i)) [
        | inl before ↦
            let lt' : j < i = ground arith in
            (reads j).2 (omega arith) (omega arith) ∙ pr.settled j m lt' g
        | inr now ↦ at_i j m (ground arith) g
      ]

      -- An element whose walk reaches `i` goes on to `k`, where the round has put it.
      onward :
          (m r : ℕ)
          → Unplaced permutation i m
          → p ≢ m
          → Walk permutation i m i
          → Walk permutation (i + 1) p r
          → i + 1 ≤ r
          → get_elem? (exchanged c i k) r ≡ get_elem? original m
      onward m r free_m ne to_i on above = elim (Walk-pass f on) [
        | inl on' ↦
            let end : k ≡ r = Walk-end w le on' (omega arith) in
            ap (get_elem? (exchanged c i k)) (sym end)
            ∙ (reads i).1
            ∙ pr.moved m i free_m to_i (omega arith)
        | inr (back, _) ↦ absurd (ne (Walk-origin perm free free_m back to_i))
      ]

      moved' :
          (m r : ℕ)
          → Unplaced permutation (i + 1) m
          → Walk permutation (i + 1) m r
          → i + 1 ≤ r
          → get_elem? (exchanged c i k) r ≡ get_elem? original m
      moved' m r free_m on above =
          let earlier : Unplaced permutation i m = Unplaced-earlier permutation i m free_m in
          let ne : p ≢ m = λ e. free_m i (omega arith) (f ∙ ap some e) in
          elim (Walk-pass f on) [
            | inl on' ↦
                let apart : k ≢ r =
                  λ e. ne (Walk-origin perm free earlier (subst (Walk permutation i p) e w) on') in
                (reads r).2 (omega arith) apart ∙ pr.moved m r earlier on' (omega arith)
            | inr (to_i, on') ↦ onward m r earlier ne to_i on' above
          ]

  permute_round_lem :
      {permutation : List ℕ} {original : List A} (c : List A) (i : ℕ)
      → IsPermutation permutation
      → i < length permutation
      → Progress permutation original i c
      → (c' : List A) × (permute_round permutation i c ≡ (ok tt, c'))
        × Progress permutation original (i + 1) c'
  unfolding permute_round settle
  permute_round_lem {permutation} c i perm lt pr =
      let (p, f) = get_elem?-lt permutation i lt in
      let p_lt : p < length permutation = perm.in_range i p f in
      let (k, e, w, le) = chase-Walk perm (omega arith) (Unplaced-now perm f) in
      let fits : k < length c = omega (arith, Walk-lt perm p_lt w, pr.sized) in
      let inside : leb (length c) p ≡ false = lt→leb (length c) p (omega (arith, pr.sized)) in
      (exchanged c i k, rw (permute_round, f, inside, e) refl, Progress-step perm pr f w le fits)

  permute_from-suc :
      (rounds : ℕ) (permutation : List ℕ) (c c' : List A) (i : ℕ)
      → permute_round permutation i c ≡ (ok tt, c')
      → permute_from (suc rounds) permutation i c ≡ permute_from rounds permutation (i + 1) c'
  unfolding permute_from
  permute_from-suc rounds permutation c c' i e =
      rw (permute_from, e)
        (ap (λ (q : Result (Unit {0}) × List A). permute_from rounds permutation (i + 1) q.1) e)

  pub permute_from_lem :
      (rounds : ℕ) {permutation : List ℕ} {original : List A} (c : List A) (i : ℕ)
      → IsPermutation permutation
      → i + rounds ≡ length permutation
      → Progress permutation original i c
      → (c' : List A) × (permute_from rounds permutation i c ≡ (ok tt, c'))
        × Progress permutation original (length permutation) c'
  unfolding permute_from
  permute_from_lem zero {permutation} {original} c i perm e pr =
      let e' : i ≡ length permutation = omega arith in
      (c, refl, subst (λ n. Progress permutation original n c) e' pr)
  permute_from_lem (suc rounds) {permutation} c i perm e pr =
      let (c', run, pr') = permute_round_lem c i perm (omega arith) pr in
      let (c'', run', pr'') = permute_from_lem rounds c' (i + 1) perm (omega arith) pr' in
      (c'', permute_from-suc rounds permutation c c' i run ∙ run', pr'')
