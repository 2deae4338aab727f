-- ===== src/Permute/Total.antt =====
-- The inner loop of permute.tpp ends: the indices that a walk has left behind differ, and all are
-- below `i`, so there are at most `i` of them.
use aslam_incremental_calibr.Common.{
  ℕ, zero, suc, ◌+◌, ◌≤◌, ◌<◌, ◌≡◌, refl, ◌∙◌, ap, inl, inr, List, [], ◌∷◌, some, get_elem?, arith,
  ok, ltb, Bool-cases, length, get_elem?-lt, count, member, member-count, length_le_of_count, ◌==◌,
  if◌then◌else◌, true,
}
use aslam_incremental_calibr.Permute.{IsPermutation, chase}
use aslam_incremental_calibr.Permute.Walk.{Walk, here, step, Unplaced}

-- The numbers below a bound.
abbrev below : ℕ → List ℕ
below zero = []
below (suc n) = n ∷ below n

length-below : (n : ℕ) → length (below n) ≡ n
length-below zero = refl
length-below (suc n) = ap suc (length-below n)

abbrev AllLt : ℕ → List ℕ → Type 0
AllLt i [] = Unit {0}
AllLt i (x ∷ xs) = (x < i) × AllLt i xs

count-below : (a n : ℕ) → count a (below n) ≡ (if ltb a n then 1 else 0)
count-below a zero = ground arith
count-below a (suc n) = ground (arith, count-below a n)

count-ge : (a i : ℕ) (xs : List ℕ) → AllLt i xs → i ≤ a → count a xs ≡ 0
count-ge a i [] h le = refl
count-ge a i (x ∷ xs) h le = ground (arith, count-ge a i xs h.1)

-- Pigeonhole.
length-AllLt : (i : ℕ) (xs : List ℕ) → AllLt i xs → ((a : ℕ) → count a xs ≤ 1) → length xs ≤ i
length-AllLt i xs h once = omega (arith, length_le_of_count xs (below i) fits, length-below i)
  where
    fits : (a : ℕ) → count a xs ≤ count a (below i)
    fits a = ground (arith, once a, count-below a i, count-ge a i xs h)

-- The indices of a walk, the last one first.
abbrev IsTrail : List ℕ → ℕ → List ℕ → Type 0
IsTrail permutation s [] = ⊥
IsTrail permutation s (x ∷ []) = x ≡ s
IsTrail permutation s (x ∷ y ∷ xs) =
    (get_elem? permutation y ≡ some x) × IsTrail permutation s (y ∷ xs)

abbrev rest_of : List ℕ → List ℕ
rest_of [] = []
rest_of (x ∷ xs) = xs

-- What stands in a trail was entered from an index further back.
IsTrail-entered :
    {permutation : List ℕ} {i s : ℕ} (xs : List ℕ) (u v : ℕ)
    → IsPermutation permutation
    → Unplaced permutation i s
    → IsTrail permutation s xs
    → u < i
    → get_elem? permutation u ≡ some v
    → member v xs ≡ true
    → member u (rest_of xs) ≡ true
IsTrail-entered [] u v p free t lt e m = absurd t
IsTrail-entered (x ∷ []) u v p free t lt e m = absurd (free u lt (e ∙ ap some (ground arith)))
IsTrail-entered (x ∷ y ∷ xs) u v p free t lt e m = elim (Bool-cases (x == v)) [
  | inl hit ↦ let same : y ≡ u = p.injective y u v (t.0 ∙ ap some (ground arith)) e in ground arith
  | inr miss ↦
      let back = IsTrail-entered (y ∷ xs) u v p free t.1 lt e (ground arith) in ground (arith, back)
]

-- From the start of a round the walk ends, at or above `i`, within `i` steps.
chase_total :
    (fuel : ℕ) {permutation : List ℕ} {i s : ℕ} (k : ℕ) (trail : List ℕ)
    → IsPermutation permutation
    → i ≤ length permutation
    → Unplaced permutation i s
    → IsTrail permutation s (k ∷ trail)
    → AllLt i trail
    → ((a : ℕ) → count a (k ∷ trail) ≤ 1)
    → Walk permutation i s k
    → i < fuel + length trail
    → (r : ℕ) × (chase fuel permutation i k ≡ ok r) × Walk permutation i s r × (i ≤ r)
unfolding chase
chase_total zero {i = i} k trail p n free t lts once w enough =
    absurd (omega (arith, length-AllLt i trail lts (λ a. omega (arith, once a))))
chase_total (suc fuel) {permutation} {i} k trail p n free t lts once w enough =
    elim (Bool-cases (ltb k i)) [
      | inr above ↦ (k, rw (above, chase), w, ground arith)
      | inl below_i ↦
          let lt : k < i = ground arith in
          let (next, e) = get_elem?-lt permutation k (omega arith) in
          rw (below_i, chase, e)
            (chase_total fuel next (k ∷ trail) p n free (e, t) (lt, lts) (fresh lt next e)
              (step w lt e) (omega arith))
    ]
  where
    fresh :
        k < i
        → (next : ℕ) → get_elem? permutation k ≡ some next
        → (a : ℕ) → count a (next ∷ k ∷ trail) ≤ 1
    fresh lt next e a = elim (Bool-cases (member next (k ∷ trail))) [
      | inl again ↦
          let back = IsTrail-entered (k ∷ trail) k next p free t lt e again in
          absurd (ground (arith, once k, back, member-count k trail))
      | inr new ↦
          ground (arith, once a, new, member-count a (k ∷ trail), member-count next (k ∷ trail))
    ]

-- The walk of round `i` from an index that no earlier round has placed.
pub chase-Walk :
    {permutation : List ℕ} {i s : ℕ}
    → IsPermutation permutation
    → i ≤ length permutation
    → Unplaced permutation i s
    → (r : ℕ) × (chase (suc (length permutation)) permutation i s ≡ ok r)
      × Walk permutation i s r
      × (i ≤ r)
chase-Walk {permutation} {i} {s} p n free =
    chase_total (suc (length permutation)) s [] p n free refl tt (λ a. ground arith) here
      (omega arith)
