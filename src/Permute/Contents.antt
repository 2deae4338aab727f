-- ===== src/Permute/Contents.antt =====
-- permute.tpp only moves elements, whatever its vector holds, and on a vector with a repeated index
-- its inner loop may not end.
use aslam_incremental_calibr.Common.{
  ℕ, zero, suc, ◌+◌, ◌<◌, ◌≡◌, refl, sym, ◌∙◌, inl, inr, List, [], ◌∷◌, some, get_elem?, arith, ok,
  err, diverges, ltb, leb, Bool-cases, length, Result, count, set, get_elem?-set_self,
  get_elem?-set_ne, ◌==◌, if◌then◌else◌, Option-cases, lt_of_get_elem?, ==→eq, subst,
}
use aslam_incremental_calibr.Permute.{chase, swap, settle, permute_round, permute_from, permute}

count-set :
    (a : ℕ) (xs : List ℕ) (i b v : ℕ)
    → get_elem? xs i ≡ some b
    → count a (set xs i v) + (if b == a then 1 else 0) ≡ count a xs + (if v == a then 1 else 0)
count-set a [] i b v e = cc
count-set a (x ∷ xs) zero b v e = ground arith
count-set a (x ∷ xs) (suc i) b v e = omega (arith, count-set a xs i b v e)

-- After the first write of a swap the second place holds what it held.
get_elem?-first_write :
    (c : List ℕ) (i k b : ℕ) → get_elem? c k ≡ some b → get_elem? (set c i b) k ≡ some b
get_elem?-first_write c i k b e = elim (Bool-cases (i == k)) [
  | inl same ↦
      let same' : i ≡ k = ==→eq i k same in
      subst (λ j. get_elem? (set c j b) k ≡ some b) (sym same')
        (get_elem?-set_self c k b (lt_of_get_elem? c k b e))
  | inr apart ↦ get_elem?-set_ne c b (λ (q : i ≡ k). ground arith) ∙ e
]

pub count-swap : (a : ℕ) (c : List ℕ) (i k : ℕ) → count a (swap c i k) ≡ count a c
unfolding swap
count-swap a c i k = elim (Option-cases (get_elem? c i)) [
  | inl e ↦ rw (e, swap)
  | inr (x, e) ↦ elim (Option-cases (get_elem? c k)) [
    | inl f ↦ rw (e, swap, f)
    | inr (y, f) ↦
        rw (e, swap, f)
          (omega (
            arith,
            count-set a c i x y e,
            count-set a (set c i y) k y x (get_elem?-first_write c i k y f),
          ))
  ]
]

count-settle : (a i : ℕ) (r : Result ℕ) (c : List ℕ) → count a (settle i r c).1 ≡ count a c
unfolding settle
count-settle a i (err e) c = refl
count-settle a i (ok k) c = ground (arith, count-swap a c i k)

count-permute_round :
    (a : ℕ) (permutation : List ℕ) (i : ℕ) (c : List ℕ)
    → count a (permute_round permutation i c).1 ≡ count a c
unfolding permute_round
count-permute_round a permutation i c = elim (Option-cases (get_elem? permutation i)) [
  | inl e ↦ rw (e, permute_round)
  | inr (first, e) ↦ elim (Bool-cases (leb (length c) first)) [
    | inl out ↦ rw (e, permute_round, out)
    | inr fits ↦ rw (e, permute_round, fits) (count-settle a i _ c)
  ]
]

count-permute_from :
    (a rounds : ℕ) (permutation : List ℕ) (i : ℕ) (c : List ℕ)
    → count a (permute_from rounds permutation i c).1 ≡ count a c
unfolding permute_from
count-permute_from a zero permutation i c = refl
count-permute_from a (suc rounds) permutation i c = ground (
  arith,
  count-permute_round a permutation i c,
  count-permute_from a rounds permutation (i + 1) (permute_round permutation i c).1,
)

-- Whatever the vector holds, and also where `permute` throws, each element stands in the container
-- as often as before.
pub count-permute :
    (a : ℕ) (permutation container : List ℕ)
    → count a (permute permutation container).1 ≡ count a container
unfolding permute
count-permute a permutation container =
    ground (arith, count-permute_from a (length container) permutation 0 container)

chase_stuck :
    (fuel : ℕ) (permutation : List ℕ) (i k : ℕ)
    → k < i
    → get_elem? permutation k ≡ some k
    → chase fuel permutation i k ≡ err diverges
unfolding chase
chase_stuck zero permutation i k lt e = refl
chase_stuck (suc fuel) permutation i k lt e = elim (Bool-cases (ltb k i)) [
  | inl below ↦ rw (below, chase, e) (chase_stuck fuel permutation i k lt e)
  | inr above ↦ absurd (ground arith)
]

-- A vector that begins with two zeros passes both checks of `permute`, and the inner loop of its
-- second round does not end, on any number of steps.
pub permute_diverges :
    (rest container : List ℕ)
    → length container ≡ length rest + 2
    → ((permute (0 ∷ 0 ∷ rest) container).0 ≡ err diverges)
      × ((steps : ℕ) → chase steps (0 ∷ 0 ∷ rest) 1 0 ≡ err diverges)
unfolding permute
permute_diverges rest [] e = absurd (omega arith)
permute_diverges rest (x ∷ []) e = absurd (omega arith)
permute_diverges rest (x ∷ y ∷ c) e = (
  ground
      (arith, e, chase_stuck (suc (length (0 ∷ 0 ∷ rest))) (0 ∷ 0 ∷ rest) 1 0 (omega arith) refl),
  λ steps. chase_stuck steps (0 ∷ 0 ∷ rest) 1 0 (omega arith) refl,
)
