-- ===== src/Permute/Tests.antt =====
-- `permute` on concrete vectors.
use aslam_incremental_calibr.Common.{
  ℕ, zero, suc, ◌≡◌, ◌<◌, refl, List, [], ◌∷◌, some, length, get_elem?, count, ok, err,
  out_of_bound, diverges, arith,
}
use aslam_incremental_calibr.Permute.{permute, chase, IsPermutation}
use aslam_incremental_calibr.Permute.Correct.{permute_lem, element_at}
use aslam_incremental_calibr.Permute.Contents.{count-permute, permute_diverges}

abbrev three : List ℕ
three = 2 ∷ 0 ∷ 1 ∷ []

abbrev letters : List ℕ
letters = 10 ∷ 20 ∷ 30 ∷ []

three-IsPermutation : IsPermutation three
three-IsPermutation = record { in_range = range; injective = different }
  where
    range : (i k : ℕ) → get_elem? three i ≡ some k → k < length three
    range zero k e = ground (arith, e)
    range (suc zero) k e = ground (arith, e)
    range (suc (suc zero)) k e = ground (arith, e)
    range (suc (suc (suc i))) k e = cc

    different : (i j k : ℕ) → get_elem? three i ≡ some k → get_elem? three j ≡ some k → i ≡ j
    different zero zero k e f = refl
    different zero (suc zero) k e f = absurd (ground (arith, e, f))
    different zero (suc (suc zero)) k e f = absurd (ground (arith, e, f))
    different (suc zero) zero k e f = absurd (ground (arith, e, f))
    different (suc zero) (suc zero) k e f = refl
    different (suc zero) (suc (suc zero)) k e f = absurd (ground (arith, e, f))
    different (suc (suc zero)) zero k e f = absurd (ground (arith, e, f))
    different (suc (suc zero)) (suc zero) k e f = absurd (ground (arith, e, f))
    different (suc (suc zero)) (suc (suc zero)) k e f = refl
    different (suc (suc (suc i))) j k e f = cc
    different zero (suc (suc (suc j))) k e f = cc
    different (suc zero) (suc (suc (suc j))) k e f = cc
    different (suc (suc zero)) (suc (suc (suc j))) k e f = cc

permute-three : permute three letters ≡ (ok tt, 30 ∷ 10 ∷ 20 ∷ [])
unfolding permute
permute-three = refl

permute_short : permute (0 ∷ []) letters ≡ (err (out_of_bound 1), letters)
unfolding permute
permute_short = refl

permute_lem_example :
    (c : List ℕ) × (permute three letters ≡ (ok tt, c))
    × (length c ≡ length letters)
    × ((j : ℕ) → get_elem? c j ≡ element_at letters (get_elem? three j))
permute_lem_example = permute_lem three letters three-IsPermutation refl

count-permute_example : count 20 (permute three letters).1 ≡ count 20 letters
count-permute_example = count-permute 20 three letters

permute_diverges_example :
    ((permute (0 ∷ 0 ∷ 1 ∷ []) letters).0 ≡ err diverges)
    × ((steps : ℕ) → chase steps (0 ∷ 0 ∷ 1 ∷ []) 1 0 ≡ err diverges)
permute_diverges_example = permute_diverges (1 ∷ []) letters refl
