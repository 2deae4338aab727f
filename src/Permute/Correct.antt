-- ===== src/Permute/Correct.antt =====
-- What permute.tpp does to its container: on a permutation vector the element at each index becomes
-- the one that the vector names, and on any vector the elements only change places.
use aslam_incremental_calibr.Common.{
  none, Option, le_of_get_elem?, get_elem?-ge, ℕ, ◌≡◌, sym, ◌∙◌, inl, inr, List, some, get_elem?,
  arith, ok, length, lt_of_get_elem?, Option-cases,
}
use aslam_incremental_calibr.Permute.{IsPermutation, permute_from, permute}
use aslam_incremental_calibr.Permute.Rounds.{Progress-start, permute_from_lem}

permute_sized :
    {A : Type 0} (permutation : List ℕ) (container : List A)
    → length container ≡ length permutation
    → permute permutation container ≡ permute_from (length container) permutation 0 container
unfolding permute
permute_sized permutation container e = ground (arith, e)

permute_reads :
    {A : Type 0} (permutation : List ℕ) (container : List A)
    → IsPermutation permutation
    → length container ≡ length permutation
    → (c : List A) × (permute permutation container ≡ (ok tt, c))
      × (length c ≡ length container)
      × ((j k : ℕ) → get_elem? permutation j ≡ some k → get_elem? c j ≡ get_elem? container k)
unfolding permute
permute_reads permutation container perm e =
    let (c, run, pr) =
      permute_from_lem (length container) container 0 perm (omega arith)
        (Progress-start permutation container e) in
    (
      c,
      permute_sized permutation container e ∙ run,
      pr.sized ∙ sym e,
      λ j k f. pr.settled j k (lt_of_get_elem? permutation j k f) f,
    )

-- The element at an index, where there is an index.
abbrev pub element_at : {A : Type 0} → List A → Option ℕ → Option A
element_at container none = none
element_at container (some k) = get_elem? container k

-- On a vector of the container's size whose indices are in range and differ, `permute` returns, in
-- particular its inner loop ends in every round, keeps the size, and puts at each index `j` the
-- element that stood at the index which the vector holds at `j`.
pub permute_lem :
    {A : Type 0} (permutation : List ℕ) (container : List A)
    → IsPermutation permutation
    → length container ≡ length permutation
    → (c : List A) × (permute permutation container ≡ (ok tt, c))
      × (length c ≡ length container)
      × ((j : ℕ) → get_elem? c j ≡ element_at container (get_elem? permutation j))
permute_lem permutation container perm e =
    let (c, run, sized, reads) = permute_reads permutation container perm e in
    (
      c,
      run,
      sized,
      λ j. elim (Option-cases (get_elem? permutation j)) [
        | inr (k, f) ↦ rw f (reads j k f)
        | inl f ↦
            let out = le_of_get_elem? permutation j f in
            rw f (get_elem?-ge c j (omega (arith, out, sized, e)))
      ],
    )
