-- ===== src/Incremental/Uses.antt =====
-- How many batches of a list use a design variable, or hold an error term.
use aslam_incremental_calibr.Common.{
  ℕ, zero, suc, ◌+◌, ◌≡◌, ◌≤◌, ◌<◌, refl, Bool, true, List, [], ◌∷◌, ◌++◌, some, length, get_elem?,
  member, count, bit, ◌==◌, if◌then◌else◌, arith, subst, inl, inr, Bool-cases, remove, count-remove,
  member-count,
}
use aslam_incremental_calibr.Incremental.{erase_at}

-- Over a test of batches: the number of batches in a list that pass it.
abbrev pub passing : (ℕ → Bool) → List ℕ → ℕ
passing test [] = 0
passing test (b ∷ problems) = bit (test b) + passing test problems

module _ (test : ℕ → Bool) where
  pub passing-append :
      (xs ys : List ℕ) → passing test (xs ++ ys) ≡ passing test xs + passing test ys
  passing-append [] ys = omega arith
  passing-append (x ∷ xs) ys = omega (arith, passing-append xs ys)

  pub passing-le_length : (xs : List ℕ) → passing test xs ≤ length xs
  passing-le_length [] = omega arith
  passing-le_length (x ∷ xs) = ground (arith, passing-le_length xs)

  pub passing-pos : (xs : List ℕ) (b : ℕ) → member b xs ≡ true → test b ≡ true → 0 < passing test xs
  passing-pos [] b m t = cc
  passing-pos (x ∷ xs) b m t = elim (Bool-cases (x == b)) [
    | inr other ↦ ground (arith, passing-pos xs b (ground (arith, m, other)) t)
    | inl same ↦
        let at_b : b ≡ x = ground arith in
        let hit : test x ≡ true = subst (λ y. test y ≡ true) at_b t in ground (arith, hit)
  ]

  pub passing-erase_at :
      (xs : List ℕ) (idx b : ℕ)
      → get_elem? xs idx ≡ some b
      → passing test (erase_at xs idx) + bit (test b) ≡ passing test xs
  unfolding erase_at
  passing-erase_at [] idx b e = cc
  passing-erase_at (x ∷ xs) zero b e = let same : x ≡ b = ground (arith, e) in rw same (omega arith)
  passing-erase_at (x ∷ xs) (suc idx) b e = omega (arith, passing-erase_at xs idx b e)

  -- A reordering passes as often.
  passing-remove :
      (xs : List ℕ) (b : ℕ)
      → member b xs ≡ true
      → passing test (remove b xs) + bit (test b) ≡ passing test xs
  passing-remove [] b m = cc
  passing-remove (x ∷ xs) b m = elim (Bool-cases (x == b)) [
    | inl same ↦ let at_b : x ≡ b = ground arith in rw (same, at_b) (omega arith)
    | inr other ↦ rw other (omega (arith, passing-remove xs b (ground (arith, m, other))))
  ]

  pub passing-eq_of_count :
      (xs ys : List ℕ) → ((a : ℕ) → count a xs ≡ count a ys) → passing test xs ≡ passing test ys
  passing-eq_of_count [] [] h = refl
  passing-eq_of_count [] (y ∷ ys) h = absurd (ground (arith, h y))
  passing-eq_of_count (x ∷ xs) ys h =
      omega (arith, passing-eq_of_count xs (remove x ys) rest, passing-remove ys x there)
    where
      there : member x ys ≡ true
      there = ground (arith, h x, member-count x ys)

      rest : (a : ℕ) → count a xs ≡ count a (remove x ys)
      rest a = omega (arith, h a, count-remove a x ys there)

pub member-erase_at :
    (xs : List ℕ) (idx a : ℕ) → member a (erase_at xs idx) ≡ true → member a xs ≡ true
unfolding erase_at
member-erase_at [] idx a m = m
member-erase_at (x ∷ xs) zero a m = ground (arith, m)
member-erase_at (x ∷ xs) (suc idx) a m = ground (arith, m, member-erase_at xs idx a)

pub member-append :
    (xs ys : List ℕ) (a : ℕ) → member a (xs ++ ys) ≡ (if member a xs then true else member a ys)
member-append [] ys a = refl
member-append (x ∷ xs) ys a = ground (arith, member-append xs ys a)
