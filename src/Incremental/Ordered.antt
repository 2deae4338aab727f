-- ===== src/Incremental/Ordered.antt =====
-- What `add` and `remove` of core/IncrementalOptimizationProblem.cpp do to the order of the groups:
-- `add` puts new groups behind the others, `remove` takes groups out.
use aslam_incremental_calibr.Common.{
  ℕ, zero, suc, ◌+◌, ◌-◌, ◌%◌, or_else, ◌≡◌, ◌≤◌, refl, sym, ◌∙◌, ap, subst, List, [], ◌∷◌, ◌++◌,
  count, remove, find, ◌==◌, if◌then◌else◌, ok, arith, inl, inr, ◌⊎◌, Bool-cases, Option-cases,
  Result-cases, append_nil, append_assoc,
}
use aslam_incremental_calibr.Groups.{Groups, drop_variable}
use aslam_incremental_calibr.Problem
use aslam_incremental_calibr.Problem.{OptimizationProblem}
use aslam_incremental_calibr.Incremental.{
  IncrementalOptimizationProblem, add_variable, remove_variable, is_group_in_problem,
  get_optimization_problem, count_part, group_part, size_t_mod,
}
use aslam_incremental_calibr.Incremental.Batches.{add_variables, remove_variables, remove_idx}

-- The first list is the second one without some of its elements.
pub data IsSublist : List ℕ → List ℕ → Type 0 where
  done : IsSublist [] []
  keeps : {xs ys : List ℕ} (a : ℕ) → IsSublist xs ys → IsSublist (a ∷ xs) (a ∷ ys)
  skips : {xs ys : List ℕ} (a : ℕ) → IsSublist xs ys → IsSublist xs (a ∷ ys)

self : (xs : List ℕ) → IsSublist xs xs
self [] = done
self (a ∷ xs) = keeps a (self xs)

IsSublist-trans : {xs ys zs : List ℕ} → IsSublist xs ys → IsSublist ys zs → IsSublist xs zs
IsSublist-trans s done = s
IsSublist-trans (keeps a s) (keeps b t) = keeps a (IsSublist-trans s t)
IsSublist-trans (skips a s) (keeps b t) = skips a (IsSublist-trans s t)
IsSublist-trans s (skips a t) = skips a (IsSublist-trans s t)

remove-IsSublist : (a : ℕ) (xs : List ℕ) → IsSublist (remove a xs) xs
remove-IsSublist a [] = done
remove-IsSublist a (b ∷ xs) = elim (Bool-cases (b == a)) [
  | inl same ↦ rw same (skips b (self xs))
  | inr other ↦ rw other (keeps b (remove-IsSublist a xs))
]

IsSublist-count : {xs ys : List ℕ} (a : ℕ) → IsSublist xs ys → count a xs ≤ count a ys
IsSublist-count a done = omega arith
IsSublist-count a (keeps b s) = ground (arith, IsSublist-count a s)
IsSublist-count a (skips b s) = ground (arith, IsSublist-count a s)

-- A sublist of distinct elements that has those of the first part and no other is that part.
pub sublist_of_count :
    (ys xs more : List ℕ)
    → IsSublist xs (ys ++ more)
    → ((a : ℕ) → count a (ys ++ more) ≤ 1)
    → ((a : ℕ) → count a xs ≡ count a ys)
    → xs ≡ ys
sublist_of_count [] [] more s once same = refl
sublist_of_count [] (x ∷ xs) more s once same = absurd (ground (arith, same x))
sublist_of_count (y ∷ ys) xs more (skips a s) once same =
    absurd (ground (arith, once y, same y, IsSublist-count y s))
sublist_of_count (y ∷ ys) (x ∷ xs) more (keeps a s) once same =
    ap (λ l. y ∷ l)
      (sublist_of_count ys xs more s (λ b. ground (arith, once b)) (λ b. ground (arith, same b)))

-- Taking out a design variable takes out its group or none.
drop_variable-IsSublist :
    (dv k : ℕ) (groups : Groups) (ordering : List ℕ) (groups' : Groups) (ordering' : List ℕ)
    → drop_variable dv k groups ordering ≡ ok (groups', ordering')
    → IsSublist ordering' ordering
unfolding drop_variable
drop_variable-IsSublist dv k groups ordering groups' ordering' e = elim (either) [
  | inl same ↦ subst (λ l. IsSublist l ordering) (sym same) (self ordering)
  | inr out ↦ subst (λ l. IsSublist l ordering) (sym out) (remove-IsSublist k ordering)
]
  where
    either : (ordering' ≡ ordering) ⊎ (ordering' ≡ remove k ordering)
    either = ground (arith, e)

module _ {Params : Type 0} where
  -- The groups of `p` stand first in `q`, in their order.
  abbrev pub Grows :
      IncrementalOptimizationProblem Params → IncrementalOptimizationProblem Params → Type 0
  Grows p q = (more : List ℕ) × (q.groups_ordering ≡ p.groups_ordering ++ more)

  -- The groups of `q` are some of those of `p`, in their order.
  abbrev pub Shrinks :
      IncrementalOptimizationProblem Params → IncrementalOptimizationProblem Params → Type 0
  Shrinks p q = IsSublist q.groups_ordering p.groups_ordering

  add_variable-Grows :
      (dv g : ℕ) (p : IncrementalOptimizationProblem Params) → Grows p (add_variable dv g p).1
  unfolding add_variable
  add_variable-Grows dv g p = elim (Option-cases (find dv p.design_variables_counts)) [
    | inl e ↦ rw (add_variable, e) pushed
    | inr ((n, h), e) ↦ elim (Bool-cases (h == g)) [
      | inl same ↦ rw (add_variable, e, same) pushed
      | inr other ↦ rw (add_variable, e, other) pushed
    ]
  ]
    where
      pushed :
          (more : List ℕ) × ((if is_group_in_problem p g
              then p.groups_ordering
              else p.groups_ordering ++ g ∷ [])
            ≡ p.groups_ordering ++ more)
      pushed = elim (Bool-cases (is_group_in_problem p g)) [
        | inl old ↦ ([], rw old (sym (append_nil p.groups_ordering)))
        | inr new ↦ (g ∷ [], rw new refl)
      ]

  remove_variable-Shrinks :
      (dv : ℕ) (p : IncrementalOptimizationProblem Params) → Shrinks p (remove_variable dv p).1
  unfolding remove_variable
  remove_variable-Shrinks dv p =
      let n = (count_part (find dv p.design_variables_counts) + size_t_mod - 1) % size_t_mod in
      let g = or_else (group_part (find dv p.design_variables_counts)) 0 in
      elim (Bool-cases (n == 0)) [
        | inr more ↦ rw more (self p.groups_ordering)
        | inl last ↦ elim (Result-cases (drop_variable dv g p.design_variables p.groups_ordering)) [
          | inr (e, fails) ↦ rw (last, fails) (self p.groups_ordering)
          | inl ((groups, ordering), drops) ↦
              rw (last, drops)
                (drop_variable-IsSublist dv g p.design_variables p.groups_ordering groups ordering
                  drops)
        ]
      ]

  Grows-self : (p : IncrementalOptimizationProblem Params) → Grows p p
  Grows-self p = ([], sym (append_nil p.groups_ordering))

  Grows-trans : (p q r : IncrementalOptimizationProblem Params) → Grows p q → Grows q r → Grows p r
  Grows-trans p q r (more, e) (more', e') =
      (more ++ more', e' ∙ ap (λ l. l ++ more') e ∙ append_assoc p.groups_ordering more more')

  pub add_variables-Grows :
      (rounds : ℕ) (problem : OptimizationProblem Params) (i : ℕ)
      (p : IncrementalOptimizationProblem Params)
      → Grows p (add_variables rounds problem i p).1
  unfolding add_variables
  add_variables-Grows zero problem i p = Grows-self p
  add_variables-Grows (suc rounds) problem i p =
      elim (Result-cases (Problem.design_variable problem i)) [
        | inr (x, e) ↦ rw e (Grows-self p)
        | inl (dv, e) ↦ elim (Result-cases (Problem.get_group_id problem dv)) [
          | inr (x, f) ↦ rw (e, f) (Grows-self p)
          | inl (g, f) ↦ elim (Result-cases (add_variable dv g p).0) [
            | inr (x, h) ↦ rw (e, f, h) (add_variable-Grows dv g p)
            | inl (t, h) ↦
                rw (e, f, h)
                  (Grows-trans p (add_variable dv g p).1
                    (add_variables rounds problem (i + 1) (add_variable dv g p).1).1
                    (add_variable-Grows dv g p)
                    (add_variables-Grows rounds problem (i + 1) (add_variable dv g p).1))
          ]
        ]
      ]

  pub remove_variables-Shrinks :
      (rounds : ℕ) (problem : OptimizationProblem Params) (i : ℕ)
      (p : IncrementalOptimizationProblem Params)
      → Shrinks p (remove_variables rounds problem i p).1
  unfolding remove_variables
  remove_variables-Shrinks zero problem i p = self p.groups_ordering
  remove_variables-Shrinks (suc rounds) problem i p =
      elim (Result-cases (Problem.design_variable problem i)) [
        | inr (x, e) ↦ rw e (self p.groups_ordering)
        | inl (dv, e) ↦ elim (Result-cases (remove_variable dv p).0) [
          | inr (x, h) ↦ rw (e, h) (remove_variable-Shrinks dv p)
          | inl (t, h) ↦
              rw (e, h)
                (IsSublist-trans
                  (remove_variables-Shrinks rounds problem (i + 1) (remove_variable dv p).1)
                  (remove_variable-Shrinks dv p))
        ]
      ]

  -- Whether `remove` returns or throws, no group changes its place among the others.
  pub remove_idx-Shrinks :
      (batch : ℕ → OptimizationProblem Params) (idx : ℕ) (p : IncrementalOptimizationProblem Params)
      → Shrinks p (remove_idx batch idx p).1
  unfolding remove_idx
  remove_idx-Shrinks batch idx p = elim (Result-cases (get_optimization_problem p idx)) [
    | inr (x, e) ↦ rw e (self p.groups_ordering)
    | inl (b, e) ↦
        let rounds = Problem.num_design_variables (batch b) in
        let shrunk = remove_variables-Shrinks rounds (batch b) 0 p in
        elim (Result-cases (remove_variables rounds (batch b) 0 p).0) [
          | inr (x, h) ↦ rw (e, h) shrunk
          | inl (t, h) ↦ rw (e, h) shrunk
        ]
  ]
