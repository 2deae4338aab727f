-- ===== src/Groups/Change.antt =====
-- What the operations of the two problem classes do to the groups keeps the three containers in
-- agreement: a new design variable, a new order of the groups or inside a group.
use aslam_incremental_calibr.Common.{
  ℕ, ◌≤◌, ◌≡◌, refl, ◌∙◌, true, false, List, [], ◌∷◌, ◌++◌, Option, none, some, inl, inr, length,
  member, count, bit, ◌==◌, if◌then◌else◌, arith, put, erase, find, contains, ok, find-put,
  find-erase, count_eq_of_le, length_eq_of_count, count-append, length-append, Bool-cases,
}
use aslam_incremental_calibr.Groups.{
  Groups, group, check_ordering, new_ordering, IsGrouping, is_empty,
}

pub group-put :
    (groups : Groups) (k g : ℕ) (dvs : List ℕ)
    → group (put k dvs groups) g ≡ (if k == g then dvs else group groups g)
group-put groups k g dvs = ground (arith, find-put k g dvs groups)

group-erase :
    (groups : Groups) (k g : ℕ) → group (erase k groups) g ≡ (if k == g then [] else group groups g)
group-erase groups k g = ground (arith, find-erase k g groups)

pub find-erase-put :
    (groups : Groups) (k g : ℕ) (dvs : List ℕ)
    → find g (erase k (put k dvs groups)) ≡ (if k == g then none else find g groups)
find-erase-put groups k g dvs =
    ground (arith, find-erase k g (put k dvs groups), find-put k g dvs groups)

pub count-is_empty : (x : ℕ) (xs : List ℕ) → is_empty xs ≡ true → count x xs ≡ 0
count-is_empty x [] h = refl
count-is_empty x (y ∷ xs) h = cc

module _ {owner owner' : ℕ → Option ℕ} {groups : Groups} {ordering : List ℕ} (dv k : ℕ) where
  -- A design variable that had no owner joins group `k`, which is made if it is missing.
  pub add-IsGrouping :
      IsGrouping owner groups ordering
      → owner dv ≡ none
      → ((x : ℕ) → owner' x ≡ (if dv == x then some k else owner x))
      → IsGrouping owner'
          (put k (group groups k ++ dv ∷ []) groups)
          (if contains k groups then ordering else ordering ++ k ∷ [])
  add-IsGrouping v fresh new = record {
    grouped = λ x g. ground (
      arith,
      v.grouped x g,
      v.grouped dv k,
      new x,
      fresh,
      group-put groups k g (group groups k ++ dv ∷ []),
      count-append x (group groups k) (dv ∷ []),
    );
    ordered = λ g. ground (
      arith,
      v.ordered g,
      v.ordered k,
      find-put k g (group groups k ++ dv ∷ []) groups,
      count-append g ordering (k ∷ []),
    );
    nonempty = λ g h. ground (
      arith,
      v.nonempty g,
      find-put k g (group groups k ++ dv ∷ []) groups,
      length-append (group groups k) (dv ∷ []),
    );
  }

module _ {owner owner' : ℕ → Option ℕ} {groups : Groups} {ordering : List ℕ} where
  pub IsGrouping-congr :
      IsGrouping owner groups ordering
      → ((x : ℕ) → owner' x ≡ owner x)
      → IsGrouping owner' groups ordering
  IsGrouping-congr v same = record {
    grouped = λ x g. ground (arith, v.grouped x g, same x);
    ordered = v.ordered;
    nonempty = v.nonempty;
  }

module _ {owner : ℕ → Option ℕ} {groups : Groups} {ordering : List ℕ} where
  -- The design variables of a group change places.
  pub permute-IsGrouping :
      (k : ℕ) (dvs : List ℕ)
      → IsGrouping owner groups ordering
      → contains k groups ≡ true
      → ((x : ℕ) → count x dvs ≡ count x (group groups k))
      → IsGrouping owner (put k dvs groups) ordering
  permute-IsGrouping k dvs v there same = record {
    grouped = λ x g. ground (arith, v.grouped x g, group-put groups k g dvs, same x);
    ordered = λ g. ground (arith, v.ordered g, find-put k g dvs groups);
    nonempty = λ g h. ground (
      arith,
      v.nonempty g,
      find-put k g dvs groups,
      length_eq_of_count dvs (group groups k) same,
    );
  }

  -- The groups come in another order.
  pub reorder-IsGrouping :
      (ordering' : List ℕ)
      → IsGrouping owner groups ordering
      → ((g : ℕ) → count g ordering' ≡ count g ordering)
      → IsGrouping owner groups ordering'
  reorder-IsGrouping ordering' v same = record {
    grouped = v.grouped;
    ordered = λ g. same g ∙ v.ordered g;
    nonempty = v.nonempty;
  }

-- What the loop of `setGroupsOrdering` has checked when it ends.
check_ordering-ok :
    (groups : Groups) (lookup ordering : List ℕ)
    → check_ordering groups lookup ordering ≡ ok tt
    → (g : ℕ) → count g ordering ≤ (if member g lookup then 0 else bit (contains g groups))
unfolding check_ordering
check_ordering-ok groups lookup [] e g = ground arith
check_ordering-ok groups lookup (x ∷ ordering) e g = elim (Bool-cases (contains x groups)) [
  | inr missing ↦ absurd (ground (arith, e, missing))
  | inl there ↦ elim (Bool-cases (member x lookup)) [
    | inl again ↦ absurd (ground (arith, e, there, again))
    | inr new ↦
        ground
          (arith, check_ordering-ok groups (x ∷ lookup) ordering (rest there new) g, there, new)
  ]
]
  where
    rest :
        contains x groups ≡ true
        → member x lookup ≡ false
        → check_ordering groups (x ∷ lookup) ordering ≡ ok tt
    rest there new = ground (arith, e, there, new)

check_ordering_complete :
    (groups : Groups) (lookup ordering : List ℕ)
    → ((g : ℕ) → count g ordering ≤ (if member g lookup then 0 else bit (contains g groups)))
    → check_ordering groups lookup ordering ≡ ok tt
unfolding check_ordering
check_ordering_complete groups lookup [] h = refl
check_ordering_complete groups lookup (x ∷ ordering) h =
    ground (arith, h x, check_ordering_complete groups (x ∷ lookup) ordering rest)
  where
    rest :
        (g : ℕ) → count g ordering ≤ (if member g (x ∷ lookup) then 0 else bit (contains g groups))
    rest g = ground (arith, h g)

module _ {owner : ℕ → Option ℕ} {groups : Groups} {ordering : List ℕ} where
  -- `setGroupsOrdering` accepts the reorderings of the present ordering,
  pub new_ordering_complete :
      (ordering' : List ℕ)
      → IsGrouping owner groups ordering
      → ((g : ℕ) → count g ordering' ≡ count g ordering)
      → new_ordering groups ordering ordering' ≡ ok ordering'
  unfolding new_ordering
  new_ordering_complete ordering' v same = ground (
    arith,
    length_eq_of_count ordering' ordering same,
    check_ordering_complete groups [] ordering' (λ g. ground (arith, same g, v.ordered g)),
  )

  -- and nothing else.
  pub new_ordering-ok :
      (ordering' result : List ℕ)
      → IsGrouping owner groups ordering
      → new_ordering groups ordering ordering' ≡ ok result
      → (result ≡ ordering') × ((g : ℕ) → count g ordering' ≡ count g ordering)
  unfolding new_ordering
  new_ordering-ok ordering' result v e = elim (Bool-cases (length ordering' == length ordering)) [
    | inr differ ↦ absurd (ground (arith, e, differ))
    | inl same ↦
        let checked : check_ordering groups [] ordering' ≡ ok tt = ground (arith, e, same) in
        (
          ground (arith, e, same, checked),
          count_eq_of_le ordering' ordering
              (λ g. ground (arith, check_ordering-ok groups [] ordering' checked g, v.ordered g))
              (ground (arith, same)),
        )
  ]
