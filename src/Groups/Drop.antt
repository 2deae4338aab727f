-- ===== src/Groups/Drop.antt =====
-- A design variable that leaves its group, as the two problem classes remove it, keeps the three
-- containers in agreement.
use aslam_incremental_calibr.Common.{
  ℕ, ◌+◌, ◌≡◌, true, List, Option, none, some, inl, inr, member, count, ◌==◌, if◌then◌else◌, arith,
  remove, put, erase, contains, ok, find-put, Distinct, put-Distinct, erase-Distinct, member-count,
  count-remove, Bool-cases,
}
use aslam_incremental_calibr.Groups.{Groups, group, IsGrouping, is_empty, drop_variable}
use aslam_incremental_calibr.Groups.Change.{group-put, find-erase-put, count-is_empty}

module _ {owner owner' : ℕ → Option ℕ} {groups : Groups} {ordering : List ℕ} (dv k : ℕ) where
  -- A design variable without an owner any more: it is found, so nothing is undefined.
  pub drop-IsGrouping :
      IsGrouping owner groups ordering
      → owner dv ≡ some k
      → ((x : ℕ) → owner' x ≡ (if dv == x then none else owner x))
      → (groups' : Groups) × (ordering' : List ℕ) × (drop_variable dv k groups ordering
          ≡ ok (groups', ordering'))
        × IsGrouping owner' groups' ordering'
  unfolding drop_variable
  drop-IsGrouping v e gone = elim (Bool-cases (is_empty left)) [
    | inr some_left ↦ (
      put k left groups,
      ordering,
      ground (arith, here, some_left),
      record {
        grouped =
            λ x g. ground (arith, v.grouped x g, gone x, e, group-put groups k g left, taken x);
        ordered = λ g. ground (arith, v.ordered g, find-put k g left groups, there);
        nonempty = λ g h. ground (arith, v.nonempty g, find-put k g left groups, some_left);
      },
    )
    | inl none_left ↦ (
      erase k (put k left groups),
      remove k ordering,
      ground (arith, here, none_left, listed),
      record {
        grouped = λ x g. ground (
          arith,
          v.grouped x g,
          gone x,
          e,
          find-erase-put groups k g left,
          taken x,
          count-is_empty x left none_left,
        );
        ordered = λ g. ground (
          arith,
          v.ordered g,
          v.ordered k,
          find-erase-put groups k g left,
          there,
          count-remove g k ordering listed,
        );
        nonempty = λ g h. ground (arith, v.nonempty g, find-erase-put groups k g left);
      },
    )
  ]
    where
      left : List ℕ
      left = remove dv (group groups k)

      here : member dv (group groups k) ≡ true
      here = ground (arith, v.grouped dv k, e, member-count dv (group groups k))

      there : contains k groups ≡ true
      there = ground (arith, v.grouped dv k, e)

      listed : member k ordering ≡ true
      listed = ground (arith, v.ordered k, there, member-count k ordering)

      taken : (x : ℕ) → count x left + (if dv == x then 1 else 0) ≡ count x (group groups k)
      taken x = count-remove x dv (group groups k) here

pub drop-Distinct :
    (dv k : ℕ) (groups : Groups) (ordering : List ℕ) (groups' : Groups) (ordering' : List ℕ)
    → Distinct groups
    → drop_variable dv k groups ordering ≡ ok (groups', ordering')
    → Distinct groups'
unfolding drop_variable
drop-Distinct dv k groups ordering groups' ordering' d e =
    elim (Bool-cases (member dv (group groups k))) [
      | inr missing ↦ absurd (ground (arith, e, missing))
      | inl here ↦ elim (Bool-cases (is_empty left)) [
        | inr some_left ↦
            let same : groups' ≡ put k left groups = ground (arith, e, here, some_left) in
            rw same (put-Distinct k left groups d)
        | inl none_left ↦ elim (Bool-cases (member k ordering)) [
          | inr unlisted ↦ absurd (ground (arith, e, here, none_left, unlisted))
          | inl listed ↦
              let same : groups' ≡ erase k (put k left groups) =
                ground (arith, e, here, none_left, listed) in
              rw same (erase-Distinct k (put k left groups) (put-Distinct k left groups d))
        ]
      ]
    ]
  where
    left : List ℕ
    left = remove dv (group groups k)
