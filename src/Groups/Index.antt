-- ===== src/Groups/Index.antt =====
-- Indexing: where the three containers agree, an index below the number of design variables finds
-- the one at its place in the order of the groups.
use aslam_incremental_calibr.Common.{
  ℕ, ◌+◌, ◌-◌, ◌≤◌, ◌<◌, ◌≡◌, refl, sym, ◌∙◌, ap, true, false, List, [], ◌∷◌, Option, none, some,
  inl, inr, length, get_elem?, member, count, bit, leb, ltb, is_some, arith, find, contains,
  out_of_bound, undefined_behaviour, ◌>>=◌, or_throw, count-append, member-count, length-append,
  get_elem?-append_left, get_elem?-append_right, get_elem?-lt, get_elem?-ge, Bool-cases,
  Option-cases,
}
use aslam_incremental_calibr.Groups.{
  Groups, group, locate_from, locate, element, design_variable_at, flat, names, IsGrouping,
}

-- Each group of an ordering exists.
abbrev pub AllGroups : Groups → List ℕ → Type 0
AllGroups groups [] = Unit {0}
AllGroups groups (g ∷ ordering) = (contains g groups ≡ true) × AllGroups groups ordering

pub AllGroups-of_member :
    (groups : Groups) (ordering : List ℕ)
    → ((g : ℕ) → member g ordering ≡ true → contains g groups ≡ true)
    → AllGroups groups ordering
AllGroups-of_member groups [] h = tt
AllGroups-of_member groups (g ∷ ordering) h =
    (h g (ground arith), AllGroups-of_member groups ordering (λ g' m. h g' (ground arith)))

pub group_of_find :
    (groups : Groups) (g : ℕ) → contains g groups ≡ true → find g groups ≡ some (group groups g)
group_of_find groups g h = ground arith

pub locate_from-flat :
    (groups : Groups) (ordering : List ℕ) (idx running : ℕ)
    → AllGroups groups ordering
    → running ≤ idx
    → idx < running + length (flat groups ordering)
    → (locate_from groups ordering idx running >>= element groups)
      ≡ or_throw (get_elem? (flat groups ordering) (idx - running)) undefined_behaviour
unfolding locate_from flat element
locate_from-flat groups [] idx running all le lt = absurd (omega arith)
locate_from-flat groups (g ∷ ordering) idx running all le lt =
    elim (Bool-cases (ltb idx (running + length dvs))) [
      | inl inside ↦
          rw (found, locate_from, inside, found, element)
            (ap (λ o. or_throw o undefined_behaviour)
              (sym
                (get_elem?-append_left dvs (flat groups ordering) (idx - running) (ground arith))))
      | inr beyond ↦
          rw (found, locate_from, beyond)
            (locate_from-flat groups ordering idx (running + length dvs) all.1 (ground arith)
                (omega (arith, length-append dvs (flat groups ordering)))
              ∙ ap (λ o. or_throw o undefined_behaviour)
                  (ap (get_elem? (flat groups ordering)) shifted
                    ∙ sym (
                        get_elem?-append_right dvs (flat groups ordering) (idx - running)
                          (ground arith))))
    ]
  where
    dvs : List ℕ
    dvs = group groups g

    found : find g groups ≡ some dvs
    found = group_of_find groups g all.0

    shifted : idx - (running + length dvs) ≡ idx - running - length dvs
    shifted = omega arith

count-flat_owned :
    (groups : Groups) (o : Option ℕ) (dv : ℕ) (ordering : List ℕ)
    → ((g : ℕ) → count dv (group groups g) ≡ bit (names o g))
    → count dv (flat groups ordering) ≡ (elim o [ none ↦ 0 | some h ↦ count h ordering ])
unfolding flat
count-flat_owned groups none dv [] h = refl
count-flat_owned groups (some g) dv [] h = refl
count-flat_owned groups none dv (g ∷ ordering) h = omega (
  arith,
  count-append dv (group groups g) (flat groups ordering),
  count-flat_owned groups none dv ordering h,
  h g,
)
count-flat_owned groups (some k) dv (g ∷ ordering) h = ground (
  arith,
  count-append dv (group groups g) (flat groups ordering),
  count-flat_owned groups (some k) dv ordering h,
  h g,
)

module _ {owner : ℕ → Option ℕ} {groups : Groups} {ordering : List ℕ} where
  -- The group that an owner names exists.
  pub owner-contains :
      IsGrouping owner groups ordering → (dv h : ℕ) → owner dv ≡ some h → contains h groups ≡ true
  owner-contains v dv h e = ground (arith, v.grouped dv h, e)

  -- The design variables with an owner are those that the indices run over, each once.
  pub count-flat :
      IsGrouping owner groups ordering
      → (dv : ℕ) → count dv (flat groups ordering) ≡ bit (is_some (owner dv))
  count-flat v dv = elim (Option-cases (owner dv)) [
    | inl e ↦ ground (arith, count-flat_owned groups (owner dv) dv ordering (v.grouped dv), e)
    | inr (h, e) ↦ ground (
      arith,
      count-flat_owned groups (owner dv) dv ordering (v.grouped dv),
      e,
      v.ordered h,
      owner-contains v dv h e,
    )
  ]

  pub IsGrouping-AllGroups : IsGrouping owner groups ordering → AllGroups groups ordering
  IsGrouping-AllGroups v =
      AllGroups-of_member groups ordering
        (λ g m. ground (arith, v.ordered g, member-count g ordering, m))

  pub design_variable_at-flat :
      (size idx : ℕ)
      → IsGrouping owner groups ordering
      → length (flat groups ordering) ≡ size
      → design_variable_at groups ordering size idx
        ≡ or_throw (get_elem? (flat groups ordering) idx) (out_of_bound idx)
  unfolding design_variable_at locate
  design_variable_at-flat size idx v sized = elim (Bool-cases (leb size idx)) [
    | inl out ↦ rw (out, get_elem?-ge (flat groups ordering) idx (ground arith))
    | inr inside ↦
        let (dv, e) = get_elem?-lt (flat groups ordering) idx (ground arith) in
        rw (inside, e)
          (locate_from-flat groups ordering idx 0 (IsGrouping-AllGroups v) (omega arith)
              (omega (arith, ground_lt size idx inside))
            ∙ ap (λ o. or_throw o undefined_behaviour)
                (ap (get_elem? (flat groups ordering)) (omega arith) ∙ e))
  ]
    where
      ground_lt : (n i : ℕ) → leb n i ≡ false → i < n
      ground_lt n i h = ground arith
