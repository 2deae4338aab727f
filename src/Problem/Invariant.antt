-- ===== src/Problem/Invariant.antt =====
-- The containers of core/OptimizationProblem.cpp agree after any calls of its methods, also calls
-- that throw.
use aslam_incremental_calibr.Common.{
  ℕ, ◌≡◌, ◌≤◌, refl, sym, ◌∙◌, ap, true, false, List, [], ◌∷◌, ◌++◌, Option, none, some, member,
  count, ◌==◌, if◌then◌else◌, Dict, find, contains, insert, Distinct, Result, ok, err, arith, inl,
  inr, ltb, subst, Bool-cases, Result-cases, insert_new, find-put, put-Distinct, count-append,
  member-count,
}
use aslam_incremental_calibr.Permute.{permute}
use aslam_incremental_calibr.Permute.Contents.{count-permute}
use aslam_incremental_calibr.Groups.{group, new_ordering, IsGrouping}
use aslam_incremental_calibr.Groups.Change.{
  add-IsGrouping, permute-IsGrouping, reorder-IsGrouping, new_ordering-ok,
}
use aslam_incremental_calibr.Problem.{
  OptimizationProblem, empty, is_design_variable_in_problem, is_error_term_in_problem,
  is_group_in_problem, add_design_variable, set_groups_ordering, check_design_variables,
  add_error_term, permute_error_terms, permute_design_variables,
}

contains_new :
    (dv k x : ℕ) (m : Dict ℕ)
    → contains dv m ≡ false
    → find x (insert dv k m) ≡ (if dv == x then some k else find x m)
contains_new dv k x m new = rw (insert_new dv k m new) (find-put dv x k m)

module _ {Params : Type 0} (variables : ℕ → List ℕ) where
  pub record IsValid (p : OptimizationProblem Params) : Type 0 where
    -- The lookup structure, the groups and the ordering agree.
    pub grouping :
        IsGrouping (λ dv. find dv p.design_variables_lookup) p.design_variables p.groups_ordering
    pub distinct : Distinct p.design_variables_lookup
    -- The two containers of error terms hold the same, each error term once.
    pub terms_agree : (et : ℕ) → count et p.error_terms_lookup ≡ count et p.error_terms
    pub terms_once : (et : ℕ) → count et p.error_terms ≤ 1
    -- An error term of the problem is over design variables of the problem.
    pub terms_closed :
        (et dv : ℕ)
        → member et p.error_terms ≡ true
        → member dv (variables et) ≡ true
        → is_design_variable_in_problem p dv ≡ true

  pub empty-IsValid : IsValid empty
  unfolding find
  empty-IsValid = record {
    grouping = record { grouped = λ dv g. refl; ordered = λ g. refl; nonempty = λ g h. cc };
    distinct = λ k. refl;
    terms_agree = λ et. refl;
    terms_once = λ et. omega arith;
    terms_closed = λ et dv m n. cc;
  }

  pub add_design_variable-IsValid :
      (dv : Option ℕ) (g : ℕ) (p : OptimizationProblem Params)
      → IsValid p
      → IsValid (add_design_variable dv g p).1
  unfolding add_design_variable
  add_design_variable-IsValid none g p v = v
  add_design_variable-IsValid (some dv) g p v =
      elim (Bool-cases (is_design_variable_in_problem p dv)) [
        | inl old ↦ rw old v
        | inr new ↦
            let fresh : find dv p.design_variables_lookup ≡ none = ground (arith, new) in
            rw new (record {
              grouping =
                  add-IsGrouping dv g v.grouping fresh
                    (λ x. contains_new dv g x p.design_variables_lookup new);
              distinct =
                  rw (insert_new dv g p.design_variables_lookup new)
                    (put-Distinct dv g p.design_variables_lookup v.distinct);
              terms_agree = v.terms_agree;
              terms_once = v.terms_once;
              terms_closed = λ et x m n. ground (
                arith,
                v.terms_closed et x m n,
                contains_new dv g x p.design_variables_lookup new,
              );
            })
      ]

  -- What the loop of `addErrorTerm` has checked.
  check_design_variables-ok :
      (p : OptimizationProblem Params) (dvs : List ℕ)
      → check_design_variables p dvs ≡ ok tt
      → (dv : ℕ) → member dv dvs ≡ true
      → is_design_variable_in_problem p dv ≡ true
  unfolding check_design_variables
  check_design_variables-ok p [] e dv m = cc
  check_design_variables-ok p (x ∷ dvs) e dv m =
      elim (Bool-cases (is_design_variable_in_problem p x)) [
        | inr missing ↦ absurd (ground (arith, e, missing))
        | inl there ↦
            let rest : check_design_variables p dvs ≡ ok tt = ground (arith, e, there) in
            elim (Bool-cases (x == dv)) [
              | inl same ↦ let e' : x ≡ dv = ground arith in rw (← e') there
              | inr other ↦ check_design_variables-ok p dvs rest dv (ground (arith, m, other))
            ]
      ]

  pub add_error_term-IsValid :
      (et : Option ℕ) (p : OptimizationProblem Params)
      → IsValid p
      → IsValid (add_error_term variables et p).1
  unfolding add_error_term
  add_error_term-IsValid none p v = v
  add_error_term-IsValid (some et) p v = elim (Bool-cases (is_error_term_in_problem p et)) [
    | inl old ↦ rw old v
    | inr new ↦ elim (Result-cases (check_design_variables p (variables et))) [
      | inr (e, fails) ↦ rw (new, fails) v
      | inl (_, checked) ↦
          let absent : count et p.error_terms ≡ 0 =
            ground (arith, new, member-count et p.error_terms_lookup, v.terms_agree et) in
          rw (new, checked)
            (record {
              grouping = v.grouping;
              distinct = v.distinct;
              terms_agree =
                  λ x. ground (arith, v.terms_agree x, count-append x p.error_terms (et ∷ []));
              terms_once = λ x.
                  ground (arith, v.terms_once x, absent, count-append x p.error_terms (et ∷ []));
              terms_closed = λ x dv m n. elim (Bool-cases (et == x)) [
                | inl same ↦
                    let e' : et ≡ x = ground arith in
                    check_design_variables-ok p (variables et) checked dv
                      (subst (λ y. member dv (variables y) ≡ true) (sym e') n)
                | inr other ↦
                    v.terms_closed x dv
                      (ground (
                        arith,
                        m,
                        other,
                        member-count x p.error_terms,
                        member-count x (p.error_terms ++ et ∷ []),
                        count-append x p.error_terms (et ∷ []),
                      ))
                      n
              ];
            })
    ]
  ]

  pub set_groups_ordering-IsValid :
      (ordering : List ℕ) (p : OptimizationProblem Params)
      → IsValid p
      → IsValid (set_groups_ordering ordering p).1
  unfolding set_groups_ordering
  set_groups_ordering-IsValid ordering p v =
      cases (new_ordering p.design_variables p.groups_ordering ordering) refl
    where
      cases :
          (r : Result (List ℕ))
          → new_ordering p.design_variables p.groups_ordering ordering ≡ r
          → IsValid (set_groups_ordering ordering p).1
      cases (err e) h = rw (h, set_groups_ordering) v
      cases (ok result) h =
          let (same, counts) = new_ordering-ok ordering result v.grouping h in
          rw (h, set_groups_ordering)
            (record {
              grouping = reorder-IsGrouping result v.grouping (λ g. ap (count g) same ∙ counts g);
              distinct = v.distinct;
              terms_agree = v.terms_agree;
              terms_once = v.terms_once;
              terms_closed = v.terms_closed;
            })

  pub permute_error_terms-IsValid :
      (permutation : List ℕ) (p : OptimizationProblem Params)
      → IsValid p
      → IsValid (permute_error_terms permutation p).1
  unfolding permute_error_terms
  permute_error_terms-IsValid permutation p v =
      let kept = λ (x : ℕ). count-permute x permutation p.error_terms in
      record {
        grouping = v.grouping;
        distinct = v.distinct;
        terms_agree = λ x. v.terms_agree x ∙ sym (kept x);
        terms_once = λ x. omega (arith, v.terms_once x, kept x);
        terms_closed = λ x dv m n.
            v.terms_closed x dv
              (member-count x p.error_terms
                ∙ ap (ltb 0) (sym (kept x))
                ∙ sym (member-count x (permute permutation p.error_terms).1)
                ∙ m)
              n;
      }

  pub permute_design_variables-IsValid :
      (permutation : List ℕ) (g : ℕ) (p : OptimizationProblem Params)
      → IsValid p
      → IsValid (permute_design_variables permutation g p).1
  unfolding permute_design_variables
  permute_design_variables-IsValid permutation g p v = elim (Bool-cases (is_group_in_problem p g)) [
    | inr missing ↦ rw missing v
    | inl there ↦ rw there (record {
      grouping =
          permute-IsGrouping g (permute permutation (group p.design_variables g)).1 v.grouping there
            (λ x. count-permute x permutation (group p.design_variables g));
      distinct = v.distinct;
      terms_agree = v.terms_agree;
      terms_once = v.terms_once;
      terms_closed = v.terms_closed;
    })
  ]
