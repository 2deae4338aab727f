-- ===== src/Groups.antt =====
-- Design variables in groups with an order among the groups: the part that core/OptimizationProblem
-- and core/IncrementalOptimizationProblem (under incremental_calibration/src and include) have in
-- common. Design variables are pointers and groups have ids: both are numbers here.
pub mod Index
pub mod Change
pub mod Drop
use aslam_incremental_calibr.Common.{
  ℕ, zero, suc, ◌+◌, ◌-◌, ◌≤◌, ◌<◌, ◌≡◌, Bool, true, false, not, List, [], ◌∷◌, ◌++◌, Option, none,
  some, length, get_elem?, member, count, bit, remove, leb, ltb, ◌==◌, if◌then◌else◌, or_else,
  is_some, Dict, find, contains, put, erase, Result, ok, err, Exception, out_of_bound, out_of_range,
  undefined_behaviour, ◌>>=◌, ◌>>◌, or_throw, throw_if,
}

-- Groups of design variables: std::unordered_map<size_t, vector of pointers>.
abbrev pub Groups : Type 0
Groups = Dict (List ℕ)

-- A group's design variables, none where the group is missing: what `operator[]` would give.
abbrev pub group : Groups → ℕ → List ℕ
group groups g = or_else (find g groups) []

-- Loop of `setGroupsOrdering`; `lookup` holds the groups seen.
unfoldable pub check_ordering : Groups → List ℕ → List ℕ → Result (Unit {0})
check_ordering groups lookup [] = ok tt
check_ordering groups lookup (g ∷ ordering) =
    let rest = check_ordering groups (g ∷ lookup) ordering in
    if not (contains g groups)
    then err (out_of_bound g)
    else if member g lookup
    then err (out_of_bound g)
    else rest

-- `setGroupsOrdering`: the ordering that it stores.
unfoldable pub new_ordering : Groups → List ℕ → List ℕ → Result (List ℕ)
unfolding check_ordering
new_ordering groups old ordering =
    if not (length ordering == length old)
    then err (out_of_bound (length ordering))
    else check_ordering groups [] ordering >> ok ordering

-- Loop of `getGroupId(idx, groupId, idxGroup)`, from the groups that are left and `idxRunning`. At
-- its end, with no group found, `groupIdRunning` is 0.
unfoldable pub locate_from : Groups → List ℕ → ℕ → ℕ → Result (ℕ × ℕ)
locate_from groups [] idx running = ok (0, idx - running)
locate_from groups (g ∷ ordering) idx running = elim (find g groups) [
  | none ↦ err out_of_range
  | some design_variables ↦
      let rest = locate_from groups ordering idx (running + length design_variables) in
      if ltb idx (running + length design_variables) then ok (g, idx - running) else rest
]

-- `getGroupId(idx, groupId, idxGroup)`; `size` is the size of the lookup structure.
unfoldable pub locate : Groups → List ℕ → ℕ → ℕ → Result (ℕ × ℕ)
unfolding locate_from
locate groups ordering size idx =
    if leb size idx then err (out_of_bound idx) else locate_from groups ordering idx 0

-- `_designVariables.at(groupId)[idxGroup]`
unfoldable pub element : Groups → ℕ × ℕ → Result ℕ
element groups (g, i) = do
  design_variables ← or_throw (find g groups) out_of_range
  or_throw (get_elem? design_variables i) undefined_behaviour

-- `designVariableImplementation`
unfoldable pub design_variable_at : Groups → List ℕ → ℕ → ℕ → Result ℕ
unfolding locate element
design_variable_at groups ordering size idx = do
  place ← locate groups ordering size idx
  element groups place

-- Loop of `getGroupDim`.
unfoldable pub sum_dims : (ℕ → Bool) → (ℕ → ℕ) → List ℕ → ℕ
sum_dims is_active minimal_dimensions [] = 0
sum_dims is_active minimal_dimensions (dv ∷ dvs) =
    (if is_active dv then minimal_dimensions dv else 0) + sum_dims is_active minimal_dimensions dvs

-- The design variables in the order of the groups: what the indices run over.
unfoldable pub flat : Groups → List ℕ → List ℕ
flat groups [] = []
flat groups (g ∷ ordering) = group groups g ++ flat groups ordering

-- The group that an owner names is this one.
abbrev pub names : Option ℕ → ℕ → Bool
names none g = false
names (some h) g = h == g

-- The three containers agree: `owner` gives the group of each design variable in the problem, the
-- groups hold each of theirs once and nothing else, and the ordering holds each group once.
pub record IsGrouping (owner : ℕ → Option ℕ) (groups : Groups) (ordering : List ℕ) : Type 0 where
  pub grouped : (dv g : ℕ) → count dv (group groups g) ≡ bit (names (owner dv) g)
  pub ordered : (g : ℕ) → count g ordering ≡ bit (contains g groups)
  pub nonempty : (g : ℕ) → contains g groups ≡ true → 0 < length (group groups g)

abbrev is_empty : List ℕ → Bool
is_empty [] = true
is_empty (x ∷ xs) = false

-- In the loop of IncrementalOptimizationProblem's `remove`: a design variable leaves its group, and
-- a group that is empty then leaves with its place in the ordering. To erase at the end iterator,
-- which `std::find` gives for what it does not find, is undefined.
unfoldable pub drop_variable : ℕ → ℕ → Groups → List ℕ → Result (Groups × List ℕ)
drop_variable dv k groups ordering =
    let left = remove dv (group groups k) in
    if not (member dv (group groups k))
    then err undefined_behaviour
    else if not (is_empty left)
    then ok (put k left groups, ordering)
    else if member k ordering
    then ok (erase k (put k left groups), remove k ordering)
    else err undefined_behaviour
