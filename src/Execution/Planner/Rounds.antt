-- ===== src/Execution/Planner/Rounds.antt =====
-- The round-robin selection of src/mycellm/execution/planner.py: how many targets it picks, from
-- where, and in which order of models.
use mycellm.Prelude.{
  ℕ, zero, suc, ◌+◌, ◌≤◌, ◌<◌, min, ◌≡◌, true, false, List, [], ◌∷◌, ◌++◌, arith, length,
  length-append, sum_of, All,
}
use mycellm.Execution.Models.{Target}
use mycellm.Execution.Planner.Selection.{
  Groups, Pass, add_to_group, group_into, pick_round, pick_loop, pick_proposers,
}

-- How many targets the groups hold.
abbrev pub total : Groups → ℕ
total gs = sum_of (λ g. length g.1) gs

abbrev AllGroups {κ} : (Target → Type κ) → Groups → Type κ
AllGroups P gs = All (λ g. All P g.1) gs

total-add_to_group : (t : Target) (gs : Groups) → total (add_to_group t gs) ≡ suc (total gs)
unfolding add_to_group
total-add_to_group t [] = omega arith
total-add_to_group t ((m, ts) ∷ gs) =
    ground (arith, length-append ts (t ∷ []), total-add_to_group t gs)

total-group_into :
    (gs : Groups) (ts : List Target) → total (group_into gs ts) ≡ total gs + length ts
unfolding group_into
total-group_into gs [] = omega arith
total-group_into gs (t ∷ ts) =
    omega (arith, total-group_into (add_to_group t gs) ts, total-add_to_group t gs)

-- What a pass does to the counts.
record IsPass (want : ℕ) (picked : List Target) (gs : Groups) (p : Pass) : Type 0 where
  kept : length p.picked + total p.left ≡ length picked + total gs
  bounded : length picked ≤ want → length p.picked ≤ want
  grows : p.added ≡ true → length picked < length p.picked
  ends : p.added ≡ false → length picked < want → total gs ≡ 0
  mono : length picked ≤ length p.picked

pick_round-IsPass :
    (want : ℕ) (picked : List Target) (gs : Groups)
    → IsPass want picked gs (pick_round want picked gs)
unfolding pick_round
pick_round-IsPass want picked [] = ground arith
pick_round-IsPass want picked ((m, []) ∷ gs) = ground (arith, pick_round-IsPass want picked gs)
pick_round-IsPass want picked ((m, t ∷ ts) ∷ gs) =
    ground (arith, pick_round-IsPass want (picked ++ t ∷ []) gs, length-append picked (t ∷ []))

-- With fuel for a pick in each pass the loop stops at `want` targets, or when none is left.
length-pick_loop :
    (fuel want : ℕ) (picked : List Target) (gs : Groups)
    → want ≤ fuel + length picked
    → length picked ≤ want
    → length (pick_loop fuel want picked gs) ≡ min want (length picked + total gs)
unfolding pick_loop
length-pick_loop zero want picked gs h k = omega arith
length-pick_loop (suc fuel) want picked gs h k =
    let pass = pick_round want picked gs in
    ground
      (arith, pick_round-IsPass want picked gs, length-pick_loop fuel want pass.picked pass.left)

-- The swarm gets as many proposers as it wants, or every target if there are fewer.
pub length-pick_proposers :
    (eligible : List Target) (want : ℕ)
    → length (pick_proposers eligible want) ≡ min want (length eligible)
unfolding pick_proposers
length-pick_proposers eligible want = omega (
  arith,
  length-pick_loop want want [] (group_into [] eligible) (omega arith) (omega arith),
  total-group_into [] eligible,
)
