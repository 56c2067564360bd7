-- ===== src/Execution/Planner/Selection.antt =====
-- `_pick_proposers` and `_pick_synthesizer` of src/mycellm/execution/planner.py.
use mycellm.Prelude.{
  ℕ, zero, suc, String, Bool, true, false, ◌&&◌, ◌||◌, Option, none, some, List, [], ◌∷◌, ◌++◌,
  ◌==◌, ltb, leb, eqb, negb, all, any, filter, length, if◌then◌else◌,
}
use mycellm.Prelude.Sort.{max_from}
use mycellm.Execution.Models.{Target, is_remote, target_eq}

-- `by_model`: the targets of each model, in the order in which the models came up.
abbrev pub Groups : Type 0
Groups = List (String × List Target)

-- `by_model.setdefault(t.model, []).append(t)`
unfoldable pub add_to_group : Target → Groups → Groups
add_to_group t [] = (t.model, t ∷ []) ∷ []
add_to_group t ((m, ts) ∷ gs) =
    if m == t.model then (m, ts ++ t ∷ []) ∷ gs else (m, ts) ∷ add_to_group t gs

unfoldable pub group_into : Groups → List Target → Groups
unfolding add_to_group
group_into gs [] = gs
group_into gs (t ∷ ts) = group_into (add_to_group t gs) ts

-- What one pass over the models leaves: the picks, what is left of each model, and `added`.
pub record Pass : Type 0 where
  pub picked : List Target
  pub left : Groups
  pub added : Bool

-- One pass of the `for` loop: one target from each model that has any, until `want` are picked.
unfoldable pub pick_round : ℕ → List Target → Groups → Pass
pick_round want picked [] = record { picked = picked; left = []; added = false }
pick_round want picked ((m, []) ∷ gs) =
    let rest = pick_round want picked gs in record rest { left = (m, []) ∷ rest.left }
pick_round want picked ((m, t ∷ ts) ∷ gs) =
    let rest = pick_round want (picked ++ t ∷ []) gs in
    if leb want (length picked)
    then record { picked = picked; left = (m, t ∷ ts) ∷ gs; added = false }
    else record rest { left = (m, ts) ∷ rest.left; added = true }

-- The `while` loop. Each pass that goes on picks a target, so `want` passes are enough.
unfoldable pub pick_loop : ℕ → ℕ → List Target → Groups → List Target
unfolding pick_round
pick_loop zero want picked gs = picked
pick_loop (suc fuel) want picked gs =
    let pass = pick_round want picked gs in
    let rest = pick_loop fuel want pass.picked pass.left in
    if leb want (length picked) then picked else if pass.added then rest else pass.picked

unfoldable pub pick_proposers : List Target → ℕ → List Target
unfolding pick_loop group_into
pick_proposers eligible want = pick_loop want want [] (group_into [] eligible)

-- `max(targets, key=…)`; `none` is the ValueError of an empty list.
unfoldable pub max_of : (Target → Target → Bool) → List Target → Option Target
unfolding max_from
max_of better [] = none
max_of better (t ∷ ts) = some (max_from better t ts)

-- `better y x`: the key of `y` is greater.
unfoldable pub faster : Target → Target → Bool
faster y x = ltb x.tok_s y.tok_s

unfoldable pub stronger : Target → Target → Bool
stronger y x = ltb x.params_b y.params_b || (eqb x.params_b y.params_b && ltb x.tok_s y.tok_s)

-- `a or b` of lists.
abbrev pub or_list : List Target → List Target → List Target
or_list [] b = b
or_list (x ∷ xs) b = x ∷ xs

-- `[t for t in eligible if t in proposers] or eligible`
unfoldable pub proven_pool : List Target → List Target → List Target
unfolding target_eq
proven_pool eligible chosen = or_list (filter (λ t. any (target_eq t) chosen) eligible) eligible

abbrev pub local_of : List Target → List Target
local_of ts = filter (λ t. negb (is_remote t)) ts

unfoldable pub strongest : List Target → List Target → Option Target
unfolding max_of stronger proven_pool
strongest eligible chosen = max_of stronger (proven_pool eligible chosen)

-- The fastest local target, if there is one.
unfoldable pub fastest_or : List Target → Option Target → Option Target
unfolding max_of faster
fastest_or [] other = other
fastest_or (t ∷ ts) other = max_of faster (t ∷ ts)

unfoldable pub pick_synthesizer : List Target → List Target → Option Target
unfolding strongest fastest_or
pick_synthesizer eligible chosen =
    if all (λ t. negb (is_remote t)) chosen
    then fastest_or (local_of eligible) (strongest eligible chosen)
    else strongest eligible chosen
