-- ===== src/Execution/Planner/Diversity.antt =====
-- Breadth before depth: the models of the proposers of src/mycellm/execution/planner.py.
use mathlib.Core.List.{append_assoc, append-nil, map-append}
use mycellm.Prelude.{
  ℕ, zero, suc, ◌-◌, ◌≡◌, refl, sym, ap, ◌∙◌, String, false, List, [], ◌∷◌, ◌++◌, map, take, arith,
  leb, length, length-append, All, Bool-cases, inl, inr, ◌==◌, eq_iff, if◌then◌else◌, is_nil,
}
use mycellm.Execution.Models.{Target, member}
use mycellm.Execution.Planner.Selection.{
  Groups, add_to_group, group_into, pick_round, pick_loop, pick_proposers,
}

-- The models of `ts` that are not in `seen`, each once, in the order in which they come up.
unfoldable pub new_models : List String → List Target → List String
unfolding member
new_models seen [] = []
new_models seen (t ∷ ts) =
    let skip = new_models seen ts in
    let keep = t.model ∷ new_models (seen ++ t.model ∷ []) ts in
    if member t.model seen then skip else keep

abbrev keys : Groups → List String
keys gs = map (λ g. g.0) gs

keys-add_to_group :
    (t : Target) (gs : Groups)
    → keys (add_to_group t gs)
      ≡ (if member t.model (keys gs) then keys gs else keys gs ++ t.model ∷ [])
unfolding add_to_group member
keys-add_to_group t [] = refl
keys-add_to_group t ((m, ts) ∷ gs) = ground (arith, keys-add_to_group t gs)

keys-group_into :
    (gs : Groups) (ts : List Target) → keys (group_into gs ts) ≡ keys gs ++ new_models (keys gs) ts
unfolding group_into new_models
keys-group_into gs [] = sym (append-nil (keys gs))
keys-group_into gs (t ∷ ts) = elim (Bool-cases (member t.model (keys gs))) [
  | inl e ↦
      let same : keys (add_to_group t gs) ≡ keys gs = keys-add_to_group t gs ∙ rw e in
      rw e (rw same at (keys-group_into (add_to_group t gs) ts))
  | inr e ↦
      let more : keys (add_to_group t gs) ≡ keys gs ++ t.model ∷ [] =
        keys-add_to_group t gs ∙ rw e in
      rw e (
        rw more at (keys-group_into (add_to_group t gs) ts)
        ∙ append_assoc (keys gs) (t.model ∷ []) (new_models (keys gs ++ t.model ∷ []) ts))
]

nil_snoc : (ts : List Target) (t : Target) → is_nil (ts ++ t ∷ []) ≡ false
nil_snoc [] t = refl
nil_snoc (x ∷ xs) t = refl

-- Each group is nonempty, and its targets have the model that it stands under.
abbrev IsGrouped : Groups → Type 0
IsGrouped gs = All (λ g. (is_nil g.1 ≡ false) × All (λ t. t.model ≡ g.0) g.1) gs

All-snoc :
    (m : String) (ts : List Target) (t : Target)
    → All (λ u. u.model ≡ m) ts
    → t.model ≡ m
    → All (λ u. u.model ≡ m) (ts ++ t ∷ [])
All-snoc m [] t h e = (e, tt)
All-snoc m (x ∷ xs) t h e = (h.0, All-snoc m xs t h.1 e)

add_to_group-IsGrouped : (t : Target) (gs : Groups) → IsGrouped gs → IsGrouped (add_to_group t gs)
unfolding add_to_group
add_to_group-IsGrouped t [] h = ((refl, (refl, tt)), tt)
add_to_group-IsGrouped t ((m, ts) ∷ gs) h = elim (Bool-cases (m == t.model)) [
  | inl e ↦ rw e ((nil_snoc ts t, All-snoc m ts t h.0.1 (sym ((eq_iff m t.model).0 e))), h.1)
  | inr e ↦ rw e (h.0, add_to_group-IsGrouped t gs h.1)
]

group_into-IsGrouped :
    (gs : Groups) (ts : List Target) → IsGrouped gs → IsGrouped (group_into gs ts)
unfolding group_into
group_into-IsGrouped gs [] h = h
group_into-IsGrouped gs (t ∷ ts) h =
    group_into-IsGrouped (add_to_group t gs) ts (add_to_group-IsGrouped t gs h)

take-nil : (n : ℕ) → take {A = String} n [] ≡ []
take-nil zero = refl
take-nil (suc n) = refl

-- The first pass takes one target of each model, in the order of the models.
models-pick_round :
    (want : ℕ) (picked : List Target) (gs : Groups)
    → IsGrouped gs
    → map (λ t. t.model) (pick_round want picked gs).picked
      ≡ map (λ t. t.model) picked ++ take (want - length picked) (keys gs)
unfolding pick_round
models-pick_round want picked [] h =
    rw (take-nil (want - length picked)) (sym (append-nil (map (λ t. t.model) picked)))
models-pick_round want picked ((m, []) ∷ gs) h = absurd (cc)
models-pick_round want picked ((m, t ∷ ts) ∷ gs) h = elim (Bool-cases (leb want (length picked))) [
  | inl e ↦
      let full : want - length picked ≡ 0 = ground arith in
      rw (e, full) (sym (append-nil (map (λ u. u.model) picked)))
  | inr e ↦
      let room : want - length picked ≡ suc (want - length (picked ++ t ∷ [])) =
        ground (arith, length-append picked (t ∷ [])) in
      rw (e, room)
        (models-pick_round want (picked ++ t ∷ []) gs h.1
          ∙ model_moves (take (want - length (picked ++ t ∷ [])) (keys gs)))
]
  where
    model_moves :
        (ms : List String)
        → map (λ u. u.model) (picked ++ t ∷ []) ++ ms ≡ map (λ u. u.model) picked ++ m ∷ ms
    model_moves ms = simp (map-append, append_assoc, h.0.1.0)

pick_round_extends :
    (want : ℕ) (picked : List Target) (gs : Groups)
    → (rest : List Target) × ((pick_round want picked gs).picked ≡ picked ++ rest)
unfolding pick_round
pick_round_extends want picked [] = ([], sym (append-nil picked))
pick_round_extends want picked ((m, []) ∷ gs) = pick_round_extends want picked gs
pick_round_extends want picked ((m, t ∷ ts) ∷ gs) = elim (Bool-cases (leb want (length picked))) [
  | inl e ↦ ([], rw e (sym (append-nil picked)))
  | inr e ↦
      let (rest, h) = pick_round_extends want (picked ++ t ∷ []) gs in
      (t ∷ rest, rw e (h ∙ append_assoc picked (t ∷ []) rest))
]

pick_loop_extends :
    (fuel want : ℕ) (picked : List Target) (gs : Groups)
    → (rest : List Target) × (pick_loop fuel want picked gs ≡ picked ++ rest)
unfolding pick_loop
pick_loop_extends zero want picked gs = ([], sym (append-nil picked))
pick_loop_extends (suc fuel) want picked gs = elim (Bool-cases (leb want (length picked))) [
  | inl e ↦ ([], rw e (sym (append-nil picked)))
  | inr e ↦
      let pass = pick_round want picked gs in
      let (first, h) = pick_round_extends want picked gs in
      elim (Bool-cases pass.added) [
        | inl a ↦
            let (rest, k) = pick_loop_extends fuel want pass.picked pass.left in
            (first ++ rest, rw (e, a) (k ∙ ap (λ l. l ++ rest) h ∙ append_assoc picked first rest))
        | inr a ↦ (first, rw (e, a) h)
      ]
]

-- The loop starts with a whole pass.
pick_loop_starts :
    (n : ℕ) (gs : Groups)
    → (rest : List Target) × (pick_loop (suc n) (suc n) [] gs
        ≡ (pick_round (suc n) [] gs).picked ++ rest)
unfolding pick_loop
pick_loop_starts n gs =
    let pass = pick_round (suc n) [] gs in
    let open_ended : leb (suc n) (length {A = Target} []) ≡ false = ground arith in
    elim (Bool-cases pass.added) [
      | inl a ↦
          let (rest, k) = pick_loop_extends n (suc n) pass.picked pass.left in
          (rest, rw (open_ended, a) k)
      | inr a ↦ ([], rw (open_ended, a) (sym (append-nil pass.picked)))
    ]

-- Each model proposes once before any proposes again: the first proposers are one target for each
-- model, in the order in which the models come up among the eligible targets, up to the number
-- that is wanted.
pub models-pick_proposers :
    (eligible : List Target) (want : ℕ)
    → (rest : List String) × (map (λ t. t.model) (pick_proposers eligible want)
        ≡ take want (new_models [] eligible) ++ rest)
unfolding pick_proposers
models-pick_proposers eligible zero = ([], unfold pick_loop in refl)
models-pick_proposers eligible (suc n) =
    let gs = group_into [] eligible in
    let (rest, k) = pick_loop_starts n gs in
    let room : suc n - length {A = Target} [] ≡ suc n = omega arith in
    let first : map (λ t. t.model) (pick_round (suc n) [] gs).picked
        ≡ take (suc n) (new_models [] eligible) =
      models-pick_round (suc n) [] gs (group_into-IsGrouped [] eligible tt)
      ∙ rw (room, keys-group_into [] eligible) refl in
    (
      map (λ t. t.model) rest,
      ap (map (λ t. t.model)) k
          ∙ (map-append (λ t. t.model) (pick_round (suc n) [] gs).picked rest
              ∙ ap (λ ms. ms ++ map (λ t. t.model) rest) first),
    )
