-- ===== src/Execution/Planner/Draw.antt =====
-- The proposers of src/mycellm/execution/planner.py are drawn from the eligible targets.
use mathlib.Core.List.{append_assoc, append-nil, Perm, perm_middle}
use mathlib.Core.List.Perm
use mycellm.Prelude.{
  ℕ, zero, suc, List, [], ◌∷◌, ◌++◌, All, All-append, Bool-cases, inl, inr, ◌==◌, leb, length,
}
use mycellm.Execution.Models.{Target}
use mycellm.Execution.Planner.Selection.{
  Groups, add_to_group, group_into, pick_round, pick_loop, pick_proposers,
}

abbrev flat : Groups → List Target
flat [] = []
flat ((m, ts) ∷ gs) = ts ++ flat gs

flat-add_to_group : (t : Target) (gs : Groups) → Perm (flat (add_to_group t gs)) (t ∷ flat gs)
unfolding add_to_group
flat-add_to_group t [] = Perm.refl (t ∷ [])
flat-add_to_group t ((m, ts) ∷ gs) = elim (Bool-cases (m == t.model)) [
  | inl e ↦ rw (e, append_assoc) (perm_middle ts (flat gs))
  | inr e ↦
      rw e (Perm.trans (Perm.append_left ts (flat-add_to_group t gs)) (perm_middle ts (flat gs)))
]

flat-group_into : (gs : Groups) (ts : List Target) → Perm (flat (group_into gs ts)) (flat gs ++ ts)
unfolding group_into
flat-group_into gs [] = rw append-nil (Perm.refl (flat gs))
flat-group_into gs (t ∷ ts) = Perm.trans (flat-group_into (add_to_group t gs) ts) (
    Perm.trans (Perm.append_right ts (flat-add_to_group t gs))
      (Perm.symm (perm_middle (flat gs) ts)))

-- A block moves to the front.
perm_block : (ys ts bs : List Target) → Perm (ys ++ (ts ++ bs)) (ts ++ (ys ++ bs))
perm_block ys [] bs = Perm.refl (ys ++ bs)
perm_block ys (t ∷ ts) bs =
    Perm.trans (perm_middle ys (ts ++ bs)) (Perm.cons t (perm_block ys ts bs))

flat-pick_round :
    (want : ℕ) (picked : List Target) (gs : Groups)
    → Perm
        ((pick_round want picked gs).picked ++ flat (pick_round want picked gs).left)
        (picked ++ flat gs)
unfolding pick_round
flat-pick_round want picked [] = Perm.refl (picked ++ [])
flat-pick_round want picked ((m, []) ∷ gs) = flat-pick_round want picked gs
flat-pick_round want picked ((m, t ∷ ts) ∷ gs) = elim (Bool-cases (leb want (length picked))) [
  | inl e ↦ rw e (Perm.refl (picked ++ t ∷ (ts ++ flat gs)))
  | inr e ↦
      let rest = pick_round want (picked ++ t ∷ []) gs in
      let ih = flat-pick_round want (picked ++ t ∷ []) gs in
      rw e (
        Perm.trans (perm_block rest.picked ts (flat rest.left)) (
          Perm.trans (Perm.append_left ts ih) (
            Perm.trans (Perm.symm (perm_block (picked ++ t ∷ []) ts (flat gs)))
              (rw append_assoc (Perm.refl (picked ++ t ∷ (ts ++ flat gs)))))))
]

-- What the selection leaves out.
pick_loop-perm :
    (fuel want : ℕ) (picked : List Target) (gs : Groups)
    → (rest : List Target) × Perm (pick_loop fuel want picked gs ++ rest) (picked ++ flat gs)
unfolding pick_loop
pick_loop-perm zero want picked gs = (flat gs, Perm.refl (picked ++ flat gs))
pick_loop-perm (suc fuel) want picked gs = elim (Bool-cases (leb want (length picked))) [
  | inl e ↦ (flat gs, rw e (Perm.refl (picked ++ flat gs)))
  | inr e ↦
      let pass = pick_round want picked gs in
      let step = flat-pick_round want picked gs in
      elim (Bool-cases pass.added) [
        | inl a ↦
            let (rest, ih) = pick_loop-perm fuel want pass.picked pass.left in
            (rest, rw (e, a) (Perm.trans ih step))
        | inr a ↦ (flat pass.left, rw (e, a) step)
      ]
]

-- No target proposes more often than it was offered: with the targets that are left out, the
-- proposers are the eligible targets in another order.
pub pick_proposers-perm :
    (eligible : List Target) (want : ℕ)
    → (rest : List Target) × Perm (pick_proposers eligible want ++ rest) eligible
unfolding pick_proposers
pick_proposers-perm eligible want =
    let (rest, h) = pick_loop-perm want want [] (group_into [] eligible) in
    (rest, Perm.trans h (flat-group_into [] eligible))

-- A property of every eligible target holds of every proposer.
module _ {κ} (P : Target → Type κ) where
  abbrev AllGroups : Groups → Type κ
  AllGroups gs = All (λ g. All P g.1) gs

  AllGroups-add_to_group :
      (t : Target) (gs : Groups) → P t → AllGroups gs → AllGroups (add_to_group t gs)
  unfolding add_to_group
  AllGroups-add_to_group t [] pt h = ((pt, tt), tt)
  AllGroups-add_to_group t ((m, ts) ∷ gs) pt h = elim (Bool-cases (m == t.model)) [
    | inl e ↦ rw e (All-append P ts (t ∷ []) h.0 (pt, tt), h.1)
    | inr e ↦ rw e (h.0, AllGroups-add_to_group t gs pt h.1)
  ]

  AllGroups-group_into :
      (gs : Groups) (ts : List Target) → AllGroups gs → All P ts → AllGroups (group_into gs ts)
  unfolding group_into
  AllGroups-group_into gs [] h k = h
  AllGroups-group_into gs (t ∷ ts) h k =
      AllGroups-group_into (add_to_group t gs) ts (AllGroups-add_to_group t gs k.0 h) k.1

  AllGroups-pick_round :
      (want : ℕ) (picked : List Target) (gs : Groups)
      → All P picked
      → AllGroups gs
      → All P (pick_round want picked gs).picked × AllGroups (pick_round want picked gs).left
  unfolding pick_round
  AllGroups-pick_round want picked [] h k = (h, tt)
  AllGroups-pick_round want picked ((m, []) ∷ gs) h k =
      let ih = AllGroups-pick_round want picked gs h k.1 in (ih.0, (tt, ih.1))
  AllGroups-pick_round want picked ((m, t ∷ ts) ∷ gs) h k =
      elim (Bool-cases (leb want (length picked))) [
        | inl e ↦ rw e (h, k)
        | inr e ↦
            let ih =
              AllGroups-pick_round want (picked ++ t ∷ []) gs
                (All-append P picked (t ∷ []) h (k.0.0, tt)) k.1 in
            rw e (ih.0, (k.0.1, ih.1))
      ]

  All-pick_loop :
      (fuel want : ℕ) (picked : List Target) (gs : Groups)
      → All P picked
      → AllGroups gs
      → All P (pick_loop fuel want picked gs)
  unfolding pick_loop
  All-pick_loop zero want picked gs h k = h
  All-pick_loop (suc fuel) want picked gs h k = elim (Bool-cases (leb want (length picked))) [
    | inl e ↦ rw e h
    | inr e ↦
        let pass = pick_round want picked gs in
        let both = AllGroups-pick_round want picked gs h k in
        elim (Bool-cases pass.added) [
          | inl a ↦ rw (e, a) (All-pick_loop fuel want pass.picked pass.left both.0 both.1)
          | inr a ↦ rw (e, a) both.0
        ]
  ]

  pub All-pick_proposers :
      (eligible : List Target) (want : ℕ) → All P eligible → All P (pick_proposers eligible want)
  unfolding pick_proposers
  All-pick_proposers eligible want h =
      All-pick_loop want want [] (group_into [] eligible) tt (AllGroups-group_into [] eligible tt h)
