-- ===== src/Prelude/Sort.antt =====
-- `list.sort` and `sorted` of Python, which are stable, as insertion by a Boolean order, and
-- `max`, which returns the first of the greatest entries.
use mathlib.Core.Path.{◌≡◌, refl, sym, ap, subst}
use mathlib.Core.Bool.{Bool, true, false}
use mathlib.Core.Logic.{inl, inr}
use mathlib.Core.List.{List, [], ◌∷◌, Perm}
use mathlib.Core.List.Perm
use native.Mathlib.Omega.{arith}
use mycellm.Prelude.Tests.{if◌then◌else◌, Bool-cases}
use mycellm.Prelude.Lists.{length, All}

module _ {ℓ} {A : Type ℓ} (before : A → A → Bool) where
  -- `before y x`: `y` sorts strictly before `x`, so equal entries keep their order.
  unfoldable pub insert_by : A → List A → List A
  insert_by x [] = x ∷ []
  insert_by x (y ∷ ys) = let rest = y ∷ insert_by x ys in if before y x then rest else x ∷ y ∷ ys

  unfoldable pub sort_by : List A → List A
  unfolding insert_by
  sort_by [] = []
  sort_by (x ∷ xs) = insert_by x (sort_by xs)

  -- The first entry that no later one beats; `better y x`: `y` is strictly greater than `x`.
  unfoldable pub max_from : A → List A → A
  max_from best [] = best
  max_from best (y ∷ ys) = max_from (if before y best then y else best) ys

  insert_by-perm : (x : A) (ys : List A) → Perm (insert_by x ys) (x ∷ ys)
  unfolding insert_by
  insert_by-perm x [] = Perm.refl (x ∷ [])
  insert_by-perm x (y ∷ ys) = elim (Bool-cases (before y x)) [
    | inl e ↦ rw e (Perm.trans (Perm.cons y (insert_by-perm x ys)) (Perm.swap x y ys))
    | inr e ↦ rw e (Perm.refl (x ∷ y ∷ ys))
  ]

  pub sort_by-perm : (xs : List A) → Perm (sort_by xs) xs
  unfolding sort_by
  sort_by-perm [] = Perm.refl []
  sort_by-perm (x ∷ xs) = Perm.trans (insert_by-perm x (sort_by xs)) (Perm.cons x (sort_by-perm xs))

  pub length-insert_by : (x : A) (ys : List A) → length (insert_by x ys) ≡ length (x ∷ ys)
  unfolding insert_by
  length-insert_by x [] = refl
  length-insert_by x (y ∷ ys) = ground (arith, length-insert_by x ys)

  pub length-sort_by : (xs : List A) → length (sort_by xs) ≡ length xs
  unfolding sort_by
  length-sort_by [] = refl
  length-sort_by (x ∷ xs) = omega (arith, length-insert_by x (sort_by xs), length-sort_by xs)

  All-insert_by {κ} :
      (P : A → Type κ) (x : A) (ys : List A) → P x → All P ys → All P (insert_by x ys)
  unfolding insert_by
  All-insert_by P x [] px h = (px, tt)
  All-insert_by P x (y ∷ ys) px h = elim (Bool-cases (before y x)) [
    | inl e ↦ rw e (h.0, All-insert_by P x ys px h.1)
    | inr e ↦ rw e (px, h)
  ]

  pub All-sort_by {κ} : (P : A → Type κ) (xs : List A) → All P xs → All P (sort_by xs)
  unfolding sort_by
  All-sort_by P [] h = tt
  All-sort_by P (x ∷ xs) h = All-insert_by P x (sort_by xs) h.0 (All-sort_by P xs h.1)

  All-of_insert_by {κ} :
      (P : A → Type κ) (x : A) (ys : List A) → All P (insert_by x ys) → P x × All P ys
  unfolding insert_by
  All-of_insert_by P x [] = λ h. h
  All-of_insert_by P x (y ∷ ys) = elim (Bool-cases (before y x)) [
    | inl e ↦ rw e (λ h. let rest = All-of_insert_by P x ys h.1 in (rest.0, (h.0, rest.1)))
    | inr e ↦ rw e (λ h. h)
  ]

  pub All-of_sort_by {κ} : (P : A → Type κ) (xs : List A) → All P (sort_by xs) → All P xs
  unfolding sort_by
  All-of_sort_by P [] h = tt
  All-of_sort_by P (x ∷ xs) h =
      let parts = All-of_insert_by P x (sort_by xs) h in (parts.0, All-of_sort_by P xs parts.1)

  pub max_from-of_All {κ} :
      (P : A → Type κ) (a : A) (xs : List A) → P a → All P xs → P (max_from a xs)
  unfolding max_from
  max_from-of_All P a [] pa h = pa
  max_from-of_All P a (x ∷ xs) pa h = elim (Bool-cases (before x a)) [
    | inl e ↦ rw e (max_from-of_All P x xs h.0 h.1)
    | inr e ↦ rw e (max_from-of_All P a xs pa h.1)
  ]

-- A sorted list: no entry stands strictly before one that precedes it.
abbrev pub IsSortedBy {ℓ} : {A : Type ℓ} → (A → A → Bool) → List A → Type 0
IsSortedBy before [] = Unit
IsSortedBy before (x ∷ xs) = All (λ y. before y x ≡ false) xs × IsSortedBy before xs

-- The order that a key gives: strict, and total on the negative side.
pub record IsStrictWeak {ℓ} {A : Type ℓ} (before : A → A → Bool) : Type ℓ where
  pub asym : (x y : A) → before x y ≡ true → before y x ≡ false
  pub negtrans : (x y z : A) → before x y ≡ false → before y z ≡ false → before x z ≡ false

module _ {ℓ} {A : Type ℓ} (before : A → A → Bool) (order : IsStrictWeak before) where
  not_before_tail :
      (x y : A) (ys : List A)
      → before y x ≡ false
      → All (λ z. before z y ≡ false) ys
      → All (λ z. before z x ≡ false) ys
  not_before_tail x y [] h k = tt
  not_before_tail x y (z ∷ zs) h k = (order.negtrans z y x k.0 h, not_before_tail x y zs h k.1)

  insert_by-IsSortedBy :
      (x : A) (ys : List A) → IsSortedBy before ys → IsSortedBy before (insert_by before x ys)
  unfolding insert_by
  insert_by-IsSortedBy x [] s = (tt, tt)
  insert_by-IsSortedBy x (y ∷ ys) s = elim (Bool-cases (before y x)) [
    | inl e ↦ rw e (
      All-insert_by before (λ z. before z y ≡ false) x ys (order.asym y x e) s.0,
      insert_by-IsSortedBy x ys s.1,
    )
    | inr e ↦ rw e ((e, not_before_tail x y ys e s.0), s)
  ]

  pub sort_by-IsSortedBy : (xs : List A) → IsSortedBy before (sort_by before xs)
  unfolding sort_by
  sort_by-IsSortedBy [] = tt
  sort_by-IsSortedBy (x ∷ xs) = insert_by-IsSortedBy x (sort_by before xs) (sort_by-IsSortedBy xs)

  -- Nothing beats the maximum.
  max_from_greatest :
      (a : A) (xs : List A) (z : A) → before z a ≡ false → before z (max_from before a xs) ≡ false
  unfolding max_from
  max_from_greatest a [] z h = h
  max_from_greatest a (x ∷ xs) z h = elim (Bool-cases (before x a)) [
    | inl e ↦ rw e (max_from_greatest x xs z (order.negtrans z a x h (order.asym x a e)))
    | inr e ↦ rw e (max_from_greatest a xs z h)
  ]

  pub irrefl : (x : A) → before x x ≡ false
  irrefl x = elim (Bool-cases (before x x)) [ inl e ↦ order.asym x x e | inr e ↦ e ]

  max_from_step :
      (a x : A) (xs : List A) (b : A)
      → (if before x a then x else a) ≡ b
      → max_from before b xs ≡ max_from before a (x ∷ xs)
  unfolding max_from
  max_from_step a x xs b e = ap (λ c. max_from before c xs) (sym e)

  -- No entry beats the maximum.
  pub max_from-IsGreatest :
      (a : A) (xs : List A) → All (λ z. before z (max_from before a xs) ≡ false) (a ∷ xs)
  max_from-IsGreatest a [] = unfold max_from in (irrefl a, tt)
  max_from-IsGreatest a (x ∷ xs) = elim (Bool-cases (before x a)) [
    | inl e ↦
        subst (λ m. All (λ z. before z m ≡ false) (a ∷ x ∷ xs)) (max_from_step a x xs x (rw e))
          (max_from_greatest x xs a (order.asym x a e), max_from-IsGreatest x xs)
    | inr e ↦
        let rest = max_from-IsGreatest a xs in
        subst (λ m. All (λ z. before z m ≡ false) (a ∷ x ∷ xs)) (max_from_step a x xs a (rw e))
          (rest.0, (max_from_greatest a xs x e, rest.1))
  ]
