-- ===== src/Training/Aggregate/Totality.antt =====
-- src/mycellm/training/aggregate.py: validated updates are averaged without a look-up that fails.
use mycellm.Prelude.{
  ℕ, ◌≡◌, inl, inr, refl, ap, String, some, true, false, List, [], ◌∷◌, map, is_nil, sum_of, All,
  Bool-cases, ◌==◌,
}
use mycellm.Training.Aggregate.{
  Numerics, Adapter, ParticipantUpdate, Result, ok, raised, key_error, shape_eq, has_key, tensor_of,
  keys_missing, check_shapes, validate_update, validate_all, usable, add_term, weighted_sum,
  average_items, federated_average, andthen,
}

-- No look-up fails, and a result has a property.
abbrev pub Gives {ℓ} : {A : Type ℓ} → (A → Type 0) → Result A → Type 0
Gives P (ok a) = P a
Gives P (raised e) = Unit
Gives P key_error = ⊥

module _ (np : Numerics) where
  -- Every key of the first adapter is one of the second.
  abbrev pub Covers : Adapter np → Adapter np → Type 0
  Covers a b = All (λ i. has_key np (i.0) b ≡ true) a

  keys_missing-Covers : (a b : Adapter np) → is_nil (keys_missing np a b) ≡ true → Covers a b
  unfolding keys_missing
  keys_missing-Covers [] b h = tt
  keys_missing-Covers (i ∷ a) b h = elim (Bool-cases (has_key np (i.0) b)) [
    | inl e ↦ (e, keys_missing-Covers a b (rw e at h))
    | inr e ↦ let bad : false ≡ true = rw e at h in absurd (cc)
  ]

  tensor_of-some :
      (name : String) (a : Adapter np)
      → has_key np name a ≡ true
      → (t : np.Tensor) × (tensor_of np name a ≡ some t)
  unfolding has_key tensor_of
  tensor_of-some name [] h = absurd (cc)
  tensor_of-some name ((key, t) ∷ a) h = elim (Bool-cases (key == name)) [
    | inl e ↦ rw e (t, refl)
    | inr e ↦ rw e (tensor_of-some name a (rw e at h))
  ]

  check_shapes-Gives :
      (peer : String) (base delta : Adapter np)
      → Covers delta base
      → Gives (λ _. Unit) (check_shapes np peer base delta)
  unfolding check_shapes
  check_shapes-Gives peer base [] h = tt
  check_shapes-Gives peer base ((name, t) ∷ delta) h =
      let found = tensor_of-some name base h.0 in
      let rest = check_shapes-Gives peer base delta h.1 in
      rw (found.1, check_shapes)
        (elim (Bool-cases (shape_eq (np.shape t) (np.shape (found.0)))) [
          | inl e ↦ rw e rest
          | inr e ↦ rw e tt
        ])

  -- What a step gives, the rest may use.
  pub andthen-Gives {ℓ κ} :
      {A : Type ℓ} {B : Type κ} (P : A → Type 0) (Q : B → Type 0) (r : Result A) (f : A → Result B)
      → Gives P r
      → ((a : A) → P a → Gives Q (f a))
      → Gives Q (andthen np r f)
  andthen-Gives P Q (ok a) f h k = k a h
  andthen-Gives P Q (raised e) f h k = tt
  andthen-Gives P Q key_error f h k = absurd h

  Gives-imp {ℓ} :
      {A : Type ℓ} (P Q : A → Type 0) (r : Result A) → Gives P r → ((a : A) → P a → Q a) → Gives Q r
  Gives-imp P Q (ok a) h k = k a h
  Gives-imp P Q (raised e) h k = tt
  Gives-imp P Q key_error h k = absurd h

  validate_update-Gives :
      (base : Adapter np) (u : ParticipantUpdate np)
      → Gives (λ _. Covers base u.delta) (validate_update np base u)
  unfolding validate_update
  validate_update-Gives base u = elim (Bool-cases (is_nil (keys_missing np base u.delta))) [
    | inr e ↦ rw e tt
    | inl e ↦ elim (Bool-cases (is_nil (keys_missing np u.delta base))) [
      | inr k ↦ rw (e, k) tt
      | inl k ↦
          rw (e, k)
            (Gives-imp (λ _. Unit) (λ _. Covers base u.delta)
              (check_shapes np u.peer_id base u.delta)
              (check_shapes-Gives u.peer_id base u.delta (keys_missing-Covers u.delta base k))
              (λ _ _. keys_missing-Covers base u.delta e))
    ]
  ]

  validate_all-Gives :
      (base : Adapter np) (us : List (ParticipantUpdate np))
      → Gives (λ _. All (λ u. Covers base u.delta) us) (validate_all np base us)
  unfolding validate_all
  validate_all-Gives base [] = tt
  validate_all-Gives base (u ∷ us) =
      andthen-Gives (λ _. Covers base u.delta) (λ _. All (λ v. Covers base v.delta) (u ∷ us))
        (validate_update np base u) (λ _. validate_all np base us) (validate_update-Gives base u)
        (λ _ h.
          Gives-imp (λ _. All (λ v. Covers base v.delta) us)
            (λ _. All (λ v. Covers base v.delta) (u ∷ us)) (validate_all np base us)
            (validate_all-Gives base us) (λ _ k. (h, k)))

  weighted_sum_lem :
      (name : String) (acc : np.Tensor) (us : List (ParticipantUpdate np))
      → All (λ u. has_key np name u.delta ≡ true) us
      → (sum : np.Tensor) × (weighted_sum np name acc us ≡ ok sum)
  unfolding weighted_sum add_term
  weighted_sum_lem name acc [] h = (acc, refl)
  weighted_sum_lem name acc (u ∷ us) h =
      let found = tensor_of-some name u.delta h.0 in
      let rest = weighted_sum_lem name (np.plus acc (np.times u.num_samples (found.0))) us h.1 in
      (rest.0, rw (found.1) (rest.1))

  heads :
      (i : String × np.Tensor) (base : Adapter np) (us : List (ParticipantUpdate np))
      → All (λ u. Covers (i ∷ base) u.delta) us
      → All (λ u. has_key np (i.0) u.delta ≡ true) us × All (λ u. Covers base u.delta) us
  heads i base [] h = (tt, tt)
  heads i base (u ∷ us) h = let rest = heads i base us h.1 in (((h.0).0, rest.0), ((h.0).1, rest.1))

  average_items_lem :
      (rate total : ℕ) (us : List (ParticipantUpdate np)) (base : Adapter np)
      → All (λ u. Covers base u.delta) us
      → (items : Adapter np) × (average_items np rate total us base ≡ ok items)
        × (map (λ i. i.0) items ≡ map (λ i. i.0) base)
  unfolding average_items
  average_items_lem rate total us [] h = ([], refl, refl)
  average_items_lem rate total us ((name, b) ∷ base) h =
      let parts = heads (name, b) base us h in
      let sum = weighted_sum_lem name (np.zeros_like b) us (parts.0) in
      let rest = average_items_lem rate total us base (parts.1) in
      (
        (name, np.plus b (np.times_rate rate (np.over (sum.0) total))) ∷ rest.0,
        rw (sum.1, rest.1) refl,
        ap (λ l. name ∷ l) (rest.2),
      )

  -- Averaging never fails to find a tensor: it raises an error of aggregation, or gives an adapter with
  -- the keys of the base, in order.
  pub federated_average_total :
      (base : Adapter np) (us : List (ParticipantUpdate np)) (rate : ℕ)
      → Gives
          (λ (items : Adapter np). map (λ i. i.0) items ≡ map (λ i. i.0) base)
          (federated_average np base us rate)
  unfolding federated_average
  federated_average_total base us rate = elim (Bool-cases (is_nil (usable np us))) [
    | inl e ↦ rw e tt
    | inr e ↦ rw e (
        andthen-Gives (λ _. All (λ u. Covers base u.delta) (usable np us))
          (λ (items : Adapter np). map (λ i. i.0) items ≡ map (λ i. i.0) base)
          (validate_all np base (usable np us)) _ (validate_all-Gives base (usable np us))
          (λ _ h.
            let a =
              average_items_lem rate (sum_of (λ u. u.num_samples) (usable np us)) (usable np us)
                base h in
            rw (a.1) (a.2)))
  ]
