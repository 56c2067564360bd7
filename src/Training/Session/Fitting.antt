-- ===== src/Training/Session/Fitting.antt =====
-- src/mycellm/training/session.py: which answers of a participant may contribute to a round.
use mycellm.Prelude.{
  ℕ, ◌≡◌, ◌∙◌, inl, inr, refl, String, Option, none, some, Bool, true, false, ◌&&◌, List, [], ◌∷◌,
  any, all, is_nil, Bool-cases, ltb, eqb, ◌==◌, if◌then◌else◌, arith,
}
use mycellm.Training.Aggregate.{
  Numerics, Adapter, ParticipantUpdate, Result, ok, raised, key_error, shape_mismatch, shape_eq,
  has_key, tensor_of, keys_missing, check_shapes, validate_update,
}
use mycellm.Training.Session.{Reply, update_reply}

abbrev pub same_dims : List ℕ → List ℕ → Bool
same_dims [] [] = true
same_dims (x ∷ xs) (y ∷ ys) = eqb x y && same_dims xs ys
same_dims _ _ = false

shape_eq-same_dims : (xs ys : List ℕ) → shape_eq xs ys ≡ same_dims xs ys
shape_eq-same_dims [] [] = refl
shape_eq-same_dims [] (y ∷ ys) = refl
shape_eq-same_dims (x ∷ xs) [] = refl
shape_eq-same_dims (x ∷ xs) (y ∷ ys) = rw (shape_eq-same_dims xs ys) (ground arith)

abbrev pub is_ok {ℓ} : {A : Type ℓ} → Result A → Bool
is_ok (ok a) = true
is_ok (raised e) = false
is_ok key_error = false

module _ (np : Numerics) where
  -- Every name of the first adapter is one of the second.
  abbrev pub named_in : Adapter np → Adapter np → Bool
  named_in a b = all (λ i. any (λ j. j.0 == i.0) b) a

  -- The tensor under the name has the shape.
  abbrev pub shaped_in : String → List ℕ → Adapter np → Bool
  shaped_in name dims [] = false
  shaped_in name dims ((key, t) ∷ base) =
      let rest = shaped_in name dims base in
      if key == name then same_dims dims (np.shape t) else rest

  -- The names are the base's, and every tensor has the shape of the base's tensor of its name.
  abbrev pub fits_base : Adapter np → Adapter np → Bool
  fits_base base delta =
      named_in base delta
      && (named_in delta base && all (λ i. shaped_in (i.0) (np.shape (i.1)) base) delta)

  -- An update under the participant's name, with samples, that fits the base.
  abbrev pub sends : Adapter np → String → Reply np → Bool
  sends base p (update_reply (some u)) =
      u.peer_id == p && (ltb 0 u.num_samples && fits_base base u.delta)
  sends base p _ = false

  keys_missing-named_in : (a b : Adapter np) → is_nil (keys_missing np a b) ≡ named_in a b
  unfolding keys_missing has_key
  keys_missing-named_in [] b = refl
  keys_missing-named_in (i ∷ a) b = elim (Bool-cases (any (λ j. j.0 == i.0) b)) [
    | inl e ↦ rw e (keys_missing-named_in a b)
    | inr e ↦ rw e refl
  ]

  shaped_by : List ℕ → Option np.Tensor → Bool
  shaped_by dims none = false
  shaped_by dims (some t) = same_dims dims (np.shape t)

  tensor_of-shaped_in :
      (name : String) (dims : List ℕ) (base : Adapter np)
      → shaped_by dims (tensor_of np name base) ≡ shaped_in name dims base
  unfolding tensor_of shaped_by
  tensor_of-shaped_in name dims [] = refl
  tensor_of-shaped_in name dims ((key, t) ∷ base) = elim (Bool-cases (key == name)) [
    | inl e ↦ rw e refl
    | inr e ↦ rw e (tensor_of-shaped_in name dims base)
  ]

  -- One look-up of `check_shapes`, before the others.
  check_shapes-shaped_by :
      (peer name : String) (t : np.Tensor) (base delta : Adapter np)
      → is_ok (check_shapes np peer base ((name, t) ∷ delta)) ≡ (
          shaped_by (np.shape t) (tensor_of np name base)
          && is_ok (check_shapes np peer base delta))
  unfolding check_shapes shaped_by
  check_shapes-shaped_by peer name t base delta = go (tensor_of np name base)
    where
      go :
          (o : Option np.Tensor)
          → is_ok (elim o [
            | none ↦ key_error
            | some b ↦
                if shape_eq (np.shape t) (np.shape b)
                then check_shapes np peer base delta
                else raised (shape_mismatch peer name)
          ])
            ≡ (shaped_by (np.shape t) o && is_ok (check_shapes np peer base delta))
      go none = refl
      go (some b) =
          rw (shape_eq-same_dims (np.shape t) (np.shape b))
            (elim (Bool-cases (same_dims (np.shape t) (np.shape b))) [
              | inl e ↦ rw e refl
              | inr e ↦ rw e refl
            ])

  check_shapes-shaped_in :
      (peer : String) (base delta : Adapter np)
      → is_ok (check_shapes np peer base delta)
        ≡ all (λ i. shaped_in (i.0) (np.shape (i.1)) base) delta
  check_shapes-shaped_in peer base [] = unfold check_shapes in refl
  check_shapes-shaped_in peer base ((name, t) ∷ delta) =
      check_shapes-shaped_by peer name t base delta
      ∙ rw (tensor_of-shaped_in name (np.shape t) base, check_shapes-shaped_in peer base delta) refl

  -- Validation accepts exactly the updates that fit the base.
  pub validate_update-fits_base :
      (base : Adapter np) (u : ParticipantUpdate np)
      → is_ok (validate_update np base u) ≡ fits_base base u.delta
  unfolding validate_update
  validate_update-fits_base base u =
      rw (keys_missing-named_in base u.delta, keys_missing-named_in u.delta base)
        (elim (Bool-cases (named_in base u.delta)) [
          | inr e ↦ rw e refl
          | inl e ↦ elim (Bool-cases (named_in u.delta base)) [
            | inr k ↦ rw (e, k) refl
            | inl k ↦ rw (e, k) (check_shapes-shaped_in u.peer_id base u.delta)
          ]
        ])
