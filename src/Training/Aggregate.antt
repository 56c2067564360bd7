-- ===== src/Training/Aggregate.antt =====
-- src/mycellm/training/aggregate.py: the sample-weighted mean of the participants' deltas.
-- The arithmetic of tensors, which is numpy's, is a parameter; conversions between types of floats
-- and the metrics of an update are left out. Rates and norms are in thousandths. An adapter is the
-- list of its items.
pub mod Totality
use mycellm.Prelude.{
  ℕ, ◌+◌, String, Option, none, some, Bool, true, false, ◌||◌, List, [], ◌∷◌, map, filter, find,
  any, is_nil, sum_of, ltb, leb, eqb, negb, ◌==◌, if◌then◌else◌,
}

-- `plus base (times_rate rate (over acc n))` is `base + rate * (acc / n)`; `scale` takes a numerator
-- and a denominator.
pub record Numerics : Type 1 where
  pub Tensor : Type 0
  pub shape : Tensor → List ℕ
  pub zeros_like : Tensor → Tensor
  pub plus : Tensor → Tensor → Tensor
  pub times : ℕ → Tensor → Tensor
  pub over : Tensor → ℕ → Tensor
  pub times_rate : ℕ → Tensor → Tensor
  pub scale : ℕ → ℕ → Tensor → Tensor
  pub l2_norm : List (String × Tensor) → ℕ

abbrev pub Adapter : Numerics → Type 0
Adapter np = List (String × np.Tensor)

-- A negative count of samples raises where an update is made, so there is none.
pub record ParticipantUpdate (np : Numerics) : Type 0 where
  pub peer_id : String
  pub delta : Adapter np
  pub num_samples : ℕ

pub data AggregationError : Type 0 where
  keys_mismatch : String → AggregationError
  shape_mismatch : String → String → AggregationError
  no_samples no_usable : AggregationError
  no_quorum : ℕ → ℕ → AggregationError

-- `key_error` is a look-up that fails.
pub data Result {ℓ} (A : Type ℓ) : Type ℓ where
  ok : A → Result A
  raised : AggregationError → Result A
  key_error : Result A

abbrev pub shape_eq : List ℕ → List ℕ → Bool
shape_eq [] [] = true
shape_eq (x ∷ xs) (y ∷ ys) = let rest = shape_eq xs ys in if eqb x y then rest else false
shape_eq _ _ = false

module _ (np : Numerics) where
  unfoldable pub has_key : String → Adapter np → Bool
  has_key name a = any (λ i. i.0 == name) a

  unfoldable pub tensor_of : String → Adapter np → Option np.Tensor
  tensor_of name [] = none
  tensor_of name ((key, t) ∷ a) =
      let rest = tensor_of name a in if key == name then some t else rest

  -- `set(a) - set(b)`
  unfoldable pub keys_missing : Adapter np → Adapter np → Adapter np
  unfolding has_key
  keys_missing a b = filter (λ i. negb (has_key (i.0) b)) a

  -- The first tensor of the wrong shape.
  unfoldable pub check_shapes : String → Adapter np → Adapter np → Result (Unit {0})
  unfolding tensor_of
  check_shapes peer base [] = ok tt
  check_shapes peer base ((name, t) ∷ delta) =
      let rest = check_shapes peer base delta in
      elim (tensor_of name base) [
        | none ↦ key_error
        | some b ↦
            if shape_eq (np.shape t) (np.shape b) then rest else raised (shape_mismatch peer name)
      ]

  unfoldable pub validate_update : Adapter np → ParticipantUpdate np → Result (Unit {0})
  unfolding keys_missing check_shapes
  validate_update base u =
      if negb (is_nil (keys_missing base u.delta)) || negb (is_nil (keys_missing u.delta base))
      then raised (keys_mismatch u.peer_id)
      else check_shapes u.peer_id base u.delta

  abbrev pub usable : List (ParticipantUpdate np) → List (ParticipantUpdate np)
  usable us = filter (λ u. ltb 0 u.num_samples) us

  abbrev pub andthen {ℓ κ} : {A : Type ℓ} {B : Type κ} → Result A → (A → Result B) → Result B
  andthen (ok a) f = f a
  andthen (raised e) f = raised e
  andthen key_error f = key_error

  unfoldable pub validate_all : Adapter np → List (ParticipantUpdate np) → Result (Unit {0})
  unfolding validate_update
  validate_all base [] = ok tt
  validate_all base (u ∷ us) =
      let rest = validate_all base us in andthen (validate_update base u) (λ _. rest)

  add_term : np.Tensor → ℕ → Option np.Tensor → Result np.Tensor
  add_term acc n none = key_error
  add_term acc n (some t) = ok (np.plus acc (np.times n t))

  -- The weighted sum of the deltas under a name.
  unfoldable pub weighted_sum : String → np.Tensor → List (ParticipantUpdate np) → Result np.Tensor
  unfolding add_term tensor_of
  weighted_sum name acc [] = ok acc
  weighted_sum name acc (u ∷ us) =
      andthen (add_term acc u.num_samples (tensor_of name u.delta))
        (λ acc'. weighted_sum name acc' us)

  unfoldable pub average_items :
      ℕ → ℕ → List (ParticipantUpdate np) → Adapter np → Result (Adapter np)
  unfolding weighted_sum
  average_items rate total us [] = ok []
  average_items rate total us ((name, b) ∷ base) =
      let rest = average_items rate total us base in
      andthen (weighted_sum name (np.zeros_like b) us) (λ acc.
        andthen rest
          (λ items. ok ((name, np.plus b (np.times_rate rate (np.over acc total))) ∷ items)))

  unfoldable pub federated_average :
      Adapter np → List (ParticipantUpdate np) → ℕ → Result (Adapter np)
  unfolding validate_all average_items
  federated_average base updates rate =
      if is_nil (usable updates)
      then raised no_samples
      else andthen (validate_all base (usable updates)) (λ _.
        average_items rate (sum_of (λ u. u.num_samples) (usable updates)) (usable updates) base)

  unfoldable pub clip_delta : Adapter np → ℕ → Adapter np
  clip_delta delta max_norm =
      let norm = np.l2_norm delta in
      if leb norm max_norm || eqb norm 0
      then delta
      else map (λ i. (i.0, np.scale max_norm norm (i.1))) delta
