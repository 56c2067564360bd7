-- ===== src/Accounting/Tracker/Replay.antt =====
-- That src/mycellm/accounting/tracker.py settles a request at most once in the replay window.
use mycellm.Prelude.{
  ℕ, ◌-◌, ◌<◌, ◌≡◌, ◌≢◌, inl, inr, refl, String, Bool, true, false, ◌&&◌, List, [], ◌∷◌, ◌++◌, any,
  filter, eqb, ◌==◌, eq_iff, arith, Bool-cases,
}
use mycellm.Accounting.Receipts.{
  Validator, recent, seen_in, check_replay, check_credit_rate, request_id_ttl,
}

-- The validator holds the identifier with its time.
abbrev pub Remembers : String → ℕ → Validator → Type 0
Remembers id t v = any (λ e. (e.0 == id) && eqb e.1 t) v.seen ≡ true

any-filter {ℓ} :
    {A : Type ℓ} (q p : A → Bool)
    → ((x : A) → q x ≡ true → p x ≡ true)
    → (xs : List A) → any q xs ≡ true
    → any q (filter p xs) ≡ true
any-filter q p f [] h = h
any-filter q p f (x ∷ xs) h = elim (Bool-cases (p x)) [
  | inl e ↦ elim (Bool-cases (q x)) [
    | inl k ↦ rw e (rw k refl)
    | inr k ↦ rw e (rw k (any-filter q p f xs (rw k at h)))
  ]
  | inr e ↦ elim (Bool-cases (q x)) [
    | inl k ↦ let m : p x ≡ true = f x k in absurd (cc)
    | inr k ↦ rw e (any-filter q p f xs (rw k at h))
  ]
]

any-imp {ℓ} :
    {A : Type ℓ} (q p : A → Bool)
    → ((x : A) → q x ≡ true → p x ≡ true)
    → (xs : List A) → any q xs ≡ true
    → any p xs ≡ true
any-imp q p f [] h = h
any-imp q p f (x ∷ xs) h = elim (Bool-cases (q x)) [
  | inl k ↦ rw (f x k) refl
  | inr k ↦ elim (Bool-cases (p x)) [
    | inl e ↦ rw e refl
    | inr e ↦ rw e (any-imp q p f xs (rw k at h))
  ]
]

any-append {ℓ} :
    {A : Type ℓ} (q : A → Bool) (xs ys : List A) → any q xs ≡ true → any q (xs ++ ys) ≡ true
any-append q [] ys h = absurd (cc)
any-append q (x ∷ xs) ys h = elim (Bool-cases (q x)) [
  | inl k ↦ rw k refl
  | inr k ↦ rw k (any-append q xs ys (rw k at h))
]

any_last {ℓ} :
    {A : Type ℓ} (q : A → Bool) (xs : List A) (y : A) → q y ≡ true → any q (xs ++ y ∷ []) ≡ true
any_last q [] y h = rw h refl
any_last q (x ∷ xs) y h = elim (Bool-cases (q x)) [
  | inl k ↦ rw k refl
  | inr k ↦ rw k (any_last q xs y h)
]

module _ (id : String) (t : ℕ) where
  pub rate-Remembers :
      (peer : String) (now : ℕ) (v : Validator)
      → Remembers id t v
      → Remembers id t (check_credit_rate peer now v).0
  unfolding check_credit_rate
  rate-Remembers peer now v h = ground (arith, h)

  kept :
      (now : ℕ) (v : Validator)
      → now - t < request_id_ttl
      → Remembers id t v
      → any (λ e. (e.0 == id) && eqb e.1 t) (filter (recent now) v.seen) ≡ true
  unfolding recent
  kept now v w h = any-filter _ (recent now) (λ e k. ground arith) v.seen h

  pub replay-Remembers :
      (other : String) (now : ℕ) (v : Validator)
      → now - t < request_id_ttl
      → Remembers id t v
      → Remembers id t (check_replay other now v).0
  unfolding check_replay
  replay-Remembers other now v w h = elim (Bool-cases (other == "")) [
    | inl e ↦ rw e h
    | inr e ↦ elim (Bool-cases (seen_in other (filter (recent now) v.seen))) [
      | inl f ↦ rw (e, f) (kept now v w h)
      | inr f ↦ rw (e, f) (any-append _ (filter (recent now) v.seen) _ (kept now v w h))
    ]
  ]

  pub replay_refused :
      (now : ℕ) (v : Validator)
      → now - t < request_id_ttl
      → (id == "") ≡ false
      → Remembers id t v
      → (check_replay id now v).1 ≡ false
  unfolding check_replay seen_in
  replay_refused now v w n h =
      rw
        (
          n,
          any-imp _ (λ e. e.0 == id) (λ e k. ground arith) (filter (recent now) v.seen)
              (kept now v w h),
        )
        refl

-- A request that is new is held with its time.
pub replay_recorded :
    (id : String) (now : ℕ) (v : Validator)
    → (id == "") ≡ false
    → (check_replay id now v).1 ≡ true
    → Remembers id now (check_replay id now v).0
unfolding check_replay
replay_recorded id now v n h = elim (Bool-cases (seen_in id (filter (recent now) v.seen))) [
  | inl f ↦ absurd (replay_seen id now v n f h)
  | inr f ↦
      let self : (id == id) ≡ true = (eq_iff id id).1 refl in
      rw (n, f) (any_last _ (filter (recent now) v.seen) (id, now) (ground arith))
]
  where
    replay_seen :
        (i : String) (m : ℕ) (u : Validator)
        → (i == "") ≡ false
        → seen_in i (filter (recent m) u.seen) ≡ true
        → (check_replay i m u).1 ≢ true
    replay_seen i m u a b c = let x : (check_replay i m u).1 ≡ false = rw (a, b) refl in absurd (cc)
