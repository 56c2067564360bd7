-- ===== src/Accounting/Tracker/Once.antt =====
-- A run of settlements of src/mycellm/accounting/tracker.py, and the requests that it settles.
use mycellm.Prelude.{
  ℕ, ◌-◌, ◌<◌, ◌≡◌, ◌≢◌, inl, inr, refl, sym, ap, ◌∙◌, subst, String, Option, none, some, false,
  ◌||◌, List, [], ◌∷◌, All, ◌==◌, Bool-cases, Option-cases,
}
use mycellm.Accounting.Ledger.{Ledger, balance_of}
use mycellm.Accounting.Receipts.{
  Crypto, Amount, finite, infinite, not_a_number, ReceiptData, Validator, check_replay,
  check_credit_rate, request_id_ttl,
}
use mycellm.Accounting.Tracker.{
  Cost, negative, costs, token_count, read_fields, overflows, raised, settle_amount, short_of,
  Receipt, Verdict, malformed, settled, Settlement, seed_accounts, pay, cost_fields, settle_checked,
  settle_parties, settle_fields, signed_fields, settle_cosigned_receipt,
}
use mycellm.Accounting.Tracker.Attested.{check_parties-Attested, overflow_lem, no_overflow_lem}
use mycellm.Accounting.Tracker.Replay.{
  Remembers, rate-Remembers, replay-Remembers, replay_refused, replay_recorded,
}

-- After a settlement the identifier is still held, and it was not settled again.
abbrev Guards : String → ℕ → String → Settlement → Type 0
Guards id t request s = Remembers id t s.validator × (s.reason ≡ settled → request ≢ id)

some_eq {ℓ} : {A : Type ℓ} (x y : A) → some x ≡ some y → x ≡ y
some_eq x y h = cc

-- Step 6 leaves the validator as it is.
validator-settle_amount :
    (ids : String × String) (r : Receipt) (d : ReceiptData) (l : Ledger) (v : Validator)
    (a : Amount) (s : Settlement)
    → settle_amount ids r d l v a ≡ some s
    → s.validator ≡ v
unfolding settle_amount
validator-settle_amount ids r d l v infinite s h = ap (λ x. x.validator) (sym (some_eq _ s h))
validator-settle_amount ids r d l v not_a_number s h = ap (λ x. x.validator) (sym (some_eq _ s h))
validator-settle_amount ids r d l v (finite cost) s h = elim (Option-cases (pay ids r d cost l)) [
  | inl p ↦ absurd (let x = (rw p at h) in cc)
  | inr p ↦ ap (λ x. x.validator) (sym (some_eq _ s (rw (p.1) at h)))
]

module _ (id : String) (t : ℕ) (named : (id == "") ≡ false) (ids : String × String) (now : ℕ)
    (w : now - t < request_id_ttl) (r : Receipt) (l : Ledger) (v : Validator)
    (held : Remembers id t v) where
  checked-Guards :
      (d : ReceiptData) (s : Settlement)
      → settle_checked ids now r d l v ≡ some s
      → Guards id t d.request_id s
  unfolding settle_checked
  checked-Guards d s =
      let rate = check_credit_rate d.seeder now v in
      let seeded = seed_accounts d.seeder d.consumer d.network_id l in
      let fresh = check_replay d.request_id now rate.0 in
      let rated : Remembers id t rate.0 = rate-Remembers id t d.seeder now v held in
      elim (Bool-cases rate.1) [
        | inr e ↦
            rw e (λ h. subst (Guards id t d.request_id) (some_eq _ s h) (rated, λ k. absurd (cc)))
        | inl e ↦ elim (Bool-cases (short_of d.cost (balance_of d.consumer d.network_id seeded))) [
          | inl f ↦
              rw (e, f)
                (λ h. subst (Guards id t d.request_id) (some_eq _ s h) (rated, λ k. absurd (cc)))
          | inr f ↦ elim (Bool-cases fresh.1) [
            | inr g ↦
                rw (e, f, g)
                  (λ h.
                    subst (Guards id t d.request_id) (some_eq _ s h)
                      (replay-Remembers id t d.request_id now rate.0 w rated, λ k. absurd (cc)))
            | inl g ↦
                let other : d.request_id ≢ id = λ q.
                  let same : fresh.1 ≡ false =
                    subst (λ i. (check_replay i now rate.0).1 ≡ false) (sym q)
                      (replay_refused id t now rate.0 w named rated) in
                  absurd (cc) in
                rw (e, f, g)
                  (λ h. (
                    subst (Remembers id t)
                        (sym (validator-settle_amount ids r d seeded fresh.0 d.cost s h))
                        (replay-Remembers id t d.request_id now rate.0 w rated),
                    λ k. other,
                  ))
          ]
        ]
      ]

-- A settlement of checked fields holds their request.
checked-Remembers :
    (ids : String × String) (now : ℕ) (r : Receipt) (l : Ledger) (v : Validator) (d : ReceiptData)
    (s : Settlement)
    → (d.request_id == "") ≡ false
    → settle_checked ids now r d l v ≡ some s
    → s.reason ≡ settled
    → Remembers d.request_id now s.validator
unfolding settle_checked
checked-Remembers ids now r l v d s n =
    let rate = check_credit_rate d.seeder now v in
    let seeded = seed_accounts d.seeder d.consumer d.network_id l in
    let fresh = check_replay d.request_id now rate.0 in
    let Held = λ (x : Settlement). x.reason ≡ settled → Remembers d.request_id now x.validator in
    elim (Bool-cases rate.1) [
      | inr e ↦ rw e (λ h. subst Held (some_eq _ s h) (λ k. absurd (cc)))
      | inl e ↦ elim (Bool-cases (short_of d.cost (balance_of d.consumer d.network_id seeded))) [
        | inl f ↦ rw (e, f) (λ h. subst Held (some_eq _ s h) (λ k. absurd (cc)))
        | inr f ↦ elim (Bool-cases fresh.1) [
          | inr g ↦ rw (e, f, g) (λ h. subst Held (some_eq _ s h) (λ k. absurd (cc)))
          | inl g ↦
              rw (e, f, g)
                (λ h k.
                  subst (Remembers d.request_id now)
                    (sym (validator-settle_amount ids r d seeded fresh.0 d.cost s h))
                    (replay_recorded d.request_id now rate.0 n g))
        ]
      ]
    ]

cost_fields-request_id :
    (r : Receipt) (d : ReceiptData) (tokens ts : ℕ) (c : Cost)
    → cost_fields r tokens ts c ≡ some d
    → d.request_id ≡ r.request_id
unfolding cost_fields
cost_fields-request_id r d tokens ts negative = λ h. absurd (cc)
cost_fields-request_id r d tokens ts (costs cost) =
    elim (Bool-cases ((r.consumer == "") || (r.seeder == ""))) [
      | inl e ↦ rw e (λ h. absurd (cc))
      | inr e ↦ rw e (λ h. ap (λ x. x.request_id) (sym (some_eq _ d h)))
    ]

read_fields-request_id :
    (r : Receipt) (d : ReceiptData) (cost : Option Cost) (tokens ts : Option ℕ)
    → read_fields r cost tokens ts ≡ some d
    → d.request_id ≡ r.request_id
unfolding read_fields
read_fields-request_id r d none tokens ts h = absurd (cc)
read_fields-request_id r d (some c) none ts h = absurd (cc)
read_fields-request_id r d (some c) (some tokens) none h = absurd (cc)
read_fields-request_id r d (some c) (some tokens) (some ts) h =
    cost_fields-request_id r d tokens ts c h

signed_fields-request_id :
    (r : Receipt) (d : ReceiptData) → signed_fields r ≡ some d → d.request_id ≡ r.request_id
unfolding signed_fields
signed_fields-request_id r d = read_fields-request_id r d r.cost (token_count r.tokens) r.ts

-- What a settlement that holds for the checked fields comes to for the whole receipt.
module _ (c : Crypto) (ids : String × String) (now : ℕ) (r : Receipt) (l : Ledger)
    (v : Validator) where
  fields-cases {κ} :
      (Q : Settlement → Type κ)
      → ((x : Verdict) → x ≢ settled → Q (record { reason = x; ledger = l; validator = v }))
      → ((d : ReceiptData) (s : Settlement)
          → d.request_id ≡ r.request_id
          → settle_checked ids now r d l v ≡ some s
          → Q s)
      → (s : Settlement) → settle_fields c ids now r l v (signed_fields r) ≡ some s
      → Q s
  unfolding settle_fields settle_parties
  fields-cases Q refuse go s h = elim (Option-cases (signed_fields r)) [
    | inl e ↦
        subst Q (some_eq _ s (sym (ap (settle_fields c ids now r l v) e) ∙ h))
          (refuse malformed (λ k. cc))
    | inr e ↦
        let fields = sym (ap (settle_fields c ids now r l v) e.1) ∙ h in
        elim (check_parties-Attested c now r e.0) [
          | inl f ↦
              go e.0 s (signed_fields-request_id r e.0 e.1)
                (sym (ap (settle_parties ids now r l v e.0) f.0) ∙ fields)
          | inr f ↦
              subst Q (some_eq _ s (sym (ap (settle_parties ids now r l v e.0) f.1) ∙ fields))
                (refuse f.0 f.2)
        ]
  ]

  settle-cases {κ} :
      (Q : Settlement → Type κ)
      → ((x : Verdict) → x ≢ settled → Q (record { reason = x; ledger = l; validator = v }))
      → ((d : ReceiptData) (s : Settlement)
          → d.request_id ≡ r.request_id
          → settle_checked ids now r d l v ≡ some s
          → Q s)
      → (s : Settlement) → settle_cosigned_receipt c ids now r l v ≡ some s
      → Q s
  settle-cases Q refuse go s h = elim (Bool-cases (overflows r.cost r.tokens)) [
    | inl o ↦
        subst Q (some_eq _ s (sym (overflow_lem c ids now r l v o) ∙ h)) (refuse raised (λ k. cc))
    | inr o ↦ fields-cases Q refuse go s (sym (no_overflow_lem c ids now r l v o) ∙ h)
  ]

  settled-Remembers :
      (s : Settlement)
      → (r.request_id == "") ≡ false
      → settle_cosigned_receipt c ids now r l v ≡ some s
      → s.reason ≡ settled
      → Remembers r.request_id now s.validator
  settled-Remembers s n h =
      settle-cases (λ x. x.reason ≡ settled → Remembers r.request_id now x.validator)
        (λ x refused k. absurd (refused k))
        (λ d x same g.
          subst (λ i. x.reason ≡ settled → Remembers i now x.validator) same
            (checked-Remembers ids now r l v d x (subst (λ i. (i == "") ≡ false) (sym same) n) g))
        s h

  settle-Guards :
      (id : String) (t : ℕ) (s : Settlement)
      → (id == "") ≡ false
      → now - t < request_id_ttl
      → Remembers id t v
      → settle_cosigned_receipt c ids now r l v ≡ some s
      → Guards id t r.request_id s
  settle-Guards id t s n w held h =
      settle-cases (Guards id t r.request_id) (λ x refused. (held, λ k. absurd (refused k)))
        (λ d x same g.
          subst (λ i. Guards id t i x) same (checked-Guards id t n ids now w r l v held d x g))
        s h

-- A receipt that is submitted, with the time and the identifiers of its transactions.
pub record Attempt : Type 0 where
  pub ids : String × String
  pub now : ℕ
  pub receipt : Receipt

-- The requests of a run of settlements with their verdicts; an exception would end the run.
unfoldable pub verdicts : Crypto → List Attempt → Ledger → Validator → List (String × Verdict)
verdicts c [] l v = []
verdicts c (a ∷ more) l v = elim (settle_cosigned_receipt c a.ids a.now a.receipt l v) [
  | none ↦ []
  | some s ↦ (a.receipt.request_id, s.reason) ∷ verdicts c more s.ledger s.validator
]

verdicts-none :
    (c : Crypto) (a : Attempt) (more : List Attempt) (l : Ledger) (v : Validator)
    → settle_cosigned_receipt c a.ids a.now a.receipt l v ≡ none
    → verdicts c (a ∷ more) l v ≡ []
unfolding verdicts
verdicts-none c a more l v e = rw (verdicts, e) refl

verdicts-some :
    (c : Crypto) (a : Attempt) (more : List Attempt) (l : Ledger) (v : Validator) (s : Settlement)
    → settle_cosigned_receipt c a.ids a.now a.receipt l v ≡ some s
    → verdicts c (a ∷ more) l v
      ≡ (a.receipt.request_id, s.reason) ∷ verdicts c more s.ledger s.validator
unfolding verdicts
verdicts-some c a more l v s e = rw (verdicts, e) refl

held_once :
    (c : Crypto) (id : String) (t : ℕ) (more : List Attempt) (l : Ledger) (v : Validator)
    → (id == "") ≡ false
    → Remembers id t v
    → All (λ b. b.now - t < request_id_ttl) more
    → All (λ x. x.1 ≡ settled → x.0 ≢ id) (verdicts c more l v)
held_once c id t [] l v n held w = unfold verdicts in tt
held_once c id t (a ∷ more) l v n held w =
    elim (Option-cases (settle_cosigned_receipt c a.ids a.now a.receipt l v)) [
      | inl e ↦ subst (All (λ x. x.1 ≡ settled → x.0 ≢ id)) (sym (verdicts-none c a more l v e)) tt
      | inr e ↦
          let guards = settle-Guards c a.ids a.now a.receipt l v id t e.0 n w.0 held e.1 in
          subst (All (λ x. x.1 ≡ settled → x.0 ≢ id)) (sym (verdicts-some c a more l v e.0 e.1))
            (guards.1, held_once c id t more e.0.ledger e.0.validator n guards.0 w.1)
    ]

-- Once a request that has an identifier is settled, no receipt with that identifier is settled in any
-- run of attempts within the hour after it, whatever the other attempts are.
pub settled_once :
    (c : Crypto) (a : Attempt) (l : Ledger) (v : Validator) (s : Settlement) (more : List Attempt)
    → settle_cosigned_receipt c a.ids a.now a.receipt l v ≡ some s
    → s.reason ≡ settled
    → (a.receipt.request_id == "") ≡ false
    → All (λ b. b.now - a.now < request_id_ttl) more
    → All (λ x. x.1 ≡ settled → x.0 ≢ a.receipt.request_id) (verdicts c more s.ledger s.validator)
settled_once c a l v s more h k n w =
    held_once c a.receipt.request_id a.now more s.ledger s.validator n
      (settled-Remembers c a.ids a.now a.receipt l v s n h k) w
