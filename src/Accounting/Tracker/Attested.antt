-- ===== src/Accounting/Tracker/Attested.antt =====
-- What a receipt must show for src/mycellm/accounting/tracker.py to settle it.
use mycellm.Prelude.{
  ℕ, ◌≡◌, ◌≢◌, ◌⊎◌, inl, inr, refl, String, none, some, true, false, ◌==◌, Bool-cases, Option-cases,
}
use mycellm.Prelude.Text.{Text}
use mycellm.Accounting.Ledger.{Ledger}
use mycellm.Accounting.Receipts.{
  Crypto, ReceiptData, Validator, verify_receipt_signature, verify_cosigned_receipt,
  build_receipt_data,
}
use mycellm.Accounting.Tracker.{
  Receipt, raised, overflows, Verdict, settled, settle_fields, signed_fields, check_parties,
  read_keys, settle_cosigned_receipt,
}

-- Two parties, whose keys hash to their identifiers and who both signed the fields.
abbrev pub Attested : Crypto → ℕ → Receipt → ReceiptData → Type 0
Attested c now r d =
    ((d.seeder == d.consumer) ≡ false)
    × ((keys : Text × Text) × (read_keys c r ≡ some keys)
        × ((c.peer_id_of keys.0 == d.seeder) ≡ true)
        × ((c.peer_id_of keys.1 == d.consumer) ≡ true)
        × (verify_receipt_signature c (build_receipt_data c now d) r.seeder_signature keys.0 ≡ true)
        × (verify_receipt_signature c (build_receipt_data c now d) r.consumer_signature keys.1
            ≡ true))

both_signed :
    (c : Crypto) (m s k t q : Text)
    → verify_cosigned_receipt c m s k t q ≡ true
    → (verify_receipt_signature c m s k ≡ true) × (verify_receipt_signature c m t q ≡ true)
unfolding verify_cosigned_receipt
both_signed c m s k t q h = elim (Bool-cases (verify_receipt_signature c m s k)) [
  | inl e ↦ (e, rw e at h)
  | inr e ↦ absurd (let x = (rw e at h) in cc)
]

module _ (c : Crypto) (now : ℕ) (r : Receipt) (d : ReceiptData) where
  pub check_parties-Attested :
      ((check_parties c now r d ≡ none) × Attested c now r d)
      ⊎ ((x : Verdict) × (check_parties c now r d ≡ some x) × (x ≢ settled) × (x ≢ raised))
  unfolding check_parties
  check_parties-Attested = elim (Bool-cases (d.seeder == d.consumer)) [
    | inl e ↦ rw e (inr (_, refl, (λ k. cc), (λ k. cc)))
    | inr e ↦ elim (Option-cases (read_keys c r)) [
      | inl f ↦ rw (e, f) (inr (_, refl, (λ k. cc), (λ k. cc)))
      | inr f ↦ elim (Bool-cases (c.peer_id_of f.0.0 == d.seeder)) [
        | inr g ↦ rw (e, f.1, g) (inr (_, refl, (λ k. cc), (λ k. cc)))
        | inl g ↦ elim (Bool-cases (c.peer_id_of f.0.1 == d.consumer)) [
          | inr h ↦ rw (e, f.1, g, h) (inr (_, refl, (λ k. cc), (λ k. cc)))
          | inl h ↦
              elim (Bool-cases (
                verify_cosigned_receipt c (build_receipt_data c now d) r.seeder_signature f.0.0
                  r.consumer_signature f.0.1)) [
                    | inr i ↦ rw (e, f.1, g, h, i) (inr (_, refl, (λ k. cc), (λ k. cc)))
                    | inl i ↦
                        let signed =
                          both_signed c (build_receipt_data c now d) r.seeder_signature f.0.0
                            r.consumer_signature f.0.1 i in
                        inl (rw (e, f.1, g, h, i) refl, (e, (f.0, f.1, g, h, signed.0, signed.1)))
                  ]
        ]
      ]
    ]
  ]

module _ (c : Crypto) (ids : String × String) (now : ℕ) (r : Receipt) (l : Ledger)
    (v : Validator) where
  pub overflow_lem :
      overflows r.cost r.tokens ≡ true
      → settle_cosigned_receipt c ids now r l v
        ≡ some (record { reason = raised; ledger = l; validator = v })
  unfolding settle_cosigned_receipt
  overflow_lem o = rw o refl

  pub no_overflow_lem :
      overflows r.cost r.tokens ≡ false
      → settle_cosigned_receipt c ids now r l v ≡ settle_fields c ids now r l v (signed_fields r)
  unfolding settle_cosigned_receipt
  no_overflow_lem o = rw o refl
