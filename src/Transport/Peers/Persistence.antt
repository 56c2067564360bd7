-- ===== src/Transport/Peers/Persistence.antt =====
-- src/mycellm/transport/peer_manager.py: how long a peer is tried.
use native.Mathlib.Nat.{one-le-pow}
use mycellm.Prelude.{
  ℕ, zero, suc, ◌+◌, ◌*◌, ◌^◌, ◌≤◌, ◌≡◌, inl, inr, refl, ◌∙◌, String, Bool, true, false, List, [],
  ◌∷◌, min, length, All, Bool-cases, leb, ltb, arith, if◌then◌else◌,
}
use mycellm.Transport.Peers.{
  ManagedPeer, new_peer, backoff_delay, Dial, dial_failed, refused, handshake_failed, welcomed,
  Beat, closed, pong, missed, connect_peer, disconnect_peer, heartbeat_loop, manage_round, is_down,
  is_routable, gives_up, max_reconnect_attempts, max_ping_failures, manage_peer,
}

-- What a round changes nothing of.
heartbeat_loop_keeps :
    (bs : List Beat) (p : ManagedPeer) → (heartbeat_loop bs p).is_bootstrap ≡ p.is_bootstrap
unfolding heartbeat_loop disconnect_peer
heartbeat_loop_keeps [] p = refl
heartbeat_loop_keeps (closed ∷ bs) p = refl
heartbeat_loop_keeps (pong ∷ bs) p = heartbeat_loop_keeps bs _
heartbeat_loop_keeps (missed ∷ bs) p =
    elim (Bool-cases (leb max_ping_failures (p.consecutive_ping_failures + 1))) [
      | inl e ↦ rw e refl
      | inr e ↦ rw e (heartbeat_loop_keeps bs _)
    ]

connect_peer_keeps : (d : Dial) (p : ManagedPeer) → (connect_peer d p).is_bootstrap ≡ p.is_bootstrap
unfolding connect_peer
connect_peer_keeps dial_failed p = refl
connect_peer_keeps refused p = refl
connect_peer_keeps handshake_failed p = refl
connect_peer_keeps (welcomed id) p = refl

finish_keeps :
    (bs : List Beat) (p : ManagedPeer)
    → (if is_routable p.state
        then heartbeat_loop bs (record p { reconnect_attempts = 0 })
        else p).is_bootstrap
      ≡ p.is_bootstrap
finish_keeps bs p = elim (Bool-cases (is_routable p.state)) [
  | inl e ↦ rw e (heartbeat_loop_keeps bs (record p { reconnect_attempts = 0 }))
  | inr e ↦ rw e refl
]

manage_round_keeps :
    (d : Dial) (bs : List Beat) (p : ManagedPeer)
    → (manage_round d bs p).is_bootstrap ≡ p.is_bootstrap
unfolding manage_round
manage_round_keeps d bs p = elim (Bool-cases (is_down p.state)) [
  | inl e ↦ rw e (finish_keeps bs (connect_peer d p) ∙ connect_peer_keeps d p)
  | inr e ↦ rw e (finish_keeps bs p)
]

backoff_delay_bounds : (p : ManagedPeer) → (5 ≤ backoff_delay p) × (backoff_delay p ≤ 60)
unfolding backoff_delay
backoff_delay_bounds p =
    let big : 1 ≤ 2 ^ p.reconnect_attempts = one-le-pow p.reconnect_attempts 2 (omega arith) in
    (omega (arith, big), omega arith)

-- Every wait before another dial is of 5 to 60 seconds, and a bootstrap peer is never given up.
pub manage_peer_persists :
    (rounds : List (Dial × List Beat)) (p : ManagedPeer)
    → All (λ w. (5 ≤ w) × (w ≤ 60)) (manage_peer rounds p).waits
      × (p.is_bootstrap ≡ true → (manage_peer rounds p).gave_up ≡ false)
unfolding manage_peer
manage_peer_persists [] p = (tt, λ h. refl)
manage_peer_persists ((d, bs) ∷ rounds) p =
    let p' = manage_round d bs p in
    let rest =
      manage_peer_persists rounds (record p' { reconnect_attempts = p'.reconnect_attempts + 1 }) in
    let same = manage_round_keeps d bs p in
    elim (Bool-cases (gives_up p')) [
      | inl e ↦ rw e (
        tt,
        λ h. let stays : gives_up p' ≡ false = unfold gives_up in rw (same ∙ h) refl in absurd (cc),
      )
      | inr e ↦ rw e ((backoff_delay_bounds p', rest.0), λ h. rest.1 (same ∙ h))
    ]

-- A dial that brings no connection.
abbrev pub fails : Dial → Bool
fails dial_failed = true
fails refused = true
fails handshake_failed = true
fails (welcomed id) = false

-- The waits from the k-th attempt on.
abbrev pub delays : ℕ → ℕ → List ℕ
delays k zero = []
delays k (suc n) = min (5 * 2 ^ k) 60 ∷ delays (k + 1) n

abbrev pub tried : String → ℕ → ℕ → ManagedPeer
tried host port k = record (new_peer host port false) { reconnect_attempts = k }

failed_round :
    (d : Dial) (bs : List Beat) (host : String) (port k : ℕ)
    → fails d ≡ true
    → manage_round d bs (tried host port k) ≡ tried host port k
unfolding manage_round connect_peer new_peer
failed_round dial_failed bs host port k h = refl
failed_round refused bs host port k h = refl
failed_round handshake_failed bs host port k h = refl
failed_round (welcomed id) bs host port k h = absurd (cc)

gives_up_after :
    (rounds : List (Dial × List Beat)) (host : String) (port k n : ℕ)
    → All (λ r. fails (r.0) ≡ true) rounds
    → k + n ≡ 5
    → manage_peer rounds (tried host port k)
      ≡ record { waits = delays k (min n (length rounds)); gave_up = ltb n (length rounds) }
unfolding manage_peer gives_up backoff_delay new_peer
gives_up_after [] host port k n f h =
    let none : min n 0 ≡ 0 = omega arith in
    let more : ltb n 0 ≡ false = ground arith in rw (none, more) refl
gives_up_after ((d, bs) ∷ rounds) host port k zero f h =
    let none : min 0 (suc (length rounds)) ≡ 0 = omega arith in
    let more : ltb 0 (suc (length rounds)) ≡ true = ground arith in
    let last : k ≡ 5 = omega arith in
    rw (failed_round d bs host port k f.0) (rw (last, none, more) refl)
gives_up_after ((d, bs) ∷ rounds) host port k (suc n) f h =
    let rest = gives_up_after rounds host port (k + 1) n f.1 (omega arith) in
    let goes : leb max_reconnect_attempts k ≡ false = ground arith in
    let some_more : min (suc n) (suc (length rounds)) ≡ suc (min n (length rounds)) = omega arith in
    let same : ltb (suc n) (suc (length rounds)) ≡ ltb n (length rounds) = ground arith in
    rw (failed_round d bs host port k f.0) (rw (goes, some_more, same) (rw rest refl))

-- A discovered peer that no dial reaches is given up at its sixth, after waits of 5, 10, 20, 40 and
-- 60 seconds, and not before.
pub manage_peer_gives_up :
    (rounds : List (Dial × List Beat)) (host : String) (port : ℕ)
    → All (λ r. fails (r.0) ≡ true) rounds
    → manage_peer rounds (new_peer host port false)
      ≡ record { waits = delays 0 (min 5 (length rounds)); gave_up = ltb 5 (length rounds) }
manage_peer_gives_up rounds host port f =
    unfold new_peer in gives_up_after rounds host port 0 5 f refl
