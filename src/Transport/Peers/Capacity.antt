-- ===== src/Transport/Peers/Capacity.antt =====
-- src/mycellm/transport/peer_manager.py: the peers that are managed at one time.
use mycellm.Prelude.{
  ℕ, ◌≡◌, inl, inr, refl, String, Bool, true, false, List, [], ◌∷◌, ◌++◌, any, All, All-append,
  Bool-cases, ◌==◌, arith,
}
use mycellm.Prelude.Text.{eq_flip}
use mycellm.Transport.Peers.{ManagedPeer, new_peer, same_address, add_bootstrap}

-- No two peers have one address.
abbrev pub Distinct : List ManagedPeer → Type 0
Distinct [] = Unit
Distinct (p ∷ ps) = All (λ q. same_address p.host p.port q ≡ false) ps × Distinct ps

same_address_flip :
    (host : String) (port : ℕ) (p q : ManagedPeer)
    → q.host ≡ host
    → q.port ≡ port
    → same_address host port p ≡ false
    → same_address p.host p.port q ≡ false
unfolding same_address
same_address_flip host port p q h k e =
    rw (h, k)
      (elim (Bool-cases (p.host == host)) [
        | inl i ↦ ground arith
        | inr i ↦ rw (eq_flip p.host host i) refl
      ])

Distinct-snoc :
    (host : String) (port : ℕ) (b : Bool) (ps : List ManagedPeer)
    → any (same_address host port) ps ≡ false
    → Distinct ps
    → Distinct (ps ++ new_peer host port b ∷ [])
unfolding new_peer
Distinct-snoc host port b [] h d = (tt, tt)
Distinct-snoc host port b (p ∷ ps) h d =
    let first : same_address host port p ≡ false = ground arith in
    let others : any (same_address host port) ps ≡ false = ground arith in
    (
      All-append (λ q. same_address p.host p.port q ≡ false) ps (new_peer host port b ∷ []) d.0
          (same_address_flip host port p (new_peer host port b) refl refl first, tt),
      Distinct-snoc host port b ps others d.1,
    )

-- Bootstrap peers are added without a second of one address.
pub add_bootstrap-Distinct :
    (addresses : List (String × ℕ)) (ps : List ManagedPeer)
    → Distinct ps
    → Distinct (add_bootstrap addresses ps)
unfolding add_bootstrap
add_bootstrap-Distinct [] ps d = d
add_bootstrap-Distinct ((host, port) ∷ rest) ps d =
    elim (Bool-cases (any (same_address host port) ps)) [
      | inl e ↦ rw e (add_bootstrap-Distinct rest ps d)
      | inr e ↦ rw e (add_bootstrap-Distinct rest _ (Distinct-snoc host port true ps e d))
    ]
