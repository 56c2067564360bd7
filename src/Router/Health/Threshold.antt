-- ===== src/Router/Health/Threshold.antt =====
-- src/mycellm/router/health.py: when a peer counts as gone.
use mycellm.Prelude.{
  ℕ, suc, ◌+◌, ◌-◌, ◌≤◌, ◌≡◌, inl, inr, refl, sym, ap, ◌∙◌, true, false, List, [], ◌∷◌, ◌++◌, drop,
  length, leb, ltb, ltb→lt, Bool-cases, arith, zero,
}
use mycellm.Router.Registry.{PeerEntry}
use mycellm.Router.Health.{
  Metrics, Ping, pong, missed, broke, keep_last, record_success, record_failure, failure_threshold,
  note_miss, check_peer, is_disconnected,
}

-- One check after another.
unfoldable pub check_peer_all : List Ping → Metrics → PeerEntry → Metrics × PeerEntry
unfolding check_peer
check_peer_all [] m e = (m, e)
check_peer_all (p ∷ ps) m e = let (m', e') = check_peer p m e in check_peer_all ps m' e'

-- The pings that failed since the last that did not, after `n` of them.
abbrev pub misses : ℕ → List Ping → ℕ
misses n [] = n
misses n (pong r ∷ ps) = misses 0 ps
misses n (missed ∷ ps) = misses (n + 1) ps
misses n (broke ∷ ps) = misses (n + 1) ps

length-drop {ℓ} :
    {A : Type ℓ} (n : ℕ) (xs : List A) → n ≤ length xs → length (drop n xs) + n ≡ length xs
length-drop zero xs h = omega arith
length-drop (suc n) [] h = omega arith
length-drop (suc n) (x ∷ xs) h = omega (arith, length-drop n xs (omega arith))

length-keep_last {ℓ} : {A : Type ℓ} (n : ℕ) (xs : List A) → length (keep_last n xs) ≤ n
unfolding keep_last
length-keep_last n xs = elim (Bool-cases (ltb n (length xs))) [
  | inl e ↦
      rw e (omega (arith, length-drop (length xs - n) xs (omega arith), ltb→lt n (length xs) e))
  | inr e ↦ rw e (ground arith)
]

-- The samples are bounded, and the peer counts as gone exactly from the threshold on.
pub record IsTracked (m : Metrics) (e : PeerEntry) : Type 0 where
  pub samples : length m.rtt_samples ≤ 10
  pub history : length m.success_history ≤ 20
  pub gone : is_disconnected e.state ≡ leb failure_threshold m.consecutive_failures

note_miss-IsTracked :
    (m : Metrics) (e : PeerEntry) → IsTracked m e → IsTracked (note_miss m e).0 (note_miss m e).1
unfolding note_miss record_failure
note_miss-IsTracked m e t = record {
  samples = t.samples;
  history = length-keep_last 20 (m.success_history ++ false ∷ []);
  gone = elim (Bool-cases (leb failure_threshold (m.consecutive_failures + 1))) [
    | inl k ↦ rw k refl
    | inr k ↦ rw k (t.gone ∙ ground arith)
  ];
}

check_peer-IsTracked :
    (p : Ping) (m : Metrics) (e : PeerEntry)
    → IsTracked m e
    → let (m', e') = check_peer p m e in
      IsTracked m' e' × (m'.consecutive_failures ≡ misses m.consecutive_failures (p ∷ []))
unfolding check_peer record_success
check_peer-IsTracked (pong r) m e t = (
  record {
    samples = length-keep_last 10 (m.rtt_samples ++ r ∷ []);
    history = length-keep_last 20 (m.success_history ++ true ∷ []);
    gone = ground arith;
  },
  refl,
)
check_peer-IsTracked missed m e t = (note_miss-IsTracked m e t, unfold note_miss in refl)
check_peer-IsTracked broke m e t = (note_miss-IsTracked m e t, unfold note_miss in refl)

misses-cons :
    (n : ℕ) (p : Ping) (ps : List Ping) → misses n (p ∷ ps) ≡ misses (misses n (p ∷ [])) ps
misses-cons n (pong r) ps = refl
misses-cons n missed ps = refl
misses-cons n broke ps = refl

-- Checks keep that a peer is disconnected exactly if its last three pings or more all failed, and that at
-- most 10 round trips and 20 results are kept; they count the pings that failed since the last that
-- did not.
pub check_peer_all-IsTracked :
    (ps : List Ping) (m : Metrics) (e : PeerEntry)
    → IsTracked m e
    → let (m', e') = check_peer_all ps m e in
      IsTracked m' e' × (m'.consecutive_failures ≡ misses m.consecutive_failures ps)
unfolding check_peer_all
check_peer_all-IsTracked [] m e t = (t, refl)
check_peer_all-IsTracked (p ∷ ps) m e t =
    let first = check_peer-IsTracked p m e t in
    let rest = check_peer_all-IsTracked ps (check_peer p m e).0 (check_peer p m e).1 first.0 in
    (rest.0, rest.1 ∙ ap (λ n. misses n ps) first.1 ∙ sym (misses-cons m.consecutive_failures p ps))
