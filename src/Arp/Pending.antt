-- ===== src/Arp/Pending.antt =====
-- The packets that wait for an answer.
use ucas_computer_network.Common.{
  ℕ, ◌+◌, ◌<◌, ◌≤◌, ◌≡◌, refl, List, [], ◌∷◌, arith, ltb, length, All, Bool-cases, inl, inr,
  length-append,
}
use ucas_computer_network.Arp.{ArpReq, sweep_reqs, arp_request_max_retries}

-- How many packets wait.
abbrev pub pending : List ArpReq → ℕ
pending [] = 0
pending (q ∷ qs) = length q.cached_packets + pending qs

-- A sweep gives up or keeps each waiting packet: none is lost and none is doubled.
pub pending-sweep :
    (now : ℕ) (qs : List ArpReq)
    → let (kept, again, dropped) = sweep_reqs now qs in pending kept + length dropped ≡ pending qs
unfolding sweep_reqs
pending-sweep now [] = refl
pending-sweep now (q ∷ qs) =
    ground (arith, pending-sweep now qs, length-append q.cached_packets (sweep_reqs now qs).2)

-- Sent before `start`, and tried at least `n` times.
abbrev pub Tried : ℕ → ℕ → ArpReq → Type 0
Tried start n q = (q.sent < start) × (n ≤ q.retries)

sweep-Tried :
    (start now n : ℕ) (qs : List ArpReq)
    → start ≤ now
    → n ≤ arp_request_max_retries
    → All (Tried start n) qs
    → All (Tried start (n + 1)) (sweep_reqs now qs).0
unfolding sweep_reqs
sweep-Tried start now n [] l h a = tt
sweep-Tried start now n (q ∷ qs) l h a = ground (arith, sweep-Tried start now n qs l h a.1)

sweep_last :
    (start now n : ℕ) (qs : List ArpReq)
    → start ≤ now
    → arp_request_max_retries ≤ n
    → All (Tried start n) qs
    → (sweep_reqs now qs).0 ≡ []
unfolding sweep_reqs
sweep_last start now n [] l h a = refl
sweep_last start now n (q ∷ qs) l h a = ground (arith, sweep_last start now n qs l h a.1)

-- The requests after sweeps at the given times.
pub sweeps : List ℕ → List ArpReq → List ArpReq
sweeps [] qs = qs
sweeps (t ∷ ts) qs = sweeps ts (sweep_reqs t qs).0

sweeps-none : (ts : List ℕ) → sweeps ts [] ≡ []
unfolding sweeps sweep_reqs
sweeps-none [] = refl
sweeps-none (t ∷ ts) = sweeps-none ts

-- No request waits for ever: if each was sent before `start` and tried at least `n` times, and
-- `n` and the number of sweeps at times from `start` on make at least six, none is left.
pub sweeps-empty :
    (start n : ℕ) (ts : List ℕ) (qs : List ArpReq)
    → All (Tried start n) qs
    → All (λ t. start ≤ t) ts
    → n ≤ arp_request_max_retries
    → arp_request_max_retries < n + length ts
    → sweeps ts qs ≡ []
unfolding sweeps
sweeps-empty start n [] qs a b h k = absurd (omega arith)
sweeps-empty start n (t ∷ ts) qs a b h k = elim (Bool-cases (ltb n arp_request_max_retries)) [
  | inl more ↦
      sweeps-empty start (n + 1) ts (sweep_reqs t qs).0 (sweep-Tried start t n qs b.0 h a) b.1
        (ground arith) (omega arith)
  | inr last ↦ rw (sweep_last start t n qs b.0 (ground arith) a) (sweeps-none ts)
]
