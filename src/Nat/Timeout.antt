-- ===== src/Nat/Timeout.antt =====
-- The timeout thread of nat.c, one round at a time, and what a round leaves.
use ucas_computer_network.Common.{
  ℕ, zero, suc, ◌-◌, ◌<◌, ◌≤◌, ◌≡◌, inl, inr, refl, ap, Bool, false, not, ◌&&◌, ◌||◌, ltb, leb,
  if◌then◌else◌, List, [], ◌∷◌, arith, ◌==◌, keep, Bool-cases, ◌∙◌,
}
use ucas_computer_network.Nat.{
  NatConnection, NatMapping, NatTable, tcp_established_timeout, set_bucket, update,
}

unfoldable pub is_flow_finished : NatConnection → Bool
is_flow_finished c =
    (not (c.internal_fin == 0) && not (c.external_fin == 0))
    && leb c.external_seq_end c.internal_ack
    && leb c.internal_seq_end c.external_ack

abbrev pub is_over : ℕ → NatMapping → Bool
is_over now m = ltb tcp_established_timeout (now - m.update_time) || is_flow_finished m.conn

-- One bucket in a round of `nat_timeout`: the mappings that stay, and the ports.
pub sweep_bucket : ℕ → List NatMapping → (ℕ → Bool) → List NatMapping × (ℕ → Bool)
sweep_bucket now [] ports = ([], ports)
sweep_bucket now (m ∷ ms) ports =
    if is_over now m
    then sweep_bucket now ms (update ports m.external_port false)
    else (let (kept, ports') = sweep_bucket now ms ports in (m ∷ kept, ports'))

-- The buckets from 256 less `n` on.
pub sweep_buckets : ℕ → ℕ → NatTable → NatTable
sweep_buckets now zero nat = nat
sweep_buckets now (suc n) nat =
    let h = 256 - suc n in
    let (kept, ports) = sweep_bucket now (nat.nat_mapping_list h) nat.assigned_ports in
    sweep_buckets now n (record (set_bucket nat h kept) { assigned_ports = ports })

pub nat_timeout : ℕ → NatTable → NatTable
nat_timeout now nat = sweep_buckets now 256 nat

sweep_bucket-keep :
    (now : ℕ) (ms : List NatMapping) (ports : ℕ → Bool)
    → (sweep_bucket now ms ports).0 ≡ keep (λ m. not (is_over now m)) ms
unfolding sweep_bucket
sweep_bucket-keep now [] ports = refl
sweep_bucket-keep now (m ∷ ms) ports = elim (Bool-cases (is_over now m)) [
  | inl over ↦
      rw (over, sweep_bucket) (sweep_bucket-keep now ms (update ports m.external_port false))
  | inr live ↦ rw (live, sweep_bucket) (ap (◌∷◌ m) (sweep_bucket-keep now ms ports))
]

sweep_buckets-before :
    (now n : ℕ) (nat : NatTable) (h : ℕ)
    → n ≤ 256
    → h < 256 - n
    → (sweep_buckets now n nat).nat_mapping_list h ≡ nat.nat_mapping_list h
unfolding sweep_buckets
sweep_buckets-before now zero nat h l k = refl
sweep_buckets-before now (suc n) nat h l k =
    let other : (h == (256 - suc n)) ≡ false = ground arith in
    sweep_buckets-before now n _ h (omega arith) (omega arith) ∙ rw (other) refl

sweep_buckets-keep :
    (now n : ℕ) (nat : NatTable) (h : ℕ)
    → n ≤ 256
    → 256 - n ≤ h
    → h < 256
    → (sweep_buckets now n nat).nat_mapping_list h
      ≡ keep (λ m. not (is_over now m)) (nat.nat_mapping_list h)
unfolding sweep_buckets
sweep_buckets-keep now zero nat h l a b = absurd (omega arith)
sweep_buckets-keep now (suc n) nat h l a b = elim (Bool-cases (h == (256 - suc n))) [
  | inl here ↦
      sweep_buckets-before now n _ h (omega arith) (ground arith)
      ∙ (let at : 256 - suc n ≡ h = ground arith in
          rw (here, at) (sweep_bucket-keep now (nat.nat_mapping_list h) nat.assigned_ports))
  | inr later ↦ sweep_buckets-keep now n _ h (omega arith) (ground arith) b ∙ rw later refl
]

-- A round of the timeout leaves in each of the 256 buckets exactly the mappings that are not over,
-- in their order: not silent for more than 60 seconds, and not finished.
pub timeout-keep :
    (now : ℕ) (nat : NatTable) (h : ℕ)
    → h < 256
    → (nat_timeout now nat).nat_mapping_list h
      ≡ keep (λ m. not (is_over now m)) (nat.nat_mapping_list h)
unfolding nat_timeout
timeout-keep now nat h l = sweep_buckets-keep now 256 nat h (omega arith) (omega arith) l
