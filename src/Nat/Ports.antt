-- ===== src/Nat/Ports.antt =====
-- The port pool.
use ucas_computer_network.Common.{
  ℕ, zero, suc, ◌+◌, ◌-◌, ◌<◌, ◌≤◌, ◌≡◌, ◌⊎◌, refl, Bool, true, false, arith, ◌==◌, Bool-cases, inl,
  inr, subst,
}
use ucas_computer_network.Common.Tables.{update}
use ucas_computer_network.Nat.{NatTable, first_free, assign_port, nat_port_min, nat_port_max}

first_free_lem :
    (used : ℕ → Bool) (i n : ℕ)
    → 0 < i
    → let p = first_free used i n in (p ≡ 0) ⊎ ((i ≤ p) × (p < i + n) × (used p ≡ false))
unfolding first_free
first_free_lem used i zero h = inl refl
first_free_lem used i (suc n) h = elim (Bool-cases (used i)) [
  | inl busy ↦ rw (busy, first_free) (ground (arith, first_free_lem used (suc i) n (omega arith)))
  | inr free ↦ rw (free, first_free) (inr (omega arith, omega arith, free))
]

first_free-skips :
    (used : ℕ → Bool) (i n k : ℕ)
    → 0 < i
    → i ≤ k
    → k < i + n
    → (first_free used i n ≡ 0) ⊎ (k < first_free used i n)
    → used k ≡ true
unfolding first_free
first_free-skips used i zero k h a b c = absurd (omega arith)
first_free-skips used i (suc n) k h a b c = elim (Bool-cases (used i)) [
  | inl busy ↦ elim (Bool-cases (i == k)) [
    | inl here ↦ subst (λ x. used x ≡ true) (ground arith) busy
    | inr later ↦
        first_free-skips used (suc i) n k (omega arith) (ground arith) (omega arith) (ground arith)
  ]
  | inr free ↦ ground arith
]

abbrev pub InPool : ℕ → Type 0
InPool port = (nat_port_min ≤ port) × (port < nat_port_max)

-- Every port of the pool below `top` is assigned.
abbrev pub TakenBelow : NatTable → ℕ → Type 0
TakenBelow nat top = (k : ℕ) → InPool k → k < top → nat.assigned_ports k ≡ true

-- A port of the pool that was free becomes assigned, and nothing else changes.
pub record Takes (nat : NatTable) (port : ℕ) (nat' : NatTable) : Type 0 where
  pub in_pool : InPool port
  pub was_free : nat.assigned_ports port ≡ false
  pub least : TakenBelow nat port
  pub table : nat' ≡ record nat { assigned_ports = update nat.assigned_ports port true }

-- If every port of the pool is assigned, `assign_port` gives 0 and changes nothing; else it takes
-- the least port of the pool that is free.
pub assign_port_lem :
    (nat : NatTable)
    → (((assign_port nat).0 ≡ 0) × ((assign_port nat).1 ≡ nat) × TakenBelow nat nat_port_max)
      ⊎ Takes nat (assign_port nat).0 (assign_port nat).1
unfolding assign_port
assign_port_lem nat =
    let used = nat.assigned_ports in
    let size = nat_port_max - nat_port_min in
    elim (first_free_lem used nat_port_min size (omega arith)) [
      | inl out ↦ inl (
        out,
        rw out refl,
        λ k h l.
            first_free-skips used nat_port_min size k (omega arith) h.0 (omega arith) (inl out),
      )
      | inr found ↦ inr (record {
        in_pool = (found.0, omega arith);
        was_free = found.2;
        least = λ k h l.
            first_free-skips used nat_port_min size k (omega arith) h.0 (omega arith) (inr l);
        table = ground arith;
      })
    ]
