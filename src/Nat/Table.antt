-- ===== src/Nat/Table.antt =====
-- The buckets: what a search finds after a write.
use ucas_computer_network.Common.{
  ℕ, ◌≡◌, refl, Bool, true, false, none, some, List, [], ◌∷◌, arith, if◌then◌else◌, All, Bool-cases,
  inl, inr,
}
use ucas_computer_network.Nat.{NatMapping, find, write_first, add_tail, is_external}
use ucas_computer_network.Nat.Ports.{InPool}

-- No two mappings of a bucket have the same external address and port.
abbrev pub Unique : List NatMapping → Type 0
Unique [] = Unit {0}
Unique (m ∷ ms) = (find (is_external m.external_ip m.external_port) ms ≡ none) × Unique ms

-- A mapping whose external port is of the pool has it assigned.
abbrev pub Pooled : (ℕ → Bool) → NatMapping → Type 0
Pooled ports m = InPool m.external_port → ports m.external_port ≡ true

-- Writes that keep the external address and port.
abbrev pub KeepsExternal : (NatMapping → NatMapping) → Type 0
KeepsExternal f =
    (m : NatMapping) → ((f m).external_ip ≡ m.external_ip) × ((f m).external_port ≡ m.external_port)

pub find-add_tail :
    (t : NatMapping → Bool) (ms : List NatMapping) (m : NatMapping)
    → find t ms ≡ none
    → find t (add_tail ms m) ≡ (if t m then some m else none)
unfolding find add_tail
find-add_tail t [] m h = refl
find-add_tail t (x ∷ xs) m h = ground (arith, find-add_tail t xs m)

pub find-write_first :
    (a b : ℕ) (t : NatMapping → Bool) (f : NatMapping → NatMapping) (ms : List NatMapping)
    → KeepsExternal f
    → find (is_external a b) ms ≡ none
    → find (is_external a b) (write_first t f ms) ≡ none
unfolding find write_first
find-write_first a b t f [] k h = refl
find-write_first a b t f (x ∷ xs) k h = ground (arith, k x, find-write_first a b t f xs k)

find-separate :
    (a b : ℕ) (t : NatMapping → Bool) (ms : List NatMapping) (m : NatMapping)
    → find (is_external a b) ms ≡ none
    → find t ms ≡ some m
    → is_external a b m ≡ false
unfolding find
find-separate a b t [] m h k = cc
find-separate a b t (x ∷ xs) m h k = ground (arith, find-separate a b t xs m)

-- The mapping that was found and written to is the one that its external port leads back to.
pub find-written :
    (t : NatMapping → Bool) (f : NatMapping → NatMapping) (ms : List NatMapping) (m : NatMapping)
    → KeepsExternal f
    → Unique ms
    → find t ms ≡ some m
    → find (is_external m.external_ip m.external_port) (write_first t f ms) ≡ some (f m)
unfolding find write_first
find-written t f [] m k u h = cc
find-written t f (x ∷ xs) m k u h = elim (Bool-cases (t x)) [
  | inl here ↦ ground (arith, k x)
  | inr later ↦
      let deeper : find t xs ≡ some m = ground arith in
      rw (later, find)
        (ground (
          arith,
          find-separate x.external_ip x.external_port t xs m u.0 deeper,
          find-written t f xs m k u.1 deeper,
        ))
]

pub write_first-Unique :
    (t : NatMapping → Bool) (f : NatMapping → NatMapping) (ms : List NatMapping)
    → KeepsExternal f
    → Unique ms
    → Unique (write_first t f ms)
unfolding write_first
write_first-Unique t f [] k u = tt
write_first-Unique t f (x ∷ xs) k u = elim (Bool-cases (t x)) [
  | inl here ↦ rw here (ground (arith, k x, u.0), u.1)
  | inr later ↦
      rw (later, write_first)
        (
          find-write_first x.external_ip x.external_port t f xs k u.0,
          write_first-Unique t f xs k u.1,
        )
]

pub write_first-Pooled :
    (ports : ℕ → Bool) (t : NatMapping → Bool) (f : NatMapping → NatMapping) (ms : List NatMapping)
    → KeepsExternal f
    → All (Pooled ports) ms
    → All (Pooled ports) (write_first t f ms)
unfolding write_first
write_first-Pooled ports t f [] k u = tt
write_first-Pooled ports t f (x ∷ xs) k u = elim (Bool-cases (t x)) [
  | inl here ↦ rw here (λ p. rw ((k x).1) (u.0 (ground (arith, (k x).1, p))), u.1)
  | inr later ↦ rw (later, write_first) (u.0, write_first-Pooled ports t f xs k u.1)
]

pub find-free :
    (ports : ℕ → Bool) (a b : ℕ) (ms : List NatMapping)
    → All (Pooled ports) ms
    → InPool b
    → ports b ≡ false
    → find (is_external a b) ms ≡ none
unfolding find
find-free ports a b [] h p n = refl
find-free ports a b (x ∷ xs) h p n = ground (arith, h.0, find-free ports a b xs h.1 p n)
