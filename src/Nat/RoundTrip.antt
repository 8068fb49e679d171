-- ===== src/Nat/RoundTrip.antt =====
-- A reply finds its way back.
use ucas_computer_network.Common.{
  ℕ, ◌≡◌, ◌≢◌, refl, Bool, true, Option, none, some, List, [], ◌∷◌, arith, All, Option-cases, inl,
  inr, ◌∙◌,
}
use ucas_computer_network.Nat.{
  NatMapping, NatTable, TcpPacket, find, write_first, add_tail, is_external, is_internal,
  note_internal, translate_in, translate_out, assign_port, remote_hash, fresh_out, to_internal,
  to_external, set_bucket,
}
use ucas_computer_network.Nat.Ports.{Takes, assign_port_lem}
use ucas_computer_network.Nat.Table.{
  Unique, Pooled, KeepsExternal, find-add_tail, find-written, find-free,
}

-- Within a bucket, no two mappings share their external address and port, and a mapping's port, if
-- it is of the pool, is assigned.
pub record Inv (nat : NatTable) : Type 0 where
  pub pooled : (h : ℕ) → All (Pooled nat.assigned_ports) (nat.nat_mapping_list h)
  pub unique : (h : ℕ) → Unique (nat.nat_mapping_list h)

-- A packet from the remote end of `p`, to the address and port that `q` has come from.
abbrev pub answer_to : TcpPacket → TcpPacket → TcpPacket → TcpPacket
answer_to p q r = record r { saddr = p.daddr; sport = p.dport; daddr = q.saddr; dport = q.sport }

note_internal-KeepsExternal : (now : ℕ) (p : TcpPacket) → KeepsExternal (note_internal now p)
unfolding note_internal
note_internal-KeepsExternal now p m = (refl, refl)

internal-note_internal :
    (now : ℕ) (p : TcpPacket) (m : NatMapping)
    → ((note_internal now p m).internal_ip ≡ m.internal_ip)
      × ((note_internal now p m).internal_port ≡ m.internal_port)
unfolding note_internal
internal-note_internal now p m = (refl, refl)

find-passes :
    (t : NatMapping → Bool) (ms : List NatMapping) (m : NatMapping)
    → find t ms ≡ some m
    → t m ≡ true
unfolding find
find-passes t [] m h = cc
find-passes t (x ∷ xs) m h = ground (arith, find-passes t xs m)

-- What the inbound translation does with a mapping that the search finds.
translate_in-found :
    (now : ℕ) (p : TcpPacket) (nat : NatTable) (m : NatMapping)
    → find (is_external p.daddr p.dport) (nat.nat_mapping_list (remote_hash p.saddr p.sport))
      ≡ some m
    → (translate_in now p nat).1 ≡ to_internal m p
unfolding translate_in
translate_in-found now p nat m h = rw (h, translate_in) refl

-- The two cases of the outbound translation.
translate_out-found :
    (now : ℕ) (p : TcpPacket) (nat : NatTable) (m : NatMapping)
    → let h = remote_hash p.daddr p.dport in
      let ms = nat.nat_mapping_list h in
      find (is_internal p.saddr p.sport) ms ≡ some m
      → translate_out now p nat ≡ (
        set_bucket nat h (write_first (is_internal p.saddr p.sport) (note_internal now p) ms),
        to_external m p,
      )
unfolding translate_out
translate_out-found now p nat m h = rw (h, translate_out) refl

pub translate_out-fresh :
    (now : ℕ) (p : TcpPacket) (nat : NatTable)
    → let h = remote_hash p.daddr p.dport in
      let ms = nat.nat_mapping_list h in
      let m = fresh_out nat p (assign_port nat).0 in
      find (is_internal p.saddr p.sport) ms ≡ none
      → translate_out now p nat
        ≡ (set_bucket (assign_port nat).1 h (add_tail ms (note_internal now p m)), to_external m p)
unfolding translate_out
translate_out-fresh now p nat h = rw (h, translate_out) refl

-- A search in the bucket that was just set.
find-set_bucket :
    (nat : NatTable) (h : ℕ) (ms : List NatMapping) (t : NatMapping → Bool) (o : Option NatMapping)
    → find t ms ≡ o
    → find t ((set_bucket nat h ms).nat_mapping_list h) ≡ o
find-set_bucket nat h ms t o e = ground (arith, e)

reply_found :
    (now now' : ℕ) (p r : TcpPacket) (nat : NatTable) (m : NatMapping)
    → Inv nat
    → find (is_internal p.saddr p.sport) (nat.nat_mapping_list (remote_hash p.daddr p.dport))
      ≡ some m
    → let (nat', q) = translate_out now p nat in
      let back = (translate_in now' (answer_to p q r) nat').1 in
      (back.daddr ≡ p.saddr) × (back.dport ≡ p.sport)
reply_found now now' p r nat m inv f =
    let h = remote_hash p.daddr p.dport in
    let ms = nat.nat_mapping_list h in
    let t = is_internal p.saddr p.sport in
    let k = note_internal-KeepsExternal now p in
    let ms' = write_first t (note_internal now p) ms in
    rw (translate_out-found now p nat m f) (
      rw
        (translate_in-found now' (answer_to p (to_external m p) r) (set_bucket nat h ms')
          (note_internal now p m)
          (find-set_bucket nat h ms' (is_external m.external_ip m.external_port)
            (some (note_internal now p m))
            (find-written t (note_internal now p) ms m k (inv.unique h) f)))
        (ground (arith, find-passes t ms m f, internal-note_internal now p m)))

-- The table after a new mapping at a free port.
pub fresh_free :
    (a : ℕ) (nat : NatTable) (h : ℕ)
    → Inv nat
    → Takes nat (assign_port nat).0 (assign_port nat).1
    → find (is_external a (assign_port nat).0) (nat.nat_mapping_list h) ≡ none
fresh_free a nat h inv taken =
    find-free nat.assigned_ports a (assign_port nat).0 (nat.nat_mapping_list h) (inv.pooled h)
      taken.in_pool taken.was_free

reply_fresh :
    (now now' : ℕ) (p r : TcpPacket) (nat : NatTable)
    → Inv nat
    → Takes nat (assign_port nat).0 (assign_port nat).1
    → find (is_internal p.saddr p.sport) (nat.nat_mapping_list (remote_hash p.daddr p.dport)) ≡ none
    → let (nat', q) = translate_out now p nat in
      let back = (translate_in now' (answer_to p q r) nat').1 in
      (back.daddr ≡ p.saddr) × (back.dport ≡ p.sport)
unfolding note_internal
reply_fresh now now' p r nat inv taken f =
    let h = remote_hash p.daddr p.dport in
    let ms = nat.nat_mapping_list h in
    let m = fresh_out nat p (assign_port nat).0 in
    let ms' = add_tail ms (note_internal now p m) in
    let t = is_external nat.external_ip (assign_port nat).0 in
    let last : find t ms' ≡ some (note_internal now p m) =
      find-add_tail t ms (note_internal now p m) (fresh_free nat.external_ip nat h inv taken)
      ∙ ground arith in
    rw (translate_out-fresh now p nat f) (
      rw
        (translate_in-found now' (answer_to p (to_external m p) r)
          (set_bucket (assign_port nat).1 h ms') (note_internal now p m)
          (find-set_bucket (assign_port nat).1 h ms' t (some (note_internal now p m)) last))
        (refl, refl))

-- While the invariant holds, any answer to a packet that has gone out reaches the internal address
-- and port that the packet came from, whether its mapping was there or is new, unless the packet
-- went out with port 0.
pub answer-returns :
    (now now' : ℕ) (p r : TcpPacket) (nat : NatTable)
    → Inv nat
    → (translate_out now p nat).1.sport ≢ 0
    → let (nat', q) = translate_out now p nat in
      let back = (translate_in now' (answer_to p q r) nat').1 in
      (back.daddr ≡ p.saddr) × (back.dport ≡ p.sport)
answer-returns now now' p r nat inv live =
    elim (Option-cases
      (find (is_internal p.saddr p.sport) (nat.nat_mapping_list (remote_hash p.daddr p.dport)))) [
        | inr (m, f) ↦ reply_found now now' p r nat m inv f
        | inl f ↦ elim (assign_port_lem nat) [
          | inl out ↦ absurd (live (rw (translate_out-fresh now p nat f) out.0))
          | inr taken ↦ reply_fresh now now' p r nat inv taken f
        ]
      ]
