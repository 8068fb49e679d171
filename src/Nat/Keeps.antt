-- ===== src/Nat/Keeps.antt =====
-- The invariant of the table: kept by outbound packets, and by inbound packets to an address in use.
use ucas_computer_network.Common.{
  ℕ, ◌≡◌, ◌≢◌, refl, Bool, true, ◌&&◌, none, List, [], ◌∷◌, arith, ◌==◌, All, Bool-cases,
  Option-cases, inl, inr, ◌∙◌, sym, subst,
}
use ucas_computer_network.Common.Tables.{update}
use ucas_computer_network.Nat.{
  NatMapping, NatTable, TcpPacket, DnatRule, find, write_first, add_tail, is_external, is_internal,
  note_internal, note_external, translate_in, translate_out, assign_port, remote_hash, fresh_out,
  fresh_in, set_bucket, check_rules,
}
use ucas_computer_network.Nat.Ports.{InPool, assign_port_lem}
use ucas_computer_network.Nat.Table.{
  Unique, Pooled, KeepsExternal, find-add_tail, write_first-Unique, write_first-Pooled,
}
use ucas_computer_network.Nat.RoundTrip.{Inv, fresh_free, translate_out-fresh}

add_tail-Unique :
    (ms : List NatMapping) (m : NatMapping)
    → find (is_external m.external_ip m.external_port) ms ≡ none
    → Unique ms
    → Unique (add_tail ms m)
unfolding add_tail find
add_tail-Unique [] m h u = (refl, tt)
add_tail-Unique (x ∷ xs) m h u = (
  find-add_tail (is_external x.external_ip x.external_port) xs m u.0 ∙ ground (arith, h),
  add_tail-Unique xs m (ground (arith, h)) u.1,
)

add_tail-Pooled :
    (ports : ℕ → Bool) (ms : List NatMapping) (m : NatMapping)
    → All (Pooled ports) ms
    → Pooled ports m
    → All (Pooled ports) (add_tail ms m)
unfolding add_tail
add_tail-Pooled ports [] m h p = (p, tt)
add_tail-Pooled ports (x ∷ xs) m h p = (h.0, add_tail-Pooled ports xs m h.1 p)

-- More ports assigned.
Pooled-update :
    (ports : ℕ → Bool) (k : ℕ) (ms : List NatMapping)
    → All (Pooled ports) ms
    → All (Pooled (update ports k true)) ms
Pooled-update ports k [] h = tt
Pooled-update ports k (x ∷ xs) h = (λ p. ground (arith, h.0 p), Pooled-update ports k xs h.1)

-- One bucket of a table that keeps the invariant is replaced.
set_bucket-Inv :
    (nat : NatTable) (h : ℕ) (ms : List NatMapping)
    → Inv nat
    → All (Pooled nat.assigned_ports) ms
    → Unique ms
    → Inv (set_bucket nat h ms)
set_bucket-Inv nat h ms inv p u = record {
  pooled = λ k. elim (Bool-cases (k == h)) [
    | inl here ↦ rw here p
    | inr other ↦ rw other (inv.pooled k)
  ];
  unique = λ k. elim (Bool-cases (k == h)) [
    | inl here ↦ rw here u
    | inr other ↦ rw other (inv.unique k)
  ];
}

Inv-update :
    (nat : NatTable) (k : ℕ)
    → Inv nat
    → Inv (record nat { assigned_ports = update nat.assigned_ports k true })
Inv-update nat k inv = record {
  pooled = λ h. Pooled-update nat.assigned_ports k (nat.nat_mapping_list h) (inv.pooled h);
  unique = inv.unique;
}

write_first-Inv :
    (nat : NatTable) (h : ℕ) (t : NatMapping → Bool) (f : NatMapping → NatMapping)
    → KeepsExternal f
    → Inv nat
    → Inv (set_bucket nat h (write_first t f (nat.nat_mapping_list h)))
write_first-Inv nat h t f k inv =
    set_bucket-Inv nat h (write_first t f (nat.nat_mapping_list h)) inv
      (write_first-Pooled nat.assigned_ports t f (nat.nat_mapping_list h) k (inv.pooled h))
      (write_first-Unique t f (nat.nat_mapping_list h) k (inv.unique h))

add_tail-Inv :
    (nat : NatTable) (h : ℕ) (m : NatMapping)
    → Inv nat
    → Pooled nat.assigned_ports m
    → find (is_external m.external_ip m.external_port) (nat.nat_mapping_list h) ≡ none
    → Inv (set_bucket nat h (add_tail (nat.nat_mapping_list h) m))
add_tail-Inv nat h m inv p free =
    set_bucket-Inv nat h (add_tail (nat.nat_mapping_list h) m) inv
      (add_tail-Pooled nat.assigned_ports (nat.nat_mapping_list h) m (inv.pooled h) p)
      (add_tail-Unique (nat.nat_mapping_list h) m free (inv.unique h))

check_rules-KeepsExternal : (rs : List DnatRule) → KeepsExternal (check_rules rs)
unfolding check_rules
check_rules-KeepsExternal [] m = (refl, refl)
check_rules-KeepsExternal (r ∷ rs) m =
    elim (Bool-cases (r.external_ip == m.external_ip && r.external_port == m.external_port)) [
      | inl hit ↦
          rw (hit, check_rules)
            (check_rules-KeepsExternal rs
              (record m { internal_ip = r.internal_ip; internal_port = r.internal_port }))
      | inr miss ↦ rw (miss, check_rules) (check_rules-KeepsExternal rs m)
    ]

-- An inbound packet keeps the invariant, unless its port is of the pool and not assigned.
pub translate_in-Inv :
    (now : ℕ) (p : TcpPacket) (nat : NatTable)
    → Inv nat
    → (InPool p.dport → nat.assigned_ports p.dport ≡ true)
    → Inv (translate_in now p nat).0
unfolding translate_in note_external
translate_in-Inv now p nat inv used =
    let kept : ((fresh_in nat p).external_ip ≡ p.daddr)
        × ((fresh_in nat p).external_port ≡ p.dport) =
      check_rules-KeepsExternal nat.rules _ in
    elim (Option-cases
      (find (is_external p.daddr p.dport) (nat.nat_mapping_list (remote_hash p.saddr p.sport)))) [
        | inr (m, f) ↦
            rw (f, translate_in)
              (write_first-Inv nat _ _ (note_external now p) (λ x. (refl, refl)) inv)
        | inl f ↦
            rw (f, translate_in)
              (add_tail-Inv nat _ (note_external now p (fresh_in nat p)) inv
                (λ q.
                  subst (λ k. nat.assigned_ports k ≡ true) (sym (kept.1))
                    (used (subst InPool (kept.1) q)))
                (rw (kept.0, kept.1) f))
      ]

-- So does an outbound packet that does not go out with port 0.
pub translate_out-Inv :
    (now : ℕ) (p : TcpPacket) (nat : NatTable)
    → Inv nat
    → (translate_out now p nat).1.sport ≢ 0
    → Inv (translate_out now p nat).0
unfolding translate_out note_internal
translate_out-Inv now p nat inv live =
    elim (Option-cases
      (find (is_internal p.saddr p.sport) (nat.nat_mapping_list (remote_hash p.daddr p.dport)))) [
        | inr (m, f) ↦
            rw (f, translate_out)
              (write_first-Inv nat _ _ (note_internal now p) (λ x. (refl, refl)) inv)
        | inl f ↦ elim (assign_port_lem nat) [
          | inl out ↦ absurd (live (rw (translate_out-fresh now p nat f) out.0))
          | inr taken ↦
              rw (f, translate_out)
                (rw taken.table (
                  add_tail-Inv
                    (record nat {
                      assigned_ports = update nat.assigned_ports (assign_port nat).0 true;
                    })
                    (remote_hash p.daddr p.dport)
                    (note_internal now p (fresh_out nat p (assign_port nat).0))
                    (Inv-update nat (assign_port nat).0 inv) (λ q. ground arith)
                    (fresh_free nat.external_ip nat (remote_hash p.daddr p.dport) inv taken)))
        ]
      ]
