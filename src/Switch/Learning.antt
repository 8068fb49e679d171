-- ===== src/Switch/Learning.antt =====
-- The table as a map from addresses to ports, and what a packet does to it.
use ucas_computer_network.Common.{
  ℕ, suc, ◌≡◌, ◌≢◌, refl, true, not, Option, none, some, List, [], ◌∷◌, ◌++◌, arith, if◌then◌else◌,
  ◌==◌, keep, Bool-cases, inl, inr, ◌∙◌, ap,
}
use ucas_computer_network.Common.Tables.{hash8}
use ucas_computer_network.Switch.{
  MacPortEntry, MacPortMap, mac_cmp, mac_cmp_from, find_mac, visit, lookup_port, insert_mac_port,
  broadcast_packet, handle_packet, learn, send_on,
}

-- The port that the table has for an address.
abbrev pub port_of : MacPortMap → List ℕ → Option ℕ
port_of t mac = find_mac mac (t (hash8 mac))

-- What a switch learns: the first port that it has seen an address at.
abbrev pub learnt : Option ℕ → ℕ → Option ℕ
learnt none iface = some iface
learnt (some i) iface = some i

mac_cmp_from_self : (i : ℕ) (m : List ℕ) → mac_cmp_from i m m ≡ 0
unfolding mac_cmp_from
mac_cmp_from_self i [] = refl
mac_cmp_from_self i (x ∷ xs) = ground (arith, mac_cmp_from_self (suc i) xs)

mac_cmp_self : (m : List ℕ) → mac_cmp m m ≡ 0
unfolding mac_cmp
mac_cmp_self m = mac_cmp_from_self 0 m

find-visit :
    (now : ℕ) (seen m : List ℕ) (es : List MacPortEntry)
    → find_mac m (visit now seen es) ≡ find_mac m es
unfolding find_mac visit
find-visit now seen m [] = refl
find-visit now seen m (e ∷ es) = ground (arith, find-visit now seen m es)

-- Lookups move no address to another port.
port_of-lookup :
    (now : ℕ) (seen m : List ℕ) (t : MacPortMap)
    → port_of (lookup_port now seen t).1 m ≡ port_of t m
unfolding lookup_port
port_of-lookup now seen m t = elim (Bool-cases (hash8 m == hash8 seen)) [
  | inl same ↦
      let at : hash8 m ≡ hash8 seen = ground arith in
      rw same (rw at (find-visit now seen m (t (hash8 seen))))
  | inr other ↦ rw other refl
]

find-append :
    (m : List ℕ) (es : List MacPortEntry) (e : MacPortEntry)
    → find_mac m (es ++ (e ∷ [])) ≡ elim (find_mac m es) [
      | none ↦ if mac_cmp e.mac m == 0 then some e.iface else none
      | some i ↦ some i
    ]
unfolding find_mac
find-append m [] e = refl
find-append m (x ∷ xs) e = elim (Bool-cases (mac_cmp x.mac m == 0)) [
  | inl here ↦ rw here refl
  | inr later ↦ rw (later, find_mac) (find-append m xs e)
]

find-append_new :
    (m : List ℕ) (es : List MacPortEntry) (e : MacPortEntry)
    → find_mac m es ≡ none
    → mac_cmp e.mac m ≡ 0
    → find_mac m (es ++ (e ∷ [])) ≡ some e.iface
find-append_new m es e h k = find-append m es e ∙ ground (arith, h, k)

find-append_other :
    (m : List ℕ) (es : List MacPortEntry) (e : MacPortEntry)
    → mac_cmp e.mac m ≢ 0
    → find_mac m (es ++ (e ∷ [])) ≡ find_mac m es
find-append_other m es e k = find-append m es e ∙ ground (arith, k)

port_of-insert_self :
    (now iface : ℕ) (mac : List ℕ) (t : MacPortMap)
    → port_of t mac ≡ none
    → port_of (insert_mac_port now mac iface t) mac ≡ some iface
unfolding insert_mac_port
port_of-insert_self now iface mac t h =
    let same : (hash8 mac == hash8 mac) ≡ true = ground arith in
    rw same (
      find-append_new mac (t (hash8 mac)) (record { mac = mac; iface = iface; visited = now }) h
        (mac_cmp_self mac))

port_of-insert_other :
    (now iface : ℕ) (mac m : List ℕ) (t : MacPortMap)
    → mac_cmp mac m ≢ 0
    → port_of (insert_mac_port now mac iface t) m ≡ port_of t m
unfolding insert_mac_port
port_of-insert_other now iface mac m t h = elim (Bool-cases (hash8 m == hash8 mac)) [
  | inl same ↦
      let at : hash8 m ≡ hash8 mac = ground arith in
      rw same (
        rw at (
          find-append_other m (t (hash8 mac)) (record { mac = mac; iface = iface; visited = now })
            h))
  | inr elsewhere ↦ rw elsewhere refl
]

port_of-learn :
    (now iface : ℕ) (shost other : List ℕ) (t : MacPortMap) (known : Option ℕ)
    → mac_cmp shost other ≢ 0
    → port_of t shost ≡ known
    → (port_of (learn now shost iface known t) shost ≡ learnt known iface)
      × (port_of (learn now shost iface known t) other ≡ port_of t other)
unfolding learn
port_of-learn now iface shost other t none h k =
    (port_of-insert_self now iface shost t k, port_of-insert_other now iface shost other t h)
port_of-learn now iface shost other t (some i) h k = (k, refl)

out-send_on :
    (ifaces : List ℕ) (iface : ℕ) (port : Option ℕ)
    → send_on ifaces iface port
      ≡ elim port [ none ↦ keep (λ i. not (i == iface)) ifaces | some i ↦ i ∷ [] ]
unfolding send_on broadcast_packet
out-send_on ifaces iface none = refl
out-send_on ifaces iface (some i) = refl

-- A packet goes out of the port that the table has for its destination, and of every interface but
-- its own if there is none; it teaches the switch its source, unless that is known already, and
-- changes the port of no other address.
pub handle_packet_lem :
    (now iface : ℕ) (ifaces dhost shost other : List ℕ) (t : MacPortMap)
    → mac_cmp shost other ≢ 0
    → let (t', out) = handle_packet now ifaces iface dhost shost t in
      (out
        ≡ elim (port_of t dhost) [ none ↦ keep (λ i. not (i == iface)) ifaces | some i ↦ i ∷ [] ])
      × (port_of t' shost ≡ learnt (port_of t shost) iface)
      × (port_of t' other ≡ port_of t other)
unfolding handle_packet lookup_port
handle_packet_lem now iface ifaces dhost shost other t h =
    let t₁ = (lookup_port now dhost t).1 in
    let t₂ = (lookup_port now shost t₁).1 in
    let taught =
      port_of-learn now iface shost other t₂ (port_of t₁ shost) h
        (port_of-lookup now shost shost t₁) in
    (
      out-send_on ifaces iface (port_of t dhost),
      taught.0 ∙ ap (λ k. learnt k iface) (port_of-lookup now dhost shost t),
      taught.1 ∙ port_of-lookup now shost other t₁ ∙ port_of-lookup now dhost other t,
    )
