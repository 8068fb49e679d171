-- ===== src/Tcp/Stack/Lookup.antt =====
-- Lookups and hashing while sockets change: tcp_sock.c of EXP18-TCP_Stack_4/code/18-tcp_stack.
use ucas_computer_network.Common.{
  ℕ, ◌≡◌, ◌≢◌, refl, Bool, true, false, Option, none, some, List, [], ◌∷◌, arith, All, Bool-cases,
  inl, inr, ◌==◌,
}
use ucas_computer_network.Tcp.Sock.{
  Sock, TcpState, closed, listen, syn_recv, syn_sent, established, close_wait, last_ack, fin_wait_1,
  fin_wait_2, closing, time_wait,
}
use ucas_computer_network.Tcp.Stack.Tables.{Connects, tcp_hash-Hashed}
use ucas_computer_network.Tcp.Stack.{
  Stack, HashNode, linked, sock_of, set_tsk, set_sock, find_sock, has_tuple, tcp_hash, tcp_hash_by,
  tcp_hash_function, tcp_sock_lookup_established, link_listen, link_established,
}

module _ {C : Type 0} where
  -- Hashing a socket changes nothing of it but its node.
  pub node-hash :
      (st : Stack C) (i : ℕ)
      → (n : HashNode) × ((tcp_hash st i).1.socks i ≡ record (st.socks i) { hash_node = n })
  unfolding tcp_hash tcp_hash_by link_established link_listen set_tsk
  node-hash st i = by_state (sock_of st i).state
    where
      on : (i == i) ≡ true
      on = ground arith

      by_table :
          (o : Option ℕ)
          → (n : HashNode) × ((elim o as (λ x. Bool × Stack C) [
            | none ↦ (true, link_established st i)
            | some k ↦ (false, st)
          ]).1.socks
                i
              ≡ record (st.socks i) { hash_node = n })
      by_table none = (linked, rw on refl)
      by_table (some k) = ((st.socks i).hash_node, refl)

      by_state :
          (s : TcpState)
          → (n : HashNode) × ((tcp_hash_by s st i).1.socks i
              ≡ record (st.socks i) { hash_node = n })
      by_state closed = ((st.socks i).hash_node, refl)
      by_state listen = (linked, rw on refl)
      by_state syn_recv = by_table _
      by_state syn_sent = by_table _
      by_state established = by_table _
      by_state close_wait = by_table _
      by_state last_ack = by_table _
      by_state fin_wait_1 = by_table _
      by_state fin_wait_2 = by_table _
      by_state closing = by_table _
      by_state time_wait = by_table _

  -- A bucket of sockets on which the test is the same.
  pub find-like :
      (st st' : Stack C) (test : Sock C → Bool) (k : ℕ) (is : List ℕ)
      → ((j : ℕ) → j ≢ k → test (sock_of st' j) ≡ test (sock_of st j))
      → All (λ j. j ≢ k) is
      → find_sock st' test is ≡ find_sock st test is
  unfolding find_sock
  find-like st st' test k [] same h = refl
  find-like st st' test k (j ∷ js) same (ne, h) =
      rw (same j ne, find-like st st' test k js same h) refl

  find-all :
      (st st' : Stack C) (test : Sock C → Bool) (is : List ℕ)
      → ((j : ℕ) → test (sock_of st' j) ≡ test (sock_of st j))
      → find_sock st' test is ≡ find_sock st test is
  unfolding find_sock
  find-all st st' test [] same = refl
  find-all st st' test (j ∷ js) same = rw (same j, find-all st st' test js same) refl

  pub tuple-state :
      (saddr daddr sport dport : ℕ) (s : Sock C) (t : TcpState)
      → has_tuple saddr daddr sport dport (record s { state = t })
        ≡ has_tuple saddr daddr sport dport s
  unfolding has_tuple
  tuple-state saddr daddr sport dport s t = refl

  -- A lookup does not see a change of one socket that keeps its addresses and ports.
  pub lookup-set :
      (st : Stack C) (k : ℕ) (s : Sock C) (saddr daddr sport dport : ℕ)
      → has_tuple saddr daddr sport dport s ≡ has_tuple saddr daddr sport dport (sock_of st k)
      → tcp_sock_lookup_established (set_sock st k s) saddr daddr sport dport
        ≡ tcp_sock_lookup_established st saddr daddr sport dport
  unfolding tcp_sock_lookup_established set_sock set_tsk
  lookup-set st k s saddr daddr sport dport same =
      find-all st (set_sock st k s) (has_tuple saddr daddr sport dport)
        (st.established_table (tcp_hash_function saddr daddr sport dport))
        (λ j. elim (Bool-cases (j == k)) [
          | inl on ↦ let at : j ≡ k = ground (arith, on) in rw (on, sock_of) (rw at same)
          | inr off ↦ rw (off, sock_of) refl
        ])

  pub hashed-found :
      (st : Stack C) (k : ℕ)
      → Connects (sock_of st k).state
      → (tcp_sock_lookup_established st
            (sock_of st k).sip
            (sock_of st k).dip
            (sock_of st k).sport
            (sock_of st k).dport
          ≡ none)
      → tcp_sock_lookup_established
          (tcp_hash st k).1
          (sock_of st k).sip
          (sock_of st k).dip
          (sock_of st k).sport
          (sock_of st k).dport
        ≡ some k
  hashed-found st k connects free =
      let hashed = tcp_hash-Hashed st k connects in
      elim (Bool-cases (tcp_hash st k).0) [
        | inl on ↦ (hashed.entered on).1
        | inr off ↦ let (j, taken, _) = hashed.taken off in cc
      ]
