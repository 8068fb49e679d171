-- ===== src/Tcp/Stack/Tables.antt =====
-- The table of the established sockets as a map from addresses and ports to sockets.
use ucas_computer_network.Common.{
  ℕ, ◌≡◌, ◌≢◌, refl, ap, ◌∙◌, Bool, true, false, Option, none, some, List, [], ◌∷◌, arith, ◌==◌,
  if◌then◌else◌, Bool-cases, Option-cases, inl, inr,
}
use ucas_computer_network.Tcp.Sock.{
  Sock, TcpState, closed, listen, syn_recv, syn_sent, established, close_wait, last_ack, fin_wait_1,
  fin_wait_2, closing, time_wait,
}
use ucas_computer_network.Tcp.Stack.{
  Stack, sock_of, set_tsk, find_sock, has_tuple, tcp_sock_lookup_established, link_established,
  link_listen, tcp_hash, tcp_hash_by, tcp_hash_function,
}

-- Connected states: neither CLOSED nor LISTEN.
abbrev pub Connects : TcpState → Type 0
Connects closed = ⊥
Connects listen = ⊥
Connects other = Unit {0}

module _ {C : Type 0} where
  find-cong :
      (st st' : Stack C) (test : Sock C → Bool) (is : List ℕ)
      → ((j : ℕ) → sock_of st' j ≡ sock_of st j)
      → find_sock st' test is ≡ find_sock st test is
  unfolding find_sock
  find-cong st st' test [] same = refl
  find-cong st st' test (i ∷ is) same = rw (same i, find-cong st st' test is same) refl

  sock_of-link : (st : Stack C) (i j : ℕ) → sock_of (link_established st i) j ≡ sock_of st j
  unfolding link_established set_tsk
  sock_of-link st i j = elim (Bool-cases (j == i)) [
    | inl on ↦ let at : j ≡ i = ground (arith, on) in rw (on, sock_of) (rw at refl)
    | inr off ↦ rw (off, sock_of) refl
  ]

  -- Hashing a socket leaves the others alone.
  pub socks-hash_other : (st : Stack C) (i j : ℕ) → j ≢ i → (tcp_hash st i).1.socks j ≡ st.socks j
  unfolding tcp_hash tcp_hash_by link_established link_listen set_tsk
  socks-hash_other st i j h = by_state (sock_of st i).state
    where
      off : (j == i) ≡ false
      off = ground (arith, h)

      by_table :
          (o : Option ℕ)
          → (elim o as (λ x. Bool × Stack C) [
            | none ↦ (true, link_established st i)
            | some k ↦ (false, st)
          ]).1.socks
              j
            ≡ st.socks j
      by_table none = rw off refl
      by_table (some k) = refl

      by_state : (s : TcpState) → (tcp_hash_by s st i).1.socks j ≡ st.socks j
      by_state closed = refl
      by_state listen = rw off refl
      by_state syn_recv = by_table _
      by_state syn_sent = by_table _
      by_state established = by_table _
      by_state close_wait = by_table _
      by_state last_ack = by_table _
      by_state fin_wait_1 = by_table _
      by_state fin_wait_2 = by_table _
      by_state closing = by_table _
      by_state time_wait = by_table _

  -- What hashing the socket `i` makes of the table, by the result.
  pub record Hashed (st : Stack C) (i : ℕ) (r : Bool × Stack C) : Type 0 where
    pub entered :
        r.0 ≡ true
        → (tcp_sock_lookup_established st
              (sock_of st i).sip
              (sock_of st i).dip
              (sock_of st i).sport
              (sock_of st i).dport
            ≡ none)
          × (tcp_sock_lookup_established r.1
                (sock_of st i).sip
                (sock_of st i).dip
                (sock_of st i).sport
                (sock_of st i).dport
              ≡ some i)
    pub taken :
        r.0 ≡ false
        → (j : ℕ) × (tcp_sock_lookup_established st
              (sock_of st i).sip
              (sock_of st i).dip
              (sock_of st i).sport
              (sock_of st i).dport
            ≡ some j)
          × (r.1 ≡ st)
    pub others :
        (saddr daddr sport dport : ℕ)
        → has_tuple saddr daddr sport dport (sock_of st i) ≡ false
        → tcp_sock_lookup_established r.1 saddr daddr sport dport
          ≡ tcp_sock_lookup_established st saddr daddr sport dport

  tuple_self : (s : Sock C) → has_tuple s.sip s.dip s.sport s.dport s ≡ true
  unfolding has_tuple
  tuple_self s = ground arith

  hash_of : Sock C → ℕ
  hash_of s = tcp_hash_function s.sip s.dip s.sport s.dport

  bucket-link :
      (st : Stack C) (i k : ℕ)
      → (link_established st i).established_table k ≡ (
          if k == hash_of (sock_of st i)
          then i ∷ st.established_table (hash_of (sock_of st i))
          else st.established_table k)
  unfolding link_established set_tsk hash_of
  bucket-link st i k = refl

  -- A lookup after, by the test and the bucket.
  find-link :
      (st : Stack C) (i : ℕ) (test : Sock C → Bool) (is : List ℕ)
      → find_sock (link_established st i) test (i ∷ is)
        ≡ (if test (sock_of st i) then some i else find_sock st test is)
  unfolding find_sock
  find-link st i test is =
      rw (sock_of-link st i i, find-cong st (link_established st i) test is (sock_of-link st i))
        refl

  entered_lem :
      (st : Stack C) (i : ℕ)
      → tcp_sock_lookup_established
          (link_established st i)
          (sock_of st i).sip
          (sock_of st i).dip
          (sock_of st i).sport
          (sock_of st i).dport
        ≡ some i
  unfolding tcp_sock_lookup_established hash_of
  entered_lem st i =
      let s = sock_of st i in
      let test : Sock C → Bool = has_tuple s.sip s.dip s.sport s.dport in
      let same : (hash_of s == hash_of s) ≡ true = ground arith in
      ap (find_sock (link_established st i) test) (bucket-link st i (hash_of s) ∙ rw same refl)
      ∙ find-link st i test (st.established_table (hash_of s))
      ∙ rw (tuple_self s) refl

  others_lem :
      (st : Stack C) (i saddr daddr sport dport : ℕ)
      → has_tuple saddr daddr sport dport (sock_of st i) ≡ false
      → tcp_sock_lookup_established (link_established st i) saddr daddr sport dport
        ≡ tcp_sock_lookup_established st saddr daddr sport dport
  unfolding tcp_sock_lookup_established
  others_lem st i saddr daddr sport dport h =
      let test : Sock C → Bool = has_tuple saddr daddr sport dport in
      let k = tcp_hash_function saddr daddr sport dport in
      let l = hash_of (sock_of st i) in
      elim (Bool-cases (k == l)) [
        | inl on ↦
            let at : k ≡ l = ground (arith, on) in
            ap (find_sock (link_established st i) test) (bucket-link st i k ∙ rw on refl)
            ∙ find-link st i test (st.established_table l)
            ∙ rw (h, ← at) refl
        | inr off ↦
            ap (find_sock (link_established st i) test) (bucket-link st i k ∙ rw off refl)
            ∙ find-cong st (link_established st i) test (st.established_table k) (sock_of-link st i)
      ]

  hash_by-Hashed :
      (st : Stack C) (i : ℕ)
      → Hashed st i
          (elim (tcp_sock_lookup_established st
            (sock_of st i).sip
            (sock_of st i).dip
            (sock_of st i).sport
            (sock_of st i).dport) [ none ↦ (true, link_established st i) | some j ↦ (false, st) ])
  hash_by-Hashed st i =
      let s = sock_of st i in
      elim (Option-cases (tcp_sock_lookup_established st s.sip s.dip s.sport s.dport)) [
        | inl free ↦ rw free (record {
          entered = λ e. (free, entered_lem st i);
          taken = λ e. cc;
          others = others_lem st i;
        })
        | inr (j, found) ↦ rw found (record {
          entered = λ e. cc;
          taken = λ e. (j, found, refl);
          others = λ saddr daddr sport dport h. refl;
        })
      ]

  -- Hashing a socket that is connected (in any state but CLOSED and LISTEN) enters it in the table of
  -- the established sockets under its addresses and ports exactly when the lookup of these finds no
  -- socket: it is then what the lookup finds, and all lookups of other addresses and ports are as
  -- before. If the lookup finds a socket already, nothing changes at all and -1 is returned.
  pub tcp_hash-Hashed :
      (st : Stack C) (i : ℕ) → Connects (sock_of st i).state → Hashed st i (tcp_hash st i)
  unfolding tcp_hash tcp_hash_by
  tcp_hash-Hashed st i h = by_state (sock_of st i).state h
    where
      by_state : (s : TcpState) → Connects s → Hashed st i (tcp_hash_by s st i)
      by_state syn_recv h = hash_by-Hashed st i
      by_state syn_sent h = hash_by-Hashed st i
      by_state established h = hash_by-Hashed st i
      by_state close_wait h = hash_by-Hashed st i
      by_state last_ack h = hash_by-Hashed st i
      by_state fin_wait_1 h = hash_by-Hashed st i
      by_state fin_wait_2 h = hash_by-Hashed st i
      by_state closing h = hash_by-Hashed st i
      by_state time_wait h = hash_by-Hashed st i
      by_state closed h = absurd h
      by_state listen h = absurd h
