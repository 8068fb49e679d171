-- ===== src/Tcp/Stack/Start/Serving.antt =====
-- From the allocation of a socket to the packets that reach it: tcp_sock_bind, tcp_sock_listen and
-- tcp_sock_lookup of EXP18-TCP_Stack_4/code/18-tcp_stack/tcp_sock.c.
use ucas_computer_network.Common.{
  ℕ, suc, ◌≡◌, refl, ap, sym, ◌∙◌, Bool, true, none, some, List, [], ◌∷◌, arith, ◌==◌, Bool-cases,
  inl, inr,
}
use ucas_computer_network.Tcp.Sock.{Sock, listen}
use ucas_computer_network.Tcp.Output.{TcpCb}
use ucas_computer_network.Tcp.Stack.{
  Tsk, Stack, has_tuple, sock_of, set_tsk, set_sock, find_sock, or_else, tcp_bind_hash, link_listen,
  tcp_hash, tcp_hash_by, tcp_hash_function, tcp_sock_lookup, tcp_sock_lookup_established,
  tcp_sock_lookup_listen, tcp_sock_listen, tcp_sock_set_sport, bind_to, tcp_port_in_use, reads_port,
}
use ucas_computer_network.Tcp.Stack.Start.{new_sock, init_tcp_stack, tcp_sock_bind}

module _ {C : Type 0} where
  socks-set_tsk : (st : Stack C) (i : ℕ) (t : Tsk C) → (set_tsk st i t).socks i ≡ t
  unfolding set_tsk
  socks-set_tsk st i t = let here : (i == i) ≡ true = ground arith in rw here refl

  sock_of-link_listen : (st : Stack C) (i : ℕ) → sock_of (link_listen st i) i ≡ sock_of st i
  unfolding link_listen set_tsk
  sock_of-link_listen st i = let here : (i == i) ≡ true = ground arith in rw (here, sock_of) refl

  bucket-link_listen :
      (st : Stack C) (i : ℕ)
      → (link_listen st i).listen_table (tcp_hash_function 0 0 (sock_of st i).sport 0)
        ≡ i ∷ st.listen_table (tcp_hash_function 0 0 (sock_of st i).sport 0)
  unfolding link_listen set_tsk
  bucket-link_listen st i =
      let h = tcp_hash_function 0 0 (sock_of st i).sport 0 in
      let same : (h == h) ≡ true = ground arith in rw same refl

  find-head :
      (st : Stack C) (test : Sock C → Bool) (i : ℕ) (is : List ℕ)
      → test (sock_of st i) ≡ true
      → find_sock st test (i ∷ is) ≡ some i
  unfolding find_sock
  find-head st test i is h = rw h refl

  -- A socket that is put in the table of the listening sockets is found there.
  link-found :
      (st : Stack C) (i : ℕ)
      → tcp_sock_lookup_listen (link_listen st i) (sock_of st i).sport ≡ some i
  unfolding tcp_sock_lookup_listen
  link-found st i =
      let p = (sock_of st i).sport in
      let same : (p == p) ≡ true = ground arith in
      ap (find_sock (link_listen st i) (λ s. p == s.sport)) (bucket-link_listen st i)
      ∙ find-head (link_listen st i) (λ s. p == s.sport) i _
          (ap (λ s. p == s.sport) (sock_of-link_listen st i) ∙ same)

  hash-listen :
      (st : Stack C) (i : ℕ) (t : Tsk C)
      → t.sock.state ≡ listen
      → (tcp_hash (set_tsk st i t) i).1 ≡ link_listen (set_tsk st i t) i
  unfolding tcp_hash tcp_hash_by
  hash-listen st i t h =
      let at : (sock_of (set_tsk st i t) i).state ≡ listen =
        ap (λ x. x.sock.state) (socks-set_tsk st i t) ∙ h in
      rw at refl

  listen-found :
      (st : Stack C) (i backlog : ℕ)
      → tcp_sock_lookup_listen (tcp_sock_listen st i backlog).1 (sock_of st i).sport ≡ some i
  unfolding tcp_sock_listen
  listen-found st i backlog =
      let t = record (st.socks i) {
        backlog = backlog;
        sock = record (sock_of st i) { state = listen };
      } in
      let st' = set_tsk st i t in
      let port : (sock_of st' i).sport ≡ (sock_of st i).sport =
        ap (λ x. x.sock.sport) (socks-set_tsk st i t) in
      ap (λ x. tcp_sock_lookup_listen x (sock_of st i).sport) (hash-listen st i t refl)
      ∙ ap (tcp_sock_lookup_listen (link_listen st' i)) (sym port)
      ∙ link-found st' i

  -- What a successful bind to a port makes.
  bind-port :
      (address : ℕ → ℕ) (st : Stack C) (i p : ℕ)
      → (tcp_sock_bind address st i (suc p)).0 ≡ true
      → (sock_of (tcp_sock_bind address st i (suc p)).1 i).sport ≡ suc p
  unfolding tcp_sock_bind tcp_sock_set_sport bind_to tcp_bind_hash set_sock set_tsk
  bind-port address st i p h = elim (Bool-cases (tcp_port_in_use address st (suc p))) [
    | inl used ↦ absurd (ground (arith, rw used at h))
    | inr free ↦ let here : (i == i) ≡ true = ground arith in rw (free, here, sock_of) refl
  ]

  -- On any host, after a socket has been bound to a port other than 0 with success and then listens,
  -- a packet to that port that belongs to no connection in the table is given to this socket.
  pub server-found :
      (address : ℕ → ℕ) (st : Stack C) (i p backlog : ℕ) (cb : TcpCb)
      → (tcp_sock_bind address st i (suc p)).0 ≡ true
      → cb.dport ≡ suc p
      → tcp_sock_lookup_established
          (tcp_sock_listen (tcp_sock_bind address st i (suc p)).1 i backlog).1
          cb.daddr
          cb.saddr
          cb.dport
          cb.sport
        ≡ none
      → tcp_sock_lookup (tcp_sock_listen (tcp_sock_bind address st i (suc p)).1 i backlog).1 cb
        ≡ some i
  unfolding tcp_sock_lookup or_else
  server-found address st i p backlog cb bound port free =
      let st' = (tcp_sock_bind address st i (suc p)).1 in
      rw free (
        ap (tcp_sock_lookup_listen (tcp_sock_listen st' i backlog).1)
          (port ∙ sym (bind-port address st i p bound))
        ∙ listen-found st' i backlog)

  bind-init :
      (address : ℕ → ℕ) (one : C) (p : ℕ)
      → tcp_sock_bind address (new_sock one (init_tcp_stack one)).1 0 (suc p)
        ≡ bind_to address (new_sock one (init_tcp_stack one)).1 0 (suc p)
  unfolding tcp_sock_bind tcp_sock_set_sport tcp_port_in_use reads_port init_tcp_stack new_sock
      set_tsk
  bind-init address one p = refl

  pub bound :
      (address : ℕ → ℕ) (one : C) (p : ℕ)
      → (tcp_sock_bind address (new_sock one (init_tcp_stack one)).1 0 (suc p)).0 ≡ true
  unfolding bind_to
  bound address one p = ap (λ x. x.0) (bind-init address one p)

  table-link : (st : Stack C) (i : ℕ) → (link_listen st i).established_table ≡ st.established_table
  unfolding link_listen set_tsk
  table-link st i = refl

  table-set :
      (st : Stack C) (i : ℕ) (t : Tsk C) → (set_tsk st i t).established_table ≡ st.established_table
  unfolding set_tsk
  table-set st i t = refl

  pub table-listen :
      (st : Stack C) (i backlog : ℕ)
      → (tcp_sock_listen st i backlog).1.established_table ≡ st.established_table
  unfolding tcp_sock_listen
  table-listen st i backlog =
      let t = record (st.socks i) {
        backlog = backlog;
        sock = record (sock_of st i) { state = listen };
      } in
      ap (λ x. x.established_table) (hash-listen st i t refl)
      ∙ table-link (set_tsk st i t) i
      ∙ table-set st i t

  pub table-start :
      (address : ℕ → ℕ) (one : C) (p : ℕ)
      → (tcp_sock_bind address (new_sock one (init_tcp_stack one)).1 0 (suc p)).1.established_table
        ≡ (λ h. [])
  unfolding init_tcp_stack new_sock set_tsk bind_to tcp_bind_hash set_sock
  table-start address one p = ap (λ x. x.1.established_table) (bind-init address one p)

  pub none-established :
      (st : Stack C) (saddr daddr sport dport : ℕ)
      → st.established_table ≡ (λ h. [])
      → tcp_sock_lookup_established st saddr daddr sport dport ≡ none
  unfolding tcp_sock_lookup_established find_sock
  none-established st saddr daddr sport dport h =
      ap
        (λ t.
          find_sock st (has_tuple saddr daddr sport dport)
            (t (tcp_hash_function saddr daddr sport dport)))
        h

  -- On a host that has just started, a socket that is allocated, bound to a port other than 0 and
  -- listens is given every packet to that port.
  pub first_server :
      (address : ℕ → ℕ) (one : C) (p backlog : ℕ) (cb : TcpCb)
      → cb.dport ≡ suc p
      → tcp_sock_lookup
          (tcp_sock_listen
            (tcp_sock_bind address (new_sock one (init_tcp_stack one)).1 0 (suc p)).1
            0
            backlog).1
          cb
        ≡ some 0
  first_server address one p backlog cb port =
      let st = (tcp_sock_bind address (new_sock one (init_tcp_stack one)).1 0 (suc p)).1 in
      server-found address (new_sock one (init_tcp_stack one)).1 0 p backlog cb
        (bound address one p) port
        (none-established (tcp_sock_listen st 0 backlog).1 cb.daddr cb.saddr cb.dport cb.sport
          (table-listen st 0 backlog ∙ table-start address one p))
