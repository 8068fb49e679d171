-- ===== src/Tcp/Stack/Stays.antt =====
-- What each step of tcp_process, in tcp_in.c of EXP18-TCP_Stack_4/code/18-tcp_stack, leaves of a deaf
-- socket that the packet is not for.
use ucas_computer_network.Common.{
  ℕ, ◌≡◌, ◌≢◌, ap, sym, ◌∙◌, not, ◌&&◌, Option, none, some, List, arith, subst, ◌==◌, Bool-cases,
  inl, inr, ◌<◌,
}
use ucas_computer_network.Tcp.Sock.{
  Segment, TcpState, closed, last_ack, time_wait, has_flag, tcp_ack,
}
use ucas_computer_network.Tcp.Output.{TcpCb}
use ucas_computer_network.Tcp.Receive.{Received, returned, sleeping, aborted, is_tcp_seq_valid}
use ucas_computer_network.Tcp.Stack.Store.{socks-set_other, socks-unlink_other}
use ucas_computer_network.Tcp.Stack.Deaf.{Deaf, Deaf-self, Deaf-same}
use ucas_computer_network.Tcp.Stack.{
  Tsk, Stack, Outcome, HashNode, blank, linked, stale, stepped, slept, fault, sock_of, set_tsk,
  set_sock, tcp_sock_accept_enqueue, process_syn_recv, tcp_sock_close, is_kept, tcp_unhash,
  unhash_by, unlink, then_close, follow_state, with_out, settle_sock, tcp_sock_accept_queue_full,
}

module _ {C : Type 0} where
  -- A deaf socket that is in the store.
  pub record Stays (st : Stack C) (i : ℕ) : Type 0 where
    pub deaf : Deaf st i
    pub stored : i < st.next

  -- So it is after a step, if there is one.
  abbrev pub Leaves : ℕ → Outcome C Unit → Type 0
  Leaves i (stepped u st out) = Stays st i
  Leaves i (slept st out) = Stays st i
  Leaves i fault = Unit

  set_tsk-Stays :
      (st : Stack C) (i j : ℕ) (t : Tsk C) → i ≢ j → Stays st i → Stays (set_tsk st j t) i
  unfolding set_tsk
  set_tsk-Stays st i j t ne h = record {
    deaf = Deaf-same st (set_tsk st j t) i (socks-set_other st j i t ne) h.deaf;
    stored = h.stored;
  }

  unlink-Stays : (st : Stack C) (i j : ℕ) → i ≢ j → Stays st i → Stays (unlink st j) i
  unfolding unlink set_tsk
  unlink-Stays st i j ne h = record {
    deaf = Deaf-same st (unlink st j) i (socks-unlink_other st j i ne) h.deaf;
    stored = h.stored;
  }

  unhash-Leaves : (st : Stack C) (i j : ℕ) → i ≢ j → Stays st i → Leaves i (tcp_unhash st j)
  unfolding tcp_unhash unhash_by
  unhash-Leaves st i j ne h = by_node (st.socks j).hash_node
    where
      by_node : (n : HashNode) → Leaves i (unhash_by n st j)
      by_node linked = unlink-Stays st i j ne h
      by_node blank = tt
      by_node stale = tt

  close-Leaves : (r : Outcome C Unit) (i j : ℕ) → i ≢ j → Leaves i r → Leaves i (then_close r j)
  unfolding then_close set_sock
  close-Leaves (stepped u st out) i j ne h = set_tsk-Stays st i j _ ne h
  close-Leaves (slept st out) i j ne h = h
  close-Leaves fault i j ne h = tt

  pub sock_close-Leaves :
      (st : Stack C) (i j : ℕ) → i ≢ j → Stays st i → Leaves i (tcp_sock_close st j)
  unfolding tcp_sock_close set_sock
  sock_close-Leaves st i j ne h = elim (Bool-cases (is_kept (sock_of st j).state)) [
    | inl on ↦ rw on (set_tsk-Stays st i j _ ne h)
    | inr off ↦ rw off (close-Leaves (tcp_unhash st j) i j ne (unhash-Leaves st i j ne h))
  ]

  follow-Leaves :
      (before after : TcpState) (st : Stack C) (i j now : ℕ)
      → i ≢ j
      → Stays st i
      → Leaves i (follow_state before after st j now)
  unfolding follow_state
  follow-Leaves last_ack closed st i j now ne h = unhash-Leaves st i j ne h
  follow-Leaves time_wait time_wait st i j now ne h = h
  follow-Leaves before time_wait st i j now ne h = set_tsk-Stays st i j _ ne h
  follow-Leaves before after st i j now ne h = h

  with_out-Leaves :
      (out : List Segment) (r : Outcome C Unit) (i : ℕ) → Leaves i r → Leaves i (with_out out r)
  unfolding with_out
  with_out-Leaves out (stepped u st out') i h = h
  with_out-Leaves out (slept st out') i h = h
  with_out-Leaves out fault i h = tt

  pub settle-Leaves :
      (before : TcpState) (r : Received C) (st : Stack C) (i j now : ℕ)
      → i ≢ j
      → Stays st i
      → Leaves i (settle_sock before r st j now)
  unfolding settle_sock set_sock
  settle-Leaves before (returned c s out) st i j now ne h =
      with_out-Leaves out (follow_state before s.state (set_sock st j s) j now) i
        (follow-Leaves before s.state (set_sock st j s) i j now ne (set_tsk-Stays st i j _ ne h))
  settle-Leaves before (sleeping s out) st i j now ne h = set_tsk-Stays st i j _ ne h
  settle-Leaves before aborted st i j now ne h = tt

  -- A child comes into the queue of the socket itself, or of another one.
  enqueue-Stays :
      (st : Stack C) (i parent j : ℕ) → Stays st i → Stays (tcp_sock_accept_enqueue st parent j) i
  unfolding tcp_sock_accept_enqueue set_tsk
  enqueue-Stays st i parent j h = elim (Bool-cases (i == parent)) [
    | inl on ↦
        let at : i ≡ parent = ground (arith, on) in
        record {
          deaf =
              subst (λ k. Deaf (tcp_sock_accept_enqueue st parent j) k) (sym at)
                (Deaf-self st parent _ (ap (λ k. (sock_of st k).state) (sym at) ∙ h.deaf.state)
                  (ap (λ k. (st.socks k).parent) (sym at) ∙ h.deaf.root));
          stored = h.stored;
        }
    | inr off ↦ set_tsk-Stays st i parent _ (ground (arith, off)) h
  ]

  pub syn_recv-Leaves :
      (o : Option ℕ) (st : Stack C) (i j : ℕ) (cb : TcpCb)
      → i ≢ j
      → Stays st i
      → Leaves i (process_syn_recv o st j cb)
  unfolding process_syn_recv set_sock
  syn_recv-Leaves none st i j cb ne h = elim (Bool-cases (has_flag cb.flags tcp_ack)) [
    | inl on ↦ rw on tt
    | inr off ↦ rw off h
  ]
  syn_recv-Leaves (some parent) st i j cb ne h =
      elim (Bool-cases (
        has_flag cb.flags tcp_ack
        && not (tcp_sock_accept_queue_full (st.socks parent))
        && is_tcp_seq_valid (sock_of st j) cb)) [
          | inl on ↦ rw on (enqueue-Stays _ i parent j (set_tsk-Stays st i j _ ne h))
          | inr off ↦ rw off h
        ]
