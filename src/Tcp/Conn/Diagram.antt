-- ===== src/Tcp/Conn/Diagram.antt =====
-- The states of a connection, as tcp_process, tcp_sock_close and the timeout move them.
use ucas_computer_network.Common.{
  ℕ, ◌+◌, if◌then◌else◌, ◌<◌, ◌≡◌, ◌⊎◌, inl, inr, refl, ap, sym, ◌∙◌, Bool, ◌&&◌, List, arith, ◌==◌,
  length, Bool-cases, subst,
}
use ucas_computer_network.Tcp.Sock.{
  Sock, Segment, Float, TcpState, closed, listen, syn_recv, syn_sent, established, close_wait,
  last_ack, fin_wait_1, fin_wait_2, closing, time_wait, has_flag, tcp_fin, tcp_ack, tcp_syn,
}
use ucas_computer_network.Tcp.Output.{
  TcpCb, tcp_send_packet, add_send_buffer_entry, tcp_unset_retrans_timer,
}
use ucas_computer_network.Tcp.Output.State.{state-send, state-set_timer, state-update_timer}
use ucas_computer_network.Tcp.Receive.{
  Received, returned, sleeping, aborted, is_tcp_seq_valid, handle_recv_data,
}
use ucas_computer_network.Tcp.Receive.State.{Leaves, Leaves-handle_recv_data}
use ucas_computer_network.Tcp.Reno.{scan_retrans_timer}
use ucas_computer_network.Tcp.Reno.Closing.{state-process, state-scan}
use ucas_computer_network.Tcp.Conn.{
  process_by, process_established, process_ack, tcp_update_window_safe, process_syn_sent,
  process_fin, process_last_ack, process_fin_wait_1, process_fin_wait_2, close_by, close_sock,
  acknowledge, has_flags, read_sock, write_round,
}

infix 40 ◌⟶◌
pub data ◌⟶◌ : TcpState → TcpState → Type 0 where
  open_client : syn_sent ⟶ established
  peer_closes : established ⟶ close_wait
  we_close : established ⟶ fin_wait_1
  close_after : close_wait ⟶ last_ack
  fin_acked : fin_wait_1 ⟶ fin_wait_2
  both_close : fin_wait_1 ⟶ time_wait
  fin_after : fin_wait_2 ⟶ time_wait
  drop_it : {a : TcpState} → a ⟶ closed

abbrev pub Moves : TcpState → TcpState → Type 0
Moves a b = (b ≡ a) ⊎ (a ⟶ b)

-- How far a connection has come.
rank : TcpState → ℕ
rank closed = 5
rank listen = 0
rank syn_recv = 0
rank syn_sent = 0
rank established = 1
rank close_wait = 2
rank last_ack = 3
rank fin_wait_1 = 2
rank fin_wait_2 = 3
rank closing = 3
rank time_wait = 4

along : {a b c : TcpState} → c ≡ b → a ⟶ b → Moves a c
along {a} {b} {c} e m = inr (subst (λ x. a ⟶ x) (sym e) m)

module _ {C : Type 0} where
  fin_wait_2-Moves :
      (s : Sock C) (cb : TcpCb)
      → s.state ≡ fin_wait_2
      → (process_fin_wait_2 s cb).0.state
        ≡ (if has_flag cb.flags tcp_fin then time_wait else fin_wait_2)
  unfolding process_fin_wait_2
  fin_wait_2-Moves s cb e = ground (arith, e)

  syn_sent-Moves :
      (s : Sock C) (cb : TcpCb)
      → s.state ≡ syn_sent
      → Moves syn_sent (process_syn_sent s cb).0.state
  unfolding process_syn_sent
  syn_sent-Moves s cb e = elim (Bool-cases (has_flags cb.flags (tcp_syn + tcp_ack))) [
    | inl both ↦ rw both (along (state-send _ tcp_ack) open_client)
    | inr other ↦ rw other (inl e)
  ]

  fin-Moves :
      (s : Sock C) (cb : TcpCb)
      → s.state ≡ established
      → Moves established (process_fin s cb).0.state
  unfolding process_fin
  fin-Moves s cb e = elim (Bool-cases (is_tcp_seq_valid s cb)) [
    | inl ok ↦ rw ok (along (state-send _ tcp_ack) peer_closes)
    | inr bad ↦ rw bad (inl e)
  ]

  last_ack-Moves :
      (s : Sock C) (cb : TcpCb) → s.state ≡ last_ack → Moves last_ack (process_last_ack s cb).state
  unfolding process_last_ack
  last_ack-Moves s cb e = elim (Bool-cases (has_flag cb.flags tcp_ack && is_tcp_seq_valid s cb)) [
    | inl ok ↦ rw ok (inr drop_it)
    | inr bad ↦ rw bad (inl e)
  ]

  fin_wait_1-Moves :
      (s : Sock C) (cb : TcpCb)
      → s.state ≡ fin_wait_1
      → Moves fin_wait_1 (process_fin_wait_1 s cb).0.state
  unfolding process_fin_wait_1
  fin_wait_1-Moves s cb e = elim (Bool-cases (has_flag cb.flags tcp_ack && is_tcp_seq_valid s cb)) [
    | inl ok ↦ rw ok (
        let after =
          fin_wait_2-Moves (record (acknowledge cb.ack s) { state = fin_wait_2 }) cb refl in
        elim (Bool-cases (has_flag cb.flags tcp_fin)) [
          | inl fin ↦ along (after ∙ rw fin refl) both_close
          | inr more ↦ along (after ∙ rw more refl) fin_acked
        ])
    | inr bad ↦ rw bad (inl e)
  ]

  close-Moves : (st : TcpState) (s : Sock C) → s.state ≡ st → Moves st (close_by st s).0.state
  unfolding close_by
  close-Moves closed s e = inl e
  close-Moves established s e = along (state-send _ _ ∙ state-set_timer _) we_close
  close-Moves close_wait s e = inr close_after
  close-Moves listen s e = inr drop_it
  close-Moves syn_recv s e = inr drop_it
  close-Moves syn_sent s e = inr drop_it
  close-Moves last_ack s e = inr drop_it
  close-Moves fin_wait_1 s e = inr drop_it
  close-Moves fin_wait_2 s e = inr drop_it
  close-Moves closing s e = inr drop_it
  close-Moves time_wait s e = inr drop_it

module _ (f : Float) where
  open f use {Cwnd}

  state-window : (s : Sock Cwnd) (cb : TcpCb) → (tcp_update_window_safe f s cb).state ≡ s.state
  unfolding tcp_update_window_safe
  state-window s cb = ground arith

  Leaves-Moves : (st : TcpState) (r : Received Cwnd) → Leaves (λ t. t ≡ st) r → Leaves (Moves st) r
  Leaves-Moves st (returned c s out) h = inl h
  Leaves-Moves st (sleeping s out) h = inl h
  Leaves-Moves st aborted h = h

  established-Moves :
      (s : Sock Cwnd) (cb : TcpCb)
      → s.state ≡ established
      → Leaves (Moves established) (process_established f s cb)
  unfolding process_established process_ack
  established-Moves s cb e = elim (Bool-cases (has_flag cb.flags tcp_fin)) [
    | inl fin ↦ rw fin (fin-Moves s cb e)
    | inr more ↦ rw more (elim (Bool-cases (has_flag cb.flags tcp_ack)) [
      | inl acks ↦ rw acks (elim (Bool-cases (length cb.payload == 0)) [
        | inl bare ↦
            rw bare (inl (state-process f _ cb.ack ∙ state-update_timer _ ∙ state-window _ cb ∙ e))
        | inr filled ↦ rw filled (
            Leaves-Moves established (handle_recv_data s cb) (
              subst (λ st. Leaves (λ t. t ≡ st) (handle_recv_data s cb)) e
                (Leaves-handle_recv_data s cb)))
      ])
      | inr neither ↦ rw neither (inl e)
    ])
  ]

  -- Whatever packet arrives (without RST), the socket stays in its state or moves along an arrow of the diagram.
  pub process-Moves :
      (st : TcpState) (s : Sock Cwnd) (cb : TcpCb)
      → s.state ≡ st
      → Leaves (Moves st) (process_by f st s cb)
  unfolding process_by process_fin_wait_2
  process-Moves syn_sent s cb e = syn_sent-Moves s cb e
  process-Moves established s cb e = established-Moves s cb e
  process-Moves last_ack s cb e = last_ack-Moves s cb e
  process-Moves fin_wait_1 s cb e = fin_wait_1-Moves s cb e
  process-Moves fin_wait_2 s cb e = elim (Bool-cases (has_flag cb.flags tcp_fin)) [
    | inl fin ↦ rw fin (inr fin_after)
    | inr more ↦ rw more (inl e)
  ]
  process-Moves closed s cb e = inl e
  process-Moves listen s cb e = inl e
  process-Moves syn_recv s cb e = inl e
  process-Moves close_wait s cb e = inl e
  process-Moves closing s cb e = inl e
  process-Moves time_wait s cb e = inl e

  -- The states in which `tcp_process` changes more than the socket are not those of a connection that
  -- has been opened.
  abbrev pub Opened : TcpState → Type 0
  Opened listen = ⊥
  Opened syn_recv = ⊥
  Opened other = Unit {0}

  -- What happens to a connection that the application has connected or accepted: a packet, from which
  -- the handler returns or sleeps; the application or a reset closes it; the application reads or
  -- writes; the scan of the retransmission timers, or that of TIME_WAIT, comes to it.
  infix 40 ◌⇒◌ ◌⇒*◌
  pub data ◌⇒◌ : Sock Cwnd → Sock Cwnd → Type 0 where
    packet :
        {s t : Sock Cwnd} {c : Bool} {out : List Segment} (cb : TcpCb)
        → Opened s.state
        → process_by f s.state s cb ≡ returned c t out
        → s ⇒ t
    blocked :
        {s t : Sock Cwnd} {out : List Segment} (cb : TcpCb)
        → Opened s.state
        → process_by f s.state s cb ≡ sleeping t out
        → s ⇒ t
    close : {s : Sock Cwnd} → s ⇒ (close_sock s).0
    scan : {s : Sock Cwnd} → s ⇒ (scan_retrans_timer f s).0
    wait_over : {s : Sock Cwnd} → s.state ≡ time_wait → s ⇒ record s { state = closed }
    read : {s : Sock Cwnd} (len : ℕ) → s ⇒ (read_sock s len).1
    write : {s : Sock Cwnd} (buf : List ℕ) → s ⇒ (write_round s buf).0

  pub data ◌⇒*◌ : Sock Cwnd → Sock Cwnd → Type 0 where
    here : {s : Sock Cwnd} → s ⇒* s
    on : {s t u : Sock Cwnd} → s ⇒ t → t ⇒* u → s ⇒* u

  state-read : (s : Sock Cwnd) (len : ℕ) → (read_sock s len).1.state ≡ s.state
  unfolding read_sock tcp_unset_retrans_timer
  state-read s len = refl

  state-write : (s : Sock Cwnd) (buf : List ℕ) → (write_round s buf).0.state ≡ s.state
  unfolding write_round tcp_send_packet add_send_buffer_entry
  state-write s buf = state-update_timer _

  step-Moves : {s t : Sock Cwnd} → s ⇒ t → Moves s.state t.state
  unfolding close_sock
  step-Moves {s} (packet cb opened e) =
      subst (Leaves (Moves s.state)) e (process-Moves s.state s cb refl)
  step-Moves {s} (blocked cb opened e) =
      subst (Leaves (Moves s.state)) e (process-Moves s.state s cb refl)
  step-Moves {s} close = close-Moves s.state s refl
  step-Moves {s} scan = elim (state-scan f s) [
    | inl same ↦ inl same
    | inr gone ↦ along gone drop_it
  ]
  step-Moves {s} (wait_over e) = inr drop_it
  step-Moves {s} (read len) = inl (state-read s len)
  step-Moves {s} (write buf) = inl (state-write s buf)

  forward : (st st' : TcpState) → st ⟶ st' → (st' ≡ st) ⊎ (rank st < rank st')
  unfolding rank
  forward st st' open_client = inr (omega arith)
  forward st st' peer_closes = inr (omega arith)
  forward st st' we_close = inr (omega arith)
  forward st st' close_after = inr (omega arith)
  forward st st' fin_acked = inr (omega arith)
  forward st st' both_close = inr (omega arith)
  forward st st' fin_after = inr (omega arith)
  forward closed st' drop_it = inl refl
  forward listen st' drop_it = inr (omega arith)
  forward syn_recv st' drop_it = inr (omega arith)
  forward syn_sent st' drop_it = inr (omega arith)
  forward established st' drop_it = inr (omega arith)
  forward close_wait st' drop_it = inr (omega arith)
  forward last_ack st' drop_it = inr (omega arith)
  forward fin_wait_1 st' drop_it = inr (omega arith)
  forward fin_wait_2 st' drop_it = inr (omega arith)
  forward closing st' drop_it = inr (omega arith)
  forward time_wait st' drop_it = inr (omega arith)

  steps-forward : {s t : Sock Cwnd} → s ⇒* t → (t.state ≡ s.state) ⊎ (rank s.state < rank t.state)
  steps-forward here = inl refl
  steps-forward {s} {t = u} (on {t} first rest) =
      let moved : (t.state ≡ s.state) ⊎ (rank s.state < rank t.state) = elim (step-Moves first) [
        | inl same ↦ inl same
        | inr arrow ↦ forward s.state t.state arrow
      ] in
      elim moved [
        | inl same ↦
            subst (λ st. (u.state ≡ st) ⊎ (rank st < rank u.state)) same (steps-forward rest)
        | inr less ↦ inr (elim (steps-forward rest) [
          | inl eq ↦ omega (arith, less, ap rank eq)
          | inr more ↦ omega (arith, less, more)
        ])
      ]

  -- Once the application has connected or accepted it, and until it is reused by another call of
  -- connect, listen or accept, a connection never comes back to a state that it has left, whatever it
  -- goes through: packets, sleeping handlers, a reset, calls of close, read and write, and the scans of
  -- both timers.
  pub never_back : {s t u : Sock Cwnd} → s ⇒* t → t ⇒* u → u.state ≡ s.state → t.state ≡ s.state
  never_back first second back = elim (steps-forward first) [
    | inl same ↦ same
    | inr less ↦ elim (steps-forward second) [
      | inl eq ↦ absurd (omega (arith, less, ap rank (sym eq ∙ back)))
      | inr more ↦ absurd (omega (arith, less, more, ap rank back))
    ]
  ]
