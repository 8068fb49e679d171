-- ===== src/Tcp/Conn/Handshake.antt =====
-- Opening a connection between two sockets of the stack.
use ucas_computer_network.Common.{ℕ, ◌+◌, ◌^◌, ◌<◌, ◌≡◌, refl, ap, ◌∙◌, true, [], ◌∷◌, ◌++◌, arith}
use ucas_computer_network.Common.Words.{add32}
use ucas_computer_network.Tcp.Seq.{less_than_32b, less_or_equal_32b}
use ucas_computer_network.Tcp.Sock.{
  Sock, Segment, Float, syn_sent, established, RetransTimer, tcp_syn, tcp_ack,
}
use ucas_computer_network.Tcp.Output.{
  TcpCb, tcp_cb_init, segment_of, tcp_send_control_packet, tcp_unset_retrans_timer,
  delete_send_buffer_entry,
}
use ucas_computer_network.Tcp.Output.Control.{syn, syn_ack, announce, delete-one}
use ucas_computer_network.Tcp.Receive.{returned, is_tcp_seq_valid}
use ucas_computer_network.Tcp.Conn.{
  connect_sock, alloc_child_tcp_sock, answer_syn, acknowledge, process_syn_sent, process_by,
  accept_ack, accept_sock,
}

-- Two sockets are the ends of one open connection, with nothing in flight.
pub record Peers {C : Type 0} (a b : Sock C) : Type 0 where
  pub open_a : a.state ≡ established
  pub open_b : b.state ≡ established
  pub addresses : (a.sip ≡ b.dip) × (a.dip ≡ b.sip)
  pub ports : (a.sport ≡ b.dport) × (a.dport ≡ b.sport)
  pub to_a : a.rcv_nxt ≡ b.snd_nxt
  pub to_b : b.rcv_nxt ≡ a.snd_nxt
  pub empty_a : a.send_buf ≡ []
  pub empty_b : b.send_buf ≡ []

-- The packet with the next sequence number, or with one number more, is valid.
pub next-valid :
    {C : Type 0} (s : Sock C) (cb : TcpCb) (k : ℕ)
    → s.rcv_nxt < 2 ^ 32
    → s.rcv_wnd < 2 ^ 31
    → cb.seq ≡ s.rcv_nxt
    → cb.seq_end ≡ add32 s.rcv_nxt k
    → k < 2 ^ 31
    → is_tcp_seq_valid s cb ≡ true
unfolding is_tcp_seq_valid less_than_32b less_or_equal_32b
next-valid s cb k h w at end small = rw (at, end) (ground arith)

module _ (f : Float) where
  open f use {Cwnd}

  -- The client connects, the listener answers with a child, the client acknowledges, and the child is
  -- accepted.
  pub record Opens (sip sport dip dport iss : ℕ) (one : Cwnd) (client listener : Sock Cwnd)
      : Type 0 where
    pub client₁ : Sock Cwnd
    pub request : Segment
    pub child : Sock Cwnd
    pub answer : Segment
    pub client₂ : Sock Cwnd
    pub reply : Segment
    pub connects : connect_sock sip sport dip dport client ≡ (client₁, request)
    pub answers :
        answer_syn (alloc_child_tcp_sock listener (tcp_cb_init request) iss) ≡ (child, answer)
    pub hears :
        process_by f client₁.state client₁ (tcp_cb_init answer) ≡ returned true client₂ (reply ∷ [])
    pub valid : is_tcp_seq_valid child (tcp_cb_init reply) ≡ true
    pub peers : Peers client₂ (accept_sock one (accept_ack child (tcp_cb_init reply)))

  connect_lem :
      (sip sport dip dport : ℕ) (s : Sock Cwnd)
      → s.send_buf ≡ []
      → (t : RetransTimer) × (connect_sock sip sport dip dport s ≡ (
        record s {
          sip = sip;
          sport = sport;
          dip = dip;
          dport = dport;
          state = syn_sent;
          snd_nxt = add32 s.snd_nxt 1;
          send_buf =
              segment_of
                (record s { sip = sip; sport = sport; dip = dip; dport = dport })
                tcp_syn
                []
              ∷ [];
          retrans_timer = t;
        },
        segment_of (record s { sip = sip; sport = sport; dip = dip; dport = dport }) tcp_syn [],
      ))
  unfolding connect_sock
  connect_lem sip sport dip dport s empty =
      let s' = record s { sip = sip; sport = sport; dip = dip; dport = dport } in
      let p = segment_of s' tcp_syn [] in
      let (t, e, _) = announce s' syn in
      (
        t,
        ap (λ r. (record (r.0) { state = syn_sent }, r.1)) e
            ∙ ap
                (λ ps. (
                  record s' {
                    state = syn_sent;
                    snd_nxt = add32 s.snd_nxt 1;
                    send_buf = ps ++ (p ∷ []);
                    retrans_timer = t;
                  },
                  p,
                ))
                empty,
      )

  -- After the client has heard the answer.
  opened : Sock Cwnd → TcpCb → Sock Cwnd
  opened s cb = record (tcp_unset_retrans_timer s) {
    state = established;
    rcv_nxt = add32 cb.seq 1;
    snd_una = cb.ack;
    send_buf = [];
  }

  hear_lem :
      (s : Sock Cwnd) (cb : TcpCb)
      → cb.flags ≡ tcp_ack + tcp_syn
      → delete_send_buffer_entry s.send_buf cb.ack ≡ ([], true)
      → process_by f syn_sent s cb
        ≡ returned true (opened s cb) (segment_of (opened s cb) tcp_ack [] ∷ [])
  unfolding process_by process_syn_sent acknowledge tcp_send_control_packet tcp_unset_retrans_timer
      segment_of opened
  hear_lem s cb fl empties = rw (fl, empties) refl

  -- A client with an empty send buffer that connects, and a listener that answers its SYN with a
  -- child, end up as the two ends of one connection: the client's packet is valid for the child, both
  -- are established, the addresses and ports mirror each other, each expects the number that the
  -- other sends next, and neither has a packet left to send again.
  pub handshake :
      (sip sport dip dport iss : ℕ) (one : Cwnd) (client listener : Sock Cwnd)
      → client.send_buf ≡ []
      → client.snd_nxt < 2 ^ 32
      → iss < 2 ^ 32
      → listener.rcv_wnd < 2 ^ 31
      → Opens sip sport dip dport iss one client listener
  unfolding answer_syn alloc_child_tcp_sock tcp_cb_init segment_of acknowledge accept_ack
      accept_sock tcp_unset_retrans_timer opened
  handshake sip sport dip dport iss one client listener empty hc hi hw =
      let (t, sent) = connect_lem sip sport dip dport client empty in
      let request =
        segment_of (record client { sip = sip; sport = sport; dip = dip; dport = dport }) tcp_syn
          [] in
      let client₁ = record client {
        sip = sip;
        sport = sport;
        dip = dip;
        dport = dport;
        state = syn_sent;
        snd_nxt = add32 client.snd_nxt 1;
        send_buf = request ∷ [];
        retrans_timer = t;
      } in
      let born = alloc_child_tcp_sock listener (tcp_cb_init request) iss in
      let answer = segment_of born (tcp_ack + tcp_syn) [] in
      let (u, answered, _) = announce born syn_ack in
      let child = record born {
        snd_nxt = add32 iss 1;
        send_buf = answer ∷ [];
        retrans_timer = u;
      } in
      let client₂ = opened client₁ (tcp_cb_init answer) in
      let reply = segment_of client₂ tcp_ack [] in
      let emptied : delete_send_buffer_entry child.send_buf reply.ack ≡ ([], true) =
        delete-one answer hi in
      record {
        client₁ = client₁;
        request = request;
        child = child;
        answer = answer;
        client₂ = client₂;
        reply = reply;
        connects = sent;
        answers = answered;
        hears = hear_lem client₁ (tcp_cb_init answer) refl (delete-one request hc);
        valid =
            next-valid child (tcp_cb_init reply) 0 (omega arith) hw refl (ground arith)
              (omega arith);
        peers = record {
          open_a = refl;
          open_b = refl;
          addresses = (refl, refl);
          ports = (refl, refl);
          to_a = refl;
          to_b = refl;
          empty_a = refl;
          empty_b = ap (λ r. r.0) emptied;
        };
      }
