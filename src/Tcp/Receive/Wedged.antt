-- ===== src/Tcp/Receive/Wedged.antt =====
-- A stale entry at the head of the out-of-order buffer.
use ucas_computer_network.Common.{
  ℕ, ◌^◌, ◌<◌, ◌≡◌, refl, false, List, [], ◌∷◌, arith, ltb, ◌==◌, Bool-cases, inl, inr, ◌∙◌,
}
use ucas_computer_network.Common.Words.{add32}
use ucas_computer_network.RingBuffer.{ring_buffer_full}
use ucas_computer_network.Tcp.Seq.{less_than_32b, seq_offsets}
use ucas_computer_network.Tcp.Sock.{Sock, OfoEntry}
use ucas_computer_network.Tcp.Output.{
  TcpCb, tcp_send_control_packet, tcp_update_retrans_timer, tcp_set_retrans_timer,
}
use ucas_computer_network.Tcp.Receive.{
  Received, returned, sleeping, aborted, insert_ofo, add_recv_ofo_buf_entry, put_entries,
  put_recv_ofo_buf_entry_to_ring_buf, finish_recv, handle_recv_data,
}

offsets-differ :
    (base m n : ℕ) → base < 2 ^ 32 → m < n → n < 2 ^ 31 → (add32 base n == add32 base m) ≡ false
offsets-differ base m n hb h k = ground arith

insert_behind :
    (x e : OfoEntry) (rest : List OfoEntry)
    → less_than_32b x.seq e.seq ≡ false
    → insert_ofo x (e ∷ rest) ≡ e ∷ insert_ofo x rest
unfolding insert_ofo
insert_behind x e rest h = rw h refl

module _ {C : Type 0} where
  -- The first entry of the out-of-order buffer lies before `rcv_nxt`. Sequence numbers are offsets
  -- from `base`.
  pub record Stale (base : ℕ) (s : Sock C) : Type 0 where
    pub m : ℕ
    pub n : ℕ
    pub e : OfoEntry
    pub rest : List OfoEntry
    pub buffer : s.rcv_ofo_buf ≡ e ∷ rest
    pub at : e.seq ≡ add32 base m
    pub next : s.rcv_nxt ≡ add32 base n
    pub before : m < n
    pub near : n < 2 ^ 31

  -- What a wedged socket does with a packet: nothing reaches the application.
  abbrev pub StaysWedged : ℕ → Sock C → Received C → Type 0
  StaysWedged base s (returned c s' out) =
      (s'.rcv_nxt ≡ s.rcv_nxt) × (s'.rcv_buf ≡ s.rcv_buf) × Stale base s'
  StaysWedged base s (sleeping s' out) = ⊥
  StaysWedged base s aborted = ⊥

  put_entries-stale :
      (base m n : ℕ) (s : Sock C) (e : OfoEntry) (es : List OfoEntry)
      → base < 2 ^ 32
      → e.seq ≡ add32 base m
      → s.rcv_nxt ≡ add32 base n
      → m < n
      → n < 2 ^ 31
      → put_entries s (e ∷ es) ≡ returned false (record s { rcv_ofo_buf = e ∷ es }) []
  unfolding put_entries
  put_entries-stale base m n s e es hb a x h k =
      let differ : (s.rcv_nxt == e.seq) ≡ false = rw (a, x) (offsets-differ base m n hb h k) in
      let later : less_than_32b s.rcv_nxt e.seq ≡ false =
        rw (a, x) ((seq_offsets base n m hb k (omega arith)).0 ∙ ground arith) in
      rw (differ, later, put_entries) refl

  update_timer-same :
      (s : Sock C)
      → ((tcp_update_retrans_timer s).rcv_nxt ≡ s.rcv_nxt)
        × ((tcp_update_retrans_timer s).rcv_buf ≡ s.rcv_buf)
        × ((tcp_update_retrans_timer s).rcv_ofo_buf ≡ s.rcv_ofo_buf)
  unfolding tcp_update_retrans_timer tcp_set_retrans_timer
  update_timer-same s = ground arith

  move-Stale :
      (base : ℕ) (s s' : Sock C) (w : Stale base s) (rest : List OfoEntry)
      → s'.rcv_nxt ≡ s.rcv_nxt
      → s'.rcv_ofo_buf ≡ w.e ∷ rest
      → Stale base s'
  move-Stale base s s' w rest q b = record {
    m = w.m;
    n = w.n;
    e = w.e;
    rest = rest;
    buffer = b;
    at = w.at;
    next = q ∙ w.next;
    before = w.before;
    near = w.near;
  }

  queue-StaysWedged :
      (base k ack : ℕ) (s : Sock C) (cb : TcpCb)
      → base < 2 ^ 32
      → Stale base s
      → cb.seq ≡ add32 base k
      → k < 2 ^ 31
      → less_than_32b cb.seq s.rcv_nxt ≡ false
      → StaysWedged base s
          (finish_recv ack (put_recv_ofo_buf_entry_to_ring_buf (add_recv_ofo_buf_entry s cb)))
  unfolding put_recv_ofo_buf_entry_to_ring_buf add_recv_ofo_buf_entry finish_recv
  queue-StaysWedged base k ack s cb hb w at hk later =
      let x : OfoEntry = record { seq = cb.seq; bytes = cb.payload } in
      let ge : less_than_32b cb.seq s.rcv_nxt ≡ ltb k w.n =
        rw (at, w.next) ((seq_offsets base k w.n hb hk w.near).0) in
      let behind : less_than_32b cb.seq w.e.seq ≡ false =
        rw (at, w.at) ((seq_offsets base k w.m hb hk (omega arith)).0 ∙ ground arith) in
      let queue : insert_ofo x s.rcv_ofo_buf ≡ w.e ∷ insert_ofo x w.rest =
        rw w.buffer (insert_behind x w.e w.rest behind) in
      rw
        (
          queue,
          put_entries-stale base w.m w.n (record s { rcv_ofo_buf = w.e ∷ insert_ofo x w.rest }) w.e
              (insert_ofo x w.rest) hb w.at w.next w.before w.near,
        )
        (let (q, b, o) = update_timer-same _ in
          (q, b, move-Stale base s _ w (insert_ofo x w.rest) q o))

  -- While the first entry of the out-of-order buffer lies before `rcv_nxt` and the receive buffer is
  -- not full, no packet (less than 2 ^ 31 after the base) ever gets a byte to the application: the
  -- handler returns with `rcv_nxt` and the receive buffer as they were, and the entry still in front.
  pub handle-StaysWedged :
      (base k : ℕ) (s : Sock C) (cb : TcpCb)
      → base < 2 ^ 32
      → Stale base s
      → ring_buffer_full s.rcv_buf ≡ false
      → cb.seq ≡ add32 base k
      → k < 2 ^ 31
      → StaysWedged base s (handle_recv_data s cb)
  unfolding handle_recv_data tcp_send_control_packet
  handle-StaysWedged base k s cb hb w full at hk =
      rw full (elim (Bool-cases (less_than_32b cb.seq s.rcv_nxt)) [
        | inl old ↦ rw old (refl, refl, move-Stale base s s w w.rest refl w.buffer)
        | inr later ↦ rw later (queue-StaysWedged base k cb.ack s cb hb w at hk later)
      ])
