-- ===== src/Tcp/Output.antt =====
-- Sending: tcp_out.c, the send buffer of tcp_sock.c, the retransmission timer of tcp_timer.c and
-- tcp_cb_init of tcp.c, in EXP18-TCP_Stack_4/code/18-tcp_stack. A function that emits a packet
-- returns it beside the socket. Checksums are left to the IP layer.
pub mod Laws
pub mod State
pub mod Control
use Prim.Native.Nat.{bit_and}
use ucas_computer_network.Common.{
  ℕ, ◌+◌, ◌-◌, ◌*◌, ◌/◌, ◌%◌, ◌^◌, Bool, true, false, not, ◌&&◌, ◌||◌, Option, none, some, List, [],
  ◌∷◌, ◌++◌, if◌then◌else◌, length, leb, ◌==◌,
}
use ucas_computer_network.Common.Words.{add32, sub32}
use ucas_computer_network.Tcp.Seq.{less_than_32b}
use ucas_computer_network.Tcp.Sock.{
  Sock, Segment, RetransTimer, TimerNode, apart, in_list, stuck, has_flag, tcp_fin, tcp_syn,
  tcp_rst, tcp_psh, tcp_ack,
}

-- 1514 less the Ethernet, IP and TCP headers.
abbrev pub mss : ℕ
mss = 1514 - 14 - 20 - 20

abbrev pub tcp_retrans_interval_initial : ℕ
tcp_retrans_interval_initial = 200000

-- `struct tcp_cb`, less its pointers into the packet.
pub record TcpCb : Type 0 where
  pub saddr : ℕ
  pub daddr : ℕ
  pub sport : ℕ
  pub dport : ℕ
  pub seq : ℕ
  pub seq_end : ℕ
  pub ack : ℕ
  pub rwnd : ℕ
  pub flags : ℕ
  pub payload : List ℕ

unfoldable pub tcp_cb_init : Segment → TcpCb
tcp_cb_init p = record {
  saddr = p.saddr;
  daddr = p.daddr;
  sport = p.sport;
  dport = p.dport;
  seq = p.seq;
  seq_end =
      (p.seq + length p.payload + (if has_flag p.flags (tcp_syn + tcp_fin) then 1 else 0)) % 2 ^ 32;
  ack = p.ack;
  rwnd = p.rwnd;
  flags = p.flags;
  payload = p.payload;
}

-- The entries that `ack` does not cover, and whether one was deleted.
unfoldable pub delete_send_buffer_entry : List Segment → ℕ → List Segment × Bool
delete_send_buffer_entry [] ack = ([], false)
delete_send_buffer_entry (e ∷ es) ack =
    let (rest, deleted) = delete_send_buffer_entry es ack in
    if less_than_32b e.seq ack then (rest, true) else (e ∷ rest, deleted)

-- `tcp_send_reset`: the fields come from the packet that is answered.
unfoldable pub tcp_send_reset : TcpCb → Segment
tcp_send_reset cb = record {
  saddr = cb.daddr;
  daddr = cb.saddr;
  sport = cb.dport;
  dport = cb.sport;
  seq = 0;
  ack = cb.seq_end;
  flags = tcp_rst + tcp_ack;
  rwnd = 0;
  payload = [];
}

-- `init_list_head`, `list_add_tail`
unfoldable pub link_node : TimerNode → TimerNode
link_node apart = in_list
link_node in_list = stuck
link_node stuck = stuck

-- `list_delete_entry`
unfoldable pub unlink_node : TimerNode → TimerNode
unlink_node apart = apart
unlink_node in_list = apart
unlink_node stuck = stuck

-- Whether the scan of the list comes to it.
unfoldable pub is_linked : TimerNode → Bool
is_linked apart = false
is_linked in_list = true
is_linked stuck = true

module _ {C : Type 0} where
  unfoldable pub tcp_set_retrans_timer : Sock C → Sock C
  tcp_set_retrans_timer s = if s.retrans_timer.enable then s else record s {
    retrans_timer = record (s.retrans_timer) {
      node = link_node s.retrans_timer.node;
      timeout = tcp_retrans_interval_initial;
      retrans_time = 0;
    };
  }

  unfoldable pub tcp_update_retrans_timer : Sock C → Sock C
  tcp_update_retrans_timer s =
      let s' = if not s.retrans_timer.enable then tcp_set_retrans_timer s else s in
      record s' {
        retrans_timer = record (s'.retrans_timer) {
          timeout = tcp_retrans_interval_initial;
          retrans_time = 0;
        };
      }

  unfoldable pub tcp_unset_retrans_timer : Sock C → Sock C
  tcp_unset_retrans_timer s = record s {
    retrans_timer = record (s.retrans_timer) { node = unlink_node s.retrans_timer.node };
  }

  -- `tcp_init_hdr` and `ip_init_hdr` with the socket's fields.
  unfoldable pub segment_of : Sock C → ℕ → List ℕ → Segment
  segment_of s flags payload = record {
    saddr = s.sip;
    daddr = s.dip;
    sport = s.sport;
    dport = s.dport;
    seq = s.snd_nxt;
    ack = s.rcv_nxt;
    flags = flags;
    rwnd = s.rcv_wnd;
    payload = payload;
  }

  unfoldable pub add_send_buffer_entry : Sock C → Segment → Sock C
  add_send_buffer_entry s p = record s { send_buf = s.send_buf ++ (p ∷ []) }

  unfoldable pub tcp_send_packet : Sock C → List ℕ → Sock C × Segment
  tcp_send_packet s payload =
      let p = segment_of s (tcp_psh + tcp_ack) payload in
      let s' = record s {
        snd_nxt = add32 s.snd_nxt (length payload);
        snd_wnd = sub32 s.snd_wnd (length payload);
      } in
      (tcp_update_retrans_timer (add_send_buffer_entry s' p), p)

  unfoldable pub tcp_send_control_packet : Sock C → ℕ → Sock C × Segment
  tcp_send_control_packet s flags =
      let p = segment_of s flags [] in
      let s' =
        if has_flag flags (tcp_syn + tcp_fin)
        then record s { snd_nxt = add32 s.snd_nxt 1 }
        else s in
      (
        (if not (flags == tcp_ack) && not (has_flag flags tcp_rst)
            then tcp_update_retrans_timer (add_send_buffer_entry s' p)
            else s'),
        p,
      )

  -- The first packet of the send buffer goes out again, with a new acknowledgement; none if the
  -- buffer is empty.
  unfoldable pub retransmit : Sock C → List Segment → Sock C × List Segment
  retransmit s [] = (s, [])
  retransmit s (p ∷ rest) =
      (record s { snd_wnd = sub32 s.snd_wnd (length p.payload) }, record p { ack = s.rcv_nxt } ∷ [])

  unfoldable pub retrans_send_buffer_packet : Sock C → Sock C × List Segment
  unfolding retransmit
  retrans_send_buffer_packet s = retransmit s s.send_buf

  -- `(snd_nxt - snd_una) / MSS - dupacks`, an `int`: MSS is a 64-bit `size_t`, and the result is
  -- cut to 32 bits.
  unfoldable pub inflight : Sock C → ℕ
  inflight s = (sub32 s.snd_nxt s.snd_una / mss + 2 ^ 32 - s.dupacks % 2 ^ 32) % 2 ^ 32

  -- `max(snd_wnd / MSS - inflight, 0)` on 64 unsigned bits, where `inflight` is extended by its
  -- sign; the result is cut to 32 bits.
  unfoldable pub is_allow_to_send : Sock C → ℕ
  is_allow_to_send s =
      let wide = if leb (2 ^ 31) (inflight s) then inflight s + 2 ^ 64 - 2 ^ 32 else inflight s in
      ((s.snd_wnd / mss + 2 ^ 64 - wide) % 2 ^ 64) % 2 ^ 32
