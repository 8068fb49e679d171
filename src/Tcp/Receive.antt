-- ===== src/Tcp/Receive.antt =====
-- Receiving data: `is_tcp_seq_valid` and `handle_recv_data` of tcp_in.c, and the out-of-order buffer
-- of tcp_sock.c, in EXP18-TCP_Stack_4/code/18-tcp_stack. Where the code sleeps until the
-- application reads, the model stops with `sleeping`.
pub mod Deliver
pub mod Order
pub mod State
pub mod Wedged
mod Tests
use ucas_computer_network.Common.{
  ℕ, ◌+◌, ◌-◌, ◌%◌, ◌^◌, Bool, true, false, ◌&&◌, none, some, List, [], ◌∷◌, if◌then◌else◌, ltb,
  ◌==◌, max, length,
}
use ucas_computer_network.Common.Words.{add32}
use ucas_computer_network.RingBuffer.{ring_buffer_free, ring_buffer_full, write_ring_buffer}
use ucas_computer_network.Tcp.Seq.{less_than_32b, less_or_equal_32b, greater_than_32b}
use ucas_computer_network.Tcp.Sock.{Sock, Segment, OfoEntry, tcp_ack}
use ucas_computer_network.Tcp.Output.{TcpCb, tcp_send_control_packet, tcp_update_retrans_timer}

-- Before the first entry that is later; behind its equals.
pub insert_ofo : OfoEntry → List OfoEntry → List OfoEntry
insert_ofo e [] = e ∷ []
insert_ofo e (x ∷ xs) = if less_than_32b e.seq x.seq then e ∷ x ∷ xs else x ∷ insert_ofo e xs

-- How a receiving function leaves the socket, with what it has sent: it returns 0 (`true`) or -1, it
-- sleeps until there is room for the first entry of the out-of-order buffer, or an assertion fails.
pub data Received (C : Type 0) : Type 0 where
  returned : Bool → Sock C → List Segment → Received C
  sleeping : Sock C → List Segment → Received C
  aborted : Received C

module _ {C : Type 0} where
  unfoldable pub is_tcp_seq_valid : Sock C → TcpCb → Bool
  is_tcp_seq_valid s cb =
      less_than_32b cb.seq (add32 s.rcv_nxt (max s.rcv_wnd 1))
      && less_or_equal_32b s.rcv_nxt cb.seq_end

  pub add_recv_ofo_buf_entry : Sock C → TcpCb → Sock C
  add_recv_ofo_buf_entry s cb = record s {
    rcv_ofo_buf = insert_ofo (record { seq = cb.seq; bytes = cb.payload }) s.rcv_ofo_buf;
  }

  pub after_sending : Segment → Received C → Received C
  after_sending p (returned c s out) = returned c s (p ∷ out)
  after_sending p (sleeping s out) = sleeping s (p ∷ out)
  after_sending p aborted = aborted

  -- What the loop does with an entry before it writes: the numbers and the window move on, and an
  -- acknowledgement goes out.
  pub accept_entry : Sock C → OfoEntry → Sock C × Segment
  accept_entry s e =
      tcp_send_control_packet
        (record s {
          rcv_nxt = add32 s.rcv_nxt (length e.bytes);
          rcv_wnd = (ring_buffer_free s.rcv_buf - length e.bytes) % 2 ^ 16;
        })
        tcp_ack

  -- The loop of `put_recv_ofo_buf_entry_to_ring_buf`; its `seq` is always `rcv_nxt`.
  pub put_entries : Sock C → List OfoEntry → Received C
  put_entries s [] = returned true (record s { rcv_ofo_buf = [] }) []
  put_entries s (e ∷ es) = elim (s.rcv_nxt == e.seq) [
    | true ↦
        let (s', p) = accept_entry s e in
        after_sending p (
          if ltb (ring_buffer_free s'.rcv_buf) (length e.bytes)
          then sleeping (record s' { rcv_ofo_buf = e ∷ es }) []
          else elim (write_ring_buffer s'.rcv_buf e.bytes) [
            | none ↦ aborted
            | some rb ↦ put_entries (record s' { rcv_buf = rb; rcv_ofo_buf = es }) es
          ])
    | false ↦ returned (less_than_32b s.rcv_nxt e.seq) (record s { rcv_ofo_buf = e ∷ es }) []
  ]

  pub put_recv_ofo_buf_entry_to_ring_buf : Sock C → Received C
  put_recv_ofo_buf_entry_to_ring_buf s = put_entries s s.rcv_ofo_buf

  -- The end of `handle_recv_data`.
  pub finish_recv : ℕ → Received C → Received C
  finish_recv ack (returned c s out) =
      returned c
        (tcp_update_retrans_timer
          (record s { snd_una = if greater_than_32b ack s.snd_una then ack else s.snd_una }))
        out
  finish_recv ack (sleeping s out) = sleeping s out
  finish_recv ack aborted = aborted

  pub handle_recv_data : Sock C → TcpCb → Received C
  handle_recv_data s cb =
      if ring_buffer_full s.rcv_buf
      then sleeping s []
      else if less_than_32b cb.seq s.rcv_nxt
      then (let (s', p) = tcp_send_control_packet s tcp_ack in returned true s' (p ∷ []))
      else finish_recv cb.ack (put_recv_ofo_buf_entry_to_ring_buf (add_recv_ofo_buf_entry s cb))
