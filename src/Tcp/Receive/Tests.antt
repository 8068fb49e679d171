-- ===== src/Tcp/Receive/Tests.antt =====
-- The theorems of receiving at a socket in the middle of a transfer.
use ucas_computer_network.Common.{ℕ, ◌≡◌, refl, true, false, [], ◌∷◌, arith}
use ucas_computer_network.RingBuffer.{
  ring_buffer_used, ring_buffer_free, ring_buffer_full, stored, copy_in, write_ring_buffer,
}
use ucas_computer_network.Tcp.Seq.{less_than_32b, less_or_equal_32b, greater_than_32b}
use ucas_computer_network.Tcp.Sock.{Sock}
use ucas_computer_network.Tcp.Output.{
  tcp_send_control_packet, tcp_update_retrans_timer, tcp_set_retrans_timer,
}
use ucas_computer_network.Tcp.Receive.{
  Received, returned, insert_ofo, is_tcp_seq_valid, put_entries, accept_entry, after_sending,
  handle_recv_data, add_recv_ofo_buf_entry, put_recv_ofo_buf_entry_to_ring_buf, finish_recv,
}
use ucas_computer_network.Tcp.Receive.Deliver.{Delivers, put_entries-Delivers}
use ucas_computer_network.Tcp.Receive.Wedged.{StaysWedged, handle-StaysWedged}
use ucas_computer_network.Tcp.Samples.{sock, cb_at, entry}

in_window : is_tcp_seq_valid sock (cb_at 5 (7 ∷ [])) ≡ true
unfolding is_tcp_seq_valid less_than_32b less_or_equal_32b
in_window = refl

beyond_window : is_tcp_seq_valid sock (cb_at 14 (7 ∷ [])) ≡ false
unfolding is_tcp_seq_valid less_than_32b less_or_equal_32b
beyond_window = refl

put_entries_example :
    Delivers sock
      (entry 5 (7 ∷ []) ∷ entry 8 (9 ∷ []) ∷ [])
      (put_entries sock (entry 5 (7 ∷ []) ∷ entry 8 (9 ∷ []) ∷ []))
put_entries_example =
    put_entries-Delivers sock (entry 5 (7 ∷ []) ∷ entry 8 (9 ∷ []) ∷ []) (omega arith)
      (omega arith, (omega arith, tt))

-- The packet at 6 comes twice, then the one at 5: the second copy is left in front.
abbrev after : Received ℕ → Sock ℕ
after (returned c s out) = s
after other = sock

abbrev wedged_sock : Sock ℕ
wedged_sock = record sock { rcv_nxt = 7; rcv_ofo_buf = entry 6 (8 ∷ []) ∷ [] }

becomes_wedged :
    let s₁ = after (handle_recv_data sock (cb_at 6 (8 ∷ []))) in
    let s₂ = after (handle_recv_data s₁ (cb_at 6 (8 ∷ []))) in
    let s₃ = after (handle_recv_data s₂ (cb_at 5 (7 ∷ []))) in
    (s₃.rcv_nxt ≡ 7) × (s₃.rcv_ofo_buf ≡ entry 6 (8 ∷ []) ∷ [])
unfolding handle_recv_data add_recv_ofo_buf_entry put_recv_ofo_buf_entry_to_ring_buf finish_recv
    put_entries accept_entry after_sending insert_ofo tcp_send_control_packet
    tcp_update_retrans_timer tcp_set_retrans_timer less_than_32b greater_than_32b ring_buffer_full
    ring_buffer_free ring_buffer_used write_ring_buffer stored copy_in
becomes_wedged = (refl, refl)

wedged_example : StaysWedged 0 wedged_sock (handle_recv_data wedged_sock (cb_at 7 (9 ∷ [])))
unfolding ring_buffer_full ring_buffer_free ring_buffer_used
wedged_example =
    handle-StaysWedged 0 7 wedged_sock (cb_at 7 (9 ∷ [])) (omega arith)
      (record {
        m = 6;
        n = 7;
        e = entry 6 (8 ∷ []);
        rest = [];
        buffer = refl;
        at = refl;
        next = refl;
        before = omega arith;
        near = omega arith;
      })
      refl refl (omega arith)
