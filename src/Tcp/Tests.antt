-- ===== src/Tcp/Tests.antt =====
-- The theorems of sending and congestion control at a socket in the middle of a transfer.
use ucas_computer_network.Common.{ℕ, ◌≡◌, refl, true, false, [], ◌∷◌, arith}
use ucas_computer_network.Tcp.Seq.{less_than_32b}
use ucas_computer_network.Tcp.Sock.{Sock}
use ucas_computer_network.Tcp.Output.{
  tcp_cb_init, tcp_send_reset, delete_send_buffer_entry, is_linked,
}
use ucas_computer_network.Tcp.Output.Laws.{Buffered, Consecutive}
use ucas_computer_network.Tcp.Reno.{is_closed}
use ucas_computer_network.Tcp.Reno.States.{NrInv, acked, scanned, run_reno, run_reno-NrInv}
use ucas_computer_network.Tcp.Reno.Recovery.{acks, fast_retransmit, Retransmitted}
use ucas_computer_network.Tcp.Reno.Timeout.{scans, scans-closed}
use ucas_computer_network.Tcp.Samples.{whole, data_segment, sock, cb_at}

-- The packet control block of a data segment, and the reset that answers it.
cb_of_segment : (tcp_cb_init (data_segment 4294967295 (1 ∷ 2 ∷ []))).seq_end ≡ 1
unfolding tcp_cb_init
cb_of_segment = refl

reset_answers : (tcp_send_reset (cb_at 5 (7 ∷ []))).ack ≡ 6
unfolding tcp_send_reset
reset_answers = refl

sock-Consecutive : Consecutive 4294967295 0 sock.send_buf
sock-Consecutive = (refl, omega arith, (refl, omega arith, tt))

sock-Buffered : Buffered 4294967295 sock
sock-Buffered = record { consecutive = sock-Consecutive; next = refl }

-- Two segments out, and a window of one.
abbrev overfull : Sock ℕ
overfull = record sock { snd_nxt = 2919; snd_una = 0; snd_wnd = 1460 }

reno_example : NrInv whole (run_reno whole sock (acked 1 ∷ acked 1 ∷ scanned ∷ []))
reno_example = run_reno-NrInv whole sock (acked 1 ∷ acked 1 ∷ scanned ∷ []) refl

nothing_acked : delete_send_buffer_entry sock.send_buf 4294967295 ≡ (sock.send_buf, false)
unfolding delete_send_buffer_entry less_than_32b
nothing_acked = refl

fast_retransmit_example :
    ((acks whole sock (4294967295 ∷ 4294967295 ∷ 4294967295 ∷ [])).1
      ≡ data_segment 4294967295 (1 ∷ 2 ∷ []) ∷ [])
    × Retransmitted whole sock (acks whole sock (4294967295 ∷ 4294967295 ∷ 4294967295 ∷ [])).0
fast_retransmit_example =
    fast_retransmit whole sock (data_segment 4294967295 (1 ∷ 2 ∷ []))
      (data_segment 1 (3 ∷ 4 ∷ []) ∷ []) 4294967295 4294967295 4294967295 refl refl refl
      nothing_acked nothing_acked nothing_acked

closed_example : is_closed (scans whole 820000000 sock).state ≡ true
unfolding is_linked
closed_example = scans-closed whole 820000000 sock refl (omega arith, omega arith) (omega arith)
