-- ===== src/Tcp/Conn/Tests.antt =====
-- Connections at concrete sockets.
use ucas_computer_network.Common.{
  ℕ, ◌≡◌, refl, false, some, List, [], ◌∷◌, arith, Bool-cases, inl, inr,
}
use ucas_computer_network.Common.Words.{sub32}
use ucas_computer_network.Tcp.Output.{mss, is_linked, is_allow_to_send, inflight}
use ucas_computer_network.Tcp.Sock.{Sock, Segment, closed, listen}
use ucas_computer_network.Tcp.Reno.{count_down, scan_retrans_timer}
use ucas_computer_network.RingBuffer.{read_ring_buffer, copy_out, ring_buffer_used}
use ucas_computer_network.Tcp.Samples.{whole, sock}
use ucas_computer_network.Tcp.Conn.{
  wait_while, is_window_shut, is_unacked, tcp_sock_write, read_sock,
}
use ucas_computer_network.Tcp.Conn.Handshake.{Peers, Opens, handshake}
use ucas_computer_network.Tcp.Conn.Teardown.{Closes, teardown}
use ucas_computer_network.Tcp.Conn.Writer.{Sent, EndsBy, write-Sent}
use ucas_computer_network.Tcp.Conn.Diagram.{here, on, scan, never_back}

abbrev client : Sock ℕ
client = record sock { state = closed; snd_nxt = 4294967295; send_buf = [] }

abbrev listener : Sock ℕ
listener = record sock { state = listen; sip = 0; sport = 80; send_buf = [] }

handshake_example : Opens whole 1 12345 2 80 4294967295 1 client listener
handshake_example =
    handshake whole 1 12345 2 80 4294967295 1 client listener refl (omega arith) (omega arith)
      (omega arith)

-- The two ends, the client's number just before the wrap.
abbrev left : Sock ℕ
left = record sock { snd_nxt = 4294967295; rcv_nxt = 7; send_buf = [] }

abbrev right : Sock ℕ
right = record sock {
  sip = 2;
  sport = 20;
  dip = 1;
  dport = 10;
  snd_nxt = 7;
  rcv_nxt = 4294967295;
  send_buf = [];
}

abbrev ends : Peers left right
ends = record {
  open_a = refl;
  open_b = refl;
  addresses = (refl, refl);
  ports = (refl, refl);
  to_a = refl;
  to_b = refl;
  empty_a = refl;
  empty_b = refl;
}

teardown_example : Closes whole left right
teardown_example =
    teardown whole left right ends (omega arith) (omega arith) (omega arith) (omega arith) refl refl

-- A peer that acknowledges everything before the first wake-up, with room for one segment.
abbrev acked : ℕ → ℕ → Sock ℕ → Sock ℕ
acked i j s = record s { send_buf = []; snd_una = s.snd_nxt; snd_wnd = mss; dupacks = 0 }

acked-open : (i j : ℕ) (s : Sock ℕ) → is_window_shut (acked i j s) ≡ false
unfolding is_window_shut is_allow_to_send inflight
acked-open i j s = let none_out : sub32 s.snd_nxt s.snd_nxt ≡ 0 = omega arith in rw none_out refl

acked-opens : (i : ℕ) → EndsBy 1 is_window_shut (acked i)
unfolding wait_while
acked-opens i s = elim (Bool-cases (is_window_shut s)) [
  | inl shut ↦ (acked i 0 s, rw (shut, acked-open i 0 s) refl)
  | inr open_now ↦ (s, rw open_now refl)
]

acked-empties : EndsBy 1 is_unacked (acked 0)
unfolding wait_while is_unacked
acked-empties s = elim (Bool-cases (is_unacked s)) [
  | inl waits ↦ (acked 0 0 s, rw waits refl)
  | inr done ↦ (s, rw done refl)
]

tcp_write_example :
    (r : Sock ℕ × List Segment × List ℕ) × (tcp_sock_write 1 acked left (1 ∷ 2 ∷ 3 ∷ []) ≡ some r)
    × Sent 4294967295 0 (1 ∷ 2 ∷ 3 ∷ []) r
tcp_write_example =
    write-Sent 1 acked (λ i j s. refl) acked-opens acked-empties left (1 ∷ 2 ∷ 3 ∷ []) (omega arith)

-- After a scan of the timer.
never_back_example : (scan_retrans_timer whole sock).0.state ≡ sock.state
unfolding scan_retrans_timer count_down is_linked
never_back_example =
    never_back whole {s = sock} {t = (scan_retrans_timer whole sock).0}
      {u = (scan_retrans_timer whole sock).0} (on {t = (scan_retrans_timer whole sock).0} scan here)
      here refl

-- Reading what is in the buffer.
read_sock_example :
    (read_sock
      (record sock { rcv_buf = record { size = 4; head = 3; tail = 1; buf = 7 ∷ 8 ∷ 9 ∷ 6 ∷ [] } })
      5).0
    ≡ 6 ∷ 7 ∷ []
unfolding read_sock read_ring_buffer copy_out ring_buffer_used
read_sock_example = refl
