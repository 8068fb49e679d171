-- ===== src/Tcp/Samples.antt =====
-- A socket in the middle of a transfer, for the tests.
use ucas_computer_network.Common.{ℕ, ◌+◌, ◌*◌, ◌/◌, false, min, List, [], ◌∷◌, ltb, length}
use ucas_computer_network.Tcp.Sock.{
  Sock, Segment, OfoEntry, Float, established, nr_open, in_list, tcp_ack, tcp_psh,
}
use ucas_computer_network.Tcp.Output.{TcpCb, mss}

-- The window in whole segments.
abbrev pub whole : Float
whole = record {
  Cwnd = ℕ;
  one = 1;
  increment = λ c. c + 1;
  add_inverse = λ c. c;
  minus_half = λ c. c / 2;
  half_to_u32 = λ c. c / 2;
  to_int = λ c. c;
  above = λ c n. ltb n c;
  min_window = λ n c. min n (c * mss);
}

abbrev pub data_segment : ℕ → List ℕ → Segment
data_segment seq bytes = record {
  saddr = 1;
  daddr = 2;
  sport = 10;
  dport = 20;
  seq = seq;
  ack = 5;
  flags = tcp_psh + tcp_ack;
  rwnd = 9;
  payload = bytes;
}

-- Two segments out from 4294967295 on, so that the second lies after the wrap.
abbrev pub sock : Sock ℕ
sock = record {
  sip = 1;
  sport = 10;
  dip = 2;
  dport = 20;
  state = established;
  nr_state = nr_open;
  iss = 4294967294;
  snd_una = 4294967295;
  snd_nxt = 3;
  rcv_nxt = 5;
  recovery_point = 0;
  snd_wnd = 65535;
  rcv_wnd = 9;
  cwnd = 8;
  loss_point = 0;
  dupacks = 0;
  cwnd_flag = false;
  ssthresh = 4;
  rcv_buf = record {
    size = 10;
    head = 0;
    tail = 0;
    buf = 0 ∷ 0 ∷ 0 ∷ 0 ∷ 0 ∷ 0 ∷ 0 ∷ 0 ∷ 0 ∷ 0 ∷ [];
  };
  send_buf = data_segment 4294967295 (1 ∷ 2 ∷ []) ∷ data_segment 1 (3 ∷ 4 ∷ []) ∷ [];
  rcv_ofo_buf = [];
  retrans_timer = record { node = in_list; enable = false; timeout = 200000; retrans_time = 0 };
}

abbrev pub cb_at : ℕ → List ℕ → TcpCb
cb_at seq bytes = record {
  saddr = 2;
  daddr = 1;
  sport = 20;
  dport = 10;
  seq = seq;
  seq_end = seq + length bytes;
  ack = 3;
  rwnd = 9;
  flags = tcp_ack;
  payload = bytes;
}

abbrev pub entry : ℕ → List ℕ → OfoEntry
entry seq bytes = record { seq = seq; bytes = bytes }
