-- ===== src/Tcp/Stack/Start.antt =====
-- The start of a host and of a server: init_tcp_stack, alloc_tcp_sock and tcp_sock_bind of
-- EXP18-TCP_Stack_4/code/18-tcp_stack/tcp_sock.c. Waiting, reference counts and threads are left out.
pub mod Serving
use ucas_computer_network.Common.{
  ℕ, zero, suc, ◌+◌, ◌≡◌, refl, ap, sym, ◌∙◌, Bool, true, false, Option, none, some, List, [], ◌∷◌,
  arith, ◌==◌, if◌then◌else◌, Bool-cases, inl, inr,
}
use ucas_computer_network.Common.Tables.{update}
use ucas_computer_network.RingBuffer.{alloc_ring_buffer}
use ucas_computer_network.Tcp.Sock.{Sock, apart, closed, listen, nr_open}
use ucas_computer_network.Tcp.Output.{TcpCb}
use ucas_computer_network.Tcp.Stack.{
  Tsk, Stack, blank, has_tuple, sock_of, set_tsk, set_sock, find_sock, or_else, tcp_bind_hash,
  link_listen, tcp_hash, tcp_hash_by, tcp_hash_function, tcp_sock_lookup,
  tcp_sock_lookup_established, tcp_sock_lookup_listen, tcp_sock_listen, tcp_sock_set_sport, bind_to,
  tcp_port_in_use, reads_port,
}

abbrev pub tcp_default_window : ℕ
tcp_default_window = 65535

module _ {C : Type 0} where
  -- Cleared memory, then the fields that are not 0; `one` is the congestion window of one segment.
  pub alloc_tcp_sock : C → Tsk C
  alloc_tcp_sock one = record {
    sock = record {
      sip = 0;
      sport = 0;
      dip = 0;
      dport = 0;
      state = closed;
      nr_state = nr_open;
      iss = 0;
      snd_una = 0;
      snd_nxt = 0;
      rcv_nxt = 0;
      recovery_point = 0;
      snd_wnd = tcp_default_window;
      rcv_wnd = tcp_default_window;
      cwnd = one;
      loss_point = 0;
      dupacks = 0;
      cwnd_flag = false;
      ssthresh = 16;
      rcv_buf = alloc_ring_buffer tcp_default_window;
      send_buf = [];
      rcv_ofo_buf = [];
      retrans_timer = record { node = apart; enable = false; timeout = 0; retrans_time = 0 };
    };
    parent = none;
    backlog = 0;
    accept_backlog = 0;
    listen_queue = [];
    accept_queue = [];
    hash_node = blank;
    timewait = none;
  }

  pub new_sock : C → Stack C → ℕ × Stack C
  new_sock one st =
      (st.next, set_tsk (record st { next = st.next + 1 }) st.next (alloc_tcp_sock one))

  pub init_tcp_stack : C → Stack C
  init_tcp_stack one = record {
    socks = λ i. alloc_tcp_sock one;
    next = 0;
    established_table = λ h. [];
    listen_table = λ h. [];
    bind_table = λ h. [];
  }

  -- On the port in host order.
  pub tcp_sock_bind : (ℕ → ℕ) → Stack C → ℕ → ℕ → Bool × Stack C
  tcp_sock_bind address st i port = tcp_sock_set_sport address st i port
