-- ===== src/Tcp/Sock.antt =====
-- The state of one socket: EXP18-TCP_Stack_4/code/18-tcp_stack/include/tcp_sock.h and tcp.h.
use Prim.Native.Nat.{bit_and}
use ucas_computer_network.Common.{ℕ, Bool, not, List, ◌==◌}
use ucas_computer_network.RingBuffer.{RingBuffer}

-- `enum tcp_state`
pub data TcpState : Type 0 where
  closed listen syn_recv syn_sent established close_wait last_ack : TcpState
  fin_wait_1 fin_wait_2 closing time_wait : TcpState

-- `enum tcp_nr_state`
pub data NrState : Type 0 where
  nr_open nr_loss nr_disorder nr_recovery nr_cwr : NrState

abbrev pub tcp_fin : ℕ
tcp_fin = 0x01

abbrev pub tcp_syn : ℕ
tcp_syn = 0x02

abbrev pub tcp_rst : ℕ
tcp_rst = 0x04

abbrev pub tcp_psh : ℕ
tcp_psh = 0x08

abbrev pub tcp_ack : ℕ
tcp_ack = 0x10

-- `flags & f`
abbrev pub has_flag : ℕ → ℕ → Bool
has_flag flags f = not (bit_and flags f == 0)

-- What a packet of the stack carries, in host order.
pub record Segment : Type 0 where
  pub saddr : ℕ
  pub daddr : ℕ
  pub sport : ℕ
  pub dport : ℕ
  pub seq : ℕ
  pub ack : ℕ
  pub flags : ℕ
  pub rwnd : ℕ
  pub payload : List ℕ

-- `rcv_ofo_buf_entry_t`
pub record OfoEntry : Type 0 where
  pub seq : ℕ
  pub bytes : List ℕ

-- The node of a retransmission timer, while no other timer is in the list: out of the list, in it,
-- or in it and its own predecessor, as linking it a second time leaves it; then deleting it has no
-- effect.
pub data TimerNode : Type 0 where
  apart in_list stuck : TimerNode

-- `struct tcp_timer` of the retransmission.
pub record RetransTimer : Type 0 where
  pub node : TimerNode
  pub enable : Bool
  pub timeout : ℕ
  pub retrans_time : ℕ

-- `float`, by what the code does with the congestion window. Each operation rounds as the machine
-- does: nothing is assumed of them.
pub record Float : Type 1 where
  pub Cwnd : Type 0
  pub one : Cwnd
  pub increment : Cwnd → Cwnd
  pub add_inverse : Cwnd → Cwnd
  pub minus_half : Cwnd → Cwnd
  pub half_to_u32 : Cwnd → ℕ
  pub to_int : Cwnd → ℕ
  pub above : Cwnd → ℕ → Bool
  pub min_window : ℕ → Cwnd → ℕ

-- `struct tcp_sock`, less its list nodes, parent, queues and backlog, the time-wait timer, what it
-- waits on, and the peer's window, which nothing reads.
pub record Sock (C : Type 0) : Type 0 where
  pub sip : ℕ
  pub sport : ℕ
  pub dip : ℕ
  pub dport : ℕ
  pub state : TcpState
  pub nr_state : NrState
  pub iss : ℕ
  pub snd_una : ℕ
  pub snd_nxt : ℕ
  pub rcv_nxt : ℕ
  pub recovery_point : ℕ
  pub snd_wnd : ℕ
  pub rcv_wnd : ℕ
  pub cwnd : C
  pub loss_point : ℕ
  pub dupacks : ℕ
  pub cwnd_flag : Bool
  pub ssthresh : ℕ
  pub rcv_buf : RingBuffer
  pub send_buf : List Segment
  pub rcv_ofo_buf : List OfoEntry
  pub retrans_timer : RetransTimer
