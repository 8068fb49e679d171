-- ===== src/Tcp/Output/State.antt =====
-- Sending and the timer leave the state of the connection alone.
use ucas_computer_network.Common.{ℕ, ◌≡◌, refl, List, [], ◌∷◌, arith}
use ucas_computer_network.Tcp.Sock.{Sock, Segment}
use ucas_computer_network.Tcp.Output.{
  tcp_send_control_packet, tcp_set_retrans_timer, tcp_update_retrans_timer, add_send_buffer_entry,
  retransmit,
}

module _ {C : Type 0} where
  pub state-set_timer : (s : Sock C) → (tcp_set_retrans_timer s).state ≡ s.state
  unfolding tcp_set_retrans_timer
  state-set_timer s = ground arith

  pub state-update_timer : (s : Sock C) → (tcp_update_retrans_timer s).state ≡ s.state
  unfolding tcp_update_retrans_timer tcp_set_retrans_timer
  state-update_timer s = ground arith

  pub state-send : (s : Sock C) (flags : ℕ) → (tcp_send_control_packet s flags).0.state ≡ s.state
  unfolding tcp_send_control_packet tcp_update_retrans_timer tcp_set_retrans_timer
      add_send_buffer_entry
  state-send s flags = ground arith

  pub state-retransmit : (s : Sock C) (b : List Segment) → (retransmit s b).0.state ≡ s.state
  unfolding retransmit
  state-retransmit s [] = refl
  state-retransmit s (p ∷ ps) = refl
