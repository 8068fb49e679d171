-- ===== src/Tcp/Stack/Closing.antt =====
-- A connection that ends.
use ucas_computer_network.Common.{ℕ, ◌≡◌, ◌≢◌, refl, ap, ◌∙◌, subst, true, [], All, if◌then◌else◌}
use ucas_computer_network.Tcp.Sock.{Sock, Float, closed, last_ack, tcp_ack, tcp_rst, has_flag}
use ucas_computer_network.Tcp.Output.{TcpCb}
use ucas_computer_network.Tcp.Receive.{returned, is_tcp_seq_valid}
use ucas_computer_network.Tcp.Conn.{process_by, acknowledge}
use ucas_computer_network.Tcp.Conn.Teardown.{hear_last_ack}
use ucas_computer_network.Tcp.Stack.{
  Stack, stepped, linked, sock_of, set_sock, unlink, tcp_unhash, unhash_by, follow_state, with_out,
  settle_sock, tcp_sock_close, tcp_process, tcp_process_by,
}
use ucas_computer_network.Tcp.Stack.Store.{socks-set_self}
use ucas_computer_network.Tcp.Stack.Listener.{unlinked}
use ucas_computer_network.Tcp.Stack.Store.{socks-unlink_self}

module _ (f : Float) where
  open f use {Cwnd}

  unhash-linked :
      (st : Stack Cwnd) (i : ℕ)
      → (st.socks i).hash_node ≡ linked
      → tcp_unhash st i ≡ stepped tt (unlink st i) []
  unfolding tcp_unhash unhash_by
  unhash-linked st i h = rw h refl

  settle-closed :
      (st : Stack Cwnd) (i now : ℕ) (s : Sock Cwnd)
      → s.state ≡ closed
      → (st.socks i).hash_node ≡ linked
      → settle_sock last_ack (returned true s []) st i now
        ≡ stepped tt (unlink (set_sock st i s) i) []
  unfolding settle_sock with_out follow_state set_sock
  settle-closed st i now s gone hashed =
      let still : ((set_sock st i s).socks i).hash_node ≡ linked =
        ap (λ t. t.hash_node) (socks-set_self st i (record (st.socks i) { sock = s })) ∙ hashed in
      ap (λ x. with_out [] (follow_state last_ack x (set_sock st i s) i now)) gone
      ∙ ap (with_out []) (unhash-linked (set_sock st i s) i still)

  -- When the last acknowledgement arrives at a socket in LAST_ACK that is in a table, the socket is
  -- CLOSED and no longer in the table of the established sockets; nothing is sent.
  pub last_ack-leaves :
      (st : Stack Cwnd) (i iss now : ℕ) (cb : TcpCb)
      → (sock_of st i).state ≡ last_ack
      → (st.socks i).hash_node ≡ linked
      → cb.flags ≡ tcp_ack
      → is_tcp_seq_valid (sock_of st i) cb ≡ true
      → (st' : Stack Cwnd) × (tcp_process f st i cb iss now ≡ stepped tt st' [])
        × ((sock_of st' i).state ≡ closed)
        × ((h : ℕ) → All (λ j. j ≢ i) (st'.established_table h))
  unfolding tcp_process tcp_process_by set_sock
  last_ack-leaves st i iss now cb on hashed plain ok =
      let s = record (acknowledge cb.ack (sock_of st i)) { state = closed } in
      let st₁ = set_sock st i s in
      let heard = hear_last_ack f (sock_of st i) cb on plain ok in
      let heard' : process_by f last_ack (sock_of st i) cb ≡ returned true s [] =
        subst (λ x. process_by f x (sock_of st i) cb ≡ returned true s []) on heard in
      (
        unlink st₁ i,
        ap
              (λ b.
                if b
                then tcp_sock_close st i
                else tcp_process_by f (sock_of st i).state st i cb iss now)
              (ap (λ x. has_flag x tcp_rst) plain)
            ∙ ap (λ x. tcp_process_by f x st i cb iss now) on
            ∙ ap (λ r. settle_sock last_ack r st i now) heard'
            ∙ settle-closed st i now s refl hashed,
        ap (λ t. t.sock.state) (socks-unlink_self st₁ i)
            ∙ ap (λ t. t.sock.state) (socks-set_self st i (record (st.socks i) { sock = s })),
        unlinked st₁ i,
      )
