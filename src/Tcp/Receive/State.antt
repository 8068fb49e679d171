-- ===== src/Tcp/Receive/State.antt =====
-- Receiving data leaves the state of the connection alone.
use ucas_computer_network.Common.{
  ℕ, ◌≡◌, refl, ◌∙◌, List, [], ◌∷◌, ltb, ◌==◌, length, Bool-cases, Option-cases, inl, inr,
}
use ucas_computer_network.RingBuffer.{ring_buffer_full, ring_buffer_free, write_ring_buffer}
use ucas_computer_network.Tcp.Seq.{less_than_32b}
use ucas_computer_network.Tcp.Sock.{Sock, Segment, OfoEntry, TcpState, tcp_ack}
use ucas_computer_network.Tcp.Output.{TcpCb}
use ucas_computer_network.Tcp.Output.State.{state-send, state-update_timer}
use ucas_computer_network.Tcp.Receive.{
  Received, returned, sleeping, aborted, handle_recv_data, put_entries, accept_entry, after_sending,
  finish_recv, put_recv_ofo_buf_entry_to_ring_buf, add_recv_ofo_buf_entry,
}

module _ {C : Type 0} where
  -- A handler leaves a socket in a state that `P` holds of, whether it returns or sleeps.
  abbrev pub Leaves : (TcpState → Type 0) → Received C → Type 0
  Leaves P (returned c s out) = P s.state
  Leaves P (sleeping s out) = P s.state
  Leaves P aborted = Unit {0}

  Leaves-after :
      (P : TcpState → Type 0) (p : Segment) (r : Received C)
      → Leaves P r
      → Leaves P (after_sending p r)
  unfolding after_sending
  Leaves-after P p (returned c s out) h = h
  Leaves-after P p (sleeping s out) h = h
  Leaves-after P p aborted h = h

  Leaves-put :
      (st : TcpState) (s : Sock C) (es : List OfoEntry)
      → s.state ≡ st
      → Leaves (λ t. t ≡ st) (put_entries s es)
  unfolding put_entries accept_entry
  Leaves-put st s [] h = h
  Leaves-put st s (e ∷ es) h = elim (Bool-cases (s.rcv_nxt == e.seq)) [
    | inl on ↦
        let (s', p) = accept_entry s e in
        let same : s'.state ≡ st = state-send _ tcp_ack ∙ h in
        rw (on, put_entries)
          (Leaves-after _ p _
            (elim (Bool-cases (ltb (ring_buffer_free s'.rcv_buf) (length e.bytes))) [
              | inl no_room ↦ rw no_room same
              | inr room ↦ rw room (elim (Option-cases (write_ring_buffer s'.rcv_buf e.bytes)) [
                | inl failed ↦ rw failed tt
                | inr (rb, stored) ↦
                    rw stored (Leaves-put st (record s' { rcv_buf = rb; rcv_ofo_buf = es }) es same)
              ])
            ]))
    | inr off ↦ rw (off, put_entries) h
  ]

  Leaves-finish :
      (st : TcpState) (ack : ℕ) (r : Received C)
      → Leaves (λ t. t ≡ st) r
      → Leaves (λ t. t ≡ st) (finish_recv ack r)
  unfolding finish_recv
  Leaves-finish st ack (returned c s out) h = state-update_timer _ ∙ h
  Leaves-finish st ack (sleeping s out) h = h
  Leaves-finish st ack aborted h = h

  pub Leaves-handle_recv_data :
      (s : Sock C) (cb : TcpCb) → Leaves (λ t. t ≡ s.state) (handle_recv_data s cb)
  unfolding handle_recv_data put_recv_ofo_buf_entry_to_ring_buf add_recv_ofo_buf_entry
  Leaves-handle_recv_data s cb = elim (Bool-cases (ring_buffer_full s.rcv_buf)) [
    | inl full ↦ rw full refl
    | inr room ↦ rw room (elim (Bool-cases (less_than_32b cb.seq s.rcv_nxt)) [
      | inl old ↦ rw old (state-send s tcp_ack)
      | inr later ↦ rw later (Leaves-finish s.state cb.ack _ (Leaves-put s.state _ _ refl))
    ])
  ]
