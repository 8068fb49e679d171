-- ===== src/Tcp/Output/Control.antt =====
-- What a packet with SYN or FIN does to the socket that sends it.
use ucas_computer_network.Common.{
  ℕ, ◌+◌, ◌^◌, ◌<◌, ◌≡◌, refl, sym, ◌∙◌, true, false, not, ◌&&◌, ◌==◌, ap, [], ◌∷◌, ◌++◌, arith,
  Bool-cases, inl, inr,
}
use ucas_computer_network.Common.Words.{add32}
use ucas_computer_network.Tcp.Seq.{less_than_32b}
use ucas_computer_network.Tcp.Sock.{
  Sock, Segment, RetransTimer, TimerNode, apart, in_list, stuck, tcp_fin, tcp_syn, tcp_ack, tcp_rst,
  has_flag,
}
use ucas_computer_network.Tcp.Output.{
  tcp_send_control_packet, tcp_set_retrans_timer, tcp_update_retrans_timer, add_send_buffer_entry,
  segment_of, delete_send_buffer_entry, link_node,
}

-- The flags of the packets that open or close a connection.
pub data Announces : ℕ → Type 0 where
  syn : Announces tcp_syn
  syn_ack : Announces (tcp_ack + tcp_syn)
  fin_ack : Announces (tcp_fin + tcp_ack)

-- An acknowledgement of the only packet, of one sequence number, empties the send buffer.
pub delete-one :
    (p : Segment) → p.seq < 2 ^ 32 → delete_send_buffer_entry (p ∷ []) (add32 p.seq 1) ≡ ([], true)
unfolding delete_send_buffer_entry less_than_32b
delete-one p h = ground arith

link_twice : (t : TimerNode) → link_node (link_node t) ≡ stuck
unfolding link_node
link_twice apart = refl
link_twice in_list = refl
link_twice stuck = refl

module _ {C : Type 0} where
  set_timer_only :
      (s : Sock C) → (t : RetransTimer) × (tcp_set_retrans_timer s ≡ record s { retrans_timer = t })
  unfolding tcp_set_retrans_timer
  set_timer_only s = (
    (tcp_set_retrans_timer s).retrans_timer,
    (elim (Bool-cases s.retrans_timer.enable) [ inl on ↦ rw on refl | inr off ↦ rw off refl ]),
  )

  update_timer_only :
      (s : Sock C)
      → (t : RetransTimer) × (tcp_update_retrans_timer s ≡ record s { retrans_timer = t })
  unfolding tcp_update_retrans_timer tcp_set_retrans_timer
  update_timer_only s = (
    (tcp_update_retrans_timer s).retrans_timer,
    (elim (Bool-cases s.retrans_timer.enable) [ inl on ↦ rw on refl | inr off ↦ rw off refl ]),
  )

  stuck_after :
      (s : Sock C)
      → s.retrans_timer.enable ≡ false
      → ((tcp_set_retrans_timer s).retrans_timer.enable ≡ false)
        × ((tcp_set_retrans_timer s).retrans_timer.node ≡ link_node s.retrans_timer.node)
        × ((tcp_update_retrans_timer s).retrans_timer.node ≡ link_node s.retrans_timer.node)
  unfolding tcp_set_retrans_timer tcp_update_retrans_timer
  stuck_after s off = rw off (refl, refl, refl)

  announced :
      (s : Sock C) (flags : ℕ)
      → has_flag flags (tcp_syn + tcp_fin) ≡ true
      → (not (flags == tcp_ack) && not (has_flag flags tcp_rst)) ≡ true
      → (t : RetransTimer) × (tcp_send_control_packet (tcp_set_retrans_timer s) flags ≡ (
        record s {
          snd_nxt = add32 s.snd_nxt 1;
          send_buf = s.send_buf ++ (segment_of s flags [] ∷ []);
          retrans_timer = t;
        },
        segment_of s flags [],
      ))
        × (s.retrans_timer.enable ≡ false → t.node ≡ stuck)
  unfolding tcp_send_control_packet add_send_buffer_entry segment_of
  announced s flags takes kept =
      let (t, e) = set_timer_only s in
      let p = segment_of s flags [] in
      let s' = record s {
        snd_nxt = add32 s.snd_nxt 1;
        send_buf = s.send_buf ++ (p ∷ []);
        retrans_timer = t;
      } in
      let (t', e') = update_timer_only s' in
      let sends : tcp_send_control_packet (record s { retrans_timer = t }) flags
          ≡ (tcp_update_retrans_timer s', p) =
        rw (takes, kept) refl in
      (
        t',
        ap (λ x. tcp_send_control_packet x flags) e ∙ sends ∙ ap (λ x. (x, p)) e',
        λ off.
            let (off_t, once, _) = stuck_after s off in
            let (_, _, again) = stuck_after s' (sym (ap (λ x. x.retrans_timer.enable) e) ∙ off_t) in
            sym (ap (λ x. x.retrans_timer.node) e')
            ∙ again
            ∙ ap link_node (sym (ap (λ x. x.retrans_timer.node) e) ∙ once)
            ∙ link_twice s.retrans_timer.node,
      )

  -- With the timer set first: the packet takes one sequence number and is kept in the send buffer.
  pub announce :
      (s : Sock C) {flags : ℕ}
      → Announces flags
      → (t : RetransTimer) × (tcp_send_control_packet (tcp_set_retrans_timer s) flags ≡ (
        record s {
          snd_nxt = add32 s.snd_nxt 1;
          send_buf = s.send_buf ++ (segment_of s flags [] ∷ []);
          retrans_timer = t;
        },
        segment_of s flags [],
      ))
        × (s.retrans_timer.enable ≡ false → t.node ≡ stuck)
  unfolding tcp_send_control_packet add_send_buffer_entry segment_of
  announce s syn = announced s tcp_syn refl refl
  announce s syn_ack = announced s _ refl refl
  announce s fin_ack = announced s _ refl refl
