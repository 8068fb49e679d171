-- ===== src/Tcp/Stack/Hearing.antt =====
-- A deaf socket while packets arrive at its host: tcp_process, in tcp_in.c of
-- EXP18-TCP_Stack_4/code/18-tcp_stack.
use ucas_computer_network.Common.{
  ℕ, ◌+◌, ◌≡◌, ◌≢◌, refl, sym, ◌∙◌, Bool, true, false, Option, none, some, List, arith, subst,
  Bool-cases, inl, inr,
}
use ucas_computer_network.Tcp.Sock.{
  Segment, Float, TcpState, closed, listen, syn_recv, syn_sent, established, close_wait, last_ack,
  fin_wait_1, fin_wait_2, closing, time_wait, has_flag, tcp_syn, tcp_rst, tcp_ack,
}
use ucas_computer_network.Tcp.Output.{TcpCb}
use ucas_computer_network.Tcp.Conn.{process_by}
use ucas_computer_network.Tcp.Stack.Store.{socks-set_other}
use ucas_computer_network.Tcp.Stack.Tables.{socks-hash_other}
use ucas_computer_network.Tcp.Stack.Born.{
  process_listen_lem, born_stack, born-other, hashed_stack, answered_stack,
}
use ucas_computer_network.Tcp.Stack.Deaf.{Deaf-same, deaf_lem}
use ucas_computer_network.Tcp.Stack.{
  Stack, stepped, sock_of, set_tsk, set_sock, tcp_process, tcp_process_by, process_listen,
  link_established, link_listen, tcp_hash, tcp_hash_by, tcp_sock_listen_enqueue,
}
use ucas_computer_network.Tcp.Stack.Stays.{
  Stays, Leaves, sock_close-Leaves, settle-Leaves, syn_recv-Leaves,
}

module _ {C : Type 0} where
  next-hash : (st : Stack C) (k : ℕ) → (tcp_hash st k).1.next ≡ st.next
  unfolding tcp_hash tcp_hash_by link_established link_listen set_tsk
  next-hash st k = by_state (sock_of st k).state
    where
      by_table :
          (o : Option ℕ)
          → (elim o as (λ x. Bool × Stack C) [
            | none ↦ (true, link_established st k)
            | some j ↦ (false, st)
          ]).1.next
            ≡ st.next
      by_table none = refl
      by_table (some j) = refl

      by_state : (s : TcpState) → (tcp_hash_by s st k).1.next ≡ st.next
      by_state closed = refl
      by_state listen = refl
      by_state syn_recv = by_table _
      by_state syn_sent = by_table _
      by_state established = by_table _
      by_state close_wait = by_table _
      by_state last_ack = by_table _
      by_state fin_wait_1 = by_table _
      by_state fin_wait_2 = by_table _
      by_state closing = by_table _
      by_state time_wait = by_table _

  pub next-answered :
      (st : Stack C) (i iss : ℕ) (cb : TcpCb) → (answered_stack st i iss cb).next ≡ st.next + 1
  unfolding set_sock set_tsk tcp_sock_listen_enqueue
  next-answered st i iss cb = next-hash (born_stack st i iss cb) st.next

  answered-Stays :
      (st : Stack C) (i j iss : ℕ) (cb : TcpCb)
      → i ≢ j
      → Stays st i
      → Stays (answered_stack st j iss cb) i
  unfolding set_sock
  answered-Stays st i j iss cb ne h =
      let old : i ≢ st.next = λ e. omega (arith, e, h.stored) in
      record {
        deaf =
            Deaf-same st (answered_stack st j iss cb) i
              (socks-set_other (hashed_stack st j iss cb) st.next i _ old
                ∙ socks-hash_other (born_stack st j iss cb) st.next i old
                ∙ born-other st j iss cb i ne old)
              h.deaf;
        stored = omega (arith, h.stored, next-answered st j iss cb);
      }

  listen-Leaves :
      (st : Stack C) (i j iss : ℕ) (cb : TcpCb)
      → i ≢ j
      → Stays st i
      → Leaves i (process_listen st j cb iss)
  unfolding process_listen
  listen-Leaves st i j iss cb ne h = elim (Bool-cases (has_flag cb.flags tcp_syn)) [
    | inl on ↦
        subst (Leaves i) (sym (process_listen_lem st j iss cb on))
          (answered-Stays st i j iss cb ne h)
    | inr off ↦ rw off h
  ]

module _ (f : Float) where
  open f use {Cwnd}

  by-Leaves :
      (s : TcpState) (st : Stack Cwnd) (i j iss now : ℕ) (cb : TcpCb)
      → i ≢ j
      → Stays st i
      → Leaves i (tcp_process_by f s st j cb iss now)
  unfolding tcp_process_by
  by-Leaves listen st i j iss now cb ne h = listen-Leaves st i j iss cb ne h
  by-Leaves syn_recv st i j iss now cb ne h = syn_recv-Leaves (st.socks j).parent st i j cb ne h
  by-Leaves before st i j iss now cb ne h =
      settle-Leaves before (process_by f before (sock_of st j) cb) st i j now ne h

  -- A packet for another socket.
  other-Leaves :
      (st : Stack Cwnd) (i j iss now : ℕ) (cb : TcpCb)
      → i ≢ j
      → Stays st i
      → Leaves i (tcp_process f st j cb iss now)
  unfolding tcp_process
  other-Leaves st i j iss now cb ne h = elim (Bool-cases (has_flag cb.flags tcp_rst)) [
    | inl on ↦ rw on (sock_close-Leaves st i j ne h)
    | inr off ↦ rw off (by-Leaves (sock_of st j).state st i j iss now cb ne h)
  ]

  -- A packet without RST for the socket itself.
  self-Leaves :
      (st : Stack Cwnd) (i iss now : ℕ) (cb : TcpCb)
      → has_flag cb.flags tcp_rst ≡ false
      → Stays st i
      → Leaves i (tcp_process f st i cb iss now)
  self-Leaves st i iss now cb plain h =
      subst (Leaves i) (sym (deaf_lem f st i iss now cb h.deaf plain))
        (elim (Bool-cases (has_flag cb.flags tcp_ack)) [ inl on ↦ rw on tt | inr off ↦ rw off h ])

  -- The host takes packets, for `i` only without RST.
  pub data Hears (i : ℕ) : Stack Cwnd → Stack Cwnd → Type 0 where
    nothing : {st : Stack Cwnd} → Hears i st st
    other :
        {st st' later : Stack Cwnd} (j iss now : ℕ) (cb : TcpCb) (u : Unit) (out : List Segment)
        → i ≢ j
        → tcp_process f st j cb iss now ≡ stepped u st' out
        → Hears i st' later
        → Hears i st later
    self :
        {st st' later : Stack Cwnd} (iss now : ℕ) (cb : TcpCb) (u : Unit) (out : List Segment)
        → has_flag cb.flags tcp_rst ≡ false
        → tcp_process f st i cb iss now ≡ stepped u st' out
        → Hears i st' later
        → Hears i st later

  pub Hears-Stays : (i : ℕ) (st later : Stack Cwnd) → Hears i st later → Stays st i → Stays later i
  Hears-Stays i st later nothing h = h
  Hears-Stays i st later (other {st' = st'} j iss now cb u out ne e rest) h =
      Hears-Stays i st' later rest (subst (Leaves i) e (other-Leaves st i j iss now cb ne h))
  Hears-Stays i st later (self {st' = st'} iss now cb u out plain e rest) h =
      Hears-Stays i st' later rest (subst (Leaves i) e (self-Leaves st i iss now cb plain h))
