-- ===== src/Tcp/Stack/Deaf.antt =====
-- A listening socket that has taken a SYN, in tcp_in.c of EXP18-TCP_Stack_4/code/18-tcp_stack: it listens no more.
use ucas_computer_network.Common.{ℕ, ◌+◌, ◌≡◌, ◌≢◌, refl, ap, ◌∙◌, false, none, [], if◌then◌else◌}
use ucas_computer_network.Tcp.Sock.{Float, syn_recv, has_flag, tcp_rst, tcp_ack}
use ucas_computer_network.Tcp.Output.{TcpCb}
use ucas_computer_network.Tcp.Stack.Store.{socks-set_self, socks-set_other}
use ucas_computer_network.Tcp.Stack.Tables.{socks-hash_other}
use ucas_computer_network.Tcp.Stack.Born.{
  deaf_stack, child_of, born_stack, hashed_stack, answered_stack,
}
use ucas_computer_network.Tcp.Stack.{
  Tsk, Stack, tcp_sock_listen_enqueue, stepped, fault, sock_of, set_tsk, set_sock, tcp_process,
  tcp_process_by, process_syn_recv,
}

module _ {C : Type 0} where
  -- A socket that listens no more: without a parent, in SYN_RECV.
  pub record Deaf (st : Stack C) (i : ℕ) : Type 0 where
    pub state : (sock_of st i).state ≡ syn_recv
    pub root : (st.socks i).parent ≡ none

  pub Deaf-self :
      (st : Stack C) (i : ℕ) (t : Tsk C)
      → t.sock.state ≡ syn_recv
      → t.parent ≡ none
      → Deaf (set_tsk st i t) i
  Deaf-self st i t on root = record {
    state = ap (λ x. x.sock.state) (socks-set_self st i t) ∙ on;
    root = ap (λ x. x.parent) (socks-set_self st i t) ∙ root;
  }

  pub Deaf-same : (st st' : Stack C) (i : ℕ) → st'.socks i ≡ st.socks i → Deaf st i → Deaf st' i
  Deaf-same st st' i same d = record {
    state = ap (λ x. x.sock.state) same ∙ d.state;
    root = ap (λ x. x.parent) same ∙ d.root;
  }

  pub deafened :
      (st : Stack C) (i iss : ℕ) (cb : TcpCb)
      → (st.socks i).parent ≡ none
      → i ≢ st.next
      → Deaf (answered_stack st i iss cb) i
  unfolding set_sock tcp_sock_listen_enqueue
  deafened st i iss cb root fresh =
      let st₁ = deaf_stack st i in
      let d₁ : Deaf st₁ i = Deaf-self st i _ refl root in
      let st₂ = set_tsk (record st₁ { next = st.next + 1 }) st.next (child_of st i iss cb) in
      let d₂ : Deaf st₂ i =
        Deaf-same st₁ st₂ i
          (socks-set_other (record st₁ { next = st.next + 1 }) st.next i (child_of st i iss cb)
            fresh)
          d₁ in
      let st₃ = born_stack st i iss cb in
      let d₃ : Deaf st₃ i = Deaf-self st₂ i _ d₂.state d₂.root in
      let st₄ = hashed_stack st i iss cb in
      let d₄ : Deaf st₄ i = Deaf-same st₃ st₄ i (socks-hash_other st₃ st.next i fresh) d₃ in
      Deaf-same st₄ (answered_stack st i iss cb) i (socks-set_other st₄ st.next i _ fresh) d₄

module _ (f : Float) where
  open f use {Cwnd}

  -- What a deaf socket makes of any packet but RST.
  pub deaf_lem :
      (st : Stack Cwnd) (i iss now : ℕ) (cb : TcpCb)
      → Deaf st i
      → has_flag cb.flags tcp_rst ≡ false
      → tcp_process f st i cb iss now
        ≡ (if has_flag cb.flags tcp_ack then fault else stepped tt st [])
  unfolding tcp_process tcp_process_by process_syn_recv
  deaf_lem st i iss now cb deaf plain = rw (plain, deaf.state, deaf.root) refl
