-- ===== src/Tcp/Stack/Child.antt =====
-- The child that answers the SYN to a listening socket: the state LISTEN of tcp_process, in tcp_in.c of
-- EXP18-TCP_Stack_4/code/18-tcp_stack.
use ucas_computer_network.Common.{ℕ, ◌+◌, ◌≡◌, ◌≢◌, ap, sym, ◌∙◌, none, some, [], ◌∷◌, ◌++◌, All}
use ucas_computer_network.Common.Words.{add32}
use ucas_computer_network.Tcp.Sock.{Sock, Segment, syn_recv, tcp_syn, tcp_ack}
use ucas_computer_network.Tcp.Output.{TcpCb, segment_of}
use ucas_computer_network.Tcp.Conn.{alloc_child_tcp_sock, answer_syn}
use ucas_computer_network.Tcp.Stack.Store.{socks-set_self, socks-set_other}
use ucas_computer_network.Tcp.Stack.Tables.{socks-hash_other}
use ucas_computer_network.Tcp.Stack.{
  Tsk, Stack, sock_of, set_sock, has_tuple, tcp_hash_function, tcp_sock_lookup_established,
}
use ucas_computer_network.Tcp.Stack.Lookup.{lookup-set}
use ucas_computer_network.Tcp.Stack.Born.{
  born_stack, born-parent, answered, hashed_stack, answered_stack, newborn, hashed-child,
  hashed-parent, newborn-state, hashed-lookup,
}

module _ {C : Type 0} where
  -- The child of socket `i`, for the packet `cb`, and what it answers: its state and numbers, its
  -- place in the queue of its parent and in the table, and the flags and numbers of the answer.
  pub record Child (st : Stack C) (i iss : ℕ) (cb : TcpCb) (st' : Stack C) (answer : Segment)
      : Type 0 where
    pub state : (sock_of st' st.next).state ≡ syn_recv
    pub expects : (sock_of st' st.next).rcv_nxt ≡ add32 cb.seq 1
    pub follows : (sock_of st' st.next).snd_nxt ≡ add32 iss 1
    pub parent : (st'.socks st.next).parent ≡ some i
    pub queued : (st'.socks i).listen_queue ≡ (st.socks i).listen_queue ++ (st.next ∷ [])
    pub found : tcp_sock_lookup_established st' cb.daddr cb.saddr cb.dport cb.sport ≡ some st.next
    pub addresses : (answer.saddr ≡ cb.daddr) × (answer.daddr ≡ cb.saddr)
    pub ports : (answer.sport ≡ cb.dport) × (answer.dport ≡ cb.sport)
    pub flags : answer.flags ≡ tcp_ack + tcp_syn
    pub numbers : (answer.seq ≡ iss) × (answer.ack ≡ add32 cb.seq 1)
    pub bare : answer.payload ≡ []

  pub answered_stack-Child :
      (st : Stack C) (i iss : ℕ) (cb : TcpCb)
      → i ≢ st.next
      → tcp_sock_lookup_established st cb.daddr cb.saddr cb.dport cb.sport ≡ none
      → All
          (λ j. j ≢ st.next)
          (st.established_table (tcp_hash_function cb.daddr cb.saddr cb.dport cb.sport))
      → Child st i iss cb
          (answered_stack st i iss cb)
          (answer_syn (sock_of (hashed_stack st i iss cb) st.next)).1
  unfolding alloc_child_tcp_sock segment_of has_tuple set_sock
  answered_stack-Child st i iss cb fresh free unborn =
      let hashed = hashed_stack st i iss cb in
      let lies = hashed-child st i iss cb fresh in
      let (t, sends) = answered (newborn st i iss cb) in
      let answers = ap answer_syn lies ∙ sends in
      let grown : sock_of (answered_stack st i iss cb) st.next
          ≡ (answer_syn (sock_of hashed st.next)).0 =
        ap (λ (x : Tsk C). x.sock) (socks-set_self hashed st.next _) in
      record {
        state =
            ap (λ (s : Sock C). s.state) grown
            ∙ ap (λ r. r.0.state) answers
            ∙ newborn-state st i iss cb;
        expects = ap (λ (s : Sock C). s.rcv_nxt) grown ∙ ap (λ r. r.0.rcv_nxt) answers;
        follows = ap (λ (s : Sock C). s.snd_nxt) grown ∙ ap (λ r. r.0.snd_nxt) answers;
        parent =
            ap (λ (x : Tsk C). x.parent) (socks-set_self hashed st.next _)
            ∙ hashed-parent st i iss cb fresh;
        queued =
            ap (λ (x : Tsk C). x.listen_queue) (socks-set_other hashed st.next i _ fresh)
            ∙ ap (λ (x : Tsk C). x.listen_queue)
                (socks-hash_other (born_stack st i iss cb) st.next i fresh)
            ∙ ap (λ (x : Tsk C). x.listen_queue) (born-parent st i iss cb fresh);
        found =
            lookup-set hashed st.next (answer_syn (sock_of hashed st.next)).0 cb.daddr cb.saddr
              cb.dport cb.sport
              (ap (λ r. has_tuple cb.daddr cb.saddr cb.dport cb.sport r.0) answers
                ∙ sym (ap (has_tuple cb.daddr cb.saddr cb.dport cb.sport) lies))
            ∙ hashed-lookup st i iss cb fresh free unborn;
        addresses = (ap (λ r. r.1.saddr) answers, ap (λ r. r.1.daddr) answers);
        ports = (ap (λ r. r.1.sport) answers, ap (λ r. r.1.dport) answers);
        flags = ap (λ r. r.1.flags) answers;
        numbers = (ap (λ r. r.1.seq) answers, ap (λ r. r.1.ack) answers);
        bare = ap (λ r. r.1.payload) answers;
      }
