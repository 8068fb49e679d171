-- ===== src/Tcp/Stack/Born.antt =====
-- The new socket that a SYN to a listening socket makes, step by step, as process_listen does: in tcp_in.c
-- of EXP18-TCP_Stack_4/code/18-tcp_stack.
use ucas_computer_network.Common.{
  ℕ, ◌+◌, ◌≡◌, ◌≢◌, refl, ap, sym, ◌∙◌, Bool, true, none, some, [], ◌∷◌, ◌++◌, arith, All,
  Bool-cases, inl, inr, ◌==◌, subst,
}
use ucas_computer_network.Common.Words.{add32}
use ucas_computer_network.Tcp.Sock.{Sock, syn_recv, tcp_syn, tcp_ack, has_flag}
use ucas_computer_network.Tcp.Output.{TcpCb, segment_of}
use ucas_computer_network.Tcp.Output.Control.{announce, syn_ack}
use ucas_computer_network.Tcp.Conn.{alloc_child_tcp_sock, answer_syn}
use ucas_computer_network.Tcp.Stack.Store.{socks-set_self, socks-set_other}
use ucas_computer_network.Tcp.Stack.Tables.{Connects}
use ucas_computer_network.Tcp.Stack.{
  process_listen, stepped, Tsk, Stack, stale, sock_of, set_tsk, set_sock, has_tuple, tcp_hash,
  tcp_hash_function, tcp_sock_lookup_established, tcp_sock_listen_enqueue,
}
use ucas_computer_network.Tcp.Stack.Lookup.{node-hash, find-like, tuple-state, hashed-found}

module _ {C : Type 0} where
  -- The steps up to the child in the queue.
  abbrev pub deaf_stack : Stack C → ℕ → Stack C
  deaf_stack st i = set_sock st i (record (sock_of st i) { state = syn_recv })

  abbrev pub child_of : Stack C → ℕ → ℕ → TcpCb → Tsk C
  child_of st i iss cb = record ((deaf_stack st i).socks i) {
    sock = alloc_child_tcp_sock (sock_of (deaf_stack st i) i) cb iss;
    parent = some i;
    hash_node = stale;
  }

  abbrev pub born_stack : Stack C → ℕ → ℕ → TcpCb → Stack C
  born_stack st i iss cb =
      tcp_sock_listen_enqueue
        (set_tsk (record (deaf_stack st i) { next = st.next + 1 }) st.next (child_of st i iss cb)) i
        st.next

  socks-deaf :
      (st : Stack C) (i : ℕ)
      → (deaf_stack st i).socks i
        ≡ record (st.socks i) { sock = record (sock_of st i) { state = syn_recv } }
  unfolding set_sock
  socks-deaf st i = socks-set_self st i _

  -- The child is in the store, and the listening socket has it in its queue.
  born-child :
      (st : Stack C) (i iss : ℕ) (cb : TcpCb)
      → i ≢ st.next
      → (born_stack st i iss cb).socks st.next ≡ child_of st i iss cb
  unfolding tcp_sock_listen_enqueue
  born-child st i iss cb fresh =
      socks-set_other _ i st.next _ (λ e. fresh (sym e))
      ∙ socks-set_self (record (deaf_stack st i) { next = st.next + 1 }) st.next _

  pub born-parent :
      (st : Stack C) (i iss : ℕ) (cb : TcpCb)
      → i ≢ st.next
      → (born_stack st i iss cb).socks i ≡ record (st.socks i) {
        sock = record (sock_of st i) { state = syn_recv };
        listen_queue = (st.socks i).listen_queue ++ (st.next ∷ []);
      }
  unfolding tcp_sock_listen_enqueue
  born-parent st i iss cb fresh =
      socks-set_self _ i _
      ∙ ap (λ (t : Tsk C). record t { listen_queue = t.listen_queue ++ (st.next ∷ []) })
          (socks-set_other (record (deaf_stack st i) { next = st.next + 1 }) st.next i
              (child_of st i iss cb) fresh
            ∙ socks-deaf st i)

  pub born-other :
      (st : Stack C) (i iss : ℕ) (cb : TcpCb) (j : ℕ)
      → j ≢ i
      → j ≢ st.next
      → (born_stack st i iss cb).socks j ≡ st.socks j
  unfolding tcp_sock_listen_enqueue set_sock
  born-other st i iss cb j ne ne' =
      socks-set_other _ i j _ ne
      ∙ socks-set_other (record (deaf_stack st i) { next = st.next + 1 }) st.next j
          (child_of st i iss cb) ne'
      ∙ socks-set_other st i j _ ne

  -- The table of a stack with the child finds it under its addresses and ports.
  born-free :
      (st : Stack C) (i iss : ℕ) (cb : TcpCb) (saddr daddr sport dport : ℕ)
      → i ≢ st.next
      → All (λ j. j ≢ st.next) (st.established_table (tcp_hash_function saddr daddr sport dport))
      → tcp_sock_lookup_established (born_stack st i iss cb) saddr daddr sport dport
        ≡ tcp_sock_lookup_established st saddr daddr sport dport
  unfolding tcp_sock_lookup_established tcp_sock_listen_enqueue set_sock set_tsk
  born-free st i iss cb saddr daddr sport dport fresh unborn =
      let test : Sock C → Bool = has_tuple saddr daddr sport dport in
      find-like st (born_stack st i iss cb) test st.next
        (st.established_table (tcp_hash_function saddr daddr sport dport))
        (λ j ne. elim (Bool-cases (j == i)) [
          | inl on ↦
              let at : j ≡ i = ground (arith, on) in
              ap (λ k. test (sock_of (born_stack st i iss cb) k)) at
              ∙ ap (λ t. test t.sock) (born-parent st i iss cb fresh)
              ∙ tuple-state saddr daddr sport dport (sock_of st i) syn_recv
              ∙ sym (ap (λ k. test (sock_of st k)) at)
          | inr off ↦ ap (λ t. test t.sock) (born-other st i iss cb j (ground (arith, off)) ne)
        ])
        unborn

  -- What the child sends.
  pub answered :
      (s : Sock C)
      → (t : _) × (answer_syn s ≡ (
        record s {
          snd_nxt = add32 s.snd_nxt 1;
          send_buf = s.send_buf ++ (segment_of s (tcp_ack + tcp_syn) [] ∷ []);
          retrans_timer = t;
        },
        segment_of s (tcp_ack + tcp_syn) [],
      ))
  unfolding answer_syn
  answered s = let (t, e, _) = announce s syn_ack in (t, e)

  abbrev pub hashed_stack : Stack C → ℕ → ℕ → TcpCb → Stack C
  hashed_stack st i iss cb = (tcp_hash (born_stack st i iss cb) st.next).1

  abbrev pub answered_stack : Stack C → ℕ → ℕ → TcpCb → Stack C
  answered_stack st i iss cb =
      set_sock (hashed_stack st i iss cb) st.next
        (answer_syn (sock_of (hashed_stack st i iss cb) st.next)).0

  abbrev pub newborn : Stack C → ℕ → ℕ → TcpCb → Sock C
  newborn st i iss cb = alloc_child_tcp_sock (sock_of (deaf_stack st i) i) cb iss

  -- The child as it is hashed.
  pub hashed-child :
      (st : Stack C) (i iss : ℕ) (cb : TcpCb)
      → i ≢ st.next
      → ((hashed_stack st i iss cb).socks st.next).sock ≡ newborn st i iss cb
  hashed-child st i iss cb fresh =
      let (n, e) = node-hash (born_stack st i iss cb) st.next in
      ap (λ t. t.sock) e ∙ ap (λ t. t.sock) (born-child st i iss cb fresh)

  pub hashed-parent :
      (st : Stack C) (i iss : ℕ) (cb : TcpCb)
      → i ≢ st.next
      → ((hashed_stack st i iss cb).socks st.next).parent ≡ some i
  hashed-parent st i iss cb fresh =
      let (n, e) = node-hash (born_stack st i iss cb) st.next in
      ap (λ t. t.parent) e ∙ ap (λ t. t.parent) (born-child st i iss cb fresh)

  pub newborn-state :
      (st : Stack C) (i iss : ℕ) (cb : TcpCb) → (newborn st i iss cb).state ≡ syn_recv
  unfolding alloc_child_tcp_sock
  newborn-state st i iss cb = ap (λ t. t.sock.state) (socks-deaf st i)

  pub hashed-lookup :
      (st : Stack C) (i iss : ℕ) (cb : TcpCb)
      → i ≢ st.next
      → tcp_sock_lookup_established st cb.daddr cb.saddr cb.dport cb.sport ≡ none
      → All
          (λ j. j ≢ st.next)
          (st.established_table (tcp_hash_function cb.daddr cb.saddr cb.dport cb.sport))
      → tcp_sock_lookup_established (hashed_stack st i iss cb) cb.daddr cb.saddr cb.dport cb.sport
        ≡ some st.next
  unfolding alloc_child_tcp_sock
  hashed-lookup st i iss cb fresh free unborn =
      let born = born_stack st i iss cb in
      let lies : sock_of born st.next ≡ newborn st i iss cb =
        ap (λ t. t.sock) (born-child st i iss cb fresh) in
      let found : Connects (newborn st i iss cb).state
          → tcp_sock_lookup_established born cb.daddr cb.saddr cb.dport cb.sport ≡ none
          → tcp_sock_lookup_established (hashed_stack st i iss cb) cb.daddr cb.saddr cb.dport
              cb.sport
            ≡ some st.next =
        subst
          (λ (s : Sock C).
            Connects s.state
            → tcp_sock_lookup_established born s.sip s.dip s.sport s.dport ≡ none
            → tcp_sock_lookup_established (hashed_stack st i iss cb) s.sip s.dip s.sport s.dport
              ≡ some st.next)
          lies (hashed-found born st.next) in
      found (subst Connects (sym (newborn-state st i iss cb)) tt)
        (born-free st i iss cb cb.daddr cb.saddr cb.dport cb.sport fresh unborn ∙ free)

  -- What process_listen comes to.
  pub process_listen_lem :
      (st : Stack C) (i iss : ℕ) (cb : TcpCb)
      → has_flag cb.flags tcp_syn ≡ true
      → process_listen st i cb iss
        ≡ stepped tt
            (answered_stack st i iss cb)
            ((answer_syn (sock_of (hashed_stack st i iss cb) st.next)).1 ∷ [])
  unfolding process_listen
  process_listen_lem st i iss cb opens = rw opens refl
