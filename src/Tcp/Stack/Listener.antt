-- ===== src/Tcp/Stack/Listener.antt =====
-- What becomes of a listening socket and its children.
use ucas_computer_network.Common.{
  ℕ, zero, suc, ◌<◌, ◌+◌, ◌-◌, ◌≡◌, ◌≢◌, refl, ap, sym, ◌∙◌, true, false, not, none, List, [], ◌∷◌,
  ◌++◌, arith, subst, All, ◌==◌, if◌then◌else◌, keep, Bool-cases, inl, inr,
}
use ucas_computer_network.Tcp.Sock.{
  Sock, Segment, Float, closed, listen, syn_recv, established, has_flag, tcp_syn, tcp_rst, tcp_ack,
}
use ucas_computer_network.Tcp.Output.{TcpCb}
use ucas_computer_network.Tcp.Conn.{accept_sock, close_by, close_sock, answer_syn}
use ucas_computer_network.Tcp.Stack.Store.{
  socks-set_self, socks-set_other, socks-unlink_self, socks-unlink_other,
}
use ucas_computer_network.Tcp.Stack.Born.{process_listen_lem, hashed_stack, answered_stack}
use ucas_computer_network.Tcp.Stack.Hearing.{Hears, Hears-Stays, next-answered}
use ucas_computer_network.Tcp.Stack.Child.{Child, answered_stack-Child}
use ucas_computer_network.Tcp.Stack.Deaf.{deaf_lem, deafened}
use ucas_computer_network.Tcp.Stack.{
  Tsk, Stack, stepped, fault, linked, sock_of, set_tsk, set_sock, tcp_sock_accept_enqueue,
  tcp_sock_accept, accept_from, tcp_process, tcp_process_by, tcp_sock_close, is_kept,
  tcp_sock_lookup_established, tcp_hash_function, tcp_unhash, unhash_by, unlink, then_close,
}

module _ (f : Float) where
  open f use {Cwnd}

  -- A listening socket without a parent takes one SYN (without RST), if no socket is in the table under
  -- the addresses and ports of the packet, none in that bucket has the number of the new socket,
  -- and its own number is below that. The SYN is answered by a new child: in SYN_RECV, with the
  -- numbers of the packet, in the listening queue of its parent and found under the addresses and
  -- ports; the answer is an empty packet with SYN and ACK. But the listening socket itself is left
  -- in SYN_RECV. From then on, after any packets that `tcp_process` takes to their end, for other
  -- sockets or without RST, a packet for it (without RST) is ignored if it has no ACK, another SYN
  -- too, and one with ACK makes the stack follow a NULL pointer.
  pub listens_once :
      (st : Stack Cwnd) (i iss now : ℕ) (cb : TcpCb)
      → (sock_of st i).state ≡ listen
      → (st.socks i).parent ≡ none
      → i < st.next
      → has_flag cb.flags tcp_rst ≡ false
      → has_flag cb.flags tcp_syn ≡ true
      → tcp_sock_lookup_established st cb.daddr cb.saddr cb.dport cb.sport ≡ none
      → All
          (λ j. j ≢ st.next)
          (st.established_table (tcp_hash_function cb.daddr cb.saddr cb.dport cb.sport))
      → (st' : Stack Cwnd) × (answer : Segment) × (tcp_process f st i cb iss now
          ≡ stepped tt st' (answer ∷ []))
        × Child st i iss cb st' answer
        × ((later : Stack Cwnd)
            → Hears f i st' later
            → (cb' : TcpCb) (iss' now' : ℕ) → has_flag cb'.flags tcp_rst ≡ false
            → tcp_process f later i cb' iss' now'
              ≡ (if has_flag cb'.flags tcp_ack then fault else stepped tt later []))
  unfolding tcp_process tcp_process_by
  listens_once st i iss now cb on root stored plain opens free unborn = (
    answered_stack st i iss cb,
    (answer_syn (sock_of (hashed_stack st i iss cb) st.next)).1,
    rw (plain, on) (process_listen_lem st i iss cb opens),
    answered_stack-Child st i iss cb (λ e. omega (arith, e, stored)) free unborn,
    λ later heard cb' iss' now' plain'.
        deaf_lem f later i iss' now' cb'
          (Hears-Stays f i _ later heard (record {
            deaf = deafened st i iss cb root (λ e. omega (arith, e, stored));
            stored = omega (arith, stored, next-answered st i iss cb);
          })).deaf
          plain',
  )

without : (i : ℕ) (xs : List ℕ) → All (λ j. j ≢ i) (keep (λ j. not (j == i)) xs)
without i [] = tt
without i (x ∷ xs) = elim (Bool-cases (x == i)) [
  | inl on ↦ rw on (without i xs)
  | inr off ↦ rw off (ground (arith, off), without i xs)
]

others-twice :
    (i : ℕ) (xs : List ℕ)
    → keep (λ j. not (j == i)) (keep (λ j. not (j == i)) xs ++ (i ∷ []))
      ≡ keep (λ j. not (j == i)) xs
others-twice i [] = let on : (i == i) ≡ true = ground arith in rw on refl
others-twice i (x ∷ xs) = elim (Bool-cases (x == i)) [
  | inl on ↦ rw on (others-twice i xs)
  | inr off ↦ rw (off, off) (ap (◌∷◌ x) (others-twice i xs))
]

module _ {C : Type 0} where
  -- `n` acknowledgements in SYN_RECV.
  pub enqueue_times : ℕ → Stack C → ℕ → ℕ → Stack C
  enqueue_times zero st parent i = st
  enqueue_times (suc n) st parent i = enqueue_times n (tcp_sock_accept_enqueue st parent i) parent i

  backlog-enqueue :
      (st : Stack C) (parent i : ℕ)
      → ((tcp_sock_accept_enqueue st parent i).socks parent).accept_backlog
        ≡ (st.socks parent).accept_backlog + 1
  unfolding tcp_sock_accept_enqueue
  backlog-enqueue st parent i = ap (λ t. t.accept_backlog) (socks-set_self st parent _)

  queue-enqueue :
      (st : Stack C) (parent i : ℕ)
      → ((tcp_sock_accept_enqueue st parent i).socks parent).accept_queue
        ≡ keep (λ j. not (j == i)) (st.socks parent).accept_queue ++ (i ∷ [])
  unfolding tcp_sock_accept_enqueue
  queue-enqueue st parent i = ap (λ t. t.accept_queue) (socks-set_self st parent _)

  -- Each acknowledgement that reaches a child in SYN_RECV, a repeated one too, is counted in the backlog
  -- of its parent: after `n` + 1 of them the backlog is higher by `n` + 1, while the accept queue holds
  -- the child once, behind the others.
  pub backlog-grows :
      (n : ℕ) (st : Stack C) (parent i : ℕ)
      → (((enqueue_times (suc n) st parent i).socks parent).accept_backlog
          ≡ (st.socks parent).accept_backlog + suc n)
        × (((enqueue_times (suc n) st parent i).socks parent).accept_queue
            ≡ keep (λ j. not (j == i)) (st.socks parent).accept_queue ++ (i ∷ []))
  unfolding enqueue_times
  backlog-grows zero st parent i = (backlog-enqueue st parent i, queue-enqueue st parent i)
  backlog-grows (suc n) st parent i =
      let (count, queue) = backlog-grows n (tcp_sock_accept_enqueue st parent i) parent i in
      (
        omega (arith, count, backlog-enqueue st parent i),
        queue
            ∙ ap (λ q. keep (λ j. not (j == i)) q ++ (i ∷ [])) (queue-enqueue st parent i)
            ∙ ap (λ q. q ++ (i ∷ [])) (others-twice i (st.socks parent).accept_queue),
      )

  close_syn_recv : (s : Sock C) → s.state ≡ syn_recv → (close_sock s).0.state ≡ closed
  unfolding close_sock close_by
  close_syn_recv s on = rw on refl

  established-set :
      (st : Stack C) (i : ℕ) (t : Tsk C) → (set_tsk st i t).established_table ≡ st.established_table
  unfolding set_tsk
  established-set st i t = refl

  pub unlinked : (st : Stack C) (i h : ℕ) → All (λ j. j ≢ i) ((unlink st i).established_table h)
  unfolding unlink set_tsk
  unlinked st i h = without i (st.established_table h)

  accept_lem :
      (one : C) (st : Stack C) (parent i : ℕ) (js : List ℕ)
      → (st.socks parent).accept_queue ≡ i ∷ js
      → (st' : Stack C) × (tcp_sock_accept one st parent ≡ stepped i st' [])
        × ((sock_of st' i).state ≡ established)
  unfolding tcp_sock_accept accept_from accept_sock set_sock
  accept_lem one st parent i js queue =
      let st' = set_tsk st parent (record (st.socks parent) {
        accept_queue = js;
        accept_backlog = (st.socks parent).accept_backlog - 1;
      }) in
      (
        set_sock st' i (accept_sock one (sock_of st' i)),
        ap (λ q. accept_from one q st parent) queue,
        ap (λ t. t.sock.state)
            (socks-set_self st' i
              (record (st'.socks i) { sock = accept_sock one (sock_of st' i) })),
      )

  close_lem :
      (st : Stack C) (i : ℕ)
      → (sock_of st i).state ≡ syn_recv
      → (st.socks i).hash_node ≡ linked
      → tcp_sock_close st i
        ≡ stepped tt (set_sock (unlink st i) i (close_sock (sock_of (unlink st i) i)).0) []
  unfolding tcp_sock_close is_kept tcp_unhash unhash_by then_close
  close_lem st i on hashed = rw (on, hashed) refl

  -- A child that waits to be accepted, closed by a reset, is accepted all the same: it leaves the tables
  -- and is CLOSED, and `tcp_sock_accept` makes it ESTABLISHED again.
  pub reset-accepted :
      (one : C) (st : Stack C) (parent i : ℕ) (js : List ℕ)
      → parent ≢ i
      → (sock_of st i).state ≡ syn_recv
      → (st.socks i).hash_node ≡ linked
      → (st.socks parent).accept_queue ≡ i ∷ js
      → (st' : Stack C) × (st'' : Stack C) × (tcp_sock_close st i ≡ stepped tt st' [])
        × ((sock_of st' i).state ≡ closed)
        × ((h : ℕ) → All (λ j. j ≢ i) (st'.established_table h))
        × (tcp_sock_accept one st' parent ≡ stepped i st'' [])
        × ((sock_of st'' i).state ≡ established)
  unfolding set_sock
  reset-accepted one st parent i js ne on hashed queue =
      let st₁ = unlink st i in
      let s = (close_sock (sock_of st₁ i)).0 in
      let st' = set_sock st₁ i s in
      let same : sock_of st₁ i ≡ sock_of st i = ap (λ t. t.sock) (socks-unlink_self st i) in
      let kept : st'.socks parent ≡ st.socks parent =
        socks-set_other st₁ i parent (record (st₁.socks i) { sock = s }) ne
        ∙ socks-unlink_other st i parent ne in
      let (st'', accepts, live) =
        accept_lem one st' parent i js (ap (λ t. t.accept_queue) kept ∙ queue) in
      (
        st',
        st'',
        close_lem st i on hashed,
        ap (λ t. t.sock.state) (socks-set_self st₁ i (record (st₁.socks i) { sock = s }))
            ∙ close_syn_recv (sock_of st₁ i) (ap (λ t. t.state) same ∙ on),
        λ h.
            subst (λ tab. All (λ j. j ≢ i) (tab h))
              (sym (established-set st₁ i (record (st₁.socks i) { sock = s }))) (unlinked st i h),
        accepts,
        live,
      )
