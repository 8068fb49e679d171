-- ===== src/Tcp/Stack/Ports.antt =====
-- Ports, and the end of TIME_WAIT.
use ucas_computer_network.Common.{
  ℕ, zero, suc, ◌+◌, ◌*◌, ◌^◌, ◌≤◌, ◌≡◌, refl, true, false, none, List, [], ◌∷◌, arith, All, ◌==◌,
  if◌then◌else◌,
}
use ucas_computer_network.Tcp.Stack.{
  Stack, port_min, port_read, reads_port, tcp_port_in_use, free_port_from, tcp_get_port, bind_to,
  tcp_sock_set_sport, is_expired, tcp_msl, tcp_timewait_timeout,
}

-- No socket of the bind table is a child.
abbrev pub Parentless : {C : Type 0} → Stack C → Type 0
Parentless st = (h : ℕ) → All (λ i. (st.socks i).parent ≡ none) (st.bind_table h)

module _ {C : Type 0} (address : ℕ → ℕ) where
  reads-none :
      (st : Stack C) (p : ℕ) (is : List ℕ)
      → All (λ i. (st.socks i).parent ≡ none) is
      → reads_port address st (suc p) is ≡ false
  unfolding reads_port port_read
  reads-none st p [] h = refl
  reads-none st p (i ∷ is) (root, rest) =
      let other : (0 == suc p) ≡ false = ground arith in
      rw root (rw other (reads-none st p is rest))

  in_use_none : (st : Stack C) (p : ℕ) → Parentless st → tcp_port_in_use address st (suc p) ≡ false
  unfolding tcp_port_in_use
  in_use_none st p h = reads-none st p _ (h _)

  get_port_first : (st : Stack C) → Parentless st → tcp_get_port address st ≡ port_min
  unfolding tcp_get_port free_port_from
  get_port_first st h = rw (in_use_none st 12344 h) refl

  -- While only sockets that connect or bind themselves, and no children, are in the bind table, no port
  -- is ever found in use: any port can be bound, also one that is bound already, and whoever leaves
  -- the choice to the stack gets 12345, each time.
  pub set_sport-binds :
      (st : Stack C) (i p : ℕ)
      → Parentless st
      → tcp_sock_set_sport address st i p ≡ bind_to address st i (if p == 0 then port_min else p)
  unfolding tcp_sock_set_sport
  set_sport-binds st i zero h = rw (get_port_first st h) refl
  set_sport-binds st i (suc p) h =
      let some_port : (suc p == 0) ≡ false = ground arith in rw (in_use_none st p h, some_port) refl

-- From 2150 seconds after the start of the epoch on, the time-wait timer of any socket has run out at
-- the first scan, whenever it was set: 2 * MSL are never waited for.
pub expired_at_once :
    (now timeout : ℕ)
    → 2 ^ 31 + tcp_timewait_timeout ≤ now * tcp_msl
    → is_expired now timeout ≡ true
unfolding is_expired
expired_at_once now timeout h = ground arith
