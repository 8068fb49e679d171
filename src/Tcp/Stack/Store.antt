-- ===== src/Tcp/Stack/Store.antt =====
-- Writing one socket of the store.
use ucas_computer_network.Common.{ℕ, ◌≡◌, ◌≢◌, refl, true, false, arith, ◌==◌}
use ucas_computer_network.Tcp.Stack.{Tsk, Stack, set_tsk, unlink, stale}

module _ {C : Type 0} where
  pub socks-set_self : (st : Stack C) (i : ℕ) (t : Tsk C) → (set_tsk st i t).socks i ≡ t
  unfolding set_tsk
  socks-set_self st i t = let on : (i == i) ≡ true = ground arith in rw on refl

  pub socks-set_other :
      (st : Stack C) (i j : ℕ) (t : Tsk C) → j ≢ i → (set_tsk st i t).socks j ≡ st.socks j
  unfolding set_tsk
  socks-set_other st i j t h = let off : (j == i) ≡ false = ground (arith, h) in rw off refl

  pub socks-unlink_self :
      (st : Stack C) (i : ℕ) → (unlink st i).socks i ≡ record (st.socks i) { hash_node = stale }
  unfolding unlink set_tsk
  socks-unlink_self st i = let on : (i == i) ≡ true = ground arith in rw on refl

  pub socks-unlink_other : (st : Stack C) (i j : ℕ) → j ≢ i → (unlink st i).socks j ≡ st.socks j
  unfolding unlink set_tsk
  socks-unlink_other st i j h = let off : (j == i) ≡ false = ground (arith, h) in rw off refl
