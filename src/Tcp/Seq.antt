-- ===== src/Tcp/Seq.antt =====
-- The comparisons of sequence numbers in EXP18-TCP_Stack_4/code/18-tcp_stack/include/tcp.h. The
-- difference of two `int32_t`s is taken to wrap, as it does on the machines that the code is for.
use ucas_computer_network.Common.{ℕ, ◌^◌, ◌<◌, ◌≡◌, Bool, not, arith, ltb, leb, ◌==◌, ◌&&◌, ◌||◌}
use ucas_computer_network.Common.Words.{add32, sub32}

unfoldable pub less_than_32b : ℕ → ℕ → Bool
less_than_32b a b = leb (2 ^ 31) (sub32 a b)

unfoldable pub less_or_equal_32b : ℕ → ℕ → Bool
less_or_equal_32b a b = leb (2 ^ 31) (sub32 a b) || sub32 a b == 0

unfoldable pub greater_or_equal_32b : ℕ → ℕ → Bool
greater_or_equal_32b a b = not (leb (2 ^ 31) (sub32 a b))

unfoldable pub greater_than_32b : ℕ → ℕ → Bool
greater_than_32b a b = not (leb (2 ^ 31) (sub32 a b)) && not (sub32 a b == 0)

-- At offsets below 2 ^ 31 from a common base, sequence numbers compare as the offsets do, also
-- where they wrap.
pub seq_offsets :
    (base m n : ℕ)
    → base < 2 ^ 32
    → m < 2 ^ 31
    → n < 2 ^ 31
    → (less_than_32b (add32 base m) (add32 base n) ≡ ltb m n)
      × (less_or_equal_32b (add32 base m) (add32 base n) ≡ leb m n)
      × (greater_than_32b (add32 base m) (add32 base n) ≡ ltb n m)
      × (greater_or_equal_32b (add32 base m) (add32 base n) ≡ leb n m)
unfolding less_than_32b less_or_equal_32b greater_than_32b greater_or_equal_32b
seq_offsets base m n hb hm hn = (ground arith, ground arith, ground arith, ground arith)
