-- ===== src/Icmp/Headers.antt =====
-- Messages with their checksum, as ip_init_hdr and icmp_send_packet of
-- EXP18-TCP_Stack_4/code/18-tcp_stack make them.
use ucas_computer_network.Common.{
  ℕ, zero, suc, ◌+◌, ◌^◌, ◌<◌, ◌≤◌, ◌≡◌, refl, ap, List, [], ◌∷◌, ◌++◌, arith, length, get_or, take,
  drop, All, All-append, length-append,
}
use ucas_computer_network.Checksum.{checksum, total, checksum-total, words_of, in_memory}
use ucas_computer_network.Icmp.{with_checksum}

abbrev pub Bytes : List ℕ → Type 0
Bytes p = All (λ b. b < 256) p

abbrev pub Even : List ℕ → Type 0
Even [] = Unit {0}
Even (a ∷ []) = ⊥
Even (a ∷ b ∷ p) = Even p

total-words :
    (front back : List ℕ)
    → Even front
    → total (words_of (front ++ back)) ≡ total (words_of front) + total (words_of back)
unfolding words_of total
total-words [] back even = omega arith
total-words (a ∷ []) back even = absurd even
total-words (a ∷ b ∷ p) back even = omega (arith, total-words p back even)

words-small : (p : List ℕ) → Bytes p → All (λ w. w < 2 ^ 16) (words_of p)
unfolding words_of
words-small [] h = tt
words-small (a ∷ []) (ha, h) = (omega (arith, ha), tt)
words-small (a ∷ b ∷ p) (ha, (hb, h)) = (omega (arith, ha, hb), words-small p h)

words-length : (p : List ℕ) → length (words_of p) ≤ length p
unfolding words_of
words-length [] = omega arith
words-length (a ∷ []) = omega arith
words-length (a ∷ b ∷ p) = omega (arith, words-length p)

-- The checksum of a message of up to 65,535 bytes, the checksum included, is 0.
pub with_checksum-verifies :
    (front back : List ℕ)
    → Even front
    → Bytes front
    → Bytes back
    → length front + length back + 2 ≤ 65535
    → checksum (words_of (with_checksum front back)) 0 ≡ 0
unfolding with_checksum total words_of
with_checksum-verifies front back even hf hb fits =
    let blank = front ++ 0 ∷ 0 ∷ back in
    let c = checksum (words_of blank) 0 in
    let size = words-length blank in
    let size' = length-append front (0 ∷ 0 ∷ back) in
    let t = total-words front (0 ∷ 0 ∷ back) even in
    let t' = total-words front (in_memory c ++ back) even in
    checksum-total (words_of blank) (words_of (with_checksum front back)) 0
      (words-small blank
        (All-append (λ b. b < 256) front (0 ∷ 0 ∷ back) hf (omega arith, (omega arith, hb))))
      (omega (arith, size, size', fits)) (omega (arith, t, t'))

pub take-append {ℓ} : {A : Type ℓ} (n : ℕ) (xs ys : List A) → length xs ≡ n → take n (xs ++ ys) ≡ xs
take-append zero [] ys h = refl
take-append zero (x ∷ xs) ys h = absurd (ground (arith, h))
take-append (suc n) [] ys h = absurd (ground (arith, h))
take-append (suc n) (x ∷ xs) ys h = ap (◌∷◌ x) (take-append n xs ys (omega (arith, h)))

pub Bytes-get_or : (p : List ℕ) (i : ℕ) → Bytes p → get_or p i 0 < 256
Bytes-get_or [] i h = omega arith
Bytes-get_or (b ∷ p) zero h = h.0
Bytes-get_or (b ∷ p) (suc i) h = Bytes-get_or p i h.1

pub Bytes-take : (n : ℕ) (p : List ℕ) → Bytes p → Bytes (take n p)
Bytes-take zero p h = tt
Bytes-take (suc n) [] h = tt
Bytes-take (suc n) (b ∷ p) h = (h.0, Bytes-take n p h.1)

pub Bytes-drop : (n : ℕ) (p : List ℕ) → Bytes p → Bytes (drop n p)
Bytes-drop zero p h = h
Bytes-drop (suc n) [] h = tt
Bytes-drop (suc n) (b ∷ p) h = Bytes-drop n p h.1
