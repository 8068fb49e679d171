-- ===== src/Icmp/Echo.antt =====
-- The answer to an echo request, by icmp.c and ip.c of EXP18-TCP_Stack_4/code/18-tcp_stack.
use ucas_computer_network.Common.{
  ℕ, ◌+◌, ◌-◌, ◌*◌, ◌/◌, ◌%◌, ◌^◌, ◌<◌, ◌≤◌, ◌≡◌, refl, ap, ◌∙◌, true, List, [], ◌∷◌, ◌++◌, arith,
  leb, length, get_or, take, drop, replicate, length-append, length-take, length-drop,
  length-replicate,
}
use ucas_computer_network.Checksum.{checksum, words_of}
use ucas_computer_network.Icmp.{
  icmp_echoreply, ipproto_icmp, hdr_size, tot_len, protocol, saddr, daddr, with_checksum,
  ip_init_hdr, icmp_message, packet, echo_reply,
}
use ucas_computer_network.Icmp.Headers.{
  Bytes, with_checksum-verifies, take-append, Bytes-get_or, Bytes-take, Bytes-drop,
}

-- A header that is written says what it was written for.
record Says (s d len proto : ℕ) (p : List ℕ) : Type 0 where
  source : saddr p ≡ s
  target : daddr p ≡ d
  header : hdr_size p ≡ 20
  size : tot_len p ≡ len
  kind : protocol p ≡ proto

ip_init_hdr-Says :
    (id s d len proto : ℕ) (rest : List ℕ)
    → s < 2 ^ 32
    → d < 2 ^ 32
    → len < 2 ^ 16
    → Says s d len proto (ip_init_hdr id s d len proto ++ rest)
unfolding ip_init_hdr with_checksum
ip_init_hdr-Says id s d len proto rest hs hd hl = record {
  source = omega (arith, hs);
  target = omega (arith, hd);
  header = refl;
  size = omega (arith, hl);
  kind = refl;
}

ip_init_hdr-length : (id s d len proto : ℕ) → length (ip_init_hdr id s d len proto) ≡ 20
unfolding ip_init_hdr with_checksum
ip_init_hdr-length id s d len proto = refl

ip_init_hdr-rest :
    (id s d len proto : ℕ) (rest : List ℕ) → drop 20 (ip_init_hdr id s d len proto ++ rest) ≡ rest
unfolding ip_init_hdr with_checksum
ip_init_hdr-rest id s d len proto rest = refl

ip_init_hdr-verifies :
    (id s d len proto : ℕ) → proto < 256 → checksum (words_of (ip_init_hdr id s d len proto)) 0 ≡ 0
unfolding ip_init_hdr
ip_init_hdr-verifies id s d len proto h =
    with_checksum-verifies
      (0x45
        ∷ 0
        ∷ len / 256 % 256
        ∷ len % 256
        ∷ id % 2 ^ 16 % 256
        ∷ id % 2 ^ 16 / 256
        ∷ 0x40
        ∷ 0
        ∷ 64
        ∷ proto
        ∷ [])
      (s / 2 ^ 24 % 256
        ∷ s / 2 ^ 16 % 256
        ∷ s / 2 ^ 8 % 256
        ∷ s % 256
        ∷ d / 2 ^ 24 % 256
        ∷ d / 2 ^ 16 % 256
        ∷ d / 2 ^ 8 % 256
        ∷ d % 256
        ∷ [])
      tt (omega (arith, h)) (omega arith) (omega arith)

ip_init_hdr-message :
    (id s d len proto : ℕ) (rest : List ℕ)
    → drop 24 (ip_init_hdr id s d len proto ++ rest) ≡ drop 4 rest
unfolding ip_init_hdr with_checksum
ip_init_hdr-message id s d len proto rest = refl

icmp_message-length :
    (type code : ℕ) (rest : List ℕ) → length (icmp_message type code rest) ≡ 4 + length rest
unfolding icmp_message with_checksum
icmp_message-length type code rest = omega arith

icmp_message-rest :
    (type code : ℕ) (rest back : List ℕ)
    → drop 4 (icmp_message type code rest ++ back) ≡ rest ++ back
unfolding icmp_message with_checksum
icmp_message-rest type code rest back = refl

icmp_message-type :
    (type code : ℕ) (rest back : List ℕ) → get_or (icmp_message type code rest ++ back) 0 0 ≡ type
unfolding icmp_message with_checksum
icmp_message-type type code rest back = refl

icmp_message-verifies :
    (type code : ℕ) (rest : List ℕ)
    → type < 256
    → code < 256
    → Bytes rest
    → length rest ≤ 65531
    → checksum (words_of (icmp_message type code rest)) 0 ≡ 0
unfolding icmp_message
icmp_message-verifies type code rest ht hc hr size =
    with_checksum-verifies (type ∷ code ∷ []) rest tt (ht, (hc, tt)) hr (omega (arith, size))

-- A packet of bytes whose lengths agree, with at least the header of an ICMP message.
pub record IsMessage (p : List ℕ) : Type 0 where
  pub bytes : Bytes p
  pub header : 20 ≤ hdr_size p
  pub message : hdr_size p + 8 ≤ tot_len p
  pub whole : tot_len p ≤ length p

-- What answers a request: from its target to its source, with its identifier, sequence number and
-- data, and correct checksums.
pub record Answers (p reply : List ℕ) : Type 0 where
  pub source : saddr reply ≡ daddr p
  pub target : daddr reply ≡ saddr p
  pub header : hdr_size reply ≡ 20
  pub size : tot_len reply ≡ 20 + (tot_len p - hdr_size p)
  pub kind : protocol reply ≡ ipproto_icmp
  pub type : get_or (drop 20 reply) 0 0 ≡ icmp_echoreply
  pub content :
      take (tot_len p - hdr_size p - 4) (drop 24 reply)
      ≡ take (tot_len p - hdr_size p - 4) (drop (hdr_size p + 4) p)
  pub ip_sum : checksum (words_of (take 20 reply)) 0 ≡ 0
  pub icmp_sum : checksum (words_of (take (tot_len p - hdr_size p) (drop 20 reply))) 0 ≡ 0
  pub as_long : length reply ≡ length p

field-lt : (p : List ℕ) (i : ℕ) → Bytes p → get_or p i 0 * 256 + get_or p (i + 1) 0 < 2 ^ 16
field-lt p i h = omega (arith, Bytes-get_or p i h, Bytes-get_or p (i + 1) h)

address_field-lt :
    (p : List ℕ) (i : ℕ)
    → Bytes p
    → ((get_or p i 0 * 256 + get_or p (i + 1) 0) * 256 + get_or p (i + 2) 0) * 256
        + get_or p (i + 3) 0
      < 2 ^ 32
address_field-lt p i h = omega (
  arith,
  Bytes-get_or p i h,
  Bytes-get_or p (i + 1) h,
  Bytes-get_or p (i + 2) h,
  Bytes-get_or p (i + 3) h,
)

module _ (id : ℕ) (p : List ℕ) (h : IsMessage p) where
  n : ℕ
  n = tot_len p - hdr_size p

  content_of : List ℕ
  content_of = take (n - 4) (drop (hdr_size p + 4) p)

  content-length : length content_of ≡ n - 4
  unfolding content_of n
  content-length =
      let at = length-take (n - 4) (drop (hdr_size p + 4) p) in
      let left = length-drop (hdr_size p + 4) p in omega (arith, at, left, h.message, h.whole)

  header_part : List ℕ
  header_part = ip_init_hdr id (daddr p) (saddr p) (20 + n) ipproto_icmp

  message_part : List ℕ
  message_part = icmp_message icmp_echoreply 0 content_of

  padding : List ℕ
  padding = replicate (length p - (20 + n)) 0

  message-length : length message_part ≡ n
  unfolding message_part n
  message-length =
      icmp_message-length icmp_echoreply 0 content_of ∙ omega (arith, content-length, h.message)

  pub reply_of : List ℕ
  reply_of = header_part ++ (message_part ++ padding)

  pub reply-Answers : Answers p reply_of
  unfolding reply_of header_part message_part n content_of padding
  reply-Answers =
      let size = field-lt p 2 h.bytes in
      let says =
        ip_init_hdr-Says id (daddr p) (saddr p) (20 + n) ipproto_icmp (message_part ++ padding)
          (address_field-lt p 16 h.bytes) (address_field-lt p 12 h.bytes)
          (omega (arith, size, h.header, h.message)) in
      let rest : drop 20 reply_of ≡ message_part ++ padding =
        ip_init_hdr-rest id (daddr p) (saddr p) (20 + n) ipproto_icmp (message_part ++ padding) in
      let header_length = ip_init_hdr-length id (daddr p) (saddr p) (20 + n) ipproto_icmp in
      record {
        source = says.source;
        target = says.target;
        header = says.header;
        size = says.size;
        kind = says.kind;
        type = ap (λ r. get_or r 0 0) rest ∙ icmp_message-type icmp_echoreply 0 content_of padding;
        content =
            ap (take (n - 4)) (
              ip_init_hdr-message id (daddr p) (saddr p) (20 + n) ipproto_icmp
                (message_part ++ padding)
              ∙ icmp_message-rest icmp_echoreply 0 content_of padding)
            ∙ take-append (n - 4) content_of padding content-length;
        ip_sum =
            ap (λ r. checksum (words_of r) 0)
              (take-append 20 header_part (message_part ++ padding) header_length)
            ∙ ip_init_hdr-verifies id (daddr p) (saddr p) (20 + n) ipproto_icmp (omega arith);
        icmp_sum =
            ap (λ r. checksum (words_of (take n r)) 0) rest
            ∙ ap (λ r. checksum (words_of r) 0) (take-append n message_part padding message-length)
            ∙ icmp_message-verifies icmp_echoreply 0 content_of (omega arith) (omega arith)
                (Bytes-take (n - 4) _ (Bytes-drop (hdr_size p + 4) p h.bytes))
                (omega (arith, content-length, size));
        as_long = omega (
          arith,
          length-append header_part (message_part ++ padding),
          header_length,
          length-append message_part padding,
          message-length,
          length-replicate {A = ℕ} (length p - (20 + n)) 0,
          h.header,
          h.message,
          h.whole,
        );
      }

  pub echo_reply-reply : echo_reply id 0 p ≡ packet reply_of
  unfolding echo_reply reply_of header_part message_part n content_of padding
  echo_reply-reply =
      let a : leb (hdr_size p + 8) (tot_len p) ≡ true = ground (arith, h.message) in
      let b : leb (tot_len p) (length p) ≡ true = ground (arith, h.whole) in
      let c : leb (20 + (tot_len p - hdr_size p)) (length p) ≡ true =
        ground (arith, h.header, h.message, h.whole) in
      rw (a, b, c) refl
