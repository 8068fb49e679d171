-- ===== src/RingBuffer.antt =====
-- The receive buffer of a socket: EXP18-TCP_Stack_4/code/18-tcp_stack/include/ring_buffer.h. One
-- byte of the storage is never used, so that a full buffer differs from an empty one.
pub mod Window
pub mod Refine
pub mod Read
pub mod Write
mod Tests
use ucas_computer_network.Common.{
  ℕ, zero, suc, ◌+◌, ◌-◌, ◌%◌, Bool, Option, none, some, List, [], ◌∷◌, ◌++◌, ltb, leb, ◌==◌, ◌&&◌,
  if◌then◌else◌, length, min, take, drop, set, replicate,
}

pub record RingBuffer : Type 0 where
  pub size : ℕ
  pub head : ℕ
  pub tail : ℕ
  pub buf : List ℕ

pub alloc_ring_buffer : ℕ → RingBuffer
alloc_ring_buffer size = record {
  size = size + 1;
  head = 0;
  tail = 0;
  buf = replicate (size + 1) 0;
}

-- `tail - head` may be negative before `size` is added; `head` is below `size`.
unfoldable pub ring_buffer_used : RingBuffer → ℕ
ring_buffer_used r = (r.tail + r.size - r.head) % r.size

unfoldable pub ring_buffer_free : RingBuffer → ℕ
ring_buffer_free r = r.size - ring_buffer_used r - 1

pub ring_buffer_empty : RingBuffer → Bool
ring_buffer_empty r = ring_buffer_used r == 0

unfoldable pub ring_buffer_full : RingBuffer → Bool
ring_buffer_full r = ring_buffer_free r == 0

-- `memcpy` out of the storage and into it.
abbrev pub slice : List ℕ → ℕ → ℕ → List ℕ
slice buf from n = take n (drop from buf)

unfoldable pub copy_in : List ℕ → ℕ → List ℕ → List ℕ
copy_in buf at [] = buf
copy_in buf at (x ∷ xs) = copy_in (set buf at x) (suc at) xs

-- The bytes that `read_ring_buffer` copies, in two segments where they pass the end.
unfoldable pub copy_out : RingBuffer → ℕ → List ℕ
copy_out r len =
    if ltb r.size (r.head + len)
    then slice r.buf r.head (r.size - r.head) ++ slice r.buf 0 (len - (r.size - r.head))
    else slice r.buf r.head len

-- What lands in the caller's `buf` (its length is the result), and the buffer after.
unfoldable pub read_ring_buffer : RingBuffer → ℕ → List ℕ × RingBuffer
read_ring_buffer r n =
    let len = min (ring_buffer_used r) n in
    if ltb 0 len then (copy_out r len, record r { head = (r.head + len) % r.size }) else ([], r)

-- The storage after `write_ring_buffer` has copied `src` in, in two segments where it passes the end.
unfoldable pub stored : RingBuffer → List ℕ → List ℕ
stored r src =
    if ltb r.size (r.tail + length src)
    then copy_in (copy_in r.buf r.tail (take (r.size - r.tail) src)) 0 (drop (r.size - r.tail) src)
    else copy_in r.buf r.tail src

-- `none` is a failed assertion.
unfoldable pub write_ring_buffer : RingBuffer → List ℕ → Option RingBuffer
write_ring_buffer r src =
    if ltb 0 (length src) && leb (length src) (ring_buffer_free r)
    then some (record r { buf = stored r src; tail = (r.tail + length src) % r.size })
    else none
