-- ===== src/RingBuffer/Tests.antt =====
-- A buffer of four bytes whose contents pass the end, and the theorems of RingBuffer at it.
use ucas_computer_network.Common.{◌≡◌, refl, some, [], ◌∷◌, arith}
use ucas_computer_network.RingBuffer.Refine.{IsValid, contents}
use ucas_computer_network.RingBuffer.Read.{read_lem}
use ucas_computer_network.RingBuffer.Write.{write_lem}
use ucas_computer_network.RingBuffer.{
  RingBuffer, ring_buffer_used, ring_buffer_free, read_ring_buffer, write_ring_buffer, copy_out,
  copy_in, stored,
}

-- Holds 8, 9, 7.
abbrev wrapped : RingBuffer
wrapped = record { size = 5; head = 3; tail = 1; buf = 7 ∷ 0 ∷ 0 ∷ 8 ∷ 9 ∷ [] }

wrapped-IsValid : IsValid wrapped
wrapped-IsValid = omega arith

reads_round : read_ring_buffer wrapped 7 ≡ (8 ∷ 9 ∷ 7 ∷ [], record wrapped { head = 1 })
unfolding read_ring_buffer copy_out ring_buffer_used
reads_round = refl

writes_round :
    write_ring_buffer (record wrapped { head = 3; tail = 3 }) (1 ∷ 2 ∷ 3 ∷ [])
    ≡ some (record { size = 5; head = 3; tail = 1; buf = 3 ∷ 0 ∷ 0 ∷ 1 ∷ 2 ∷ [] })
unfolding write_ring_buffer stored copy_in ring_buffer_free ring_buffer_used
writes_round = refl

read_example :
    let (out, r') = read_ring_buffer wrapped 2 in
    (out ≡ 8 ∷ 9 ∷ []) × (contents r' ≡ 7 ∷ []) × IsValid r'
unfolding ring_buffer_used
read_example = read_lem wrapped 2 wrapped-IsValid

write_example :
    (r' : RingBuffer) × (write_ring_buffer wrapped (4 ∷ []) ≡ some r')
    × (contents r' ≡ 8 ∷ 9 ∷ 7 ∷ 4 ∷ [])
    × IsValid r'
unfolding ring_buffer_used ring_buffer_free
write_example = write_lem wrapped (4 ∷ []) wrapped-IsValid (omega arith) (omega arith)
