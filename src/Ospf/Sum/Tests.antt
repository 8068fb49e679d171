-- ===== src/Ospf/Sum/Tests.antt =====
-- A buffer of three bytes.
use ucas_computer_network.Common.{◌≡◌, refl, [], ◌∷◌}
use ucas_computer_network.Checksum.{add_words, fold_carries, checksum, words_of}
use ucas_computer_network.Ospf.Sum.{whole_words, odd_byte, early_checksum}

-- The carry of the odd last byte is lost.
odd_carry : early_checksum (255 ∷ 255 ∷ 1 ∷ []) 0 ≡ 65535
unfolding early_checksum whole_words odd_byte add_words
odd_carry = refl

-- In the later stacks it is not.
odd_carry_later : checksum (words_of (255 ∷ 255 ∷ 1 ∷ [])) 0 ≡ 65534
unfolding checksum words_of add_words fold_carries
odd_carry_later = refl
