-- ===== src/Checksum/Tests.antt =====
-- The checksum of a short buffer.
use ucas_computer_network.Common.{◌≡◌, [], ◌∷◌, ◌++◌, arith}
use ucas_computer_network.Checksum.{checksum, checksum-verifies}

short_buffer :
    checksum ((65535 ∷ 513 ∷ 1027 ∷ []) ++ (checksum (65535 ∷ 513 ∷ 1027 ∷ []) 17 ∷ [])) 17 ≡ 0
short_buffer =
    checksum-verifies (65535 ∷ 513 ∷ 1027 ∷ []) 17 (omega arith, (omega arith, (omega arith, tt)))
      (omega arith)
