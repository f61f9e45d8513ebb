-- ===== src/Texts/Tests.antt =====
-- Texts of a hardware address and of jumps.
use discnet.Common.{ℕ, ◌≡◌, refl, arith, List, [], ◌∷◌, digits, decimal, hex_digit, hex_byte}
use discnet.Texts.{format_to, hex_loop, bytes_to_hex_string, jumps_loop, to_string}
use discnet.Texts.Bytes.{bytes_to_hex_string-injective}

abbrev hardware_address : List ℕ
hardware_address = 60 ∷ 169 ∷ 0 ∷ []

-- "3C A9 00".
hardware_text : bytes_to_hex_string hardware_address ≡ 51 ∷ 67 ∷ 32 ∷ 65 ∷ 57 ∷ 32 ∷ 48 ∷ 48 ∷ []
unfolding bytes_to_hex_string hex_loop format_to hex_byte hex_digit
hardware_text = refl

-- "{256, 0}".
jumps_text : to_string (256 ∷ 0 ∷ []) ≡ 123 ∷ 50 ∷ 53 ∷ 54 ∷ 44 ∷ 32 ∷ 48 ∷ 125 ∷ []
unfolding to_string jumps_loop decimal digits
jumps_text = refl

bytes_to_hex_string-injective_example : hardware_address ≡ hardware_address
bytes_to_hex_string-injective_example =
    bytes_to_hex_string-injective hardware_address hardware_address
      (omega arith, (omega arith, (omega arith, tt)))
      (omega arith, (omega arith, (omega arith, tt))) refl
