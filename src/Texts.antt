-- ===== src/Texts.antt =====
-- The texts that the sources print: discnet_lib.cpp
-- (the bytes of a hardware address) and typedefs.cpp (the jumps of a route).
pub mod Bytes
pub mod Jumps
mod Tests
use discnet.Common.{
  ℕ, ◌+◌, ◌-◌, ◌*◌, ◌==◌, leb, ltb, Bool, true, false, if◌then◌else◌, List, [], ◌∷◌, ◌++◌, Text,
  length, take, drop, replicate, decimal, hex_byte,
}

-- `std::format_to` at an iterator into the text.
unfoldable pub format_to : ℕ → Text → Text → Text
format_to offset text result = take offset result ++ (text ++ drop (offset + length text) result)

-- The loop over the bytes, each at three times its index.
unfoldable pub hex_loop : List ℕ → ℕ → Text → Text
hex_loop [] i result = result
hex_loop (b ∷ bs) i result = hex_loop bs (i + 1) (format_to (i * 3) (hex_byte b) result)

unfoldable pub bytes_to_hex_string : List ℕ → Text
bytes_to_hex_string buffer =
    let result_size = if length buffer == 1 then 2 else length buffer * 3 - 1 in
    if leb (length buffer) 0 then [] else hex_loop buffer 0 (replicate result_size 32)

-- The loop of `to_string` over the jumps; a comma stands in front of all but the first.
unfoldable pub jumps_loop : Text → List ℕ → Text
jumps_loop result [] = result
jumps_loop result (jump ∷ jumps) =
    jumps_loop
      ((if ltb 1 (length result) then result ++ (44 ∷ 32 ∷ []) else result) ++ decimal jump) jumps

unfoldable pub to_string : List ℕ → Text
to_string jumps = jumps_loop (123 ∷ []) jumps ++ (125 ∷ [])
