-- ===== src/Host.antt =====
-- What the network code takes from outside the repository: boost::endian's conversions and
-- boost's MD5 (include/discnet/typedefs.hpp, network/messages/packet.cpp), as parameters with
-- their documented behaviour; and the object representation that `memcpy` and the reference casts
-- of network/buffer.cpp see on the little-endian machines that the program is built for.
pub mod Swapping
use discnet.Common.{
  ℕ, zero, suc, ◌+◌, ◌*◌, ◌/◌, ◌%◌, ◌^◌, ◌<◌, ◌≡◌, refl, arith, List, [], ◌∷◌, length, All,
}
use mathlib.Core.List.{reverse}
use native.Mathlib.Nat.{pow-suc}

abbrev pub IsByte : ℕ → Type 0
IsByte b = b < 256

-- The bytes of an unsigned object of `w` bytes, lowest first, and the value that bytes stand for.
unfoldable pub memory : ℕ → ℕ → List ℕ
memory zero v = []
memory (suc w) v = v % 256 ∷ memory w (v / 256)

unfoldable pub load : List ℕ → ℕ
load [] = 0
load (b ∷ bs) = b + 256 * load bs

-- A width is a number of bytes.
pub record Host : Type 0 where
  pub native_to_big : ℕ → ℕ → ℕ
  pub big_to_native : ℕ → ℕ → ℕ
  pub digest : List ℕ → List ℕ

pub record IsHost (h : Host) : Type 0 where
  pub native_to_big-lt : (w v : ℕ) → v < 256 ^ w → h.native_to_big w v < 256 ^ w
  pub big_to_native-native_to_big :
      (w v : ℕ) → v < 256 ^ w → h.big_to_native w (h.native_to_big w v) ≡ v
  pub memory-native_to_big :
      (w v : ℕ) → v < 256 ^ w → memory w (h.native_to_big w v) ≡ reverse (memory w v)
  pub length-digest : (xs : List ℕ) → length (h.digest xs) ≡ 16
  pub digest-IsByte : (xs : List ℕ) → All IsByte (h.digest xs)

pub length-memory : (w v : ℕ) → length (memory w v) ≡ w
unfolding memory
length-memory zero v = refl
length-memory (suc w) v = omega (arith, length-memory w (v / 256))

pub load-memory : (w v : ℕ) → v < 256 ^ w → load (memory w v) ≡ v
unfolding memory load
load-memory zero v h = omega arith
load-memory (suc w) v h = omega (arith, load-memory w (v / 256) (omega (arith, pow-suc 256 w)))

pub load-lt : (bs : List ℕ) → All IsByte bs → load bs < 256 ^ length bs
unfolding load
load-lt [] h = omega arith
load-lt (b ∷ bs) h = omega (arith, load-lt bs h.1, pow-suc 256 (length bs))
