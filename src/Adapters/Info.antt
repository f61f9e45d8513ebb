-- ===== src/Adapters/Info.antt =====
-- adapter_manager.cpp: the texts that describe an adapter in the log, with the length of the network
-- prefix that a mask has. The text of an address (boost::asio) is a parameter.
pub mod Prefix
pub mod Addresses
use discnet.Common.{
  ℕ, zero, suc, ◌+◌, ◌/◌, ◌%◌, ◌==◌, Bool, true, false, if◌then◌else◌, List, [], ◌∷◌, ◌++◌, Option,
  none, some, Text, decimal,
}
use discnet.Adapters.{Adapter}

-- The loop of `mask_to_cidr`; `none` stands for no fuel.
unfoldable pub cidr_loop : ℕ → ℕ → ℕ → Option ℕ
cidr_loop zero bytes cidr = if bytes == 0 then some cidr else none
cidr_loop (suc fuel) bytes cidr =
    let rest = cidr_loop fuel (bytes / 2) (cidr + bytes % 2) in
    if bytes == 0 then some cidr else rest

-- A mask has 32 bits.
unfoldable pub mask_to_cidr : ℕ → Option ℕ
mask_to_cidr mask = cidr_loop 32 mask 0

-- `{}` of a number that is there.
unfoldable pub optional_text : Option ℕ → Text
optional_text none = []
optional_text (some n) = decimal n

unfoldable pub bool_text : Bool → Text
bool_text true = 116 ∷ 114 ∷ 117 ∷ 101 ∷ []
bool_text false = 102 ∷ 97 ∷ 108 ∷ 115 ∷ 101 ∷ []

-- `empty()`.
unfoldable pub is_empty : Text → Bool
is_empty [] = true
is_empty (c ∷ cs) = false

-- The loop of `ipv4_info` over the addresses, each with its prefix behind a slash.
unfoldable pub ipv4_loop : (ℕ → Text) → List (ℕ × ℕ) → Text → Text
ipv4_loop to_string [] result = result
ipv4_loop to_string ((address, mask) ∷ rest) result = ipv4_loop to_string rest (
    (result ++ (if is_empty result then 123 ∷ [] else 32 ∷ []))
    ++ (to_string address ++ (47 ∷ optional_text (mask_to_cidr mask))))

unfoldable pub close_brace : Text → Text
close_brace result = (if is_empty result then result ++ (123 ∷ []) else result) ++ (125 ∷ [])

unfoldable pub ipv4_info : (ℕ → Text) → Adapter → Text
ipv4_info to_string lhs = close_brace (ipv4_loop to_string lhs.address_list [])

unfoldable pub ipv4_diff : (ℕ → Text) → Adapter → Adapter → List Text
ipv4_diff to_string lhs rhs =
    ((32 ∷ 32 ∷ 112 ∷ 114 ∷ 101 ∷ 118 ∷ 58 ∷ 32 ∷ []) ++ ipv4_info to_string lhs)
    ∷ ((32 ∷ 32 ∷ 99 ∷ 117 ∷ 114 ∷ 114 ∷ 58 ∷ 32 ∷ []) ++ ipv4_info to_string rhs)
    ∷ []

unfoldable pub adapter_info : (ℕ → Text) → Adapter → List Text
adapter_info to_string adapter =
    ((103 ∷ 117 ∷ 105 ∷ 100 ∷ 58 ∷ 32 ∷ []) ++ adapter.guid)
    ∷ ((109 ∷ 97 ∷ 99 ∷ 58 ∷ 32 ∷ []) ++ adapter.mac_address)
    ∷ ((110 ∷ 97 ∷ 109 ∷ 101 ∷ 58 ∷ 32 ∷ []) ++ adapter.name)
    ∷ ((105 ∷ 110 ∷ 100 ∷ 101 ∷ 120 ∷ 58 ∷ 32 ∷ []) ++ decimal adapter.index)
    ∷ ((100 ∷ 101 ∷ 115 ∷ 99 ∷ 114 ∷ 105 ∷ 112 ∷ 116 ∷ 105 ∷ 111 ∷ 110 ∷ 58 ∷ 32 ∷ [])
        ++ adapter.description)
    ∷ ((97 ∷ 100 ∷ 97 ∷ 112 ∷ 116 ∷ 101 ∷ 114 ∷ 32 ∷ 101 ∷ 110 ∷ 97 ∷ 98 ∷ 108 ∷ 101 ∷ 100 ∷ 58 ∷ 32
          ∷ [])
        ++ bool_text adapter.enabled)
    ∷ ((109 ∷ 116 ∷ 117 ∷ 58 ∷ 32 ∷ []) ++ decimal adapter.mtu)
    ∷ ((103 ∷ 97 ∷ 116 ∷ 101 ∷ 119 ∷ 97 ∷ 121 ∷ 58 ∷ 32 ∷ []) ++ to_string adapter.gateway)
    ∷ ((105 ∷ 112 ∷ 118 ∷ 52 ∷ 58 ∷ 32 ∷ []) ++ ipv4_info to_string adapter)
    ∷ []
