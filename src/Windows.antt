-- ===== src/Windows.antt =====
-- windows/adapter_fetcher.cpp: the adapters that Windows lists, with their names in the registry.
-- What Windows and boost::asio answer is a parameter.
pub mod Listed
pub mod Distinct
mod Tests
use discnet.Common.{
  ℕ, ◌-◌, ◌%◌, ◌==◌, Bool, true, false, not, ◌&&◌, ◌||◌, if◌then◌else◌, List, [], ◌∷◌, ◌++◌, Option,
  none, some, Text, length, take, drop,
}
use mathlib.Core.Option
use discnet.Texts.{bytes_to_hex_string}
use discnet.Adapters.{Adapter, equal_text}

-- `SOCKET_ADDRESS`, by its family and its bytes.
pub record SocketAddress : Type 0 where
  pub family : ℕ
  pub bytes : List ℕ

-- What of `IP_ADAPTER_ADDRESSES` is read.
pub record AdapterAddresses : Type 0 where
  pub physical_address : List ℕ
  pub if_index : ℕ
  pub friendly_name : List ℕ
  pub description : List ℕ
  pub is_up : Bool
  pub mtu : ℕ
  pub if_type : ℕ
  pub gateways : List SocketAddress
  pub unicasts : List (SocketAddress × ℕ)
  pub dns_servers : List SocketAddress
  pub multicasts : List SocketAddress

-- What is called: the sub keys of a key in the registry, where it opens, and whether each can be
-- read; whether the key of a value opens, and what the buffer then holds; `WideCharToMultiByte`,
-- `none` where it fails; `WSAAddressToStringW`, `none` where it fails; `make_address_v4`, `none` where
-- it throws; `ConvertLengthToIpv4Mask`, `none` where it fails.
pub record Windows : Type 0 where
  pub sub_keys : Text → Option (List (Option Text))
  pub opens : Text → Bool
  pub query_value : Text → Text → Text
  pub wide_char_to_multi_byte : List ℕ → Option Text
  pub address_to_string : SocketAddress → Option (List ℕ)
  pub make_address_v4 : Text → Option ℕ
  pub convert_length_to_mask : ℕ → Option ℕ

abbrev pub and_then {ℓ κ} : {A : Type ℓ} {B : Type κ} → Option A → (A → Option B) → Option B
and_then none f = none
and_then (some a) f = f a

-- The keys that could be read, in order.
unfoldable pub read_keys : List (Option Text) → List Text
read_keys [] = []
read_keys (some key ∷ keys) = key ∷ read_keys keys
read_keys (none ∷ keys) = read_keys keys

unfoldable pub opened_keys : Option (List (Option Text)) → List Text
opened_keys none = []
opened_keys (some keys) = read_keys keys

unfoldable pub registry_sub_keys : Windows → Text → List Text
registry_sub_keys w path = opened_keys (w.sub_keys path)

-- "Descriptions".
abbrev pub descriptions : Text
descriptions = 68 ∷ 101 ∷ 115 ∷ 99 ∷ 114 ∷ 105 ∷ 112 ∷ 116 ∷ 105 ∷ 111 ∷ 110 ∷ 115 ∷ []

-- `GetStringRegKey`; `none` is the error. The second status is not looked at.
unfoldable pub get_string_reg_key : Windows → Text → Text → Option Text
get_string_reg_key w path value_name =
    let sub_key_name = w.query_value path value_name in
    if w.opens path
    then some (if not (equal_text sub_key_name descriptions) then sub_key_name else [])
    else none

-- The path of the network adapters, and what stands behind the key of an adapter.
abbrev pub adapters_path : Text
adapters_path =
    83 ∷ 89 ∷ 83 ∷ 84 ∷ 69 ∷ 77 ∷ 92 ∷ 67 ∷ 117 ∷ 114 ∷ 114 ∷ 101 ∷ 110 ∷ 116 ∷ 67 ∷ 111 ∷ 110 ∷ 116
    ∷ 114 ∷ 111 ∷ 108 ∷ 83 ∷ 101 ∷ 116 ∷ 92 ∷ 67 ∷ 111 ∷ 110 ∷ 116 ∷ 114 ∷ 111 ∷ 108 ∷ 92 ∷ 78 ∷ 101
    ∷ 116 ∷ 119 ∷ 111 ∷ 114 ∷ 107 ∷ 92 ∷ 123 ∷ 52 ∷ 68 ∷ 51 ∷ 54 ∷ 69 ∷ 57 ∷ 55 ∷ 50 ∷ 45 ∷ 69 ∷ 51
    ∷ 50 ∷ 53 ∷ 45 ∷ 49 ∷ 49 ∷ 67 ∷ 69 ∷ 45 ∷ 66 ∷ 70 ∷ 67 ∷ 49 ∷ 45 ∷ 48 ∷ 56 ∷ 48 ∷ 48 ∷ 50 ∷ 66
    ∷ 69 ∷ 49 ∷ 48 ∷ 51 ∷ 49 ∷ 56 ∷ 125 ∷ []

abbrev pub backslash : Text
backslash = 92 ∷ []

abbrev pub connection : Text
connection = 92 ∷ 67 ∷ 111 ∷ 110 ∷ 110 ∷ 101 ∷ 99 ∷ 116 ∷ 105 ∷ 111 ∷ 110 ∷ []

abbrev pub name_value : Text
name_value = 78 ∷ 97 ∷ 109 ∷ 101 ∷ []

unfoldable pub has_name : Option Text → Text → Bool
has_name none name = false
has_name (some current) name = equal_text current name

-- The loop of `get_adapter_guid` over the keys.
unfoldable pub guid_loop : Windows → Text → List Text → Text
guid_loop w name [] = []
guid_loop w name (adapter ∷ adapters) =
    let rest = guid_loop w name adapters in
    let adapter_path = ((adapters_path ++ backslash) ++ adapter) ++ connection in
    if has_name (get_string_reg_key w adapter_path name_value) name then adapter else rest

unfoldable pub get_adapter_guid : Windows → Text → Text
get_adapter_guid w adapter_name = guid_loop w adapter_name (registry_sub_keys w adapters_path)

unfoldable pub converted : Option Text → Text
converted none = []
converted (some t) = t

unfoldable pub wstr_to_utf8 : Windows → List ℕ → Text
wstr_to_utf8 w [] = []
wstr_to_utf8 w (c ∷ cs) = converted (w.wide_char_to_multi_byte (c ∷ cs))

-- `AF_INET`.
unfoldable pub is_inet : SocketAddress → Bool
is_inet a = a.family == 2

-- The address of a text, if there is one; `none` where `make_address_v4` throws.
unfoldable pub address_of_text : Windows → Option (List ℕ) → Option (Option ℕ)
address_of_text w none = some none
address_of_text w (some text) = Option.map some (w.make_address_v4 (wstr_to_utf8 w text))

unfoldable pub address_of : Windows → SocketAddress → Option (Option ℕ)
address_of w a = if is_inet a then address_of_text w (w.address_to_string a) else some none

unfoldable pub or_before : Option ℕ → ℕ → ℕ
or_before none gateway = gateway
or_before (some address) gateway = address

-- The loop over the gateways: the last valid one stays.
unfoldable pub gateway_loop : Windows → List SocketAddress → ℕ → Option ℕ
gateway_loop w [] gateway = some gateway
gateway_loop w (a ∷ as') gateway =
    and_then (address_of w a) (λ address. gateway_loop w as' (or_before address gateway))

-- An address and its mask, where both are valid.
unfoldable pub with_mask : Option ℕ → Option ℕ → List (ℕ × ℕ)
with_mask (some address) (some mask) = (address, mask) ∷ []
with_mask (some address) none = []
with_mask none mask = []

-- The loop over the unicast addresses.
unfoldable pub unicast_loop :
    Windows → List (SocketAddress × ℕ) → List (ℕ × ℕ) → Option (List (ℕ × ℕ))
unicast_loop w [] addresses = some addresses
unicast_loop w ((a, prefix_length) ∷ rest) addresses = and_then (address_of w a) (λ address.
    unicast_loop w rest (addresses ++ with_mask address (w.convert_length_to_mask prefix_length)))

-- The loops over the DNS and the multicast addresses, whose results are not used.
unfoldable pub check_loop : Windows → List SocketAddress → Option (Unit {0})
check_loop w [] = some tt
check_loop w (a ∷ as') = and_then (address_of w a) (λ address. check_loop w as')

-- Ethernet, PPP and IEEE 802.11.
unfoldable pub valid_if_type : ℕ → Bool
valid_if_type if_type = (if_type == 6) || (if_type == 23) || (if_type == 71)

-- "Local Area Connection*".
abbrev pub virtual_prefix : Text
virtual_prefix =
    76 ∷ 111 ∷ 99 ∷ 97 ∷ 108 ∷ 32 ∷ 65 ∷ 114 ∷ 101 ∷ 97 ∷ 32 ∷ 67 ∷ 111 ∷ 110 ∷ 110 ∷ 101 ∷ 99 ∷ 116
    ∷ 105 ∷ 111 ∷ 110 ∷ 42 ∷ []

unfoldable pub starts_with : Text → Text → Bool
starts_with text prefix = equal_text (take (length prefix) text) prefix

-- `std::string::substr`.
unfoldable pub substr : ℕ → ℕ → Text → Text
substr from count text = take count (drop from text)

-- What is read of an adapter before the filters, that leave the guid and the addresses empty.
unfoldable pub plain_adapter : Windows → AdapterAddresses → Adapter
plain_adapter w p = record {
  guid = [];
  mac_address = bytes_to_hex_string p.physical_address;
  index = p.if_index % 256;
  name = wstr_to_utf8 w p.friendly_name;
  description = wstr_to_utf8 w p.description;
  loopback = false;
  enabled = p.is_up;
  address_list = [];
  gateway = 0;
  mtu = p.mtu;
}

-- The loops behind the filters.
unfoldable pub with_addresses : Windows → AdapterAddresses → Text → Option Adapter
with_addresses w p guid = and_then (gateway_loop w p.gateways 0) (λ gateway.
    and_then (unicast_loop w p.unicasts []) (λ addresses.
      and_then (check_loop w p.dns_servers) (λ checked.
        and_then (check_loop w p.multicasts) (λ checked'. some (record (plain_adapter w p) {
          guid = guid;
          gateway = gateway;
          address_list = addresses;
        })))))

-- Whether the filters pass an adapter with this guid in the registry.
unfoldable pub is_listed : Windows → AdapterAddresses → Text → Bool
is_listed w p guid_str =
    valid_if_type p.if_type
    && not (starts_with (wstr_to_utf8 w p.friendly_name) virtual_prefix)
    && (length guid_str == 38)

-- An adapter of the loop: `some none` where it is passed over, `none` where an address throws.
unfoldable pub list_adapter : Windows → AdapterAddresses → Option (Option Adapter)
list_adapter w p =
    let guid_str = get_adapter_guid w (wstr_to_utf8 w p.friendly_name) in
    if is_listed w p guid_str
    then Option.map some (with_addresses w p (substr 1 (length guid_str - 2) guid_str))
    else some none

unfoldable pub push_if : Option Adapter → List Adapter → List Adapter
push_if none adapters = adapters
push_if (some a) adapters = a ∷ adapters

unfoldable pub list_adapters : Windows → List AdapterAddresses → Option (List Adapter)
list_adapters w [] = some []
list_adapters w (p ∷ ps) =
    and_then (list_adapter w p) (λ a. Option.map (push_if a) (list_adapters w ps))

-- How `GetAdaptersAddresses` ends; for another error whether `FormatMessage` succeeds.
pub data ListResult : Type 0 where
  no_memory no_data : ListResult
  no_error : List AdapterAddresses → ListResult
  other_error : Bool → ListResult

-- How `get_adapters` ends: with adapters, by an exception, or by `exit`.
pub data Fetched : Type 0 where
  fetched : List Adapter → Fetched
  threw exited : Fetched

unfoldable pub fetched_of : Option (List Adapter) → Fetched
fetched_of none = threw
fetched_of (some adapters) = fetched adapters

unfoldable pub get_adapters : Windows → ListResult → Fetched
get_adapters w no_memory = fetched []
get_adapters w no_data = fetched []
get_adapters w (no_error ps) = fetched_of (list_adapters w ps)
get_adapters w (other_error true) = exited
get_adapters w (other_error false) = fetched []
