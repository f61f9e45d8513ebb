-- ===== src/Windows/Tests.antt =====
-- Windows tells of an Ethernet adapter and of a loopback adapter.
use discnet.Common.{
  ◌≡◌, refl, arith, true, false, [], ◌∷◌, none, some, Text, replicate, ◌++◌, length, equal_list,
  hex_byte, hex_digit,
}
use discnet.Texts.{bytes_to_hex_string, hex_loop, format_to}
use discnet.Adapters.{Adapter}
use discnet.Windows.{
  Windows, AdapterAddresses, read_keys, opened_keys, registry_sub_keys, get_string_reg_key,
  has_name, guid_loop, get_adapter_guid, converted, wstr_to_utf8, is_inet, address_of_text,
  address_of, or_before, gateway_loop, with_mask, unicast_loop, check_loop, valid_if_type,
  starts_with, substr, plain_adapter, with_addresses, is_listed, list_adapter, push_if,
  list_adapters,
}
use discnet.Windows.Distinct.{DistinctHardware, DistinctMac, list_adapters-DistinctMac}

-- A guid of 36 characters in braces.
abbrev guid : Text
guid = replicate 36 65

abbrev key : Text
key = 123 ∷ (guid ++ (125 ∷ []))

-- Every name is the same, "E".
abbrev windows : Windows
windows = record {
  sub_keys = λ path. some (none ∷ some key ∷ []);
  opens = λ path. true;
  query_value = λ path name. 69 ∷ [];
  wide_char_to_multi_byte = λ t. some t;
  address_to_string = λ a. some (a.bytes);
  make_address_v4 = λ t. some (length t);
  convert_length_to_mask = λ n. some n;
}

abbrev ethernet : AdapterAddresses
ethernet = record {
  physical_address = 60 ∷ 169 ∷ [];
  if_index = 260;
  friendly_name = 69 ∷ [];
  description = [];
  is_up = true;
  mtu = 1500;
  if_type = 6;
  gateways = record { family = 2; bytes = 1 ∷ [] } ∷ [];
  unicasts =
      (record { family = 2; bytes = 1 ∷ 1 ∷ [] }, 24)
      ∷ (record { family = 23; bytes = [] }, 64)
      ∷ [];
  dns_servers = [];
  multicasts = [];
}

abbrev loopback : AdapterAddresses
loopback = record ethernet { physical_address = []; if_type = 24 }

abbrev listed : Adapter
listed = record {
  guid = guid;
  mac_address = 51 ∷ 67 ∷ 32 ∷ 65 ∷ 57 ∷ [];
  index = 4;
  name = 69 ∷ [];
  description = [];
  loopback = false;
  enabled = true;
  address_list = (2, 24) ∷ [];
  gateway = 1;
  mtu = 1500;
}

lists : list_adapters windows (ethernet ∷ loopback ∷ []) ≡ some (listed ∷ [])
unfolding read_keys opened_keys registry_sub_keys get_string_reg_key has_name guid_loop
    get_adapter_guid converted wstr_to_utf8 is_inet address_of_text address_of or_before
    gateway_loop with_mask unicast_loop check_loop valid_if_type starts_with substr plain_adapter
    with_addresses is_listed list_adapter push_if list_adapters bytes_to_hex_string hex_loop
    format_to equal_list hex_byte hex_digit
lists = refl

hardware-Distinct : DistinctHardware (ethernet ∷ loopback ∷ [])
hardware-Distinct = ((omega arith, (omega arith, tt)), ((λ e. cc e), tt), (tt, tt, tt))

list_adapters-DistinctMac_example : DistinctMac (listed ∷ [])
list_adapters-DistinctMac_example =
    list_adapters-DistinctMac windows (ethernet ∷ loopback ∷ []) (listed ∷ []) hardware-Distinct
      lists
