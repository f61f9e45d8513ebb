-- ===== src/Adapters.antt =====
-- adapter.hpp and adapter_manager.cpp: the network adapters of the machine, and what changes of them
-- an update reports. The texts of the log are left out, except how many lines a change has.
pub mod Update
pub mod Keyed
pub mod Info
pub mod Tests
use discnet.Common.{
  ℕ, ◌%◌, ◌==◌, ltb, Bool, true, false, not, ◌&&◌, if◌then◌else◌, List, [], ◌∷◌, ◌++◌, Option, none,
  some, map, Text, text_less, find, insert, insert_or_assign, erase_if, equal_list, equal_pair,
  equal_bool,
}

-- `adapter_t`, an address being a number of 32 bits.
pub record Adapter : Type 0 where
  pub guid : Text
  pub mac_address : Text
  pub index : ℕ
  pub name : Text
  pub description : Text
  pub loopback : Bool
  pub enabled : Bool
  pub address_list : List (ℕ × ℕ)
  pub gateway : ℕ
  pub mtu : ℕ

abbrev pub equal_text : Text → Text → Bool
equal_text = equal_list (◌==◌)

abbrev pub equal_address_list : List (ℕ × ℕ) → List (ℕ × ℕ) → Bool
equal_address_list = equal_list (equal_pair (◌==◌) (◌==◌))

-- `operator==`, that compares every member.
unfoldable pub equal_adapter : Adapter → Adapter → Bool
equal_adapter a b =
    equal_text a.guid b.guid
    && equal_text a.mac_address b.mac_address
    && (a.index == b.index)
    && equal_text a.name b.name
    && equal_text a.description b.description
    && equal_bool a.loopback b.loopback
    && equal_bool a.enabled b.enabled
    && equal_address_list a.address_list b.address_list
    && (a.gateway == b.gateway)
    && (a.mtu == b.mtu)

-- The lines of the log that `adapter_diff` gives, by the member that each is about.
pub data Change : Type 0 where
  guid_changed mac_address_changed name_changed index_changed : Change
  description_changed enabled_changed mtu_changed gateway_changed : Change
  address_list_changed previous_addresses current_addresses : Change

-- `if (changed) result.push_back(...)`, and the lines behind it.
unfoldable pub line_if : Bool → List Change → List Change → List Change
line_if changed lines rest = if changed then lines ++ rest else rest

unfoldable pub adapter_diff : Adapter → Adapter → List Change
adapter_diff lhs rhs = line_if (not (equal_text lhs.guid rhs.guid)) (guid_changed ∷ []) (
    line_if (not (equal_text lhs.mac_address rhs.mac_address)) (mac_address_changed ∷ []) (
      line_if (not (equal_text lhs.name rhs.name)) (name_changed ∷ []) (
        line_if (not (lhs.index == rhs.index)) (index_changed ∷ []) (
          line_if (not (equal_text lhs.description rhs.description)) (description_changed ∷ []) (
            line_if (not (equal_bool lhs.enabled rhs.enabled)) (enabled_changed ∷ []) (
              line_if (not (lhs.mtu == rhs.mtu)) (mtu_changed ∷ []) (
                line_if (not (lhs.gateway == rhs.gateway)) (gateway_changed ∷ []) (
                  line_if (not (equal_address_list lhs.address_list rhs.address_list))
                    (address_list_changed ∷ previous_addresses ∷ current_addresses ∷ []) []))))))))

-- The signals `e_new`, `e_changed` and `e_removed`.
pub data Signal : Type 0 where
  new_adapter : Adapter → Signal
  changed_adapter : Adapter → Adapter → Signal
  removed_adapter : Adapter → Signal

-- `m_adapters`, under the MAC address, and the signals sent so far.
pub record AdapterManager : Type 0 where
  pub adapters : List (Text × Adapter)
  pub signals : List Signal

abbrev pub Adapters : Type 0
Adapters = List (Text × Adapter)

unfoldable pub signal : Signal → AdapterManager → AdapterManager
signal e m = record m { signals = m.signals ++ (e ∷ []) }

-- `changes.size()` decides.
unfoldable pub assign_if_changed : List Change → Adapter → Adapter → AdapterManager → AdapterManager
assign_if_changed [] existing current m = m
assign_if_changed (c ∷ cs) existing current m =
    let m' = signal (changed_adapter existing current) m in
    record m' { adapters = insert_or_assign text_less current.mac_address current m'.adapters }

-- The body of the first loop: the entry is there, or it is new.
unfoldable pub update_entry : Option Adapter → Adapter → AdapterManager → AdapterManager
update_entry (some existing) current m =
    if equal_adapter current existing
    then m
    else assign_if_changed (adapter_diff existing current) existing current m
update_entry none current m =
    signal (new_adapter current)
      (record m { adapters = insert text_less current.mac_address current m.adapters })

unfoldable pub update_entries : List Adapter → AdapterManager → AdapterManager
update_entries [] m = m
update_entries (current ∷ currents) m =
    update_entries currents (update_entry (find text_less current.mac_address m.adapters) current m)

-- `std::find_if` on the MAC address, that comes to the end.
unfoldable pub is_gone : List Adapter → Text → Bool
is_gone [] mac = true
is_gone (a ∷ current) mac =
    let rest = is_gone current mac in if equal_text a.mac_address mac then false else rest

-- The adapters that the second loop removes, each with its signal.
unfoldable pub removed : List Adapter → Adapters → List Signal
removed current [] = []
removed current ((mac, a) ∷ m) =
    let rest = removed current m in if is_gone current mac then removed_adapter a ∷ rest else rest

unfoldable pub remove_entries : List Adapter → AdapterManager → AdapterManager
remove_entries current m = record {
  adapters = erase_if text_less (is_gone current) m.adapters;
  signals = m.signals ++ removed current m.adapters;
}

-- `update`, on what the fetcher gives.
unfoldable pub update : List Adapter → AdapterManager → AdapterManager
update current m = remove_entries current (update_entries current m)

-- `adapters()`.
unfoldable pub adapters_of : AdapterManager → List Adapter
adapters_of m = map (λ e. e.1) m.adapters

unfoldable pub has_address : ℕ → List (ℕ × ℕ) → Bool
has_address address [] = false
has_address address ((a, mask) ∷ rest) =
    let others = has_address address rest in if a == address then true else others

-- `find_adapter` by an address; `none` is the error.
unfoldable pub find_by_address : ℕ → Adapters → Option Adapter
find_by_address address [] = none
find_by_address address ((mac, a) ∷ m) =
    let rest = find_by_address address m in
    if has_address address a.address_list then some a else rest

unfoldable pub find_adapter : ℕ → AdapterManager → Option Adapter
find_adapter address m = find_by_address address m.adapters

-- `find_adapter` by an identifier, that is looked up among the MAC addresses.
unfoldable pub find_adapter_id : Text → AdapterManager → Option Adapter
find_adapter_id id m = find text_less id m.adapters
