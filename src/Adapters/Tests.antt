-- ===== src/Adapters/Tests.antt =====
-- Runs of the adapter manager, and its theorems at concrete inputs.
use discnet.Common.{equivalent, ◌≡◌, ◌≢◌, refl, false, true, [], ◌∷◌, some, find, text_less}
use discnet.Adapters.Info.{mask_to_cidr}
use discnet.Adapters.Info.Prefix.{mask_to_cidr-prefix}
use discnet.Common.{◌-◌, ◌*◌, ◌^◌, arith}
use discnet.Adapters.{Adapter, AdapterManager, update, find_adapter_id, update_entries}
use discnet.Adapters.Update.{SameButLoopback, update-fetched, update_entry-loopback}

abbrev ethernet : Adapter
ethernet = record {
  guid = 1 ∷ [];
  mac_address = 60 ∷ 0 ∷ [];
  index = 4;
  name = 69 ∷ [];
  description = [];
  loopback = false;
  enabled = true;
  address_list = (3232238090, 4294967040) ∷ [];
  gateway = 3232238081;
  mtu = 1500;
}

abbrev wireless : Adapter
wireless = record ethernet { mac_address = 61 ∷ []; guid = 2 ∷ []; mtu = 1492 }

abbrev empty : AdapterManager
empty = record { adapters = []; signals = [] }

-- Both adapters are known, and then the second changes its MTU.
abbrev known : AdapterManager
known = update (ethernet ∷ wireless ∷ []) empty

update-fetched_example :
    (r : Adapter) × (find_adapter_id
        (60 ∷ 0 ∷ [])
        (update (wireless ∷ ethernet ∷ wireless ∷ []) known)
      ≡ some r)
    × SameButLoopback r ethernet
update-fetched_example =
    update-fetched (wireless ∷ []) ethernet (wireless ∷ []) known (head_differs, tt)
  where
    head_differs : wireless.mac_address ≢ ethernet.mac_address
    head_differs e = cc e

abbrev loopback : Adapter
loopback = record ethernet { loopback = true }

abbrev alone : AdapterManager
alone = record { adapters = (60 ∷ 0 ∷ [], ethernet) ∷ []; signals = [] }

alone-known : find_adapter_id (60 ∷ 0 ∷ []) alone ≡ some ethernet
unfolding find_adapter_id find equivalent text_less
alone-known = refl

update_entry-loopback_example : update_entries (loopback ∷ []) alone ≡ alone
update_entry-loopback_example = update_entry-loopback ethernet loopback alone refl alone-known

mask_to_cidr-prefix_example : mask_to_cidr ((2 ^ 24 - 1) * 2 ^ (32 - 24)) ≡ some 24
mask_to_cidr-prefix_example = mask_to_cidr-prefix 24 (omega arith)
