-- ===== src/Transmission/Tests.antt =====
-- Runs of the transmission handler, and its theorems at concrete inputs.
use discnet.Common.{◌≤◌, ◌≡◌, arith, true, false, [], ◌∷◌}
use discnet.Transmission.{
  MessageStatus, TransmissionHandler, is_due, is_unsent, get_messages_for_adapter, update,
}
use discnet.Host.Swapping.{swapping}
use discnet.Network.NetworkHandler.{NetworkHandler}
use discnet.Adapters.{AdapterManager}
use discnet.Routes.Manager.{RouteManager}
use discnet.Transmission.Timing.{is_due_iff, update-update_soon}
use discnet.Transmission.Queue.{unsent, payload, get_messages_for_adapter-payload}

-- A message that went to one of its two recipients.
abbrev status : MessageStatus
status = record {
  message = record { identifier = 1; buffer = 1 ∷ 2 ∷ 3 ∷ [] };
  recipients =
      record { node = record { id = 1010; address = 3232238091 }; sent = true }
      ∷ record { node = record { id = 1011; address = 3232238092 }; sent = false }
      ∷ [];
}

abbrev handler : TransmissionHandler
handler = record {
  node_id = 1010;
  last_discovery = 100;
  interval = 20;
  queue = status ∷ status ∷ [];
}

abbrev adapters : AdapterManager
adapters = record { adapters = []; signals = [] }

abbrev routes : RouteManager
routes = record { adapter_routes = []; signals = [] }

abbrev network : NetworkHandler
network = record {
  multicast_address = 4026531841;
  multicast_port = 1337;
  clients = [];
  adapter_init_list = [];
  effects = [];
}

due : is_due handler 121 ≡ true
due = (is_due_iff handler 121).1 (omega arith)

update-update_soon_example :
    update swapping adapters routes 141 (update swapping adapters routes 121 (handler, network))
    ≡ update swapping adapters routes 121 (handler, network)
update-update_soon_example =
    update-update_soon swapping adapters adapters routes routes 121 141 handler network due
      (omega arith)

one_left : unsent status.recipients ≤ 1
unfolding unsent is_unsent
one_left = omega arith

get_messages_for_adapter-payload_example : payload (get_messages_for_adapter handler).1 ≤ 1024
get_messages_for_adapter-payload_example =
    get_messages_for_adapter-payload handler (one_left, (one_left, tt))
