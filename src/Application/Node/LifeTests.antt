-- ===== src/Application/Node/LifeTests.antt =====
-- A node over its first updates, with a client that is started in between.
use discnet.Common.{[], ◌∷◌, some}
use mathlib.Core.Option
use discnet.Host.Swapping.{swapping}
use discnet.Network.NetworkHandler
use discnet.Network.NetworkHandler.{
  Client, multicast, NetworkHandler, packet_bytes, running, ready, taken,
}
use discnet.Adapters
use discnet.Adapters.{
  Adapter, AdapterManager, find_adapter, find_by_address, has_address, find_adapter_id,
}
use discnet.Transmission
use discnet.Application.Configuration.{Configuration, log_name}
use discnet.Application.Node
use discnet.Application.Node.{initialize, update_adapters, update_routes}
use discnet.Application.Node.Running.{update-total}
use discnet.Application.Node.Reachable.{with_pending, updates, here, next}
use discnet.Application.Node.Reachable.Invariant.{IsNode, Reach-IsNode}
use discnet.Application.Node.Tests.{ethernet, client}

abbrev configuration : Configuration
configuration = record {
  node_id = 1010;
  multicast_address = 4026531841;
  multicast_port = 1337;
  log_instance_id = log_name;
}

abbrev initial : Node.Node
initial = initialize 1000 configuration

abbrev begun : Node.Node
begun = (update-total swapping 1000 (ethernet ∷ []) 30000 initial).0

Reach-IsNode_example : IsNode 1000 configuration begun
Reach-IsNode_example = Reach-IsNode swapping 1000 configuration (
    next here (
      updates (ethernet ∷ []) 30000 initial begun
        (update-total swapping 1000 (ethernet ∷ []) 30000 initial).1))

-- The node after its first update, with the start of a client that has not come to its end, and after
-- the end of that start.
abbrev starting : NetworkHandler
starting = record {
  multicast_address = 4026531841;
  multicast_port = 1337;
  clients = [];
  adapter_init_list = running client ∷ [];
  effects = [];
}

abbrev started : Node.Node
started = update_routes swapping 1000 30000 (update_adapters (ethernet ∷ []) initial) starting

abbrev connected_node : Node.Node
connected_node = with_pending (ready (some client) ∷ []) started

abbrev joined : NetworkHandler
joined = record starting { clients = client ∷ []; adapter_init_list = taken ∷ [] }
