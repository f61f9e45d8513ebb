-- ===== src/Simulator/Nodes/Tests.antt =====
-- A simulation of one node.
use discnet.Common.{true, false, [], ◌∷◌}
use discnet.Adapters.{Adapter}
use discnet.Application.Configuration.{Configuration, log_name}
use discnet.Simulator.Nodes.{Fetcher, Simulation, add_node}

abbrev configuration : Configuration
configuration = record {
  node_id = 1010;
  multicast_address = 4026531841;
  multicast_port = 1337;
  log_instance_id = log_name;
}

abbrev ethernet : Adapter
ethernet = record {
  guid = 1 ∷ [];
  mac_address = 60 ∷ [];
  index = 4;
  name = [];
  description = [];
  loopback = false;
  enabled = true;
  address_list = (3232238090, 4294967040) ∷ [];
  gateway = 3232238081;
  mtu = 1500;
}

abbrev simulation : Simulation
simulation =
    add_node 1000 10 configuration
      (record { nodes = []; traffic = record { nodes = []; routers = [] } })

abbrev fetcher : Fetcher
fetcher = record { identifier = 7; adapter = ethernet } ∷ []
