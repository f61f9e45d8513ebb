-- ===== src/Lib.antt =====
-- discnet: nodes of a network find each other by discovery messages that they send by
-- multicast on their adapters.
-- This library models the C++ sources of the library, discnet/src and include/discnet, of the
-- application, discnet_app, and of the simulator's logic, discnet_sim.
--
-- A packet of messages is encoded to a buffer, sent as a datagram, collected in a stream of
-- its sender and recipient, and decoded; the discovery messages of a packet become routes of
-- the adapter they came in on; the routes are announced on the other adapters. The modules
-- follow that way:
-- - Host: what the sources take from elsewhere, as the parameters of a record: the byte order
--   (boost::endian) and MD5. IsHost says what is relied on; Host.Swapping is a concrete host
--   for the examples.
-- - Network.Buffer: discnet/src/network/buffer.cpp, buffer_t. A method is a function from the
--   buffer to its result and the new buffer. Network.ReadBuffer is read_buffer.cpp.
-- - Network.Messages: discnet/src/network/messages. Decoder and Encoder are the monad of a
--   decoder, with the source's errors as constructors, and the sequences of append calls.
--   Equality is the equality operators; Header, DataMessage, DiscoveryMessage and Packet are
--   header.cpp, data_message.cpp, discovery_message.cpp and packet.cpp, with encode, decode
--   and validate_packet.
-- - Network.DataStream: data_stream.cpp. process_loop is the loop of process, on fuel: one
--   more than the bytes of the vector, which is enough since every round that goes on takes
--   bytes away. none stands for no fuel and does not occur. How far a vector's capacity grows
--   is a parameter.
-- - Network.DataHandler: data_handler.cpp. handle_datagram is handle_receive and process_all
--   is process.
-- - Adapters: adapter.hpp and adapter_manager.cpp. What the fetcher gives is the argument of
--   update.
-- - Routes and Routes.Manager: route.cpp and route_manager.cpp. The signals of boost are a
--   list in the order of the calls.
-- - Network.NetworkHandler: network_handler.cpp. What it does outside is a list of effects:
--   datagrams, closed clients and the two signals. A client in start is a future of
--   m_adapter_init_list.
-- - Network.UdpClient: udp_client.cpp. A socket is the list of the calls made on it and a
--   parameter that says which fail; a receive operation that completes is an event.
--   Network.NetworkHandler.Starting is process_adapter of network_handler.cpp, with a clock
--   as a parameter, on fuel 16: with readings that are a second apart no more than 15 retries
--   start before the timeout.
-- - Transmission: transmission_handler.cpp.
-- - Discovery: the connection between the signals of network_handler.cpp and
--   route_manager.cpp.
-- - Application.Configuration: application/configuration.cpp. Application.Node:
--   application.cpp of discnet_app and node.cpp of discnet_sim, that put the components
--   together; Application.Node.Reachable is the life of a node as a step relation.
-- - Texts: bytes_to_hex_string of discnet_lib.cpp and the text of jumps of typedefs.cpp.
--   Adapters.Info is the texts of adapter_manager.cpp; its loop over the bits of a mask has
--   fuel 32, as many as the mask has bits.
-- - Windows: windows/adapter_fetcher.cpp, on what Windows answers.
-- - Simulator: discnet_sim/src/simulator/network_router.cpp and network_traffic_manager.cpp;
--   what a datagram reaches is a list of deliveries. Simulator.Nodes is simulator.cpp,
--   node.cpp, udp_client.cpp and network_adapter_fetcher.h there, Simulator.RouteModel is
--   discnet_sim/src/models/RouteModel.cpp, and Simulator.RouteModel.Connection connects it to
--   the signals of a route manager as node.cpp does.
-- - Common: lists, tests, strings and ordered maps, for std::vector, std::string and
--   std::map.
--
-- Numbers: an integer of the source is a native natural number, and a wrap-around is written
-- out; a signed integer is its bit pattern. A size_t is not bounded where it counts the
-- elements of a vector. A time point is its distance from time_point_t::min(). Mutexes make
-- the calls on an object a sequence, and that sequence is what the theorems speak of.
--
-- Not modelled: boost::asio and the operating system behind the sockets,
-- linux/adapter_fetcher.cpp and windows/wbem_consumer.cpp, that are calls of the system only,
-- the threads of asio_context.cpp and the endless loop of main.cpp, sha256_file, and the Qt
-- widgets of the simulator. An exception out of a future ends the start of a client here and
-- is not passed on to the update that takes it. In a simulation the datagrams that one node's
-- update sends reach the others as separate steps.
pub mod Adapters
pub mod Application
pub mod Common
pub mod Discovery
pub mod Host
pub mod Network
pub mod Routes
pub mod Simulator
pub mod Texts
pub mod Transmission
pub mod Windows
