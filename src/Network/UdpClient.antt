-- ===== src/Network/UdpClient.antt =====
-- network/udp_client.cpp: the calls that set up a socket, the receive operation that is renewed at
-- every datagram, and the sends. boost::asio is the parameter that says which calls fail.
pub mod Opening
pub mod Listening
mod Tests
use discnet.Common.{ℕ, ◌+◌, Bool, true, false, if◌then◌else◌, List, [], ◌∷◌, ◌++◌}
use discnet.Network.NetworkHandler.{UdpInfo}

-- The calls of the socket, in the order of the source.
pub data Call : Type 0 where
  open_v4 : Call
  reuse_address : Bool → Call
  bind : ℕ → ℕ → Call
  join_group : ℕ → ℕ → Call
  outbound_interface : ℕ → Call
  enable_loopback : Bool → Call
  async_receive_from : Call
  async_send_to : List ℕ → ℕ → ℕ → Call
  close_socket : Call

-- Whether a call fails, behind those that were made before.
abbrev pub Socket : Type 0
Socket = List Call → Call → Bool

-- What the callback is given: the bytes, the sender and the multicast address.
pub record Received : Type 0 where
  pub bytes : List ℕ
  pub sender : ℕ
  pub recipient : ℕ

-- `udp_client`: its info, the calls so far, the receive operations that are not complete, and what
-- was given to `m_data_received_func`.
pub record UdpClient : Type 0 where
  pub info : UdpInfo
  pub calls : List Call
  pub pending : ℕ
  pub received : List Received

-- How `open` ends: it answers true or false, or it throws.
pub data Opened : Type 0 where
  opened refused thrown : Opened

-- The error that a receive operation completes with.
pub data Completion : Type 0 where
  no_error : List ℕ → ℕ → Completion
  connection_aborted : Completion
  other_error : Completion

unfoldable pub new_client : UdpInfo → UdpClient
new_client info = record { info = info; calls = []; pending = 0; received = [] }

unfoldable pub call : Call → UdpClient → UdpClient
call k c = record c { calls = c.calls ++ (k ∷ []) }

-- The calls of `internal_open` where `_WIN32` is set, and how `open` ends where one fails:
-- `join_group` is called without an error to set, and throws.
unfoldable pub setup : UdpInfo → List (Call × Opened)
setup info =
    (open_v4, refused)
    ∷ (reuse_address true, refused)
    ∷ (bind info.adapter info.port, refused)
    ∷ (join_group info.multicast info.adapter, thrown)
    ∷ (outbound_interface info.adapter, refused)
    ∷ (enable_loopback false, refused)
    ∷ []

-- One call after the other, until one fails.
unfoldable pub attempt_all : Socket → List (Call × Opened) → UdpClient → Opened × UdpClient
attempt_all s [] c = (opened, c)
attempt_all s ((k, failure) ∷ ks) c =
    let rest = attempt_all s ks (call k c) in if s c.calls k then (failure, call k c) else rest

unfoldable pub internal_open : Socket → UdpClient → Opened × UdpClient
internal_open s c = attempt_all s (setup c.info) c

unfoldable pub receive : UdpClient → UdpClient
receive c = record (call async_receive_from c) { pending = c.pending + 1 }

unfoldable pub close : UdpClient → UdpClient
close c = call close_socket c

unfoldable pub open_result : Opened → UdpClient → Opened × UdpClient
open_result opened c = (opened, receive c)
open_result refused c = (refused, close c)
open_result thrown c = (thrown, c)

unfoldable pub open_socket : Socket → UdpClient → Opened × UdpClient
open_socket s c = let (result, c') = internal_open s c in open_result result c'

-- Both `write`s answer true.
unfoldable pub write : List ℕ → UdpClient → Bool × UdpClient
write bytes c = (true, call (async_send_to bytes c.info.multicast c.info.port) c)

unfoldable pub write_to : List ℕ → ℕ → UdpClient → Bool × UdpClient
write_to bytes recipient c = (true, call (async_send_to bytes recipient c.info.port) c)

-- The first `bytes_received` bytes of the buffer are the datagram.
unfoldable pub data_received : List ℕ → ℕ → UdpClient → UdpClient
data_received bytes sender c = record c {
  received =
      c.received ++ (record { bytes = bytes; sender = sender; recipient = c.info.multicast } ∷ []);
}

unfoldable pub handle_read : Completion → UdpClient → UdpClient
handle_read (no_error bytes sender) c = receive (data_received bytes sender c)
handle_read connection_aborted c = close c
handle_read other_error c = c
