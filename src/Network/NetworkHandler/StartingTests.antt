-- ===== src/Network/NetworkHandler/StartingTests.antt =====
-- Clients that are started at once, and after two retries.
use discnet.Common.{
  ℕ, if◌then◌else◌, ◌+◌, ◌*◌, ◌≤◌, ◌≡◌, refl, arith, leb, Bool, true, false, [], ◌∷◌, length, some,
}
use discnet.Network.NetworkHandler.{UdpInfo}
use discnet.Network.UdpClient.{
  Call, bind, call, setup, receive, close, internal_open, attempt_all, open_result, Socket,
  UdpClient, opened, refused, no_error, new_client, open_socket,
}
use discnet.Network.UdpClient.Listening.{complete, completes, here, next, IsListener}
use discnet.Network.NetworkHandler.Starting.{
  Started, started, process_adapter, IsClock, process_adapter-total, not_yet, once_more,
  process_adapter-started,
}
use discnet.Network.NetworkHandler.Listener.{process_adapter-IsListener}

abbrev info : UdpInfo
info = record { adapter = 3232235786; multicast = 4026531841; port = 1337 }

abbrev is_bind : Call → Bool
is_bind (bind adapter port) = true
is_bind k = false

-- The adapter has its address at the third attempt only.
abbrev late : Socket
late calls k = if is_bind k then leb (length calls) 8 else false

-- A reading of the clock in milliseconds, each a little more than a second after the last.
abbrev clock : ℕ → ℕ
clock n = 50000 + n * 1003

clock-IsClock : IsClock clock 1000
clock-IsClock = record { sleeps = λ n. omega arith }

abbrev once : UdpClient
once = (open_socket late (new_client info)).1

abbrev twice : UdpClient
twice = (open_socket late once).1

abbrev running : UdpClient
running = (open_socket late twice).1

refused_once : open_socket late (new_client info) ≡ (refused, once)
unfolding open_socket internal_open attempt_all setup open_result new_client call close receive
refused_once = refl

refused_twice : open_socket late once ≡ (refused, twice)
unfolding open_socket internal_open attempt_all setup open_result new_client call close receive
refused_twice = refl

opened_then : open_socket late twice ≡ (opened, running)
unfolding open_socket internal_open attempt_all setup open_result new_client call close receive
opened_then = refl

process_adapter-total_example :
    (n : ℕ) × (r : Started) × (process_adapter late clock 1000 (new_client info) ≡ some (n, r))
    × (n ≤ 15)
process_adapter-total_example =
    process_adapter-total late clock 1000 (new_client info) clock-IsClock

process_adapter-started_example :
    (process_adapter late clock 1000 (new_client info) ≡ some (2, started running))
    × (running.pending ≡ (new_client info).pending + 1)
process_adapter-started_example =
    process_adapter-started late clock 1000 2 (new_client info) twice running clock-IsClock
      (once_more refused_once (once_more refused_twice not_yet)) opened_then (λ j h. omega arith)

abbrev heard : UdpClient
heard = complete (no_error (7 ∷ []) 3232235787) running

running-pending : running.pending ≡ 1
unfolding open_socket internal_open attempt_all setup open_result new_client call close receive
running-pending = refl

started_twice : process_adapter late clock 1000 (new_client info) ≡ some (2, started running)
started_twice =
    (process_adapter-started late clock 1000 2 (new_client info) twice running clock-IsClock
      (once_more refused_once (once_more refused_twice not_yet)) opened_then (λ j h. omega arith)).0

process_adapter-IsListener_example : (running.pending ≡ 1) × IsListener info heard
process_adapter-IsListener_example =
    process_adapter-IsListener late clock 1000 info 2 running heard started_twice
      (next here (completes 0 (no_error (7 ∷ []) 3232235787) running running-pending))
