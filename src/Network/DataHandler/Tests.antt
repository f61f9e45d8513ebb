-- ===== src/Network/DataHandler/Tests.antt =====
-- Runs of a handler, and its theorems at concrete inputs.
use discnet.Common.{ℕ, ◌+◌, ◌≡◌, List, [], ◌∷◌, some, find, equivalent}
use discnet.Network.DataStream.{DataStream, handle_receive, new_stream}
use discnet.Network.DataStream.Receiving.{receive_all}
use discnet.Network.DataHandler.{Identifier, less, DataHandler, new_handler}
use discnet.Network.DataHandler.Streams.{
  Datagram, receive_datagrams, datagrams_of, resume, receive_datagrams-find,
}

abbrev first : Identifier
first = record { sender_ip = 3232238090; recipient_ip = 3232238081 }

abbrev second : Identifier
second = record { sender_ip = 3232238091; recipient_ip = 3232238081 }

-- Two senders in turn.
abbrev datagrams : List Datagram
datagrams =
    record { time = 5; bytes = 1 ∷ 2 ∷ []; identifier = first }
    ∷ record { time = 6; bytes = 3 ∷ []; identifier = second }
    ∷ record { time = 7; bytes = 4 ∷ []; identifier = first }
    ∷ []

abbrev doubled : ℕ → ℕ → ℕ
doubled capacity n = n + n

receive_datagrams-find_example :
    find less first (receive_datagrams doubled datagrams (new_handler 64)).streams
    ≡ resume doubled
        (new_handler 64).buffer_size
        (find less first (new_handler 64).streams)
        (datagrams_of doubled first datagrams)
receive_datagrams-find_example = receive_datagrams-find doubled first datagrams (new_handler 64)

abbrev filled : DataHandler
filled = receive_datagrams doubled datagrams (new_handler 64)

abbrev stream : DataStream
stream = handle_receive doubled 6 (3 ∷ []) (new_stream 6 64)

stream-found : find less second filled.streams ≡ some stream
unfolding find new_handler equivalent less receive_all
stream-found = receive_datagrams-find doubled second datagrams (new_handler 64)
