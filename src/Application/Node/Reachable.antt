-- ===== src/Application/Node/Reachable.antt =====
-- A node over its life, application.cpp: what holds after any sequence of updates, of datagrams that
-- come in between, and of clients whose start comes to its end.
pub mod Clients
pub mod Invariant
pub mod Announces
use discnet.Common.{ℕ, ◌*◌, ◌≡◌, refl, ap, sym, ◌∙◌, List, [], ◌∷◌, ◌++◌, All, Option, none, some}
use mathlib.Core.Option
use discnet.Host.{Host}
use discnet.Adapters.{Adapter}
use discnet.Network.DataHandler.{handle_datagram}
use discnet.Network.NetworkHandler.{Client, Pending, running, ready, NetworkHandler}
use discnet.Application.Node.{Node, update}

abbrev pub with_clients : List Client → Node → Node
with_clients cs n = record n { network = record (n.network) { clients = cs } }

abbrev pub with_pending : List Pending → Node → Node
with_pending ps n = record n { network = record (n.network) { adapter_init_list = ps } }

-- A client that is given a datagram.
abbrev pub receive_datagram : (ℕ → ℕ → ℕ) → ℕ → List ℕ → ℕ → ℕ → Client → Client
receive_datagram grow now bytes sender recipient c = record c {
  handler = handle_datagram grow now bytes sender recipient c.handler;
}

-- What may happen: an update at any time and with any adapters, a datagram on a client, and a start
-- of a client that gives the client or fails.
pub data Step (h : Host) (second : ℕ) : Node → Node → Type 0 where
  updates :
      (fetched : List Adapter) (current : ℕ) (n t : Node)
      → update h second fetched current n ≡ some t
      → Step h second n t
  receives :
      (grow : ℕ → ℕ → ℕ) (now : ℕ) (bytes : List ℕ) (sender recipient : ℕ) (pre : List Client)
      (c : Client) (post : List Client) (n : Node)
      → n.network.clients ≡ pre ++ (c ∷ post)
      → Step h second n
          (with_clients (pre ++ (receive_datagram grow now bytes sender recipient c ∷ post)) n)
  starts :
      (pre : List Pending) (c : Client) (post : List Pending) (n : Node)
      → n.network.adapter_init_list ≡ pre ++ (running c ∷ post)
      → Step h second n (with_pending (pre ++ (ready (some c) ∷ post)) n)
  fails :
      (pre : List Pending) (c : Client) (post : List Pending) (n : Node)
      → n.network.adapter_init_list ≡ pre ++ (running c ∷ post)
      → Step h second n (with_pending (pre ++ (ready none ∷ post)) n)

pub data Reach (h : Host) (second : ℕ) (n : Node) : Node → Type 0 where
  here : Reach h second n n
  next : {m t : Node} → Reach h second n m → Step h second m t → Reach h second n t
