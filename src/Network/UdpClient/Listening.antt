-- ===== src/Network/UdpClient/Listening.antt =====
-- The receive operations of network/udp_client.cpp, over the completions that come.
use discnet.Common.{
  ℕ, suc, ◌-◌, ◌≤◌, ◌≡◌, ◌≢◌, All, All-append, refl, ap, sym, subst, ◌∙◌, arith, List, [], ◌∷◌,
  ◌++◌, append_assoc, append-nil,
}
use discnet.Network.NetworkHandler.{UdpInfo}
use discnet.Network.UdpClient.{
  Call, UdpClient, Completion, no_error, connection_aborted, other_error, Received, call, receive,
  close, write, write_to, data_received, handle_read, Socket, Opened, opened, open_socket,
}
use discnet.Network.UdpClient.Opening.{open_socket-IsOpened}

-- The receive operation that was begun last is complete, and its handler runs.
abbrev pub complete : Completion → UdpClient → UdpClient
complete e c = handle_read e (record c { pending = c.pending - 1 })

-- What goes on with a client until `open` answers true again: a receive operation, of those that are
-- not complete, completes in whatever way, or one of its operations is called, `open` among them
-- where it answers false or throws.
pub data Step : UdpClient → UdpClient → Type 0 where
  completes : (n : ℕ) (e : Completion) (c : UdpClient) → c.pending ≡ suc n → Step c (complete e c)
  writes : (bytes : List ℕ) (c : UdpClient) → Step c (write bytes c).1
  writes_to :
      (bytes : List ℕ) (recipient : ℕ) (c : UdpClient) → Step c (write_to bytes recipient c).1
  closes : (c : UdpClient) → Step c (close c)
  opens_in_vain :
      (s : Socket) (c d : UdpClient) (r : Opened) → open_socket s c ≡ (r, d) → r ≢ opened → Step c d

pub data Reach (c : UdpClient) : UdpClient → Type 0 where
  here : Reach c c
  next : {d e : UdpClient} → Reach c d → Step d e → Reach c e

-- Datagrams that come one after the other, each with its sender.
abbrev pub complete_all : List (List ℕ × ℕ) → UdpClient → UdpClient
complete_all [] c = c
complete_all ((bytes, sender) ∷ gs) c = complete_all gs (complete (no_error bytes sender) c)

abbrev pub received_from : UdpInfo → List (List ℕ × ℕ) → List Received
received_from info [] = []
received_from info ((bytes, sender) ∷ gs) =
    record { bytes = bytes; sender = sender; recipient = info.multicast } ∷ received_from info gs

-- Every datagram is given to the callback, in order, with its sender and the multicast address, and
-- the client goes on listening with one receive operation.
pub complete_all-received :
    (gs : List (List ℕ × ℕ)) (c : UdpClient)
    → c.pending ≡ 1
    → ((complete_all gs c).received ≡ c.received ++ received_from c.info gs)
      × ((complete_all gs c).pending ≡ 1)
unfolding handle_read receive data_received call
complete_all-received [] c listening = (sym (append-nil c.received), listening)
complete_all-received ((bytes, sender) ∷ gs) c listening =
    let (received, pending) =
      complete_all-received gs (complete (no_error bytes sender) c) (omega arith) in
    (received ∙ append_assoc c.received _ _, pending)

-- One receive operation at most, the same info, and every datagram is given with the multicast
-- address as its recipient.
pub record IsListener (info : UdpInfo) (c : UdpClient) : Type 0 where
  pub same_info : c.info ≡ info
  pub one_pending : c.pending ≤ 1
  pub recipients : All (λ r. r.recipient ≡ info.multicast) c.received

IsListener-call :
    (info : UdpInfo) (k : Call) (c : UdpClient) → IsListener info c → IsListener info (call k c)
unfolding call
IsListener-call info k c l = record {
  same_info = l.same_info;
  one_pending = l.one_pending;
  recipients = l.recipients;
}

Step-IsListener :
    (info : UdpInfo) {d e : UdpClient} → Step d e → IsListener info d → IsListener info e
unfolding handle_read receive data_received call close write write_to
Step-IsListener info (completes n (no_error bytes sender) c h) l = record {
  same_info = l.same_info;
  one_pending = ground (arith, l.one_pending);
  recipients = All-append _ c.received _ l.recipients (ap (λ i. i.multicast) l.same_info, tt);
}
Step-IsListener info (completes n connection_aborted c h) l = record {
  same_info = l.same_info;
  one_pending = ground (arith, l.one_pending);
  recipients = l.recipients;
}
Step-IsListener info (completes n other_error c h) l = record {
  same_info = l.same_info;
  one_pending = ground (arith, l.one_pending);
  recipients = l.recipients;
}
Step-IsListener info (writes bytes c) l = IsListener-call info _ c l
Step-IsListener info (writes_to bytes recipient c) l = IsListener-call info _ c l
Step-IsListener info (closes c) l = IsListener-call info _ c l
Step-IsListener info (opens_in_vain s c d r e vain) l =
    let left = open_socket-IsOpened s c d r e in
    record {
      same_info = left.same_info ∙ l.same_info;
      one_pending = subst (λ n. n ≤ 1) (sym (left.not_begun vain)) l.one_pending;
      recipients =
          subst (All (λ r. r.recipient ≡ info.multicast)) (sym left.same_received) l.recipients;
    }

-- Until `open` answers true again, a client that listens has one receive operation at most, so that no
-- two of them write to its buffer, its info stays, and it gives every datagram with its multicast
-- address as the recipient.
pub Reach-IsListener :
    (info : UdpInfo) {c d : UdpClient} → IsListener info c → Reach c d → IsListener info d
Reach-IsListener info l here = l
Reach-IsListener info l (next r s) = Step-IsListener info s (Reach-IsListener info l r)

-- Without a receive operation nothing is received.
Step-silent :
    {c d : UdpClient} → Step c d → c.pending ≡ 0 → (d.pending ≡ 0) × (d.received ≡ c.received)
unfolding call close write write_to
Step-silent (completes n e c h) idle = absurd (cc (sym h ∙ idle))
Step-silent (writes bytes c) idle = (idle, refl)
Step-silent (writes_to bytes recipient c) idle = (idle, refl)
Step-silent (closes c) idle = (idle, refl)
Step-silent (opens_in_vain s c d r e vain) idle =
    let left = open_socket-IsOpened s c d r e in (left.not_begun vain ∙ idle, left.same_received)

Reach-silent :
    {c d : UdpClient} → c.pending ≡ 0 → Reach c d → (d.pending ≡ 0) × (d.received ≡ c.received)
Reach-silent idle here = (idle, refl)
Reach-silent idle (next r s) =
    let (still, same) = Reach-silent idle r in
    let (then, same') = Step-silent s still in (then, same' ∙ same)

-- A receive operation of a client with no other one completes with an error, whichever it is. Until an
-- `open` of the client answers true, the client gives no datagram, whatever is written, closed or
-- opened in vain.
pub complete-silent :
    (c d : UdpClient) (e : Completion)
    → c.pending ≡ 1
    → ((bytes : List ℕ) (sender : ℕ) → e ≢ no_error bytes sender)
    → Reach (complete e c) d
    → d.received ≡ c.received
complete-silent c d (no_error bytes sender) listening fails r = absurd (fails bytes sender refl)
complete-silent c d connection_aborted listening fails r =
    unfold handle_read close call in (Reach-silent (ground arith) r).1
complete-silent c d other_error listening fails r =
    unfold handle_read in (Reach-silent (ground arith) r).1
