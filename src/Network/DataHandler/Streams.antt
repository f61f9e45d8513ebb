-- ===== src/Network/DataHandler/Streams.antt =====
-- What network/data_handler.cpp does with each of its streams.
use discnet.Common.{
  ℕ, ◌≡◌, refl, sym, ap, ap₂, subst, ◌∙◌, inl, inr, false, Bool-cases, if◌then◌else◌, List, [], ◌∷◌,
  Option, none, some, Option-cases, find, equivalent, equivalent→≡, find-insert_or_assign,
  find-insert_or_assign_other, insert-absent,
}
use mathlib.Core.List.{Memᴰ}
use mathlib.Core.Option
use discnet.Host.{Host}
use discnet.Network.Messages.Packet.{Packet}
use discnet.Network.DataStream.{DataStream, new_stream, process, handle_receive}
use discnet.Network.DataStream.Termination.{process-total}
use discnet.Network.DataStream.Receiving.{receive_all}
use discnet.Network.DataHandler.{
  Identifier, less, less-IsOrder, DataHandler, StreamPackets, add_stream, process_streams,
  process_all, receive_on, handle_datagram,
}

-- A datagram, with the time at which it comes.
pub record Datagram : Type 0 where
  pub time : ℕ
  pub bytes : List ℕ
  pub identifier : Identifier

module _ (grow : ℕ → ℕ → ℕ) where
  -- Datagrams one after the other.
  abbrev pub receive_datagrams : List Datagram → DataHandler → DataHandler
  receive_datagrams [] d = d
  receive_datagrams (g ∷ gs) d =
      receive_datagrams gs
        (handle_datagram grow g.time g.bytes g.identifier.sender_ip g.identifier.recipient_ip d)

  -- What comes to one stream of them.
  abbrev pub datagrams_of : Identifier → List Datagram → List (ℕ × List ℕ)
  datagrams_of i [] = []
  datagrams_of i (g ∷ gs) =
      let rest = datagrams_of i gs in
      if equivalent less g.identifier i then (g.time, g.bytes) ∷ rest else rest

  -- A stream that gets them, from where it stands: it begins with the first.
  abbrev pub resume : ℕ → Option DataStream → List (ℕ × List ℕ) → Option DataStream
  resume size (some s) cs = some (receive_all grow cs s)
  resume size none [] = none
  resume size none ((now, bytes) ∷ cs) =
      some (receive_all grow cs (handle_receive grow now bytes (new_stream now size)))

  handle_datagram-size :
      (now : ℕ) (bytes : List ℕ) (s r : ℕ) (d : DataHandler)
      → (handle_datagram grow now bytes s r d).buffer_size ≡ d.buffer_size
  unfolding handle_datagram receive_on
  handle_datagram-size now bytes s r d =
      elim (Option-cases (find less (record { sender_ip = s; recipient_ip = r }) d.streams)) [
        | inl new ↦ rw new refl
        | inr (known, found) ↦ rw found refl
      ]

  resume-nil : (size : ℕ) (o : Option DataStream) → o ≡ resume size o []
  unfolding receive_all
  resume-nil size none = refl
  resume-nil size (some s) = refl

  resume-own :
      (size now : ℕ) (bytes : List ℕ) (o : Option DataStream) (cs : List (ℕ × List ℕ))
      → resume size (resume size o ((now, bytes) ∷ [])) cs ≡ resume size o ((now, bytes) ∷ cs)
  unfolding receive_all
  resume-own size now bytes none cs = refl
  resume-own size now bytes (some s) cs = refl

  handle_datagram-own :
      (now : ℕ) (bytes : List ℕ) (i : Identifier) (d : DataHandler)
      → find less i (handle_datagram grow now bytes i.sender_ip i.recipient_ip d).streams
        ≡ resume d.buffer_size (find less i d.streams) ((now, bytes) ∷ [])
  unfolding handle_datagram receive_on receive_all
  handle_datagram-own now bytes i d = elim (Option-cases (find less i d.streams)) [
    | inl new ↦ rw new (find-insert_or_assign less less-IsOrder i _ _)
    | inr (known, found) ↦ rw found (find-insert_or_assign less less-IsOrder i _ _)
  ]

  handle_datagram-other :
      (now : ℕ) (bytes : List ℕ) (i j : Identifier) (d : DataHandler)
      → equivalent less j i ≡ false
      → find less i (handle_datagram grow now bytes j.sender_ip j.recipient_ip d).streams
        ≡ find less i d.streams
  unfolding handle_datagram receive_on
  handle_datagram-other now bytes i j d other = elim (Option-cases (find less j d.streams)) [
    | inl new ↦ rw new (
        find-insert_or_assign_other less less-IsOrder i j _ _ other
        ∙ ap (λ m. find less i m) (insert-absent less less-IsOrder j _ d.streams new)
        ∙ find-insert_or_assign_other less less-IsOrder i j _ _ other)
    | inr (known, found) ↦ rw found (find-insert_or_assign_other less less-IsOrder i j _ _ other)
  ]

  -- However datagrams of several senders and recipients come in, each stream is in the state that
  -- its own datagrams alone bring about, in their order.
  pub receive_datagrams-find :
      (i : Identifier) (gs : List Datagram) (d : DataHandler)
      → find less i (receive_datagrams gs d).streams
        ≡ resume d.buffer_size (find less i d.streams) (datagrams_of i gs)
  receive_datagrams-find i [] d = resume-nil d.buffer_size (find less i d.streams)
  receive_datagrams-find i (g ∷ gs) d =
      let size =
        handle_datagram-size g.time g.bytes g.identifier.sender_ip g.identifier.recipient_ip d in
      elim (Bool-cases (equivalent less g.identifier i)) [
        | inl own ↦
            let same = equivalent→≡ less less-IsOrder g.identifier i own in
            rw own (
              receive_datagrams-find i gs _
              ∙ ap₂ (λ n o. resume n o (datagrams_of i gs)) size
                  (subst
                    (λ j.
                      find less i
                        (handle_datagram grow g.time g.bytes j.sender_ip j.recipient_ip d).streams
                      ≡ resume d.buffer_size (find less i d.streams) ((g.time, g.bytes) ∷ []))
                    (sym same) (handle_datagram-own g.time g.bytes i d))
              ∙ resume-own d.buffer_size g.time g.bytes (find less i d.streams) (datagrams_of i gs))
        | inr other ↦ rw other (
            receive_datagrams-find i gs _
            ∙ ap₂ (λ n o. resume n o (datagrams_of i gs)) size
                (handle_datagram-other g.time g.bytes i g.identifier d other))
      ]

module _ (h : Host) where
  -- What `process` brings of a stream.
  pub record Processed (streams : List (Identifier × DataStream)) (result : List StreamPackets)
      (i : Identifier) (s : DataStream) : Type 0 where
    pub after : DataStream
    pub packets : List Packet
    pub run : process h s ≡ some (after, packets)
    pub stored : find less i streams ≡ some after
    pub reported : Memᴰ (record { identifier = i; packets = packets }) result

  process_streams-total :
      (m : List (Identifier × DataStream))
      → (r : List (Identifier × DataStream) × List StreamPackets) × (process_streams h m ≡ some r)
        × ((i : Identifier) (s : DataStream) → find less i m ≡ some s → Processed r.0 r.1 i s)
  unfolding process_streams add_stream find
  process_streams-total [] = (([], []), refl, λ i s e. absurd (cc e))
  process_streams-total ((j, t) ∷ m) =
      let (r, e) = process-total h t in
      let (rest, e', each) = process_streams-total m in
      let here : StreamPackets = record { identifier = j; packets = r.1 } in
      (
        ((j, r.0) ∷ rest.0, here ∷ rest.1),
        rw (e, e') refl,
        λ i s found. elim (Bool-cases (equivalent less j i)) [
          | inl own ↦
              let same = equivalent→≡ less less-IsOrder j i own in
              record {
                after = r.0;
                packets = r.1;
                run = ap (process h) (sym (Option.some-injective t s (rw own at found))) ∙ e;
                stored = rw own refl;
                reported = Memᴰ.head (λ k. record { identifier = sym same k; packets = r.1 });
              }
          | inr other ↦
              let p = each i s (rw other at found) in
              record {
                after = p.after;
                packets = p.packets;
                run = p.run;
                stored = rw other p.stored;
                reported = Memᴰ.tail p.reported;
              }
        ],
      )

  -- The handler's `process` ends, whatever its streams hold.
  pub process_all-total :
      (d : DataHandler) → (r : DataHandler × List StreamPackets) × (process_all h d ≡ some r)
  unfolding process_all
  process_all-total d =
      let (r, e, each) = process_streams-total d.streams in
      ((record d { streams = r.0 }, r.1), rw e refl)

  -- The handler's `process` does with each stream what `process` of the stream does: the stream is
  -- stored as that leaves it, and its packets are reported under its identifier.
  pub process_all-Processed :
      (d : DataHandler) (i : Identifier) (s : DataStream)
      → find less i d.streams ≡ some s
      → (r : DataHandler × List StreamPackets) × (process_all h d ≡ some r)
        × Processed r.0.streams r.1 i s
  unfolding process_all
  process_all-Processed d i s found =
      let (r, e, each) = process_streams-total d.streams in
      ((record d { streams = r.0 }, r.1), rw e refl, each i s found)
