-- ===== src/Transmission/Queue.antt =====
-- How much the queue gives out at once.
use discnet.Common.{
  ℕ, suc, ◌+◌, ◌^◌, ◌≤◌, ◌<◌, ◌≡◌, refl, inl, inr, arith, Bool-cases, leb, leb→le, ◌==◌,
  if◌then◌else◌, List, [], ◌∷◌, ◌++◌, All, length,
}
use discnet.Network.Messages.DataMessage.{DataMessage}
use discnet.Network.Messages.Packet.{Message, of_discovery, of_data}
use discnet.Transmission.{
  RecipientStatus, MessageStatus, TransmissionHandler, is_unsent, subtract, send_copies,
  send_message, send_queue, get_messages_for_adapter,
}

-- The bytes that the data messages of a list carry.
abbrev pub payload : List Message → ℕ
payload [] = 0
payload (of_data m ∷ ms) = length m.buffer + payload ms
payload (of_discovery m ∷ ms) = payload ms

payload-append : (ms ns : List Message) → payload (ms ++ ns) ≡ payload ms + payload ns
payload-append [] ns = omega arith
payload-append (of_data m ∷ ms) ns = omega (arith, payload-append ms ns)
payload-append (of_discovery m ∷ ms) ns = payload-append ms ns

-- The recipients that a message was not sent to.
unfoldable pub unsent : List RecipientStatus → ℕ
unsent [] = 0
unsent (r ∷ rs) = let rest = unsent rs in if is_unsent r then suc rest else rest

subtract-le :
    (remaining size : ℕ)
    → size ≤ remaining
    → remaining < 2 ^ 64
    → subtract remaining size + size ≡ remaining
unfolding subtract
subtract-le remaining size fits bounded = omega arith

send_copies-none :
    (m : DataMessage) (rs : List RecipientStatus) (remaining : ℕ)
    → unsent rs ≡ 0
    → (payload (send_copies m rs remaining).1 ≡ 0) × ((send_copies m rs remaining).2 ≡ remaining)
unfolding send_copies unsent
send_copies-none m [] remaining e = (refl, refl)
send_copies-none m (r ∷ rs) remaining e = elim (Bool-cases (is_unsent r)) [
  | inl gets ↦ let h = rw gets at e in absurd (omega (arith, h))
  | inr skips ↦ rw skips (send_copies-none m rs remaining (rw skips at e))
]

send_copies-one :
    (m : DataMessage) (rs : List RecipientStatus) (remaining : ℕ)
    → unsent rs ≤ 1
    → length m.buffer ≤ remaining
    → remaining < 2 ^ 64
    → payload (send_copies m rs remaining).1 + (send_copies m rs remaining).2 ≡ remaining
unfolding send_copies unsent
send_copies-one m [] remaining one fits bounded = omega arith
send_copies-one m (r ∷ rs) remaining one fits bounded = elim (Bool-cases (is_unsent r)) [
  | inl gets ↦
      let left = subtract remaining (length m.buffer) in
      let h = rw gets at one in
      let (nothing, same) = send_copies-none m rs left (omega (arith, h)) in
      rw gets (omega (arith, nothing, same, subtract-le remaining (length m.buffer) fits bounded))
  | inr skips ↦ rw skips (send_copies-one m rs remaining (rw skips at one) fits bounded)
]

send_message-one :
    (status : MessageStatus) (remaining : ℕ)
    → unsent status.recipients ≤ 1
    → remaining < 2 ^ 64
    → payload (send_message status remaining).1 + (send_message status remaining).2 ≡ remaining
unfolding send_message
send_message-one status remaining one bounded =
    elim (Bool-cases (leb (length status.message.buffer) remaining)) [
      | inl fits ↦ rw fits (
          send_copies-one status.message status.recipients remaining one
            (leb→le (length status.message.buffer) remaining fits) bounded)
      | inr big ↦ rw big (omega arith)
    ]

send_queue-one :
    (queue : List MessageStatus) (remaining : ℕ)
    → All (λ status. unsent status.recipients ≤ 1) queue
    → remaining < 2 ^ 64
    → payload (send_queue queue remaining).1 ≤ remaining
unfolding send_queue
send_queue-one [] remaining all bounded = omega arith
send_queue-one (status ∷ queue) remaining (one, others) bounded =
    let step = send_message-one status remaining one bounded in
    let left = (send_message status remaining).2 in
    elim (Bool-cases (left == 0)) [
      | inl done ↦ rw done (omega (arith, step))
      | inr more ↦ rw more (
          omega (
            arith,
            step,
            send_queue-one queue left others (omega (arith, step)),
            payload-append (send_message status remaining).1 (send_queue queue left).1,
          ))
    ]

-- Where every message of the queue has at most one recipient that it was not sent to, the messages
-- that are given out at once carry at most 1024 bytes.
pub get_messages_for_adapter-payload :
    (t : TransmissionHandler)
    → All (λ status. unsent status.recipients ≤ 1) t.queue
    → payload (get_messages_for_adapter t).1 ≤ 1024
unfolding get_messages_for_adapter
get_messages_for_adapter-payload t all = send_queue-one t.queue 1024 all (omega arith)
