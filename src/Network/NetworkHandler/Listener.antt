-- ===== src/Network/NetworkHandler/Listener.antt =====
-- network/network_handler.cpp, process_adapter, with the clients of network/udp_client.cpp: what a
-- client that is started receives.
use discnet.Common.{
  ℕ, zero, suc, ◌+◌, ◌*◌, ◌≡◌, refl, ap, subst, sym, ◌∙◌, inl, inr, arith, ltb, Bool, Bool-cases,
  if◌then◌else◌, All, [], Option, some, some-injective, map-some,
}
use discnet.Network.NetworkHandler.{UdpInfo}
use discnet.Network.UdpClient.{
  Socket, UdpClient, Opened, opened, refused, thrown, new_client, call, receive, close, open_socket,
}
use discnet.Network.UdpClient.Opening.{open_socket_cases}
use discnet.Network.UdpClient.Listening.{IsListener, Reach, Reach-IsListener}
use discnet.Network.NetworkHandler.Starting.{started, retry_loop, started_of, fuel, process_adapter}

-- What `open` leaves: a client with one receive operation where it is open, and else with none.
abbrev pending_of : Opened → ℕ
pending_of opened = 1
pending_of refused = 0
pending_of thrown = 0

record IsLeft (info : UdpInfo) (r : Opened × UdpClient) : Type 0 where
  pub same_info : r.1.info ≡ info
  pub pending : r.1.pending ≡ pending_of r.0
  pub received : r.1.received ≡ []

open_socket-IsLeft :
    (s : Socket) (info : UdpInfo) (c : UdpClient)
    → c.info ≡ info
    → c.pending ≡ 0
    → c.received ≡ []
    → IsLeft info (open_socket s c)
unfolding receive close call
open_socket-IsLeft s info c same idle nothing = elim (open_socket_cases s c) [
  | inl (succeed, e) ↦
      subst (IsLeft info) (sym e)
        (record { same_info = same; pending = omega arith; received = nothing })
  | inr (f, inl (answer, e)) ↦
      subst (IsLeft info) (sym e) (record { same_info = same; pending = idle; received = nothing })
  | inr (f, inr (join, e)) ↦
      subst (IsLeft info) (sym e) (record { same_info = same; pending = idle; received = nothing })
]

retry_loop-IsLeft :
    (s : Socket) (clock : ℕ → ℕ) (timeout : ℕ) (info : UdpInfo) (f i : ℕ) (r : Opened × UdpClient)
    (n : ℕ) (q : Opened × UdpClient)
    → IsLeft info r
    → retry_loop s clock timeout f i r ≡ some (n, q)
    → IsLeft info q
unfolding retry_loop
retry_loop-IsLeft s clock timeout info zero i r n q left e = absurd (cc e)
retry_loop-IsLeft s clock timeout info (suc f) i (opened, c) n q left e =
    subst (λ k. IsLeft info k.1) (some-injective e) left
retry_loop-IsLeft s clock timeout info (suc f) i (thrown, c) n q left e =
    subst (λ k. IsLeft info k.1) (some-injective e) left
retry_loop-IsLeft s clock timeout info (suc f) i (refused, c) n q left e =
    elim (Bool-cases (ltb (clock i) timeout)) [
      | inl before ↦
          retry_loop-IsLeft s clock timeout info f (suc i) (open_socket s c) n q
            (open_socket-IsLeft s info c left.same_info left.pending left.received)
            (sym (ap choose before) ∙ e)
      | inr late ↦ subst (λ k. IsLeft info k.1) (some-injective (sym (ap choose late) ∙ e)) left
    ]
  where
    choose : Bool → Option (ℕ × (Opened × UdpClient))
    choose b =
        if b then retry_loop s clock timeout f (suc i) (open_socket s c) else some (i, (refused, c))

started_of-started :
    (r : Opened) (c e : UdpClient) → started_of r c ≡ started e → (r ≡ opened) × (c ≡ e)
unfolding started_of
started_of-started opened c e h = (refl, cc h)
started_of-started refused c e h = absurd (cc h)
started_of-started thrown c e h = absurd (cc h)

-- A new client that is started listens, with one receive operation. Until an `open` of it answers true
-- again, whatever completes and whatever else is called, it never has a second one, it keeps its info,
-- and it gives every datagram with its multicast address as the recipient.
pub process_adapter-IsListener :
    (s : Socket) (clock : ℕ → ℕ) (second : ℕ) (info : UdpInfo) (n : ℕ) (e d : UdpClient)
    → process_adapter s clock second (new_client info) ≡ some (n, started e)
    → Reach e d
    → (e.pending ≡ 1) × IsListener info d
unfolding process_adapter new_client
process_adapter-IsListener s clock second info n e d h r =
    let (found, loop, ends) =
      map-some (λ r. (r.0, started_of r.1.0 r.1.1))
        (retry_loop s clock (clock 0 + 15 * second) fuel 0 (open_socket s (new_client info)))
        (n, started e) h in
    let (is_opened, same) = started_of-started found.1.0 found.1.1 e (ap (λ p. p.1) ends) in
    let left =
      retry_loop-IsLeft s clock (clock 0 + 15 * second) info fuel 0
        (open_socket s (new_client info)) found.0 found.1
        (open_socket-IsLeft s info (new_client info) refl refl refl) loop in
    let info_same = ap (λ (c : UdpClient). c.info) (sym same) ∙ left.same_info in
    let listening =
      ap (λ (c : UdpClient). c.pending) (sym same) ∙ left.pending ∙ ap pending_of is_opened in
    let nothing = ap (λ (c : UdpClient). c.received) (sym same) ∙ left.received in
    (
      listening,
      Reach-IsListener info
          (record {
            same_info = info_same;
            one_pending = omega arith;
            recipients = subst (All (λ r. r.recipient ≡ info.multicast)) (sym nothing) tt;
          })
          r,
    )
