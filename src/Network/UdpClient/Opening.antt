-- ===== src/Network/UdpClient/Opening.antt =====
-- How `open` of network/udp_client.cpp ends.
use discnet.Common.{
  ◌+◌, ◌≢◌, ◌≡◌, refl, ap, sym, subst, ◌∙◌, ◌⊎◌, inl, inr, Bool, true, false, Bool-cases,
  if◌then◌else◌, List, [], ◌∷◌, ◌++◌, append_assoc, append-nil, All, All-middle,
}
use discnet.Network.NetworkHandler.{UdpInfo}
use discnet.Network.UdpClient.{
  Call, join_group, Socket, UdpClient, Opened, opened, refused, thrown, call, setup, attempt_all,
  internal_open, receive, close, open_result, open_socket,
}

abbrev pub calls_of : List (Call × Opened) → List Call
calls_of [] = []
calls_of ((k, failure) ∷ ks) = k ∷ calls_of ks

-- No call fails, behind those of `before`.
abbrev pub Succeed : Socket → List Call → List (Call × Opened) → Type 0
Succeed s before [] = Unit
Succeed s before ((k, failure) ∷ ks) = (s before k ≡ false) × Succeed s (before ++ (k ∷ [])) ks

abbrev with_calls : UdpClient → List Call → UdpClient
with_calls c ks = record c { calls = c.calls ++ ks }

-- The call `k` is the first of `ks` that fails.
pub record FirstFailure (s : Socket) (before : List Call) (ks : List (Call × Opened)) : Type 0 where
  pub earlier : List (Call × Opened)
  pub failed : Call
  pub failure : Opened
  pub later : List (Call × Opened)
  pub split : ks ≡ earlier ++ ((failed, failure) ∷ later)
  pub earlier-Succeed : Succeed s before earlier
  pub fails : s (before ++ calls_of earlier) failed ≡ true

attempt_all_cases :
    (s : Socket) (ks : List (Call × Opened)) (c : UdpClient)
    → (Succeed s c.calls ks × (attempt_all s ks c ≡ (opened, with_calls c (calls_of ks))))
      ⊎ ((f : FirstFailure s c.calls ks) × (attempt_all s ks c
            ≡ (f.failure, with_calls c (calls_of f.earlier ++ (f.failed ∷ [])))))
unfolding attempt_all call
attempt_all_cases s [] c =
    inl (tt, ap (λ ks. (opened, record c { calls = ks })) (sym (append-nil c.calls)))
attempt_all_cases s ((k, failure) ∷ ks) c = elim (Bool-cases (s c.calls k)) [
  | inl fails ↦ inr (
    record {
      earlier = [];
      failed = k;
      failure = failure;
      later = ks;
      split = refl;
      earlier-Succeed = tt;
      fails = ap (λ l. s l k) (append-nil c.calls) ∙ fails;
    },
    ap choose fails,
  )
  | inr works ↦ elim (attempt_all_cases s ks (call k c)) [
    | inl (succeed, e) ↦ inl (
      (works, succeed),
      ap choose works ∙ e ∙ ap (λ l. (opened, record c { calls = l })) (append_assoc c.calls _ _),
    )
    | inr (f, e) ↦ inr (
      record {
        earlier = (k, failure) ∷ f.earlier;
        failed = f.failed;
        failure = f.failure;
        later = f.later;
        split = ap (λ l. (k, failure) ∷ l) f.split;
        earlier-Succeed = (works, f.earlier-Succeed);
        fails = ap (λ l. s l f.failed) (sym (append_assoc c.calls _ _)) ∙ f.fails;
      },
      ap choose works
          ∙ e
          ∙ ap (λ l. (f.failure, record c { calls = l })) (append_assoc c.calls _ _),
    )
  ]
]
  where
    choose : Bool → Opened × UdpClient
    choose b = if b then (failure, call k c) else attempt_all s ks (call k c)

-- Only `join_group` throws, and a call that fails never gives an opened client.
failure_cases :
    (info : UdpInfo) (earlier : List (Call × Opened)) (k : Call) (failure : Opened)
    (later : List (Call × Opened))
    → setup info ≡ earlier ++ ((k, failure) ∷ later)
    → (failure ≡ refused) ⊎ ((failure ≡ thrown) × (k ≡ join_group info.multicast info.adapter))
unfolding setup
failure_cases info earlier k failure later e =
    All-middle Ends earlier (k, failure) later
      (subst (All Ends) e
        (inl refl, (inl refl, (inl refl, (inr (refl, refl), (inl refl, (inl refl, tt)))))))
  where
    Ends : Call × Opened → Type 0
    Ends r = (r.1 ≡ refused) ⊎ ((r.1 ≡ thrown) × (r.0 ≡ join_group info.multicast info.adapter))

-- Opening a client: either no call of the set-up fails, and then all of them are made and one
-- receive operation is begun; or the first that fails is the last of them, and the socket is closed
-- behind it, but where that is joining the group, whose exception leaves the socket as it is.
pub open_socket_cases :
    (s : Socket) (c : UdpClient)
    → (Succeed s c.calls (setup c.info)
        × (open_socket s c
            ≡ (opened, receive (record c { calls = c.calls ++ calls_of (setup c.info) }))))
      ⊎ ((f : FirstFailure s c.calls (setup c.info)) × (((f.failure ≡ refused)
              × (open_socket s c ≡ (
                refused,
                close (record c { calls = c.calls ++ (calls_of f.earlier ++ (f.failed ∷ [])) }),
              )))
            ⊎ ((f.failed ≡ join_group c.info.multicast c.info.adapter)
                × (open_socket s c ≡ (
                  thrown,
                  record c { calls = c.calls ++ (calls_of f.earlier ++ (f.failed ∷ [])) },
                )))))
unfolding open_socket internal_open open_result
open_socket_cases s c = elim (attempt_all_cases s (setup c.info) c) [
  | inl (succeed, e) ↦ inl (succeed, ap finish e)
  | inr (f, e) ↦ inr (
    f,
    elim (failure_cases c.info f.earlier f.failed f.failure f.later f.split) [
      | inl answer ↦ inl (answer, ap finish (e ∙ ap (λ r. (r, stopped f)) answer))
      | inr (answer, join) ↦ inr (join, ap finish (e ∙ ap (λ r. (r, stopped f)) answer))
    ],
  )
]
  where
    stopped : FirstFailure s c.calls (setup c.info) → UdpClient
    stopped f = record c { calls = c.calls ++ (calls_of f.earlier ++ (f.failed ∷ [])) }

    finish : Opened × UdpClient → Opened × UdpClient
    finish r = open_result r.0 r.1

-- What `open` does to a client's receive operations, its info and what it was given.
pub record IsOpened (r : Opened) (c d : UdpClient) : Type 0 where
  pub same_info : d.info ≡ c.info
  pub same_received : d.received ≡ c.received
  pub begun : r ≡ opened → d.pending ≡ c.pending + 1
  pub not_begun : r ≢ opened → d.pending ≡ c.pending

pub open_socket-IsOpened :
    (s : Socket) (c d : UdpClient) (r : Opened) → open_socket s c ≡ (r, d) → IsOpened r c d
unfolding receive close call
open_socket-IsOpened s c d r h =
    subst (λ (p : Opened × UdpClient). IsOpened p.0 c p.1) h
      (elim (open_socket_cases s c) [
        | inl (succeed, e) ↦ left _ e (record {
          same_info = refl;
          same_received = refl;
          begun = λ o. refl;
          not_begun = λ n. absurd (n refl);
        })
        | inr (f, inl (answer, e)) ↦ left _ e (record {
          same_info = refl;
          same_received = refl;
          begun = λ o. absurd (cc o);
          not_begun = λ n. refl;
        })
        | inr (f, inr (join, e)) ↦ left _ e (record {
          same_info = refl;
          same_received = refl;
          begun = λ o. absurd (cc o);
          not_begun = λ n. refl;
        })
      ])
  where
    left :
        (q : Opened × UdpClient)
        → open_socket s c ≡ q
        → IsOpened q.0 c q.1
        → IsOpened (open_socket s c).0 c (open_socket s c).1
    left q e i = subst (λ (p : Opened × UdpClient). IsOpened p.0 c p.1) (sym e) i
