-- ===== src/Network/UdpClient/Tests.antt =====
-- A client on an adapter, with a socket on which one call fails or none.
use discnet.Common.{ℕ, ◌≡◌, refl, arith, ◌⊎◌, Bool, true, false, List, [], ◌∷◌, ◌++◌}
use discnet.Network.NetworkHandler.{UdpInfo}
use discnet.Network.UdpClient.{
  Call, join_group, Socket, UdpClient, opened, refused, thrown, other_error, new_client, call,
  setup, receive, close, internal_open, attempt_all, open_result, open_socket,
}
use discnet.Network.UdpClient.Opening.{Succeed, FirstFailure, calls_of, open_socket_cases}
use discnet.Network.UdpClient.Listening.{complete, closes, here, next, IsListener, complete-silent}

abbrev info : UdpInfo
info = record { adapter = 3232235786; multicast = 4026531841; port = 1337 }

abbrev is_join : Call → Bool
is_join (join_group multicast adapter) = true
is_join k = false

-- No call fails, and joining the group fails.
abbrev working : Socket
working calls k = false

abbrev no_group : Socket
no_group calls k = is_join k

abbrev listening : UdpClient
listening = record { info = info; calls = []; pending = 1; received = [] }

group_fails : (open_socket no_group (new_client info)).0 ≡ thrown
unfolding open_socket internal_open attempt_all setup open_result new_client call
group_fails = refl

open_socket_cases_example :
    (Succeed no_group [] (setup info)
      × (open_socket no_group (record { info = info; calls = []; pending = 0; received = [] }) ≡ (
        opened,
        receive (record { info = info; calls = calls_of (setup info); pending = 0; received = [] }),
      )))
    ⊎ ((f : FirstFailure no_group [] (setup info)) × (((f.failure ≡ refused)
            × (open_socket no_group (record { info = info; calls = []; pending = 0; received = [] })
                ≡ (
                  refused,
                  close (record {
                    info = info;
                    calls = calls_of f.earlier ++ (f.failed ∷ []);
                    pending = 0;
                    received = [];
                  }),
                )))
          ⊎ ((f.failed ≡ join_group 4026531841 3232235786)
              × (open_socket no_group
                    (record { info = info; calls = []; pending = 0; received = [] })
                  ≡ (
                    thrown,
                    record {
                      info = info;
                      calls = calls_of f.earlier ++ (f.failed ∷ []);
                      pending = 0;
                      received = [];
                    },
                  )))))
open_socket_cases_example =
    open_socket_cases no_group (record { info = info; calls = []; pending = 0; received = [] })

abbrev datagrams : List (List ℕ × ℕ)
datagrams = (1 ∷ 2 ∷ [], 3232235787) ∷ ([], 3232235788) ∷ []

listening-IsListener : IsListener info listening
listening-IsListener = record { same_info = refl; one_pending = omega arith; recipients = tt }

complete-silent_example : (close (complete other_error listening)).received ≡ []
complete-silent_example =
    complete-silent listening (close (complete other_error listening)) other_error refl
      (λ bytes sender e. cc e) (next here (closes (complete other_error listening)))
