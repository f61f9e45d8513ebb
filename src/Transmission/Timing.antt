-- ===== src/Transmission/Timing.antt =====
-- When a node announces itself.
use discnet.Common.{◌≤◌, inl, inr, Bool-cases, refl, ℕ, ◌+◌, ◌<◌, ◌≡◌, ◌↔◌, arith, true, false}
use discnet.Host.{Host}
use discnet.Network.NetworkHandler.{NetworkHandler}
use discnet.Adapters.{AdapterManager}
use discnet.Routes.Manager.{RouteManager}
use discnet.Transmission.{TransmissionHandler, is_due, update}

-- An update transmits exactly when more than the interval has passed since the last one that did;
-- the second of the two tests adds nothing to the first.
pub is_due_iff :
    (t : TransmissionHandler) (now : ℕ)
    → (is_due t now ≡ true) ↔ (t.last_discovery + t.interval < now)
unfolding is_due
is_due_iff t now = ground arith

-- After an update that transmits, no update within the interval transmits again or changes anything,
-- whatever the adapters and routes are then.
pub update-update_soon :
    (h : Host) (adapters adapters' : AdapterManager) (routes routes' : RouteManager) (now later : ℕ)
    (t : TransmissionHandler) (network : NetworkHandler)
    → is_due t now ≡ true
    → later ≤ now + t.interval
    → update h adapters' routes' later (update h adapters routes now (t, network))
      ≡ update h adapters routes now (t, network)
unfolding update
update-update_soon h adapters adapters' routes routes' now later t network due soon =
    rw (due, quiet) refl
  where
    quiet : is_due (record t { last_discovery = now }) later ≡ false
    quiet = elim (Bool-cases (is_due (record t { last_discovery = now }) later)) [
      | inl again ↦
          let passed = (is_due_iff (record t { last_discovery = now }) later).0 again in
          absurd (omega (arith, passed))
      | inr e ↦ e
    ]
