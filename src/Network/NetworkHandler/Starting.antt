-- ===== src/Network/NetworkHandler/Starting.antt =====
-- network/network_handler.cpp, process_adapter: a client is opened, and opened again every second
-- until it is open or fifteen seconds have gone by.
use discnet.Common.{
  ℕ, zero, suc, ◌+◌, ◌*◌, ◌≤◌, ◌<◌, ◌≡◌, refl, ap, subst, ◌∙◌, arith, ltb, ltb→lt, lt→ltb, true,
  Bool-cases, inl, inr, if◌then◌else◌, Option, none, some,
}
use mathlib.Core.Option
use native.Mathlib.Nat.{lt_of_mul-lt-mul_left}
use discnet.Network.UdpClient.Opening.{open_socket-IsOpened}
use discnet.Network.UdpClient.{Socket, UdpClient, Opened, opened, refused, thrown, open_socket}

-- `network_client_result_t`: the client, or the error; an exception is what the future holds then.
pub data Started : Type 0 where
  started : UdpClient → Started
  failed : Started
  threw : Started

-- The loop, behind `retry_count` retries: what the last `open` answered, and the client. `clock` is
-- what the clock says at each of its readings; `none` stands for no fuel.
unfoldable pub retry_loop :
    Socket → (ℕ → ℕ) → ℕ → ℕ → ℕ → Opened × UdpClient → Option (ℕ × (Opened × UdpClient))
retry_loop s clock timeout zero retry_count r = none
retry_loop s clock timeout (suc fuel) retry_count (opened, c) = some (retry_count, (opened, c))
retry_loop s clock timeout (suc fuel) retry_count (thrown, c) = some (retry_count, (thrown, c))
retry_loop s clock timeout (suc fuel) retry_count (refused, c) =
    let rest = retry_loop s clock timeout fuel (suc retry_count) (open_socket s c) in
    if ltb (clock retry_count) timeout then rest else some (retry_count, (refused, c))

unfoldable pub started_of : Opened → UdpClient → Started
started_of opened c = started c
started_of refused c = failed
started_of thrown c = threw

abbrev pub fuel : ℕ
fuel = 16

-- The number of retries, and the result.
unfoldable pub process_adapter : Socket → (ℕ → ℕ) → ℕ → UdpClient → Option (ℕ × Started)
process_adapter s clock second c =
    Option.map (λ r. (r.0, started_of r.1.0 r.1.1))
      (retry_loop s clock (clock 0 + 15 * second) fuel 0 (open_socket s c))

-- A reading of the clock is a second after the one before: the thread sleeps in between.
pub record IsClock (clock : ℕ → ℕ) (second : ℕ) : Type 0 where
  pub sleeps : (n : ℕ) → clock n + second ≤ clock (suc n)

clock_lower :
    (clock : ℕ → ℕ) (second : ℕ) → IsClock clock second → (n : ℕ) → clock 0 + n * second ≤ clock n
clock_lower clock second laws zero = omega arith
clock_lower clock second laws (suc n) =
    let before = clock_lower clock second laws n in
    let step = laws.sleeps n in grind (arith, before, step)

retry_before :
    (clock : ℕ → ℕ) (second : ℕ)
    → IsClock clock second
    → (n : ℕ) → clock n < clock 0 + 15 * second
    → n < 15
retry_before clock second laws n h =
    let later = clock_lower clock second laws n in lt_of_mul-lt-mul_left second (omega arith)

retry_loop-total :
    (s : Socket) (clock : ℕ → ℕ) (second : ℕ) (laws : IsClock clock second) (f i : ℕ)
    (r : Opened × UdpClient)
    → 16 ≤ f + i
    → i ≤ 15
    → (n : ℕ) × (q : Opened × UdpClient) × (retry_loop s clock (clock 0 + 15 * second) f i r
        ≡ some (n, q))
      × (n ≤ 15)
unfolding retry_loop
retry_loop-total s clock second laws zero i r enough low = absurd (omega arith)
retry_loop-total s clock second laws (suc f) i (opened, c) enough low = (i, (opened, c), refl, low)
retry_loop-total s clock second laws (suc f) i (thrown, c) enough low = (i, (thrown, c), refl, low)
retry_loop-total s clock second laws (suc f) i (refused, c) enough low =
    elim (Bool-cases (ltb (clock i) (clock 0 + 15 * second))) [
      | inl before ↦
          let early = retry_before clock second laws i (ltb→lt _ _ before) in
          rw before (
            retry_loop-total s clock second laws f (suc i) (open_socket s c) (omega arith)
              (omega arith))
      | inr late ↦ rw late (i, (refused, c), refl, low)
    ]

-- With a clock that goes on by a second at least between two readings, starting a client comes to
-- an end, with fifteen retries at most.
pub process_adapter-total :
    (s : Socket) (clock : ℕ → ℕ) (second : ℕ) (c : UdpClient)
    → IsClock clock second
    → (n : ℕ) × (r : Started) × (process_adapter s clock second c ≡ some (n, r)) × (n ≤ 15)
unfolding process_adapter
process_adapter-total s clock second c laws =
    let (n, q, e, few) =
      retry_loop-total s clock second laws fuel 0 (open_socket s c) (omega arith) (omega arith) in
    (n, started_of q.0 q.1, ap (Option.map (λ r. (r.0, started_of r.1.0 r.1.1))) e, few)

-- `open` answers false `n` times in a row, from the client `c` on to the client `d`.
pub data Refused (s : Socket) : ℕ → UdpClient → UdpClient → Type 0 where
  not_yet : {c : UdpClient} → Refused s 0 c c
  once_more :
      {n : ℕ} {c d e : UdpClient}
      → open_socket s c ≡ (refused, d)
      → Refused s n d e
      → Refused s (suc n) c e

retry_loop-Refused :
    (s : Socket) (clock : ℕ → ℕ) (timeout : ℕ) {n : ℕ} {c d : UdpClient} (e : UdpClient) (f i : ℕ)
    → Refused s n c d
    → open_socket s d ≡ (opened, e)
    → ((j : ℕ) → j < n → clock (i + j) < timeout)
    → n < f
    → retry_loop s clock timeout f i (open_socket s c) ≡ some (i + n, (opened, e))
unfolding retry_loop
retry_loop-Refused s clock timeout e zero i r works in_time enough = absurd (omega arith)
retry_loop-Refused s clock timeout e (suc f) i not_yet works in_time enough =
    rw works (ap (λ k. some (k, (opened, e))) (omega arith))
retry_loop-Refused s clock timeout e (suc f) i (once_more {n = n} again r) works in_time enough =
    let onward = λ (j : ℕ) (h : j < n).
      subst (λ k. clock k < timeout) (shift j) (in_time (suc j) (omega arith)) in
    rw (again, at_once)
      (retry_loop-Refused s clock timeout e f (suc i) r works onward (omega arith)
        ∙ ap (λ k. some (k, (opened, e))) (omega arith))
  where
    at_once : ltb (clock i) timeout ≡ true
    at_once = lt→ltb _ _ (subst (λ k. clock k < timeout) (omega arith) (in_time 0 (omega arith)))

    shift : (j : ℕ) → i + suc j ≡ suc i + j
    shift j = omega arith

Refused-pending : {s : Socket} {n : ℕ} {c d : UdpClient} → Refused s n c d → d.pending ≡ c.pending
Refused-pending not_yet = refl
Refused-pending {s = s} (once_more {c = c} {d = d} again r) =
    Refused-pending r ∙ (open_socket-IsOpened s c d refused again).not_begun (λ e. absurd (cc e))

-- A client whose `open` answers false a number of times, all of them before the fifteen seconds are
-- over, and true at the next, is started after that many retries; it has one receive operation more
-- than before, which is its only one if it had none.
pub process_adapter-started :
    (s : Socket) (clock : ℕ → ℕ) (second n : ℕ) (c d e : UdpClient)
    → IsClock clock second
    → Refused s n c d
    → open_socket s d ≡ (opened, e)
    → ((j : ℕ) → j < n → clock j < clock 0 + 15 * second)
    → (process_adapter s clock second c ≡ some (n, started e)) × (e.pending ≡ c.pending + 1)
unfolding process_adapter started_of
process_adapter-started s clock second n c d e laws r works in_time = (
  ap (Option.map (λ r. (r.0, started_of r.1.0 r.1.1))) (
      retry_loop-Refused s clock (clock 0 + 15 * second) e fuel 0 r works
        (λ j h. subst (λ k. clock k < clock 0 + 15 * second) (zero_add j) (in_time j h))
        (enough n in_time)
      ∙ ap (λ k. some (k, (opened, e))) (omega arith)),
  (open_socket-IsOpened s d e opened works).begun refl ∙ ap (λ k. k + 1) (Refused-pending r),
)
  where
    zero_add : (j : ℕ) → j ≡ 0 + j
    zero_add j = omega arith

    enough : (n : ℕ) → ((j : ℕ) → j < n → clock j < clock 0 + 15 * second) → n < fuel
    enough zero in_time = omega arith
    enough (suc n) in_time =
        let early = retry_before clock second laws n (in_time n (omega arith)) in omega arith
