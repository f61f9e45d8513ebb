-- ===== src/Network/Buffer/Reading.antt =====
-- What the read calls of network/buffer.cpp return, in terms of the bytes not yet read.
use discnet.Common.{
  Bool-cases, inl, inr, ◌⊎◌, leb, ltb, leb→le, leb→lt, ltb→lt, ltb→le, take-append-drop, ℕ, ◌+◌,
  ◌≤◌, ◌<◌, ◌≡◌, refl, sym, ap, ◌∙◌, arith, List, [], ◌++◌, length, length-append, length-take,
  length-drop, take, drop, take-append, drop-append, drop-drop, take-drop-take,
}
use discnet.Host.{load}
use discnet.Network.Buffer.{Buffer, data_span, read, read_buffer, bytes_left_to_read, reset_read}

abbrev pub unread : Buffer → List ℕ
unread b = drop b.read_offset (take b.write_offset b.bytes)

-- The buffer has the bytes `xs` still to be read.
pub record Holds (b : Buffer) (xs : List ℕ) : Type 0 where
  pub read_within : b.read_offset ≤ b.write_offset
  pub write_within : b.write_offset ≤ length b.bytes
  pub holds : unread b ≡ xs

unfoldable pub advance : ℕ → Buffer → Buffer
advance n b = record b { read_offset = b.read_offset + n }

pub Holds-length :
    (b : Buffer) (xs : List ℕ) → Holds b xs → b.read_offset + length xs ≡ b.write_offset
Holds-length b xs h = omega (
  arith,
  ap length h.holds,
  length-drop b.read_offset (take b.write_offset b.bytes),
  length-take b.write_offset b.bytes,
)

-- `bytes_left_to_read` counts them.
pub bytes_left-Holds : (b : Buffer) (xs : List ℕ) → Holds b xs → bytes_left_to_read b ≡ length xs
unfolding bytes_left_to_read
bytes_left-Holds b xs h = ground (arith, Holds-length b xs h)

take-unread :
    (b : Buffer) (n : ℕ) (xs rest : List ℕ)
    → length xs ≡ n
    → Holds b (xs ++ rest)
    → take n (drop b.read_offset b.bytes) ≡ xs
take-unread b n xs rest e h =
    sym (take-drop-take n b.read_offset b.write_offset b.bytes within)
    ∙ ap (take n) h.holds
    ∙ take-append n xs rest e
  where
    within : b.read_offset + n ≤ b.write_offset
    within = omega (arith, Holds-length b (xs ++ rest) h, length-append xs rest)

pub advance-Holds :
    (b : Buffer) (n : ℕ) (xs rest : List ℕ)
    → length xs ≡ n
    → Holds b (xs ++ rest)
    → Holds (advance n b) rest
unfolding advance
advance-Holds b n xs rest e h = record {
  read_within = omega (arith, Holds-length b (xs ++ rest) h, length-append xs rest);
  write_within = h.write_within;
  holds =
      sym (drop-drop n b.read_offset (take b.write_offset b.bytes))
      ∙ ap (drop n) h.holds
      ∙ drop-append n xs rest e;
}

-- A read of a value takes its bytes, when they are there.
pub read_enough :
    (b : Buffer) (w : ℕ) (xs rest : List ℕ)
    → 0 < w
    → length xs ≡ w
    → Holds b (xs ++ rest)
    → read w b ≡ (load xs, advance w b)
unfolding read advance
read_enough b w xs rest pos e h = ground (
  arith,
  Holds-length b (xs ++ rest) h,
  length-append xs rest,
  ap load (take-unread b w xs rest e h),
)

-- With too few bytes the value is 0 and nothing is consumed.
pub read_short : (b : Buffer) (w : ℕ) (xs : List ℕ) → length xs < w → Holds b xs → read w b ≡ (0, b)
unfolding read
read_short b w xs short h = ground (arith, Holds-length b xs h)

pub read_buffer_enough :
    (b : Buffer) (n : ℕ) (xs rest : List ℕ)
    → length xs ≡ n
    → 0 < length rest
    → Holds b (xs ++ rest)
    → read_buffer n b ≡ (xs, advance n b)
unfolding read_buffer advance
read_buffer_enough b n xs rest e more h =
    ground
      (arith, Holds-length b (xs ++ rest) h, length-append xs rest, take-unread b n xs rest e h)

-- A span of all bytes that are left, or of more, comes back empty, and nothing is consumed.
pub read_buffer_refused :
    (b : Buffer) (n : ℕ) (xs : List ℕ) → length xs ≤ n → Holds b xs → read_buffer n b ≡ ([], b)
unfolding read_buffer
read_buffer_refused b n xs short h = ground (arith, Holds-length b xs h)

-- A value read on every branch: its bytes are taken when they are all there, and otherwise the
-- result is 0 and the buffer stays as it is.
pub read_cases :
    (b : Buffer) (w : ℕ) (xs : List ℕ)
    → 0 < w
    → Holds b xs
    → (w ≤ length xs)
        × (read w b ≡ (load (take w xs), advance w b))
        × Holds (advance w b) (drop w xs)
      ⊎ (length xs < w) × (read w b ≡ (0, b))
read_cases b w xs pos h = elim (Bool-cases (leb w (length xs))) [
  | inl enough ↦
      let fits = leb→le w (length xs) enough in
      let e : length (take w xs) ≡ w = omega (arith, length-take w xs) in
      let held = rw (sym (take-append-drop w xs)) at h in
      inl (
        fits,
        read_enough b w (take w xs) (drop w xs) pos e held,
        advance-Holds b w (take w xs) (drop w xs) e held,
      )
  | inr short ↦ let few = leb→lt w (length xs) short in inr (few, read_short b w xs few h)
]

-- A span on every branch: it is taken only when at least one more byte is left behind it, and
-- otherwise the result is empty and the buffer stays as it is.
pub read_buffer_cases :
    (b : Buffer) (n : ℕ) (xs : List ℕ)
    → Holds b xs
    → (n < length xs)
        × (read_buffer n b ≡ (take n xs, advance n b))
        × Holds (advance n b) (drop n xs)
      ⊎ (length xs ≤ n) × (read_buffer n b ≡ ([], b))
read_buffer_cases b n xs h = elim (Bool-cases (ltb n (length xs))) [
  | inl enough ↦
      let fits = ltb→lt n (length xs) enough in
      let e : length (take n xs) ≡ n = omega (arith, length-take n xs) in
      let held = rw (sym (take-append-drop n xs)) at h in
      inl (
        fits,
        read_buffer_enough b n (take n xs) (drop n xs) e (omega (arith, length-drop n xs)) held,
        advance-Holds b n (take n xs) (drop n xs) e held,
      )
  | inr short ↦ let few = ltb→le n (length xs) short in inr (few, read_buffer_refused b n xs few h)
]

pub reset_read-Holds :
    (b : Buffer) → b.write_offset ≤ length b.bytes → Holds (reset_read b) (data_span b)
unfolding reset_read data_span
reset_read-Holds b h = record { read_within = omega arith; write_within = h; holds = refl }

-- A buffer that was only read, from its start, is the same again once it is rewound.
pub reset_read-eq :
    (b c : Buffer)
    → b.read_offset ≡ 0
    → c.bytes ≡ b.bytes
    → c.write_offset ≡ b.write_offset
    → reset_read c ≡ b
unfolding reset_read
reset_read-eq b c start same_bytes same_offset = ground arith
