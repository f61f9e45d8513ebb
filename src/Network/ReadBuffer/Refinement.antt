-- ===== src/Network/ReadBuffer/Refinement.antt =====
-- network/read_buffer.cpp against the reading half of network/buffer.cpp.
use discnet.Common.{
  ℕ, ◌+◌, ◌-◌, ◌≤◌, ◌≡◌, refl, ap, arith, inl, inr, Bool-cases, leb, ltb, leb→le, leb→lt, ltb→lt,
  List, [], ◌∷◌, length, length-take, take, take-drop-take,
}
use discnet.Network.Buffer.{Buffer, read, read_buffer, reset_read, data_span}
use discnet.Network.ReadBuffer.{ReadBuffer, read_view, read_span, reset_view}

-- The reading calls.
pub data Read : Type 0 where
  value_of : ℕ → Read
  span_of : ℕ → Read
  rewind : Read

-- What they return.
pub data Output : Type 0 where
  value : ℕ → Output
  span : List ℕ → Output
  nothing : Output

unfoldable pub read_from : Read → Buffer → Output × Buffer
read_from (value_of w) b = let r = read w b in (value r.0, r.1)
read_from (span_of n) b = let r = read_buffer n b in (span r.0, r.1)
read_from rewind b = (nothing, reset_read b)

unfoldable pub view_from : Read → ReadBuffer → Output × ReadBuffer
view_from (value_of w) b = let r = read_view w b in (value r.0, r.1)
view_from (span_of n) b = let r = read_span n b in (span r.0, r.1)
view_from rewind b = (nothing, reset_view b)

unfoldable pub reads : List Read → Buffer → List Output
reads [] b = []
reads (c ∷ cs) b = let r = read_from c b in r.0 ∷ reads cs r.1

unfoldable pub views : List Read → ReadBuffer → List Output
views [] b = []
views (c ∷ cs) b = let r = view_from c b in r.0 ∷ views cs r.1

-- `read_buffer_t(buffer.data())`, from where the buffer stands.
unfoldable pub view : Buffer → ReadBuffer
view b = record { read_offset = b.read_offset; bytes = data_span b }

length-written :
    (b : Buffer)
    → b.write_offset ≤ length b.bytes
    → length (take b.write_offset b.bytes) ≡ b.write_offset
length-written b within = omega (arith, length-take b.write_offset b.bytes)

read_view-view :
    (w : ℕ) (b : Buffer)
    → b.write_offset ≤ length b.bytes
    → read_view w (view b) ≡ ((read w b).0, view (read w b).1)
unfolding view data_span read_view read
read_view-view w b within =
    rw (length-written b within) (elim (Bool-cases (leb b.write_offset b.read_offset)) [
      | inl done ↦ rw done refl
      | inr more ↦ elim (Bool-cases (leb w (b.write_offset - b.read_offset))) [
        | inr short ↦ rw (more, short) refl
        | inl enough ↦
            let fits : b.read_offset + w ≤ b.write_offset = omega (
              arith,
              leb→lt b.write_offset b.read_offset more,
              leb→le w (b.write_offset - b.read_offset) enough,
            ) in
            rw (more, enough, take-drop-take w b.read_offset b.write_offset b.bytes fits) refl
      ]
    ])

read_span-view :
    (n : ℕ) (b : Buffer)
    → b.write_offset ≤ length b.bytes
    → read_span n (view b) ≡ ((read_buffer n b).0, view (read_buffer n b).1)
unfolding view data_span read_span read_buffer
read_span-view n b within =
    rw (length-written b within) (elim (Bool-cases (leb b.write_offset b.read_offset)) [
      | inl done ↦ rw done refl
      | inr more ↦ elim (Bool-cases (ltb n (b.write_offset - b.read_offset))) [
        | inr short ↦ rw (more, short) refl
        | inl enough ↦
            let fits : b.read_offset + n ≤ b.write_offset = omega (
              arith,
              leb→lt b.write_offset b.read_offset more,
              ltb→lt n (b.write_offset - b.read_offset) enough,
            ) in
            rw (more, enough, take-drop-take n b.read_offset b.write_offset b.bytes fits) refl
      ]
    ])

-- The call on the view returns the same, and ends in the view of the new buffer.
view_from-view :
    (c : Read) (b : Buffer)
    → b.write_offset ≤ length b.bytes
    → view_from c (view b) ≡ ((read_from c b).0, view (read_from c b).1)
unfolding view_from read_from
view_from-view (value_of w) b within = rw (read_view-view w b within) refl
view_from-view (span_of n) b within = rw (read_span-view n b within) refl
view_from-view rewind b within = unfold view reset_view reset_read data_span in refl

-- No call moves what was written.
read_from-written :
    (c : Read) (b : Buffer)
    → ((read_from c b).1.write_offset ≡ b.write_offset) × ((read_from c b).1.bytes ≡ b.bytes)
unfolding read_from read read_buffer reset_read
read_from-written (value_of w) b = (ground arith, ground arith)
read_from-written (span_of n) b = (ground arith, ground arith)
read_from-written rewind b = (refl, refl)

-- Any sequence of calls returns the same from the view of what a buffer holds, and from the buffer.
pub views-reads :
    (cs : List Read) (b : Buffer) → b.write_offset ≤ length b.bytes → views cs (view b) ≡ reads cs b
unfolding views reads
views-reads [] b within = refl
views-reads (c ∷ cs) b within =
    let (offset, bytes) = read_from-written c b in
    let kept : (read_from c b).1.write_offset ≤ length (read_from c b).1.bytes =
      rw (offset, bytes) within in
    rw (view_from-view c b within)
      (ap (λ os. (read_from c b).0 ∷ os) (views-reads cs (read_from c b).1 kept))
