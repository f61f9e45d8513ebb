-- ===== src/Network/Messages/Decoder.antt =====
-- The shape of the decode functions of network/messages: they move the read offset of a buffer, and
-- return a value or an error (`std::expected<T, std::string>`; an error is kept as the data that
-- its text is formatted from).
pub mod Readers
use discnet.Common.{
  ℕ, ◌+◌, zero, suc, ◌≤◌, ◌<◌, ◌≡◌, refl, ap, ◌∙◌, arith, List, [], ◌∷◌, ◌++◌, append_assoc, All,
  ◌^◌, length, length-append,
}
use discnet.Host.{Host, IsHost, memory, length-memory, load-memory}
use discnet.Network.Buffer.{Buffer, read, read_buffer}
use discnet.Network.Buffer.Reading.{Holds, advance, advance-Holds, read_enough, read_buffer_enough}

pub data Error : Type 0 where
  short_discovery_message short_data_message short_header : Error
  packet_header_missing packet_data_missing : Error
  checksum_failed : ℕ → ℕ → Error
  header_failed : ℕ → Error → Error
  message_failed : ℕ → Error → Error
  unknown_message_type : ℕ → Error

pub data Expected {ℓ} (A : Type ℓ) : Type ℓ where
  value : A → Expected A
  unexpected : Error → Expected A

abbrev pub error_of {ℓ} : {A : Type ℓ} → (Error → Error) → Expected A → Expected A
error_of g (value a) = value a
error_of g (unexpected e) = unexpected (g e)

abbrev pub M : Type 0 → Type 0
M A = Buffer → Expected A × Buffer

abbrev pub pure : {A : Type 0} → A → M A
pure a b = (value a, b)

abbrev pub fail : {A : Type 0} → Error → M A
fail e b = (unexpected e, b)

abbrev pub continue : {A B : Type 0} → Expected A → (A → M B) → M B
continue (value a) f b = f a b
continue (unexpected e) f b = (unexpected e, b)

infixl 5 ◌>>=◌
abbrev pub ◌>>=◌ : {A B : Type 0} → M A → (A → M B) → M B
◌>>=◌ m f b = continue (m b).0 f (m b).1

-- `network_to_native(buffer.read_uint16())`, and the same of other widths.
unfoldable pub read_word : Host → ℕ → M ℕ
read_word h w b = (value (h.big_to_native w (read w b).0), (read w b).1)

unfoldable pub read_bytes : ℕ → M (List ℕ)
read_bytes n b = (value (read_buffer n b).0, (read_buffer n b).1)

-- A loop that reads `n` elements and pushes each to the back of a vector.
unfoldable pub repeat : {A : Type 0} → ℕ → M A → M (List A)
repeat zero m = pure []
repeat (suc n) m = do x ← m; xs ← repeat n m; pure (x ∷ xs)

-- The result `r` of a call on `b`: the value `a`, with `rest` still to be read.
pub record Parsed {A : Type 0} (b : Buffer) (r : Expected A × Buffer) (a : A) (rest : List ℕ)
    : Type 0 where
  pub result : r.0 ≡ value a
  pub holds : Holds r.1 rest
  pub same_bytes : r.1.bytes ≡ b.bytes
  pub same_offset : r.1.write_offset ≡ b.write_offset

-- Wherever the unread bytes begin with `xs` and `n` more, `m` returns `a` and consumes `xs`.
abbrev pub Parses : {A : Type 0} → ℕ → M A → List ℕ → A → Type 0
Parses n m xs a =
    (b : Buffer) (rest : List ℕ) → n ≤ length rest → Holds b (xs ++ rest) → Parsed b (m b) a rest

pub Parses-pure : {A : Type 0} (n : ℕ) (a : A) → Parses n (pure a) [] a
Parses-pure n a b rest more h = record {
  result = refl;
  holds = h;
  same_bytes = refl;
  same_offset = refl;
}

-- The first part may want `k` bytes behind it, which the second part's bytes can be.
pub Parses-bind_lead :
    {A B : Type 0} (k n : ℕ) (m : M A) (f : A → M B) (xs ys : List ℕ) (a : A) (c : B)
    → k ≤ length ys + n
    → Parses k m xs a
    → Parses n (f a) ys c
    → Parses n (m >>= f) (xs ++ ys) c
Parses-bind_lead k n m f xs ys a c lead first second b rest more h =
    let p =
      first b (ys ++ rest) (omega (arith, length-append ys rest))
        (rw (← append_assoc xs ys rest) h) in
    let q = second (m b).1 rest more p.holds in
    rw (p.result) (record {
      result = q.result;
      holds = q.holds;
      same_bytes = q.same_bytes ∙ p.same_bytes;
      same_offset = q.same_offset ∙ p.same_offset;
    })

pub Parses-bind :
    {A B : Type 0} (n : ℕ) (m : M A) (f : A → M B) (xs ys : List ℕ) (a : A) (c : B)
    → Parses n m xs a
    → Parses n (f a) ys c
    → Parses n (m >>= f) (xs ++ ys) c
Parses-bind n m f xs ys a c first second =
    Parses-bind_lead n n m f xs ys a c (omega arith) first second

-- An error with what the caller adds to it.
unfoldable pub map_error : {A : Type 0} → (Error → Error) → M A → M A
map_error g m b = (error_of g (m b).0, (m b).1)

pub Parses-map_error :
    {A : Type 0} (n : ℕ) (g : Error → Error) (m : M A) (xs : List ℕ) (a : A)
    → Parses n m xs a
    → Parses n (map_error g m) xs a
unfolding map_error
Parses-map_error n g m xs a first b rest more h =
    let p = first b rest more h in
    record {
      result = ap (error_of g) p.result;
      holds = p.holds;
      same_bytes = p.same_bytes;
      same_offset = p.same_offset;
    }

-- A last part that reads nothing more.
pub Parses-then :
    {A B : Type 0} (n : ℕ) (m : M A) (f : A → M B) (xs : List ℕ) (a : A) (c : B)
    → Parses n m xs a
    → f a ≡ pure c
    → Parses n (m >>= f) xs c
Parses-then n m f xs a c first e b rest more h =
    let p = first b rest more h in
    rw (p.result, e)
      (record {
        result = refl;
        holds = p.holds;
        same_bytes = p.same_bytes;
        same_offset = p.same_offset;
      })

pub Parses-map :
    {A B : Type 0} (n : ℕ) (m : M A) (g : A → B) (xs : List ℕ) (a : A)
    → Parses n m xs a
    → Parses n (m >>= λ x. pure (g x)) xs (g a)
Parses-map n m g xs a first = Parses-then n m _ xs a (g a) first refl

-- A value in wire order: the memory of its big-endian conversion.
unfoldable pub word : Host → ℕ → ℕ → List ℕ
word h w v = memory w (h.native_to_big w v)

pub length-word : (h : Host) (w v : ℕ) → length (word h w v) ≡ w
unfolding word
length-word h w v = length-memory w (h.native_to_big w v)

abbrev pub flat : {A : Type 0} → (A → List ℕ) → List A → List ℕ
flat f [] = []
flat f (x ∷ xs) = f x ++ flat f xs

pub Parses-repeat :
    {A : Type 0} (n : ℕ) (m : M A) (wire : A → List ℕ) (P : A → Type 0) (xs : List A)
    → ((a : A) → P a → Parses n m (wire a) a)
    → All P xs
    → Parses n (repeat (length xs) m) (flat wire xs) xs
unfolding repeat
Parses-repeat n m wire P [] each h = Parses-pure n []
Parses-repeat n m wire P (x ∷ xs) each h =
    Parses-bind n m _ (wire x) (flat wire xs) x (x ∷ xs) (each x h.0) (
      Parses-map n (repeat (length xs) m) (◌∷◌ x) (flat wire xs) xs
        (Parses-repeat n m wire P xs each h.1))

pub Parses-word :
    (h : Host) (n w v : ℕ)
    → IsHost h
    → 0 < w
    → v < 256 ^ w
    → Parses n (read_word h w) (word h w v) v
unfolding read_word word
Parses-word h n w v laws pos fits b rest more held =
    let e = read_enough b w (word h w v) rest pos (length-word h w v) held in
    record {
      result = ap value (
          ap (λ p. h.big_to_native w (p.0)) e
          ∙ ap (h.big_to_native w) (load-memory w _ (laws.native_to_big-lt w v fits))
          ∙ laws.big_to_native-native_to_big w v fits);
      holds = rw e (advance-Holds b w (word h w v) rest (length-word h w v) held);
      same_bytes = rw e (unfold advance in refl);
      same_offset = rw e (unfold advance in refl);
    }

-- `read_buffer` needs a byte behind the span.
pub Parses-bytes : (n : ℕ) (xs : List ℕ) → 0 < n → Parses n (read_bytes (length xs)) xs xs
unfolding read_bytes
Parses-bytes n xs pos b rest more held =
    let e = read_buffer_enough b (length xs) xs rest refl (omega arith) held in
    record {
      result = ap value (ap (λ p. p.0) e);
      holds = rw e (advance-Holds b (length xs) xs rest refl held);
      same_bytes = rw e (unfold advance in refl);
      same_offset = rw e (unfold advance in refl);
    }
