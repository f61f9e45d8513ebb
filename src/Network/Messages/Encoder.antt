-- ===== src/Network/Messages/Encoder.antt =====
-- The shape of the encode functions of network/messages: they append to a buffer, and most ignore
-- what a single append answers.
use discnet.Common.{
  ℕ, ◌≤◌, refl, sym, arith, List, [], ◌∷◌, ◌++◌, append-nil, Bool, true, length, length-append,
}
use discnet.Host.{Host}
use discnet.Network.Buffer.{Buffer, data_span, append, append_span, remaining_bytes}
use discnet.Network.Buffer.Writing.{Written, Written-trans, append-Written, append_span-Written}
use discnet.Network.Messages.Decoder.{word, length-word, flat}

abbrev pub W : Type 0
W = Buffer → Bool × Buffer

-- One statement after another; the answer of the first is not looked at.
infixl 5 ◌>>◌
abbrev pub ◌>>◌ : W → W → W
◌>>◌ e f b = f (e b).1

abbrev pub return_true : W
return_true b = (true, b)

-- `buffer.append(native_to_network(v))` of a width.
unfoldable pub append_word : Host → ℕ → ℕ → W
append_word h w v b = append w (h.native_to_big w v) b

-- A loop over a container.
unfoldable pub each : {A : Type 0} → (A → W) → List A → W
each f [] = return_true
each f (x ∷ xs) = do f x; each f xs

-- Where `xs` fits, the call appends it.
abbrev pub Writes : W → List ℕ → Type 0
Writes e xs =
    (b : Buffer)
    → b.write_offset ≤ length b.bytes
    → length xs ≤ remaining_bytes b
    → Written b (e b) xs

pub Writes-true : Writes return_true []
Writes-true b valid fits = record {
  done = refl;
  written = sym (append-nil (data_span b));
  offset = omega arith;
  same_size = refl;
  same_read = refl;
}

pub Writes-seq : (e f : W) (xs ys : List ℕ) → Writes e xs → Writes f ys → Writes (e >> f) (xs ++ ys)
unfolding remaining_bytes
Writes-seq e f xs ys first second b valid fits =
    let p = first b valid (omega (arith, length-append xs ys)) in
    Written-trans b (e b) (f (e b).1) xs ys p (
      second (e b).1 (omega (arith, p.offset, p.same_size, length-append xs ys))
        (omega (arith, p.offset, p.same_size, length-append xs ys)))

pub Writes-last : (e : W) (xs : List ℕ) → Writes e xs → Writes (e >> return_true) xs
Writes-last e xs first b valid fits =
    let p = first b valid fits in
    record {
      done = refl;
      written = p.written;
      offset = p.offset;
      same_size = p.same_size;
      same_read = p.same_read;
    }

pub Writes-word : (h : Host) (w v : ℕ) → Writes (append_word h w v) (word h w v)
unfolding append_word word
Writes-word h w v b valid fits = append-Written w _ b valid (omega (arith, length-word h w v))

pub Writes-span : (xs : List ℕ) → Writes (append_span xs) xs
Writes-span xs b valid fits = append_span-Written xs b valid fits

pub Writes-each :
    {A : Type 0} (f : A → W) (wire : A → List ℕ) (xs : List A)
    → ((a : A) → Writes (f a) (wire a))
    → Writes (each f xs) (flat wire xs)
unfolding each
Writes-each f wire [] one = Writes-true
Writes-each f wire (x ∷ xs) one =
    Writes-seq (f x) (each f xs) (wire x) (flat wire xs) (one x) (Writes-each f wire xs one)
