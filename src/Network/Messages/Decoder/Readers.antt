-- ===== src/Network/Messages/Decoder/Readers.antt =====
-- What the decode functions of network/messages change of a buffer.
use discnet.Common.{
  ℕ, zero, suc, ◌≤◌, ◌≡◌, refl, ◌∙◌, arith, [], ◌∷◌, Bool, true, false, if◌then◌else◌,
}
use discnet.Host.{Host}
use discnet.Network.Buffer.{Buffer, read, read_buffer}
use discnet.Network.Messages.Decoder.{
  Error, Expected, value, unexpected, M, pure, fail, ◌>>=◌, continue, map_error, repeat, read_word,
  read_bytes,
}

pub record SameData (b c : Buffer) : Type 0 where
  pub bytes : c.bytes ≡ b.bytes
  pub offset : c.write_offset ≡ b.write_offset
  pub within : b.read_offset ≤ b.write_offset → c.read_offset ≤ c.write_offset

pub record IsReader {A : Type 0} (m : M A) : Type 0 where
  pub run : (b : Buffer) → SameData b (m b).1

pub SameData-refl : (b : Buffer) → SameData b b
SameData-refl b = record { bytes = refl; offset = refl; within = λ h. h }

pub SameData-trans : (b c d : Buffer) → SameData b c → SameData c d → SameData b d
SameData-trans b c d p q = record {
  bytes = q.bytes ∙ p.bytes;
  offset = q.offset ∙ p.offset;
  within = λ h. q.within (p.within h);
}

pub pure-IsReader : {A : Type 0} (a : A) → IsReader (pure a)
pure-IsReader a = record { run = SameData-refl }

pub fail-IsReader : (A : Type 0) (e : Error) → IsReader (fail {A = A} e)
fail-IsReader A e = record { run = SameData-refl }

continue-IsReader :
    {A B : Type 0} (r : Expected A) (f : A → M B)
    → ((a : A) → IsReader (f a))
    → IsReader (continue r f)
continue-IsReader (value a) f second = second a
continue-IsReader (unexpected e) f second = record { run = SameData-refl }

pub bind-IsReader :
    {A B : Type 0} (m : M A) (f : A → M B)
    → IsReader m
    → ((a : A) → IsReader (f a))
    → IsReader (m >>= f)
bind-IsReader m f first second = record {
  run = λ b.
      SameData-trans b (m b).1 _ (first.run b) ((continue-IsReader (m b).0 f second).run (m b).1);
}

pub map_error-IsReader :
    {A : Type 0} (g : Error → Error) (m : M A) → IsReader m → IsReader (map_error g m)
unfolding map_error
map_error-IsReader g m first = record { run = λ b. first.run b }

pub repeat-IsReader : {A : Type 0} (n : ℕ) (m : M A) → IsReader m → IsReader (repeat n m)
unfolding repeat
repeat-IsReader zero m first = pure-IsReader []
repeat-IsReader (suc n) m first =
    bind-IsReader m _ first
      (λ x. bind-IsReader (repeat n m) _ (repeat-IsReader n m first) (λ xs. pure-IsReader (x ∷ xs)))

pub read_word-IsReader : (h : Host) (w : ℕ) → IsReader (read_word h w)
unfolding read_word read
read_word-IsReader h w = record { run = λ b. ground arith }

pub read_bytes-IsReader : (n : ℕ) → IsReader (read_bytes n)
unfolding read_bytes read_buffer
read_bytes-IsReader n = record { run = λ b. ground arith }

-- A test for too few bytes in front of a reader.
pub guard-IsReader :
    {A : Type 0} (m : M A) (e : Error) (b : Buffer) (test : Bool)
    → IsReader m
    → SameData b ((if test then (fail e) b else m b).1)
guard-IsReader m e b true first = SameData-refl b
guard-IsReader m e b false first = first.run b
