-- ===== src/Texts/Bytes.antt =====
-- What bytes_to_hex_string of discnet_lib.cpp gives.
use discnet.Common.{
  ℕ, suc, ◌+◌, ◌-◌, ◌*◌, ◌<◌, ◌≡◌, refl, ap, ap₂, sym, ◌∙◌, arith, ◌==◌, lt→leb, Bool,
  if◌then◌else◌, List, [], ◌∷◌, ◌++◌, map, append_assoc, Text, length, length-append, take, drop,
  replicate, take-append, drop-append, All, hex_byte, hex_byte-injective, prefixed, join,
}
use discnet.Texts.{format_to, hex_loop, bytes_to_hex_string}

-- The blanks behind the first byte's.
blanks : List ℕ → Text
blanks [] = []
blanks (b ∷ ys) = 32 ∷ 32 ∷ 32 ∷ blanks ys

replicate-blanks : (ys : List ℕ) → replicate (3 * length ys) 32 ≡ blanks ys
unfolding blanks
replicate-blanks [] = refl
replicate-blanks (b ∷ ys) =
    ap (λ n. replicate n 32) (three (length ys)) ∙ ap (λ t. 32 ∷ 32 ∷ 32 ∷ t) (replicate-blanks ys)
  where
    three : (n : ℕ) → 3 * suc n ≡ suc (suc (suc (3 * n)))
    three n = omega arith

format_to-blanks :
    (b i : ℕ) (done rest : Text)
    → length done ≡ i * 3
    → format_to (i * 3) (hex_byte b) (done ++ (32 ∷ 32 ∷ rest)) ≡ done ++ (hex_byte b ++ rest)
unfolding format_to hex_byte
format_to-blanks b i done rest e =
    ap₂ (λ x y. x ++ (hex_byte b ++ y)) (take-append (i * 3) done _ e)
      (ap (drop (i * 3 + 2)) (sym (append_assoc done (32 ∷ 32 ∷ []) rest))
        ∙ drop-append (i * 3 + 2) (done ++ (32 ∷ 32 ∷ [])) rest
            (length-append done _ ∙ omega (arith, e)))

hex_loop-prefixed :
    (b : ℕ) (ys : List ℕ) (i : ℕ) (done : Text)
    → length done ≡ i * 3
    → hex_loop (b ∷ ys) i (done ++ (32 ∷ 32 ∷ blanks ys))
      ≡ done ++ join (32 ∷ []) (map hex_byte (b ∷ ys))
unfolding hex_loop blanks hex_byte
hex_loop-prefixed b [] i done e = format_to-blanks b i done [] e
hex_loop-prefixed b (c ∷ ys) i done e =
    ap (hex_loop (c ∷ ys) (i + 1)) (
      format_to-blanks b i done (32 ∷ 32 ∷ 32 ∷ blanks ys) e
      ∙ sym (append_assoc done (hex_byte b ++ (32 ∷ [])) (32 ∷ 32 ∷ blanks ys)))
    ∙ hex_loop-prefixed c ys (i + 1) (done ++ (hex_byte b ++ (32 ∷ [])))
        (length-append done _ ∙ omega (arith, e))
    ∙ append_assoc done (hex_byte b ++ (32 ∷ [])) _

result-blanks :
    (b : ℕ) (ys : List ℕ)
    → replicate (if length (b ∷ ys) == 1 then 2 else length (b ∷ ys) * 3 - 1) 32
      ≡ 32 ∷ 32 ∷ blanks ys
unfolding blanks
result-blanks b [] = refl
result-blanks b (c ∷ ys) =
    ap (λ n. replicate n 32) (size (length ys)) ∙ ap (λ t. 32 ∷ 32 ∷ t) (replicate-blanks (c ∷ ys))
  where
    size : (n : ℕ) → (if suc (suc n) == 1 then 2 else suc (suc n) * 3 - 1) ≡ suc (suc (3 * suc n))
    size n = ground arith

-- The text of bytes is two digits for each, with one blank between two bytes; all of the text that
-- was prepared is used, and nothing is written behind it.
pub bytes_to_hex_string-join :
    (ys : List ℕ) → bytes_to_hex_string ys ≡ join (32 ∷ []) (map hex_byte ys)
unfolding bytes_to_hex_string
bytes_to_hex_string-join [] = refl
bytes_to_hex_string-join (b ∷ ys) =
    ap
      (λ (e : Bool).
        if e
        then []
        else hex_loop (b ∷ ys) 0
            (replicate (if length (b ∷ ys) == 1 then 2 else length (b ∷ ys) * 3 - 1) 32))
      (lt→leb (length (b ∷ ys)) 0 (omega arith))
    ∙ ap (hex_loop (b ∷ ys) 0) (result-blanks b ys)
    ∙ hex_loop-prefixed b ys 0 [] (omega arith)

prefixed-injective :
    (xs ys : List ℕ)
    → All (λ a. a < 256) xs
    → All (λ b. b < 256) ys
    → prefixed (32 ∷ []) (map hex_byte xs) ≡ prefixed (32 ∷ []) (map hex_byte ys)
    → xs ≡ ys
unfolding hex_byte
prefixed-injective [] [] p q e = refl
prefixed-injective [] (b ∷ ys) p q e = absurd (cc e)
prefixed-injective (a ∷ xs) [] p q e = absurd (cc e)
prefixed-injective (a ∷ xs) (b ∷ ys) (p, ps) (q, qs) e =
    ap₂ (◌∷◌) (hex_byte-injective a b p q (ap (λ t. take 2 (drop 1 t)) e))
      (prefixed-injective xs ys ps qs (ap (drop 3) e))

-- Different sequences of bytes have different texts, so that adapters of different hardware
-- addresses are told apart by them.
pub bytes_to_hex_string-injective :
    (xs ys : List ℕ)
    → All (λ a. a < 256) xs
    → All (λ b. b < 256) ys
    → bytes_to_hex_string xs ≡ bytes_to_hex_string ys
    → xs ≡ ys
bytes_to_hex_string-injective xs ys p q e =
    prefixed-injective xs ys p q
      (go xs ys (sym (bytes_to_hex_string-join xs) ∙ e ∙ bytes_to_hex_string-join ys))
  where
    go :
        (xs ys : List ℕ)
        → join (32 ∷ []) (map hex_byte xs) ≡ join (32 ∷ []) (map hex_byte ys)
        → prefixed (32 ∷ []) (map hex_byte xs) ≡ prefixed (32 ∷ []) (map hex_byte ys)
    go [] [] e = refl
    go [] (b ∷ ys) e = unfold hex_byte in absurd (cc e)
    go (a ∷ xs) [] e = unfold hex_byte in absurd (cc e)
    go (a ∷ xs) (b ∷ ys) e = ap (λ t. 32 ∷ t) e
