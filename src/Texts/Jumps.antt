-- ===== src/Texts/Jumps.antt =====
-- What to_string of typedefs.cpp gives, and how it is read back.
use discnet.Common.{
  ℕ, ◌+◌, ◌-◌, ◌*◌, ◌^◌, ◌<◌, ◌≡◌, refl, ap, ap₂, sym, subst, ◌∙◌, arith, ◌==◌, lt→ltb, Bool, false,
  if◌then◌else◌, List, [], ◌∷◌, ◌++◌, map, append_assoc, append-nil, Option, none, some, Text,
  length, length-append, All, IsDigit, decimal, decimal-cons, decimal-IsDigit, number_from,
  number_from-decimal, prefixed, join,
}
use discnet.Texts.{jumps_loop, to_string}

abbrev separator : Text
separator = 44 ∷ 32 ∷ []

jumps_loop-prefixed :
    (js : List ℕ) (result : Text)
    → 1 < length result
    → jumps_loop result js ≡ result ++ prefixed separator (map decimal js)
unfolding jumps_loop
jumps_loop-prefixed [] result long = sym (append-nil result)
jumps_loop-prefixed (j ∷ js) result long = rw (lt→ltb 1 (length result) long) (
    jumps_loop-prefixed js ((result ++ separator) ++ decimal j) longer
    ∙ append_assoc (result ++ separator) (decimal j) _
    ∙ append_assoc result separator _)
  where
    longer : 1 < length ((result ++ separator) ++ decimal j)
    longer =
        let outer = length-append (result ++ separator) (decimal j) in
        let inner = length-append result separator in omega (arith, long, outer, inner)

-- The text of jumps is their numbers in braces, a comma and a blank between two of them.
pub to_string-join :
    (js : List ℕ) → to_string js ≡ 123 ∷ (join separator (map decimal js) ++ (125 ∷ []))
unfolding to_string jumps_loop
to_string-join [] = refl
to_string-join (j ∷ js) =
    let (c, cs, e) = decimal-cons j in
    ap (λ t. t ++ (125 ∷ []))
      (jumps_loop-prefixed js (123 ∷ decimal j)
        (subst (λ t. 1 < length (123 ∷ t)) (sym e) (omega arith)))

-- Reading such a text: the number that was begun, if one was, and the characters behind.
abbrev digit : Option ℕ → ℕ → Option ℕ
digit none c = some (c - 48)
digit (some n) c = some (n * 10 + (c - 48))

abbrev end_number : Option ℕ → List ℕ → List ℕ
end_number none ns = ns
end_number (some n) ns = n ∷ ns

-- A comma ends a number, a blank is skipped, and so is a brace.
abbrev pub next_number : ℕ → Option ℕ → Option ℕ
next_number c o =
    if c == 44
    then none
    else if c == 32
    then o
    else if c == 123
    then o
    else if c == 125
    then o
    else digit o c

abbrev pub read_from : Option ℕ → Text → List ℕ
read_from o [] = end_number o []
read_from o (c ∷ cs) =
    let rest = read_from (next_number c o) cs in if c == 44 then end_number o rest else rest

next_number-digit : (c : ℕ) (o : Option ℕ) → IsDigit c → next_number c o ≡ digit o c
next_number-digit c o (low, high) = ground (arith, low, high)

no_comma : (c : ℕ) → IsDigit c → (c == 44) ≡ false
no_comma c (low, high) = ground (arith, low, high)

read_from-digit :
    (c : ℕ) (o : Option ℕ) (t : Text) → IsDigit c → read_from o (c ∷ t) ≡ read_from (digit o c) t
read_from-digit c o t d =
    ap₂ (λ (b : Bool) (o' : Option ℕ). if b then end_number o (read_from o' t) else read_from o' t)
      (no_comma c d) (next_number-digit c o d)

read_from-digits :
    (cs t : Text) (n : ℕ)
    → All IsDigit cs
    → read_from (some n) (cs ++ t) ≡ read_from (some (number_from n cs)) t
unfolding number_from
read_from-digits [] t n all = refl
read_from-digits (c ∷ cs) t n (d, ds) =
    read_from-digit c (some n) (cs ++ t) d ∙ read_from-digits cs t _ ds

read_from-decimal :
    (j : ℕ) (t : Text) → j < 10 ^ 20 → read_from none (decimal j ++ t) ≡ read_from (some j) t
unfolding number_from
read_from-decimal j t h =
    let (c, cs, e) = decimal-cons j in
    let (d, ds) = subst (All IsDigit) e (decimal-IsDigit j) in
    ap (λ u. read_from none (u ++ t)) e
    ∙ read_from-digit c none (cs ++ t) d
    ∙ read_from-digits cs t (c - 48) ds
    ∙ ap (λ n. read_from (some n) t)
        (ap (λ n. number_from n cs) (omega arith)
          ∙ ap (number_from 0) (sym e)
          ∙ number_from-decimal j h)

read_from-prefixed :
    (j : ℕ) (js : List ℕ)
    → All (λ k. k < 10 ^ 20) js
    → read_from (some j) (prefixed separator (map decimal js) ++ (125 ∷ [])) ≡ j ∷ js
read_from-prefixed j [] all = refl
read_from-prefixed j (k ∷ js) (this, others) =
    ap (λ ns. j ∷ ns)
      (ap (read_from none) (append_assoc (decimal k) _ (125 ∷ []))
        ∙ read_from-decimal k _ this
        ∙ read_from-prefixed k js others)

-- The jumps are read back from their text.
pub read_from-to_string :
    (js : List ℕ) → All (λ j. j < 10 ^ 20) js → read_from none (to_string js) ≡ js
read_from-to_string [] all = ap (read_from none) (to_string-join [])
read_from-to_string (j ∷ js) (this, others) =
    ap (read_from none) (to_string-join (j ∷ js))
    ∙ ap (read_from none) (append_assoc (decimal j) _ (125 ∷ []))
    ∙ read_from-decimal j _ this
    ∙ read_from-prefixed j js others
