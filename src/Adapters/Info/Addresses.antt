-- ===== src/Adapters/Info/Addresses.antt =====
-- ipv4_info of adapter_manager.cpp.
use discnet.Common.{
  ℕ, ◌≡◌, refl, ap, sym, ◌∙◌, List, [], ◌∷◌, ◌++◌, map, append_assoc, append-nil, Text, prefixed,
  join,
}
use discnet.Adapters.{Adapter}
use discnet.Adapters.Info.{mask_to_cidr, optional_text, is_empty, ipv4_loop, close_brace, ipv4_info}

-- An address with the length of its prefix.
abbrev pub address_text : (ℕ → Text) → ℕ × ℕ → Text
address_text to_string (address, mask) =
    to_string address ++ (47 ∷ optional_text (mask_to_cidr mask))

ipv4_loop-prefixed :
    (to_string : ℕ → Text) (addresses : List (ℕ × ℕ)) (c : ℕ) (cs : Text)
    → ipv4_loop to_string addresses (c ∷ cs)
      ≡ c ∷ (cs ++ prefixed (32 ∷ []) (map (address_text to_string) addresses))
unfolding ipv4_loop is_empty
ipv4_loop-prefixed to_string [] c cs = ap (λ t. c ∷ t) (sym (append-nil cs))
ipv4_loop-prefixed to_string ((address, mask) ∷ rest) c cs =
    ipv4_loop-prefixed to_string rest c
      ((cs ++ (32 ∷ [])) ++ address_text to_string (address, mask))
    ∙ ap (λ t. c ∷ t)
        (append_assoc (cs ++ (32 ∷ [])) (address_text to_string (address, mask)) _
          ∙ append_assoc cs (32 ∷ []) _)

-- The text of an adapter's addresses is each of them with the length of its prefix, in braces and
-- with a blank between two of them.
pub ipv4_info-join :
    (to_string : ℕ → Text) (a : Adapter)
    → ipv4_info to_string a
      ≡ 123 ∷ (join (32 ∷ []) (map (address_text to_string) a.address_list) ++ (125 ∷ []))
unfolding ipv4_info
ipv4_info-join to_string a = go a.address_list
  where
    go :
        (addresses : List (ℕ × ℕ))
        → close_brace (ipv4_loop to_string addresses [])
          ≡ 123 ∷ (join (32 ∷ []) (map (address_text to_string) addresses) ++ (125 ∷ []))
    go [] = unfold close_brace ipv4_loop is_empty in refl
    go ((address, mask) ∷ rest) =
        unfold close_brace ipv4_loop is_empty in
        ap close_brace
          (ipv4_loop-prefixed to_string rest 123 (address_text to_string (address, mask)))
