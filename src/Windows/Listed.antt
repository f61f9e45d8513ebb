-- ===== src/Windows/Listed.antt =====
-- Which adapters windows/adapter_fetcher.cpp lists.
use mathlib.Core.List.{Memᴰ}
use discnet.Common.{
  ◌-◌, ◌≡◌, refl, ap, subst, ◌∙◌, arith, inl, inr, ==-IsEquality, both_true, Bool, true, false, not,
  ◌&&◌, Bool-cases, List, [], ◌∷◌, All, Option, none, some, some-injective, map-some, Text, length,
  drop, length-take, length-drop,
}
use discnet.Texts.{bytes_to_hex_string}
use discnet.Adapters.{Adapter}
use discnet.Windows.{
  Windows, AdapterAddresses, and_then, get_adapter_guid, wstr_to_utf8, gateway_loop, unicast_loop,
  check_loop, valid_if_type, virtual_prefix, starts_with, substr, plain_adapter, with_addresses,
  is_listed, list_adapter, push_if, list_adapters,
}

-- An adapter that is made of what Windows tells of one.
pub record IsFrom (w : Windows) (p : AdapterAddresses) (a : Adapter) : Type 0 where
  pub type_valid : valid_if_type p.if_type ≡ true
  pub not_virtual : starts_with a.name virtual_prefix ≡ false
  pub hardware : a.mac_address ≡ bytes_to_hex_string p.physical_address
  pub guid_length : length a.guid ≡ 36
  pub named : a.guid ≡ substr 1 36 (get_adapter_guid w a.name)
  pub up : a.enabled ≡ p.is_up
  pub not_loopback : a.loopback ≡ false

pub and_then-some {ℓ κ} :
    {A : Type ℓ} {B : Type κ} (o : Option A) (f : A → Option B) (b : B)
    → and_then o f ≡ some b
    → (a : A) × (o ≡ some a) × (f a ≡ some b)
and_then-some none f b h = absurd (cc h)
and_then-some (some a) f b h = (a, refl, h)

not-false : (b : Bool) → not b ≡ true → b ≡ false
not-false true h = cc h
not-false false h = refl

with_addresses-IsFrom :
    (w : Windows) (p : AdapterAddresses) (a : Adapter)
    → is_listed w p (get_adapter_guid w (wstr_to_utf8 w p.friendly_name)) ≡ true
    → with_addresses w p (
        substr 1
          (length (get_adapter_guid w (wstr_to_utf8 w p.friendly_name)) - 2)
          (get_adapter_guid w (wstr_to_utf8 w p.friendly_name)))
      ≡ some a
    → IsFrom w p a
unfolding with_addresses is_listed plain_adapter
with_addresses-IsFrom w p a listed made =
    let (filtered, long) =
      both_true
        (valid_if_type p.if_type
          && not (starts_with (wstr_to_utf8 w p.friendly_name) virtual_prefix))
        _ listed in
    let (type_valid, real) = both_true (valid_if_type p.if_type) _ filtered in
    let size = ==-IsEquality.sound (length guid_str) 38 long in
    let (gateway, e1, h1) = and_then-some (gateway_loop w p.gateways 0) _ a made in
    let (addresses, e2, h2) = and_then-some (unicast_loop w p.unicasts []) _ a h1 in
    let (dns, e3, h3) = and_then-some (check_loop w p.dns_servers) _ a h2 in
    let (groups, e4, h4) = and_then-some (check_loop w p.multicasts) _ a h3 in
    subst (IsFrom w p) (some-injective h4) (record {
      type_valid = type_valid;
      not_virtual = not-false _ real;
      hardware = refl;
      guid_length = inner size;
      named = ap (λ n. substr 1 (n - 2) guid_str) size;
      up = refl;
      not_loopback = refl;
    })
  where
    guid_str : Text
    guid_str = get_adapter_guid w (wstr_to_utf8 w p.friendly_name)

    inner : length guid_str ≡ 38 → length (substr 1 (length guid_str - 2) guid_str) ≡ 36
    inner size =
        unfold substr in
        omega
          (arith, size, length-take (length guid_str - 2) (drop 1 guid_str), length-drop 1 guid_str)

-- What an adapter of the list is made of.
abbrev pub Origin : Windows → List AdapterAddresses → Adapter → Type 0
Origin w ps a = (p : AdapterAddresses) × Memᴰ p ps × IsFrom w p a

pub list_adapter-IsFrom :
    (w : Windows) (p : AdapterAddresses) (o : Option Adapter) (a : Adapter)
    → list_adapter w p ≡ some o
    → o ≡ some a
    → IsFrom w p a
unfolding list_adapter
list_adapter-IsFrom w p o a made is_made =
    elim (Bool-cases (is_listed w p (get_adapter_guid w (wstr_to_utf8 w p.friendly_name)))) [
      | inl listed ↦
          let (b, e, same) = map-some some _ o (rw listed at made) in
          with_addresses-IsFrom w p a listed (e ∙ same ∙ is_made)
      | inr passed ↦ absurd (cc (rw passed at made, is_made))
    ]

All-Origin-later :
    (w : Windows) (p : AdapterAddresses) (ps : List AdapterAddresses) (as' : List Adapter)
    → All (Origin w ps) as'
    → All (Origin w (p ∷ ps)) as'
All-Origin-later w p ps [] all = tt
All-Origin-later w p ps (a ∷ as') ((q, has, from), others) =
    ((q, Memᴰ.tail has, from), All-Origin-later w p ps as' others)

push_if-Origin :
    (w : Windows) (p : AdapterAddresses) (ps : List AdapterAddresses) (o : Option Adapter)
    (as' : List Adapter)
    → ((a : Adapter) → o ≡ some a → IsFrom w p a)
    → All (Origin w ps) as'
    → All (Origin w (p ∷ ps)) (push_if o as')
unfolding push_if
push_if-Origin w p ps none as' from all = All-Origin-later w p ps as' all
push_if-Origin w p ps (some a) as' from all =
    ((p, Memᴰ.head refl, from a refl), All-Origin-later w p ps as' all)

-- Every adapter that is listed is made of one that Windows tells of, of a valid type and with a name
-- that is not that of a virtual one; it has the text of its hardware address and the 36 characters
-- of its guid between the braces of the registry's key, and is never marked as a loopback adapter.
pub list_adapters-Origin :
    (w : Windows) (ps : List AdapterAddresses) (as' : List Adapter)
    → list_adapters w ps ≡ some as'
    → All (Origin w ps) as'
unfolding list_adapters
list_adapters-Origin w [] as' h = subst (All (Origin w [])) (some-injective h) tt
list_adapters-Origin w (p ∷ ps) as' h =
    let (o, e, h1) = and_then-some (list_adapter w p) _ as' h in
    let (rest, e', same) = map-some (push_if o) (list_adapters w ps) as' h1 in
    subst (All (Origin w (p ∷ ps))) same (
      push_if-Origin w p ps o rest (λ a is_a. list_adapter-IsFrom w p o a e is_a)
        (list_adapters-Origin w ps rest e'))
