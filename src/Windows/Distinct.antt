-- ===== src/Windows/Distinct.antt =====
-- The hardware addresses of the adapters of windows/adapter_fetcher.cpp, which adapter_manager.cpp
-- tells its adapters apart by.
use mathlib.Core.List.{Memᴰ}
use mathlib.Core.List.Memᴰ
use discnet.Common.{
  ◌<◌, ◌≡◌, ◌≢◌, refl, sym, subst, ◌∙◌, inl, inr, List, [], ◌∷◌, All, Option, none, some,
  some-injective, map-some,
}
use discnet.Texts.Bytes.{bytes_to_hex_string-injective}
use discnet.Adapters.{Adapter}
use discnet.Windows.{Windows, AdapterAddresses, list_adapter, push_if, list_adapters}
use discnet.Windows.Listed.{
  IsFrom, Origin, and_then-some, list_adapter-IsFrom, list_adapters-Origin,
}

-- The hardware addresses are bytes, and no two are the same.
abbrev pub DistinctHardware : List AdapterAddresses → Type 0
DistinctHardware [] = Unit
DistinctHardware (p ∷ ps) =
    All (λ b. b < 256) p.physical_address
    × All (λ (q : AdapterAddresses). q.physical_address ≢ p.physical_address) ps
    × DistinctHardware ps

abbrev pub DistinctMac : List Adapter → Type 0
DistinctMac [] = Unit
DistinctMac (a ∷ as') = All (λ b. b.mac_address ≢ a.mac_address) as' × DistinctMac as'

All-Mem : {A : Type 0} (P : A → Type 0) (xs : List A) (x : A) → All P xs → Memᴰ x xs → P x
All-Mem P [] x all has = absurd (Memᴰ.not-nil has)
All-Mem P (y ∷ xs) x (this, others) has = elim (Memᴰ.cases_cons has) [
  | inl first ↦ subst P (sym first) this
  | inr later ↦ All-Mem P xs x others later
]

DistinctHardware-bytes :
    (ps : List AdapterAddresses)
    → DistinctHardware ps
    → All (λ (p : AdapterAddresses). All (λ b. b < 256) p.physical_address) ps
DistinctHardware-bytes [] distinct = tt
DistinctHardware-bytes (p ∷ ps) (bytes, others, rest) = (bytes, DistinctHardware-bytes ps rest)

others_differ :
    (w : Windows) (p : AdapterAddresses) (ps : List AdapterAddresses) (a : Adapter)
    (as' : List Adapter)
    → DistinctHardware (p ∷ ps)
    → IsFrom w p a
    → All (Origin w ps) as'
    → All (λ b. b.mac_address ≢ a.mac_address) as'
others_differ w p ps a [] distinct from all = tt
others_differ w p ps a (b ∷ as') (bytes, others, rest) from ((q, has, from'), all) = (
  λ e. All-Mem _ ps q others has (
      bytes_to_hex_string-injective q.physical_address p.physical_address
        (All-Mem _ ps q (DistinctHardware-bytes ps rest) has) bytes
        (sym from'.hardware ∙ e ∙ from.hardware)),
  others_differ w p ps a as' (bytes, others, rest) from all,
)

push_if-DistinctMac :
    (w : Windows) (p : AdapterAddresses) (ps : List AdapterAddresses) (o : Option Adapter)
    (as' : List Adapter)
    → DistinctHardware (p ∷ ps)
    → ((a : Adapter) → o ≡ some a → IsFrom w p a)
    → All (Origin w ps) as'
    → DistinctMac as'
    → DistinctMac (push_if o as')
unfolding push_if
push_if-DistinctMac w p ps none as' distinct from origin macs = macs
push_if-DistinctMac w p ps (some a) as' distinct from origin macs =
    (others_differ w p ps a as' distinct (from a refl) origin, macs)

-- Where the hardware addresses of what Windows tells of are different, so are the texts of the
-- adapters that are listed.
pub list_adapters-DistinctMac :
    (w : Windows) (ps : List AdapterAddresses) (as' : List Adapter)
    → DistinctHardware ps
    → list_adapters w ps ≡ some as'
    → DistinctMac as'
unfolding list_adapters
list_adapters-DistinctMac w [] as' distinct h = subst DistinctMac (some-injective h) tt
list_adapters-DistinctMac w (p ∷ ps) as' distinct h =
    let (o, e, h1) = and_then-some (list_adapter w p) _ as' h in
    let (rest, e', same) = map-some (push_if o) (list_adapters w ps) as' h1 in
    subst DistinctMac same (
      push_if-DistinctMac w p ps o rest distinct (λ a is_a. list_adapter-IsFrom w p o a e is_a)
        (list_adapters-Origin w ps rest e') (list_adapters-DistinctMac w ps rest distinct.2 e'))
