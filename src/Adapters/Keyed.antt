-- ===== src/Adapters/Keyed.antt =====
-- The map of adapter_manager.cpp: under which keys its adapters stand.
use discnet.Common.{
  ◌≡◌, sym, ap, ◌∙◌, inl, inr, Bool-cases, List, [], ◌∷◌, Option, some, Text, text_less,
  text_less-IsOrder, find, equivalent, equivalent→≡, find-erase_if_gone, find-erase_if_kept,
}
use mathlib.Core.Option
use discnet.Adapters.{
  Adapter, AdapterManager, update_entry, update_entries, is_gone, remove_entries, update,
}
use discnet.Adapters.Update.{update_entry-find, update_entry-find_other}

-- Every adapter stands under its MAC address.
abbrev pub IsKeyed : AdapterManager → Type 0
IsKeyed m = (k : Text) (a : Adapter) → find text_less k m.adapters ≡ some a → a.mac_address ≡ k

update_entry-IsKeyed :
    (c : Adapter) (m : AdapterManager)
    → IsKeyed m
    → IsKeyed (update_entry (find text_less c.mac_address m.adapters) c m)
update_entry-IsKeyed c m keyed k a found =
    elim (Bool-cases (equivalent text_less c.mac_address k)) [
      | inl same ↦
          let own = equivalent→≡ text_less text_less-IsOrder c.mac_address k same in
          let (r, e, alike) = update_entry-find c m in
          let is_r : r ≡ a = Option.some-injective r a (sym e ∙ ap at own ∙ found) in
          ap (λ (b : Adapter). b.mac_address) (sym is_r)
          ∙ ap (λ (b : Adapter). b.mac_address) alike
          ∙ own
      | inr other ↦ keyed k a (sym (update_entry-find_other k c m other) ∙ found)
    ]
  where
    at : Text → Option Adapter
    at j = find text_less j (update_entry (find text_less c.mac_address m.adapters) c m).adapters

update_entries-IsKeyed :
    (cs : List Adapter) (m : AdapterManager) → IsKeyed m → IsKeyed (update_entries cs m)
unfolding update_entries
update_entries-IsKeyed [] m keyed = keyed
update_entries-IsKeyed (c ∷ cs) m keyed =
    update_entries-IsKeyed cs _ (update_entry-IsKeyed c m keyed)

-- An update keeps every adapter under its MAC address.
pub update-IsKeyed :
    (current : List Adapter) (m : AdapterManager) → IsKeyed m → IsKeyed (update current m)
unfolding update remove_entries
update-IsKeyed current m keyed k a found = elim (Bool-cases (is_gone current k)) [
  | inl gone ↦
      absurd (
        cc
          (sym (find-erase_if_gone text_less text_less-IsOrder (is_gone current) k _ gone) ∙ found))
  | inr kept ↦
      update_entries-IsKeyed current m keyed k a
        (sym (find-erase_if_kept text_less text_less-IsOrder (is_gone current) k _ kept) ∙ found)
]
