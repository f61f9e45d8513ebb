-- ===== src/Adapters/Update.antt =====
-- What `adapter_manager::update` leaves in the map.
use discnet.Common.{
  ◌≡◌, ◌≢◌, ◌⊎◌, inl, inr, refl, sym, ap, ◌∙◌, ◌==◌, Bool, true, false, not, List, [], ◌∷◌, ◌++◌,
  All, none, some, Option-cases, Bool-cases, Text, text_less, text_less-IsOrder, find, equivalent,
  equivalent→≡, find-insert_or_assign, find-insert_or_assign_other, insert-absent,
  find-erase_if_gone, find-erase_if_kept, IsEquality, equal_list-IsEquality, equal_pair-IsEquality,
  equal_bool-IsEquality, ==-IsEquality, equal_bool, both_true,
}
use discnet.Adapters.{
  Adapter, AdapterManager, Change, equal_text, equal_address_list, equal_adapter, line_if,
  adapter_diff, signal, assign_if_changed, update_entry, update_entries, is_gone, remove_entries,
  update, find_adapter_id,
}

pub equal_text-IsEquality : IsEquality equal_text
equal_text-IsEquality = equal_list-IsEquality (◌==◌) ==-IsEquality

equal_address_list-IsEquality : IsEquality equal_address_list
equal_address_list-IsEquality =
    equal_list-IsEquality _ (equal_pair-IsEquality (◌==◌) (◌==◌) ==-IsEquality ==-IsEquality)

-- Two adapters that agree in every member, the flag of a loopback adapter left aside.
abbrev pub SameButLoopback : Adapter → Adapter → Type 0
SameButLoopback a b = record a { loopback = b.loopback } ≡ b

-- A member that gives no line is the same.
line_if-nil :
    (same : Bool) (c : Change) (cs rest : List Change)
    → line_if (not same) (c ∷ cs) rest ≡ []
    → (same ≡ true) × (rest ≡ [])
unfolding line_if
line_if-nil true c cs rest h = (refl, h)
line_if-nil false c cs rest h = absurd (cc h)

-- Adapters without a difference that is logged agree but for the loopback flag.
pub adapter_diff-nil : (a b : Adapter) → adapter_diff a b ≡ [] → SameButLoopback a b
unfolding adapter_diff
adapter_diff-nil a b h =
    let (guid, h1) = line_if-nil (equal_text a.guid b.guid) _ _ _ h in
    let (mac, h2) = line_if-nil (equal_text a.mac_address b.mac_address) _ _ _ h1 in
    let (name, h3) = line_if-nil (equal_text a.name b.name) _ _ _ h2 in
    let (index, h4) = line_if-nil (a.index == b.index) _ _ _ h3 in
    let (description, h5) = line_if-nil (equal_text a.description b.description) _ _ _ h4 in
    let (enabled, h6) = line_if-nil (equal_bool a.enabled b.enabled) _ _ _ h5 in
    let (mtu, h7) = line_if-nil (a.mtu == b.mtu) _ _ _ h6 in
    let (gateway, h8) = line_if-nil (a.gateway == b.gateway) _ _ _ h7 in
    let (addresses, h9) = line_if-nil (equal_address_list a.address_list b.address_list) _ _ _ h8 in
    λ i. record {
      guid = equal_text-IsEquality.sound _ _ guid i;
      mac_address = equal_text-IsEquality.sound _ _ mac i;
      index = ==-IsEquality.sound _ _ index i;
      name = equal_text-IsEquality.sound _ _ name i;
      description = equal_text-IsEquality.sound _ _ description i;
      loopback = b.loopback;
      enabled = equal_bool-IsEquality.sound _ _ enabled i;
      address_list = equal_address_list-IsEquality.sound _ _ addresses i;
      gateway = ==-IsEquality.sound _ _ gateway i;
      mtu = ==-IsEquality.sound _ _ mtu i;
    }

equal_adapter→≡ : (a b : Adapter) → equal_adapter a b ≡ true → a ≡ b
unfolding equal_adapter
equal_adapter→≡ a b h =
    let (h1, mtu) = both_true _ (a.mtu == b.mtu) h in
    let (h2, gateway) = both_true _ (a.gateway == b.gateway) h1 in
    let (h3, addresses) = both_true _ (equal_address_list a.address_list b.address_list) h2 in
    let (h4, enabled) = both_true _ (equal_bool a.enabled b.enabled) h3 in
    let (h5, loopback) = both_true _ (equal_bool a.loopback b.loopback) h4 in
    let (h6, description) = both_true _ (equal_text a.description b.description) h5 in
    let (h7, name) = both_true _ (equal_text a.name b.name) h6 in
    let (h8, index) = both_true _ (a.index == b.index) h7 in
    let (guid, mac) = both_true (equal_text a.guid b.guid) _ h8 in
    λ i. record {
      guid = equal_text-IsEquality.sound _ _ guid i;
      mac_address = equal_text-IsEquality.sound _ _ mac i;
      index = ==-IsEquality.sound _ _ index i;
      name = equal_text-IsEquality.sound _ _ name i;
      description = equal_text-IsEquality.sound _ _ description i;
      loopback = equal_bool-IsEquality.sound _ _ loopback i;
      enabled = equal_bool-IsEquality.sound _ _ enabled i;
      address_list = equal_address_list-IsEquality.sound _ _ addresses i;
      gateway = ==-IsEquality.sound _ _ gateway i;
      mtu = ==-IsEquality.sound _ _ mtu i;
    }

different : (j k : Text) → j ≢ k → equivalent text_less j k ≡ false
different j k h = elim (Bool-cases (equivalent text_less j k)) [
  | inl same ↦ absurd (h (equivalent→≡ text_less text_less-IsOrder j k same))
  | inr other ↦ other
]

List-cases : (cs : List Change) → (cs ≡ []) ⊎ ((c : Change) × (ds : List Change) × (cs ≡ c ∷ ds))
List-cases [] = inl refl
List-cases (c ∷ cs) = inr (c, cs, refl)

-- What the entry of a fetched adapter is after an update.
pub update_entry-find :
    (a : Adapter) (m : AdapterManager)
    → (r : Adapter) × (find text_less a.mac_address
          (update_entry (find text_less a.mac_address m.adapters) a m).adapters
        ≡ some r)
      × SameButLoopback r a
unfolding update_entry signal assign_if_changed
update_entry-find a m = elim (Option-cases (find text_less a.mac_address m.adapters)) [
  | inl absent ↦ rw absent (
    a,
    rw (insert-absent text_less text_less-IsOrder a.mac_address a m.adapters absent)
        (find-insert_or_assign text_less text_less-IsOrder a.mac_address a m.adapters),
    refl,
  )
  | inr (existing, found) ↦ rw found (elim (Bool-cases (equal_adapter a existing)) [
    | inl same ↦ rw same (
      existing,
      found,
      ap (λ (b : Adapter). record b { loopback = a.loopback })
          (sym (equal_adapter→≡ a existing same)),
    )
    | inr different ↦ rw different (elim (List-cases (adapter_diff existing a)) [
      | inl no_line ↦ rw no_line (existing, found, adapter_diff-nil existing a no_line)
      | inr (c, cs, lines) ↦
          rw lines
            (a, find-insert_or_assign text_less text_less-IsOrder a.mac_address a m.adapters, refl)
    ])
  ])
]

-- The entries of the other MAC addresses stay.
pub update_entry-find_other :
    (k : Text) (a : Adapter) (m : AdapterManager)
    → equivalent text_less a.mac_address k ≡ false
    → find text_less k (update_entry (find text_less a.mac_address m.adapters) a m).adapters
      ≡ find text_less k m.adapters
unfolding update_entry signal assign_if_changed
update_entry-find_other k a m other =
    let assigned =
      find-insert_or_assign_other text_less text_less-IsOrder k a.mac_address a m.adapters other in
    elim (Option-cases (find text_less a.mac_address m.adapters)) [
      | inl absent ↦ rw absent (
          rw (insert-absent text_less text_less-IsOrder a.mac_address a m.adapters absent) assigned)
      | inr (existing, found) ↦ rw found (elim (Bool-cases (equal_adapter a existing)) [
        | inl same ↦ rw same refl
        | inr different ↦ rw different (elim (List-cases (adapter_diff existing a)) [
          | inl no_line ↦ rw no_line refl
          | inr (c, cs, lines) ↦ rw lines assigned
        ])
      ])
    ]

update_entries-find_other :
    (k : Text) (cs : List Adapter) (m : AdapterManager)
    → All (λ c. c.mac_address ≢ k) cs
    → find text_less k (update_entries cs m).adapters ≡ find text_less k m.adapters
unfolding update_entries
update_entries-find_other k [] m h = refl
update_entries-find_other k (c ∷ cs) m (other, others) =
    update_entries-find_other k cs _ others
    ∙ update_entry-find_other k c m (different c.mac_address k other)

update_entries-find :
    (pre : List Adapter) (a : Adapter) (post : List Adapter) (m : AdapterManager)
    → All (λ c. c.mac_address ≢ a.mac_address) post
    → (r : Adapter) × (find text_less a.mac_address (update_entries (pre ++ (a ∷ post)) m).adapters
        ≡ some r)
      × SameButLoopback r a
unfolding update_entries
update_entries-find [] a post m last =
    let (r, e, same) = update_entry-find a m in
    (r, update_entries-find_other a.mac_address post _ last ∙ e, same)
update_entries-find (c ∷ pre) a post m last = update_entries-find pre a post _ last

is_gone-fetched :
    (pre : List Adapter) (a : Adapter) (post : List Adapter)
    → is_gone (pre ++ (a ∷ post)) a.mac_address ≡ false
unfolding is_gone
is_gone-fetched [] a post = rw (equal_text-IsEquality.reflexive a.mac_address) refl
is_gone-fetched (c ∷ pre) a post = elim (Bool-cases (equal_text c.mac_address a.mac_address)) [
  | inl same ↦ rw same refl
  | inr other ↦ rw other (is_gone-fetched pre a post)
]

is_gone-other :
    (k : Text) (cs : List Adapter) → All (λ c. c.mac_address ≢ k) cs → is_gone cs k ≡ true
unfolding is_gone
is_gone-other k [] h = refl
is_gone-other k (c ∷ cs) (other, others) = elim (Bool-cases (equal_text c.mac_address k)) [
  | inl same ↦ absurd (other (equal_text-IsEquality.sound c.mac_address k same))
  | inr e ↦ rw e (is_gone-other k cs others)
]

-- After an update a fetched adapter is found under its MAC address, the last one where several have
-- it, up to the flag of a loopback adapter.
pub update-fetched :
    (pre : List Adapter) (a : Adapter) (post : List Adapter) (m : AdapterManager)
    → All (λ c. c.mac_address ≢ a.mac_address) post
    → (r : Adapter) × (find_adapter_id a.mac_address (update (pre ++ (a ∷ post)) m) ≡ some r)
      × SameButLoopback r a
unfolding update remove_entries find_adapter_id
update-fetched pre a post m last =
    let (r, e, same) = update_entries-find pre a post m last in
    let gone = is_gone (pre ++ (a ∷ post)) in
    (
      r,
      find-erase_if_kept text_less text_less-IsOrder gone a.mac_address _
            (is_gone-fetched pre a post)
          ∙ e,
      same,
    )

-- After an update no adapter is found under a MAC address that was not fetched.
pub update-gone :
    (k : Text) (current : List Adapter) (m : AdapterManager)
    → All (λ c. c.mac_address ≢ k) current
    → find_adapter_id k (update current m) ≡ none
unfolding update remove_entries find_adapter_id
update-gone k current m h =
    find-erase_if_gone text_less text_less-IsOrder (is_gone current) k _ (is_gone-other k current h)

adapter_diff_refl : (a : Adapter) → adapter_diff a a ≡ []
unfolding adapter_diff line_if
adapter_diff_refl a =
    rw
      (
        equal_text-IsEquality.reflexive a.guid,
        equal_text-IsEquality.reflexive a.mac_address,
        equal_text-IsEquality.reflexive a.name,
        ==-IsEquality.reflexive a.index,
        equal_text-IsEquality.reflexive a.description,
        equal_bool-IsEquality.reflexive a.enabled,
        ==-IsEquality.reflexive a.mtu,
        ==-IsEquality.reflexive a.gateway,
        equal_address_list-IsEquality.reflexive a.address_list,
      )
      refl

adapter_diff-loopback : (a b : Adapter) → SameButLoopback a b → adapter_diff a b ≡ []
unfolding adapter_diff
adapter_diff-loopback a b same = ap (λ (c : Adapter). adapter_diff c b) same ∙ adapter_diff_refl b

-- A fetched adapter that differs from a known one in the flag of a loopback adapter alone is not
-- recorded, and no signal is sent.
pub update_entry-loopback :
    (a b : Adapter) (m : AdapterManager)
    → SameButLoopback a b
    → find_adapter_id b.mac_address m ≡ some a
    → update_entries (b ∷ []) m ≡ m
unfolding update_entries update_entry assign_if_changed find_adapter_id
update_entry-loopback a b m same known = rw known (elim (Bool-cases (equal_adapter b a)) [
  | inl equal ↦ rw equal refl
  | inr unequal ↦ rw unequal (rw (adapter_diff-loopback a b same) refl)
])
