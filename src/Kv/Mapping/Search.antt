-- ===== src/Kv/Mapping/Search.antt =====
-- The search for a key: it ends, and more fuel does not change what it finds.
use nvme_virt.Prelude.{
  ℕ, zero, suc, ◌+◌, ◌%◌, ◌≤◌, ◌<◌, ◌≡◌, sym, ◌∙◌, true, false, Option, none, some, ltb, leb, ◌==◌,
  ==_iff, if◌then◌else◌, Bool-cases, inl, inr, lt→ltb, Returns, returns, Returns-inv, Returns-if,
  arith,
}
use nvme_virt.Kv.State.{
  no_slot, MappingEntry, KvTable, Key, is_empty, hash_function, get_hash_slot, entry_at, same_bytes,
  matches,
}
use nvme_virt.Kv.Mapping.{find_key, search_key}
use nvme_virt.Kv.Mapping.Chained.{IsChained, IsShort}

-- the slot where a search begins
abbrev pub home : KvTable → Key → ℕ
home kv key = hash_function key.bytes key.len % kv.hash_slots

pub get_hash_slot-home :
    (kv : KvTable) (key : Key)
    → 0 < kv.hash_slots
    → IsShort key
    → get_hash_slot kv key ≡ some (home kv key)
unfolding get_hash_slot
get_hash_slot-home kv key h k =
    let fits : leb key.len key.size ≡ true = ground (arith, k.in_array) in
    let some_slots : ltb 0 kv.hash_slots ≡ true = ground arith in rw (fits, some_slots)

pub matches-same :
    (key : Key) (e : MappingEntry)
    → IsShort key
    → matches key e ≡ some (same_bytes key.bytes e.key key.len)
unfolding matches
matches-same key e k =
    let fits : leb key.len key.size ≡ true = ground (arith, k.in_array) in
    let small : leb key.len 18 ≡ true = ground (arith, k.in_entry) in rw (fits, small)

pub entry_at-in :
    (kv : KvTable) (s : ℕ) → s < kv.hash_slots → entry_at kv s ≡ some (kv.kv_mapping_table s)
unfolding entry_at
entry_at-in kv s h = rw (lt→ltb s kv.hash_slots h)

-- What one step of the search gives for a key that fits.
abbrev pub step_from : ℕ → KvTable → Key → ℕ → Option (Option ℕ)
step_from fuel kv key s =
    let e = kv.kv_mapping_table s in
    if is_empty e
    then some none
    else if same_bytes key.bytes e.key key.len
    then some (some s)
    else if e.next_slot == no_slot
    then some none
    else find_key fuel kv key e.next_slot

pub find_key-step :
    (fuel : ℕ) (kv : KvTable) (key : Key) (s : ℕ)
    → IsShort key
    → s < kv.hash_slots
    → find_key (suc fuel) kv key s ≡ step_from fuel kv key s
unfolding find_key
find_key-step fuel kv key s k h =
    rw (entry_at-in kv s h, matches-same key (kv.kv_mapping_table s) k)

module _ (kv : KvTable) (key : Key) (c : IsChained kv) (k : IsShort key) where
  -- The search returns, with a slot of the table if it finds one.
  pub find_key-Returns :
      (fuel s : ℕ)
      → s < kv.hash_slots
      → kv.hash_slots ≤ fuel + c.rank s
      → Returns
          (λ (r : Option ℕ). (t : ℕ) → r ≡ some t → t < kv.hash_slots)
          (find_key (suc fuel) kv key s)
  find_key-Returns zero s h f = absurd (omega (arith, c.bound s h))
  find_key-Returns (suc fuel) s h f =
      let e = kv.kv_mapping_table s in
      rw (find_key-step (suc fuel) kv key s k h) (
        Returns-if (is_empty e) (λ q. returns (λ t p. cc))
          λ q.
            Returns-if (same_bytes key.bytes e.key key.len)
              (λ w. returns (λ t p. ground (arith, h)))
              λ w.
                Returns-if (e.next_slot == no_slot) (λ z. returns (λ t p. cc))
                  λ z.
                    let (inside, up) = c.link s h (ground (arith, z)) in
                    find_key-Returns fuel e.next_slot inside (omega arith))

  pub search_key-Returns :
      Returns (λ (r : Option ℕ). (t : ℕ) → r ≡ some t → t < kv.hash_slots) (search_key kv key)
  unfolding search_key
  search_key-Returns =
      rw (get_hash_slot-home kv key c.some_slots k)
        (find_key-Returns kv.hash_slots (home kv key) (grind (arith, c.some_slots)) (omega arith))

  step_mono :
      (fuel s : ℕ) (r : Option ℕ)
      → s < kv.hash_slots
      → ((t : ℕ) (r : Option ℕ)
          → t < kv.hash_slots
          → find_key fuel kv key t ≡ some r
          → find_key (suc fuel) kv key t ≡ some r)
      → step_from fuel kv key s ≡ some r
      → step_from (suc fuel) kv key s ≡ some r
  step_mono fuel s r h rec p = ground (arith, c.link s h, rec (kv.kv_mapping_table s).next_slot r)

  pub find_key_mono :
      (fuel s : ℕ) (r : Option ℕ)
      → s < kv.hash_slots
      → find_key fuel kv key s ≡ some r
      → find_key (suc fuel) kv key s ≡ some r
  unfolding find_key
  find_key_mono zero s r h p = absurd (cc)
  find_key_mono (suc fuel) s r h p =
      rw (find_key-step (suc fuel) kv key s k h)
        (step_mono fuel s r h (find_key_mono fuel) (rw (← find_key-step fuel kv key s k h) p))

  full_step :
      (fuel s t : ℕ)
      → s < kv.hash_slots
      → ((u : ℕ)
          → u < kv.hash_slots
          → find_key fuel kv key u ≡ some (some t)
          → is_empty (kv.kv_mapping_table t) ≡ false)
      → step_from fuel kv key s ≡ some (some t)
      → is_empty (kv.kv_mapping_table t) ≡ false
  full_step fuel s t h rec p = elim (Bool-cases (s == t)) [
    | inl e ↦
        let same : s ≡ t = (==_iff s t).0 e in
        let p' : step_from fuel kv key t ≡ some (some t) = rw same at p in ground (arith, p')
    | inr e ↦ ground (arith, c.link s h, rec (kv.kv_mapping_table s).next_slot)
  ]

  -- A slot that is found is taken.
  pub find_key-full :
      (t fuel s : ℕ)
      → s < kv.hash_slots
      → find_key fuel kv key s ≡ some (some t)
      → is_empty (kv.kv_mapping_table t) ≡ false
  find_key-full t zero s h p = absurd (unfold find_key in (cc))
  find_key-full t (suc fuel) s h p =
      full_step fuel s t h (find_key-full t fuel) (sym (find_key-step fuel kv key s k h) ∙ p)

  -- A round more than there are slots finds nothing new.
  pub find_key-settled :
      (s : ℕ) (r : Option ℕ)
      → s < kv.hash_slots
      → find_key (suc (suc kv.hash_slots)) kv key s ≡ some r
      → find_key (suc kv.hash_slots) kv key s ≡ some r
  find_key-settled s r h p =
      let (r', found, _) = Returns-inv (find_key-Returns kv.hash_slots s h (omega arith)) in
      found ∙ sym (find_key_mono (suc kv.hash_slots) s r' h found) ∙ p
