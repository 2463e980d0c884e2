-- ===== src/Kv/Mapping/Removed.antt =====
-- What the deletion of a key does to the others: the slot is cut out of its chain, and the chain is not
-- joined again.
use nvme_virt.Prelude.{
  ℕ, zero, suc, ◌<◌, ◌≡◌, refl, sym, ap, ◌∙◌, Bool, true, false, Option, none, some, ◌==◌, ==_iff,
  if◌then◌else◌, Bool-cases, inl, inr, ◌>>=◌, Returns, returns, Returns-inv, arith,
}
use nvme_virt.Kv.State.{no_offset, no_slot, KvTable, Key, erased, is_empty, put_entry, same_bytes}
use nvme_virt.Kv.Mapping.{
  find_key, search_key, get_mapping_entry_by_key, delete_mapping_entry, copied_entry,
}
use nvme_virt.Kv.Mapping.Chained.{IsChained, IsShort}
use nvme_virt.Kv.Mapping.Search.{
  home, get_hash_slot-home, step_from, find_key-step, find_key-Returns,
}

-- What a command learns of a key: the place of its value and the length.
abbrev pub value_of : KvTable → Key → Option (ℕ × ℕ)
value_of kv key = do e ← get_mapping_entry_by_key kv key; some (e.mem_offset, e.length)

abbrev pub absent : ℕ × ℕ
absent = (no_offset, no_offset)

abbrev pub slot_value : KvTable → Option ℕ → ℕ × ℕ
slot_value kv none = absent
slot_value kv (some s) = ((kv.kv_mapping_table s).mem_offset, (kv.kv_mapping_table s).length)

pub value_of-slot :
    (kv : KvTable) (key : Key)
    → 0 < kv.hash_slots
    → IsShort key
    → value_of kv key
      ≡ (find_key (suc kv.hash_slots) kv key (home kv key) >>= λ r. some (slot_value kv r))
unfolding get_mapping_entry_by_key search_key
value_of-slot kv key h k =
    rw (get_hash_slot-home kv key h k) (by_slot (find_key (suc kv.hash_slots) kv key (home kv key)))
  where
    by_slot :
        (r : Option (Option ℕ))
        → ((r >>= λ found. some (copied_entry kv key found)) >>= λ e. some (e.mem_offset, e.length))
          ≡ (r >>= λ r. some (slot_value kv r))
    by_slot none = refl
    by_slot (some none) = refl
    by_slot (some (some s)) = refl

-- The search for `key` from the slot `s` on looks at the slot `d`.
unfoldable pub looks_at : ℕ → KvTable → Key → ℕ → ℕ → Bool
looks_at zero kv key d s = false
looks_at (suc fuel) kv key d s =
    let e = kv.kv_mapping_table s in
    let rest = looks_at fuel kv key d e.next_slot in
    if s == d
    then true
    else if is_empty e
    then false
    else if same_bytes key.bytes e.key key.len
    then false
    else if e.next_slot == no_slot
    then false
    else rest

module _ (kv : KvTable) (key : Key) (c : IsChained kv) (k : IsShort key) where
  erased_step :
      (d fuel s : ℕ)
      → s < kv.hash_slots
      → ((t : ℕ)
          → t < kv.hash_slots
          → find_key fuel (put_entry kv d erased) key t
            ≡ (if looks_at fuel kv key d t then some none else find_key fuel kv key t))
      → step_from fuel (put_entry kv d erased) key s
        ≡ (if looks_at (suc fuel) kv key d s then some none else step_from fuel kv key s)
  unfolding looks_at
  erased_step d fuel s h rec = elim (Bool-cases (s == d)) [
    | inl q ↦ rw q refl
    | inr q ↦ rw q (ground (arith, c.link s h, rec (kv.kv_mapping_table s).next_slot))
  ]

  -- The search ends at the erased slot if it looks at it, and is the same if it does not.
  pub find_key-erased :
      (d fuel s : ℕ)
      → s < kv.hash_slots
      → find_key fuel (put_entry kv d erased) key s
        ≡ (if looks_at fuel kv key d s then some none else find_key fuel kv key s)
  find_key-erased d zero s h = unfold find_key looks_at in refl
  find_key-erased d (suc fuel) s h =
      rw (find_key-step fuel (put_entry kv d erased) key s k h, find_key-step fuel kv key s k h)
        (erased_step d fuel s h (find_key-erased d fuel))

  found_step :
      (t fuel s : ℕ)
      → s < kv.hash_slots
      → ((u : ℕ)
          → u < kv.hash_slots
          → find_key fuel kv key u ≡ some (some t)
          → looks_at fuel kv key t u ≡ true)
      → step_from fuel kv key s ≡ some (some t)
      → looks_at (suc fuel) kv key t s ≡ true
  unfolding looks_at
  found_step t fuel s h rec p = ground (arith, c.link s h, rec (kv.kv_mapping_table s).next_slot)

  pub found-looks_at :
      (t fuel s : ℕ)
      → s < kv.hash_slots
      → find_key fuel kv key s ≡ some (some t)
      → looks_at fuel kv key t s ≡ true
  found-looks_at t zero s h p = absurd (unfold find_key in (cc))
  found-looks_at t (suc fuel) s h p =
      found_step t fuel s h (found-looks_at t fuel) (sym (find_key-step fuel kv key s k h) ∙ p)

pub erased-IsChained : (kv : KvTable) (d : ℕ) → IsChained kv → IsChained (put_entry kv d erased)
erased-IsChained kv d c = record {
  rank = c.rank;
  some_slots = c.some_slots;
  few_slots = c.few_slots;
  bound = c.bound;
  distinct = c.distinct;
  ends = λ s h. ground (arith, c.ends s);
  link = λ s h n. ground (arith, c.link s h);
}

pub home-lt : (kv : KvTable) (key : Key) → IsChained kv → home kv key < kv.hash_slots
home-lt kv key c = grind (arith, c.some_slots)

module _ (kv : KvTable) (c : IsChained kv) (d : ℕ) where
  value_at-erased :
      (q : Key) (r : Option ℕ)
      → IsShort q
      → find_key (suc kv.hash_slots) kv q (home kv q) ≡ some r
      → looks_at (suc kv.hash_slots) kv q d (home kv q) ≡ false
      → slot_value (put_entry kv d erased) r ≡ slot_value kv r
  value_at-erased q none k p l = refl
  value_at-erased q (some t) k p l =
      let seen = found-looks_at kv q c k t (suc kv.hash_slots) (home kv q) (home-lt kv q c) p in
      elim (Bool-cases (t == d)) [
        | inl e ↦
            let same : t ≡ d = (==_iff t d).0 e in
            absurd (let clash : true ≡ false = sym seen ∙ (rw same l) in cc)
        | inr e ↦ rw e refl
      ]

  value_of-erased :
      (q : Key)
      → IsShort q
      → value_of (put_entry kv d erased) q
        ≡ (if looks_at (suc kv.hash_slots) kv q d (home kv q) then some absent else value_of kv q)
  value_of-erased q k =
      let (r, found, _) =
        Returns-inv
          (find_key-Returns kv q c k kv.hash_slots (home kv q) (home-lt kv q c) (omega arith)) in
      rw
        (
          value_of-slot (put_entry kv d erased) q c.some_slots k,
          value_of-slot kv q c.some_slots k,
          find_key-erased kv q c k d (suc kv.hash_slots) (home kv q) (home-lt kv q c),
          found,
        )
        (elim (Bool-cases (looks_at (suc kv.hash_slots) kv q d (home kv q))) [
          | inl e ↦ rw e refl
          | inr e ↦ rw e (ap some (value_at-erased q r k found e))
        ])

-- The deletion of a key whose slot is `d` returns. The key is gone, and so is each key whose search
-- looks at `d`: those that stand behind it in a chain are lost. All others have the value they had, and
-- the table is still a forest of chains. Condition: the keys fit the entries.
pub delete_mapping_entry-Forgets :
    (kv : KvTable) (key : Key) (d : ℕ)
    → IsChained kv
    → IsShort key
    → search_key kv key ≡ some (some d)
    → Returns
        (λ (kv' : KvTable).
          (value_of kv' key ≡ some absent)
          × ((q : Key)
              → IsShort q
              → value_of kv' q ≡ (
                  if looks_at (suc kv.hash_slots) kv q d (home kv q)
                  then some absent
                  else value_of kv q))
          × IsChained kv')
        (delete_mapping_entry kv key)
unfolding delete_mapping_entry
delete_mapping_entry-Forgets kv key d c k found =
    let at_home : find_key (suc kv.hash_slots) kv key (home kv key) ≡ some (some d) =
      unfold search_key in (rw (get_hash_slot-home kv key c.some_slots k) at found) in
    let seen =
      found-looks_at kv key c k d (suc kv.hash_slots) (home kv key) (home-lt kv key c) at_home in
    rw found (
      returns (
        (value_of-erased kv c d key k ∙ (rw seen refl)),
        value_of-erased kv c d,
        erased-IsChained kv d c,
      ))
