-- ===== src/Kv/Mapping/Inserted.antt =====
-- `new_mapping_entry`: a new key is found with its value, and the keys that differ from it keep theirs.
use nvme_virt.Prelude.{
  ℕ, suc, ◌<◌, ◌≡◌, ◌≢◌, ◌⊎◌, refl, sym, ap, ◌∙◌, true, false, none, some, ltb, leb, ◌==◌, ==_iff,
  if◌then◌else◌, Bool-cases, inl, inr, lt→ltb, Returns, returns, Returns-bind, arith,
}
use nvme_virt.Kv.State.{no_offset, no_slot, MappingEntry, KvTable, Key, is_empty, put_entry}
use nvme_virt.Kv.State.Bytes.{same_bytes-apart, same_bytes-all}
use nvme_virt.Kv.Mapping.{
  find_tail, find_key, search_key, write_entry, chain_mapping, new_mapping_entry_by_key,
}
use nvme_virt.Kv.Mapping.Chained.{IsChained, IsShort}
use nvme_virt.Kv.Mapping.Search.{home, get_hash_slot-home, entry_at-in}
use nvme_virt.Kv.Mapping.Places.{IsTail, place-Placed}
use nvme_virt.Kv.Mapping.Extended.{Extends, find_key-new, at_hit}
use nvme_virt.Kv.Mapping.Reordered.{extends-IsChained}
use nvme_virt.Kv.Mapping.Kept.{value_of-at, value_of-kept}
use nvme_virt.Kv.Mapping.Removed.{home-lt, value_of, slot_value}

-- Two keys differ at a byte that both have.
abbrev pub Apart : Key → Key → Type 0
Apart a b = (i : ℕ) × (i < a.len) × (i < b.len) × (a.bytes i ≢ b.bytes i)

-- what is written to the slot of a new key
abbrev new_entry : MappingEntry → Key → ℕ → ℕ → MappingEntry
new_entry e key val_offset val_len = record e {
  key = λ i. if ltb i key.len then key.bytes i else e.key i;
  mem_offset = val_offset;
  length = val_len;
}

abbrev linked : KvTable → ℕ → ℕ → KvTable
linked kv p n = put_entry kv p (record (kv.kv_mapping_table p) { next_slot = n })

write_entry-some :
    (kv : KvTable) (n : ℕ) (key : Key) (val_offset val_len : ℕ)
    → n < kv.hash_slots
    → IsShort key
    → write_entry kv n key val_offset val_len
      ≡ some (put_entry kv n (new_entry (kv.kv_mapping_table n) key val_offset val_len))
unfolding write_entry
write_entry-some kv n key val_offset val_len h k =
    let fits : leb key.len key.size ≡ true = ground (arith, k.in_array) in
    let small : leb key.len 18 ≡ true = ground (arith, k.in_entry) in
    rw (entry_at-in kv n h, fits, small)

module _ (kv : KvTable) (c : IsChained kv) (n : ℕ) (h : n < kv.hash_slots)
    (free : is_empty (kv.kv_mapping_table n) ≡ true) (key : Key) (val_offset val_len : ℕ)
    (real : val_offset ≢ no_offset) where
  abbrev written : KvTable
  written = put_entry kv n (new_entry (kv.kv_mapping_table n) key val_offset val_len)

  written-Extends : Extends kv written n
  written-Extends = record {
    slots = refl;
    inside = h;
    was_empty = free;
    now_full = ground arith;
    now_last = ground (arith, c.ends n free);
    others = λ s e. inl (ground arith);
  }

  linked-Extends : (p : ℕ) → IsTail kv p → Extends kv (linked written p n) n
  linked-Extends p t =
      let other : n ≢ p =
        λ (e : n ≡ p). (let clash : true ≡ false = sym free ∙ (rw e (t.1)) in cc) in
      record {
        slots = refl;
        inside = h;
        was_empty = free;
        now_full = ground (arith, other);
        now_last = ground (arith, other, c.ends n free);
        others = λ s e. elim (Bool-cases (s == p)) [
          | inl q ↦
              let same : s ≡ p = (==_iff s p).0 q in
              inr (rw same t, rw (same, (==_iff p p).1 refl) (ground (arith, other)))
          | inr q ↦ inl (rw q (ground (arith, e)))
        ];
      }

-- What a store promises of the table behind it.
abbrev Stored : KvTable → Key → ℕ → ℕ → KvTable → Type 0
Stored kv key val_len val_offset kv' =
    (value_of kv' key ≡ some (val_offset, val_len))
    × ((q : Key) → IsShort q → Apart key q → value_of kv' q ≡ value_of kv q)
    × IsChained kv'

stored :
    (kv kv' : KvTable) (key : Key) (val_len val_offset n : ℕ)
    → IsChained kv
    → Extends kv kv' n
    → IsShort key
    → ((i : ℕ) → i < key.len → (kv'.kv_mapping_table n).key i ≡ key.bytes i)
    → slot_value kv' (some n) ≡ (val_offset, val_len)
    → find_key (suc (suc kv.hash_slots)) kv' key (home kv key) ≡ some (some n)
    → Stored kv key val_len val_offset kv'
stored kv kv' key val_len val_offset n c x k bytes value found = (
  value_of-at kv kv' n c x key (some n) k found ∙ ap some value,
  λ q kq (i, a, b, e). value_of-kept kv kv' n c x q kq (
      same_bytes-apart q.bytes (kv'.kv_mapping_table n).key q.len i b
        (λ w. e (sym (w ∙ bytes i a)))),
  extends-IsChained kv kv' n c x,
)

-- the two ways in which the new slot is reached
at_place :
    (kv : KvTable) (key : Key) (val_len val_offset : ℕ)
    → (c : IsChained kv) → IsShort key
    → find_key (suc kv.hash_slots) kv key (home kv key) ≡ some none
    → (real : val_offset ≢ no_offset) → (n prev : ℕ) → (inside : n < kv.hash_slots)
    → (empty : is_empty (kv.kv_mapping_table n) ≡ true)
    → (((n ≡ home kv key) × (prev ≡ no_slot))
        ⊎ ((is_empty (kv.kv_mapping_table (home kv key)) ≡ false)
            × IsTail kv prev
            × (find_tail (suc kv.hash_slots) kv no_slot (home kv key) ≡ some prev)))
    → Returns (Stored kv key val_len val_offset) (
        if prev == no_slot
        then some (written kv c n inside empty key val_offset val_len real)
        else chain_mapping (written kv c n inside empty key val_offset val_len real) prev n)
unfolding chain_mapping
at_place kv key val_len val_offset c k new real n prev inside empty (inl (at_home, none_before)) =
    let x = written-Extends kv c n inside empty key val_offset val_len real in
    let kv' = written kv c n inside empty key val_offset val_len real in
    let bytes : (i : ℕ) → i < key.len → (kv'.kv_mapping_table n).key i ≡ key.bytes i =
      λ i l. ground (arith, l) in
    let hit =
      same_bytes-all key.bytes (kv'.kv_mapping_table n).key key.len (λ i l. sym (bytes i l)) in
    rw none_before (
      returns (
        stored kv kv' key val_len val_offset n c x k bytes (ground arith)
          (rw (← at_home) (at_hit kv kv' n c x key k (suc kv.hash_slots) hit))))
at_place kv key val_len val_offset c k new real n prev inside empty (inr (taken, t, tail)) =
    let w = written kv c n inside empty key val_offset val_len real in
    let kv' = linked w prev n in
    let x = linked-Extends kv c n inside empty key val_offset val_len real prev t in
    let link : (prev == no_slot) ≡ false = ground (arith, t.0, c.few_slots) in
    let other : n ≢ prev =
      λ (e : n ≡ prev). (let clash : true ≡ false = sym empty ∙ (rw e t.1) in cc) in
    let bytes : (i : ℕ) → i < key.len → (kv'.kv_mapping_table n).key i ≡ key.bytes i =
      λ i l. ground (arith, l, other) in
    let hit =
      same_bytes-all key.bytes (kv'.kv_mapping_table n).key key.len (λ i l. sym (bytes i l)) in
    rw (link, entry_at-in w prev t.0)
      (returns (
        stored kv kv' key val_len val_offset n c x k bytes (ground (arith, other)) (
          find_key-new kv kv' n c x key k prev (ground (arith, other)) hit (suc kv.hash_slots)
            (suc kv.hash_slots) no_slot (home kv key) (home-lt kv key c) taken new tail)))

-- A new key is stored: the call returns, the key then has its value, every key that differs from it at a
-- byte of both has the value it had, and the table is still a forest of chains. Conditions: the key fits
-- and is not found, some slot is empty, and the offset lies in the storage.
pub new_mapping_entry_by_key-Inserted :
    (kv : KvTable) (key : Key) (val_len val_offset free : ℕ)
    → IsChained kv
    → IsShort key
    → search_key kv key ≡ some none
    → free < kv.hash_slots
    → is_empty (kv.kv_mapping_table free) ≡ true
    → val_offset < kv.storage_size
    → val_offset ≢ no_offset
    → Returns
        (λ (kv' : KvTable).
          (value_of kv' key ≡ some (val_offset, val_len))
          × ((q : Key) → IsShort q → Apart key q → value_of kv' q ≡ value_of kv q)
          × IsChained kv')
        (new_mapping_entry_by_key kv key val_len val_offset)
unfolding new_mapping_entry_by_key
new_mapping_entry_by_key-Inserted kv key val_len val_offset free c k new g e small real =
    let h = home-lt kv key c in
    let in_storage : ltb val_offset kv.storage_size ≡ true =
      lt→ltb val_offset kv.storage_size small in
    rw (in_storage, get_hash_slot-home kv key c.some_slots k)
      (Returns-bind (place-Placed kv (home kv key) free c h g e) λ (n, prev) (inside, empty, at).
        rw (write_entry-some kv n key val_offset val_len inside k) (
          at_place kv key val_len val_offset c k
            (unfold search_key in (rw (get_hash_slot-home kv key c.some_slots k) at new)) real n
            prev inside empty at))
