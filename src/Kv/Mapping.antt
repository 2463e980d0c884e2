-- ===== src/Kv/Mapping.antt =====
-- The functions of kv_ftl.c on the mapping table: a slot that is taken is the head of a chain, and a
-- new key goes to the next empty slot behind the end of its chain. Fuel that runs out gives `none`.
pub mod Chained
pub mod Search
pub mod Removed
pub mod Places
pub mod Extended
pub mod Reordered
pub mod Kept
pub mod Inserted
use nvme_virt.Prelude.{
  ℕ, zero, suc, ◌+◌, ◌≤◌, Bool, true, false, Option, some, none, ltb, leb, ◌==◌, ◌&&◌, not,
  if◌then◌else◌, u32, ◌>>=◌, ◌>>◌, assert,
}
use nvme_virt.Kv.State.{
  no_offset, no_slot, key_capacity, MappingEntry, KvTable, Key, erased, is_empty, get_hash_slot,
  entry_at, put_entry, matches,
}

-- The first loop of `find_next_slot`; `prevs` is the slot before `tail`.
pub find_tail : ℕ → KvTable → ℕ → ℕ → Option ℕ
find_tail zero kv prevs tail = none
find_tail (suc fuel) kv prevs tail = do
  e ← entry_at kv tail
  let rest = find_tail fuel kv tail e.next_slot
  if is_empty e then some prevs else if e.next_slot == no_slot then some tail else rest

-- `ret_slot++`, and back to the start behind the last slot
abbrev pub slot_after : KvTable → ℕ → ℕ
slot_after kv slot = if leb kv.hash_slots (u32 (slot + 1)) then 0 else u32 (slot + 1)

-- The second loop of `find_next_slot`.
pub probe : ℕ → KvTable → ℕ → Option ℕ
probe zero kv slot = none
probe (suc fuel) kv slot = do
  e ← entry_at kv slot
  let rest = probe fuel kv (slot_after kv slot)
  if is_empty e then some slot else rest

-- `ret_slot` and `*prev_slot`
unfoldable pub find_next_slot : KvTable → ℕ → Option (ℕ × ℕ)
find_next_slot kv original_slot = do
  prevs ← find_tail (suc kv.hash_slots) kv no_slot original_slot
  ret_slot ← probe (suc kv.hash_slots) kv prevs
  some (ret_slot, prevs)

-- `memcpy` of the key, and the two other fields; `next_slot` stays.
unfoldable pub write_entry : KvTable → ℕ → Key → ℕ → ℕ → Option KvTable
write_entry kv slot key val_offset val_len = do
  e ← entry_at kv slot
  assert (leb key.len key.size && leb key.len key_capacity)
  some (
      put_entry kv slot (record e {
        key = λ i. if ltb i key.len then key.bytes i else e.key i;
        mem_offset = val_offset;
        length = val_len;
      }))

unfoldable pub chain_mapping : KvTable → ℕ → ℕ → Option KvTable
chain_mapping kv prev slot = do
  e ← entry_at kv prev
  some (put_entry kv prev (record e { next_slot = slot }))

-- The slot for a new key, and the one before it in its chain, or -1.
unfoldable pub place : KvTable → ℕ → Option (ℕ × ℕ)
place kv slot = do
  e ← entry_at kv slot
  if is_empty e then some (slot, no_slot) else find_next_slot kv slot

-- A value offset behind the storage is a BUG_ON.
unfoldable pub new_mapping_entry_by_key : KvTable → Key → ℕ → ℕ → Option KvTable
new_mapping_entry_by_key kv key val_len val_offset = do
  assert (ltb val_offset kv.storage_size)
  home ← get_hash_slot kv key
  (slot, prev_slot) ← place kv home
  kv' ← write_entry kv slot key val_offset val_len
  if prev_slot == no_slot then some kv' else chain_mapping kv' prev_slot slot

-- The loop that looks for a key from `slot` on, with the slot where it is found.
unfoldable pub find_key : ℕ → KvTable → Key → ℕ → Option (Option ℕ)
find_key zero kv key slot = none
find_key (suc fuel) kv key slot = do
  e ← entry_at kv slot
  let rest = if e.next_slot == no_slot then some none else find_key fuel kv key e.next_slot
  let compare = do same ← matches key e; if same then some (some slot) else rest
  if is_empty e then some none else compare

unfoldable pub search_key : KvTable → Key → Option (Option ℕ)
search_key kv key = do slot ← get_hash_slot kv key; find_key (suc kv.hash_slots) kv key slot

-- What is copied from a slot found; all bytes are -1 if there is none.
abbrev pub copied_entry : KvTable → Key → Option ℕ → MappingEntry
copied_entry kv key none = erased
copied_entry kv key (some slot) =
    let e = kv.kv_mapping_table slot in
    record e { key = λ i. if ltb i key.len then e.key i else 255 }

unfoldable pub get_mapping_entry_by_key : KvTable → Key → Option MappingEntry
get_mapping_entry_by_key kv key = do found ← search_key kv key; some (copied_entry kv key found)

-- The new length of a key that is found; the result is 1 if it is not.
abbrev pub with_length : KvTable → ℕ → Option ℕ → ℕ × KvTable
with_length kv val_len none = (1, kv)
with_length kv val_len (some slot) =
    (0, put_entry kv slot (record (kv.kv_mapping_table slot) { length = val_len }))

unfoldable pub update_mapping_entry : KvTable → Key → ℕ → Option (ℕ × KvTable)
update_mapping_entry kv key val_len = do
  found ← search_key kv key
  some (with_length kv val_len found)

-- The slot found is overwritten with -1. The mapping returned is not filled in, and nothing reads it.
abbrev pub without : KvTable → Option ℕ → KvTable
without kv none = kv
without kv (some slot) = put_entry kv slot erased

unfoldable pub delete_mapping_entry : KvTable → Key → Option KvTable
delete_mapping_entry kv key = do found ← search_key kv key; some (without kv found)
