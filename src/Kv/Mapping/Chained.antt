-- ===== src/Kv/Mapping/Chained.antt =====
-- The invariant of the mapping table: its links are a forest of finite chains.
use nvme_virt.Prelude.{ℕ, ◌<◌, ◌≤◌, ◌≡◌, ◌≢◌, true}
use nvme_virt.Kv.State.{no_slot, key_capacity, KvTable, Key, is_empty}

-- The slots can be put in an order in which every link goes forward; an empty slot has no link.
pub record IsChained (kv : KvTable) : Type 0 where
  pub rank : ℕ → ℕ
  pub some_slots : 0 < kv.hash_slots
  pub few_slots : kv.hash_slots < no_slot
  pub bound : (s : ℕ) → s < kv.hash_slots → rank s < kv.hash_slots
  pub distinct : (s t : ℕ) → s < kv.hash_slots → t < kv.hash_slots → rank s ≡ rank t → s ≡ t
  pub ends :
      (s : ℕ)
      → is_empty (kv.kv_mapping_table s) ≡ true
      → (kv.kv_mapping_table s).next_slot ≡ no_slot
  pub link :
      (s : ℕ)
      → s < kv.hash_slots
      → (kv.kv_mapping_table s).next_slot ≢ no_slot
      → ((kv.kv_mapping_table s).next_slot < kv.hash_slots)
        × (rank s < rank (kv.kv_mapping_table s).next_slot)

-- a key that fits its array and an entry
pub record IsShort (key : Key) : Type 0 where
  pub in_array : key.len ≤ key.size
  pub in_entry : key.len ≤ key_capacity
