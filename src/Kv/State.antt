-- ===== src/Kv/State.antt =====
-- The mapping table of kv_ftl.h and its hash. The table is a function of the slot, read and written only
-- below `hash_slots`; a result `none` is an access outside an array.
pub mod Bytes
use nvme_virt.Prelude.{
  ℕ, zero, suc, ◌+◌, ◌*◌, ◌%◌, ◌^◌, Bool, true, Option, some, none, ltb, leb, ◌==◌, ◌&&◌,
  if◌then◌else◌, u8, u32, ◌>>=◌, ◌>>◌, assert,
}
use Prim.Native.Nat.{bit_xor}

-- -1 as a `size_t` and as an `unsigned int`
abbrev pub no_offset : ℕ
no_offset = 0xffff_ffff_ffff_ffff

abbrev pub no_slot : ℕ
no_slot = 0xffff_ffff

abbrev pub key_capacity : ℕ
key_capacity = 18

pub record MappingEntry : Type 0 where
  pub key : ℕ → ℕ
  pub mem_offset : ℕ
  pub length : ℕ
  pub next_slot : ℕ

-- `storage_size` is that of `nvmev_vdev->config`.
pub record KvTable : Type 0 where
  pub kv_mapping_table : ℕ → MappingEntry
  pub hash_slots : ℕ
  pub storage_size : ℕ

-- The first `len` bytes of an array of `size` bytes.
pub record Key : Type 0 where
  pub bytes : ℕ → ℕ
  pub size : ℕ
  pub len : ℕ

-- `memset(&mapping, -1, sizeof(struct mapping_entry))`
abbrev pub erased : MappingEntry
erased = record { key = λ i. 255; mem_offset = no_offset; length = no_offset; next_slot = no_slot }

abbrev pub is_empty : MappingEntry → Bool
is_empty e = e.mem_offset == no_offset

-- The loop of `hash_function`, over the first bytes of the key.
unfoldable pub hash_function : (ℕ → ℕ) → ℕ → ℕ
hash_function p zero = 2166136261
hash_function p (suc n) = bit_xor (u32 (hash_function p n * 16777619)) (u8 (p n))

-- A remainder by 0 is a fault.
unfoldable pub get_hash_slot : KvTable → Key → Option ℕ
get_hash_slot kv key = do
  assert (leb key.len key.size && ltb 0 kv.hash_slots)
  some (hash_function key.bytes key.len % kv.hash_slots)

unfoldable pub entry_at : KvTable → ℕ → Option MappingEntry
entry_at kv slot = do assert (ltb slot kv.hash_slots); some (kv.kv_mapping_table slot)

abbrev pub put_entry : KvTable → ℕ → MappingEntry → KvTable
put_entry kv slot e = record kv {
  kv_mapping_table = λ s. if s == slot then e else kv.kv_mapping_table s;
}

-- the first `n` bytes of two arrays agree
unfoldable pub same_bytes : (ℕ → ℕ) → (ℕ → ℕ) → ℕ → Bool
same_bytes a b zero = true
same_bytes a b (suc n) = same_bytes a b n && (a n == b n)

-- `memcmp(key, entry.key, key_len) == 0`
unfoldable pub matches : Key → MappingEntry → Option Bool
matches key e = do
  assert (leb key.len key.size && leb key.len key_capacity)
  some (same_bytes key.bytes e.key key.len)
