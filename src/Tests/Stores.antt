-- ===== src/Tests/Stores.antt =====
-- The theorems on the key-value namespace at a table of two slots, and runs of the model.
use nvme_virt.Prelude.{
  ℕ, ◌%◌, ◌<◌, ◌≡◌, refl, true, none, some, ◌==◌, if◌then◌else◌, Returns, arith,
}
use nvme_virt.Worker.Prp.{Memory}
use nvme_virt.Worker.Prp.Bytes.{prp_address}
use nvme_virt.Kv.State.{
  no_slot, MappingEntry, KvTable, Key, erased, hash_function, get_hash_slot, entry_at, same_bytes,
  matches,
}
use nvme_virt.Kv.Mapping.{find_key, search_key, new_mapping_entry_by_key, delete_mapping_entry}
use nvme_virt.Kv.Mapping.Chained.{IsChained, IsShort}
use nvme_virt.Kv.Mapping.Search.{home}
use nvme_virt.Kv.Mapping.Removed.{value_of, absent, looks_at, delete_mapping_entry-Forgets}
use nvme_virt.Kv.Mapping.Inserted.{Apart, new_mapping_entry_by_key-Inserted}
use nvme_virt.Kv.Allocate.{AppendOnly, append_only_ops}
use nvme_virt.Kv.Command.{KvOpcode, cmd_kv_store, cmd_kv_retrieve, KvCommand, KvFtl, cmd_key}
use nvme_virt.Kv.Perform.{KvDone}
use nvme_virt.Kv.Perform.Commands.{IsStorable}
use nvme_virt.Kv.Perform.RoundTrip.{IsRetrieve, store_and_retrieve, store-retrieve}

program : Unit {0}
unfolding hash_function get_hash_slot entry_at same_bytes matches find_key search_key
program = tt

-- a key of one byte; odd bytes have slot 0 of two
abbrev pub one_byte : ℕ → Key
one_byte b = record { bytes = λ i. b; size = 16; len = 1 }

-- key 1 in slot 0, and key 3 behind it in slot 1
abbrev entry_of : ℕ → ℕ → ℕ → MappingEntry
entry_of b offset next = record { key = λ i. b; mem_offset = offset; length = 4; next_slot = next }

abbrev two_keys : KvTable
two_keys = record {
  kv_mapping_table =
      λ s. if s == 0 then entry_of 1 64 1 else if s == 1 then entry_of 3 128 no_slot else erased;
  hash_slots = 2;
  storage_size = 4096;
}

two_keys-IsChained : IsChained two_keys
two_keys-IsChained = record {
  rank = λ s. s;
  some_slots = omega arith;
  few_slots = omega arith;
  bound = λ s h. h;
  distinct = λ s t h g e. e;
  ends = λ s h. ground arith;
  link = λ s h n. ground arith;
}

pub one_byte-IsShort : (b : ℕ) → IsShort (one_byte b)
one_byte-IsShort b = record { in_array = omega arith; in_entry = omega arith }

search-one : search_key two_keys (one_byte 1) ≡ some (some 0)
unfolding program
search-one = refl

delete_mapping_entry-Forgets_example :
    Returns
      (λ (kv' : KvTable).
        (value_of kv' (one_byte 1) ≡ some absent)
        × ((q : Key)
            → IsShort q
            → value_of kv' q ≡ (
                if looks_at 3 two_keys q 0 (home two_keys q)
                then some absent
                else value_of two_keys q))
        × IsChained kv')
      (delete_mapping_entry two_keys (one_byte 1))
delete_mapping_entry-Forgets_example =
    delete_mapping_entry-Forgets two_keys (one_byte 1) 0 two_keys-IsChained (one_byte-IsShort 1)
      search-one

-- the key behind it is lost
key_three_lost : looks_at 3 two_keys (one_byte 3) 0 (home two_keys (one_byte 3)) ≡ true
unfolding program looks_at
key_three_lost = refl

abbrev one_key : KvTable
one_key = record {
  kv_mapping_table = λ s. if s == 0 then entry_of 1 64 no_slot else erased;
  hash_slots = 2;
  storage_size = 4096;
}

one_key-IsChained : IsChained one_key
one_key-IsChained = record {
  rank = λ s. s;
  some_slots = omega arith;
  few_slots = omega arith;
  bound = λ s h. h;
  distinct = λ s t h g e. e;
  ends = λ s h. ground arith;
  link = λ s h n. absurd (ground arith);
}

search-three : search_key one_key (one_byte 3) ≡ some none
unfolding program
search-three = refl

new_mapping_entry_by_key-Inserted_example :
    Returns
      (λ (kv' : KvTable).
        (value_of kv' (one_byte 3) ≡ some (128, 4))
        × ((q : Key) → IsShort q → Apart (one_byte 3) q → value_of kv' q ≡ value_of one_key q)
        × IsChained kv')
      (new_mapping_entry_by_key one_key (one_byte 3) 4 128)
new_mapping_entry_by_key-Inserted_example =
    new_mapping_entry_by_key-Inserted one_key (one_byte 3) 4 128 1 one_key-IsChained
      (one_byte-IsShort 3) search-three (omega arith) refl (omega arith) (omega arith)

abbrev pub ftl : KvFtl AppendOnly
ftl = record {
  mapping = one_key;
  pool = record { latest = 128; dev_size = 4096; total_written = 128 };
  iter_handle = λ i. none;
}

abbrev pub command : KvOpcode → ℕ → KvCommand
command op prp1 = record {
  opcode = op;
  key = λ i. 3;
  key_len = 0;
  value_len = 2;
  prp1 = prp1;
  prp2 = 0;
  sub_cmd_cnt = 0;
  iter_handle = 0;
  iter_option = 0;
  iter_val = 0;
  iter_bitmask = 0;
  slba = 0;
  rw_length = 0;
}

abbrev pub memory : Memory
memory = record { host = λ a. a % 256; storage = λ a. 0 }

search-command : search_key one_key (cmd_key (command cmd_kv_store 4096)) ≡ some none
unfolding program
search-command = refl

storable :
    IsStorable append_only_ops ftl
      (command cmd_kv_store 4096)
      memory
      128
      (record { latest = 136; dev_size = 4096; total_written = 136 })
storable = record {
  opcode = refl;
  chained = one_key-IsChained;
  short = omega arith;
  new = search-command;
  free = 1;
  free_inside = omega arith;
  free_empty = refl;
  allocated = refl;
  in_storage = omega arith;
  real = omega arith;
  listed = record {
    page = λ h. refl;
    entries = λ h. absurd (omega arith);
    fits = λ h. absurd (omega arith);
  };
}

retrievable : IsRetrieve memory.host (command cmd_kv_retrieve 8192) 8
retrievable = record {
  opcode = refl;
  listed = record {
    page = λ h. refl;
    entries = λ h. absurd (omega arith);
    fits = λ h. absurd (omega arith);
  };
  apart = record {
    inj = λ i j h g e. ground (arith, h, g, e);
    list = λ i b j h. absurd (omega (arith, h));
  };
}

store-retrieve_example :
    Returns
      (λ (d : KvDone AppendOnly).
        (d.result ≡ 8)
        × (d.status ≡ 0)
        × ((j : ℕ)
            → j < 8
            → d.memory.host (prp_address memory.host 8192 0 8 j)
              ≡ memory.host (prp_address memory.host 4096 0 8 j)))
      (store_and_retrieve append_only_ops ftl
        (command cmd_kv_store 4096)
        (command cmd_kv_retrieve 8192)
        memory
        0)
store-retrieve_example =
    store-retrieve append_only_ops ftl (command cmd_kv_store 4096) (command cmd_kv_retrieve 8192)
      memory 0 128 (record { latest = 136; dev_size = 4096; total_written = 136 }) storable
      retrievable refl
