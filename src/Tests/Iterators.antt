-- ===== src/Tests/Iterators.antt =====
-- The theorems on the iterators, and on the tables that are reached, at tables of two slots.
use nvme_virt.Prelude.{
  ℕ, ◌==◌, ◌≡◌, refl, Option, none, some, ltb, if◌then◌else◌, false, Returns, arith,
}
use nvme_virt.Kv.Allocate.{AppendOnly}
use nvme_virt.Kv.Command.{cmd_kv_iter_read, KvCommand, IterContext, KvFtl}
use nvme_virt.Kv.Iterate.Scanned.{count_wanted}
use nvme_virt.Kv.State.{
  KvTable, hash_function, get_hash_slot, entry_at, same_bytes, matches, put_entry,
}
use nvme_virt.Kv.Mapping.{find_key, search_key, new_mapping_entry_by_key, place, write_entry}
use nvme_virt.Kv.Namespace.{init_table, empty_entry}
use nvme_virt.Kv.Namespace.Reached.{start, later, insert, Holds, Reach-searches}
use nvme_virt.Tests.Stores.{ftl, command, one_byte, one_byte-IsShort}

-- an iterator over the keys that begin with an odd byte
abbrev odd_keys : IterContext
odd_keys = record {
  prefix = 1;
  bitmask = 1;
  buf = λ a. 0;
  byteswritten = 0;
  bufoffset = 0;
  ended = false;
  current_pos = 0;
}

abbrev with_iterator : KvFtl AppendOnly
with_iterator = record ftl { iter_handle = λ i. if i == 1 then some odd_keys else none }

abbrev iter_read : KvCommand
iter_read = record (command cmd_kv_iter_read 8192) { iter_handle = 1 }

one_odd_key : count_wanted with_iterator.mapping odd_keys 0 2 ≡ 1
unfolding count_wanted
one_odd_key = refl

-- the table of the construction, and key 1 in its slot
abbrev empty_table : KvTable
empty_table = init_table 2 4096

abbrev table_with_one : KvTable
table_with_one =
    put_entry empty_table 0
      (record empty_entry { key = λ i. if ltb i 1 then 1 else 0; mem_offset = 64; length = 4 })

search-empty : search_key empty_table (one_byte 1) ≡ some none
unfolding hash_function get_hash_slot entry_at same_bytes matches find_key search_key
search-empty = refl

insert-one : new_mapping_entry_by_key empty_table (one_byte 1) 4 64 ≡ some table_with_one
unfolding hash_function get_hash_slot entry_at same_bytes matches find_key search_key
    new_mapping_entry_by_key place write_entry
insert-one = refl

Reach-searches_example :
    Returns
      (λ (r : Option ℕ). (t : ℕ) → r ≡ some t → Holds table_with_one (one_byte 3) t)
      (search_key table_with_one (one_byte 3))
Reach-searches_example =
    Reach-searches (one_byte 3) (omega arith) (omega arith)
      (later start (
        insert empty_table table_with_one (one_byte 1) 4 64 0 (one_byte-IsShort 1) search-empty
          (omega arith) refl (omega arith) (omega arith) insert-one))
      (one_byte-IsShort 3)
