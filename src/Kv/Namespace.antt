-- ===== src/Kv/Namespace.antt =====
-- The construction and the dispatch of a key-value namespace.
pub mod Reached
use nvme_virt.Prelude.{ℕ, ◌/◌, ◌^◌, List, Option, some, none, if◌then◌else◌, ltb, ◌>>=◌}
use nvme_virt.Simple.{
  UnitConfig, unit_write, unit_read, cmd_io_size, schedule_io_units, schedule_flush,
}
use nvme_virt.Worker.Prp.{Memory}
use nvme_virt.Kv.State.{MappingEntry, KvTable, no_offset, no_slot}
use nvme_virt.Kv.Allocate.{AllocatorOps}
use nvme_virt.Kv.Command.{
  KvOpcode, cmd_write, cmd_read, cmd_flush, cmd_kv_store, cmd_kv_retrieve, cmd_kv_batch, KvCommand,
  IterContext, KvFtl, cmd_value_length, is_kv_iter_cmd,
}
use nvme_virt.Kv.Perform.{KvDone, do_perform_kv_io, do_perform_kv_batch}
use nvme_virt.Kv.Iterate.{do_perform_kv_iter_io}

-- The time at which a command is complete, which a command without a case leaves at `target`. The
-- schedule is that of simple_ftl.c, with the times of a write for a store and a batch.
abbrev pub kv_schedule : KvOpcode → UnitConfig → ℕ → ℕ → KvCommand → List ℕ → Option (ℕ × List ℕ)
kv_schedule cmd_write cfg now target cmd stat =
    schedule_io_units cfg unit_write cmd.slba (cmd_io_size cmd.rw_length) now stat
kv_schedule cmd_read cfg now target cmd stat =
    schedule_io_units cfg unit_read cmd.slba (cmd_io_size cmd.rw_length) now stat
kv_schedule cmd_flush cfg now target cmd stat = do
  latest ← schedule_flush cfg.nr_io_units 0 stat 0
  some (latest, stat)
kv_schedule cmd_kv_store cfg now target cmd stat =
    schedule_io_units cfg unit_write 0 (cmd_value_length cmd) now stat
kv_schedule cmd_kv_retrieve cfg now target cmd stat =
    schedule_io_units cfg unit_read 0 (cmd_value_length cmd) now stat
kv_schedule cmd_kv_batch cfg now target cmd stat =
    schedule_io_units cfg unit_write 0 (cmd_value_length cmd) now stat
kv_schedule _ cfg now target cmd stat = some (target, stat)

abbrev pub kv_proc_nvme_io_cmd : UnitConfig → ℕ → ℕ → KvCommand → List ℕ → Option (ℕ × List ℕ)
kv_proc_nvme_io_cmd cfg now target cmd stat = kv_schedule cmd.opcode cfg now target cmd stat

-- `KV_MAPPING_TABLE_SIZE` is 1 GB, and an entry takes 48 bytes with its padding.
abbrev pub kv_hash_slots : ℕ
kv_hash_slots = 2 ^ 30 / 48

-- An entry after the `memset` and the loop of `kv_init_namespace`.
abbrev pub empty_entry : MappingEntry
empty_entry = record {
  key = λ i. 0;
  mem_offset = no_offset;
  length = no_offset;
  next_slot = no_slot;
}

abbrev pub init_table : ℕ → ℕ → KvTable
init_table slots storage_size = record {
  kv_mapping_table = λ s. empty_entry;
  hash_slots = slots;
  storage_size = storage_size;
}

module _ {S : Type 0} (ops : AllocatorOps S) where
  -- `statics` are the variables of the allocator, and `leftover` is what `kmalloc` leaves in the last
  -- handle: the loop over the handles stops before it.
  abbrev pub kv_init_namespace : S → Option IterContext → ℕ → KvFtl S
  kv_init_namespace statics leftover storage_size = record {
    mapping = init_table kv_hash_slots storage_size;
    pool = ops.init statics storage_size;
    iter_handle = λ i. if ltb i 16 then none else leftover;
  }

  abbrev pub perform_by : KvOpcode → (ℕ → ℕ) → KvFtl S → KvCommand → Memory → ℕ → Option (KvDone S)
  perform_by cmd_kv_batch buf ftl cmd m status = do_perform_kv_batch ops ftl cmd m status
  perform_by op buf ftl cmd m status =
      if is_kv_iter_cmd op
      then do_perform_kv_iter_io buf ftl cmd m status
      else do_perform_kv_io ops ftl cmd m status

  -- `buf` is the new buffer of an iterator.
  abbrev pub kv_perform_nvme_io_cmd : (ℕ → ℕ) → KvFtl S → KvCommand → Memory → ℕ → Option (KvDone S)
  kv_perform_nvme_io_cmd buf ftl cmd m status = perform_by cmd.opcode buf ftl cmd m status
