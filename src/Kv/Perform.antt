-- ===== src/Kv/Perform.antt =====
-- `__do_perform_kv_io` and `__do_perform_kv_batch` of kv_ftl.c.
pub mod Commands
pub mod RoundTrip
use nvme_virt.Prelude.{
  ℕ, zero, suc, ◌+◌, ◌-◌, ◌*◌, ◌/◌, ◌^◌, Bool, Option, some, none, ltb, leb, ◌==◌, ◌&&◌, not,
  if◌then◌else◌, min_of, ◌>>=◌, ◌>>◌, assert,
}
use nvme_virt.Worker.Prp.{Memory, Direction, to_storage, to_host, perform, first_prp, copy}
use nvme_virt.Kv.State.{MappingEntry, KvTable, Key, is_empty}
use nvme_virt.Kv.State.{no_offset}
use nvme_virt.Kv.Mapping.{
  new_mapping_entry_by_key, get_mapping_entry_by_key, update_mapping_entry, delete_mapping_entry,
}
use nvme_virt.Kv.Allocate.{AllocatorOps, small_length}
use nvme_virt.Kv.Command.{
  KvOpcode, cmd_kv_store, cmd_kv_retrieve, cmd_kv_exist, cmd_kv_delete, KvCommand, KvFtl, cmd_key,
  cmd_value_length,
}

abbrev pub kv_err_key_not_exist : ℕ
kv_err_key_not_exist = 0x310

-- The result and `*status` of a command, with the state behind it.
pub record KvDone (S : Type 0) : Type 0 where
  pub result : ℕ
  pub status : ℕ
  pub ftl : KvFtl S
  pub memory : Memory

-- The loop over the pages of the host, with as much fuel as there are bytes.
abbrev pub kv_transfer : Direction → KvCommand → ℕ → ℕ → Memory → Option Memory
kv_transfer dir cmd length offset m = perform length dir cmd.prp1 cmd.prp2 first_prp length offset m

abbrev pub get_mapping_entry : KvTable → KvCommand → Option MappingEntry
get_mapping_entry kv cmd = get_mapping_entry_by_key kv (cmd_key cmd)

abbrev pub new_mapping_entry : KvTable → KvCommand → ℕ → Option KvTable
new_mapping_entry kv cmd val_offset =
    new_mapping_entry_by_key kv (cmd_key cmd) (cmd_value_length cmd) val_offset

-- the length differs, and both are at most `small_length`: `is_insert` is 2
abbrev pub new_length : ℕ → ℕ → Bool
new_length length old = not (length == old) && (leb length small_length && leb old small_length)

module _ {S : Type 0} (ops : AllocatorOps S) where
  -- A failed allocation gives the offset 0.
  unfoldable pub allocate_mem_offset_by_length : S → ℕ → Option (ℕ × S)
  allocate_mem_offset_by_length pool val_len = do
    (offset, pool') ← ops.allocate pool val_len
    some (if offset == no_offset then 0 else offset, pool')

  abbrev pub allocate_mem_offset : S → KvCommand → Option (ℕ × S)
  allocate_mem_offset pool cmd = allocate_mem_offset_by_length pool (cmd_value_length cmd)

  -- A store of a key without an entry.
  unfoldable pub kv_insert : KvFtl S → KvCommand → Memory → ℕ → Option (KvDone S)
  kv_insert ftl cmd m status = do
    (offset, pool) ← allocate_mem_offset ftl.pool cmd
    m' ← kv_transfer to_storage cmd (cmd_value_length cmd) offset m
    mapping ← new_mapping_entry ftl.mapping cmd offset
    some (record {
      result = 0;
      status = status;
      ftl = record ftl { mapping = mapping; pool = pool };
      memory = m';
    })

  -- A store of a key that has one: a length that is not small is written all the same.
  unfoldable pub kv_update : KvFtl S → KvCommand → MappingEntry → Memory → ℕ → Option (KvDone S)
  kv_update ftl cmd entry m status = do
    m' ← kv_transfer to_storage cmd (cmd_value_length cmd) entry.mem_offset m
    let done : KvTable → KvDone S = λ mapping. record {
      result = 0;
      status = status;
      ftl = record ftl { mapping = mapping };
      memory = m';
    }
    let longer = do
      (_, mapping) ← update_mapping_entry ftl.mapping (cmd_key cmd) (cmd_value_length cmd)
      some (done mapping)
    if new_length (cmd_value_length cmd) entry.length then longer else some (done ftl.mapping)

  unfoldable pub kv_read : KvFtl S → KvCommand → MappingEntry → Memory → ℕ → Option (KvDone S)
  kv_read ftl cmd entry m status = do
    let length = min_of entry.length (cmd_value_length cmd)
    m' ← kv_transfer to_host cmd length entry.mem_offset m
    some (record { result = length; status = status; ftl = ftl; memory = m' })

  unfoldable pub kv_remove : KvFtl S → KvCommand → Memory → ℕ → Option (KvDone S)
  kv_remove ftl cmd m status = do
    mapping ← delete_mapping_entry ftl.mapping (cmd_key cmd)
    some
        (record { result = 0; status = status; ftl = record ftl { mapping = mapping }; memory = m })

  -- The branches on the opcode, with the entry of the key.
  unfoldable pub perform_on :
      KvOpcode → KvFtl S → KvCommand → MappingEntry → Memory → ℕ → Option (KvDone S)
  perform_on cmd_kv_store ftl cmd entry m status =
      if is_empty entry then kv_insert ftl cmd m status else kv_update ftl cmd entry m status
  perform_on cmd_kv_retrieve ftl cmd entry m status =
      if is_empty entry
      then some (record { result = 0; status = kv_err_key_not_exist; ftl = ftl; memory = m })
      else kv_read ftl cmd entry m status
  perform_on cmd_kv_exist ftl cmd entry m status = some (record {
    result = 0;
    status = if is_empty entry then kv_err_key_not_exist else status;
    ftl = ftl;
    memory = m;
  })
  perform_on cmd_kv_delete ftl cmd entry m status =
      if is_empty entry
      then some (record { result = 0; status = kv_err_key_not_exist; ftl = ftl; memory = m })
      else kv_remove ftl cmd m status
  perform_on _ ftl cmd entry m status =
      some (record { result = 0; status = status; ftl = ftl; memory = m })

  unfoldable pub do_perform_kv_io : KvFtl S → KvCommand → Memory → ℕ → Option (KvDone S)
  do_perform_kv_io ftl cmd m status = do
    entry ← get_mapping_entry ftl.mapping cmd
    perform_on cmd.opcode ftl cmd entry m status

  -- `__do_perform_kv_batched_io`: a store of `val_len` bytes of `value`; other opcodes do nothing. A
  -- new length of an old key is not recorded.
  pub do_perform_kv_batched_io :
      KvFtl S → ℕ → Key → (ℕ → ℕ) → ℕ → (ℕ → ℕ) → Option (KvFtl S × (ℕ → ℕ))
  do_perform_kv_batched_io ftl opcode key value val_len storage =
      let inserted = do
        (offset, pool) ← allocate_mem_offset_by_length ftl.pool val_len
        mapping ← new_mapping_entry_by_key ftl.mapping key val_len offset
        some (record ftl { mapping = mapping; pool = pool }, copy storage offset value 0 val_len)
      in let stored : MappingEntry → Option (KvFtl S × (ℕ → ℕ)) = λ entry.
        if is_empty entry
        then inserted
        else some (ftl, copy storage entry.mem_offset value 0 val_len) in
        do
          entry ← get_mapping_entry_by_key ftl.mapping key
          if opcode == 0x81 then stored entry else some (ftl, storage)

  -- `((len - 1) / ALIGN_LEN + 1) * ALIGN_LEN`, where -1 / 64 is 0 as it is here
  abbrev pub aligned : ℕ → ℕ
  aligned len = ((len - 1) / 64 + 1) * 64

  -- The sub-commands from `i` on, `n` of them, in a buffer of `length` bytes, of which eight
  -- attributes and then, at 512, the payloads. `none` is an access outside an array.
  pub sub_commands : ℕ → ℕ → ℕ → (ℕ → ℕ) → ℕ → KvFtl S → (ℕ → ℕ) → Option (KvFtl S × (ℕ → ℕ))
  sub_commands zero i length buffer payload_offset ftl storage = some (ftl, storage)
  sub_commands (suc n) i length buffer payload_offset ftl storage = do
    assert (ltb i 8 && leb 512 length)
    let attr = 16 * i
    let key_len = buffer (attr + 1)
    let val_len =
        buffer (attr + 4)
        + 2 ^ 8 * buffer (attr + 5)
        + 2 ^ 16 * buffer (attr + 6)
        + 2 ^ 24 * buffer (attr + 7)
    let key_at = 512 + payload_offset
    let value_at = key_at + aligned key_len
    assert (leb key_len 20 && leb val_len 4097)
    assert (leb (key_at + key_len) length && leb (value_at + val_len) length)
    let key : Key = record {
      bytes = λ j. if ltb j key_len then buffer (key_at + j) else 0;
      size = 20;
      len = key_len;
    }
    let value : ℕ → ℕ = λ j. if ltb j val_len then buffer (value_at + j) else 0
    (ftl', storage') ← do_perform_kv_batched_io ftl (buffer attr) key value val_len storage
    sub_commands n (i + 1) length buffer (payload_offset + (aligned key_len + aligned val_len + 64))
        ftl' storage'

  -- The buffer stands for the storage while it is filled.
  pub do_perform_kv_batch : KvFtl S → KvCommand → Memory → ℕ → Option (KvDone S)
  do_perform_kv_batch ftl cmd m status = do
    let length = cmd_value_length cmd
    filled ← kv_transfer to_storage cmd length 0 (record m { storage = λ a. 0 })
    (ftl', storage) ← sub_commands cmd.sub_cmd_cnt 0 length filled.storage 64 ftl m.storage
    some (record {
      result = 0;
      status = status;
      ftl = ftl';
      memory = record m { storage = storage };
    })
