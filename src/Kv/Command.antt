-- ===== src/Kv/Command.antt =====
-- The commands of nvme_kv.h, and the state of a key-value namespace.
use nvme_virt.Prelude.{ℕ, ◌+◌, ◌*◌, Bool, true, false, Option, u32}
use nvme_virt.Kv.State.{KvTable, Key}

-- The opcode, of the commands for keys or for blocks.
pub data KvOpcode : Type 0 where
  cmd_write cmd_read cmd_flush : KvOpcode
  cmd_kv_store cmd_kv_append cmd_kv_retrieve cmd_kv_delete cmd_kv_iter_req cmd_kv_iter_read
        cmd_kv_exist cmd_kv_batch :
      KvOpcode
  unknown_opcode : ℕ → KvOpcode

-- The fields read of `struct nvme_kv_command`; those with `iter` are of the two iterator commands, the
-- last two of the block commands.
pub record KvCommand : Type 0 where
  pub opcode : KvOpcode
  pub key : ℕ → ℕ
  pub key_len : ℕ
  pub value_len : ℕ
  pub prp1 : ℕ
  pub prp2 : ℕ
  pub sub_cmd_cnt : ℕ
  pub iter_handle : ℕ
  pub iter_option : ℕ
  pub iter_val : ℕ
  pub iter_bitmask : ℕ
  pub slba : ℕ
  pub rw_length : ℕ

-- `struct kv_iter_context`; `handle` and `buflen` are never assigned or read.
pub record IterContext : Type 0 where
  pub prefix : ℕ
  pub bitmask : ℕ
  pub buf : ℕ → ℕ
  pub byteswritten : ℕ
  pub bufoffset : ℕ
  pub ended : Bool
  pub current_pos : ℕ

-- `struct kv_ftl`, over the state of its allocator
pub record KvFtl (S : Type 0) : Type 0 where
  pub mapping : KvTable
  pub pool : S
  pub iter_handle : ℕ → Option IterContext

-- The key in the command, an array of 16 bytes, with its length `cmd_key_length`.
abbrev pub cmd_key : KvCommand → Key
cmd_key cmd = record { bytes = cmd.key; size = 16; len = cmd.key_len + 1 }

abbrev pub cmd_value_length : KvCommand → ℕ
cmd_value_length cmd = u32 (cmd.value_len * 4)

abbrev pub is_kv_iter_cmd : KvOpcode → Bool
is_kv_iter_cmd cmd_kv_iter_req = true
is_kv_iter_cmd cmd_kv_iter_read = true
is_kv_iter_cmd _ = false

abbrev pub is_kv_cmd : KvOpcode → Bool
is_kv_cmd cmd_write = false
is_kv_cmd cmd_read = false
is_kv_cmd cmd_flush = false
is_kv_cmd (unknown_opcode c) = false
is_kv_cmd _ = true
