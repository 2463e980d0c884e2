-- ===== src/Kv/Iterate.antt =====
-- The iterators of kv_ftl.c: an iterator goes through the table from `current_pos` on and gives the keys
-- whose first four bytes agree with its prefix under its mask. `none` is an access outside an array.
pub mod Scanned
pub mod Answer
use nvme_virt.Prelude.{
  ℕ, zero, suc, ◌+◌, ◌-◌, ◌*◌, ◌/◌, ◌%◌, ◌^◌, Bool, true, false, Option, some, none, ltb, ◌==◌,
  ◌&&◌, not, if◌then◌else◌, ◌>>=◌, ◌>>◌, assert,
}
use Prim.Native.Nat.{bit_and}
use nvme_virt.Worker.Prp.{Memory, to_host, copy}
use nvme_virt.Kv.State.{MappingEntry, KvTable, is_empty}
use nvme_virt.Kv.Command.{
  KvOpcode, cmd_kv_iter_req, cmd_kv_iter_read, KvCommand, IterContext, KvFtl,
}
use nvme_virt.Kv.Perform.{KvDone, kv_transfer}

abbrev pub iter_option_open : ℕ
iter_option_open = 0x01

abbrev pub iter_option_close : ℕ
iter_option_close = 0x02

abbrev pub is_null : Option IterContext → Bool
is_null none = true
is_null (some h) = false

-- The first free handle from `iter` on, of `n`.
pub free_handle : ℕ → ℕ → (ℕ → Option IterContext) → Option ℕ
free_handle zero iter handles = none
free_handle (suc n) iter handles =
    if is_null (handles iter) then some iter else free_handle n (iter + 1) handles

abbrev pub set_handle : (ℕ → Option IterContext) → ℕ → Option IterContext → ℕ → Option IterContext
set_handle handles iter h i = if i == iter then h else handles i

-- What a scan of the table has found, and where it stands.
pub record Scan : Type 0 where
  pub pos : ℕ
  pub buf_offset : ℕ
  pub nr_keys : ℕ
  pub buf : ℕ → ℕ
  pub ended : Bool

-- a little-endian `int` at an offset of a buffer
abbrev pub put_u32 : (ℕ → ℕ) → ℕ → ℕ → ℕ → ℕ
put_u32 buf offset v =
    copy buf offset (λ i. if i == 0 then v % 2 ^ 8 else v / 2 ^ (8 * i) % 2 ^ 8) 0 4

-- the first four bytes of the key, under the mask
abbrev pub in_iterator : IterContext → MappingEntry → Bool
in_iterator handle e =
    let key = e.key 0 + 2 ^ 8 * e.key 1 + 2 ^ 16 * e.key 2 + 2 ^ 24 * e.key 3 in
    not (is_empty e) && (bit_and key handle.bitmask == bit_and handle.prefix handle.bitmask)

-- `keylen` and the key, of 16 bytes
abbrev pub put_key : Scan → MappingEntry → Scan
put_key s e = record s {
  buf = copy (put_u32 s.buf s.buf_offset 16) (s.buf_offset + 4) e.key 0 16;
  buf_offset = s.buf_offset + 4 + 16;
  nr_keys = s.nr_keys + 1;
}

-- The loop over the table, with as much fuel as there are slots from `pos` on.
pub scan : ℕ → KvTable → IterContext → Scan → Scan
scan zero kv handle s = s
scan (suc fuel) kv handle s =
    let e = kv.kv_mapping_table s.pos in
    let s' = if in_iterator handle e then put_key s e else s in
    let behind = record s' { pos = s.pos + 1 } in
    let rest = scan fuel kv handle behind in
    let onward = if s.pos + 1 == kv.hash_slots then record behind { ended = true } else rest in
    if in_iterator handle e && ltb 1024 (s.buf_offset + 4 + 16) then s else onward

module _ {S : Type 0} where
  abbrev pub answer_with : KvFtl S → Memory → ℕ → ℕ → KvDone S
  answer_with ftl m result status = record {
    result = result;
    status = status;
    ftl = ftl;
    memory = m;
  }

  abbrev pub opened_at : Option ℕ → (ℕ → ℕ) → KvFtl S → KvCommand → Memory → ℕ → KvDone S
  opened_at none buf ftl cmd m status = answer_with ftl m 1 status
  opened_at (some iter) buf ftl cmd m status =
      let context : IterContext = record {
        prefix = cmd.iter_val;
        bitmask = cmd.iter_bitmask;
        buf = buf;
        byteswritten = 0;
        bufoffset = 0;
        ended = false;
        current_pos = 0;
      } in
      let handles = set_handle ftl.iter_handle iter (some context) in
      answer_with (record ftl { iter_handle = handles }) m iter 0

  -- `buf` is what `kmalloc` leaves in the new buffer. Without a free handle the result is 1.
  pub kv_iter_open : (ℕ → ℕ) → KvFtl S → KvCommand → Memory → ℕ → KvDone S
  kv_iter_open buf ftl cmd m status =
      opened_at (free_handle 16 1 ftl.iter_handle) buf ftl cmd m status

  pub kv_iter_close : KvFtl S → KvCommand → Memory → Option (KvDone S)
  kv_iter_close ftl cmd m = do
    assert (ltb cmd.iter_handle 17)
    let handles = set_handle ftl.iter_handle cmd.iter_handle none
    some (answer_with (record ftl { iter_handle = handles }) m 0 0)

  -- The part of `kv_iter_read` behind the test for a handle.
  pub read_with : IterContext → KvFtl S → KvCommand → Memory → Option (KvDone S)
  read_with handle ftl cmd m = do
    let start : Scan = record {
      pos = handle.current_pos;
      buf_offset = 4;
      nr_keys = 0;
      buf = handle.buf;
      ended = false;
    }
    let s = scan (ftl.mapping.hash_slots - handle.current_pos) ftl.mapping handle start
    let buf = put_u32 s.buf 0 s.nr_keys
    m' ← kv_transfer to_host cmd s.buf_offset 0 (record m { storage = buf })
    let context = record handle { current_pos = s.pos; buf = buf }
    let handles = set_handle ftl.iter_handle cmd.iter_handle (some context)
    some (
        answer_with (record ftl { iter_handle = handles }) (record m { host = m'.host })
          s.buf_offset (if s.ended then 0x393 else 0))

  abbrev pub read_at : Option IterContext → KvFtl S → KvCommand → Memory → ℕ → Option (KvDone S)
  read_at none ftl cmd m status = some (answer_with ftl m 0 status)
  read_at (some handle) ftl cmd m status = read_with handle ftl cmd m

  pub kv_iter_read : KvFtl S → KvCommand → Memory → ℕ → Option (KvDone S)
  kv_iter_read ftl cmd m status = do
    assert (ltb cmd.iter_handle 17)
    read_at (ftl.iter_handle cmd.iter_handle) ftl cmd m status

  abbrev pub iter_io_on : KvOpcode → (ℕ → ℕ) → KvFtl S → KvCommand → Memory → ℕ → Option (KvDone S)
  iter_io_on cmd_kv_iter_req buf ftl cmd m status =
      if not (bit_and cmd.iter_option iter_option_open == 0)
      then some (kv_iter_open buf ftl cmd m status)
      else if not (bit_and cmd.iter_option iter_option_close == 0)
      then kv_iter_close ftl cmd m
      else some (answer_with ftl m 0 status)
  iter_io_on cmd_kv_iter_read buf ftl cmd m status = kv_iter_read ftl cmd m status
  iter_io_on _ buf ftl cmd m status = some (answer_with ftl m 0 status)

  abbrev pub do_perform_kv_iter_io : (ℕ → ℕ) → KvFtl S → KvCommand → Memory → ℕ → Option (KvDone S)
  do_perform_kv_iter_io buf ftl cmd m status = iter_io_on cmd.opcode buf ftl cmd m status
