-- ===== src/Kv/Perform/Commands.antt =====
-- What a store of a new key and a retrieve of an old one do.
use nvme_virt.Prelude.{
  ℕ, ◌-◌, ◌%◌, ◌<◌, ◌≡◌, ◌≢◌, refl, ap, true, false, none, some, ◌==◌, inl, inr, Option-cases,
  some_inj, min_of, Returns, returns, Returns-bind, arith,
}
use nvme_virt.Worker.Prp.{Memory}
use nvme_virt.Worker.Prp.Pieces.{Moved}
use nvme_virt.Worker.Prp.Bytes.{prp_address, Listed, perform-first}
use nvme_virt.Worker.Prp.Places.{Placed, Apart}
use nvme_virt.Worker.Prp.Reading.{list_count, perform-all}
use nvme_virt.Kv.State.{no_offset, MappingEntry, KvTable, Key, is_empty}
use nvme_virt.Kv.Mapping.{search_key, get_mapping_entry_by_key}
use nvme_virt.Kv.Mapping.Chained.{IsChained, IsShort}
use nvme_virt.Kv.Mapping.Removed.{value_of}
use nvme_virt.Kv.Mapping.Inserted.{new_mapping_entry_by_key-Inserted}
use nvme_virt.Kv.Allocate.{AllocatorOps}
use nvme_virt.Kv.Command.{
  cmd_kv_store, cmd_kv_retrieve, KvCommand, KvFtl, cmd_key, cmd_value_length,
}
use nvme_virt.Kv.Perform.{
  KvDone, allocate_mem_offset_by_length, kv_insert, kv_read, perform_on, do_perform_kv_io,
}

-- The entry behind what a command learns of a key.
value_of-inv :
    (kv : KvTable) (key : Key) (o l : ℕ)
    → value_of kv key ≡ some (o, l)
    → (e : MappingEntry) × (get_mapping_entry_by_key kv key ≡ some e)
      × (e.mem_offset ≡ o)
      × (e.length ≡ l)
value_of-inv kv key o l h = elim (Option-cases (get_mapping_entry_by_key kv key)) [
  | inl n ↦ absurd (let clash : none ≡ some (o, l) = rw n at h in cc)
  | inr (e, f) ↦
      let both : some (e.mem_offset, e.length) ≡ some (o, l) = rw f at h in
      (e, f, ap (λ p. p.0) (some_inj both), ap (λ p. p.1) (some_inj both))
]

-- the bytes behind the first page
abbrev pub behind_first : KvCommand → ℕ → ℕ
behind_first cmd n = n - (4096 - cmd.prp1 % 4096)

-- A store of a new key, for which the allocator gives `offset`.
pub record IsStorable {S : Type 0} (ops : AllocatorOps S) (ftl : KvFtl S) (cmd : KvCommand)
    (m : Memory) (offset : ℕ) (pool : S) : Type 0 where
  pub opcode : cmd.opcode ≡ cmd_kv_store
  pub chained : IsChained ftl.mapping
  pub short : cmd.key_len < 16
  pub new : search_key ftl.mapping (cmd_key cmd) ≡ some none
  pub free : ℕ
  pub free_inside : free < ftl.mapping.hash_slots
  pub free_empty : is_empty (ftl.mapping.kv_mapping_table free) ≡ true
  pub allocated : ops.allocate ftl.pool (cmd_value_length cmd) ≡ some (offset, pool)
  pub in_storage : offset < ftl.mapping.storage_size
  pub real : offset ≢ no_offset
  pub listed : Listed m.host cmd.prp2 (behind_first cmd (cmd_value_length cmd))

cmd_key-IsShort : (cmd : KvCommand) → cmd.key_len < 16 → IsShort (cmd_key cmd)
cmd_key-IsShort cmd h = record { in_array = omega (arith, h); in_entry = omega (arith, h) }

module _ {S : Type 0} (ops : AllocatorOps S) where
  pub do_perform_kv_io-stores :
      (ftl : KvFtl S) (cmd : KvCommand) (m : Memory) (status offset : ℕ) (pool : S)
      → IsStorable ops ftl cmd m offset pool
      → Returns
          (λ (d : KvDone S).
            (d.result ≡ 0)
            × (d.status ≡ status)
            × (d.ftl.pool ≡ pool)
            × (value_of d.ftl.mapping (cmd_key cmd) ≡ some (offset, cmd_value_length cmd))
            × IsChained d.ftl.mapping
            × Moved m
                (prp_address m.host cmd.prp1 cmd.prp2 (cmd_value_length cmd))
                offset
                (cmd_value_length cmd)
                d.memory)
          (do_perform_kv_io ops ftl cmd m status)
  unfolding do_perform_kv_io perform_on kv_insert allocate_mem_offset_by_length
      get_mapping_entry_by_key
  do_perform_kv_io-stores ftl cmd m status offset pool s =
      let not_failed : (offset == no_offset) ≡ false = ground (arith, s.real) in
      rw (s.new, s.opcode, s.allocated, not_failed)
        (Returns-bind
          (perform-first cmd.prp1 cmd.prp2 (cmd_value_length cmd) (cmd_value_length cmd) offset m
            (omega arith) s.listed)
          λ after moved.
            Returns-bind
              (new_mapping_entry_by_key-Inserted ftl.mapping (cmd_key cmd) (cmd_value_length cmd)
                offset s.free s.chained (cmd_key-IsShort cmd s.short) s.new s.free_inside
                s.free_empty s.in_storage s.real)
              λ mapping (value, rest, chained). returns (refl, refl, refl, value, chained, moved))

  pub do_perform_kv_io-retrieves :
      (ftl : KvFtl S) (cmd : KvCommand) (m : Memory) (status o l : ℕ)
      → cmd.opcode ≡ cmd_kv_retrieve
      → value_of ftl.mapping (cmd_key cmd) ≡ some (o, l)
      → o ≢ no_offset
      → Listed m.host cmd.prp2 (behind_first cmd (min_of l (cmd_value_length cmd)))
      → Apart cmd.prp2
          (list_count cmd.prp2 (behind_first cmd (min_of l (cmd_value_length cmd))))
          (prp_address m.host cmd.prp1 cmd.prp2 (min_of l (cmd_value_length cmd)))
          (min_of l (cmd_value_length cmd))
      → Returns
          (λ (d : KvDone S).
            (d.result ≡ min_of l (cmd_value_length cmd))
            × (d.status ≡ status)
            × (d.ftl ≡ ftl)
            × Placed m
                (prp_address m.host cmd.prp1 cmd.prp2 (min_of l (cmd_value_length cmd)))
                o
                (min_of l (cmd_value_length cmd))
                d.memory)
          (do_perform_kv_io ops ftl cmd m status)
  unfolding do_perform_kv_io perform_on kv_read
  do_perform_kv_io-retrieves ftl cmd m status o l op value real listed apart =
      let (e, f, at, long) = value_of-inv ftl.mapping (cmd_key cmd) o l value in
      let taken : is_empty e ≡ false = ground (arith, at, real) in
      rw (f, op, taken, at, long)
        (Returns-bind
          (perform-all cmd.prp1 cmd.prp2 m (min_of l (cmd_value_length cmd))
            (min_of l (cmd_value_length cmd)) o (omega arith) listed apart)
          λ after placed. returns (refl, refl, refl, placed))
