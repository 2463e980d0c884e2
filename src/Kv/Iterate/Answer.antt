-- ===== src/Kv/Iterate/Answer.antt =====
-- A read of an iterator, from the table to the page of the host.
use nvme_virt.Prelude.{ℕ, ◌+◌, ◌-◌, ◌*◌, ◌<◌, ◌≤◌, ◌≡◌, ◌⊎◌, true, false, some, if◌then◌else◌}
use nvme_virt.Worker.Prp.{Memory}
use nvme_virt.Kv.State.{KvTable}
use nvme_virt.Kv.Command.{KvCommand, IterContext, KvFtl}
use nvme_virt.Kv.Perform.{KvDone}
use nvme_virt.Kv.Iterate.{Scan, put_u32, set_handle, answer_with}
use nvme_virt.Kv.Iterate.Scanned.{is_wanted, count_wanted, Scanned}

-- the keys that a read gives when it goes on to the position `q`
abbrev pub given : KvTable → IterContext → ℕ → ℕ
given kv handle q = count_wanted kv handle handle.current_pos (q - handle.current_pos)

-- What a read leaves, with the iterator at the position `q`: the number of keys and the keys are in the
-- page of the host, and the status tells the end of the table from a page that is full.
pub record IsRead {S : Type 0} (ftl : KvFtl S) (cmd : KvCommand) (handle : IterContext) (m : Memory)
    (d : KvDone S) : Type 0 where
  pub q : ℕ
  pub onward : handle.current_pos ≤ q
  pub few : given ftl.mapping handle q ≤ 51
  pub result : d.result ≡ 4 + 20 * given ftl.mapping handle q
  pub number : d.memory.host cmd.prp1 ≡ given ftl.mapping handle q
  pub keys :
      (t i : ℕ)
      → handle.current_pos ≤ t
      → t < q
      → is_wanted ftl.mapping handle t ≡ true
      → i < 16
      → d.memory.host (cmd.prp1 + (8 + 20 * given ftl.mapping handle t + i))
        ≡ (ftl.mapping.kv_mapping_table t).key i
  pub stops :
      ((d.status ≡ 0x393) × (q ≡ ftl.mapping.hash_slots))
      ⊎ ((d.status ≡ 0)
          × (is_wanted ftl.mapping handle q ≡ true)
          × (given ftl.mapping handle q ≡ 51))
  pub next : IterContext
  pub is_next : d.ftl.iter_handle cmd.iter_handle ≡ some next
  pub same_iterator :
      (next.current_pos ≡ q) × (next.prefix ≡ handle.prefix) × (next.bitmask ≡ handle.bitmask)
  pub same_storage : d.memory.storage ≡ m.storage
  pub same_table : d.ftl.mapping ≡ ftl.mapping

-- the state in which a read starts to scan
abbrev start : IterContext → Scan
start handle = record {
  pos = handle.current_pos;
  buf_offset = 4;
  nr_keys = 0;
  buf = handle.buf;
  ended = false;
}

module _ {S : Type 0} (ftl : KvFtl S) (cmd : KvCommand) (handle : IterContext) (m : Memory) where
  abbrev filled : Scan → Memory
  filled r = record m { storage = put_u32 r.buf 0 r.nr_keys }

  abbrev moved_on : Scan → IterContext
  moved_on r = record handle { current_pos = r.pos; buf = put_u32 r.buf 0 r.nr_keys }

  abbrev answer : Scan → Memory → KvDone S
  answer r after =
      let handles = set_handle ftl.iter_handle cmd.iter_handle (some (moved_on r)) in
      answer_with (record ftl { iter_handle = handles }) (record m { host = after.host })
        r.buf_offset (if r.ended then 0x393 else 0)
