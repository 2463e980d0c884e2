-- ===== src/Kv/Perform/RoundTrip.antt =====
-- A store and then a retrieve of the same key.
use nvme_virt.Prelude.{
  ℕ, ◌+◌, ◌-◌, ◌<◌, ◌≡◌, refl, sym, subst, ap, ◌∙◌, true, Option, some, leb, ltb, ◌&&◌, min_of,
  ◌>>=◌, Returns, Returns-bind, Returns-mono, arith,
}
use nvme_virt.Worker.Prp.{Memory}
use nvme_virt.Worker.Prp.Pieces.{Moved}
use nvme_virt.Worker.Prp.Bytes.{prp_address, Listed}
use nvme_virt.Worker.Prp.Places.{Apart}
use nvme_virt.Worker.Prp.Reading.{list_count}
use nvme_virt.Kv.Mapping.Removed.{value_of}
use nvme_virt.Kv.Allocate.{AllocatorOps}
use nvme_virt.Kv.Command.{cmd_kv_retrieve, KvCommand, KvFtl, cmd_key, cmd_value_length}
use nvme_virt.Kv.Perform.{KvDone, do_perform_kv_io}
use nvme_virt.Kv.Perform.Commands.{
  behind_first, IsStorable, do_perform_kv_io-stores, do_perform_kv_io-retrieves,
}

-- A retrieve of `n` bytes, with the pages that it names in the memory of the host.
pub record IsRetrieve (host : ℕ → ℕ) (cmd : KvCommand) (n : ℕ) : Type 0 where
  pub opcode : cmd.opcode ≡ cmd_kv_retrieve
  pub listed : Listed host cmd.prp2 (behind_first cmd n)
  pub apart :
      Apart cmd.prp2
        (list_count cmd.prp2 (behind_first cmd n))
        (prp_address host cmd.prp1 cmd.prp2 n)
        n

stored_byte :
    (m after : Memory) (address : ℕ → ℕ) (offset n j : ℕ)
    → j < n
    → Moved m address offset n after
    → after.storage (offset + j) ≡ m.host (address j)
stored_byte m after address offset n j h (kept, bytes) =
    let inside : (leb offset (offset + j) && ltb (offset + j) (offset + n)) ≡ true =
      ground (arith, h) in
    let back : offset + j - offset ≡ j = omega arith in
    bytes (offset + j) ∙ (rw (inside, back) refl)

module _ {S : Type 0} (ops : AllocatorOps S) where
  abbrev pub store_and_retrieve : KvFtl S → KvCommand → KvCommand → Memory → ℕ → Option (KvDone S)
  store_and_retrieve ftl store retrieve m status = do
    stored ← do_perform_kv_io ops ftl store m status
    do_perform_kv_io ops stored.ftl retrieve stored.memory status

  -- A retrieve after the store of a new key returns as many bytes as were stored and asked for, and each
  -- of them lies in the pages of the retrieve as it lay in the pages of the store. Conditions: the
  -- store is of a new key for which there is room, both commands have the key, and the pages of the
  -- retrieve are there, apart from each other and from their list.
  pub store-retrieve :
      (ftl : KvFtl S) (store retrieve : KvCommand) (m : Memory) (status offset : ℕ) (pool : S)
      → IsStorable ops ftl store m offset pool
      → IsRetrieve m.host retrieve (min_of (cmd_value_length store) (cmd_value_length retrieve))
      → cmd_key retrieve ≡ cmd_key store
      → Returns
          (λ (d : KvDone S).
            (d.result ≡ min_of (cmd_value_length store) (cmd_value_length retrieve))
            × (d.status ≡ status)
            × ((j : ℕ)
                → j < min_of (cmd_value_length store) (cmd_value_length retrieve)
                → d.memory.host (
                    prp_address m.host retrieve.prp1 retrieve.prp2
                      (min_of (cmd_value_length store) (cmd_value_length retrieve))
                      j)
                  ≡ m.host (prp_address m.host store.prp1 store.prp2 (cmd_value_length store) j)))
          (store_and_retrieve ftl store retrieve m status)
  store-retrieve ftl store retrieve m status offset pool s r same =
      let n = min_of (cmd_value_length store) (cmd_value_length retrieve) in
      Returns-bind (do_perform_kv_io-stores ops ftl store m status offset pool s)
        λ d (result, st, pool_is, value, chained, moved).
          let asked : value_of d.ftl.mapping (cmd_key retrieve)
              ≡ some (offset, cmd_value_length store) =
            rw same value in
          let address = λ (host : ℕ → ℕ). prp_address host retrieve.prp1 retrieve.prp2 n in
          let listed : Listed d.memory.host retrieve.prp2 (behind_first retrieve n) =
            subst (λ host. Listed host retrieve.prp2 (behind_first retrieve n)) (sym (moved.0))
              r.listed in
          let apart : Apart retrieve.prp2 (list_count retrieve.prp2 (behind_first retrieve n))
              (address d.memory.host) n =
            subst
              (λ host.
                Apart retrieve.prp2 (list_count retrieve.prp2 (behind_first retrieve n))
                  (address host) n)
              (sym (moved.0)) r.apart in
          Returns-mono
            (do_perform_kv_io-retrieves ops d.ftl retrieve d.memory status offset
              (cmd_value_length store) r.opcode asked s.real listed apart)
            λ e (length, st', ftl', placed). (
              length,
              st',
              λ j h.
                  ap (λ host. e.memory.host (address host j)) (sym (moved.0))
                  ∙ placed.placed j h
                  ∙ stored_byte m d.memory
                      (prp_address m.host store.prp1 store.prp2 (cmd_value_length store)) offset
                      (cmd_value_length store) j (ground (arith, h)) moved,
            )
