-- ===== src/Worker/Prp.antt =====
-- `__do_perform_io` of io.c: the data of a command moves between the storage and the pages of the host
-- that its PRP entries name. `none` is a read through a list that was never mapped or behind the page
-- it was mapped for, or fuel that ran out.
pub mod Bytes
pub mod Pieces
pub mod Places
pub mod Reading
use nvme_virt.Prelude.{
  ℕ, zero, suc, ◌+◌, ◌-◌, ◌*◌, ◌%◌, ◌^◌, Bool, Option, some, none, ◌==◌, ◌&&◌, ltb, leb,
  if◌then◌else◌, u64, min_of, ◌>>=◌, ◌>>◌, assert,
}
use nvme_virt.Ssd.Config.{lba_bits}

abbrev pub page_size : ℕ
page_size = 4096

-- The bytes of the host at their physical addresses, and those of the namespace.
pub record Memory : Type 0 where
  pub host : ℕ → ℕ
  pub storage : ℕ → ℕ

-- the opcodes of write and zone append, that of read, and any other
pub data Direction : Type 0 where
  to_storage to_host nowhere : Direction

-- `paddr_list` and the two counters
pub record PrpWalk : Type 0 where
  pub prp_offs : ℕ
  pub prp2_offs : ℕ
  pub list : Option ℕ

-- the little-endian word at an address
abbrev pub u64_at : (ℕ → ℕ) → ℕ → ℕ
u64_at host a =
    host a
    + 2 ^ 8 * host (a + 1)
    + 2 ^ 16 * host (a + 2)
    + 2 ^ 24 * host (a + 3)
    + 2 ^ 32 * host (a + 4)
    + 2 ^ 40 * host (a + 5)
    + 2 ^ 48 * host (a + 6)
    + 2 ^ 56 * host (a + 7)

-- `paddr_list[i]` of the list at `list`, of which one page is mapped
unfoldable pub list_entry : (ℕ → ℕ) → ℕ → ℕ → Option ℕ
list_entry host list i = do
  assert (leb (list % page_size + 8 * i + 8) page_size)
  some (u64_at host (list + 8 * i))

abbrev pub mapped_list : (ℕ → ℕ) → PrpWalk → Option ℕ → Option (ℕ × PrpWalk)
mapped_list host w none = none
mapped_list host w (some list) = do
  paddr ← list_entry host list w.prp2_offs
  some (paddr, record { prp_offs = w.prp_offs + 1; prp2_offs = w.prp2_offs + 1; list = some list })

-- The choice of `paddr` with `remaining` bytes left.
unfoldable pub next_prp : (ℕ → ℕ) → ℕ → ℕ → PrpWalk → ℕ → Option (ℕ × PrpWalk)
next_prp host prp1 prp2 w remaining =
    let on = record w { prp_offs = w.prp_offs + 1 } in
    let second =
      if ltb page_size remaining then mapped_list host w (some prp2) else some (prp2, on) in
    if w.prp_offs == 0
    then some (prp1, on)
    else if w.prp_offs == 1
    then second
    else mapped_list host w w.list

-- `io_size`: to the end of the page
abbrev pub io_size : ℕ → ℕ → ℕ
io_size paddr remaining =
    let mem_offs = paddr % page_size in
    let n = min_of remaining page_size in
    if ltb page_size (n + mem_offs) then page_size - mem_offs else n

-- `memcpy`
abbrev pub copy : (ℕ → ℕ) → ℕ → (ℕ → ℕ) → ℕ → ℕ → ℕ → ℕ
copy dst d src s n a = if leb d a && ltb a (d + n) then src (s + (a - d)) else dst a

abbrev pub move : Direction → Memory → ℕ → ℕ → ℕ → Memory
move to_storage m paddr offset n = record m { storage = copy m.storage offset m.host paddr n }
move to_host m paddr offset n = record m { host = copy m.host paddr m.storage offset n }
move nowhere m paddr offset n = m

-- `while (remaining)`
pub perform : ℕ → Direction → ℕ → ℕ → PrpWalk → ℕ → ℕ → Memory → Option Memory
perform zero dir prp1 prp2 w remaining offset m = if remaining == 0 then some m else none
perform (suc fuel) dir prp1 prp2 w remaining offset m =
    let next = do
      (paddr, w') ← next_prp m.host prp1 prp2 w remaining
      let n = io_size paddr remaining
      perform fuel dir prp1 prp2 w' (remaining - n) (offset + n) (move dir m paddr offset n)
    in if remaining == 0 then some m else next

abbrev pub first_prp : PrpWalk
first_prp = record { prp_offs = 0; prp2_offs = 0; list = none }

-- `__do_perform_io`, which returns the number of bytes
unfoldable pub do_perform_io : Direction → ℕ → ℕ → ℕ → ℕ → Memory → Option (ℕ × Memory)
do_perform_io dir slba length prp1 prp2 m = do
  let bytes = (length + 1) * 2 ^ lba_bits
  m' ← perform bytes dir prp1 prp2 first_prp bytes (u64 (slba * 2 ^ lba_bits)) m
  some (bytes, m')

-- `__prp_transfer_data` of zns_mgmt_recv.c: the same loop between the pages of the host and a buffer,
-- which stands for the storage. `io` is 0 for a transfer to the host.
pub prp_transfer_data : ℕ → ℕ → ℕ → ℕ → Memory → Option (ℕ × Memory)
prp_transfer_data prp1 prp2 length io m = do
  m' ← perform length (if io == 0 then to_host else to_storage) prp1 prp2 first_prp length 0 m
  some (length, m')
