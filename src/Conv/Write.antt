-- ===== src/Conv/Write.antt =====
-- `conv_write` of conv_ftl.c.
use nvme_virt.Prelude.{
  ℕ, zero, suc, ◌+◌, ◌-◌, ◌*◌, ◌/◌, ◌%◌, List, [], ◌∷◌, Bool, true, false, Option, some, none, ◌||◌,
  not, ltb, leb, if◌then◌else◌, u64, max_of, ◌>>=◌,
}
use nvme_virt.Buffer.{buffer_allocate}
use nvme_virt.Ssd.Layout.{Ppa}
use nvme_virt.Ssd.Params.{SsdParams}
use nvme_virt.Ssd.Timing.{NandCmd, nand_write, user_io, ssd_advance_nand, ssd_advance_write_buffer}
use nvme_virt.Zns.State.{lba_to_byte}
use nvme_virt.Zns.Request.{RwRequest, InternalOp, ssd_buffer}
use nvme_virt.Conv.State.{ConvFtl, VictimQueue, invalid_lpn}
use nvme_virt.Conv.Tables.{
  get_maptbl_ent, set_maptbl_ent, set_rmap_ent, mapped_ppa, last_pg_in_wordline,
}
use nvme_virt.Conv.Lines.{get_new_page, advance_write_pointer}
use nvme_virt.Conv.Pages.{mark_page_invalid, mark_page_valid}
use nvme_virt.Conv.Part.{ConvNs, load, store}
use nvme_virt.Conv.Read.{first_lpn, last_lpn}

-- What the loop changes.
pub record Written (Q : Type 0) : Type 0 where
  pub ns : ConvNs Q
  pub nsecs_latest : ℕ
  pub ops : List InternalOp

pub record WriteDone (Q : Type 0) : Type 0 where
  pub accepted : Bool
  pub nsecs_target : ℕ
  pub ops : List InternalOp
  pub ns : ConvNs Q

abbrev pub oneshot_bytes : SsdParams → ℕ
oneshot_bytes spp = u64 (spp.pgsz * spp.pgs_per_oneshotpg)

module _ {Q : Type 0} (pq : VictimQueue Q) where
  -- the page that `lpn` has so far is given up
  unfoldable pub drop_old : ConvFtl Q → Ppa → Option (ConvFtl Q)
  drop_old ftl ppa = do
    let drop = do ftl' ← mark_page_invalid pq ftl ppa; set_rmap_ent ftl' invalid_lpn ppa
    if mapped_ppa ppa then drop else some ftl

  -- `lpn` is mapped to the page at the write pointer
  unfoldable pub take_new : ConvFtl Q → ℕ → Option (Ppa × ConvFtl Q)
  take_new ftl lpn = do
    ppa ← get_new_page ftl user_io
    ftl1 ← set_maptbl_ent ftl lpn ppa
    ftl2 ← set_rmap_ent ftl1 lpn ppa
    ftl3 ← mark_page_valid ftl2 ppa
    ftl4 ← advance_write_pointer pq ftl3 user_io
    some (ppa, ftl4)

  -- from `get_maptbl_ent` to `advance_write_pointer`
  unfoldable pub remap : ConvFtl Q → ℕ → Option (Ppa × ConvFtl Q)
  remap ftl lpn = do ppa ← get_maptbl_ent ftl lpn; ftl' ← drop_old ftl ppa; take_new ftl' lpn

module _ (clock : ℕ → ℕ) {Q : Type 0} (pq : VictimQueue Q) where
  -- the program of a one-shot page whose last page is `ppa`
  unfoldable pub program :
      SsdParams → RwRequest → ℕ → ℕ → ConvFtl Q → Ppa → Written Q → Option (Written Q)
  program spp req stime i ftl ppa w = do
    let swr : NandCmd = record {
      type = user_io;
      cmd = nand_write;
      xfer_size = oneshot_bytes spp;
      stime = stime;
      interleave_pci_dma = false;
      ppa = ppa;
    }
    (t, ssd) ← ssd_advance_nand clock ftl.ssd swr
    some (record {
      ns = store w.ns i (record ftl { ssd = ssd });
      nsecs_latest = max_of t w.nsecs_latest;
      ops =
          record {
            sq_id = req.sq_id;
            nsecs_target = t;
            write_buffer = ssd_buffer;
            bufs_to_release = oneshot_bytes spp;
          }
          ∷ w.ops;
    })

  -- the body of the loop
  unfoldable pub write_lpn : SsdParams → RwRequest → ℕ → ℕ → Written Q → Option (Written Q)
  write_lpn spp req stime lpn w = do
    let i = lpn % w.ns.nr_parts
    ftl ← load w.ns i
    (ppa, ftl') ← remap pq ftl (lpn / w.ns.nr_parts)
    let run = program spp req stime i ftl' ppa w
    if last_pg_in_wordline ftl'.ssd.sp ppa then run else some (record w { ns = store w.ns i ftl' })

  pub write_lpns : ℕ → SsdParams → RwRequest → ℕ → ℕ → ℕ → Written Q → Option (Written Q)
  write_lpns zero spp req stime end_lpn lpn w = if leb lpn end_lpn then none else some w
  write_lpns (suc fuel) spp req stime end_lpn lpn w =
      let next = do
        w' ← write_lpn spp req stime lpn w
        write_lpns fuel spp req stime end_lpn (u64 (lpn + 1)) w'
      in if leb lpn end_lpn then next else some w

  -- from `ssd_advance_write_buffer` on, the buffer being allocated
  unfoldable pub write_through : ConvNs Q → ConvFtl Q → RwRequest → Option (WriteDone Q)
  write_through ns first req = do
    let spp = first.ssd.sp
    (xfer, ssd) ←
        ssd_advance_write_buffer clock first.ssd req.nsecs_start (lba_to_byte (req.length + 1))
    let start = first_lpn spp req
    let last = last_lpn spp req
    w ←
        write_lpns (last + 1 - start) spp req xfer last start
          (record { ns = store ns 0 (record first { ssd = ssd }); nsecs_latest = xfer; ops = [] })
    some (record {
      accepted = true;
      nsecs_target = if req.fua || not spp.write_early_completion then w.nsecs_latest else xfer;
      ops = w.ops;
      ns = w.ns;
    })

  unfoldable pub conv_write : ConvNs Q → RwRequest → Option (WriteDone Q)
  conv_write ns req = do
    first ← load ns 0
    let spp = first.ssd.sp
    let bytes = lba_to_byte (req.length + 1)
    let (allocated, buf) = buffer_allocate first.ssd.write_buffer bytes
    let first' = record first { ssd = record (first.ssd) { write_buffer = buf } }
    let refused : WriteDone Q = record {
      accepted = false;
      nsecs_target = req.nsecs_start;
      ops = [];
      ns = ns;
    }
    let full = some (record refused { ns = store ns 0 first' })
    let run = if ltb allocated bytes then full else write_through ns first' req
    if leb spp.tt_pgs (last_lpn spp req / ns.nr_parts) then some refused else run
