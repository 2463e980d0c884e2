-- ===== src/Conv/Read.antt =====
-- `conv_read` of conv_ftl.c.
use nvme_virt.Prelude.{
  ℕ, zero, suc, ◌+◌, ◌-◌, ◌*◌, ◌/◌, ◌%◌, Bool, true, false, Option, some, none, ◌&&◌, ◌||◌, not,
  ltb, leb, if◌then◌else◌, u32, u64, sub64, max_of, ◌>>=◌,
}
use nvme_virt.Ssd.Layout.{Ppa, Ssd}
use nvme_virt.Ssd.Params.{SsdParams}
use nvme_virt.Ssd.Timing.{NandCmd, nand_read, user_io, ssd_advance_nand}
use nvme_virt.Zns.State.{lba_to_byte}
use nvme_virt.Zns.Request.{RwRequest}
use nvme_virt.Conv.State.{ConvFtl}
use nvme_virt.Conv.Tables.{get_maptbl_ent, mapped_ppa, in_range, is_same_flash_page}
use nvme_virt.Conv.Part.{ConvNs, load, store}

-- What the loops carry: the read that is being gathered, and the latest completion.
pub record Gathered : Type 0 where
  pub ssd : Ssd
  pub prev_ppa : Ppa
  pub xfer_size : ℕ
  pub nsecs_latest : ℕ

pub record ReadDone (Q : Type 0) : Type 0 where
  pub accepted : Bool
  pub nsecs_target : ℕ
  pub ns : ConvNs Q

abbrev pub first_lpn : SsdParams → RwRequest → ℕ
first_lpn spp req = req.slba / spp.secs_per_pg

abbrev pub last_lpn : SsdParams → RwRequest → ℕ
last_lpn spp req = sub64 (req.slba + (req.length + 1)) 1 / spp.secs_per_pg

module _ (clock : ℕ → ℕ) where
  -- `srd` issued for the pages gathered
  unfoldable pub issue_read : ℕ → Gathered → Option Gathered
  issue_read stime g = do
    let srd : NandCmd = record {
      type = user_io;
      cmd = nand_read;
      xfer_size = g.xfer_size;
      stime = stime;
      interleave_pci_dma = true;
      ppa = g.prev_ppa;
    }
    let run = do
      (t, ssd) ← ssd_advance_nand clock g.ssd srd
      some (record g { ssd = ssd; nsecs_latest = max_of t g.nsecs_latest })
    if ltb 0 g.xfer_size then run else some g

  -- the body of the inner loop for a page that is mapped to `cur`
  unfoldable pub gather : SsdParams → ℕ → Gathered → Ppa → Option Gathered
  gather spp stime g cur =
      let fresh = do
        g' ← issue_read stime g
        some (record g' { xfer_size = spp.pgsz; prev_ppa = cur })
      in if mapped_ppa g.prev_ppa && is_same_flash_page spp cur g.prev_ppa
        then some (record g { xfer_size = u32 (g.xfer_size + spp.pgsz) })
        else fresh

  -- The inner loop over the pages of one part; `spp` are the parameters of the first part.
  pub read_part :
      {Q : Type 0} → ℕ → ConvFtl Q → SsdParams → ℕ → ℕ → ℕ → ℕ → Gathered → Option Gathered
  read_part zero ftl spp nr_parts stime end_lpn lpn g = if leb lpn end_lpn then none else some g
  read_part (suc fuel) ftl spp nr_parts stime end_lpn lpn g =
      let next = do
        cur ← get_maptbl_ent ftl (lpn / nr_parts)
        g' ←
            if not (mapped_ppa cur) || not (in_range ftl.ssd.sp cur)
            then some g
            else gather spp stime g cur
        read_part fuel ftl spp nr_parts stime end_lpn (u64 (lpn + nr_parts)) g'
      in if leb lpn end_lpn then next else some g

  -- The outer loop, `n` parts from `lpn` on.
  pub read_parts : {Q : Type 0} → ℕ → ConvNs Q → SsdParams → ℕ → ℕ → ℕ → ℕ → Option (ℕ × ConvNs Q)
  read_parts zero ns spp stime end_lpn lpn latest = some (latest, ns)
  read_parts (suc n) ns spp stime end_lpn lpn latest =
      let next = do
        ftl ← load ns (lpn % ns.nr_parts)
        prev ← get_maptbl_ent ftl (lpn / ns.nr_parts)
        g ←
            read_part (end_lpn + 1 - lpn) ftl spp ns.nr_parts stime end_lpn lpn
              (record { ssd = ftl.ssd; prev_ppa = prev; xfer_size = 0; nsecs_latest = latest })
        g' ← issue_read stime g
        read_parts n (store ns (lpn % ns.nr_parts) (record ftl { ssd = g'.ssd })) spp stime end_lpn
            (u64 (lpn + 1)) g'.nsecs_latest
      in if leb lpn end_lpn then next else some (latest, ns)

  unfoldable pub conv_read : {Q : Type 0} → ConvNs Q → RwRequest → Option (ReadDone Q)
  conv_read ns req = do
    first ← load ns 0
    let spp = first.ssd.sp
    let lat =
        if leb (lba_to_byte (req.length + 1)) (4096 * ns.nr_parts)
        then spp.fw_4kb_rd_lat
        else spp.fw_rd_lat
    let run = do
      (latest, ns') ←
          read_parts ns.nr_parts ns spp (u64 (req.nsecs_start + lat)) (last_lpn spp req)
            (first_lpn spp req) req.nsecs_start
      some (record { accepted = true; nsecs_target = latest; ns = ns' })
    let refused : ReadDone _ = record { accepted = false; nsecs_target = req.nsecs_start; ns = ns }
    if leb spp.tt_pgs (last_lpn spp req / ns.nr_parts) then some refused else run
