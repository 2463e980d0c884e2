-- ===== src/Zns/Read.antt =====
-- `zns_read` of zns_read_write.c.
pub mod Total
use nvme_virt.Prelude.{
  ℕ, zero, suc, ◌+◌, ◌-◌, ◌*◌, ◌%◌, [], Bool, true, false, Option, some, none, not, if◌then◌else◌,
  leb, u64, sub64, min_of, max_of, get_elem?, ◌>>=◌,
}
use nvme_virt.Ssd.Layout.{Ssd}
use nvme_virt.Ssd.Timing.{NandCmd, nand_read, user_io, ssd_advance_nand, ssd_advance_pcie}
use nvme_virt.Zns.State.{
  ZoneState, offline, Status, success, err_boundary, err_offline, ZoneDescriptor, ZnsFtl,
  lpn_to_zone, lba_to_lpn, lba_to_byte,
}
use nvme_virt.Zns.Request.{RwRequest, Served, nr_lbas, check_boundary, lpn_to_ppa}

abbrev is_offline : ZoneState → Bool
is_offline offline = true
is_offline _ = false

pub read_status : ZnsFtl → ZoneDescriptor → ℕ → ℕ → Status
read_status ftl d slba nr_lba =
    if is_offline d.state
    then err_offline
    else if not (check_boundary ftl slba nr_lba)
    then err_boundary
    else success

-- `pgs`: from `lpn` to the end of the flash page or of the request.
abbrev pub read_pgs : ZnsFtl → ℕ → ℕ → ℕ
read_pgs ftl elpn lpn =
    let n = ftl.ssd.sp.pgs_per_flashpg in
    min_of (u64 (sub64 elpn lpn + 1)) (n - (lpn_to_ppa ftl lpn).pg % n)

module _ (clock : ℕ → ℕ) where
  -- `for (lpn = slpn; lpn <= elpn; lpn += pgs)`; `now` is the drive as it is, `latest` is
  -- `nsecs_latest`.
  pub read_pages : ℕ → ZnsFtl → ℕ → ℕ → ℕ → ℕ × Ssd → Option (ℕ × Ssd)
  read_pages zero ftl stime elpn lpn (latest, now) =
      if leb lpn elpn then none else some (latest, now)
  read_pages (suc fuel) ftl stime elpn lpn (latest, now) =
      let pgs = read_pgs ftl elpn lpn in
      let swr : NandCmd = record {
        type = user_io;
        cmd = nand_read;
        xfer_size = u64 (pgs * ftl.ssd.sp.pgsz);
        stime = stime;
        interleave_pci_dma = false;
        ppa = lpn_to_ppa ftl lpn;
      } in
      let next = do
        (t, ssd) ← ssd_advance_nand clock now swr
        read_pages fuel ftl stime elpn (u64 (lpn + pgs)) (max_of t latest, ssd)
      in if leb lpn elpn then next else some (latest, now)

  -- An erroneous read takes its time as well; `interleave_pci_dma` is false, so that the transfer to
  -- the host follows.
  pub zns_read : ZnsFtl → RwRequest → Option Served
  zns_read ftl req = do
    let slpn = lba_to_lpn ftl req.slba
    let elpn = lba_to_lpn ftl (sub64 (req.slba + nr_lbas req) 1)
    d ← get_elem? ftl.zone_descs (lpn_to_zone ftl slpn)
    let lat =
        if leb (lba_to_byte (nr_lbas req)) 4096
        then ftl.ssd.sp.fw_4kb_rd_lat
        else ftl.ssd.sp.fw_rd_lat
    let stime = u64 (req.nsecs_start + lat)
    (latest, ssd) ← read_pages (elpn + 1 - slpn) ftl stime elpn slpn (stime, ftl.ssd)
    (t, ssd') ← ssd_advance_pcie clock ssd latest (u64 (nr_lbas req * ftl.ssd.sp.secsz))
    some (record {
      accepted = true;
      status = read_status ftl d req.slba (nr_lbas req);
      nsecs_target = max_of t latest;
      slba = req.slba;
      ops = [];
      ftl = record ftl { ssd = ssd' };
    })
