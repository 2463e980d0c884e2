-- ===== src/Zns/Read/Total.antt =====
-- `zns_read` returns, and how long it takes.
use nvme_virt.Prelude.{
  ℕ, zero, suc, ◌+◌, ◌-◌, ◌*◌, ◌/◌, ◌%◌, ◌^◌, ◌≤◌, ◌<◌, ◌≡◌, refl, true, false, some, Bool, leb,
  ◌==◌, if◌then◌else◌, max_of, get_elem?, u64, sub64, Returns, returns, Returns-bind, Returns-mono,
  Returns-if, arith,
}
use nvme_virt.Channel.Request.{max_latency}
use nvme_virt.Ssd.Params.{SsdParams}
use nvme_virt.Ssd.Layout.{Ssd}
use nvme_virt.Ssd.Timing.{NandCmd, nand_read, user_io, ssd_advance_nand}
use nvme_virt.Ssd.Timing.Calm.{
  Calm, Calm-mono, op_cost, cell_of, ssd_advance_nand-Calm, ssd_advance_pcie-Calm,
}
use nvme_virt.Zns.State.{ZnsFtl, ZoneDescriptor, lpn_to_zone, lba_to_lpn, lba_to_byte}
use nvme_virt.Zns.Request.{RwRequest, Served, nr_lbas, lpn_to_ppa}
use nvme_virt.Zns.Placement.{Striped, lpn_to_ppa-InDrive}
use nvme_virt.Zns.Write.Pages.{span, div_le}
use nvme_virt.Zns.Read.{read_pgs, read_pages, read_status, zns_read}

-- The cell of each page from `slpn` to `elpn` has a read latency, of at most `most`, and the sizes of
-- transfers are not 0.
pub record Readable (ftl : ZnsFtl) (spp : SsdParams) (slpn elpn most : ℕ) : Type 0 where
  pub lats :
      (lpn : ℕ) (small : Bool)
      → slpn ≤ lpn
      → lpn ≤ elpn
      → (lat : ℕ) × (get_elem?
            (if small then spp.pg_4kb_rd_lat else spp.pg_rd_lat)
            (cell_of spp (lpn_to_ppa ftl lpn))
          ≡ some lat)
        × (lat ≤ most)
  pub some_page : 0 < spp.pgs_per_flashpg
  pub page_bytes : 0 < spp.pgsz
  pub piece : 0 < spp.max_ch_xfer_size
  pub flash_page : spp.pgs_per_flashpg * spp.pgsz < 2 ^ 32

-- the longest time that the read of one flash page takes
abbrev pub page_cost : SsdParams → ℕ → ℕ
page_cost spp most = op_cost most (spp.pgs_per_flashpg * spp.pgsz)

-- After some pages, read from `stime` on.
record Reading (spp : SsdParams) (stime by : ℕ) (r : ℕ × Ssd) : Type 0 where
  calm : Calm spp by r.1
  since : stime ≤ r.0
  until : r.0 ≤ by

Reading-mono :
    {spp : SsdParams} {s t u : ℕ} {r : ℕ × Ssd} → t ≤ u → Reading spp s t r → Reading spp s u r
Reading-mono h k = record {
  calm = Calm-mono h k.calm;
  since = k.since;
  until = omega (arith, k.until);
}

mod_lt : (a b : ℕ) → 0 < b → a % b < b
mod_lt a b h = grind arith

scale_le : (a b c : ℕ) → a ≤ b → a * c ≤ b * c
scale_le a b c h = grind arith

mul_pos : (a b : ℕ) → 0 < a → 0 < b → 0 < a * b
mul_pos a b h k = grind arith

module _ (clock : ℕ → ℕ) (ftl : ZnsFtl) (stime slpn elpn most : ℕ) (s : Striped ftl.zp ftl.ssd.sp)
    (w : Readable ftl ftl.ssd.sp slpn elpn most) (later : 0 < stime) (small : elpn < 2 ^ 63) where
  read_pgs-range :
      (lpn : ℕ)
      → lpn ≤ elpn
      → (0 < read_pgs ftl elpn lpn)
        × (lpn + read_pgs ftl elpn lpn ≤ elpn + 1)
        × (read_pgs ftl elpn lpn ≤ ftl.ssd.sp.pgs_per_flashpg)
  read_pgs-range lpn h =
      let n = ftl.ssd.sp.pgs_per_flashpg in
      let off : (lpn_to_ppa ftl lpn).pg % n < n = mod_lt (lpn_to_ppa ftl lpn).pg n w.some_page in
      ground (arith, off, h, small)

  abbrev read_cmd : ℕ → NandCmd
  read_cmd lpn = record {
    type = user_io;
    cmd = nand_read;
    xfer_size = u64 (read_pgs ftl elpn lpn * ftl.ssd.sp.pgsz);
    stime = stime;
    interleave_pci_dma = false;
    ppa = lpn_to_ppa ftl lpn;
  }

  read_page-Reading :
      (by lpn latest : ℕ) (now : Ssd)
      → slpn ≤ lpn
      → lpn ≤ elpn
      → Reading ftl.ssd.sp stime by (latest, now)
      → by + page_cost ftl.ssd.sp most ≤ 2 ^ 64
      → Returns
          (λ (r : ℕ × Ssd).
            Reading ftl.ssd.sp stime (by + page_cost ftl.ssd.sp most) (max_of r.0 latest, r.1))
          (ssd_advance_nand clock now (read_cmd lpn))
  read_page-Reading by lpn latest now lo h k clear =
      let sp = ftl.ssd.sp in
      let cmd = read_cmd lpn in
      let d = lpn_to_ppa-InDrive ftl s lpn in
      let (pos, _, le) = read_pgs-range lpn h in
      let bytes_le : read_pgs ftl elpn lpn * sp.pgsz ≤ sp.pgs_per_flashpg * sp.pgsz =
        scale_le (read_pgs ftl elpn lpn) sp.pgs_per_flashpg sp.pgsz le in
      let bytes_pos : 0 < read_pgs ftl elpn lpn * sp.pgsz =
        mul_pos (read_pgs ftl elpn lpn) sp.pgsz pos w.page_bytes in
      let e : cmd.xfer_size ≡ read_pgs ftl elpn lpn * sp.pgsz =
        omega (arith, bytes_le, w.flash_page) in
      let (lat, at, few) = w.lats lpn (cmd.xfer_size == 4096) lo h in
      let cost : op_cost lat cmd.xfer_size ≤ page_cost sp most = omega (arith, e, bytes_le, few) in
      Returns-mono
        (ssd_advance_nand-Calm sp by now cmd k.calm lat at (omega (arith, e, bytes_pos), w.piece)
          d.ch d.lun d.mapped (omega (arith, k.since, k.until)) later (omega (arith, cost, clear))
          clock)
        λ r q. record {
          calm = Calm-mono (omega (arith, cost)) q.0;
          since = grind (arith, k.since);
          until = grind (arith, k.until, q.2, cost);
        }

  read_pages-Reading :
      (fuel by lpn latest : ℕ) (now : Ssd)
      → Reading ftl.ssd.sp stime by (latest, now)
      → slpn ≤ lpn
      → elpn + 1 ≤ lpn + fuel
      → by + fuel * page_cost ftl.ssd.sp most ≤ 2 ^ 64
      → Returns
          (Reading ftl.ssd.sp stime (by + fuel * page_cost ftl.ssd.sp most))
          (read_pages clock fuel ftl stime elpn lpn (latest, now))
  unfolding read_pages
  read_pages-Reading zero by lpn latest now k lo e c =
      Returns-if (leb lpn elpn) (λ b. absurd (ground arith))
        λ _. returns (Reading-mono (omega arith) k)
  read_pages-Reading (suc fuel) by lpn latest now k lo e c =
      Returns-if (leb lpn elpn)
        (λ b.
          let range = read_pgs-range lpn (ground arith) in
          let here : u64 (lpn + read_pgs ftl elpn lpn) ≡ lpn + read_pgs ftl elpn lpn =
            omega (arith, range, small) in
          let cost = page_cost ftl.ssd.sp most in
          let split : by + suc fuel * cost ≡ by + cost + fuel * cost = grind arith in
          Returns-bind
            (read_page-Reading by lpn latest now lo (ground arith) k (omega (arith, c, split)))
            λ r kr.
              rw (here, split)
                (read_pages-Reading fuel (by + cost) (lpn + read_pgs ftl elpn lpn)
                  (max_of r.0 latest) r.1 kr (omega (arith, lo)) (omega (arith, range, e))
                  (omega (arith, c, split))))
        (λ _. returns (Reading-mono (omega arith) k))

-- What a read leaves: an answer with the status of its checks, and the zones as they were.
pub record Completed (ftl : ZnsFtl) (req : RwRequest) (d : ZoneDescriptor) (by : ℕ) (r : Served)
    : Type 0 where
  pub accepted : r.accepted ≡ true
  pub status : r.status ≡ read_status ftl d req.slba (nr_lbas req)
  pub since : req.nsecs_start ≤ r.nsecs_target
  pub until : r.nsecs_target ≤ by
  pub rest : r.ftl ≡ record ftl { ssd = r.ftl.ssd }
  pub calm : Calm ftl.ssd.sp by r.ftl.ssd

module _ (clock : ℕ → ℕ) (ftl : ZnsFtl) (req : RwRequest) (d : ZoneDescriptor) (by most : ℕ)
    (s : Striped ftl.zp ftl.ssd.sp)
    (w : Readable ftl ftl.ssd.sp
      (req.slba / ftl.ssd.sp.secs_per_pg)
      (sub64 (req.slba + nr_lbas req) 1 / ftl.ssd.sp.secs_per_pg)
      most)
    (calm : Calm ftl.ssd.sp by ftl.ssd)
    (here : get_elem? ftl.zone_descs (lpn_to_zone ftl (lba_to_lpn ftl req.slba)) ≡ some d)
    (pos : 0 < nr_lbas req) (sectors : 0 < ftl.ssd.sp.secs_per_pg) (started : 0 < req.nsecs_start)
    (slba_small : req.slba < 2 ^ 62)
    (overhead : req.nsecs_start + ftl.ssd.sp.fw_4kb_rd_lat + ftl.ssd.sp.fw_rd_lat ≤ by)
    (clear : by + (nr_lbas req + 1) * page_cost ftl.ssd.sp most + max_latency ≤ 2 ^ 64) where
  -- Every read of a zone that exists returns, also one that is refused. Its status is that of the
  -- checks for an offline zone and for the boundary of the zone; it is answered no earlier than it
  -- started, and within the time that its pages and its transfer take; no zone, counter or byte of
  -- the storage changes. Condition: the drive is striped and calm, the cell of each page that is
  -- read has a latency, the sizes of transfers are not 0, and the clock does not overflow 64 bits.
  pub zns_read-Completed :
      Returns
        (Completed ftl req d (by + (nr_lbas req + 1) * page_cost ftl.ssd.sp most + max_latency))
        (zns_read clock ftl req)
  unfolding zns_read lba_to_lpn
  zns_read-Completed =
      let sp = ftl.ssd.sp in
      let n = nr_lbas req in
      let last : sub64 (req.slba + n) 1 ≡ req.slba + (n - 1) = omega (arith, pos, slba_small) in
      let elpn = sub64 (req.slba + n) 1 / sp.secs_per_pg in
      let fuel = elpn + 1 - req.slba / sp.secs_per_pg in
      let few : fuel ≤ n + 1 =
        rw last (omega (arith, span req.slba (n - 1) sp.secs_per_pg sectors, pos)) in
      let cost : fuel * page_cost sp most ≤ (n + 1) * page_cost sp most =
        scale_le fuel (n + 1) (page_cost sp most) few in
      let lat = if leb (lba_to_byte n) 4096 then sp.fw_4kb_rd_lat else sp.fw_rd_lat in
      let lat_le : lat ≤ sp.fw_4kb_rd_lat + sp.fw_rd_lat = ground arith in
      let stime = u64 (req.nsecs_start + lat) in
      let start : stime ≡ req.nsecs_start + lat = omega (arith, lat_le, overhead, clear) in
      rw here (
        Returns-bind
          (read_pages-Reading clock ftl stime (req.slba / sp.secs_per_pg) elpn most s w
            (omega (arith, start, started))
            (omega (arith, div_le (sub64 (req.slba + n) 1) sp.secs_per_pg, last, slba_small)) fuel
            by (req.slba / sp.secs_per_pg) stime ftl.ssd
            (record {
              calm = calm;
              since = omega arith;
              until = omega (arith, start, lat_le, overhead);
            })
            (omega arith) (omega arith) (omega (arith, cost, clear)))
          λ p k.
            Returns-bind
              (ssd_advance_pcie-Calm clock sp (by + fuel * page_cost sp most) p.1 p.0
                (u64 (n * sp.secsz)) k.calm (omega (arith, k.until, cost, clear)))
              λ q a. returns (record {
                accepted = refl;
                status = refl;
                since = grind (arith, k.since, start);
                until = grind (arith, k.until, a.2, cost);
                rest = refl;
                calm = Calm-mono (omega (arith, cost)) a.0;
              }))
