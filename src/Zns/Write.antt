-- ===== src/Zns/Write.antt =====
-- `__zns_write` of zns_read_write.c, and `zns_write`, which chooses between it and the write to a
-- zone with a random write area. `none` is an access outside an array or a fault of the latency
-- model.
pub mod Admit
pub mod Program
pub mod Pages
pub mod Total
use nvme_virt.Prelude.{
  ℕ, zero, suc, ◌+◌, ◌-◌, ◌*◌, ◌%◌, List, [], ◌∷◌, Bool, true, false, Option, some, none, ◌==◌, not,
  ◌||◌, ◌&&◌, if◌then◌else◌, ltb, leb, u32, u64, sub64, min_of, max_of, get_elem?, set, ◌>>=◌,
}
use nvme_virt.Buffer.{Buffer, buffer_allocate}
use nvme_virt.Ssd.Layout.{Ppa, Ssd}
use nvme_virt.Ssd.Params.{SsdParams}
use nvme_virt.Ssd.Timing.{NandCmd, nand_write, user_io, ssd_advance_nand, ssd_advance_write_buffer}
use nvme_virt.Zns.State.{
  ZoneState, empty, opened_impl, opened_expl, closed, read_only, full, offline, active_zone,
  open_zone, Status, success, err_boundary, err_full, err_read_only, err_offline, invalid_write,
  no_active_zone, no_open_zone, ZoneDescriptor, ZnsFtl, is_zone_resource_avail,
  is_zone_resource_full, acquire_zone_resource, change_zone_state, lba_to_zone, lpn_to_zone,
  lba_to_lpn, zone_to_elpn, lba_to_byte,
}
use nvme_virt.Zns.Request.{
  RwRequest, BufferRef, ssd_buffer, zone_buffer, InternalOp, Served, nr_lbas, check_boundary,
  increase_write_ptr, lpn_to_ppa, completion,
}

-- A request is refused with a status, or goes on with the descriptor of its zone as it then is.
pub data Admission : Type 0 where
  refused : Status → ZnsFtl → Admission
  admitted : ZoneDescriptor → ZnsFtl → Admission

-- from `case ZONE_STATE_CLOSED` on
abbrev pub admit_closed : ZnsFtl → ℕ → ZoneDescriptor → Admission
admit_closed ftl zid d =
    if is_zone_resource_avail ftl open_zone
    then admitted (record d { state = opened_impl })
        (change_zone_state (acquire_zone_resource ftl open_zone) zid d opened_impl)
    else refused no_open_zone ftl

-- the `switch (state)`
pub admit_in : ZoneState → ZnsFtl → ℕ → ZoneDescriptor → ℕ → Admission
admit_in empty ftl zid d slba =
    if not (slba == d.zslba)
    then refused invalid_write ftl
    else if is_zone_resource_full ftl active_zone
    then refused no_active_zone ftl
    else if is_zone_resource_full ftl open_zone
    then refused no_open_zone ftl
    else admit_closed (acquire_zone_resource ftl active_zone) zid d
admit_in closed ftl zid d slba = admit_closed ftl zid d
admit_in opened_impl ftl zid d slba = admitted d ftl
admit_in opened_expl ftl zid d slba = admitted d ftl
admit_in full ftl zid d slba = refused err_full ftl
admit_in read_only ftl zid d slba = refused err_read_only ftl
admit_in offline ftl zid d slba = refused err_offline ftl

-- The checks, the `switch` and the advance of the write pointer.
pub admit : ZnsFtl → ℕ → ZoneDescriptor → ℕ → ℕ → Admission
admit ftl zid d slba nr_lba =
    if not (lba_to_byte nr_lba % ftl.ssd.sp.write_unit_size == 0)
    then refused invalid_write ftl
    else if not (check_boundary ftl slba nr_lba)
    then refused err_boundary ftl
    else if not (slba == d.wp)
    then refused invalid_write ftl
    else admit_in d.state ftl zid d slba

abbrev pub advance_wp : Admission → ℕ → ℕ → Admission
advance_wp (refused s ftl) zid nr_lba = refused s ftl
advance_wp (admitted d ftl) zid nr_lba = admitted d (increase_write_ptr ftl zid d nr_lba)

-- What the loop over the pages reads, and what it changes.
pub record Job : Type 0 where
  pub ftl : ZnsFtl
  pub sq_id : ℕ
  pub write_buffer : BufferRef
  pub stime : ℕ
  pub elpn : ℕ
  pub zone_elpn : ℕ

pub record Programmed : Type 0 where
  pub ssd : Ssd
  pub nsecs_latest : ℕ
  pub ops : List InternalOp

-- `spp->pgs_per_oneshotpg * spp->pgsz`
abbrev pub oneshot_bytes : SsdParams → ℕ
oneshot_bytes spp = u32 (spp.pgs_per_oneshotpg * spp.pgsz)

-- `pgs`: from `lpn` to the end of the one-shot page or of the request.
abbrev pub pgs_at : Job → ℕ → ℕ
pgs_at job lpn =
    let n = job.ftl.ssd.sp.pgs_per_oneshotpg in
    min_of (u64 (sub64 job.elpn lpn + 1)) (n - (lpn_to_ppa job.ftl lpn).pg % n)

-- The program is issued at the end of a one-shot page, or of the zone.
abbrev pub is_last : Job → ℕ → Bool
is_last job lpn =
    let n = job.ftl.ssd.sp.pgs_per_oneshotpg in
    ((lpn_to_ppa job.ftl lpn).pg % n + pgs_at job lpn == n)
    || (sub64 (lpn + pgs_at job lpn) 1 == job.zone_elpn)

abbrev pub bufs_to_release : Job → ℕ → ℕ
bufs_to_release job lpn =
    let unaligned_space = job.ftl.zp.zone_size % oneshot_bytes job.ftl.ssd.sp in
    if (sub64 (lpn + pgs_at job lpn) 1 == job.zone_elpn) && ltb 0 unaligned_space
    then unaligned_space
    else oneshot_bytes job.ftl.ssd.sp

module _ (clock : ℕ → ℕ) where
  -- the body of the loop at `lpn`
  pub program_at : Job → ℕ → Programmed → Option Programmed
  program_at job lpn p =
      let swr : NandCmd = record {
        type = user_io;
        cmd = nand_write;
        xfer_size = oneshot_bytes job.ftl.ssd.sp;
        stime = job.stime;
        interleave_pci_dma = false;
        ppa = lpn_to_ppa job.ftl lpn;
      } in
      let issue = do
        (t, ssd) ← ssd_advance_nand clock p.ssd swr
        let op : InternalOp = record {
          sq_id = job.sq_id;
          nsecs_target = t;
          write_buffer = job.write_buffer;
          bufs_to_release = bufs_to_release job lpn;
        }
        some (record { ssd = ssd; nsecs_latest = max_of t p.nsecs_latest; ops = op ∷ p.ops })
      in if is_last job lpn then issue else some p

  -- `for (lpn = slpn; lpn <= elpn; lpn += pgs)`
  pub program : ℕ → Job → ℕ → Programmed → Option Programmed
  program zero job lpn p = if leb lpn job.elpn then none else some p
  program (suc fuel) job lpn p =
      let next = program_at job lpn p >>= program fuel job (u64 (lpn + pgs_at job lpn)) in
      if leb lpn job.elpn then next else some p

  -- behind the `switch`
  pub write_pages : ZnsFtl → RwRequest → ℕ → ℕ → BufferRef → Option Served
  write_pages ftl req slba zid buf = do
    (xfer, ssd) ← ssd_advance_write_buffer clock ftl.ssd req.nsecs_start (lba_to_byte (nr_lbas req))
    let slpn = lba_to_lpn ftl slba
    let elpn = lba_to_lpn ftl (sub64 (slba + nr_lbas req) 1)
    let job : Job = record {
      ftl = ftl;
      sq_id = req.sq_id;
      write_buffer = buf;
      stime = xfer;
      elpn = elpn;
      zone_elpn = zone_to_elpn ftl zid;
    }
    p ← program (elpn + 1 - slpn) job slpn (record { ssd = ssd; nsecs_latest = xfer; ops = [] })
    some (record {
      accepted = true;
      status = success;
      nsecs_target = completion ftl req p.nsecs_latest xfer;
      slba = slba;
      ops = p.ops;
      ftl = record ftl { ssd = p.ssd };
    })

  abbrev pub after_admission : Admission → RwRequest → ℕ → ℕ → BufferRef → Option Served
  after_admission (refused s ftl) req slba zid buf = some (record {
    accepted = true;
    status = s;
    nsecs_target = req.nsecs_start;
    slba = slba;
    ops = [];
    ftl = ftl;
  })
  after_admission (admitted d ftl) req slba zid buf = write_pages ftl req slba zid buf

abbrev pub buffer_ref : ZnsFtl → ℕ → BufferRef
buffer_ref ftl zid = if ftl.zp.zone_wb_size == 0 then ssd_buffer else zone_buffer zid

abbrev pub get_write_buffer : ZnsFtl → ℕ → Option Buffer
get_write_buffer ftl zid =
    if ftl.zp.zone_wb_size == 0
    then some ftl.ssd.write_buffer
    else get_elem? ftl.zone_write_buffer zid

abbrev pub put_write_buffer : ZnsFtl → ℕ → Buffer → ZnsFtl
put_write_buffer ftl zid b =
    if ftl.zp.zone_wb_size == 0
    then record ftl { ssd = record ftl.ssd { write_buffer = b } }
    else record ftl { zone_write_buffer = set ftl.zone_write_buffer zid b }

-- The buffer is full: the caller has to come again with the command as it now is.
abbrev pub retry : ZnsFtl → ℕ → Served
retry ftl slba = record {
  accepted = false;
  status = success;
  nsecs_target = 0;
  slba = slba;
  ops = [];
  ftl = ftl;
}

-- an append goes to the write pointer, whatever its own address
abbrev pub start_lba : RwRequest → ZoneDescriptor → ℕ
start_lba req d = if req.append then d.wp else req.slba

module _ (clock : ℕ → ℕ) where
  pub write_plain : ZnsFtl → RwRequest → Option Served
  write_plain ftl req = do
    let zid = lba_to_zone ftl req.slba
    let bytes = lba_to_byte (nr_lbas req)
    d ← get_elem? ftl.zone_descs zid
    buf ← get_write_buffer ftl zid
    let (granted, buf') = buffer_allocate buf bytes
    let ftl' = put_write_buffer ftl zid buf'
    let slba = start_lba req d
    let served =
        after_admission clock (advance_wp (admit ftl' zid d slba (nr_lbas req)) zid (nr_lbas req))
          req slba zid (buffer_ref ftl zid)
    if ltb granted bytes then some (retry ftl' slba) else served
