-- ===== src/Zns/Zrwa.antt =====
-- `__zns_write_zrwa` of zns_read_write.c: a write to a zone with a random write area.
use nvme_virt.Prelude.{
  ℕ, zero, suc, ◌+◌, ◌-◌, ◌*◌, ◌/◌, ◌%◌, [], ◌∷◌, Bool, true, false, Option, some, none, ◌==◌, not,
  ◌||◌, if◌then◌else◌, ltb, leb, u32, u64, sub64, div_round_up, min_of, max_of, get_elem?, set,
  ◌>>=◌,
}
use nvme_virt.Buffer.{buffer_allocate}
use nvme_virt.Ssd.Timing.{NandCmd, nand_write, user_io, ssd_advance_nand, ssd_advance_write_buffer}
use nvme_virt.Zns.State.{
  ZoneState, empty, opened_impl, opened_expl, closed, read_only, full, offline, open_zone, success,
  err_boundary, err_full, err_read_only, err_offline, invalid_write, no_open_zone, ZoneDescriptor,
  ZnsFtl, is_zone_resource_avail, acquire_zone_resource, change_zone_state, lba_to_zone, lba_to_lpn,
  zone_to_elba, lba_to_byte,
}
use nvme_virt.Zns.Request.{
  RwRequest, zrwa_buffer, InternalOp, Served, nr_lbas, check_boundary, increase_write_ptr,
  lpn_to_ppa, completion,
}
use nvme_virt.Zns.Write.{Admission, refused, admitted, Programmed, oneshot_bytes, retry}

-- `buffer_allocate(&zns_ftl->zwra_buffer[zid], size)`; the Boolean is whether it answers something
-- other than 0.
pub take_zrwa : ZnsFtl → ℕ → ℕ → Option (Bool × ZnsFtl)
take_zrwa ftl zid size = do
  buf ← get_elem? ftl.zwra_buffer zid
  let (granted, buf') = buffer_allocate buf size
  some (not (granted == 0), record ftl { zwra_buffer = set ftl.zwra_buffer zid buf' })

-- `case ZONE_STATE_CLOSED` and `case ZONE_STATE_EMPTY`
abbrev pub zrwa_open : ZnsFtl → ℕ → ZoneDescriptor → Option Admission
zrwa_open ftl zid d =
    let opened = do
      (taken, ftl') ← take_zrwa (acquire_zone_resource ftl open_zone) zid ftl.zp.zrwa_size
      let d' = record d { state = opened_impl }
      if taken then some (admitted d' (change_zone_state ftl' zid d opened_impl)) else none
    in if is_zone_resource_avail ftl open_zone then opened else some (refused no_open_zone ftl)

-- the `switch (state)`
pub zrwa_admit_in : ZoneState → ZnsFtl → ℕ → ZoneDescriptor → Option Admission
zrwa_admit_in empty ftl zid d = zrwa_open ftl zid d
zrwa_admit_in closed ftl zid d = zrwa_open ftl zid d
zrwa_admit_in opened_impl ftl zid d = some (admitted d ftl)
zrwa_admit_in opened_expl ftl zid d = some (admitted d ftl)
zrwa_admit_in full ftl zid d = some (refused err_full ftl)
zrwa_admit_in read_only ftl zid d = some (refused err_read_only ftl)
zrwa_admit_in offline ftl zid d = some (refused err_offline ftl)

pub zrwa_admit : ZnsFtl → ℕ → ZoneDescriptor → ℕ → ℕ → Option Admission
zrwa_admit ftl zid d slba nr_lba =
    let elba = sub64 (slba + nr_lba) 1 in
    let zrwa_impl_end = sub64 (d.wp + u32 (2 * ftl.zp.lbas_per_zrwa)) 1 in
    if not (lba_to_byte nr_lba % ftl.ssd.sp.write_unit_size == 0)
    then some (refused invalid_write ftl)
    else if not (check_boundary ftl slba nr_lba)
    then some (refused err_boundary ftl)
    else if ltb slba d.wp || ltb zrwa_impl_end elba
    then some (refused invalid_write ftl)
    else zrwa_admit_in d.state ftl zid d

-- `nr_lbas_flush`: what leaves the area because the write ends behind it, or at the end of the zone.
pub lbas_to_flush : ZnsFtl → ℕ → ℕ → ℕ → Option ℕ
lbas_to_flush ftl zid prev_wp elba =
    let zrwa_impl_start = u64 (prev_wp + ftl.zp.lbas_per_zrwa) in
    let fg = ftl.zp.lbas_per_zrwafg in
    let implicit =
      if fg == 0
      then none
      else some (u64 (div_round_up (u64 (sub64 elba zrwa_impl_start + 1)) fg * fg)) in
    if leb zrwa_impl_start elba
    then implicit
    else if elba == zone_to_elba ftl zid
    then some (u64 (sub64 elba prev_wp + 1))
    else some 0

module _ (clock : ℕ → ℕ) where
  -- the body of the loop
  pub flush_at : ZnsFtl → RwRequest → ℕ → ℕ → ℕ → ℕ → Programmed → Option Programmed
  flush_at ftl req zid stime lpn pgs p =
      let n = ftl.ssd.sp.pgs_per_oneshotpg in
      let swr : NandCmd = record {
        type = user_io;
        cmd = nand_write;
        xfer_size = oneshot_bytes ftl.ssd.sp;
        stime = stime;
        interleave_pci_dma = false;
        ppa = lpn_to_ppa ftl lpn;
      } in
      let issue = do
        (t, ssd) ← ssd_advance_nand clock p.ssd swr
        let op : InternalOp = record {
          sq_id = req.sq_id;
          nsecs_target = t;
          write_buffer = zrwa_buffer zid;
          bufs_to_release = oneshot_bytes ftl.ssd.sp;
        }
        some (record { ssd = ssd; nsecs_latest = max_of t p.nsecs_latest; ops = op ∷ p.ops })
      in if (lpn_to_ppa ftl lpn).pg % n + pgs == n then issue else some p

  -- `while (remaining > 0)`
  pub flush_pages : ℕ → ZnsFtl → RwRequest → ℕ → ℕ → ℕ → ℕ → Programmed → Option Programmed
  flush_pages zero ftl req zid stime lpn remaining p = if remaining == 0 then some p else none
  flush_pages (suc fuel) ftl req zid stime lpn remaining p =
      let n = ftl.ssd.sp.pgs_per_oneshotpg in
      let pgs = min_of remaining (n - (lpn_to_ppa ftl lpn).pg % n) in
      let next =
        flush_at ftl req zid stime lpn pgs p
        >>= flush_pages fuel ftl req zid stime (u64 (lpn + pgs)) (remaining - pgs) in
      if remaining == 0 then some p else next

  -- from the delay of the write buffer on
  pub zrwa_pages : ZnsFtl → RwRequest → ℕ → ℕ → ℕ → Option Served
  zrwa_pages ftl req zid prev_wp nr_lbas_flush = do
    (xfer, ssd) ← ssd_advance_write_buffer clock ftl.ssd req.nsecs_start (lba_to_byte (nr_lbas req))
    let pages = nr_lbas_flush / ftl.ssd.sp.secs_per_pg
    p ←
        flush_pages pages ftl req zid xfer (lba_to_lpn ftl prev_wp) pages
          (record { ssd = ssd; nsecs_latest = xfer; ops = [] })
    some (record {
      accepted = true;
      status = success;
      nsecs_target = completion ftl req p.nsecs_latest xfer;
      slba = req.slba;
      ops = p.ops;
      ftl = record ftl { ssd = p.ssd };
    })

  -- behind the `switch`; `d` is the descriptor as the switch leaves it
  pub zrwa_admitted : ZnsFtl → RwRequest → ℕ → ZoneDescriptor → Option Served
  zrwa_admitted ftl req zid d = do
    nr_lbas_flush ← lbas_to_flush ftl zid d.wp (sub64 (req.slba + nr_lbas req) 1)
    let flushed = do
      (taken, ftl') ← take_zrwa ftl zid (lba_to_byte nr_lbas_flush)
      let served =
          zrwa_pages (increase_write_ptr ftl' zid d (u32 nr_lbas_flush)) req zid d.wp nr_lbas_flush
      if taken then served else some (retry ftl' req.slba)
    if nr_lbas_flush == 0 then zrwa_pages ftl req zid d.wp 0 else flushed

  abbrev pub after_zrwa_admission : Admission → RwRequest → ℕ → Option Served
  after_zrwa_admission (refused s ftl) req zid = some (record {
    accepted = true;
    status = s;
    nsecs_target = req.nsecs_start;
    slba = req.slba;
    ops = [];
    ftl = ftl;
  })
  after_zrwa_admission (admitted d ftl) req zid = zrwa_admitted ftl req zid d

  pub write_zrwa : ZnsFtl → RwRequest → Option Served
  write_zrwa ftl req = do
    let zid = lba_to_zone ftl req.slba
    d ← get_elem? ftl.zone_descs zid
    admission ← zrwa_admit ftl zid d req.slba (nr_lbas req)
    after_zrwa_admission admission req zid
