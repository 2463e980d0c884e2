-- ===== src/Zns/Request.antt =====
-- What the reads and writes of zns_read_write.c share: the request, its address arithmetic, the
-- advance of a write pointer, and the answer.
use nvme_virt.Prelude.{ℕ, ◌+◌, ◌*◌, ◌/◌, ◌%◌, ◌^◌, List, Bool, ◌==◌, if◌then◌else◌, u32, u64, sub64}
use nvme_virt.Ssd.Layout.{Ppa}
use nvme_virt.Zns.State.{
  full, Status, ZoneDescriptor, ZnsFtl, active_zone, open_zone, lpn_to_zone, zone_to_slpn,
  lba_to_zone, zone_to_slba, die_to_channel, die_to_lun, put_desc, change_zone_state,
  release_zone_resource,
}

-- `struct nvme_rw_command` with the queue and the start time of its `struct nvmev_request`. `append`
-- is the opcode zone append, `fua` the bit NVME_RW_FUA.
pub record RwRequest : Type 0 where
  pub append : Bool
  pub fua : Bool
  pub slba : ℕ
  pub length : ℕ
  pub sq_id : ℕ
  pub nsecs_start : ℕ

-- the buffer that a scheduled release is for
pub data BufferRef : Type 0 where
  ssd_buffer : BufferRef
  zone_buffer zrwa_buffer : ℕ → BufferRef

-- one call of `schedule_internal_operation`
pub record InternalOp : Type 0 where
  pub sq_id : ℕ
  pub nsecs_target : ℕ
  pub write_buffer : BufferRef
  pub bufs_to_release : ℕ

-- What a handler leaves behind: whether it took the request, `ret`, the start address that stands in
-- the command afterwards, the operations it scheduled, the newest first, and the state.
pub record Served : Type 0 where
  pub accepted : Bool
  pub status : Status
  pub nsecs_target : ℕ
  pub slba : ℕ
  pub ops : List InternalOp
  pub ftl : ZnsFtl

abbrev pub nr_lbas : RwRequest → ℕ
nr_lbas req = u32 (req.length + 1)

-- `__check_boundary_error`: true when the range lies within one zone.
unfoldable pub check_boundary : ZnsFtl → ℕ → ℕ → Bool
check_boundary ftl slba nr_lba = lba_to_zone ftl slba == lba_to_zone ftl (sub64 (slba + nr_lba) 1)

-- `__increase_write_ptr` for the zone `zid` with the descriptor `d`; `ASSERT(0)` is compiled out.
unfoldable pub increase_write_ptr : ZnsFtl → ℕ → ZoneDescriptor → ℕ → ZnsFtl
increase_write_ptr ftl zid d nr_lba =
    let d' = record d { wp = u64 (d.wp + nr_lba) } in
    if u64 (d.wp + nr_lba) == u64 (zone_to_slba ftl zid + d.zone_capacity)
    then change_zone_state (release_zone_resource (release_zone_resource ftl open_zone) active_zone)
        zid d' full
    else put_desc ftl zid d'

-- `__lpn_to_ppa`. `g.pg` has 16 bits, `g.lun` and `g.ch` have 8.
unfoldable pub lpn_to_ppa : ZnsFtl → ℕ → Ppa
lpn_to_ppa ftl lpn =
    let spp = ftl.ssd.sp in
    let zone = lpn_to_zone ftl lpn in
    let off = sub64 lpn (zone_to_slpn ftl zone) in
    let sdie = u64 (zone * ftl.zp.dies_per_zone) % spp.tt_luns in
    let die = u32 (sdie + off / spp.pgs_per_oneshotpg % ftl.zp.dies_per_zone) in
    record {
      pg = off % spp.pgs_per_oneshotpg % 2 ^ 16;
      blk = 0;
      pl = 0;
      lun = die_to_lun ftl die % 2 ^ 8;
      ch = die_to_channel ftl die % 2 ^ 8;
      rsv = 0;
    }

-- `ret->nsecs_target`: the flash operations are waited for, or only the transfer.
abbrev pub completion : ZnsFtl → RwRequest → ℕ → ℕ → ℕ
completion ftl req nsecs_latest nsecs_xfer_completed =
    if req.fua
    then nsecs_latest
    else if ftl.ssd.sp.write_early_completion
    then nsecs_xfer_completed
    else nsecs_latest
