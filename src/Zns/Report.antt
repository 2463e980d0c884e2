-- ===== src/Zns/Report.antt =====
-- zns_mgmt_recv.c: the report of the zones, but for the copy of its bytes to the host. `none` is a
-- copy from outside the array of descriptors.
pub mod Complete
use nvme_virt.Prelude.{
  ℕ, zero, suc, ◌+◌, ◌*◌, ◌/◌, List, [], ◌∷◌, Bool, true, false, Option, some, none, ◌==◌, not,
  if◌then◌else◌, leb, u32, u64, sub64, ◌>>=◌,
}
use nvme_virt.Zns.State.{Status, success, invalid_field, ZoneDescriptor, ZnsFtl, lba_to_zone}

-- `struct nvme_zone_mgmt_recv`; `partial` is `zra_specific_features`.
pub record ZoneMgmtRecv : Type 0 where
  pub slba : ℕ
  pub nr_dw : ℕ
  pub zra : ℕ
  pub zra_specific_field : ℕ
  pub partial : Bool

-- `struct zone_report`
pub record ZoneReport : Type 0 where
  pub nr_zones : ℕ
  pub zd : List ZoneDescriptor

abbrev pub zone_descriptor_bytes : ℕ
zone_descriptor_bytes = 64

-- `memcpy` of `n` descriptors from index `i` on.
unfoldable pub copy_descs : List ZoneDescriptor → ℕ → ℕ → Option (List ZoneDescriptor)
copy_descs xs zero zero = some []
copy_descs [] i n = if n == 0 then some [] else none
copy_descs (x ∷ xs) (suc i) n = copy_descs xs i n
copy_descs (x ∷ xs) zero (suc n) = do ys ← copy_descs xs zero n; some (x ∷ ys)

-- `(cmd->nr_dw + 1) * sizeof(uint32_t)`: the sum in 32 bits, the product in 64.
abbrev pub bytes_transfer : ZoneMgmtRecv → ℕ
bytes_transfer cmd = u32 (cmd.nr_dw + 1) * 4

-- `nr_zone_to_report`
abbrev pub nr_zone_to_report : ZnsFtl → ZoneMgmtRecv → ℕ
nr_zone_to_report ftl cmd =
    if cmd.partial
    then sub64 (bytes_transfer cmd / zone_descriptor_bytes) 1
    else sub64 ftl.zp.nr_zones (lba_to_zone ftl cmd.slba)

pub fill_zone_report : ZnsFtl → ZoneMgmtRecv → Option ZoneReport
fill_zone_report ftl cmd = do
  zd ← copy_descs ftl.zone_descs (lba_to_zone ftl cmd.slba) (nr_zone_to_report ftl cmd)
  some (record { nr_zones = nr_zone_to_report ftl cmd; zd = zd })

-- `__check_zmgmt_rcv_option_supported`
unfoldable pub check_zmgmt_rcv_option_supported : ZnsFtl → ZoneMgmtRecv → Bool
check_zmgmt_rcv_option_supported ftl cmd =
    if leb ftl.zp.nr_zones (lba_to_zone ftl cmd.slba)
    then false
    else if not (cmd.zra == 0)
    then false
    else if not (cmd.zra_specific_field == 0)
    then false
    else true

-- The status, the time, and the report if one was made.
pub zns_zmgmt_recv : ZnsFtl → ZoneMgmtRecv → ℕ → Option ((Status × ℕ) × Option ZoneReport)
zns_zmgmt_recv ftl cmd nsecs_start =
    let reported = do report ← fill_zone_report ftl cmd; some ((success, nsecs_start), some report)
    in if check_zmgmt_rcv_option_supported ftl cmd
      then reported
      else some ((invalid_field, nsecs_start), none)
