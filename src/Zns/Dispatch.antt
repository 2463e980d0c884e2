-- ===== src/Zns/Dispatch.antt =====
-- `zns_proc_nvme_io_cmd` and `zns_flush` of zns_ftl.c, and `zns_write` of zns_read_write.c.
use nvme_virt.Prelude.{ℕ, [], true, Option, some, if◌then◌else◌, ◌>>=◌, get_elem?, max_of, ◌+◌}
use nvme_virt.Ssd.Timing.{ssd_next_idle_time}
use nvme_virt.Zns.State.{Status, success, ZnsFtl, lpn_to_zone, lba_to_lpn}
use nvme_virt.Zns.Request.{RwRequest, Served}
use nvme_virt.Zns.Write.{write_plain}
use nvme_virt.Zns.Zrwa.{write_zrwa}
use nvme_virt.Zns.Read.{zns_read}
use nvme_virt.Zns.Manage.{ZoneMgmtSend, zns_zmgmt_send}
use nvme_virt.Zns.Report.{ZoneMgmtRecv, zns_zmgmt_recv}

-- `cmd->common.opcode` with the part of the command that its handler reads. A write and an append
-- differ in `append`.
pub data Command : Type 0 where
  write read : RwRequest → Command
  flush : Command
  zone_mgmt_send : ZoneMgmtSend → ℕ → Command
  zone_mgmt_recv : ZoneMgmtRecv → ℕ → Command
  unimplemented : ℕ → ℕ → Command

module _ (clock : ℕ → ℕ) where
  pub zns_write : ZnsFtl → RwRequest → Option Served
  zns_write ftl req = do
    d ← get_elem? ftl.zone_descs (lpn_to_zone ftl (lba_to_lpn ftl req.slba))
    if d.zrwav then write_zrwa clock ftl req else write_plain clock ftl req

  abbrev answered : Status → ℕ → ZnsFtl → Served
  answered s t ftl = record {
    accepted = true;
    status = s;
    nsecs_target = t;
    slba = 0;
    ops = [];
    ftl = ftl;
  }

  -- one reading of the clock, then the latest of it and the time at which the drive is idle
  pub zns_flush : ZnsFtl → Option Served
  zns_flush ftl = do
    let start = clock ftl.ssd.ticks
    let ssd = record ftl.ssd { ticks = ftl.ssd.ticks + 1 }
    (idle, ssd') ← ssd_next_idle_time clock ssd
    some (answered success (max_of start idle) (record ftl { ssd = ssd' }))

  -- A command without a case leaves `ret` as the caller initialises it: success at the start time.
  pub zns_proc_nvme_io_cmd : ZnsFtl → Command → Option Served
  zns_proc_nvme_io_cmd ftl (write req) = zns_write ftl req
  zns_proc_nvme_io_cmd ftl (read req) = zns_read clock ftl req
  zns_proc_nvme_io_cmd ftl flush = zns_flush ftl
  zns_proc_nvme_io_cmd ftl (zone_mgmt_send cmd t) = do
    ((s, done), ftl') ← zns_zmgmt_send ftl cmd t
    some (answered s done ftl')
  zns_proc_nvme_io_cmd ftl (zone_mgmt_recv cmd t) = do
    ((s, done), report) ← zns_zmgmt_recv ftl cmd t
    some (answered s done ftl)
  zns_proc_nvme_io_cmd ftl (unimplemented c t) = some (answered success t ftl)
