-- ===== src/Tests/Zones.antt =====
-- The zoned namespace at concrete values.
use nvme_virt.Prelude.{ℕ, ◌≡◌, refl, some, true, false, get_elem?, Returns, arith}
use nvme_virt.Ssd.Layout.{ssd_init}
use nvme_virt.Zns.State.{
  ZnsFtl, ZoneDescriptor, Status, fresh_desc, zns_init_ftl, init_zone_descs, lba_to_zone,
}
use nvme_virt.Zns.Manage.{
  zsa_reset_zone, Outcome, ZoneMgmtSend, zsa_finish_zone, zsa_open_zone, zmgmt_send, zns_zmgmt_send,
}
use nvme_virt.Zns.Manage.Isolated.{Reset, zmgmt_send-Reset}
use nvme_virt.Zns.Manage.Effects.{Changed, zmgmt_send-Changed}
use nvme_virt.Zns.Manage.Counted.{Ready, zns_zmgmt_send-Ready, zns_init_ftl-Ready}
use nvme_virt.Zns.Report.{ZoneMgmtRecv, check_zmgmt_rcv_option_supported, zns_zmgmt_recv}
use nvme_virt.Zns.Report.Complete.{Reports, zns_zmgmt_recv-Reports}
use nvme_virt.Tests.{small_spp, small_zp}

abbrev pub small_ftl : ZnsFtl
small_ftl = zns_init_ftl small_zp (ssd_init small_spp) (λ a. 0)

pub small_ftl-Ready : Ready small_ftl
unfolding zns_init_ftl ssd_init
small_ftl-Ready =
    zns_init_ftl-Ready small_zp (ssd_init small_spp) (λ a. 0) (omega arith) (omega arith)
      (omega arith)

zns_init_ftl-Ready_example : Ready small_ftl
unfolding zns_init_ftl ssd_init
zns_init_ftl-Ready_example =
    zns_init_ftl-Ready small_zp (ssd_init small_spp) (λ a. 0) (omega arith) (omega arith)
      (omega arith)

abbrev finish_all : ZoneMgmtSend
finish_all = record { slba = 40; zsa = zsa_finish_zone; select_all = true; zsaso = false }

zns_zmgmt_send-Ready_example :
    Returns
      (λ (o : (Status × ℕ) × ZnsFtl). (o.0.1 ≡ 77) × Ready o.1)
      (zns_zmgmt_send small_ftl finish_all 77)
unfolding zns_init_ftl ssd_init lba_to_zone
zns_zmgmt_send-Ready_example =
    zns_zmgmt_send-Ready small_ftl finish_all 77 small_ftl-Ready (λ e. omega arith)
      (λ one. omega arith)

zmgmt_send-Changed_example :
    Returns
      (λ (o : Outcome). Changed small_ftl (lba_to_zone small_ftl 40) o.1)
      (zmgmt_send small_ftl 40 zsa_open_zone false)
unfolding zns_init_ftl ssd_init lba_to_zone init_zone_descs
zmgmt_send-Changed_example =
    zmgmt_send-Changed small_ftl 40 zsa_open_zone false small_ftl-Ready.counted (λ e. omega arith)
      (omega arith)

abbrev pub second_zone : ZoneDescriptor
second_zone = fresh_desc 16384 32

pub second_there : get_elem? small_ftl.zone_descs 1 ≡ some second_zone
unfolding zns_init_ftl init_zone_descs
second_there = refl

pub append_there : get_elem? small_ftl.zone_descs (lba_to_zone small_ftl 32) ≡ some second_zone
unfolding zns_init_ftl init_zone_descs lba_to_zone ssd_init
append_there = refl

abbrev report_cmd : ZoneMgmtRecv
report_cmd = record { slba = 64; nr_dw = 79; zra = 0; zra_specific_field = 0; partial = true }

supported : check_zmgmt_rcv_option_supported small_ftl report_cmd ≡ true
unfolding zns_init_ftl ssd_init lba_to_zone check_zmgmt_rcv_option_supported
supported = refl

zns_zmgmt_recv-Reports_example :
    Returns (Reports small_ftl report_cmd 5) (zns_zmgmt_recv small_ftl report_cmd 5)
unfolding zns_init_ftl ssd_init lba_to_zone init_zone_descs
zns_zmgmt_recv-Reports_example =
    zns_zmgmt_recv-Reports small_ftl report_cmd 5 small_ftl-Ready.zones (omega arith) supported
      (λ _. (omega arith, omega arith))

zmgmt_send-Reset_example :
    Returns
      (Reset small_ftl (lba_to_zone small_ftl 32) second_zone)
      (zmgmt_send small_ftl 32 zsa_reset_zone false)
zmgmt_send-Reset_example = zmgmt_send-Reset small_ftl 32 false second_zone append_there
