-- ===== src/Tests/Transfers.antt =====
-- Reads and writes of a zoned namespace at concrete values.
use nvme_virt.Prelude.{
  Bool, ◌≤◌, if◌then◌else◌, ℕ, ◌+◌, ◌*◌, ◌^◌, ◌≡◌, refl, some, true, false, [], get_elem?, sub64,
  Returns, arith,
}
use nvme_virt.Buffer.{buffer_init}
use nvme_virt.Ssd.Layout.{ssd_init}
use nvme_virt.Ssd.Timing.Calm.{Calm-mono}
use nvme_virt.Ssd.Timing.Init.{ssd_init-Calm}
use nvme_virt.Zns.State.{zns_init_ftl, init_zone_descs, lba_to_zone, lpn_to_zone, zone_to_slpn}
use nvme_virt.Zns.Request.{RwRequest, ssd_buffer, lpn_to_ppa}
use nvme_virt.Zns.Placement.{Striped, InDrive, lpn_to_ppa-InDrive}
use nvme_virt.Zns.Write.{Job, Programmed, write_plain, get_write_buffer, program}
use nvme_virt.Zns.Write.Program.{Kept, no_ops, oneshot_cost, program-Kept}
use nvme_virt.Zns.Write.Pages.{Runs}
use nvme_virt.Zns.Write.Total.{Wrote, write_plain-Wrote}
use nvme_virt.Channel.Request.{max_latency}
use nvme_virt.Zns.State.{lba_to_lpn}
use nvme_virt.Ssd.Layout.{Ppa}
use nvme_virt.Ssd.Timing.Calm.{cell_of}
use nvme_virt.Zns.Read.{zns_read}
use nvme_virt.Zns.Read.Total.{Readable, page_cost, Completed, zns_read-Completed}
use nvme_virt.Tests.{small_spp}
use nvme_virt.Tests.Zones.{small_ftl, small_ftl-Ready, second_zone, append_there}

small-Striped : Striped small_ftl.zp small_ftl.ssd.sp
unfolding zns_init_ftl ssd_init
small-Striped = record {
  dies = omega arith;
  dies_small = omega arith;
  groups = 2;
  grouped = refl;
  some_group = omega arith;
  luns = refl;
  some_ch = omega arith;
  few_chs = omega arith;
  few_luns = omega arith;
  some_page = omega arith;
  few_pages = omega arith;
}

lpn_to_ppa-InDrive_example :
    InDrive small_ftl.ssd.sp
      (sub64 7 (zone_to_slpn small_ftl (lpn_to_zone small_ftl 7)))
      (lpn_to_ppa small_ftl 7)
lpn_to_ppa-InDrive_example = lpn_to_ppa-InDrive small_ftl small-Striped 7

-- an append of 16 sectors to zone 1
abbrev append_two_pages : RwRequest
append_two_pages = record {
  append = true;
  fua = true;
  slba = 32;
  length = 15;
  sq_id = 1;
  nsecs_start = 9000;
}

small-Runs : Runs small_ftl.zp small_ftl.ssd (2 ^ 34) 9000 16 32
unfolding zns_init_ftl ssd_init
small-Runs = record {
  striped = small-Striped;
  calm = Calm-mono (omega arith) (ssd_init-Calm small_spp (omega arith) (omega arith));
  whole = omega arith;
  sectors = omega arith;
  started = omega arith;
  slba_small = omega arith;
  transfer = omega arith;
  clear = omega arith;
}

buffer_there : get_write_buffer small_ftl (lba_to_zone small_ftl 32) ≡ some (buffer_init 65536)
unfolding zns_init_ftl ssd_init
buffer_there = refl

write_plain-Wrote_example :
    Returns
      (Wrote small_ftl append_two_pages (lba_to_zone small_ftl 32) second_zone)
      (write_plain (λ i. 1000 + i) small_ftl append_two_pages)
write_plain-Wrote_example =
    write_plain-Wrote (λ i. 1000 + i) small_ftl append_two_pages second_zone (2 ^ 34)
      small_ftl-Ready.counted append_there refl (omega arith) small-Runs (buffer_init 65536)
      buffer_there

abbrev small_job : Job
small_job = record {
  ftl = small_ftl;
  sq_id = 1;
  write_buffer = ssd_buffer;
  stime = 9000;
  elpn = 7;
  zone_elpn = 7;
}

abbrev not_yet : Programmed
not_yet = record { ssd = ssd_init small_spp; nsecs_latest = 9000; ops = [] }

small-Kept : Kept small_ftl.ssd.sp 9000 9000 not_yet
unfolding zns_init_ftl ssd_init
small-Kept = record {
  calm = Calm-mono (omega arith) (ssd_init-Calm small_spp (omega arith) (omega arith));
  since = omega arith;
  until = omega arith;
  due = no_ops;
}

program-Kept_example :
    Returns
      (Kept small_ftl.ssd.sp 9000 (9000 + 4 * oneshot_cost small_ftl.ssd.sp))
      (program (λ i. 1000 + i) 4 small_job 4 not_yet)
unfolding zns_init_ftl ssd_init
program-Kept_example =
    program-Kept (λ i. 1000 + i) small_job small-Striped (omega arith) (omega arith) (omega arith) 4
      9000 4 not_yet small-Kept (omega arith) (omega arith)

small_lats :
    (ppa : Ppa) (b : Bool)
    → (lat : ℕ) × (get_elem?
          (if b then small_spp.pg_4kb_rd_lat else small_spp.pg_rd_lat)
          (cell_of small_spp ppa)
        ≡ some lat)
      × (lat ≤ 50)
small_lats ppa true =
    let z : cell_of small_spp ppa ≡ 0 = omega arith in (30, rw z refl, omega arith)
small_lats ppa false =
    let z : cell_of small_spp ppa ≡ 0 = omega arith in (50, rw z refl, omega arith)

small-Readable : Readable small_ftl small_ftl.ssd.sp 4 7 50
unfolding zns_init_ftl ssd_init
small-Readable = record {
  lats = λ lpn b _ _. small_lats (lpn_to_ppa small_ftl lpn) b;
  some_page = omega arith;
  page_bytes = omega arith;
  piece = omega arith;
  flash_page = omega arith;
}

-- four pages from zone 1 on
abbrev read_four : RwRequest
read_four = record {
  append = false;
  fua = false;
  slba = 32;
  length = 31;
  sq_id = 1;
  nsecs_start = 9000;
}

read_there :
    get_elem? small_ftl.zone_descs (lpn_to_zone small_ftl (lba_to_lpn small_ftl 32))
    ≡ some second_zone
unfolding zns_init_ftl init_zone_descs lpn_to_zone lba_to_lpn ssd_init
read_there = refl

zns_read-Completed_example :
    Returns
      (Completed small_ftl read_four second_zone
        (9030 + 33 * page_cost small_ftl.ssd.sp 50 + max_latency))
      (zns_read (λ i. 1000 + i) small_ftl read_four)
unfolding zns_init_ftl ssd_init
zns_read-Completed_example =
    zns_read-Completed (λ i. 1000 + i) small_ftl read_four second_zone 9030 50 small-Striped
      small-Readable (Calm-mono (omega arith) (ssd_init-Calm small_spp (omega arith) (omega arith)))
      read_there (omega arith) (omega arith) (omega arith) (omega arith) (omega arith) (omega arith)
