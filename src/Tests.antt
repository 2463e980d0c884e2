-- ===== src/Tests.antt =====
-- Concrete models, drives and namespaces, and the theorems at them.
mod Channels
mod Drives
mod Transfers
mod Zones
mod Units
mod Stores
mod Iterators
mod Admins
mod Workers
mod Requests
mod Reads
mod Conventional
use nvme_virt.Prelude.{ℕ, ◌+◌, ◌*◌, ◌^◌, List, [], ◌∷◌, true, false}
use nvme_virt.Ssd.Params.{SsdParams}
use nvme_virt.Zns.State.{ZnsParams}

-- two channels of two LUNs, one-shot pages of two pages
abbrev pub small_spp : SsdParams
small_spp = record {
  secsz = 512;
  secs_per_pg = 8;
  pgsz = 4096;
  pgs_per_flashpg = 2;
  flashpgs_per_blk = 2;
  pgs_per_oneshotpg = 2;
  oneshotpgs_per_blk = 2;
  pgs_per_blk = 4;
  blks_per_pl = 4;
  pls_per_lun = 1;
  luns_per_ch = 2;
  nchs = 2;
  cell_mode = 0;
  write_unit_size = 512;
  write_early_completion = true;
  pg_4kb_rd_lat = 30 ∷ 40 ∷ 0 ∷ [];
  pg_rd_lat = 50 ∷ 60 ∷ 0 ∷ [];
  pg_wr_lat = 100;
  blk_er_lat = 0;
  max_ch_xfer_size = 4096;
  fw_4kb_rd_lat = 10;
  fw_rd_lat = 20;
  fw_wbuf_lat0 = 5;
  fw_wbuf_lat1 = 1;
  fw_ch_xfer_lat = 0;
  ch_bandwidth = 800;
  pcie_bandwidth = 3200;
  secs_per_blk = 32;
  secs_per_pl = 128;
  secs_per_lun = 128;
  secs_per_ch = 256;
  tt_secs = 512;
  pgs_per_pl = 16;
  pgs_per_lun = 16;
  pgs_per_ch = 32;
  tt_pgs = 64;
  blks_per_lun = 4;
  blks_per_ch = 8;
  tt_blks = 16;
  secs_per_line = 128;
  pgs_per_line = 16;
  blks_per_line = 4;
  tt_lines = 4;
  pls_per_ch = 2;
  tt_pls = 4;
  tt_luns = 4;
  write_buffer_size = 65536;
}

-- 16 zones of 32 sectors
abbrev pub small_zp : ZnsParams
small_zp = record {
  nr_zones = 16;
  nr_active_zones = 16;
  nr_open_zones = 16;
  dies_per_zone = 2;
  zone_size = 16384;
  zone_wb_size = 0;
  nr_zrwa_zones = 0;
  zrwafg_size = 4096;
  zrwa_size = 8192;
  zrwa_buffer_size = 0;
  lbas_per_zrwafg = 8;
  lbas_per_zrwa = 16;
}
