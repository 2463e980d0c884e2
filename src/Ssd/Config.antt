-- ===== src/Ssd/Config.antt =====
-- ssd_config.h: the compile-time configuration that `BASE_SSD` selects, as a value. Sizes are in
-- bytes, latencies in nanoseconds, bandwidths in MB/s.
use nvme_virt.Prelude.{ℕ, ◌+◌, ◌-◌, ◌*◌, ◌/◌, ◌^◌}

abbrev pub lba_bits : ℕ
lba_bits = 9

abbrev pub lba_size : ℕ
lba_size = 2 ^ lba_bits

abbrev kb : ℕ → ℕ
kb k = k * 2 ^ 10

abbrev pub cell_mode_mlc : ℕ
cell_mode_mlc = 2

abbrev pub cell_mode_tlc : ℕ
cell_mode_tlc = 3

pub record Config : Type 0 where
  pub cell_mode : ℕ
  pub ssd_partitions : ℕ
  pub nand_channels : ℕ
  pub luns_per_nand_ch : ℕ
  pub plns_per_lun : ℕ
  pub flash_page_size : ℕ
  pub oneshot_page_size : ℕ
  pub blks_per_pln : ℕ
  pub blk_size : ℕ
  pub max_ch_xfer_size : ℕ
  pub write_unit_size : ℕ
  pub nand_channel_bandwidth : ℕ
  pub pcie_bandwidth : ℕ
  pub nand_4kb_read_latency_lsb : ℕ
  pub nand_4kb_read_latency_msb : ℕ
  pub nand_4kb_read_latency_csb : ℕ
  pub nand_read_latency_lsb : ℕ
  pub nand_read_latency_msb : ℕ
  pub nand_read_latency_csb : ℕ
  pub nand_prog_latency : ℕ
  pub nand_erase_latency : ℕ
  pub fw_4kb_read_latency : ℕ
  pub fw_read_latency : ℕ
  pub fw_wbuf_latency0 : ℕ
  pub fw_wbuf_latency1 : ℕ
  pub fw_ch_xfer_latency : ℕ
  pub global_wb_size : ℕ
  pub write_early_completion : ℕ

-- What a zoned device has besides.
pub record ZoneConfig : Type 0 where
  pub zone_size : ℕ
  pub dies_per_zone : ℕ
  pub zone_wb_size : ℕ
  pub max_zrwa_zones : ℕ
  pub zrwafg_size : ℕ
  pub zrwa_size : ℕ
  pub zrwa_buffer_size : ℕ

abbrev pub samsung_970pro : Config
samsung_970pro = record {
  cell_mode = cell_mode_mlc;
  ssd_partitions = 1;
  nand_channels = 8;
  luns_per_nand_ch = 8;
  plns_per_lun = 1;
  flash_page_size = kb 32;
  oneshot_page_size = kb 32 * 1;
  blks_per_pln = 8192;
  blk_size = 0;
  max_ch_xfer_size = kb 16;
  write_unit_size = 512;
  nand_channel_bandwidth = 800;
  pcie_bandwidth = 3360;
  nand_4kb_read_latency_lsb = 35760 - 6000;
  nand_4kb_read_latency_msb = 35760 + 6000;
  nand_4kb_read_latency_csb = 0;
  nand_read_latency_lsb = 36013 - 6000;
  nand_read_latency_msb = 36013 + 6000;
  nand_read_latency_csb = 0;
  nand_prog_latency = 185000;
  nand_erase_latency = 0;
  fw_4kb_read_latency = 21500;
  fw_read_latency = 30490;
  fw_wbuf_latency0 = 4000;
  fw_wbuf_latency1 = 460;
  fw_ch_xfer_latency = 0;
  global_wb_size = 8 * 8 * kb 32 * 2;
  write_early_completion = 1;
}

abbrev pub zns_prototype_zones : ZoneConfig
zns_prototype_zones = record {
  zone_size = 32 * 2 ^ 20;
  dies_per_zone = 1;
  zone_wb_size = 0;
  max_zrwa_zones = 0;
  zrwafg_size = 0;
  zrwa_size = 0;
  zrwa_buffer_size = 0;
}

abbrev pub zns_prototype : Config
zns_prototype = record {
  cell_mode = cell_mode_tlc;
  ssd_partitions = 1;
  nand_channels = 8;
  luns_per_nand_ch = 16;
  plns_per_lun = 1;
  flash_page_size = kb 64;
  oneshot_page_size = kb 64 * 2;
  blks_per_pln = 0;
  blk_size = zns_prototype_zones.zone_size / zns_prototype_zones.dies_per_zone;
  max_ch_xfer_size = kb 64;
  write_unit_size = kb 64 * 2;
  nand_channel_bandwidth = 800;
  pcie_bandwidth = 3200;
  nand_4kb_read_latency_lsb = 25485;
  nand_4kb_read_latency_msb = 25485;
  nand_4kb_read_latency_csb = 25485;
  nand_read_latency_lsb = 40950;
  nand_read_latency_msb = 40950;
  nand_read_latency_csb = 40950;
  nand_prog_latency = 1913640;
  nand_erase_latency = 0;
  fw_4kb_read_latency = 37540 - 7390 + 2000;
  fw_read_latency = 37540 - 7390 + 2000;
  fw_wbuf_latency0 = 0;
  fw_wbuf_latency1 = 0;
  fw_ch_xfer_latency = 413;
  global_wb_size = 8 * 16 * (kb 64 * 2) * 2;
  write_early_completion = 0;
}

abbrev pub wd_zn540_zones : ZoneConfig
wd_zn540_zones = record {
  zone_size = 2 * 2 ^ 30;
  dies_per_zone = 8 * 4;
  zone_wb_size = 10 * (kb 32 * 3);
  max_zrwa_zones = 0;
  zrwafg_size = 0;
  zrwa_size = 0;
  zrwa_buffer_size = 0;
}

abbrev pub wd_zn540 : Config
wd_zn540 = record {
  cell_mode = cell_mode_tlc;
  ssd_partitions = 1;
  nand_channels = 8;
  luns_per_nand_ch = 4;
  plns_per_lun = 1;
  flash_page_size = kb 32;
  oneshot_page_size = kb 32 * 3;
  blks_per_pln = 0;
  blk_size = wd_zn540_zones.zone_size / wd_zn540_zones.dies_per_zone;
  max_ch_xfer_size = kb 32;
  write_unit_size = 512;
  nand_channel_bandwidth = 450;
  pcie_bandwidth = 3050;
  nand_4kb_read_latency_lsb = 50000;
  nand_4kb_read_latency_msb = 50000;
  nand_4kb_read_latency_csb = 50000;
  nand_read_latency_lsb = 58000;
  nand_read_latency_msb = 58000;
  nand_read_latency_csb = 58000;
  nand_prog_latency = 561000;
  nand_erase_latency = 0;
  fw_4kb_read_latency = 20000;
  fw_read_latency = 13000;
  fw_wbuf_latency0 = 5600;
  fw_wbuf_latency1 = 600;
  fw_ch_xfer_latency = 0;
  global_wb_size = 0;
  write_early_completion = 1;
}
