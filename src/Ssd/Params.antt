-- ===== src/Ssd/Params.antt =====
-- `struct ssdparams` of ssd.h and `ssd_init_params` of ssd.c. An `int` field holds its 32 bits, and a
-- product of `int`s wraps at 32 bits and is extended by its sign where it is stored in 64; a product
-- with a 64-bit factor wraps at 64 bits.
pub mod Geometry
pub mod Capacity
use nvme_virt.Prelude.{
  ℕ, ◌+◌, ◌*◌, ◌/◌, ◌%◌, List, [], ◌∷◌, Bool, Option, some, none, ltb, ◌==◌, not, ◌&&◌,
  if◌then◌else◌, div_round_up, u32, u64, int_to_u64, ◌>>=◌, ◌>>◌, assert,
}
use nvme_virt.Ssd.Config.{Config, lba_size}

-- The fields up to `fw_ch_xfer_lat` are `int`s, as their 32 bits, the others 64-bit words.
pub record SsdParams : Type 0 where
  pub secsz : ℕ
  pub secs_per_pg : ℕ
  pub pgsz : ℕ
  pub pgs_per_flashpg : ℕ
  pub flashpgs_per_blk : ℕ
  pub pgs_per_oneshotpg : ℕ
  pub oneshotpgs_per_blk : ℕ
  pub pgs_per_blk : ℕ
  pub blks_per_pl : ℕ
  pub pls_per_lun : ℕ
  pub luns_per_ch : ℕ
  pub nchs : ℕ
  pub cell_mode : ℕ
  pub write_unit_size : ℕ
  pub write_early_completion : Bool
  pub pg_4kb_rd_lat : List ℕ
  pub pg_rd_lat : List ℕ
  pub pg_wr_lat : ℕ
  pub blk_er_lat : ℕ
  pub max_ch_xfer_size : ℕ
  pub fw_4kb_rd_lat : ℕ
  pub fw_rd_lat : ℕ
  pub fw_wbuf_lat0 : ℕ
  pub fw_wbuf_lat1 : ℕ
  pub fw_ch_xfer_lat : ℕ
  pub ch_bandwidth : ℕ
  pub pcie_bandwidth : ℕ
  pub secs_per_blk : ℕ
  pub secs_per_pl : ℕ
  pub secs_per_lun : ℕ
  pub secs_per_ch : ℕ
  pub tt_secs : ℕ
  pub pgs_per_pl : ℕ
  pub pgs_per_lun : ℕ
  pub pgs_per_ch : ℕ
  pub tt_pgs : ℕ
  pub blks_per_lun : ℕ
  pub blks_per_ch : ℕ
  pub tt_blks : ℕ
  pub secs_per_line : ℕ
  pub pgs_per_line : ℕ
  pub blks_per_line : ℕ
  pub tt_lines : ℕ
  pub pls_per_ch : ℕ
  pub tt_pls : ℕ
  pub tt_luns : ℕ
  pub write_buffer_size : ℕ

-- The size of a block and the blocks in a plane: one is configured, the other follows from the
-- capacity. `none` is the assertion on `BLK_SIZE`, or a division by 0.
unfoldable pub block_layout : Config → ℕ → ℕ → Option (ℕ × ℕ)
block_layout cfg nchs capacity =
    let pls_per_lun = u32 cfg.plns_per_lun in
    let luns_per_ch = u32 cfg.luns_per_nand_ch in
    let blks_per_pl = u32 cfg.blks_per_pln in
    let blks = int_to_u64 (blks_per_pl * pls_per_lun * luns_per_ch * nchs) in
    let bytes = u64 (cfg.blk_size * pls_per_lun * luns_per_ch * nchs) in
    if ltb 0 cfg.blks_per_pln
    then assert (not (blks == 0)) >> some (div_round_up capacity blks, blks_per_pl)
    else do
      assert (ltb 0 cfg.blk_size)
      assert (not (bytes == 0))
      some (cfg.blk_size, u32 (div_round_up capacity bytes))

-- The fields, from the channels left after partitioning and the layout of the blocks.
unfoldable pub fill_params : Config → ℕ → ℕ → ℕ → SsdParams
fill_params cfg nchs blk_size blks_per_pl =
    let secsz = lba_size in
    let secs_per_pg = 4096 / lba_size in
    let pgsz = secsz * secs_per_pg in
    let pls_per_lun = u32 cfg.plns_per_lun in
    let luns_per_ch = u32 cfg.luns_per_nand_ch in
    let pgs_per_oneshotpg = u32 (cfg.oneshot_page_size / pgsz) in
    let oneshotpgs_per_blk = u32 (div_round_up blk_size cfg.oneshot_page_size) in
    let pgs_per_blk = u32 (pgs_per_oneshotpg * oneshotpgs_per_blk) in
    let secs_per_blk = int_to_u64 (secs_per_pg * pgs_per_blk) in
    let secs_per_pl = u64 (secs_per_blk * blks_per_pl) in
    let secs_per_lun = u64 (secs_per_pl * pls_per_lun) in
    let secs_per_ch = u64 (secs_per_lun * luns_per_ch) in
    let pgs_per_pl = int_to_u64 (pgs_per_blk * blks_per_pl) in
    let pgs_per_lun = u64 (pgs_per_pl * pls_per_lun) in
    let pgs_per_ch = u64 (pgs_per_lun * luns_per_ch) in
    let blks_per_lun = int_to_u64 (blks_per_pl * pls_per_lun) in
    let blks_per_ch = u64 (blks_per_lun * luns_per_ch) in
    let pls_per_ch = int_to_u64 (pls_per_lun * luns_per_ch) in
    let tt_luns = int_to_u64 (luns_per_ch * nchs) in
    let blks_per_line = tt_luns in
    let pgs_per_line = u64 (blks_per_line * pgs_per_blk) in
    record {
      secsz = secsz;
      secs_per_pg = secs_per_pg;
      pgsz = pgsz;
      pgs_per_flashpg = u32 (cfg.flash_page_size / pgsz);
      flashpgs_per_blk = u32 (cfg.oneshot_page_size / cfg.flash_page_size * oneshotpgs_per_blk);
      pgs_per_oneshotpg = pgs_per_oneshotpg;
      oneshotpgs_per_blk = oneshotpgs_per_blk;
      pgs_per_blk = pgs_per_blk;
      blks_per_pl = blks_per_pl;
      pls_per_lun = pls_per_lun;
      luns_per_ch = luns_per_ch;
      nchs = nchs;
      cell_mode = u32 cfg.cell_mode;
      write_unit_size = u32 cfg.write_unit_size;
      write_early_completion = not (cfg.write_early_completion == 0);
      pg_4kb_rd_lat =
          u32 cfg.nand_4kb_read_latency_lsb
          ∷ u32 cfg.nand_4kb_read_latency_msb
          ∷ u32 cfg.nand_4kb_read_latency_csb
          ∷ [];
      pg_rd_lat =
          u32 cfg.nand_read_latency_lsb
          ∷ u32 cfg.nand_read_latency_msb
          ∷ u32 cfg.nand_read_latency_csb
          ∷ [];
      pg_wr_lat = u32 cfg.nand_prog_latency;
      blk_er_lat = u32 cfg.nand_erase_latency;
      max_ch_xfer_size = u32 cfg.max_ch_xfer_size;
      fw_4kb_rd_lat = u32 cfg.fw_4kb_read_latency;
      fw_rd_lat = u32 cfg.fw_read_latency;
      fw_wbuf_lat0 = u32 cfg.fw_wbuf_latency0;
      fw_wbuf_lat1 = u32 cfg.fw_wbuf_latency1;
      fw_ch_xfer_lat = u32 cfg.fw_ch_xfer_latency;
      ch_bandwidth = cfg.nand_channel_bandwidth;
      pcie_bandwidth = cfg.pcie_bandwidth;
      secs_per_blk = secs_per_blk;
      secs_per_pl = secs_per_pl;
      secs_per_lun = secs_per_lun;
      secs_per_ch = secs_per_ch;
      tt_secs = u64 (secs_per_ch * nchs);
      pgs_per_pl = pgs_per_pl;
      pgs_per_lun = pgs_per_lun;
      pgs_per_ch = pgs_per_ch;
      tt_pgs = u64 (pgs_per_ch * nchs);
      blks_per_lun = blks_per_lun;
      blks_per_ch = blks_per_ch;
      tt_blks = u64 (blks_per_ch * nchs);
      secs_per_line = u64 (pgs_per_line * secs_per_pg);
      pgs_per_line = pgs_per_line;
      blks_per_line = blks_per_line;
      tt_lines = blks_per_lun;
      pls_per_ch = pls_per_ch;
      tt_pls = u64 (pls_per_ch * nchs);
      tt_luns = tt_luns;
      write_buffer_size = cfg.global_wb_size;
    }

-- `nparts ≡ 0` would divide by zero.
unfoldable pub ssd_init_params : Config → ℕ → ℕ → Option SsdParams
ssd_init_params cfg capacity nparts = do
  let pgsz = lba_size * (4096 / lba_size)
  assert (not (nparts == 0))
  assert (cfg.nand_channels % nparts == 0)
  let nchs = u32 (cfg.nand_channels / nparts)
  (blk_size, blks_per_pl) ← block_layout cfg nchs (capacity / nparts)
  assert (cfg.oneshot_page_size % pgsz == 0 && cfg.flash_page_size % pgsz == 0)
  assert (cfg.oneshot_page_size % cfg.flash_page_size == 0)
  some (fill_params cfg nchs blk_size blks_per_pl)
