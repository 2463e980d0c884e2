-- ===== src/Tests/Drives.antt =====
-- The drive at concrete values.
use nvme_virt.Prelude.{ℕ, ◌+◌, ◌*◌, ◌/◌, ◌≤◌, ◌≡◌, refl, some, false, Returns, arith}
use nvme_virt.Channel.{chmodel_init}
use nvme_virt.Ssd.Config.{samsung_970pro}
use nvme_virt.Ssd.Params.{SsdParams, block_layout, fill_params, ssd_init_params}
use nvme_virt.Ssd.Params.Capacity.{Fits, ssd_init_params-covers}
use nvme_virt.Ssd.Params.Geometry.{Nests, Sizes, ssd_init_params-Nests}
use nvme_virt.Ssd.Layout.{Ssd, ssd_init, ssd_init_ch, ssd_init_nand_lun, get_ch, get_lun}
use nvme_virt.Ssd.Timing.{NandCmd, nand_write, user_io, ssd_advance_nand, ssd_next_idle_time, Lanes}
use nvme_virt.Ssd.Timing.Advance.{Advanced, ssd_advance_nand-Advanced}
use nvme_virt.Ssd.Timing.Idle.{IsLatestOf, HasLuns, ssd_next_idle_time-IsLatestOf}
use nvme_virt.Ssd.Timing.Calm.{Calm}
use nvme_virt.Ssd.Timing.Init.{ssd_init-Calm}
use nvme_virt.Tests.{small_spp}

-- 512 GiB on the conventional configuration, whose size of a block follows from the capacity
abbrev pro_spp : SsdParams
pro_spp = fill_params samsung_970pro 8 1048576 8192

pro_params : ssd_init_params samsung_970pro 549755813888 1 ≡ some pro_spp
unfolding ssd_init_params block_layout
pro_params = refl

pro-Sizes : Sizes pro_spp
unfolding fill_params
pro-Sizes = record {
  pgs = omega arith;
  blks = omega arith;
  pls = omega arith;
  luns = omega arith;
  chs = omega arith;
  block_small = omega arith;
  plane_small = omega arith;
  lun_small = omega arith;
  channel_small = omega arith;
  line_small = omega arith;
  drive_small = omega arith;
}

ssd_init_params-Nests_example : Nests pro_spp
ssd_init_params-Nests_example =
    ssd_init_params-Nests samsung_970pro 549755813888 1 pro_params pro-Sizes

pro-Fits : Fits samsung_970pro (549755813888 / 1) 1048576 pro_spp
unfolding fill_params
pro-Fits = record {
  pages = omega arith;
  block_small = omega arith;
  share_small = omega arith;
  blocks_small = omega arith;
  bytes_small = omega arith;
  count_small = omega arith;
}

pro_layout : block_layout samsung_970pro 8 549755813888 ≡ some (1048576, 8192)
unfolding block_layout
pro_layout = refl

ssd_init_params-covers_example : 549755813888 / 1 ≤ pro_spp.tt_pgs * pro_spp.pgsz
ssd_init_params-covers_example =
    ssd_init_params-covers samsung_970pro 549755813888 1 1048576 8192 pro_layout pro_params
      pro-Sizes pro-Fits

abbrev tick : ℕ → ℕ
tick i = 1000 + i

abbrev program_cmd : NandCmd
program_cmd = record {
  type = user_io;
  cmd = nand_write;
  xfer_size = 8192;
  stime = 5000;
  interleave_pci_dma = false;
  ppa = record { pg = 1; blk = 0; pl = 0; lun = 1; ch = 1; rsv = 0 };
}

ch_there : get_ch (ssd_init small_spp) program_cmd.ppa ≡ some (ssd_init_ch small_spp)
unfolding get_ch ssd_init
ch_there = refl

lun_there : get_lun (ssd_init small_spp) program_cmd.ppa ≡ some (ssd_init_nand_lun small_spp)
unfolding get_lun get_ch ssd_init ssd_init_ch
lun_there = refl

prog_time : some (ssd_init small_spp).sp.pg_wr_lat ≡ some 100
unfolding ssd_init
prog_time = refl

clear : (ssd_init_nand_lun small_spp).next_lun_avail_time ≡ 0
unfolding ssd_init_nand_lun
clear = refl

ssd_advance_nand-Advanced_example :
    Returns
      (Advanced (ssd_init small_spp) program_cmd 5000 100 (ssd_init_nand_lun small_spp))
      (ssd_advance_nand tick (ssd_init small_spp) program_cmd)
unfolding ssd_init
ssd_advance_nand-Advanced_example =
    ssd_advance_nand-Advanced tick (ssd_init small_spp) program_cmd (ssd_init_ch small_spp)
      (ssd_init_nand_lun small_spp) 100 (omega arith) ch_there lun_there
      (ssd_init-Calm small_spp (omega arith) (omega arith)).valid prog_time tt
      (rw clear (omega arith))

abbrev two_links : Lanes
two_links = record { chnl = chmodel_init 800; pcie = chmodel_init 3200; ticks = 0 }

small_luns :
    HasLuns (ssd_init small_spp).sp.luns_per_ch (ssd_init small_spp).sp.nchs (ssd_init small_spp).ch
unfolding ssd_init ssd_init_ch
small_luns = (omega arith, (omega arith, tt))

ssd_next_idle_time-IsLatestOf_example :
    Returns
      (λ (r : ℕ × Ssd).
        IsLatestOf
          (ssd_init small_spp).sp.luns_per_ch
          (ssd_init small_spp).sp.nchs
          (ssd_init small_spp).ch
          (tick (ssd_init small_spp).ticks)
          r.0
        × (r.1 ≡ record (ssd_init small_spp) { ticks = (ssd_init small_spp).ticks + 1 }))
      (ssd_next_idle_time tick (ssd_init small_spp))
ssd_next_idle_time-IsLatestOf_example =
    ssd_next_idle_time-IsLatestOf tick (ssd_init small_spp) small_luns

ssd_init-Calm_example : Calm small_spp 0 (ssd_init small_spp)
ssd_init-Calm_example = ssd_init-Calm small_spp (omega arith) (omega arith)
