-- ===== src/Ssd/Layout.antt =====
-- The structures of ssd.h and their construction by `ssd_init`. `kmalloc` does not fail here. Left
-- out are fields that nothing reads or sets: `next_pln_avail_time` and the channel's `gc_endtime`.
pub mod Access
use nvme_virt.Prelude.{
  ℕ, ◌+◌, ◌*◌, ◌/◌, ◌%◌, ◌^◌, List, [], ◌∷◌, Bool, false, Option, some, none, ◌==◌, get_elem?, set,
  replicate, u32, ◌>>=◌,
}
use nvme_virt.Channel.{ChannelModel, chmodel_init, unit_xfer_size}
use nvme_virt.Buffer.{Buffer, buffer_init}
use nvme_virt.Ssd.Params.{SsdParams}

-- `struct ppa`: the bit fields of the 64-bit word, lowest first.
pub record Ppa : Type 0 where
  pub pg : ℕ
  pub blk : ℕ
  pub pl : ℕ
  pub lun : ℕ
  pub ch : ℕ
  pub rsv : ℕ

-- the union's `ppa`
abbrev pub ppa_word : Ppa → ℕ
ppa_word p = p.pg + 2 ^ 16 * p.blk + 2 ^ 32 * p.pl + 2 ^ 40 * p.lun + 2 ^ 48 * p.ch + 2 ^ 56 * p.rsv

abbrev pub unmapped_word : ℕ
unmapped_word = 0xffff_ffff_ffff_ffff

pub data PageStatus : Type 0 where
  pg_free pg_invalid pg_valid : PageStatus

pub data SecStatus : Type 0 where
  sec_free sec_invalid sec_valid : SecStatus

pub record NandPage : Type 0 where
  pub sec : List SecStatus
  pub nsecs : ℕ
  pub status : PageStatus

pub record NandBlock : Type 0 where
  pub pg : List NandPage
  pub npgs : ℕ
  pub ipc : ℕ
  pub vpc : ℕ
  pub erase_cnt : ℕ
  pub wp : ℕ

pub record NandPlane : Type 0 where
  pub blk : List NandBlock
  pub nblks : ℕ

-- `gc_endtime` is `none` until it is first set.
pub record NandLun : Type 0 where
  pub pl : List NandPlane
  pub npls : ℕ
  pub next_lun_avail_time : ℕ
  pub busy : Bool
  pub gc_endtime : Option ℕ

pub record SsdChannel : Type 0 where
  pub lun : List NandLun
  pub nluns : ℕ
  pub perf_model : ChannelModel

-- `ticks` counts the readings of the CPU clock so far.
pub record Ssd : Type 0 where
  pub sp : SsdParams
  pub ch : List SsdChannel
  pub pcie : ChannelModel
  pub write_buffer : Buffer
  pub ticks : ℕ

pub ssd_init_nand_page : SsdParams → NandPage
ssd_init_nand_page spp = record {
  sec = replicate spp.secs_per_pg sec_free;
  nsecs = spp.secs_per_pg;
  status = pg_free;
}

pub ssd_init_nand_blk : SsdParams → NandBlock
ssd_init_nand_blk spp = record {
  pg = replicate spp.pgs_per_blk (ssd_init_nand_page spp);
  npgs = spp.pgs_per_blk;
  ipc = 0;
  vpc = 0;
  erase_cnt = 0;
  wp = 0;
}

pub ssd_init_nand_plane : SsdParams → NandPlane
ssd_init_nand_plane spp = record {
  blk = replicate spp.blks_per_pl (ssd_init_nand_blk spp);
  nblks = spp.blks_per_pl;
}

unfoldable pub ssd_init_nand_lun : SsdParams → NandLun
ssd_init_nand_lun spp = record {
  pl = replicate spp.pls_per_lun (ssd_init_nand_plane spp);
  npls = spp.pls_per_lun;
  next_lun_avail_time = 0;
  busy = false;
  gc_endtime = none;
}

-- The channel's transfers carry the firmware overhead for each unit.
unfoldable pub ssd_init_ch : SsdParams → SsdChannel
ssd_init_ch spp =
    let model = chmodel_init spp.ch_bandwidth in
    record {
      lun = replicate spp.luns_per_ch (ssd_init_nand_lun spp);
      nluns = spp.luns_per_ch;
      perf_model = record model {
        xfer_lat = u32 (model.xfer_lat + spp.fw_ch_xfer_lat * unit_xfer_size / 4096);
      };
    }

unfoldable pub ssd_init : SsdParams → Ssd
ssd_init spp = record {
  sp = spp;
  ch = replicate spp.nchs (ssd_init_ch spp);
  pcie = chmodel_init spp.pcie_bandwidth;
  write_buffer = buffer_init spp.write_buffer_size;
  ticks = 0;
}

-- `get_ch` to `get_pg`; `none` is an index outside the array.
unfoldable pub get_ch : Ssd → Ppa → Option SsdChannel
get_ch ssd ppa = get_elem? ssd.ch ppa.ch

unfoldable pub get_lun : Ssd → Ppa → Option NandLun
get_lun ssd ppa = do ch ← get_ch ssd ppa; get_elem? ch.lun ppa.lun

unfoldable pub get_pl : Ssd → Ppa → Option NandPlane
get_pl ssd ppa = do lun ← get_lun ssd ppa; get_elem? lun.pl ppa.pl

unfoldable pub get_blk : Ssd → Ppa → Option NandBlock
get_blk ssd ppa = do pl ← get_pl ssd ppa; get_elem? pl.blk ppa.blk

unfoldable pub get_pg : Ssd → Ppa → Option NandPage
get_pg ssd ppa = do blk ← get_blk ssd ppa; get_elem? blk.pg ppa.pg

unfoldable pub get_cell : Ssd → Ppa → ℕ
get_cell ssd ppa = (ppa.pg / ssd.sp.pgs_per_flashpg) % (ssd.sp.cell_mode + 1)

-- A write through the pointers that `get_ch` and `get_lun` return.
unfoldable pub put_lun : Ssd → Ppa → SsdChannel → NandLun → Ssd
put_lun ssd ppa ch lun = record ssd {
  ch = set ssd.ch ppa.ch (record ch { lun = set ch.lun ppa.lun lun });
}
